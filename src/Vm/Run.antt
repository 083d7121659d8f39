-- ===== src/Vm/Run.antt =====
-- The permuted dispatch, the loop and the result of the class `VM` of client/src/vm/vm.cpp.
pub mod Permutation
pub mod Dispatch
pub mod Direct
pub mod Results
use crackme.Base.{
  ℕ, zero, suc, ◌+◌, ◌*◌, ◌%◌, ◌^◌, List, [], ◌∷◌, ◌++◌, Bool, true, false, bit_and, bit_or,
  bit_xor, Bytes, u16, u32, ◌<<<◌, set, get_or, replicate, Result, ok, err, ◌>>=◌,
}
use crackme.Buffer.{append, cat, str_bytes, be16, be32, be64}
use crackme.Config.{vm_perm_label, vm_perm_ks_domain}
use crackme.Blake2b.{blake2b, blake2b_ctr_keystream}
use crackme.Vm.Op
use crackme.Vm.Machine
use crackme.Vm.Machine.{Vm, M, fetch8}
use mathlib.Core.List.{reverse}

-- The pointers to member functions that `table_` holds.
pub data Handler : Type 0 where
  h_nop h_mov_ri h_mov_rr h_load h_store h_alu3 h_not h_shift h_cmp h_cmov h_jmp h_jcc : Handler
  h_call h_ret h_hash h_mix h_halt h_unknown : Handler

-- `(this->*handler)(op)`
unfoldable pub invoke : Bytes → Handler → ℕ → M (Unit {0})
invoke code h_nop op = Machine.h_nop code
invoke code h_mov_ri op = Machine.h_mov_ri code
invoke code h_mov_rr op = Machine.h_mov_rr code
invoke code h_load op = Machine.h_load code
invoke code h_store op = Machine.h_store code
invoke code h_alu3 op = Machine.h_alu3 code op
invoke code h_not op = Machine.h_not code
invoke code h_shift op = Machine.h_shift code op
invoke code h_cmp op = Machine.h_cmp code
invoke code h_cmov op = Machine.h_cmov code
invoke code h_jmp op = Machine.h_jmp code
invoke code h_jcc op = Machine.h_jcc code op
invoke code h_call op = Machine.h_call code
invoke code h_ret op = Machine.h_ret code
invoke code h_hash op = Machine.h_hash code
invoke code h_mix op = Machine.h_mix code
invoke code h_halt op = Machine.h_halt code
invoke code h_unknown op = Machine.h_unknown code

-- `perm[i] = i` for the `left` indices from `i` on.
unfoldable pub iota : ℕ → ℕ → List ℕ
iota zero i = []
iota (suc left) i = i ∷ iota left (i + 1)

unfoldable pub swap : List ℕ → ℕ → ℕ → List ℕ
swap perm i j = set (set perm i (get_or perm j 0)) j (get_or perm i 0)

-- The loop from `i` down to 1.
unfoldable pub shuffle : Bytes → ℕ → List ℕ → List ℕ
unfolding swap
shuffle ks zero perm = perm
shuffle ks (suc n) perm =
    let i = n + 1 in
    let j = bit_or (get_or ks (2 * i) 0 <<< 8) (get_or ks (2 * i + 1) 0) % (i + 1) in
    shuffle ks n (swap perm i j)

unfoldable pub handler_permutation : Bytes → Result (List ℕ)
unfolding shuffle iota
handler_permutation session_nonce =
    blake2b (cat (str_bytes vm_perm_label ∷ session_nonce ∷ [])) [] 32 >>= λ seed.
    blake2b_ctr_keystream seed (256 * 2) (str_bytes vm_perm_ks_domain) >>= λ ks.
    ok (shuffle ks 255 (iota 256 0))

-- The calls `set(op, handler)` of `build_dispatch_table`, in order.
abbrev pub dispatch_rows : List (ℕ × Handler)
dispatch_rows =
    (Op.nop, h_nop)
    ∷ (Op.mov_ri, h_mov_ri)
    ∷ (Op.mov_rr, h_mov_rr)
    ∷ (Op.load, h_load)
    ∷ (Op.store, h_store)
    ∷ (Op.add, h_alu3)
    ∷ (Op.sub, h_alu3)
    ∷ (Op.mul, h_alu3)
    ∷ (Op.xor, h_alu3)
    ∷ (Op.and, h_alu3)
    ∷ (Op.or, h_alu3)
    ∷ (Op.not, h_not)
    ∷ (Op.rol, h_shift)
    ∷ (Op.ror, h_shift)
    ∷ (Op.shl, h_shift)
    ∷ (Op.shr, h_shift)
    ∷ (Op.cmp, h_cmp)
    ∷ (Op.cmov, h_cmov)
    ∷ (Op.jmp, h_jmp)
    ∷ (Op.jz, h_jcc)
    ∷ (Op.jnz, h_jcc)
    ∷ (Op.call, h_call)
    ∷ (Op.ret, h_ret)
    ∷ (Op.hash_round, h_hash)
    ∷ (Op.mix, h_mix)
    ∷ (Op.halt, h_halt)
    ∷ []

-- The lambda `set`: `table_[perm_[op]] = h`.
set_rows : List ℕ → List (ℕ × Handler) → List Handler → List Handler
set_rows perm [] table = table
set_rows perm ((op, h) ∷ rows) table = set_rows perm rows (set table (get_or perm op 0) h)

unfoldable pub build_dispatch_table : List ℕ → List Handler
unfolding set_rows
build_dispatch_table perm = set_rows perm dispatch_rows (replicate 256 h_unknown)

-- The body of the loop.
unfoldable pub step : Bytes → List ℕ → List Handler → M (Unit {0})
unfolding invoke
step code perm table =
    Machine.◌>>=◌ (fetch8 code) λ op. invoke code (get_or table (get_or perm op 0) h_unknown) op

abbrev pub max_steps : ℕ
max_steps = 200000

-- The loop of `run`, with `left = kMaxSteps - steps` rounds to go.
unfoldable pub run_loop : Bytes → List ℕ → List Handler → ℕ → Vm → Result Vm
unfolding step
run_loop code perm table zero vm =
    ok (elim vm.halted [ true ↦ vm | false ↦ record vm { halt_operand = 0xEE } ])
run_loop code perm table (suc left) vm = elim vm.halted [
  | true ↦ ok vm
  | false ↦ step code perm table vm >>= λ (_, vm'). run_loop code perm table left vm'
]

pub record VmResult : Type 0 where
  pub vm_digest : Bytes
  pub vm_state_hash : Bytes
  pub vm_path_id : ℕ
  pub vm_halt_code : ℕ

append_words : Bytes → List ℕ → Bytes
append_words out [] = out
append_words out (w ∷ words) = append_words (append out (be64 w)) words

-- The bytes of `state` in `finish`; the stack goes out from its bottom.
unfoldable pub final_state : Vm → Bytes
unfolding append_words
final_state vm =
    let registers = append_words [] vm.reg in
    let stacked = append_words registers (reverse vm.stack) in
    let flagged = append stacked (bit_and vm.flags 0xFF ∷ []) in
    append (append flagged (be16 (u16 (bit_and vm.ip 0xFFFF)))) (be32 vm.path)

-- The registers 12 to 15.
unfoldable pub final_digest : Vm → Bytes
unfolding append_words
final_digest vm =
    append_words []
      (get_or vm.reg 12 0 ∷ get_or vm.reg 13 0 ∷ get_or vm.reg 14 0 ∷ get_or vm.reg 15 0 ∷ [])

abbrev pub result_of : Vm → Bytes → VmResult
result_of vm state_hash = record {
  vm_digest = final_digest vm;
  vm_state_hash = state_hash;
  vm_path_id = vm.path;
  vm_halt_code = bit_and (u32 (bit_xor vm.halt_operand (bit_and vm.path 0xFF))) 0xFFFFFFFF;
}

unfoldable pub finish : Vm → Result VmResult
unfolding final_state final_digest
finish vm = blake2b (final_state vm) [] 32 >>= λ state_hash. ok (result_of vm state_hash)
