-- ===== src/Vm/Machine.antt =====
-- The class `VM` of client/src/vm/vm.cpp: its state, the fetches, the flags and the handlers.
-- `code_`, `perm_` and `table_` are written by the constructor alone: the first is an argument
-- here, the others stand in Vm/Run. `stack_` is held with its top first. An exception leaves no
-- state behind, since it leaves `run_vm` too. Sums of `ip_` and a small constant do not wrap.
pub mod Valid
pub mod Rules
pub mod Keeps
pub mod Branches
pub mod Flags
use crackme.Base.{
  ℕ, ◌+◌, ◌*◌, ◌%◌, ◌^◌, List, [], ◌∷◌, Bool, true, false, not, bit_and, bit_or, bit_xor, Bytes,
  u16, u32, u64, sub64, ◌-◌, ◌<<<◌, ◌>>>◌, ltb, leb, ◌==◌, if◌then◌else◌, length, set, get_or, drop,
  Error, Result, ok, err, vm_ip_out_of_range, vm_u16_oob, vm_u64_oob, vm_register_index_oob,
  vm_bad_cond, vm_ret_underflow,
}
use crackme.Buffer.{rd_be64}
use crackme.Config.{vm_mem_words}
use crackme.Vm.Op
use crackme.Vm.Words
use crackme.Vm.Words.{
  rotl64, rotr64, cond_zf, cond_nzf, cond_cf, cond_ncf, cond_sf, cond_nsf, fl_zf, fl_cf, fl_sf,
}

pub record Vm : Type 0 where
  pub mem : List ℕ
  pub reg : List ℕ
  pub stack : List ℕ
  pub flags : ℕ
  pub ip : ℕ
  pub path : ℕ
  pub halted : Bool
  pub halt_operand : ℕ

-- A method: it may throw, or it returns a value and the new state.
abbrev pub M : Type 0 → Type 0
M A = Vm → Result (A × Vm)

abbrev pub pure : {A : Type 0} → A → M A
pure a vm = ok (a, vm)

abbrev pub throw : {A : Type 0} → Error → M A
throw e vm = err e

infixl 5 ◌>>=◌ ◌>>◌
unfoldable pub ◌>>=◌ : {A B : Type 0} → M A → (A → M B) → M B
◌>>=◌ m f vm = elim (m vm) [ ok (a, vm') ↦ f a vm' | err e ↦ err e ]

abbrev pub ◌>>◌ : {B : Type 0} → M (Unit {0}) → M B → M B
m >> k = m >>= λ _. k

-- `u8()`, `u16()` and `u64()` of the class, which read the code at `ip_`.
module _ (code : Bytes) where
  unfoldable pub fetch8 : M ℕ
  fetch8 vm =
      if leb (length code) vm.ip
      then err vm_ip_out_of_range
      else ok (get_or code vm.ip 0, record vm { ip = vm.ip + 1 })

  unfoldable pub fetch16 : M ℕ
  fetch16 vm =
      if ltb (length code) (vm.ip + 2)
      then err vm_u16_oob
      else ok (
        u16 (bit_or (get_or code vm.ip 0 <<< 8) (get_or code (vm.ip + 1) 0)),
        record vm { ip = vm.ip + 2 },
      )

  unfoldable pub fetch64 : M ℕ
  fetch64 vm =
      if ltb (length code) (vm.ip + 8)
      then err vm_u64_oob
      else ok (rd_be64 (drop vm.ip code), record vm { ip = vm.ip + 8 })

-- `R(i)` read, and `R(i) = v`.
unfoldable pub get_reg : ℕ → M ℕ
get_reg i vm = if leb 16 i then err vm_register_index_oob else ok (get_or vm.reg i 0, vm)

unfoldable pub set_reg : ℕ → ℕ → M (Unit {0})
set_reg i v vm =
    if leb 16 i then err vm_register_index_oob else ok (tt, record vm { reg = set vm.reg i v })

unfoldable pub get_mem : ℕ → M ℕ
get_mem i vm = ok (get_or vm.mem i 0, vm)

unfoldable pub set_mem : ℕ → ℕ → M (Unit {0})
set_mem i v vm = ok (tt, record vm { mem = set vm.mem i v })

unfoldable pub get_flags : M ℕ
get_flags vm = ok (vm.flags, vm)

unfoldable pub set_ip : ℕ → M (Unit {0})
set_ip addr vm = ok (tt, record vm { ip = addr })

unfoldable pub cmp_flags : ℕ → ℕ → ℕ
cmp_flags a b =
    let diff = sub64 a b in
    let f1 = if a == b then bit_or 0 fl_zf else 0 in
    let f2 = if ltb a b then bit_or f1 fl_cf else f1 in
    if diff >>> 63 == 0 then f2 else bit_or f2 fl_sf

unfoldable pub set_cmp_flags : ℕ → ℕ → M (Unit {0})
set_cmp_flags a b vm = ok (tt, record vm { flags = cmp_flags a b })

-- `flags_ & bit` as a condition.
unfoldable pub has_flag : ℕ → ℕ → Bool
has_flag flags bit = not (bit_and flags bit == 0)

unfoldable pub cond_of : ℕ → ℕ → Result Bool
cond_of flags c =
    let z = has_flag flags fl_zf in
    let cf = has_flag flags fl_cf in
    let s = has_flag flags fl_sf in
    if c == cond_zf
    then ok z
    else if c == cond_nzf
    then ok (not z)
    else if c == cond_cf
    then ok cf
    else if c == cond_ncf
    then ok (not cf)
    else if c == cond_sf
    then ok s
    else if c == cond_nsf
    then ok (not s)
    else err vm_bad_cond

unfoldable pub cond : ℕ → M Bool
cond c vm = elim (cond_of vm.flags c) [ ok b ↦ ok (b, vm) | err e ↦ err e ]

unfoldable pub fold_path : Bool → M (Unit {0})
fold_path taken vm =
    let product = u64 (vm.path * 0x01000193) in
    let folded = bit_xor (bit_xor product (bit_and vm.ip 0xFFFF)) (if taken then 1 else 0) in
    ok (tt, record vm { path = u32 folded })

unfoldable pub push_stack : M (Unit {0})
push_stack vm = ok (tt, record vm { stack = vm.ip ∷ vm.stack })

unfoldable pub return_to : List ℕ → M (Unit {0})
return_to [] vm = err vm_ret_underflow
return_to (top ∷ rest) vm = ok (tt, record vm { ip = top; stack = rest })

unfoldable pub halt_with : ℕ → M (Unit {0})
halt_with operand vm = ok (tt, record vm { halt_operand = operand; halted = true })

-- The `switch` statements within handlers.
unfoldable pub alu3 : ℕ → ℕ → ℕ → ℕ
alu3 op a b =
    if op == Op.add
    then u64 (a + b)
    else if op == Op.sub
    then sub64 a b
    else if op == Op.mul
    then u64 (a * b)
    else if op == Op.xor
    then bit_xor a b
    else if op == Op.and
    then bit_and a b
    else bit_or a b

unfoldable pub shift : ℕ → ℕ → ℕ → ℕ
shift op a imm =
    let k = bit_and imm 63 in
    if op == Op.rol
    then rotl64 a imm
    else if op == Op.ror
    then rotr64 a imm
    else if op == Op.shl
    then if k == 0 then a else u64 (a <<< k)
    else if k == 0
    then a
    else a >>> k

unfoldable pub move_if : Bool → ℕ → ℕ → M (Unit {0})
move_if true rd rs = do v ← get_reg rs; set_reg rd v
move_if false rd rs = pure tt

unfoldable pub jump_if : Bool → ℕ → M (Unit {0})
jump_if true addr = set_ip addr
jump_if false addr = pure tt

-- The handlers. `op` is the opcode that was fetched.
module _ (code : Bytes) where
  unfoldable pub h_nop : M (Unit {0})
  h_nop = pure tt

  unfoldable pub h_mov_ri : M (Unit {0})
  h_mov_ri = do rd ← fetch8 code; imm ← fetch64 code; set_reg rd imm

  unfoldable pub h_mov_rr : M (Unit {0})
  h_mov_rr = do rd ← fetch8 code; rs ← fetch8 code; v ← get_reg rs; set_reg rd v

  unfoldable pub h_load : M (Unit {0})
  h_load = do
    rd ← fetch8 code
    areg ← fetch8 code
    a ← get_reg areg
    v ← get_mem (a % vm_mem_words)
    set_reg rd v

  unfoldable pub h_store : M (Unit {0})
  h_store = do
    areg ← fetch8 code
    rs ← fetch8 code
    v ← get_reg rs
    a ← get_reg areg
    set_mem (a % vm_mem_words) v

  unfoldable pub h_alu3 : ℕ → M (Unit {0})
  h_alu3 op = do
    rd ← fetch8 code
    ra ← fetch8 code
    rb ← fetch8 code
    a ← get_reg ra
    b ← get_reg rb
    set_reg rd (alu3 op a b)

  -- `~x` of a `uint64_t`.
  unfoldable pub h_not : M (Unit {0})
  h_not = do rd ← fetch8 code; ra ← fetch8 code; a ← get_reg ra; set_reg rd (2 ^ 64 - 1 - a)

  unfoldable pub h_shift : ℕ → M (Unit {0})
  h_shift op = do
    rd ← fetch8 code
    ra ← fetch8 code
    imm ← fetch8 code
    a ← get_reg ra
    set_reg rd (shift op a imm)

  unfoldable pub h_cmp : M (Unit {0})
  h_cmp = do ra ← fetch8 code; rb ← fetch8 code; a ← get_reg ra; b ← get_reg rb; set_cmp_flags a b

  unfoldable pub h_cmov : M (Unit {0})
  h_cmov = do
    rd ← fetch8 code
    rs ← fetch8 code
    c ← fetch8 code
    taken ← cond c
    move_if taken rd rs

  unfoldable pub h_jmp : M (Unit {0})
  h_jmp = do addr ← fetch16 code; set_ip addr

  unfoldable pub h_jcc : ℕ → M (Unit {0})
  h_jcc op = do
    addr ← fetch16 code
    flags ← get_flags
    let taken = if op == Op.jz then has_flag flags fl_zf else not (has_flag flags fl_zf)
    fold_path taken
    jump_if taken addr

  unfoldable pub h_call : M (Unit {0})
  h_call = do addr ← fetch16 code; push_stack; set_ip addr

  unfoldable pub h_ret : M (Unit {0})
  h_ret vm = return_to vm.stack vm

  unfoldable pub h_hash : M (Unit {0})
  h_hash = do
    rd ← fetch8 code
    ra ← fetch8 code
    rb ← fetch8 code
    a ← get_reg ra
    b ← get_reg rb
    set_reg rd (Words.hash_round a b)

  unfoldable pub h_mix : M (Unit {0})
  h_mix = do
    rd ← fetch8 code
    ra ← fetch8 code
    acc ← get_reg rd
    v ← get_reg ra
    set_reg rd (Words.mix acc v rd)

  unfoldable pub h_halt : M (Unit {0})
  h_halt = do operand ← fetch8 code; halt_with operand

  unfoldable pub h_unknown : M (Unit {0})
  h_unknown = halt_with 0xFD
