-- ===== src/Vm/Run/Results.antt =====
-- Well-formed states along a run, and the shape of what `finish` of client/src/vm/vm.cpp returns.
use mathlib.Core.Path.{subst}
use crackme.Base.{
  ℕ, ◌+◌, ◌*◌, ◌^◌, ◌<◌, ◌≡◌, refl, sym, List, [], ◌∷◌, ◌++◌, arith, bit_and, bit_xor, Bytes,
  IsByte, IsBytes, IsU32, u32, length, length-append, get_or, All-append, ok,
}
use crackme.Base.Bits.{bit_xor-lt, bit_and-le, bit_and_mask}
use crackme.Buffer.{be64}
use crackme.Buffer.Endian.{be64-IsBytes, length-be64}
use crackme.Blake2b.Bounds.{blake2b_total, blake2b_digest}
use crackme.Vm.Machine
use crackme.Vm.Machine.{Vm, fetch8}
use crackme.Vm.Machine.Valid.{IsValid, with_halt}
use crackme.Vm.Machine.Rules.{Keeps, then_fetch8}
use crackme.Vm.Machine.Keeps.{
  h_mov_ri-Keeps, h_mov_rr-Keeps, h_load-Keeps, h_store-Keeps, h_alu3-Keeps, h_not-Keeps,
  h_shift-Keeps, h_cmp-Keeps, h_cmov-Keeps, h_jmp-Keeps, h_jcc-Keeps, h_call-Keeps, h_hash-Keeps,
  h_mix-Keeps, h_halt-Keeps, h_unknown-Keeps, return_to-Keeps,
}
use crackme.Vm.Run.{
  Handler, h_nop, h_mov_ri, h_mov_rr, h_load, h_store, h_alu3, h_not, h_shift, h_cmp, h_cmov, h_jmp,
  h_jcc, h_call, h_ret, h_hash, h_mix, h_halt, h_unknown, invoke, VmResult, append_words,
  final_state, final_digest, finish, result_of,
}
use crackme.Vm.Run.Dispatch.{handler_for}
use crackme.Vm.Run.Direct.{direct_step, Runs, here, next, Ends, at_halt, at_limit}

module _ (code : Bytes) (bytes : IsBytes code) where
  invoke-Keeps :
      (h : Handler) (op : ℕ) (vm : Vm) → IsValid code vm → Keeps code (invoke code h op vm)
  unfolding invoke
  invoke-Keeps h_nop op vm v = unfold Machine.h_nop in v
  invoke-Keeps h_mov_ri op vm v = h_mov_ri-Keeps code bytes vm v
  invoke-Keeps h_mov_rr op vm v = h_mov_rr-Keeps code bytes vm v
  invoke-Keeps h_load op vm v = h_load-Keeps code bytes vm v
  invoke-Keeps h_store op vm v = h_store-Keeps code bytes vm v
  invoke-Keeps h_alu3 op vm v = h_alu3-Keeps code bytes vm v op
  invoke-Keeps h_not op vm v = h_not-Keeps code bytes vm v
  invoke-Keeps h_shift op vm v = h_shift-Keeps code bytes vm v op
  invoke-Keeps h_cmp op vm v = h_cmp-Keeps code bytes vm v
  invoke-Keeps h_cmov op vm v = h_cmov-Keeps code bytes vm v
  invoke-Keeps h_jmp op vm v = h_jmp-Keeps code bytes vm v
  invoke-Keeps h_jcc op vm v = h_jcc-Keeps code bytes vm v op
  invoke-Keeps h_call op vm v = h_call-Keeps code bytes vm v
  invoke-Keeps h_ret op vm v =
      unfold Machine.h_ret in return_to-Keeps code bytes vm.stack vm v.returns v
  invoke-Keeps h_hash op vm v = h_hash-Keeps code bytes vm v
  invoke-Keeps h_mix op vm v = h_mix-Keeps code bytes vm v
  invoke-Keeps h_halt op vm v = h_halt-Keeps code bytes vm v
  invoke-Keeps h_unknown op vm v = h_unknown-Keeps code bytes vm v

  -- One instruction of well-formed code keeps the machine well formed: 16 registers and 64 memory
  -- cells of 64 bits, return addresses and `ip_` near the code, 3 flag bits, a 32-bit path.
  pub direct_step-Keeps : (vm : Vm) → IsValid code vm → Keeps code (direct_step code vm)
  unfolding direct_step
  direct_step-Keeps vm v =
      then_fetch8 code bytes _ vm v λ op vm' (_, v'). invoke-Keeps (handler_for op) op vm' v'

  -- A run leads from well-formed states to well-formed states.
  pub Runs-IsValid : {n : ℕ} {vm w : Vm} → IsValid code vm → Runs code n vm w → IsValid code w
  Runs-IsValid v (here vm) = v
  Runs-IsValid v (next {vm = vm} vm' live e r) =
      Runs-IsValid (subst (Keeps code) e (direct_step-Keeps vm v)) r

  -- The loop ends in a well-formed state, also at the step limit.
  pub Ends-IsValid : {left : ℕ} {vm w : Vm} → IsValid code vm → Ends code left vm w → IsValid code w
  Ends-IsValid v (at_halt n h r d) = Runs-IsValid v r
  Ends-IsValid v (at_limit u r d e) =
      subst (IsValid code) (sym e) (with_halt code u (Runs-IsValid v r) 0xEE u.halted (omega arith))

-- What a result looks like: two digests of 32 bytes, a 32-bit path and one byte of halt code.
pub record IsResult (r : VmResult) : Type 0 where
  pub digest_size : length r.vm_digest ≡ 32
  pub digest_bytes : IsBytes r.vm_digest
  pub hash_size : length r.vm_state_hash ≡ 32
  pub hash_bytes : IsBytes r.vm_state_hash
  pub path_word : IsU32 r.vm_path_id
  pub code_byte : r.vm_halt_code < 256

append_words-IsBytes :
    (out : Bytes) (words : List ℕ) → IsBytes out → IsBytes (append_words out words)
unfolding append_words
append_words-IsBytes out [] h = h
append_words-IsBytes out (w ∷ words) h =
    append_words-IsBytes (out ++ be64 w) words (All-append IsByte out (be64 w) h (be64-IsBytes w))

length-append_words :
    (out : Bytes) (words : List ℕ) → length (append_words out words) ≡ length out + 8 * length words
unfolding append_words
length-append_words out [] = omega arith
length-append_words out (w ∷ words) =
    omega
      (arith, length-append_words (out ++ be64 w) words, length-append out (be64 w), length-be64 w)

length-final_digest : (w : Vm) → length (final_digest w) ≡ 32
unfolding final_digest
length-final_digest w =
    length-append_words []
      (get_or w.reg 12 0 ∷ get_or w.reg 13 0 ∷ get_or w.reg 14 0 ∷ get_or w.reg 15 0 ∷ [])

final_digest-IsBytes : (w : Vm) → IsBytes (final_digest w)
unfolding final_digest
final_digest-IsBytes w =
    append_words-IsBytes []
      (get_or w.reg 12 0 ∷ get_or w.reg 13 0 ∷ get_or w.reg 14 0 ∷ get_or w.reg 15 0 ∷ []) tt

halt_code-lt :
    (operand path : ℕ)
    → operand < 256
    → bit_and (u32 (bit_xor operand (bit_and path 0xFF))) 0xFFFFFFFF < 256
halt_code-lt operand path h =
    let low : bit_and path 0xFF < 2 ^ 8 = omega (arith, bit_and_mask 8 path) in
    let mixed : bit_xor operand (bit_and path 0xFF) < 2 ^ 8 = bit_xor-lt 8 _ _ h low in
    omega (arith, bit_and-le (u32 (bit_xor operand (bit_and path 0xFF))) 0xFFFFFFFF)

-- `finish` always returns, and from a well-formed state its result has the right shape.
pub finish-IsResult :
    (code : Bytes) (w : Vm) → IsValid code w → (r : VmResult) × (finish w ≡ ok r) × IsResult r
unfolding finish
finish-IsResult code w v =
    let (hash, made) =
      blake2b_total (final_state w) [] 32 (omega arith) (omega arith) (omega arith) in
    let (_, _, _, size, digits) = blake2b_digest (final_state w) [] 32 hash made in
    (
      result_of w hash,
      rw made refl,
      record {
        digest_size = length-final_digest w;
        digest_bytes = final_digest-IsBytes w;
        hash_size = size;
        hash_bytes = digits;
        path_word = v.path_word;
        code_byte = halt_code-lt w.halt_operand w.path v.operand_byte;
      },
    )
