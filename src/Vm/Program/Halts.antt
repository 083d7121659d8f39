-- ===== src/Vm/Program/Halts.antt =====
-- The embedded program of client/src/vm/bytecode_blob.cpp, decrypted, under the check of Vm/Static.
use crackme.Base.{
  ℕ, zero, suc, ◌*◌, >>=-eq-ok, ◌-◌, ◌≡◌, refl, ap, ◌∙◌, List, [], ◌∷◌, true, arith, bit_and,
  bit_xor, u32, Bytes, IsBytes, IsU64, All, length, Option, none, some, replicate, same_bytes, ok,
}
use mathlib.Core.Path.{subst}
use crackme.Buffer.{cat, be16, be32, be64, rd_be64}
use crackme.Obfuscation.{rg_obf}
use crackme.Blake2b.{
  blake2b, blake2b_from, init, update, final, compress, compress_words, inc, blake2b_ctr_keystream,
  stream_xor,
}
use crackme.Vm.Words
use crackme.Vm.Machine
use crackme.Vm.Machine.{Vm}
use crackme.Vm.Run.{VmResult, max_steps, finish, result_of, final_state}
use crackme.Vm.Run.Permutation.{handler_permutation-IsPermutation}
use crackme.Vm.Run.Direct.{Runs-run_loop}
use crackme.Vm.Run.Dispatch.{handler_for}
use crackme.Vm.Run.Results.{Runs-IsValid, IsResult, finish-IsResult}
use crackme.Vm.Isa.{takes}
use crackme.Vm.Isa.Decode.{decode, operands, read8, read16, read64}
use crackme.Vm.Static
use crackme.Vm.Static.{Abstract, certified}
use crackme.Vm.Static.Sound.{Describes, Known, Agree}
use crackme.Vm.Static.Certified.{Halts, certified-Halts}
use crackme.Vm.Program.{start, run_code, run_vm, load_bytecode}
use crackme.Vm.Program.Memory.{pack_inputs_total}
use crackme.Vm.Program.Refinement.{all_bytes, all_bytes-IsBytes, start-IsValid}

-- The bytes that `load_bytecode` decrypts.
abbrev pub program : Bytes
program =
    0x10 ∷ 0x0c ∷ 0x01 ∷ 0x23 ∷ 0x45 ∷ 0x67 ∷ 0x89 ∷ 0xab ∷ 0xcd ∷ 0xef ∷ 0x10 ∷ 0x0d ∷ 0xde ∷ 0xad
    ∷ 0xbe ∷ 0xef ∷ 0xca ∷ 0xfe ∷ 0xba ∷ 0xbe ∷ 0x10 ∷ 0x0e ∷ 0xa5 ∷ 0xa5 ∷ 0xa5 ∷ 0xa5 ∷ 0x5a
    ∷ 0x5a ∷ 0x5a ∷ 0x5a ∷ 0x10 ∷ 0x0f ∷ 0xf0 ∷ 0xe1 ∷ 0xd2 ∷ 0xc3 ∷ 0xb4 ∷ 0xa5 ∷ 0x96 ∷ 0x87
    ∷ 0x10 ∷ 0x00 ∷ 0x00 ∷ 0x00 ∷ 0x00 ∷ 0x00 ∷ 0x00 ∷ 0x00 ∷ 0x00 ∷ 0x00 ∷ 0x10 ∷ 0x01 ∷ 0x00
    ∷ 0x00 ∷ 0x00 ∷ 0x00 ∷ 0x00 ∷ 0x00 ∷ 0x00 ∷ 0x16 ∷ 0x10 ∷ 0x06 ∷ 0x00 ∷ 0x00 ∷ 0x00 ∷ 0x00
    ∷ 0x00 ∷ 0x00 ∷ 0x00 ∷ 0x01 ∷ 0x10 ∷ 0x08 ∷ 0x00 ∷ 0x00 ∷ 0x00 ∷ 0x00 ∷ 0x00 ∷ 0x00 ∷ 0x00
    ∷ 0x00 ∷ 0x50 ∷ 0x00 ∷ 0x01 ∷ 0x61 ∷ 0x00 ∷ 0x8f ∷ 0x11 ∷ 0x07 ∷ 0x00 ∷ 0x20 ∷ 0x02 ∷ 0x07
    ∷ 0x70 ∷ 0x0c ∷ 0x0c ∷ 0x02 ∷ 0x71 ∷ 0x0d ∷ 0x02 ∷ 0x34 ∷ 0x03 ∷ 0x02 ∷ 0x06 ∷ 0x50 ∷ 0x03
    ∷ 0x08 ∷ 0x61 ∷ 0x00 ∷ 0x78 ∷ 0x70 ∷ 0x0f ∷ 0x0f ∷ 0x02 ∷ 0x40 ∷ 0x0f ∷ 0x0f ∷ 0x07 ∷ 0x60
    ∷ 0x00 ∷ 0x80 ∷ 0x70 ∷ 0x0e ∷ 0x0e ∷ 0x02 ∷ 0x41 ∷ 0x0e ∷ 0x0e ∷ 0x0b ∷ 0x33 ∷ 0x0c ∷ 0x0c
    ∷ 0x0e ∷ 0x30 ∷ 0x0d ∷ 0x0d ∷ 0x0f ∷ 0x30 ∷ 0x00 ∷ 0x00 ∷ 0x06 ∷ 0x60 ∷ 0x00 ∷ 0x50 ∷ 0x70
    ∷ 0x0c ∷ 0x0c ∷ 0x0d ∷ 0x70 ∷ 0x0d ∷ 0x0d ∷ 0x0e ∷ 0x70 ∷ 0x0e ∷ 0x0e ∷ 0x0f ∷ 0x70 ∷ 0x0f
    ∷ 0x0f ∷ 0x0c ∷ 0x63 ∷ 0x00 ∷ 0xa4 ∷ 0xf0 ∷ 0x42 ∷ 0x00 ∷ 0x36 ∷ 0x03 ∷ 0x0c ∷ 0x35 ∷ 0x04
    ∷ 0x0d ∷ 0x03 ∷ 0x31 ∷ 0x05 ∷ 0x0e ∷ 0x0f ∷ 0x32 ∷ 0x09 ∷ 0x05 ∷ 0x06 ∷ 0x42 ∷ 0x0a ∷ 0x04
    ∷ 0x03 ∷ 0x43 ∷ 0x0b ∷ 0x04 ∷ 0x05 ∷ 0x33 ∷ 0x04 ∷ 0x0a ∷ 0x0b ∷ 0x10 ∷ 0x00 ∷ 0x00 ∷ 0x00
    ∷ 0x00 ∷ 0x00 ∷ 0x00 ∷ 0x00 ∷ 0x00 ∷ 0x03 ∷ 0x70 ∷ 0x09 ∷ 0x09 ∷ 0x04 ∷ 0x50 ∷ 0x09 ∷ 0x08
    ∷ 0x51 ∷ 0x05 ∷ 0x09 ∷ 0x01 ∷ 0x31 ∷ 0x00 ∷ 0x00 ∷ 0x06 ∷ 0x50 ∷ 0x00 ∷ 0x08 ∷ 0x62 ∷ 0x00
    ∷ 0xca ∷ 0x21 ∷ 0x07 ∷ 0x09 ∷ 0x33 ∷ 0x0c ∷ 0x0c ∷ 0x09 ∷ 0x30 ∷ 0x0d ∷ 0x0d ∷ 0x05 ∷ 0x33
    ∷ 0x0e ∷ 0x0e ∷ 0x04 ∷ 0x71 ∷ 0x0f ∷ 0x03 ∷ 0x64 ∷ []

program-IsBytes : IsBytes program
unfolding all_bytes
program-IsBytes = all_bytes-IsBytes program refl

-- Nothing is known of the registers but 0, 1, 6 and 8: the round, the 22 rounds, 1 and 0.
abbrev round_regs : ℕ → List (Option ℕ)
round_regs k =
    some k ∷ some 22 ∷ none ∷ none ∷ none ∷ none ∷ some 1 ∷ none ∷ some 0 ∷ replicate 7 none

-- The `left` last rounds of the loop at address 80, and its exit.
points : ℕ → List Abstract
points zero = record { ip = 80; regs = round_regs 22; flags = none; stack = [] } ∷ []
points (suc left) =
    record { ip = 80; regs = round_regs (22 - suc left); flags = none; stack = [] } ∷ points left

abbrev pub start_point : Abstract
start_point = record { ip = 0; regs = replicate 16 (some 0); flags = some 0; stack = [] }

load_bytecode-program : load_bytecode ≡ ok program
unfolding load_bytecode rg_obf cat be16 be32 be64 rd_be64 blake2b blake2b_from init update final
    compress compress_words inc blake2b_ctr_keystream stream_xor Words.rotl64 Words.rotr64
load_bytecode-program = refl

certified-program : certified program 0x42 60 (start_point ∷ points 22) ≡ true
unfolding certified points Static.check Static.judge Static.covers_goal Static.covers
    Static.covers_all Static.covers_value Static.advance Static.decoded Static.abstractly
    Static.popped Static.branch Static.both Static.put Static.needing decode operands read8 read16
    read64 handler_for takes same_bytes rd_be64 Machine.alu3 Machine.cmp_flags Machine.has_flag
certified-program = refl

pub start-Describes : (mem : List ℕ) → Describes start_point (start mem)
unfolding Known Agree
start-Describes mem = record {
  at = refl;
  returns = refl;
  live = refl;
  registers = (
    refl,
    (
      refl,
      (
        refl,
        (
          refl,
          (
            refl,
            (
              refl,
              (refl, (refl, (refl, (refl, (refl, (refl, (refl, (refl, (refl, (refl, tt)))))))))),
            ),
          ),
        ),
      ),
    ),
  );
  bits = refl;
}

-- From any memory the program halts with 0x42.
program-Halts : (mem : List ℕ) → Halts program 0x42 (60 * 24) (start mem)
unfolding points
program-Halts mem =
    certified-Halts program 0x42 60 start_point (points 22) (start mem) certified-program
      (start-Describes mem)

-- What a result says of the halt: the operand, masked with the low byte of the path.
abbrev pub masked : ℕ → ℕ → ℕ
masked operand path = bit_and (u32 (bit_xor operand (bit_and path 0xFF))) 0xFFFFFFFF

finish_halt :
    (w : Vm) (r : VmResult) → finish w ≡ ok r → r.vm_halt_code ≡ masked w.halt_operand r.vm_path_id
unfolding finish
finish_halt w r e =
    let (hash, made, same) = >>=-eq-ok (blake2b (final_state w) [] 32) _ e in
    let is : result_of w hash ≡ r = cc same in
    subst (λ (q : VmResult). q.vm_halt_code ≡ masked w.halt_operand q.vm_path_id) is refl

-- On any memory of 64 words and any nonce, the embedded program runs to its halt with 0x42.
pub program_returns :
    (mem : List ℕ) (nonce : Bytes)
    → length mem ≡ 64
    → All IsU64 mem
    → (r : VmResult) × (run_code program mem nonce ≡ ok r)
      × IsResult r
      × (r.vm_halt_code ≡ masked 0x42 r.vm_path_id)
unfolding run_code Halts
program_returns mem nonce size words =
    let (perm, made, p) = handler_permutation-IsPermutation nonce in
    let (n, few, (w, runs, done, is)) = program-Halts mem in
    let v = Runs-IsValid program program-IsBytes (start-IsValid program mem size words) runs in
    let ran = Runs-run_loop program perm program-IsBytes p max_steps (omega arith) runs done in
    let (r, finished, shape) = finish-IsResult program w v in
    (
      r,
      rw (made, ran) finished,
      shape,
      finish_halt w r finished ∙ ap (λ operand. masked operand r.vm_path_id) is,
    )

module _ (username_norm license_struct server_random session_id transcript_prefix : Bytes)
    (hu : IsBytes username_norm) (hl : IsBytes license_struct) (hr : IsBytes server_random)
    (hs : IsBytes session_id) (ht : IsBytes transcript_prefix) where
  -- On byte inputs and any nonce `run_vm` returns: no instruction of the embedded program throws, the
  -- step limit is not met, and the halt code is 0x42 masked with the path.
  pub run_vm_returns :
      (session_nonce : Bytes)
      → (r : VmResult) × (run_vm username_norm license_struct server_random session_id
            transcript_prefix session_nonce
          ≡ ok r)
        × IsResult r
        × (r.vm_halt_code ≡ masked 0x42 r.vm_path_id)
  unfolding run_vm
  run_vm_returns session_nonce =
      let (mem, packed, m) =
        pack_inputs_total username_norm license_struct server_random session_id transcript_prefix hu
          hl hr hs ht in
      let (r, e, shape, halt) = program_returns mem session_nonce m.size m.words in
      (r, rw (packed, load_bytecode-program) e, shape, halt)
