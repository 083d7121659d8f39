-- ===== src/Vm/Program/Refinement.antt =====
-- `run_vm` of client/src/vm/vm.cpp against the machine that has no permuted table.
use mathlib.Core.Path.{subst, fun_ext}
use mathlib.Core.Bool.{false≢true}
use crackme.Base.{
  ℕ, ◌≡◌, refl, ap, List, [], ◌∷◌, Bool, true, false, arith, Bytes, IsBytes, IsU64, ltb, ltb→lt,
  Bool-cases, inl, inr, length, All, All-replicate, Result, ok, ◌>>=◌, >>=-eq-ok, if◌then◌else◌,
}
use crackme.Buffer.{str_bytes}
use crackme.Config.{vm_blob_domain, vm_blob_key_label}
use crackme.Blake2b.Bounds.{blake2b_total, blake2b_digest}
use crackme.Blake2b.Stream.{stream_xor_total}
use crackme.Vm.Machine.{Vm}
use crackme.Vm.Machine.Valid.{IsValid}
use crackme.Vm.Run.{VmResult, build_dispatch_table, run_loop, max_steps, finish}
use crackme.Vm.Run.Permutation.{handler_permutation-IsPermutation}
use crackme.Vm.Run.Direct.{Ends, run_loop-Ends, run_loop_same}
use crackme.Vm.Run.Results.{Ends-IsValid, IsResult, finish-IsResult}
use crackme.Vm.Program.Memory.{pack_inputs_total}
use crackme.Vm.Program.{start, run_code, run_vm, load_bytecode, encrypted_blob, pack_inputs}

-- On any code, the result does not depend on the session nonce that permutes the table.
pub run_code_same :
    (code : Bytes) (mem : List ℕ) (nonce nonce' : Bytes)
    → IsBytes code
    → run_code code mem nonce ≡ run_code code mem nonce'
unfolding run_code
run_code_same code mem nonce nonce' bytes =
    let (perm, e, p) = handler_permutation-IsPermutation nonce in
    let (perm', e', p') = handler_permutation-IsPermutation nonce' in
    rw (e, e')
      (ap (λ r. r >>= finish) (run_loop_same code perm perm' bytes p p' max_steps (start mem)))

pub start-IsValid :
    (code : Bytes) (mem : List ℕ) → length mem ≡ 64 → All IsU64 mem → IsValid code (start mem)
start-IsValid code mem size words = record {
  mem_size = size;
  mem_words = words;
  reg_size = refl;
  reg_words = All-replicate IsU64 16 0 (omega arith);
  returns = tt;
  flag_bits = omega arith;
  address = omega arith;
  path_word = omega arith;
  operand_byte = omega arith;
}

-- A result on well-formed inputs comes from a run by the opcodes alone, which ends at a halt within
-- the 200000 steps or at that limit with operand 0xEE, and it has the right shape.
pub run_code-Ends :
    (code : Bytes) (mem : List ℕ) (nonce : Bytes) (r : VmResult)
    → IsBytes code
    → length mem ≡ 64
    → All IsU64 mem
    → run_code code mem nonce ≡ ok r
    → (w : Vm) × Ends code max_steps (start mem) w × (finish w ≡ ok r) × IsResult r
unfolding run_code
run_code-Ends code mem nonce r bytes size words e =
    let (perm, made, p) = handler_permutation-IsPermutation nonce in
    let (w, ran, finished) =
      >>=-eq-ok (run_loop code perm (build_dispatch_table perm) max_steps (start mem)) finish
        (rw made at e) in
    let ends = run_loop-Ends code perm bytes p max_steps (start mem) w ran in
    let v = Ends-IsValid code bytes (start-IsValid code mem size words) ends in
    let (r', finished', shape) = finish-IsResult code w v in
    let same : r' ≡ r = cc (finished, finished') in (w, ends, finished, subst IsResult same shape)

-- The embedded blob decrypts to bytes.
unfoldable pub all_bytes : Bytes → Bool
all_bytes [] = true
all_bytes (x ∷ xs) = if ltb x 256 then all_bytes xs else false

pub all_bytes-IsBytes : (xs : Bytes) → all_bytes xs ≡ true → IsBytes xs
unfolding all_bytes
all_bytes-IsBytes [] e = tt
all_bytes-IsBytes (x ∷ xs) e = elim (Bool-cases (ltb x 256)) [
  | inl small ↦ (ltb→lt x 256 small, all_bytes-IsBytes xs (rw small at e))
  | inr large ↦ absurd (false≢true (rw large at e))
]

encrypted_blob-IsBytes : IsBytes encrypted_blob
unfolding all_bytes
encrypted_blob-IsBytes = all_bytes-IsBytes encrypted_blob refl

load_bytecode_total : (code : Bytes) × (load_bytecode ≡ ok code) × IsBytes code
unfolding load_bytecode
load_bytecode_total =
    let label = str_bytes vm_blob_key_label in
    let (key, made) = blake2b_total label [] 32 (omega arith) (omega arith) (omega arith) in
    let (_, _, _, size, _) = blake2b_digest label [] 32 key made in
    let (code, e, bytes) =
      stream_xor_total key encrypted_blob (str_bytes vm_blob_domain) (omega arith)
        encrypted_blob-IsBytes in
    (code, rw made e, bytes)

-- The machine's result for the embedded program does not depend on the session nonce: the handler
-- permutation changes no output.
pub run_vm_same :
    (username_norm license_struct server_random session_id transcript_prefix : Bytes)
    → (nonce nonce' : Bytes)
    → run_vm username_norm license_struct server_random session_id transcript_prefix nonce
      ≡ run_vm username_norm license_struct server_random session_id transcript_prefix nonce'
unfolding run_vm
run_vm_same username_norm license_struct server_random session_id transcript_prefix nonce nonce' =
    let (code, loaded, bytes) = load_bytecode_total in
    rw loaded (
      ap
        (λ (k : List ℕ → Result VmResult).
          pack_inputs username_norm license_struct server_random session_id transcript_prefix >>= k)
        (fun_ext (λ mem. run_code_same code mem nonce nonce' bytes)))

module _ (username_norm license_struct server_random session_id transcript_prefix : Bytes)
    (hu : IsBytes username_norm) (hl : IsBytes license_struct) (hr : IsBytes server_random)
    (hs : IsBytes session_id) (ht : IsBytes transcript_prefix) where
  -- On byte inputs, a result comes from running the decrypted program on the packed inputs by the
  -- opcodes alone, to a halt or to the step limit, and it has two digests of 32 bytes, a 32-bit path
  -- and a halt code of one byte.
  pub run_vm-Ends :
      (session_nonce : Bytes) (r : VmResult)
      → run_vm username_norm license_struct server_random session_id transcript_prefix session_nonce
        ≡ ok r
      → (code : Bytes) × (load_bytecode ≡ ok code)
        × ((mem : List ℕ) × (pack_inputs username_norm license_struct server_random session_id
                transcript_prefix
              ≡ ok mem)
            × ((w : Vm) × Ends code max_steps (start mem) w × (finish w ≡ ok r) × IsResult r))
  unfolding run_vm
  run_vm-Ends session_nonce r e =
      let (mem, packed, m) =
        pack_inputs_total username_norm license_struct server_random session_id transcript_prefix hu
          hl hr hs ht in
      let (code, loaded, bytes) = load_bytecode_total in
      (
        code,
        loaded,
        (
          mem,
          packed,
          run_code-Ends code mem session_nonce r bytes m.size m.words (rw (packed, loaded) at e),
        ),
      )
