-- ===== src/Examples/Program.antt =====
-- The embedded program on the vectors of client/tests/vm_vectors.h, the static check on a small
-- program, and a comparison.
use crackme.Base.{
  ℕ, ◌^◌, ◌≡◌, ◌≢◌, ◌↔◌, ◌<◌, ◌≤◌, ◌+◌, err, vm_bad_cond, ◌*◌, refl, [], ◌∷◌, arith, true, ok,
  Bytes, replicate,
}
use crackme.Vm.Op
use crackme.Vm.Machine.{Vm, cmp_flags, cond_of}
use crackme.Vm.Machine.Flags.{IsNegative, cond_of-cmp_flags}
use crackme.Vm.Run.{VmResult}
use crackme.Vm.Run.Dispatch.{handler_for}
use crackme.Vm.Run.Results.{IsResult}
use crackme.Vm.Isa.Decode.{decode, operands, read8, read16}
use crackme.Vm.Static
use crackme.Vm.Static.{Abstract, certified}
use crackme.Vm.Static.Certified.{Halts, certified-Halts}
use crackme.Vm.Program.{start, run_vm}
use crackme.Vm.Program.Halts.{masked, start_point, start-Describes, run_vm_returns}
use crackme.Vm.Program.Vectors.{username, license, server_random, session_id, transcript_prefix}

run_vm_returns_example :
    (r : VmResult) × (run_vm username license server_random session_id transcript_prefix [] ≡ ok r)
    × IsResult r
    × (r.vm_halt_code ≡ masked 0x42 r.vm_path_id)
run_vm_returns_example =
    run_vm_returns username license server_random session_id transcript_prefix (omega arith)
      (omega arith) (omega arith) (omega arith) (omega arith) []

-- A jump over a byte that is no instruction.
abbrev jumping : Bytes
jumping = Op.jmp ∷ 0 ∷ 4 ∷ 0xff ∷ Op.halt ∷ 7 ∷ []

abbrev fresh : Vm
fresh = start (replicate 64 0)

abbrev low : ℕ
low = 3

abbrev high : ℕ
high = 2 ^ 63 + 5

cond_of-cmp_flags_example :
    ((cond_of (cmp_flags low high) 0 ≡ ok true) ↔ (low ≡ high))
    × ((cond_of (cmp_flags low high) 1 ≡ ok true) ↔ (low ≢ high))
    × ((cond_of (cmp_flags low high) 2 ≡ ok true) ↔ (low < high))
    × ((cond_of (cmp_flags low high) 3 ≡ ok true) ↔ (high ≤ low))
    × ((cond_of (cmp_flags low high) 4 ≡ ok true) ↔ IsNegative low high)
    × ((cond_of (cmp_flags low high) 5 ≡ ok true) ↔ ¬ IsNegative low high)
    × (cond_of (cmp_flags low high) (6 + 1) ≡ err vm_bad_cond)
cond_of-cmp_flags_example = cond_of-cmp_flags low high 1 (omega arith) (omega arith)

certified-jumping : certified jumping 7 3 (start_point ∷ []) ≡ true
unfolding certified Static.check Static.judge Static.covers_goal Static.advance Static.decoded
    Static.abstractly decode operands read8 read16 handler_for
certified-jumping = refl

certified-Halts_example : Halts jumping 7 (3 * 1) fresh
certified-Halts_example =
    certified-Halts jumping 7 3 start_point [] fresh certified-jumping
      (start-Describes (replicate 64 0))
