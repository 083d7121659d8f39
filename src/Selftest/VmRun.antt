-- ===== src/Selftest/VmRun.antt =====
-- `main` of client/tests/selftest_vm.cpp, on the vectors of client/tests/vm_vectors.h.
use crackme.Base.{ℕ, ◌≡◌, List, refl, [], ◌∷◌, true, Bool, Bytes, Result, ok, ◌>>=◌, ◌>>◌, ◌==◌}
use crackme.Config.{ascii}
use crackme.Sodium
use crackme.Vm.Run.{VmResult}
use crackme.Vm.Program.{run_vm}
use crackme.Vm.Program.Vectors.{
  username, license, server_random, session_id, transcript_prefix, expected, vm_parity,
}
use crackme.Selftest.Calls.{Passes, AllPass, run_checks-AllPass}
use crackme.Selftest.{begun, Report, Call, compares, holds, run_checks, conclude}

-- `eq` and `eqi` on the four fields.
unfoldable pub vm_calls : VmResult → List Call
vm_calls r =
    compares (ascii "vm_digest") (ok r.vm_digest) expected.vm_digest
    ∷ compares (ascii "vm_state_hash") (ok r.vm_state_hash) expected.vm_state_hash
    ∷ holds (ascii "vm_path_id") (r.vm_path_id == expected.vm_path_id)
    ∷ holds (ascii "vm_halt_code") (r.vm_halt_code == expected.vm_halt_code)
    ∷ []

abbrev pub vm_title : Bytes
vm_title = ascii "RankGate VM parity self-test (vs Python reference VM)"

unfoldable pub vm_main : Bool → Result (Report × ℕ)
vm_main sodium_ready = do
  Sodium.init sodium_ready
  r ← run_vm username license server_random session_id transcript_prefix server_random
  report ← run_checks (vm_calls r) (begun vm_title)
  ok (conclude report)

expected_passes : AllPass (vm_calls expected)
unfolding AllPass Passes vm_calls
expected_passes = (refl, (refl, (refl, (refl, tt))))

-- The self-test of the machine passes: its four checks hold, and its status is 0.
pub vm_main_passes : (report : Report) × (vm_main true ≡ ok (report, 0)) × (report.failures ≡ 0)
unfolding vm_main conclude
vm_main_passes =
    let (report, ran, none_failed) =
      run_checks-AllPass (vm_calls expected) (begun vm_title) expected_passes in
    ((conclude report).0, rw (vm_parity, ran) (unfold conclude in rw none_failed refl), none_failed)
