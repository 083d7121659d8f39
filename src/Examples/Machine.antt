-- ===== src/Examples/Machine.antt =====
-- The theorems on the virtual machine, on the vectors of client/tests/vm_vectors.h and on a small
-- program.
use crackme.Base.{
  ℕ, ◌≡◌, refl, List, [], ◌∷◌, arith, Bytes, get_or, replicate, true, ok, All-replicate, IsU64,
}
use crackme.Vm.Op
use crackme.Vm.Machine
use crackme.Vm.Machine.{Vm, fetch8, h_halt, h_jmp}
use crackme.Vm.Machine.Valid.{IsValid}
use crackme.Vm.Machine.Rules.{Keeps}
use crackme.Vm.Run.{
  iota, handler_permutation, build_dispatch_table, h_unknown, run_loop, max_steps, finish,
}
use crackme.Vm.Run.Permutation.{
  IsPermutation, iota-IsPermutation, handler_permutation-IsPermutation,
}
use crackme.Vm.Run.Dispatch.{handler_for, build_dispatch_table-handler_for}
use crackme.Vm.Run.Direct.{direct_step, Ends, run_loop-Ends}
use crackme.Vm.Run.Results.{direct_step-Keeps, IsResult}
use crackme.Vm.Program.{start, run_vm, load_bytecode, pack_inputs}
use crackme.Vm.Program.Vectors.{
  username, license, server_random, session_id, transcript_prefix, expected, vm_parity,
}
use crackme.Vm.Program.Refinement.{start-IsValid, run_vm_same, run_vm-Ends}

run_vm_same_example :
    run_vm username license server_random session_id transcript_prefix []
    ≡ run_vm username license server_random session_id transcript_prefix (1 ∷ 2 ∷ [])
run_vm_same_example =
    run_vm_same username license server_random session_id transcript_prefix [] (1 ∷ 2 ∷ [])

run_vm-Ends_example :
    (code : Bytes) × (load_bytecode ≡ ok code)
    × ((mem : List ℕ) × (pack_inputs username license server_random session_id transcript_prefix
          ≡ ok mem)
        × ((w : Vm) × Ends code max_steps (start mem) w
            × (finish w ≡ ok expected)
            × IsResult expected))
run_vm-Ends_example =
    run_vm-Ends username license server_random session_id transcript_prefix (omega arith)
      (omega arith) (omega arith) (omega arith) (omega arith) server_random expected vm_parity

-- A jump to the halt instruction.
abbrev small_code : Bytes
small_code = Op.nop ∷ Op.halt ∷ 7 ∷ []

abbrev small_start : Vm
small_start = start (replicate 64 0)

abbrev small_end : Vm
small_end = record small_start { ip = 3; halted = true; halt_operand = 7 }

abbrev identity : List ℕ
identity = iota 256 0

small_run :
    run_loop small_code identity (build_dispatch_table identity) 10 small_start ≡ ok small_end
unfolding run_loop iota build_dispatch_table fetch8 h_halt Machine.◌>>=◌ Machine.halt_with
    Machine.h_nop
small_run = refl

run_loop-Ends_example : Ends small_code 10 small_start small_end
run_loop-Ends_example =
    run_loop-Ends small_code identity (omega arith) iota-IsPermutation 10 small_start small_end
      small_run

build_dispatch_table-handler_for_example :
    get_or (build_dispatch_table identity) (get_or identity Op.halt 0) h_unknown
    ≡ handler_for Op.halt
build_dispatch_table-handler_for_example =
    build_dispatch_table-handler_for identity Op.halt iota-IsPermutation (omega arith)

handler_permutation-IsPermutation_example :
    (perm : List ℕ) × (handler_permutation (1 ∷ 2 ∷ []) ≡ ok perm) × IsPermutation perm
handler_permutation-IsPermutation_example = handler_permutation-IsPermutation (1 ∷ 2 ∷ [])

small_start-IsValid : IsValid small_code small_start
small_start-IsValid =
    start-IsValid small_code (replicate 64 0) refl (All-replicate IsU64 64 0 (omega arith))

direct_step-Keeps_example : Keeps small_code (direct_step small_code small_start)
direct_step-Keeps_example =
    direct_step-Keeps small_code (omega arith) small_start small_start-IsValid
