-- ===== src/Vm.antt =====
-- client/src/vm: the virtual machine. The words are in Vm/Words, the state and the handlers in
-- Vm/Machine, the permuted dispatch and the loop in Vm/Run, the inputs and `run_vm` in Vm/Program. Vm/Isa has
-- the instructions as data, Vm/Static a check of code.
pub mod Op
pub mod Words
pub mod Machine
pub mod Run
pub mod Program
pub mod Isa
pub mod Static
