-- ===== src/Vm/Isa.antt =====
-- The instruction set of client/src/vm/vm.cpp as data: what an instruction does once its operands
-- have been fetched. Vm/Isa/Decode reads instructions, Vm/Isa/Step relates both to the handlers.
pub mod Decode
pub mod Step
use crackme.Base.{ℕ, Bool, ◌-◌, ◌%◌, ◌^◌, if◌then◌else◌, not, ◌==◌}
use crackme.Config.{vm_mem_words}
use crackme.Vm.Op
use crackme.Vm.Words
use crackme.Vm.Words.{fl_zf}
use crackme.Vm.Machine.{
  M, pure, ◌>>=◌, ◌>>◌, get_reg, set_reg, get_mem, set_mem, get_flags, set_ip, set_cmp_flags,
  has_flag, cond, fold_path, push_stack, halt_with, alu3, shift, move_if, jump_if, return_to,
}

-- `rd`, `ra`, ... are register numbers, not checked yet.
pub data Instr : Type 0 where
  nop : Instr
  mov_ri : (rd imm : ℕ) → Instr
  mov_rr : (rd rs : ℕ) → Instr
  load : (rd areg : ℕ) → Instr
  store : (areg rs : ℕ) → Instr
  alu : (op rd ra rb : ℕ) → Instr
  complement : (rd ra : ℕ) → Instr
  shifted : (op rd ra imm : ℕ) → Instr
  cmp : (ra rb : ℕ) → Instr
  cmov : (rd rs c : ℕ) → Instr
  jmp : (addr : ℕ) → Instr
  jcc : (op addr : ℕ) → Instr
  call : (addr : ℕ) → Instr
  ret : Instr
  hash : (rd ra rb : ℕ) → Instr
  mixed : (rd ra : ℕ) → Instr
  halt : (operand : ℕ) → Instr
  unknown : Instr

-- `jz` and `jnz`.
unfoldable pub takes : ℕ → ℕ → Bool
takes op flags = if op == Op.jz then has_flag flags fl_zf else not (has_flag flags fl_zf)

-- From the state whose `ip_` stands behind the instruction.
unfoldable pub perform : Instr → M (Unit {0})
perform nop = pure tt
perform (mov_ri rd imm) = set_reg rd imm
perform (mov_rr rd rs) = do v ← get_reg rs; set_reg rd v
perform (load rd areg) = do a ← get_reg areg; v ← get_mem (a % vm_mem_words); set_reg rd v
perform (store areg rs) = do v ← get_reg rs; a ← get_reg areg; set_mem (a % vm_mem_words) v
perform (alu op rd ra rb) = do a ← get_reg ra; b ← get_reg rb; set_reg rd (alu3 op a b)
perform (complement rd ra) = do a ← get_reg ra; set_reg rd (2 ^ 64 - 1 - a)
perform (shifted op rd ra imm) = do a ← get_reg ra; set_reg rd (shift op a imm)
perform (cmp ra rb) = do a ← get_reg ra; b ← get_reg rb; set_cmp_flags a b
perform (cmov rd rs c) = do taken ← cond c; move_if taken rd rs
perform (jmp addr) = set_ip addr
perform (jcc op addr) = do
  flags ← get_flags
  fold_path (takes op flags)
  jump_if (takes op flags) addr
perform (call addr) = do push_stack; set_ip addr
perform ret = λ vm. return_to vm.stack vm
perform (hash rd ra rb) = do a ← get_reg ra; b ← get_reg rb; set_reg rd (Words.hash_round a b)
perform (mixed rd ra) = do acc ← get_reg rd; v ← get_reg ra; set_reg rd (Words.mix acc v rd)
perform (halt operand) = halt_with operand
perform unknown = halt_with 0xFD
