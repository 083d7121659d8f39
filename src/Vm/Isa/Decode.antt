-- ===== src/Vm/Isa/Decode.antt =====
-- Reading an instruction of client/src/vm/vm.cpp at an address: the instruction and the address
-- behind it, or the error of the fetch that leaves the code.
use crackme.Base.{
  ℕ, ◌+◌, Bytes, bit_or, ◌<<<◌, u16, ltb, leb, if◌then◌else◌, length, get_or, drop, Result, ok, err,
  ◌>>=◌, vm_ip_out_of_range, vm_u16_oob, vm_u64_oob,
}
use crackme.Buffer.{rd_be64}
use crackme.Vm.Run
use crackme.Vm.Run.{Handler}
use crackme.Vm.Run.Dispatch.{handler_for}
use crackme.Vm.Isa.{
  Instr, nop, mov_ri, mov_rr, load, store, alu, complement, shifted, cmp, cmov, jmp, jcc, call, ret,
  hash, mixed, halt, unknown,
}

module _ (code : Bytes) where
  unfoldable pub read8 : ℕ → Result (ℕ × ℕ)
  read8 ip = if leb (length code) ip then err vm_ip_out_of_range else ok (get_or code ip 0, ip + 1)

  unfoldable pub read16 : ℕ → Result (ℕ × ℕ)
  read16 ip =
      if ltb (length code) (ip + 2)
      then err vm_u16_oob
      else ok (u16 (bit_or (get_or code ip 0 <<< 8) (get_or code (ip + 1) 0)), ip + 2)

  unfoldable pub read64 : ℕ → Result (ℕ × ℕ)
  read64 ip =
      if ltb (length code) (ip + 8) then err vm_u64_oob else ok (rd_be64 (drop ip code), ip + 8)

  -- The operands behind the opcode `op`.
  abbrev pub reg2 : (ℕ → ℕ → Instr) → ℕ → Result (Instr × ℕ)
  reg2 make ip = read8 ip >>= λ (a, n). read8 n >>= λ (b, n'). ok (make a b, n')

  abbrev pub reg3 : (ℕ → ℕ → ℕ → Instr) → ℕ → Result (Instr × ℕ)
  reg3 make ip =
      read8 ip >>= λ (a, n). read8 n >>= λ (b, n'). read8 n' >>= λ (c, n''). ok (make a b c, n'')

  abbrev pub address : (ℕ → Instr) → ℕ → Result (Instr × ℕ)
  address make ip = read16 ip >>= λ (addr, n). ok (make addr, n)

  unfoldable pub operands : Handler → ℕ → ℕ → Result (Instr × ℕ)
  operands Run.h_nop op ip = ok (nop, ip)
  operands Run.h_mov_ri op ip =
      read8 ip >>= λ (rd, n). read64 n >>= λ (imm, n'). ok (mov_ri rd imm, n')
  operands Run.h_mov_rr op ip = reg2 mov_rr ip
  operands Run.h_load op ip = reg2 load ip
  operands Run.h_store op ip = reg2 store ip
  operands Run.h_alu3 op ip = reg3 (alu op) ip
  operands Run.h_not op ip = reg2 complement ip
  operands Run.h_shift op ip = reg3 (shifted op) ip
  operands Run.h_cmp op ip = reg2 cmp ip
  operands Run.h_cmov op ip = reg3 cmov ip
  operands Run.h_jmp op ip = address jmp ip
  operands Run.h_jcc op ip = address (jcc op) ip
  operands Run.h_call op ip = address call ip
  operands Run.h_ret op ip = ok (ret, ip)
  operands Run.h_hash op ip = reg3 hash ip
  operands Run.h_mix op ip = reg2 mixed ip
  operands Run.h_halt op ip = read8 ip >>= λ (operand, n). ok (halt operand, n)
  operands Run.h_unknown op ip = ok (unknown, ip)

  unfoldable pub decode : ℕ → Result (Instr × ℕ)
  decode ip = read8 ip >>= λ (op, n). operands (handler_for op) op n
