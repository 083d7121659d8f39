-- ===== src/Vm/Static/Performs.antt =====
-- The static check follows what the handlers of client/src/vm/vm.cpp do.
use mathlib.Core.Path.{subst}
use crackme.Base.{
  ℕ, ◌%◌, ◌≡◌, refl, sym, ap, ◌∙◌, List, [], ◌∷◌, Bool, true, false, inl, inr, ◌⊎◌, arith,
  Bool-cases, leb, Bytes, set, get_or, Option, none, some, Result, Error, ok, err, ◌>>=◌,
}
use crackme.Vm.Machine
use crackme.Vm.Machine.{
  Vm, M, alu3, cmp_flags, get_reg, set_reg, get_mem, set_mem, set_ip, set_cmp_flags, get_flags,
  fold_path, jump_if, move_if, cond, cond_of, push_stack, return_to, halt_with,
}
use crackme.Vm.Machine.Branches.{bind-ok}
use crackme.Vm.Isa.{
  Instr, nop, mov_ri, mov_rr, load, store, alu, complement, shifted, cmp, cmov, jmp, jcc, call, ret,
  hash, mixed, halt, unknown, takes, perform,
}
use crackme.Config.{vm_mem_words}
use crackme.Vm.Isa.Decode.{decode}
use crackme.Vm.Isa.Step.{direct_step-decode, perform_at}
use crackme.Vm.Run.Direct.{direct_step}
use crackme.Vm.Static.{
  Abstract, goes, halts, needing, put, branch, popped, abstractly, decoded, advance,
}
use crackme.Vm.Static.Sound.{
  Known, Describes, Agree-get_or, Agree-forget, both-Known, Meets, needing-Meets, put-Meets,
  exactly, anything,
}

-- `cond` leaves the machine as it is, and knows the conditions 0 to 5.
cond_of-not_err : (flags c : ℕ) (e : Error) → leb 6 c ≡ false → ¬ (cond_of flags c ≡ err e)
unfolding cond_of
cond_of-not_err flags c e h bad = ground arith

cond-ok : (c : ℕ) (vm : Vm) → leb 6 c ≡ false → (b : Bool) × (cond c vm ≡ ok (b, vm))
unfolding cond
cond-ok c vm h = by_result (cond_of vm.flags c) refl
  where
    by_result : (r : Result Bool) → cond_of vm.flags c ≡ r → (b : Bool) × (cond c vm ≡ ok (b, vm))
    by_result (ok b) e = (b, rw (cond, e) refl)
    by_result (err x) e = absurd (cond_of-not_err vm.flags c x h e)

forgets :
    (a : Abstract) (rd : ℕ) (vm : Vm)
    → Describes a vm
    → Describes (record a { regs = set a.regs rd none }) vm
forgets a rd vm d = record {
  at = d.at;
  returns = d.returns;
  live = d.live;
  registers = Agree-forget a.regs vm.reg rd d.registers;
  bits = d.bits;
}

move_if-Meets :
    (a : Abstract) (b : Bool) (rd rs : ℕ) (vm : Vm)
    → Describes a vm
    → Meets (needing rs (put a rd none)) (move_if b rd rs vm)
unfolding move_if needing put Meets
move_if-Meets a true rd rs vm d =
    needing-Meets rs _ (λ v. set_reg rd v) vm (put-Meets a rd none _ vm d (anything _))
move_if-Meets a false rd rs vm d = by_bounds (Bool-cases (leb 16 rs)) (Bool-cases (leb 16 rd))
  where
    by_bounds :
        (leb 16 rs ≡ true) ⊎ (leb 16 rs ≡ false)
        → (leb 16 rd ≡ true) ⊎ (leb 16 rd ≡ false)
        → Meets (needing rs (put a rd none)) (ok (tt, vm))
    by_bounds (inl out) second = rw out tt
    by_bounds (inr within) (inl out) = rw (within, out) tt
    by_bounds (inr within) (inr inside) = rw (within, inside) (vm, refl, forgets a rd vm d)

jumped :
    (a : Abstract) (addr : ℕ) (vm : Vm)
    → Describes a vm
    → Describes (record a { ip = addr }) (record vm { ip = addr })
jumped a addr vm d = record {
  at = refl;
  returns = d.returns;
  live = d.live;
  registers = d.registers;
  bits = d.bits;
}

jump_if-Meets :
    (a : Abstract) (op addr : ℕ) (known : Option ℕ) (vm : Vm)
    → Describes a vm
    → Known known vm.flags
    → Meets (branch a op addr known) (jump_if (takes op vm.flags) addr vm)
unfolding branch jump_if set_ip
jump_if-Meets a op addr none vm d e = elim (Bool-cases (takes op vm.flags)) [
  | inl jump ↦ rw jump (unfold Meets in (_, refl, inl (jumped a addr vm d)))
  | inr stay ↦ rw stay (unfold Meets in (vm, refl, inr d))
]
jump_if-Meets a op addr (some f) vm d e =
    let same : f ≡ vm.flags = sym (unfold Known in e) in
    elim (Bool-cases (takes op vm.flags)) [
      | inl jump ↦ rw (same, jump) (unfold Meets in (_, refl, jumped a addr vm d))
      | inr stay ↦ rw (same, stay) (unfold Meets in (vm, refl, d))
    ]

return_to-Meets :
    (a : Abstract) (stack : List ℕ) (vm : Vm)
    → Describes a vm
    → Meets (popped a stack) (return_to stack vm)
unfolding popped return_to Meets
return_to-Meets a [] vm d = tt
return_to-Meets a (top ∷ rest) vm d = (
  _,
  refl,
  record { at = refl; returns = refl; live = d.live; registers = d.registers; bits = d.bits },
)

store-Meets :
    (a : Abstract) (at v : ℕ) (vm : Vm) → Describes a vm → Meets (goes a) (set_mem at v vm)
unfolding set_mem Meets
store-Meets a at v vm d = (
  _,
  refl,
  record { at = d.at; returns = d.returns; live = d.live; registers = d.registers; bits = d.bits },
)

cmp-Meets :
    (a : Abstract) (known : Option ℕ) (x y : ℕ) (vm : Vm)
    → Describes a vm
    → Known known (cmp_flags x y)
    → Meets (goes (record a { flags = known })) (set_cmp_flags x y vm)
unfolding set_cmp_flags Meets
cmp-Meets a known x y vm d e = (
  _,
  refl,
  record { at = d.at; returns = d.returns; live = d.live; registers = d.registers; bits = e },
)

call-Meets :
    (a : Abstract) (addr : ℕ) (vm : Vm)
    → Describes a vm
    → Meets (abstractly (call addr) a) (perform (call addr) vm)
unfolding abstractly perform push_stack set_ip Meets Machine.◌>>=◌
call-Meets a addr vm d = (
  _,
  refl,
  record {
    at = refl;
    returns = rw (d.at, d.returns) refl;
    live = d.live;
    registers = d.registers;
    bits = d.bits;
  },
)

cmov-Meets :
    (a : Abstract) (rd rs c : ℕ) (vm : Vm)
    → Describes a vm
    → Meets (abstractly (cmov rd rs c) a) (perform (cmov rd rs c) vm)
unfolding abstractly perform
cmov-Meets a rd rs c vm d = elim (Bool-cases (leb 6 c)) [
  | inl out ↦ rw out (unfold Meets in tt)
  | inr within ↦
      let (b, e) = cond-ok c vm within in
      rw within (
        subst (Meets (needing rs (put a rd none))) (sym (bind-ok (cond c) _ vm b vm e))
          (move_if-Meets a b rd rs vm d))
]

jcc-Meets :
    (a : Abstract) (op addr : ℕ) (vm : Vm)
    → Describes a vm
    → Meets (abstractly (jcc op addr) a) (perform (jcc op addr) vm)
unfolding abstractly perform get_flags fold_path Machine.◌>>=◌
jcc-Meets a op addr vm d =
    jump_if-Meets a op addr a.flags (record vm { path = _ })
      (record {
        at = d.at;
        returns = d.returns;
        live = d.live;
        registers = d.registers;
        bits = d.bits;
      })
      d.bits

ret-Meets :
    (a : Abstract) (stack : List ℕ) (vm : Vm)
    → Describes a vm
    → vm.stack ≡ stack
    → Meets (popped a stack) (perform ret vm)
unfolding perform
ret-Meets a stack vm d e = simp e (return_to-Meets a stack vm d)

jmp-Meets :
    (a : Abstract) (addr : ℕ) (vm : Vm)
    → Describes a vm
    → Meets (goes (record a { ip = addr })) (set_ip addr vm)
unfolding set_ip Meets
jmp-Meets a addr vm d = (_, refl, jumped a addr vm d)

halt_with-Meets : (operand : ℕ) (vm : Vm) → Meets (halts operand) (halt_with operand vm)
unfolding halt_with Meets
halt_with-Meets operand vm = (_, refl, refl, refl)

-- What an instruction does is among what the check says that it may do.
perform-Meets :
    (i : Instr) (a : Abstract) (vm : Vm) → Describes a vm → Meets (abstractly i a) (perform i vm)
unfolding abstractly perform
perform-Meets nop a vm d = unfold Meets in (vm, refl, d)
perform-Meets (mov_ri rd imm) a vm d = put-Meets a rd (some imm) imm vm d (exactly imm)
perform-Meets (mov_rr rd rs) a vm d =
    needing-Meets rs _ _ vm (put-Meets a rd _ _ vm d (Agree-get_or a.regs vm.reg rs d.registers))
perform-Meets (load rd areg) a vm d = needing-Meets areg _ _ vm (
    unfold Machine.◌>>=◌ get_mem in
    put-Meets a rd none (get_or vm.mem (get_or vm.reg areg 0 % vm_mem_words) 0) vm d
      (anything (get_or vm.mem (get_or vm.reg areg 0 % vm_mem_words) 0)))
perform-Meets (store areg rs) a vm d =
    needing-Meets rs _ _ vm (needing-Meets areg _ _ vm (store-Meets a _ _ vm d))
perform-Meets (alu op rd ra rb) a vm d = needing-Meets ra _ _ vm (
    needing-Meets rb _ _ vm (
      put-Meets a rd _ _ vm d (
        both-Known (alu3 op) _ _ _ _ (Agree-get_or a.regs vm.reg ra d.registers)
          (Agree-get_or a.regs vm.reg rb d.registers))))
perform-Meets (complement rd ra) a vm d =
    needing-Meets ra _ _ vm (put-Meets a rd none _ vm d (anything _))
perform-Meets (shifted op rd ra imm) a vm d =
    needing-Meets ra _ _ vm (put-Meets a rd none _ vm d (anything _))
perform-Meets (cmp ra rb) a vm d = needing-Meets ra _ _ vm (
    needing-Meets rb _ _ vm (
      cmp-Meets a _ _ _ vm d (
        both-Known cmp_flags _ _ _ _ (Agree-get_or a.regs vm.reg ra d.registers)
          (Agree-get_or a.regs vm.reg rb d.registers))))
perform-Meets (cmov rd rs c) a vm d = cmov-Meets a rd rs c vm d
perform-Meets (jmp addr) a vm d = jmp-Meets a addr vm d
perform-Meets (jcc op addr) a vm d = jcc-Meets a op addr vm d
perform-Meets (call addr) a vm d = call-Meets a addr vm d
perform-Meets ret a vm d = ret-Meets a a.stack vm d d.returns
perform-Meets (hash rd ra rb) a vm d =
    needing-Meets ra _ _ vm (needing-Meets rb _ _ vm (put-Meets a rd none _ vm d (anything _)))
perform-Meets (mixed rd ra) a vm d =
    needing-Meets rd _ _ vm (needing-Meets ra _ _ vm (put-Meets a rd none _ vm d (anything _)))
perform-Meets (halt operand) a vm d = halt_with-Meets operand vm
perform-Meets unknown a vm d = halt_with-Meets 0xFD vm

-- What one step does is among what the check says that it may do.
pub advance-Meets :
    (code : Bytes) (a : Abstract) (vm : Vm)
    → Describes a vm
    → Meets (advance code a) (direct_step code vm)
unfolding advance
advance-Meets code a vm d =
    subst (Meets (decoded a (decode code a.ip)))
      (sym (direct_step-decode code vm ∙ ap (λ ip. decode code ip >>= perform_at vm) d.at))
      (by_decoded (decode code a.ip))
  where
    by_decoded : (r : Result (Instr × ℕ)) → Meets (decoded a r) (r >>= perform_at vm)
    by_decoded (err e) = unfold decoded Meets in tt
    by_decoded (ok (i, n)) =
        unfold decoded in
        perform-Meets i (record a { ip = n }) (record vm { ip = n }) (jumped a n vm d)
