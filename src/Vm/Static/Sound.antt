-- ===== src/Vm/Static/Sound.antt =====
-- States of the machine of client/src/vm/vm.cpp that the static check stands for.
use mathlib.Core.Path.{subst}
use crackme.Base.{
  ℕ, zero, suc, ◌≡◌, refl, sym, List, [], ◌∷◌, true, false, inl, inr, ◌⊎◌, Bool-cases, leb, set,
  get_or, Option, none, some, Result, ok,
}
use crackme.Vm.Machine
use crackme.Vm.Machine.{
  Vm, M, alu3, cmp_flags, get_reg, set_reg, get_mem, set_mem, set_ip, set_cmp_flags, get_flags,
  fold_path, jump_if, move_if, cond, cond_of, push_stack, return_to, halt_with,
}
use crackme.Vm.Machine.Branches.{bind-ok}
use crackme.Vm.Static.{Abstract, Outcome, stuck, goes, forks, halts, needing, put, both}

unfoldable pub Known : Option ℕ → ℕ → Type 0
Known none x = Unit
Known (some k) x = x ≡ k

unfoldable pub Agree : List (Option ℕ) → List ℕ → Type 0
Agree [] [] = Unit
Agree (k ∷ ks) (x ∷ xs) = Known k x × Agree ks xs
Agree [] (x ∷ xs) = ⊥
Agree (k ∷ ks) [] = ⊥

-- The state is one of those that `a` stands for.
pub record Describes (a : Abstract) (vm : Vm) : Type 0 where
  pub at : vm.ip ≡ a.ip
  pub returns : vm.stack ≡ a.stack
  pub live : vm.halted ≡ false
  pub registers : Agree a.regs vm.reg
  pub bits : Known a.flags vm.flags

pub Agree-get_or :
    (ks : List (Option ℕ)) (xs : List ℕ) (i : ℕ)
    → Agree ks xs
    → Known (get_or ks i none) (get_or xs i 0)
unfolding Agree Known
Agree-get_or [] [] i h = tt
Agree-get_or [] (x ∷ xs) i h = absurd h
Agree-get_or (k ∷ ks) [] i h = absurd h
Agree-get_or (k ∷ ks) (x ∷ xs) zero h = h.0
Agree-get_or (k ∷ ks) (x ∷ xs) (suc i) h = Agree-get_or ks xs i h.1

pub Agree-set :
    (ks : List (Option ℕ)) (xs : List ℕ) (i : ℕ) (k : Option ℕ) (x : ℕ)
    → Known k x
    → Agree ks xs
    → Agree (set ks i k) (set xs i x)
unfolding Agree
Agree-set [] [] i k x e h = tt
Agree-set [] (y ∷ ys) i k x e h = absurd h
Agree-set (j ∷ js) [] i k x e h = absurd h
Agree-set (j ∷ js) (y ∷ ys) zero k x e h = (e, h.1)
Agree-set (j ∷ js) (y ∷ ys) (suc i) k x e h = (h.0, Agree-set js ys i k x e h.1)

-- Forgetting a register.
pub Agree-forget :
    (ks : List (Option ℕ)) (xs : List ℕ) (i : ℕ) → Agree ks xs → Agree (set ks i none) xs
unfolding Agree Known
Agree-forget [] [] i h = tt
Agree-forget [] (y ∷ ys) i h = absurd h
Agree-forget (j ∷ js) [] i h = absurd h
Agree-forget (j ∷ js) (y ∷ ys) zero h = (tt, h.1)
Agree-forget (j ∷ js) (y ∷ ys) (suc i) h = (h.0, Agree-forget js ys i h.1)

pub both-Known :
    (f : ℕ → ℕ → ℕ) (p q : Option ℕ) (x y : ℕ) → Known p x → Known q y → Known (both f p q) (f x y)
unfolding Known both
both-Known f none none x y hp hq = tt
both-Known f none (some q) x y hp hq = tt
both-Known f (some p) none x y hp hq = tt
both-Known f (some p) (some q) x y hp hq = rw (hp, hq) refl

-- What the outcome promises of a call.
unfoldable pub Meets : Outcome → Result (Unit {0} × Vm) → Type 0
Meets stuck r = Unit
Meets (goes a) r = (vm : Vm) × (r ≡ ok (tt, vm)) × Describes a vm
Meets (forks a b) r = (vm : Vm) × (r ≡ ok (tt, vm)) × (Describes a vm ⊎ Describes b vm)
Meets (halts x) r = (vm : Vm) × (r ≡ ok (tt, vm)) × (vm.halted ≡ true) × (vm.halt_operand ≡ x)

pub needing-Meets :
    (i : ℕ) (o : Outcome) (f : ℕ → M (Unit {0})) (vm : Vm)
    → Meets o (f (get_or vm.reg i 0) vm)
    → Meets (needing i o) (Machine.◌>>=◌ (get_reg i) f vm)
unfolding needing
needing-Meets i o f vm h = elim (Bool-cases (leb 16 i)) [
  | inl out ↦ rw out (unfold Meets in tt)
  | inr within ↦
      let got : get_reg i vm ≡ ok (get_or vm.reg i 0, vm) = unfold get_reg in rw within refl in
      rw within (subst (Meets o) (sym (bind-ok (get_reg i) f vm (get_or vm.reg i 0) vm got)) h)
]

pub put-Meets :
    (a : Abstract) (rd : ℕ) (k : Option ℕ) (v : ℕ) (vm : Vm)
    → Describes a vm
    → Known k v
    → Meets (put a rd k) (set_reg rd v vm)
unfolding put needing set_reg
put-Meets a rd k v vm d e = elim (Bool-cases (leb 16 rd)) [
  | inl out ↦ rw out (unfold Meets in tt)
  | inr within ↦ rw within (
      unfold Meets in
      (
        record vm { reg = set vm.reg rd v },
        refl,
        record {
          at = d.at;
          returns = d.returns;
          live = d.live;
          registers = Agree-set a.regs vm.reg rd k v e d.registers;
          bits = d.bits;
        },
      ))
]

pub exactly : (x : ℕ) → Known (some x) x
unfolding Known
exactly x = refl

pub anything : (x : ℕ) → Known none x
unfolding Known
anything x = tt
