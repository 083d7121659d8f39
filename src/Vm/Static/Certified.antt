-- ===== src/Vm/Static/Certified.antt =====
-- Lists of checked points, and halts of the machine of client/src/vm/vm.cpp.
use mathlib.Core.Bool.{false≢true}
use crackme.Base.{
  ℕ, zero, suc, ◌+◌, ◌*◌, ◌≤◌, ◌≡◌, refl, sym, ◌∙◌, List, [], ◌∷◌, Bool, true, false, inl, inr,
  arith, Bytes, ◌==◌, ==_iff, length, Option, none, some, ok, same_bytes, same_bytes→eq, both_true,
}
use crackme.Vm.Machine.{Vm}
use crackme.Vm.Run.Direct.{direct_step, Runs, here, next}
use crackme.Vm.Static.{
  Abstract, Outcome, stuck, goes, forks, halts, advance, covers_value, covers_all, covers,
  covers_goal, check, judge, certified,
}
use crackme.Vm.Static.Sound.{Known, Agree, Describes, Meets}
use crackme.Vm.Static.Performs.{advance-Meets}

covers_value-Known : (k j : Option ℕ) (x : ℕ) → covers_value k j ≡ true → Known j x → Known k x
unfolding covers_value Known
covers_value-Known none j x e h = tt
covers_value-Known (some k) none x e h = absurd (false≢true e)
covers_value-Known (some k) (some j) x e h = h ∙ sym ((==_iff k j).0 e)

covers_all-Agree :
    (ks js : List (Option ℕ)) (xs : List ℕ) → covers_all ks js ≡ true → Agree js xs → Agree ks xs
unfolding covers_all Agree
covers_all-Agree [] [] xs e h = h
covers_all-Agree [] (j ∷ js) xs e h = absurd (false≢true e)
covers_all-Agree (k ∷ ks) [] xs e h = absurd (false≢true e)
covers_all-Agree (k ∷ ks) (j ∷ js) [] e h = absurd h
covers_all-Agree (k ∷ ks) (j ∷ js) (x ∷ xs) e h =
    let (first, rest) = both_true (covers_value k j) (covers_all ks js) e in
    (covers_value-Known k j x first h.0, covers_all-Agree ks js xs rest h.1)

covers-Describes : (a b : Abstract) (vm : Vm) → covers a b ≡ true → Describes b vm → Describes a vm
unfolding covers
covers-Describes a b vm e d =
    let (at, e1) = both_true (a.ip == b.ip) _ e in
    let (flags, e2) = both_true (covers_value a.flags b.flags) _ e1 in
    let (stack, regs) = both_true (same_bytes a.stack b.stack) _ e2 in
    record {
      at = d.at ∙ sym ((==_iff a.ip b.ip).0 at);
      returns = d.returns ∙ sym (same_bytes→eq a.stack b.stack stack);
      live = d.live;
      registers = covers_all-Agree a.regs b.regs vm.reg regs d.registers;
      bits = covers_value-Known a.flags b.flags vm.flags flags d.bits;
    }

-- Without an exception and within `n` steps, the machine halts with the operand.
unfoldable pub Halts : Bytes → ℕ → ℕ → Vm → Type 0
Halts code operand n vm =
    (m : ℕ) × (m ≤ n)
    × ((w : Vm) × Runs code m vm w × (w.halted ≡ true) × (w.halt_operand ≡ operand))

module _ (code : Bytes) (operand : ℕ) where
  Halts-weaken : (n n' : ℕ) (vm : Vm) → n ≤ n' → Halts code operand n vm → Halts code operand n' vm
  unfolding Halts
  Halts-weaken n n' vm h (m, few, ends) = (m, omega arith, ends)

  Halts-next :
      (n : ℕ) (vm vm' : Vm)
      → vm.halted ≡ false
      → direct_step code vm ≡ ok (tt, vm')
      → Halts code operand n vm'
      → Halts code operand (suc n) vm
  unfolding Halts
  Halts-next n vm vm' live e (m, few, (w, r, done, is)) =
      (suc m, omega arith, (w, next vm' live e r, done, is))

  judge-Halts :
      (passes : Abstract → Bool) (n : ℕ) (vm : Vm)
      → ((a : Abstract) (vm' : Vm) → passes a ≡ true → Describes a vm' → Halts code operand n vm')
      → vm.halted ≡ false
      → (o : Outcome) → judge passes operand o ≡ true
      → Meets o (direct_step code vm)
      → Halts code operand (suc n) vm
  unfolding judge Meets Halts
  judge-Halts passes n vm sound live stuck e m = absurd (false≢true e)
  judge-Halts passes n vm sound live (goes a) e (vm', stepped, d) =
      Halts-next n vm vm' live stepped (sound a vm' e d)
  judge-Halts passes n vm sound live (forks a b) e (vm', stepped, inl d) =
      Halts-next n vm vm' live stepped (sound a vm' (both_true _ _ e).0 d)
  judge-Halts passes n vm sound live (forks a b) e (vm', stepped, inr d) =
      Halts-next n vm vm' live stepped (sound b vm' (both_true _ _ e).1 d)
  judge-Halts passes n vm sound live (halts x) e (vm', stepped, done, is) =
      (1, omega arith, (vm', next vm' live stepped (here vm'), done, is ∙ (==_iff x operand).0 e))

  unfoldable Reached : Option Abstract → Vm → Type 0
  Reached none vm = ⊥
  Reached (some a) vm = Describes a vm

  covers_goal-Reached :
      (goal : Option Abstract) (b : Abstract) (vm : Vm)
      → covers_goal goal b ≡ true
      → Describes b vm
      → Reached goal vm
  unfolding covers_goal Reached
  covers_goal-Reached none b vm e d = absurd (false≢true e)
  covers_goal-Reached (some a) b vm e d = covers-Describes a b vm e d

  module _ (goal : Option Abstract) (n : ℕ)
      (beyond : (vm : Vm) → Reached goal vm → Halts code operand n vm) where
    check-Halts :
        (fuel : ℕ) (a : Abstract) (vm : Vm)
        → check code operand goal fuel a ≡ true
        → Describes a vm
        → Halts code operand (fuel + n) vm
    unfolding check
    check-Halts zero a vm e d =
        Halts-weaken n (0 + n) vm (omega arith) (beyond vm (covers_goal-Reached goal a vm e d))
    check-Halts (suc fuel) a vm e d =
        by_cover (λ b vm' e' d'. check-Halts fuel b vm' e' d') (covers_goal goal a) refl e
      where
        by_cover :
            ((b : Abstract) (vm' : Vm)
              → check code operand goal fuel b ≡ true
              → Describes b vm'
              → Halts code operand (fuel + n) vm')
            → (c : Bool) → covers_goal goal a ≡ c
            → (elim c as (λ b. Bool) [
              | true ↦ true
              | false ↦ judge (check code operand goal fuel) operand (advance code a)
            ])
              ≡ true
            → Halts code operand (suc fuel + n) vm
        by_cover rec true reached e' =
            Halts-weaken n (suc fuel + n) vm (omega arith)
              (beyond vm (covers_goal-Reached goal a vm reached d))
        by_cover rec false reached e' =
            Halts-weaken (suc (fuel + n)) (suc fuel + n) vm (omega arith) (
              judge-Halts (check code operand goal fuel) (fuel + n) vm rec d.live (advance code a)
                e' (advance-Meets code a vm d))

  -- From a state that the first point describes, checked code halts with the operand, without an
  -- exception, within `fuel` steps for each point.
  pub certified-Halts :
      (fuel : ℕ) (a : Abstract) (rest : List Abstract) (vm : Vm)
      → certified code operand fuel (a ∷ rest) ≡ true
      → Describes a vm
      → Halts code operand (fuel * length (a ∷ rest)) vm
  unfolding certified Reached
  certified-Halts fuel a [] vm e d =
      Halts-weaken (fuel + 0) (fuel * 1) vm (omega arith)
        (check-Halts none 0 (λ vm' h. absurd h) fuel a vm e d)
  certified-Halts fuel a (b ∷ rest) vm e d =
      let (first, others) = both_true (check code operand (some b) fuel a) _ e in
      Halts-weaken (fuel + fuel * length (b ∷ rest)) (fuel * length (a ∷ b ∷ rest)) vm (grind arith)
        (check-Halts (some b) (fuel * length (b ∷ rest))
          (λ vm' h. certified-Halts fuel b rest vm' others h) fuel a vm first d)
