-- ===== src/Selftest/Calls.antt =====
-- The failures that the self-tests of client/tests count, against the checks that pass.
use crackme.Base.{
  ◌+◌, ◌≤◌, ◌≡◌, ◌⊎◌, ap, refl, List, [], ◌∷◌, true, false, arith, Bytes, Bool-cases, inl, inr,
  same_bytes, same_bytes→eq, same_bytes_self, ok, err,
}
use crackme.Selftest.{Report, check, check_true, Call, compares, holds, run_checks}

unfoldable pub Passes : Call → Type 0
Passes (compares name got want) = got ≡ ok want
Passes (holds name cond) = cond ≡ true

unfoldable pub AllPass : List Call → Type 0
AllPass [] = Unit
AllPass (c ∷ calls) = Passes c × AllPass calls

check_same : (name want : Bytes) (r : Report) → (check name want want r).failures ≡ r.failures
unfolding check
check_same name want r = rw (same_bytes_self want) refl

check_kept :
    (name got want : Bytes) (r : Report)
    → ((check name got want r).failures ≡ r.failures + 1)
      ⊎ ((got ≡ want) × ((check name got want r).failures ≡ r.failures))
unfolding check
check_kept name got want r = elim (Bool-cases (same_bytes got want)) [
  | inl same ↦ inr (same_bytes→eq got want same, rw same refl)
  | inr other ↦ inl (rw other refl)
]

-- Checks that pass add no failure.
pub run_checks-AllPass :
    (calls : List Call) (r : Report)
    → AllPass calls
    → (r' : Report) × (run_checks calls r ≡ ok r') × (r'.failures ≡ r.failures)
unfolding run_checks AllPass Passes check_true
run_checks-AllPass [] r h = (r, refl, refl)
run_checks-AllPass (compares name got want ∷ calls) r (e, h) =
    let (r', ran, kept) = run_checks-AllPass calls (check name want want r) h in
    (r', rw e ran, omega (arith, kept, check_same name want r))
run_checks-AllPass (holds name cond ∷ calls) r (e, h) =
    let (r', ran, kept) = run_checks-AllPass calls (check_true name true r) h in
    (r', rw e ran, kept)

-- Failures are never taken back.
run_checks-grows :
    (calls : List Call) (r r' : Report) → run_checks calls r ≡ ok r' → r.failures ≤ r'.failures
unfolding run_checks check_true
run_checks-grows [] r r' e =
    let same : r ≡ r' = cc e in omega (arith, ap (λ (q : Report). q.failures) same)
run_checks-grows (compares name (ok got) want ∷ calls) r r' e =
    let later = run_checks-grows calls (check name got want r) r' e in
    elim (check_kept name got want r) [
      | inl more ↦ omega (arith, later, more)
      | inr (_, kept) ↦ omega (arith, later, kept)
    ]
run_checks-grows (compares name (err x) want ∷ calls) r r' e = cc e
run_checks-grows (holds name true ∷ calls) r r' e = run_checks-grows calls _ r' e
run_checks-grows (holds name false ∷ calls) r r' e = omega (arith, run_checks-grows calls _ r' e)

-- Without a new failure, every check has passed.
pub AllPass-run_checks :
    (calls : List Call) (r r' : Report)
    → run_checks calls r ≡ ok r'
    → r'.failures ≡ r.failures
    → AllPass calls
unfolding run_checks AllPass Passes check_true
AllPass-run_checks [] r r' e kept = tt
AllPass-run_checks (compares name (ok got) want ∷ calls) r r' e kept =
    elim (check_kept name got want r) [
      | inl more ↦ absurd (omega (arith, run_checks-grows calls _ r' e, more))
      | inr (same, still) ↦
          (rw same refl, AllPass-run_checks calls _ r' e (omega (arith, kept, still)))
    ]
AllPass-run_checks (compares name (err x) want ∷ calls) r r' e kept = cc e
AllPass-run_checks (holds name true ∷ calls) r r' e kept =
    (refl, AllPass-run_checks calls _ r' e kept)
AllPass-run_checks (holds name false ∷ calls) r r' e kept =
    absurd (omega (arith, run_checks-grows calls _ r' e))
