-- ===== src/Vm/Machine/Flags.antt =====
-- `set_cmp_flags` and `cond` of client/src/vm/vm.cpp: what the flags that a comparison sets say of the
-- two words when a conditional instruction reads them.
use crackme.Base.{
  ℕ, ◌≡◌, ◌≢◌, ◌↔◌, ◌⊎◌, ◌+◌, ◌^◌, ◌≤◌, ◌<◌, refl, arith, Bool, true, false, not, ltb, ◌==◌, bit_or,
  Result, ok, err, if◌then◌else◌, vm_bad_cond, sub64, ◌>>>◌,
}
use crackme.Vm.Words.{cond_zf, cond_nzf, cond_cf, cond_ncf, cond_sf, cond_nsf, fl_zf, fl_cf, fl_sf}
use crackme.Vm.Machine.{cmp_flags, cond_of, has_flag}

-- The three flags as one byte.
packed : Bool → Bool → Bool → ℕ
packed z c s =
    let f1 = if z then bit_or 0 fl_zf else 0 in
    let f2 = if c then bit_or f1 fl_cf else f1 in if s then f2 else bit_or f2 fl_sf

cond_of-packed :
    (z c s : Bool)
    → (cond_of (packed z c s) cond_zf ≡ ok z)
      × (cond_of (packed z c s) cond_nzf ≡ ok (not z))
      × (cond_of (packed z c s) cond_cf ≡ ok c)
      × (cond_of (packed z c s) cond_ncf ≡ ok (not c))
      × (cond_of (packed z c s) cond_sf ≡ ok (not s))
      × (cond_of (packed z c s) cond_nsf ≡ ok s)
unfolding cond_of has_flag packed
cond_of-packed true true true = (refl, refl, refl, refl, refl, refl)
cond_of-packed true true false = (refl, refl, refl, refl, refl, refl)
cond_of-packed true false true = (refl, refl, refl, refl, refl, refl)
cond_of-packed true false false = (refl, refl, refl, refl, refl, refl)
cond_of-packed false true true = (refl, refl, refl, refl, refl, refl)
cond_of-packed false true false = (refl, refl, refl, refl, refl, refl)
cond_of-packed false false true = (refl, refl, refl, refl, refl, refl)
cond_of-packed false false false = (refl, refl, refl, refl, refl, refl)

bad_cond : (flags c : ℕ) → 6 ≤ c → cond_of flags c ≡ err vm_bad_cond
unfolding cond_of
bad_cond flags c big = ground arith

-- A test that holds exactly in a case, as a condition that is taken exactly in that case.
taken_iff :
    {P : Type 0} (b : Bool) (r : Result Bool) → r ≡ ok b → (b ≡ true) ↔ P → (r ≡ ok true) ↔ P
taken_iff b r e (to, from) = rw e (λ h. to (cc h), λ p. rw (from p) refl)

negated : {P : Type 0} (b : Bool) → (b ≡ false) ↔ P → (not b ≡ true) ↔ P
negated true (to, from) = (λ h. cc h, λ p. cc (from p))
negated false (to, from) = (λ h. to refl, λ p. refl)

settled : {P : Type 0} (b : Bool) → (b ≡ false) ↔ P → (b ≡ true) ↔ (¬ P)
settled true (to, from) = (λ h p. cc (from p), λ n. refl)
settled false (to, from) = (λ h. cc h, λ n. absurd (n (to refl)))

-- `a - b` of two words has its top bit set.
abbrev pub IsNegative : ℕ → ℕ → Type 0
IsNegative a b = ((a < b) × (b ≤ a + 2 ^ 63)) ⊎ (b + 2 ^ 63 ≤ a)

top_bit : (a b : ℕ) → a < 2 ^ 64 → b < 2 ^ 64 → ((sub64 a b >>> 63 == 0) ≡ false) ↔ IsNegative a b
top_bit a b ha hb = ground arith

-- A conditional move behind a comparison of two words `a` and `b` is taken, by its condition code:
-- 0 exactly if they are equal, 1 if they differ, 2 if `a` is less than `b`, 3 if it is not, 4 if the
-- difference `a - b` modulo 2^64 has its top bit set, which is if `a` is less than `b` by at most 2^63
-- or greater by at least 2^63, and 5 if it has not. From 6 on, the condition code is an error.
pub cond_of-cmp_flags :
    (a b k : ℕ)
    → a < 2 ^ 64
    → b < 2 ^ 64
    → ((cond_of (cmp_flags a b) 0 ≡ ok true) ↔ (a ≡ b))
      × ((cond_of (cmp_flags a b) 1 ≡ ok true) ↔ (a ≢ b))
      × ((cond_of (cmp_flags a b) 2 ≡ ok true) ↔ (a < b))
      × ((cond_of (cmp_flags a b) 3 ≡ ok true) ↔ (b ≤ a))
      × ((cond_of (cmp_flags a b) 4 ≡ ok true) ↔ IsNegative a b)
      × ((cond_of (cmp_flags a b) 5 ≡ ok true) ↔ ¬ IsNegative a b)
      × (cond_of (cmp_flags a b) (6 + k) ≡ err vm_bad_cond)
unfolding cmp_flags packed
cond_of-cmp_flags a b k ha hb =
    let (z, nz, c, nc, s, ns) = cond_of-packed (a == b) (ltb a b) (sub64 a b >>> 63 == 0) in
    (
      taken_iff _ _ z (ground arith),
      taken_iff _ _ nz (ground arith),
      taken_iff _ _ c (ground arith),
      taken_iff _ _ nc (ground arith),
      taken_iff _ _ s (negated _ (top_bit a b ha hb)),
      taken_iff _ _ ns (settled _ (top_bit a b ha hb)),
      bad_cond (cmp_flags a b) (6 + k) (omega arith),
    )
