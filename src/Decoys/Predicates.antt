-- ===== src/Decoys/Predicates.antt =====
-- What client/src/protection/decoys.cpp and opaque.hpp hide behind obfuscated arithmetic.
use crackme.Base.{
  ℕ, zero, suc, ◌+◌, ◌*◌, ◌/◌, ◌%◌, ◌^◌, ◌≡◌, refl, ap, [], ◌∷◌, true, false, arith, bit_xor, Bytes,
  IsU32, u32, u64,
}
use crackme.Base.Fnv.{fnv1a_from, fnv1a}
use crackme.Obfuscation.{mba_add}
use crackme.Obfuscation.Laws.{mba_add_lem}
use crackme.Decoys.{fnv_fold, input_hash, opaque_x, opaque_true, opaque_false}

-- Adding zero does nothing to a 32-bit word.
mba_add_zero : (h : ℕ) → IsU32 h → u32 (mba_add h 0) ≡ h
mba_add_zero h small = omega (arith, mba_add_lem h 0 (omega arith) (omega arith))

fnv_fold-fnv1a_from : (s : Bytes) (h : ℕ) → fnv_fold s h ≡ fnv1a_from h s
unfolding fnv_fold fnv1a_from
fnv_fold-fnv1a_from [] h = refl
fnv_fold-fnv1a_from (c ∷ s) h =
    rw (mba_add_zero (u32 (bit_xor h c * 0x01000193)) (omega arith)) (fnv_fold-fnv1a_from s _)

-- Under the obfuscated sums `input_hash` is FNV-1a over the user's name, then over the license from
-- the first hash with the separator 0x7C mixed in.
pub input_hash-fnv1a : (a b : Bytes) → input_hash a b ≡ fnv1a_from (bit_xor (fnv1a a) 0x7C) b
unfolding input_hash fnv1a
input_hash-fnv1a a b =
    rw
      (
        fnv_fold-fnv1a_from a 0x811C9DC5,
        fnv_fold-fnv1a_from b (bit_xor (fnv1a_from 0x811C9DC5 a) 0x7C),
      )
      refl

-- A number times its successor is even.
product_even : (x : ℕ) → (k : ℕ) × (x * (x + 1) ≡ 2 * k)
product_even zero = (0, refl)
product_even (suc x) = let (k, e) = product_even x in (k + suc x, omega (arith, e))

-- The opaque predicates are constant: whatever the volatile seed holds, `opaque_true` is true and
-- `opaque_false` is false.
pub opaque_constant : (seed : ℕ) → (opaque_true seed ≡ true) × (opaque_false seed ≡ false)
unfolding opaque_true opaque_false
opaque_constant seed =
    let x = opaque_x seed in
    let (k, e) = product_even x in
    let m = (x + 1) % 2 ^ 64 in
    let q = (x + 1) / 2 ^ 64 in
    let split : x + 1 ≡ 2 ^ 64 * q + m = omega arith in
    let product : x * (x + 1) ≡ x * (2 ^ 64 * q + m) = ap (λ t. x * t) split in
    let wrapped : x * m % 2 ^ 64 % 2 ≡ 0 = omega (arith, product, e) in
    let odd : u64 (u64 (u64 (x * x) + x) + 1) % 2 ≡ 1 = omega (arith, e) in
    (rw wrapped refl, rw odd refl)
