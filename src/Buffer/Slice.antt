-- ===== src/Buffer/Slice.antt =====
-- `slice` of client/src/common.hpp.
use crackme.Base.{
  ℕ, ◌+◌, ◌^◌, ◌≤◌, ◌<◌, ◌≡◌, refl, arith, Bytes, length, take, drop, length-append, ◌∙◌, ok, ◌++◌,
  take-append, drop-append, take_all, append_assoc, ap, ap₂,
}
use crackme.Buffer.{slice}

-- Within the buffer `slice` returns the `len` bytes from `off` on.
pub slice_within :
    (b : Bytes) (off len : ℕ)
    → length b < 2 ^ 64
    → off + len ≤ length b
    → slice b off len ≡ ok (take len (drop off b))
unfolding slice
slice_within b off len small h = ground arith

-- `slice` cuts the middle out of three parts.
pub slice_middle :
    (front mid back : Bytes)
    → length front + length mid + length back < 2 ^ 64
    → slice (front ++ (mid ++ back)) (length front) (length mid) ≡ ok mid
slice_middle front mid back small =
    slice_within (front ++ (mid ++ back)) (length front) (length mid) (rw sizes (omega arith))
      (rw sizes (omega arith))
    ∙ ap (λ l. ok (take (length mid) l)) (drop-append (length front) front (mid ++ back) refl)
    ∙ ap ok (take-append (length mid) mid back refl)
  where
    sizes : length (front ++ (mid ++ back)) ≡ length front + length mid + length back
    sizes = omega (arith, length-append front (mid ++ back), length-append mid back)

-- Two parts of known sizes.
pub slice_halves :
    (a b : Bytes) (m n : ℕ)
    → length a ≡ m
    → length b ≡ n
    → m + n < 2 ^ 64
    → (slice (a ++ b) 0 m ≡ ok a) × (slice (a ++ b) m n ≡ ok b)
slice_halves a b m n ha hb small =
    let size : length (a ++ b) ≡ m + n = length-append a b ∙ ap₂ ◌+◌ ha hb in
    (
      slice_within (a ++ b) 0 m (omega arith) (omega arith) ∙ ap ok (take-append m a b ha),
      slice_within (a ++ b) m n (omega arith) (omega arith)
          ∙ ap (λ (l : Bytes). ok (take n l)) (drop-append m a b ha)
          ∙ ap ok (take_all n b (omega arith)),
    )

-- Three parts of known sizes.
pub slice_thirds :
    (a b c : Bytes) (l m n : ℕ)
    → length a ≡ l
    → length b ≡ m
    → length c ≡ n
    → l + m + n < 2 ^ 64
    → let all = a ++ (b ++ c) in
      (slice all 0 l ≡ ok a) × (slice all l m ≡ ok b) × (slice all (l + m) n ≡ ok c)
slice_thirds a b c l m n ha hb hc small =
    let back : length (b ++ c) ≡ m + n = length-append b c ∙ ap₂ ◌+◌ hb hc in
    let front : length (a ++ b) ≡ l + m = length-append a b ∙ ap₂ ◌+◌ ha hb in
    let size : length (a ++ (b ++ c)) ≡ l + (m + n) = length-append a (b ++ c) ∙ ap₂ ◌+◌ ha back in
    (
      (slice_halves a (b ++ c) l (m + n) ha back (omega arith)).0,
      slice_within (a ++ (b ++ c)) l m (omega arith) (omega arith)
          ∙ ap (λ (p : Bytes). ok (take m p)) (drop-append l a (b ++ c) ha)
          ∙ ap ok (take-append m b c hb),
      rw⁻¹ (append_assoc a b c) (slice_halves (a ++ b) c (l + m) n front hc (omega arith)).1,
    )
