-- ===== src/Challenge/License/Idempotent.antt =====
-- `normalize_username` of client/src/challenge/license_format.cpp: what it makes of the text, and
-- that a normalised name stays as it is.
use mathlib.Core.List.{reverse, reverse-reverse, reverse-append, reverse-cons}
use crackme.Base.{
  ℕ, ◌≤◌, ◌≡◌, refl, sym, ap, ◌∙◌, [], ◌∷◌, ◌++◌, map, false, ◌||◌, not, arith, Bytes, ltb,
  Bool-cases, inl, inr, ◌==◌, length, All, append_assoc, append-nil, ok, guard-then,
  username_length_out_of_range,
}
use crackme.Challenge.License.{is_ws, trim_left, trim, lower_all, normalize_username}
use crackme.Challenge.License.Shape.{IsNameChar, lowered, normalize_username_ok}

is_ws-lowered : (c : ℕ) → is_ws (lowered c) ≡ is_ws c
unfolding is_ws lowered
is_ws-lowered c = ground arith

trim_left-lowered : (s : Bytes) → trim_left (map lowered s) ≡ map lowered (trim_left s)
unfolding trim_left
trim_left-lowered [] = refl
trim_left-lowered (c ∷ s) = elim (Bool-cases (is_ws c)) [
  | inl blank ↦ rw (is_ws-lowered c, blank) (trim_left-lowered s)
  | inr plain ↦ rw (is_ws-lowered c, plain) refl
]

map-append : (f : ℕ → ℕ) (s t : Bytes) → map f (s ++ t) ≡ map f s ++ map f t
map-append f [] t = refl
map-append f (c ∷ s) t = ap (λ (l : Bytes). f c ∷ l) (map-append f s t)

reverse-map : (f : ℕ → ℕ) (s : Bytes) → reverse (map f s) ≡ map f (reverse s)
reverse-map f [] = refl
reverse-map f (c ∷ s) =
    reverse-cons (f c) (map f s)
    ∙ ap (λ (l : Bytes). l ++ (f c ∷ [])) (reverse-map f s)
    ∙ sym (map-append f (reverse s) (c ∷ []))
    ∙ ap (map f) (sym (reverse-cons c s))

length-trim_left : (s : Bytes) → length (trim_left s) ≤ length s
unfolding trim_left
length-trim_left [] = omega arith
length-trim_left (c ∷ s) = ground (arith, length-trim_left s)

-- What is cut off stood in front.
trim_left-suffix : (s : Bytes) → (front : Bytes) × (s ≡ front ++ trim_left s)
unfolding trim_left
trim_left-suffix [] = ([], refl)
trim_left-suffix (c ∷ s) = elim (Bool-cases (is_ws c)) [
  | inl blank ↦
      let (front, e) = trim_left-suffix s in (c ∷ front, rw blank (ap (λ (l : Bytes). c ∷ l) e))
  | inr plain ↦ ([], rw plain refl)
]

trim_left_twice : (s : Bytes) → trim_left (trim_left s) ≡ trim_left s
unfolding trim_left
trim_left_twice [] = refl
trim_left_twice (c ∷ s) = elim (Bool-cases (is_ws c)) [
  | inl blank ↦ rw blank (trim_left_twice s)
  | inr plain ↦ rw plain (unfold trim_left in rw plain refl)
]

-- The front of a text that starts with no blank starts with none.
trim_left-front :
    (front back : Bytes) → trim_left (front ++ back) ≡ front ++ back → trim_left front ≡ front
unfolding trim_left
trim_left-front [] back e = refl
trim_left-front (c ∷ front) back e = elim (Bool-cases (is_ws c)) [
  | inl blank ↦ absurd (
      let short : trim_left (front ++ back) ≡ c ∷ (front ++ back) = rw blank at e in
      omega (arith, length-trim_left (front ++ back), ap length short))
  | inr plain ↦ rw plain refl
]

trim-lowered : (s : Bytes) → trim (map lowered s) ≡ map lowered (trim s)
unfolding trim
trim-lowered s =
    rw
      (
        trim_left-lowered s,
        reverse-map lowered (trim_left s),
        trim_left-lowered (reverse (trim_left s)),
        reverse-map lowered (trim_left (reverse (trim_left s))),
      )
      refl

trim_twice : (s : Bytes) → trim (trim s) ≡ trim s
unfolding trim
trim_twice s =
    let left = trim_left s in
    let back = trim_left (reverse left) in
    let (cut, e) = trim_left-suffix (reverse left) in
    let whole : left ≡ reverse back ++ reverse cut =
      sym (reverse-reverse left) ∙ ap reverse e ∙ reverse-append cut back in
    let front : trim_left (reverse back) ≡ reverse back =
      trim_left-front (reverse back) (reverse cut)
        (ap trim_left (sym whole) ∙ trim_left_twice s ∙ whole) in
    rw (front, reverse-reverse back, trim_left_twice (reverse left)) refl

lower_all-lowered : (s out r : Bytes) → lower_all s out ≡ ok r → r ≡ out ++ map lowered s
unfolding lower_all lowered
lower_all-lowered [] out r e = cc (append-nil out)
lower_all-lowered (c ∷ s) out r e = elim (Bool-cases (ltb c 0x20 || ltb 0x7E c)) [
  | inl bad ↦ absurd (cc (rw bad at e))
  | inr good ↦
      lower_all-lowered s (out ++ (lowered c ∷ [])) r (rw good at e)
      ∙ append_assoc out (lowered c ∷ []) (map lowered s)
]

kept : (c : ℕ) → IsNameChar c → ((ltb c 0x20 || ltb 0x7E c) ≡ false) × (lowered c ≡ c)
unfolding IsNameChar lowered
kept c h = ground arith

lower_all_kept : (s out : Bytes) → All IsNameChar s → lower_all s out ≡ ok (out ++ s)
unfolding lower_all lowered
lower_all_kept [] out h = ap ok (sym (append-nil out))
lower_all_kept (c ∷ s) out h =
    let (printable, same) = kept c h.0 in
    rw (printable, same)
      (lower_all_kept s (out ++ (c ∷ [])) h.1 ∙ ap ok (append_assoc out (c ∷ []) s))

-- A normalised username is the trimmed text in lower case, and normalising it again changes nothing.
pub normalize_username_twice :
    (raw s : Bytes)
    → normalize_username raw ≡ ok s
    → (s ≡ map lowered (trim raw)) × (normalize_username s ≡ ok s)
unfolding normalize_username
normalize_username_twice raw s e =
    let (low, high, names) = normalize_username_ok raw s e in
    let t = trim raw in
    let (_, e1) =
      guard-then (not ((length t == 0) || ltb 64 (length t))) username_length_out_of_range _ e in
    let spelled : s ≡ map lowered t = lower_all-lowered t [] s e1 in
    let trimmed : trim s ≡ s =
      ap trim spelled ∙ trim-lowered t ∙ ap (map lowered) (trim_twice raw) ∙ sym spelled in
    let fits : ((length s == 0) || ltb 64 (length s)) ≡ false = in_range (length s) low high in
    (spelled, rw (trimmed, fits) (lower_all_kept s [] names))
  where
    in_range : (n : ℕ) → 1 ≤ n → n ≤ 64 → ((n == 0) || ltb 64 n) ≡ false
    in_range n low high = ground arith
