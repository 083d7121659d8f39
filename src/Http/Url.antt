-- ===== src/Http/Url.antt =====
-- The constructor of `HttpClient` in client/src/net/http_client.cpp on the addresses it is made for.
use mathlib.Core.Path.{subst}
use mathlib.Core.Bool.{true≢false}
use crackme.Base.{
  ==_self, ==_iff, leb, ◌||◌, ◌&&◌, ℕ, zero, suc, ◌+◌, ◌-◌, ◌*◌, ◌/◌, ◌%◌, ◌^◌, ◌<◌, ◌≡◌, refl, sym,
  ap, ◌∙◌, [], ◌∷◌, ◌++◌, true, false, arith, Bytes, ltb, ◌==◌, Bool-cases, inl, inr, le→ltb,
  ltb→lt, ltb→le, same_bytes_self, if◌then◌else◌, All, All-append, append_assoc, Option, none, some,
  ok,
}
use crackme.Http.{
  split_at, is_digit, skip_space, digits_value, starts_with_digit, signed_value, stoi_signed, stoi,
  scheme, without_scheme, with_port, http_client,
}

-- A number below 2^31 in decimal, as many rounds as it takes.
decimal_loop : ℕ → ℕ → Bytes
decimal_loop zero n = []
decimal_loop (suc rounds) n =
    let front = decimal_loop rounds (n / 10) in
    if ltb n 10 then (n + b'0') ∷ [] else front ++ ((n % 10 + b'0') ∷ [])

pub decimal : ℕ → Bytes
decimal n = decimal_loop (suc n) n

abbrev IsDigit : ℕ → Type 0
IsDigit c = is_digit c ≡ true

digit_lem : (d : ℕ) → d < 10 → IsDigit (d + b'0')
unfolding is_digit
digit_lem d h = ground arith

decimal_loop-IsDigit : (rounds n : ℕ) → All IsDigit (decimal_loop rounds n)
unfolding decimal_loop
decimal_loop-IsDigit zero n = tt
decimal_loop-IsDigit (suc rounds) n = elim (Bool-cases (ltb n 10)) [
  | inl one ↦ rw one ((digit_lem n (ltb→lt n 10 one), tt))
  | inr more ↦ rw more (
      All-append IsDigit (decimal_loop rounds (n / 10)) _ (decimal_loop-IsDigit rounds (n / 10))
        (digit_lem (n % 10) (omega arith), tt))
]

digits_value-append :
    (front : Bytes) (d acc : ℕ)
    → All IsDigit front
    → d < 10
    → digits_value (front ++ ((d + b'0') ∷ [])) acc ≡ digits_value front acc * 10 + d
unfolding digits_value
digits_value-append [] d acc h small = rw (digit_lem d small) (omega arith)
digits_value-append (c ∷ front) d acc h small =
    rw h.0 (digits_value-append front d (acc * 10 + (c - b'0')) h.1 small)

digits_value-decimal_loop : (rounds n : ℕ) → n < rounds → digits_value (decimal_loop rounds n) 0 ≡ n
unfolding decimal_loop
digits_value-decimal_loop zero n h = absurd (omega arith)
digits_value-decimal_loop (suc rounds) n h = elim (Bool-cases (ltb n 10)) [
  | inl one ↦
      rw one (digits_value-append [] n 0 tt (ltb→lt n 10 one) ∙ unfold digits_value in omega arith)
  | inr more ↦
      let large = ltb→le n 10 more in
      rw more (
        digits_value-append (decimal_loop rounds (n / 10)) (n % 10) 0
          (decimal_loop-IsDigit rounds (n / 10)) (omega arith)
        ∙ omega (arith, digits_value-decimal_loop rounds (n / 10) (omega arith)))
]

snoc-cons : (front : Bytes) (x : ℕ) → (c : ℕ) × (s : Bytes) × (front ++ (x ∷ []) ≡ c ∷ s)
snoc-cons [] x = (x, [], refl)
snoc-cons (c ∷ front) x = (c, front ++ (x ∷ []), refl)

decimal-cons : (n : ℕ) → (c : ℕ) × (s : Bytes) × (decimal n ≡ c ∷ s)
unfolding decimal decimal_loop
decimal-cons n = elim (Bool-cases (ltb n 10)) [
  | inl one ↦ (n + b'0', [], rw one refl)
  | inr more ↦
      let (c, s, e) = snoc-cons (decimal_loop n (n / 10)) (n % 10 + b'0') in (c, s, rw more e)
]

-- A digit in front is no blank and no sign.
stoi_digit : (c : ℕ) (s : Bytes) → IsDigit c → stoi (c ∷ s) ≡ signed_value false (c ∷ s)
unfolding stoi skip_space stoi_signed is_digit
stoi_digit c s h =
    let visible : ((c == 0x20) || (leb 0x09 c && leb c 0x0D)) ≡ false = ground arith in
    let minus : (c == b'-') ≡ false = ground arith in
    let plus : (c == b'+') ≡ false = ground arith in rw (visible, minus, plus) refl

signed_value_small :
    (c : ℕ) (s : Bytes) (n : ℕ)
    → IsDigit c
    → digits_value (c ∷ s) 0 ≡ n
    → n < 2 ^ 31
    → signed_value false (c ∷ s) ≡ ok n
unfolding signed_value starts_with_digit
signed_value_small c s n h e small =
    let fits : ltb (2 ^ 31 - 1) n ≡ false = le→ltb (2 ^ 31 - 1) n (omega arith) in
    rw (h, e, fits) refl

-- `stoi` reads a decimal number below 2^31 back.
stoi-decimal : (n : ℕ) → n < 2 ^ 31 → stoi (decimal n) ≡ ok n
stoi-decimal n small =
    let (c, s, e) = decimal-cons n in
    let digits : All IsDigit (c ∷ s) =
      subst (All IsDigit) e (unfold decimal in decimal_loop-IsDigit (suc n) n) in
    let value : digits_value (c ∷ s) 0 ≡ n =
      ap (λ (l : Bytes). digits_value l 0) (sym e)
      ∙ unfold decimal in digits_value-decimal_loop (suc n) n (omega arith) in
    ap stoi e ∙ stoi_digit c s digits.0 ∙ signed_value_small c s n digits.0 value small

-- None of the characters is `c`.
abbrev pub Lacks : ℕ → Bytes → Type 0
Lacks c s = All (λ (x : ℕ). (x == c) ≡ false) s

split_at-Lacks : (c : ℕ) (s : Bytes) → Lacks c s → split_at c s ≡ (s, none)
unfolding split_at
split_at-Lacks c [] h = refl
split_at-Lacks c (x ∷ s) h =
    rw h.0 (
      ap (λ ((before, after) : Bytes × Option Bytes). (x ∷ before, after)) (split_at-Lacks c s h.1))

split_at-append :
    (c : ℕ) (s rest : Bytes) → Lacks c s → split_at c (s ++ (c ∷ rest)) ≡ (s, some rest)
unfolding split_at
split_at-append c [] rest h = rw (==_self c) refl
split_at-append c (x ∷ s) rest h = rw h.0 (
    ap (λ ((before, after) : Bytes × Option Bytes). (x ∷ before, after))
      (split_at-append c s rest h.1))

digit_other : (c x : ℕ) → is_digit c ≡ false → IsDigit x → (x == c) ≡ false
digit_other c x other h = elim (Bool-cases (x == c)) [
  | inl same ↦
      let e : x ≡ c = (==_iff x c).0 same in
      absurd (true≢false (sym (sym other ∙ ap is_digit (sym e) ∙ h)))
  | inr differ ↦ differ
]

digits-Lacks : (c : ℕ) (s : Bytes) → is_digit c ≡ false → All IsDigit s → Lacks c s
digits-Lacks c [] other h = tt
digits-Lacks c (x ∷ s) other h = (digit_other c x other h.0, digits-Lacks c s other h.1)

-- An address with the scheme, a host without colons and slashes, a port below 2^31 in decimal, and
-- anything behind a slash, gives that host and that port.
pub http_client-decimal :
    (host path : Bytes) (port : ℕ)
    → Lacks b'/' host
    → Lacks b':' host
    → port < 2 ^ 31
    → http_client (scheme ++ (host ++ (b':' ∷ (decimal port ++ (b'/' ∷ path)))))
      ≡ ok (record { host = host; port = port })
unfolding http_client without_scheme with_port
http_client-decimal host path port hs hc small =
    let digits : All IsDigit (decimal port) =
      unfold decimal in decimal_loop-IsDigit (suc port) port in
    let place : Bytes = host ++ (b':' ∷ decimal port) in
    let bare : Lacks b'/' place =
      All-append _ host (b':' ∷ decimal port) hs
        (refl, digits-Lacks b'/' (decimal port) (unfold is_digit in refl) digits) in
    let address : host ++ (b':' ∷ (decimal port ++ (b'/' ∷ path))) ≡ place ++ (b'/' ∷ path) =
      sym (append_assoc host (b':' ∷ decimal port) (b'/' ∷ path)) in
    rw
      (
        same_bytes_self scheme,
        address,
        split_at-append b'/' place path bare,
        split_at-append b':' host (decimal port) hc,
        stoi-decimal port small,
      )
      refl
