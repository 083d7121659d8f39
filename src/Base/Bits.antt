-- ===== src/Base/Bits.antt =====
-- Laws of `&`, `|` and `^` on numbers of any size, from the digit recursion that the native
-- operations stand for. Each is an induction on a bound for the numbers, one binary digit a step.
use Prim.Native.Nat.{
  ℕ, zero, suc, ◌+◌, ◌-◌, ◌*◌, ◌/◌, ◌%◌, ◌^◌, ◌≤◌, ◌<◌, min, max, bit_and, bit_or, bit_xor,
  bit_and-bitwise, bit_or-bitwise, bit_xor-bitwise, digits, bitwise, differ,
}
use mathlib.Core.Path.{◌≡◌, refl, ap, ◌∙◌}
use native.Mathlib.Nat.{
  pow-suc, one-le-pow, div-add-mod', mod-lt, mod-eq_of_lt, mul-add-mod_self_right,
}
use native.Mathlib.Omega.{arith}

-- The count of rounds does not matter once it reaches the first number.
module _ (rest : ℕ → ℕ) (digit : ℕ → ℕ → ℕ) where
  digits_rounds : (i j a b : ℕ) → a ≤ i → a ≤ j → digits rest digit i a b ≡ digits rest digit j a b
  digits_rounds (suc i) (suc j) (suc a) b hi hj =
      omega (arith, digits_rounds i j (suc a / 2) (b / 2) (omega arith) (omega arith))
  digits_rounds (suc i) (suc j) zero b hi hj = refl
  digits_rounds (suc i) zero (suc a) b hi hj = absurd (omega arith)
  digits_rounds (suc i) zero zero b hi hj = refl
  digits_rounds zero (suc j) (suc a) b hi hj = absurd (omega arith)
  digits_rounds zero (suc j) zero b hi hj = refl
  digits_rounds zero zero a b hi hj = refl

  low_digit :
      (half : ℕ) (a b : ℕ)
      → half ≡ suc a / 2
      → bitwise rest digit (suc a) b
        ≡ bitwise rest digit half (b / 2) * 2 + digit (suc a % 2) (b % 2)
  low_digit half a b e =
      rw e
        (omega (arith, digits_rounds a (suc a / 2) (suc a / 2) (b / 2) (omega arith) (omega arith)))

differ_digits : (x y : ℕ) → x < 2 → y < 2 → differ x y ≡ (x + y) % 2
differ_digits zero y hx hy = omega arith
differ_digits (suc zero) zero hx hy = refl
differ_digits (suc zero) (suc zero) hx hy = refl
differ_digits (suc zero) (suc (suc y)) hx hy = absurd (omega arith)
differ_digits (suc (suc x)) y hx hy = absurd (omega arith)

pub bit_xor_step : (a b : ℕ) → bit_xor a b ≡ bit_xor (a / 2) (b / 2) * 2 + (a % 2 + b % 2) % 2
bit_xor_step zero b = simp bit_xor-bitwise (omega arith)
bit_xor_step (suc a) b =
    rw (← differ_digits (suc a % 2) (b % 2) (omega arith) (omega arith))
      (simp bit_xor-bitwise (low_digit (λ y. y) differ (suc a / 2) a b refl))

pub bit_or_step : (x y : ℕ) → bit_or x y ≡ max (x % 2) (y % 2) + bit_or (x / 2) (y / 2) * 2
bit_or_step zero y = simp bit_or-bitwise (omega arith)
bit_or_step (suc x) y = omega (
  arith,
  bit_or-bitwise (suc x) y,
  bit_or-bitwise (suc x / 2) (y / 2),
  low_digit (λ r. r) max (suc x / 2) x y refl,
)

pub bit_and_step : (x y : ℕ) → bit_and x y ≡ min (x % 2) (y % 2) + bit_and (x / 2) (y / 2) * 2
bit_and_step zero y = simp bit_and-bitwise (omega arith)
bit_and_step (suc x) y = omega (
  arith,
  bit_and-bitwise (suc x) y,
  bit_and-bitwise (suc x / 2) (y / 2),
  low_digit (λ r. 0) min (suc x / 2) x y refl,
)

-- Induction on a bound `n` of both numbers.
or_comm : (n a b : ℕ) → a ≤ n → b ≤ n → bit_or a b ≡ bit_or b a
or_comm zero zero zero ha hb = refl
or_comm zero (suc a) b ha hb = absurd (omega arith)
or_comm zero zero (suc b) ha hb = absurd (omega arith)
or_comm (suc n) a b ha hb =
    omega (
      arith,
      bit_or_step a b,
      bit_or_step b a,
      or_comm n (a / 2) (b / 2) (omega arith) (omega arith),
    )

pub bit_or_comm : (a b : ℕ) → bit_or a b ≡ bit_or b a
bit_or_comm a b = or_comm (a + b) a b (omega arith) (omega arith)

xor_comm : (n a b : ℕ) → a ≤ n → b ≤ n → bit_xor a b ≡ bit_xor b a
xor_comm zero zero zero ha hb = refl
xor_comm zero (suc a) b ha hb = absurd (omega arith)
xor_comm zero zero (suc b) ha hb = absurd (omega arith)
xor_comm (suc n) a b ha hb = omega (
  arith,
  bit_xor_step a b,
  bit_xor_step b a,
  xor_comm n (a / 2) (b / 2) (omega arith) (omega arith),
)

pub bit_xor_comm : (a b : ℕ) → bit_xor a b ≡ bit_xor b a
bit_xor_comm a b = xor_comm (a + b) a b (omega arith) (omega arith)

xor_cancel : (n a b : ℕ) → a ≤ n → b ≤ n → bit_xor (bit_xor a b) b ≡ a
xor_cancel zero zero zero ha hb = refl
xor_cancel zero (suc a) b ha hb = absurd (omega arith)
xor_cancel zero zero (suc b) ha hb = absurd (omega arith)
xor_cancel (suc n) a b ha hb =
    let half : bit_xor a b / 2 ≡ bit_xor (a / 2) (b / 2) = omega (arith, bit_xor_step a b) in
    let rest : bit_xor (bit_xor a b / 2) (b / 2) ≡ a / 2 =
      ap (λ t. bit_xor t (b / 2)) half ∙ xor_cancel n (a / 2) (b / 2) (omega arith) (omega arith) in
    omega (arith, bit_xor_step a b, bit_xor_step (bit_xor a b) b, rest)

-- `(a ^ b) ^ b == a`.
pub bit_xor_cancel : (a b : ℕ) → bit_xor (bit_xor a b) b ≡ a
bit_xor_cancel a b = xor_cancel (a + b) a b (omega arith) (omega arith)

add_digits : (n a b : ℕ) → a ≤ n → b ≤ n → bit_xor a b + 2 * bit_and a b ≡ a + b
add_digits zero zero zero ha hb = refl
add_digits zero (suc a) b ha hb = absurd (omega arith)
add_digits zero zero (suc b) ha hb = absurd (omega arith)
add_digits (suc n) a b ha hb = omega (
  arith,
  bit_xor_step a b,
  bit_and_step a b,
  add_digits n (a / 2) (b / 2) (omega arith) (omega arith),
)

-- A sum is the digits without carry, plus the carries.
pub xor-add-and : (a b : ℕ) → bit_xor a b + 2 * bit_and a b ≡ a + b
xor-add-and a b = add_digits (a + b) a b (omega arith) (omega arith)

or_digits : (n a b : ℕ) → a ≤ n → b ≤ n → bit_or a b ≡ bit_xor a b + bit_and a b
or_digits zero zero zero ha hb = refl
or_digits zero (suc a) b ha hb = absurd (omega arith)
or_digits zero zero (suc b) ha hb = absurd (omega arith)
or_digits (suc n) a b ha hb = omega (
  arith,
  bit_xor_step a b,
  bit_and_step a b,
  bit_or_step a b,
  or_digits n (a / 2) (b / 2) (omega arith) (omega arith),
)

pub or-eq-xor-add-and : (a b : ℕ) → bit_or a b ≡ bit_xor a b + bit_and a b
or-eq-xor-add-and a b = or_digits (a + b) a b (omega arith) (omega arith)

or_zero : (n a : ℕ) → a ≤ n → bit_or a 0 ≡ a
or_zero zero zero ha = refl
or_zero zero (suc a) ha = absurd (omega arith)
or_zero (suc n) a ha = omega (arith, bit_or_step a 0, or_zero n (a / 2) (omega arith))

pub bit_or-zero : (a : ℕ) → bit_or a 0 ≡ a
bit_or-zero a = or_zero a a (omega arith)

and_zero : (n a : ℕ) → a ≤ n → bit_and a 0 ≡ 0
and_zero zero zero ha = refl
and_zero zero (suc a) ha = absurd (omega arith)
and_zero (suc n) a ha = omega (arith, bit_and_step a 0, and_zero n (a / 2) (omega arith))

pub bit_and-zero : (a : ℕ) → bit_and a 0 ≡ 0
bit_and-zero a = and_zero a a (omega arith)

-- Two fields that do not overlap: `(hi << k) | lo` is their sum.
pub bit_or_fields : (k hi lo : ℕ) → lo < 2 ^ k → bit_or (hi * 2 ^ k) lo ≡ hi * 2 ^ k + lo
bit_or_fields zero hi lo h = ground (arith, bit_or-zero hi)
bit_or_fields (suc k) hi lo h =
    let width : hi * 2 ^ suc k ≡ 2 * (hi * 2 ^ k) =
      omega (arith, ap (λ (t : ℕ). hi * t) (pow-suc 2 k)) in
    let half : hi * 2 ^ suc k / 2 ≡ hi * 2 ^ k = omega arith in
    let fits : lo / 2 < 2 ^ k = omega (arith, pow-suc 2 k) in
    let rest : bit_or (hi * 2 ^ suc k / 2) (lo / 2) ≡ hi * 2 ^ k + lo / 2 =
      ap (λ t. bit_or t (lo / 2)) half ∙ bit_or_fields k hi (lo / 2) fits in
    omega (arith, bit_or_step (hi * 2 ^ suc k) lo, rest)

mod_double : (m a : ℕ) → 1 ≤ m → a % (m * 2) ≡ a / 2 % m * 2 + a % 2
mod_double m a pos =
    let low : ℕ = a / 2 % m * 2 + a % 2 in
    let split : a ≡ a / 2 / m * (m * 2) + low = omega (arith, div-add-mod' (a / 2) m) in
    let fits : low < m * 2 = omega (arith, mod-lt (a / 2) pos) in
    ap (λ t. t % (m * 2)) split ∙ mul-add-mod_self_right (a / 2 / m) (m * 2) low ∙ mod-eq_of_lt fits

-- A mask of `k` ones is the remainder by `2 ^ k`.
pub bit_and_mask : (k a : ℕ) → bit_and a (2 ^ k - 1) ≡ a % 2 ^ k
bit_and_mask zero a = ground (arith, bit_and-zero a)
bit_and_mask (suc k) a =
    let width : 2 ^ suc k ≡ 2 ^ k * 2 = pow-suc 2 k in
    let pos : 1 ≤ 2 ^ k = one-le-pow k 2 (omega arith) in
    let half : (2 ^ suc k - 1) / 2 ≡ 2 ^ k - 1 = omega arith in
    let rest : bit_and (a / 2) ((2 ^ suc k - 1) / 2) ≡ a / 2 % 2 ^ k =
      ap (λ t. bit_and (a / 2) t) half ∙ bit_and_mask k (a / 2) in
    omega (arith, bit_and_step a (2 ^ suc k - 1), rest, mod_double (2 ^ k) a pos, mod_width)
  where
    mod_width : a % 2 ^ suc k ≡ a % (2 ^ k * 2)
    mod_width = ap (λ t. a % t) (pow-suc 2 k)

-- The operations stay within the width of their arguments.
pub bit_xor-lt : (k a b : ℕ) → a < 2 ^ k → b < 2 ^ k → bit_xor a b < 2 ^ k
bit_xor-lt zero zero zero ha hb = omega arith
bit_xor-lt zero (suc a) b ha hb = absurd (omega arith)
bit_xor-lt zero zero (suc b) ha hb = absurd (omega arith)
bit_xor-lt (suc k) a b ha hb =
    let width : 2 ^ suc k ≡ 2 ^ k * 2 = pow-suc 2 k in
    omega (arith, bit_xor_step a b, bit_xor-lt k (a / 2) (b / 2) (omega arith) (omega arith))

pub bit_or-lt : (k a b : ℕ) → a < 2 ^ k → b < 2 ^ k → bit_or a b < 2 ^ k
bit_or-lt zero zero zero ha hb = omega arith
bit_or-lt zero (suc a) b ha hb = absurd (omega arith)
bit_or-lt zero zero (suc b) ha hb = absurd (omega arith)
bit_or-lt (suc k) a b ha hb =
    let width : 2 ^ suc k ≡ 2 ^ k * 2 = pow-suc 2 k in
    omega (arith, bit_or_step a b, bit_or-lt k (a / 2) (b / 2) (omega arith) (omega arith))

pub bit_and-le : (a b : ℕ) → bit_and a b ≤ a
bit_and-le a b =
    omega (arith, xor-add-and a b, and_le_digits (a + b) a b (omega arith) (omega arith))
  where
    and_le_digits : (n a b : ℕ) → a ≤ n → b ≤ n → bit_and a b ≤ a
    and_le_digits zero zero zero ha hb = omega arith
    and_le_digits zero (suc a) b ha hb = absurd (omega arith)
    and_le_digits zero zero (suc b) ha hb = absurd (omega arith)
    and_le_digits (suc n) a b ha hb =
        omega (arith, bit_and_step a b, and_le_digits n (a / 2) (b / 2) (omega arith) (omega arith))
