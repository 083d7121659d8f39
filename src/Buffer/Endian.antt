-- ===== src/Buffer/Endian.antt =====
-- The big-endian conversions of client/src/common.hpp undo one another.
use native.Mathlib.Nat.{pow-suc, one-le-pow}
use crackme.Base.{
  ℕ, zero, suc, ◌+◌, ◌*◌, ◌^◌, ◌≤◌, ◌<◌, ◌≡◌, refl, ap, ap₂, ◌∙◌, [], ◌∷◌, ◌++◌, arith, bit_or,
  Bytes, IsByte, IsBytes, IsU64, IsU32, u8, u32, u64, ◌<<<◌, ◌>>>◌, length, get_or, All-get_or,
  All-append,
}
use crackme.Base.Bits.{bit_or_fields}
use crackme.Buffer.{be16, be32, be64, rd_be16, rd_be32, rd_be64, rd_be64_loop}

-- The number that `n` bytes from position `i` on spell, most significant first, after `v`.
horner : ℕ → ℕ → ℕ → Bytes → ℕ
horner zero i v p = v
horner (suc n) i v p = horner n (i + 1) (v * 256 + get_or p i 0) p

shift_in : (v b : ℕ) → v < 2 ^ 56 → b < 256 → bit_or (u64 (v <<< 8)) b ≡ v * 256 + b
shift_in v b hv hb =
    let whole : u64 (v <<< 8) ≡ v * 2 ^ 8 = omega arith in
    ap (λ t. bit_or t b) whole ∙ bit_or_fields 8 v b (omega arith)

byte_at-lt : (p : Bytes) (i : ℕ) → IsBytes p → get_or p i 0 < 256
byte_at-lt p i h = All-get_or IsByte p i 0 (omega arith) h

module _ (m v b : ℕ) (pos : 1 ≤ m) (hb : b < 256) (room : (v + 1) * (m * 256) ≤ 2 ^ 64) where
  room_now : v < 2 ^ 56
  room_now = grind arith

  room_next : (v * 256 + b + 1) * m ≤ 2 ^ 64
  room_next = grind arith

rd_loop-horner :
    (left i v : ℕ) (p : Bytes)
    → IsBytes p
    → (v + 1) * 256 ^ left ≤ 2 ^ 64
    → rd_be64_loop left i v p ≡ horner left i v p
unfolding rd_be64_loop horner
rd_loop-horner zero i v p h room = refl
rd_loop-horner (suc left) i v p h room =
    let b : ℕ = get_or p i 0 in
    let hb : b < 256 = byte_at-lt p i h in
    let pos : 1 ≤ 256 ^ left = one-le-pow left 256 (omega arith) in
    let room' : (v + 1) * (256 ^ left * 256) ≤ 2 ^ 64 = rw (pow-suc 256 left) at room in
    rw (shift_in v b (room_now (256 ^ left) v b pos hb room') hb)
      (rd_loop-horner left (i + 1) (v * 256 + b) p h (room_next (256 ^ left) v b pos hb room'))

pub be64-IsBytes : (v : ℕ) → IsBytes (be64 v)
unfolding be64
be64-IsBytes v = omega arith

pub length-be64 : (v : ℕ) → length (be64 v) ≡ 8
unfolding be64
length-be64 v = refl

pub be32-IsBytes : (v : ℕ) → IsBytes (be32 v)
unfolding be32
be32-IsBytes v = omega arith

pub length-be32 : (v : ℕ) → length (be32 v) ≡ 4
unfolding be32
length-be32 v = refl

pub be16-IsBytes : (v : ℕ) → IsBytes (be16 v)
unfolding be16
be16-IsBytes v = omega arith

pub length-be16 : (v : ℕ) → length (be16 v) ≡ 2
unfolding be16
length-be16 v = refl

rd_be64-horner : (p : Bytes) → IsBytes p → rd_be64 p ≡ horner 8 0 0 p
unfolding rd_be64
rd_be64-horner p h = rd_loop-horner 8 0 0 p h (omega arith)

-- Reading the eight bytes of a `uint64_t` gives it back, whatever bytes follow them.
pub rd_be64-be64 : (v : ℕ) (rest : Bytes) → IsU64 v → IsBytes rest → rd_be64 (be64 v ++ rest) ≡ v
rd_be64-be64 v rest hv h =
    rd_be64-horner (be64 v ++ rest) (All-append IsByte (be64 v) rest (be64-IsBytes v) h)
    ∙ unfold be64 horner in omega arith

rd_be64_eight :
    (a b c d e f g h : ℕ)
    → IsBytes (a ∷ b ∷ c ∷ d ∷ e ∷ f ∷ g ∷ h ∷ [])
    → rd_be64 (a ∷ b ∷ c ∷ d ∷ e ∷ f ∷ g ∷ h ∷ [])
      ≡ a * 2 ^ 56 + b * 2 ^ 48 + c * 2 ^ 40 + d * 2 ^ 32 + e * 2 ^ 24 + f * 2 ^ 16 + g * 2 ^ 8 + h
rd_be64_eight a b c d e f g h hs = rd_be64-horner _ hs ∙ unfold horner in omega arith

be64_split :
    (a b c d e f g h : ℕ)
    → IsBytes (a ∷ b ∷ c ∷ d ∷ e ∷ f ∷ g ∷ h ∷ [])
    → be64 (
        a * 2 ^ 56 + b * 2 ^ 48 + c * 2 ^ 40 + d * 2 ^ 32 + e * 2 ^ 24 + f * 2 ^ 16 + g * 2 ^ 8 + h)
      ≡ a ∷ b ∷ c ∷ d ∷ e ∷ f ∷ g ∷ h ∷ []
unfolding be64
be64_split a b c d e f g h hs = ap₂ ◌∷◌ (omega arith) (
    ap₂ ◌∷◌ (omega arith) (
      ap₂ ◌∷◌ (omega arith) (
        ap₂ ◌∷◌ (omega arith) (
          ap₂ ◌∷◌ (omega arith)
            (ap₂ ◌∷◌ (omega arith) (ap₂ ◌∷◌ (omega arith) (ap₂ ◌∷◌ (omega arith) refl)))))))

-- Writing the number that eight bytes spell gives those bytes back.
pub be64-rd_be64 : (p : Bytes) → IsBytes p → length p ≡ 8 → be64 (rd_be64 p) ≡ p
be64-rd_be64 (a ∷ b ∷ c ∷ d ∷ e ∷ f ∷ g ∷ h ∷ []) hs n =
    ap be64 (rd_be64_eight a b c d e f g h hs) ∙ be64_split a b c d e f g h hs
be64-rd_be64 p hs n = absurd (omega arith)

-- Two neighbouring fields of a 32-bit word, each given by an expression that may wrap.
join_fields :
    (k hi lo x y : ℕ) → x ≡ hi * 2 ^ k → y ≡ lo → lo < 2 ^ k → bit_or x y ≡ hi * 2 ^ k + lo
join_fields k hi lo x y ex ey h = ap₂ bit_or ex ey ∙ bit_or_fields k hi lo h

rd_be32_four :
    (a b c d : ℕ) (rest : Bytes)
    → IsBytes (a ∷ b ∷ c ∷ d ∷ [])
    → rd_be32 (a ∷ b ∷ c ∷ d ∷ rest) ≡ a * 2 ^ 24 + b * 2 ^ 16 + c * 2 ^ 8 + d
unfolding rd_be32
rd_be32_four a b c d rest h =
    let two : bit_or (u32 (a <<< 24)) (u32 (b <<< 16)) ≡ a * 2 ^ 24 + b * 2 ^ 16 =
      join_fields 24 a (b * 2 ^ 16) _ _ (omega arith) (omega arith) (omega arith) in
    let three : bit_or (bit_or (u32 (a <<< 24)) (u32 (b <<< 16))) (u32 (c <<< 8))
        ≡ (a * 2 ^ 8 + b) * 2 ^ 16 + c * 2 ^ 8 =
      join_fields 16 (a * 2 ^ 8 + b) (c * 2 ^ 8) _ _ (omega arith) (omega arith) (omega arith) in
    join_fields 8 (a * 2 ^ 16 + b * 2 ^ 8 + c) d _ _ (omega arith) refl (omega arith) ∙ omega arith

-- Reading the four bytes of a `uint32_t` gives it back, whatever bytes follow them.
pub rd_be32-be32 : (v : ℕ) (rest : Bytes) → IsU32 v → rd_be32 (be32 v ++ rest) ≡ v
unfolding be32
rd_be32-be32 v rest hv =
    rd_be32_four (u8 (v >>> 24)) (u8 (v >>> 16)) (u8 (v >>> 8)) (u8 v) rest (omega arith)
    ∙ omega arith

be32_split :
    (a b c d : ℕ)
    → IsBytes (a ∷ b ∷ c ∷ d ∷ [])
    → be32 (a * 2 ^ 24 + b * 2 ^ 16 + c * 2 ^ 8 + d) ≡ a ∷ b ∷ c ∷ d ∷ []
unfolding be32
be32_split a b c d h =
    ap₂ ◌∷◌ (omega arith)
      (ap₂ ◌∷◌ (omega arith) (ap₂ ◌∷◌ (omega arith) (ap₂ ◌∷◌ (omega arith) refl)))

-- Writing the number that four bytes spell gives those bytes back.
pub be32-rd_be32 : (p : Bytes) → IsBytes p → length p ≡ 4 → be32 (rd_be32 p) ≡ p
be32-rd_be32 (a ∷ b ∷ c ∷ d ∷ []) h n = ap be32 (rd_be32_four a b c d [] h) ∙ be32_split a b c d h
be32-rd_be32 p h n = absurd (omega arith)

-- Reading the two bytes of a `uint16_t` gives it back.
pub rd_be16-be16 : (v : ℕ) (rest : Bytes) → v < 2 ^ 16 → rd_be16 (be16 v ++ rest) ≡ v
unfolding rd_be16 be16
rd_be16-be16 v rest hv =
    omega (
      arith,
      join_fields 8 (u8 (v >>> 8)) (u8 v) (u8 (v >>> 8) <<< 8) (u8 v) refl refl (omega arith),
    )

rd_be64-lt_horner : (p : Bytes) → IsBytes p → rd_be64 p < 2 ^ 64
rd_be64-lt_horner p h =
    let b : (i : ℕ) → get_or p i 0 < 256 = λ i. byte_at-lt p i h in
    rw (rd_be64-horner p h) (unfold horner in omega (arith, b 0, b 1, b 2, b 3, b 4, b 5, b 6, b 7))

-- The result of `rd_be64` is a `uint64_t`.
pub rd_be64-lt : (p : Bytes) → IsBytes p → rd_be64 p < 2 ^ 64
rd_be64-lt p h = rd_be64-lt_horner p h
