-- ===== src/Obfuscation/Laws.antt =====
-- The obfuscated expressions of client/src/protection compute what they hide.
use crackme.Base.{
  ℕ, ◌+◌, ◌^◌, ◌<◌, ◌≡◌, refl, ap, ap₂, ◌∙◌, [], ◌∷◌, ◌++◌, arith, bit_xor, Bytes, IsBytes, IsU64,
  IsU32, u8, u32, u64,
}
use crackme.Base.Bits.{
  bit_xor_cancel, bit_xor-lt, xor-add-and, or-eq-xor-add-and, bit_or-lt, bit_and-le,
}
use crackme.Obfuscation.{ks, encrypt_from, decode_from, rg_obf, mba_add, mba_xor, blinded32}

ks-lt : (s i : ℕ) → ks s i < 2 ^ 8
unfolding ks
ks-lt s i = omega arith

byte_twice : (c s i : ℕ) → c < 2 ^ 8 → u8 (bit_xor (u8 (bit_xor c (ks s i))) (ks s i)) ≡ c
byte_twice c s i h =
    let small : bit_xor c (ks s i) < 2 ^ 8 = bit_xor-lt 8 c (ks s i) h (ks-lt s i) in
    let plain : u8 (bit_xor c (ks s i)) ≡ bit_xor c (ks s i) = omega arith in
    let back : bit_xor (u8 (bit_xor c (ks s i))) (ks s i) ≡ c =
      ap (λ t. bit_xor t (ks s i)) plain ∙ bit_xor_cancel c (ks s i) in
    omega (arith, back)

decode-encrypt :
    (lit : Bytes) (s i : ℕ)
    → IsBytes lit
    → decode_from s i (encrypt_from s i (lit ++ (0 ∷ []))) ≡ lit
unfolding decode_from encrypt_from
decode-encrypt [] s i h = refl
decode-encrypt (c ∷ []) s i h = ap₂ ◌∷◌ (byte_twice c s i h.0) refl
decode-encrypt (c ∷ d ∷ lit) s i h =
    ap₂ ◌∷◌ (byte_twice c s i h.0) (decode-encrypt (d ∷ lit) s (i + 1) h.1)

-- A literal that went through the compile-time encryption comes out as it was.
pub rg_obf_lem : (lit : Bytes) → IsBytes lit → rg_obf lit ≡ lit
unfolding rg_obf
rg_obf_lem lit h = decode-encrypt lit _ 0 h

-- The mixed boolean-arithmetic sum is the wrapping sum of two `uint64_t`.
pub mba_add_lem : (a b : ℕ) → IsU64 a → IsU64 b → mba_add a b ≡ u64 (a + b)
unfolding mba_add
mba_add_lem a b ha hb = omega (arith, xor-add-and a b)

-- The mixed boolean-arithmetic exclusive or is `^` on two `uint64_t`.
pub mba_xor_lem : (a b : ℕ) → IsU64 a → IsU64 b → mba_xor a b ≡ bit_xor a b
unfolding mba_xor
mba_xor_lem a b ha hb =
    omega (
      arith,
      or-eq-xor-add-and a b,
      bit_or-lt 64 a b ha hb,
      bit_and-le a b,
      bit_xor-lt 64 a b ha hb,
    )

-- `blinded32` adds its halves under the blinding mask, in 32 bits.
pub blinded32_lem :
    (hi lo blind : ℕ)
    → IsU32 hi
    → IsU32 lo
    → IsU32 blind
    → blinded32 hi lo blind ≡ u32 (bit_xor (bit_xor hi blind + lo) blind)
unfolding blinded32
blinded32_lem hi lo blind hh hl hb =
    ap (λ t. u32 (bit_xor t blind))
      (mba_add_lem (bit_xor hi blind) lo (omega (arith, bit_xor-lt 32 hi blind hh hb)) (omega arith)
        ∙ omega (arith, bit_xor-lt 32 hi blind hh hb))
