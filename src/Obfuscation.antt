-- ===== src/Obfuscation.antt =====
-- client/src/protection/encoded_strings.hpp and obfuscation.hpp.
pub mod Laws
use crackme.Base.{
  ℕ, zero, suc, ◌+◌, ◌-◌, ◌*◌, ◌%◌, List, [], ◌∷◌, ◌++◌, Bool, bit_and, bit_or, bit_xor, Bytes, u8,
  u32, u64, sub64, ◌<<<◌, ◌==◌, length,
}

-- `Enc<N>`: the ciphertext of the literal with its trailing NUL, and the seed.
pub record Enc : Type 0 where
  pub cipher : Bytes
  pub seed : ℕ

-- `Enc::ks`
unfoldable pub ks : ℕ → ℕ → ℕ
ks s i = u8 (u32 (s + 0x37 * u8 i + u8 (i <<< 1) + 0x5A))

encrypt_from : ℕ → ℕ → Bytes → Bytes
encrypt_from s i [] = []
encrypt_from s i (c ∷ lit) = u8 (bit_xor c (ks s i)) ∷ encrypt_from s (i + 1) lit

-- The constructor of `Enc`, on the literal with its NUL.
unfoldable pub enc : Bytes → ℕ → Enc
unfolding encrypt_from ks
enc lit s = record { cipher = encrypt_from s 0 lit; seed = s }

-- `i + 1 < N`: the last byte, the NUL, is dropped.
decode_from : ℕ → ℕ → Bytes → Bytes
decode_from s i [] = []
decode_from s i (d ∷ []) = []
decode_from s i (d ∷ e ∷ rest) = u8 (bit_xor d (ks s i)) ∷ decode_from s (i + 1) (e ∷ rest)

unfoldable pub decode : Enc → Bytes
unfolding decode_from ks
decode e = decode_from e.seed 0 e.cipher

-- `RG_OBF(lit)`; `sizeof(lit)` counts the NUL.
unfoldable pub rg_obf : Bytes → Bytes
unfolding enc decode
rg_obf lit = decode (enc (lit ++ (0 ∷ [])) (u8 (bit_xor 0xB7 ((length lit + 1) * 5))))

unfoldable pub mba_add : ℕ → ℕ → ℕ
mba_add a b = u64 (bit_xor a b + u64 (2 * bit_and a b))

unfoldable pub mba_xor : ℕ → ℕ → ℕ
mba_xor a b = sub64 (bit_or a b) (bit_and a b)

unfoldable pub blinded32 : ℕ → ℕ → ℕ → ℕ
unfolding mba_add
blinded32 hi_split lo_split blind = u32 (bit_xor (mba_add (bit_xor hi_split blind) lo_split) blind)
