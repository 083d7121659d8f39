-- ===== src/Base/Fnv.antt =====
-- FNV-1a in 32 bits, the reference for the checksums of client/src/protection.
use Prim.Native.Nat.{ℕ, ◌*◌, bit_xor}
use mathlib.Core.List.{[], ◌∷◌}
use crackme.Base.Words.{Bytes, u32}

-- From the state `h` on; the hash of `p` starts at the offset basis.
unfoldable pub fnv1a_from : ℕ → Bytes → ℕ
fnv1a_from h [] = h
fnv1a_from h (c ∷ p) = fnv1a_from (u32 (bit_xor h c * 0x01000193)) p

unfoldable pub fnv1a : Bytes → ℕ
fnv1a p = fnv1a_from 0x811C9DC5 p
