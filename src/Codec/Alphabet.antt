-- ===== src/Codec/Alphabet.antt =====
-- The reverse tables of client/src/crypto/base64.cpp and challenge/license_format.cpp. An `int8_t`
-- is its byte, so that the entry -1 is 255 and the negative entries are those from 128 on.
use crackme.Base.{ℕ, ◌+◌, ◌∷◌, [], List, Bool, Bytes, set, replicate, leb}

-- `r[alphabet[i]] = i` for the letters from index `i` on.
set_letters : Bytes → ℕ → List ℕ → List ℕ
set_letters [] i r = r
set_letters (c ∷ cs) i r = set_letters cs (i + 1) (set r c i)

unfoldable pub make_rev : Bytes → List ℕ
unfolding set_letters
make_rev alphabet = set_letters alphabet 0 (replicate 256 255)

-- `v < 0` of an `int8_t`.
abbrev pub negative : ℕ → Bool
negative v = leb 128 v
