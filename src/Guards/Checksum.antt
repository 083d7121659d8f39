-- ===== src/Guards/Checksum.antt =====
-- What `run_anti_tamper` of client/src/protection/anti_tamper.cpp reports.
use crackme.Base.{ℕ, zero, suc, ◌+◌, [], ◌∷◌, Bool, Bytes, ◌==◌, same_bytes, if◌then◌else◌, take}
use crackme.Config.{ascii}
use crackme.Guards.{Section}

-- The `n` bytes of `text` from the offset `at` on.
unfoldable pub bytes_at : (ℕ → ℕ) → ℕ → ℕ → Bytes
bytes_at text zero at = []
bytes_at text (suc n) at = text at ∷ bytes_at text n (at + 1)

-- How often `b` stands in `p`.
unfoldable pub count : ℕ → Bytes → ℕ
count b [] = 0
count b (c ∷ p) = (if c == b then 1 else 0) + count b p

unfoldable pub is_text : Section → Bool
is_text s = same_bytes (take 5 s.name) (ascii ".text")
