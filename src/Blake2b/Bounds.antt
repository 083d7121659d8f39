-- ===== src/Blake2b/Bounds.antt =====
-- What a call of `blake2b` of client/src/crypto/crypto.cpp returns: a digest of the length that was
-- asked for, or one of the two errors.
use crackme.Base.{
  ◌||◌, if◌then◌else◌, blake2b_out_len, blake2b_key_too_long, ℕ, zero, suc, ◌+◌, ◌≤◌, ◌≡◌, refl,
  List, arith, Bytes, IsBytes, ltb, length, ok, replicate, ap, err,
}
use mathlib.Core.Path.{subst}
use crackme.Blake2b.Blocks.{blake2b_from-hash_blocks}
use crackme.Blake2b.{blake2b, blake2b_from, output}

length-output : (h : List ℕ) (n i : ℕ) → length (output h n i) ≡ n
unfolding output
length-output h zero i = refl
length-output h (suc n) i = ap suc (length-output h n (i + 1))

output-IsBytes : (h : List ℕ) (n i : ℕ) → IsBytes (output h n i)
unfolding output
output-IsBytes h zero i = tt
output-IsBytes h (suc n) i = (omega arith, output-IsBytes h n (i + 1))

checked :
    (n k : ℕ) (whole digest : Bytes)
    → (if ltb n 1 || ltb 64 n
        then err blake2b_out_len
        else if ltb 64 k
        then err blake2b_key_too_long
        else ok whole)
      ≡ ok digest
    → (1 ≤ n) × (n ≤ 64) × (k ≤ 64)
checked n k whole digest e = ground arith

-- The errors come before any hashing.
valid_of_ok :
    (input key : Bytes) (out_len : ℕ) {digest : Bytes}
    → blake2b input key out_len ≡ ok digest
    → (1 ≤ out_len) × (out_len ≤ 64) × (length key ≤ 64)
unfolding blake2b blake2b_from
valid_of_ok input key out_len {digest} e = checked out_len (length key) _ digest e

spelled :
    (input key : Bytes) (out_len : ℕ)
    → (1 ≤ out_len) × (out_len ≤ 64) × (length key ≤ 64)
    → (h : List ℕ) × (blake2b input key out_len ≡ ok (output h out_len 0))
unfolding blake2b
spelled input key out_len (lo, hi, short) =
    (_, blake2b_from-hash_blocks (replicate 128 0) input key out_len refl lo hi short)

-- With a digest length from 1 to 64 and a key of at most 64 bytes there is a digest.
pub blake2b_total :
    (input key : Bytes) (out_len : ℕ)
    → 1 ≤ out_len
    → out_len ≤ 64
    → length key ≤ 64
    → (digest : Bytes) × (blake2b input key out_len ≡ ok digest)
blake2b_total input key out_len lo hi short =
    let (h, e) = spelled input key out_len (lo, hi, short) in (output h out_len 0, e)

-- A digest that is returned has the length asked for, which is between 1 and 64, and holds bytes;
-- the key then has at most 64 bytes.
pub blake2b_digest :
    (input key : Bytes) (out_len : ℕ) (digest : Bytes)
    → blake2b input key out_len ≡ ok digest
    → (1 ≤ out_len)
      × (out_len ≤ 64)
      × (length key ≤ 64)
      × (length digest ≡ out_len)
      × IsBytes digest
blake2b_digest input key out_len digest e =
    let (lo, hi, short) = valid_of_ok input key out_len e in
    let (h, e') = spelled input key out_len (lo, hi, short) in
    let same : output h out_len 0 ≡ digest = cc (e, e') in
    (
      lo,
      hi,
      short,
      subst (λ d. length d ≡ out_len) same (length-output h out_len 0),
      subst IsBytes same (output-IsBytes h out_len 0),
    )
