-- ===== src/Blake2b/Stream.antt =====
-- The key stream and `stream_xor` of client/src/crypto/crypto.cpp.
use crackme.Base.{
  ℕ, zero, suc, ◌+◌, ◌≤◌, ◌<◌, ◌≡◌, refl, ap, ap₂, [], ◌∷◌, ◌++◌, arith, Bytes, IsByte, IsBytes,
  ltb, Bool-cases, inl, inr, ltb→lt, ltb→le, length, length-append, resize, length-resize,
  All-append, All-resize, ok, u64,
}
use crackme.Base.Bits.{bit_xor_cancel, bit_xor-lt}
use crackme.Buffer.{append, be64}
use crackme.Blake2b.{keystream_loop, blake2b_ctr_keystream, xor_bytes, stream_xor}
use crackme.Blake2b.Bounds.{blake2b_total, blake2b_digest}

-- Each round adds 64 bytes, so `len - length out` rounds and one for the last test are enough.
keystream_loop_total :
    (fuel : ℕ) (key : Bytes) (len : ℕ) (domain : Bytes) (counter : ℕ) (out : Bytes)
    → length key ≤ 64
    → IsBytes out
    → 1 ≤ fuel
    → len < length out + fuel
    → (ks : Bytes) × (keystream_loop fuel key len domain counter out ≡ ok ks)
      × ((len ≤ length ks) × IsBytes ks)
unfolding keystream_loop
keystream_loop_total zero key len domain counter out short bytes one enough = absurd (omega arith)
keystream_loop_total (suc fuel) key len domain counter out short bytes one enough =
    elim (Bool-cases (ltb (length out) len)) [
      | inl more ↦
          let (digest, made) =
            blake2b_total (append domain (be64 counter)) key 64 (omega arith) (omega arith) short in
          let (_, _, _, long, digits) =
            blake2b_digest (append domain (be64 counter)) key 64 digest made in
          let size : length (out ++ digest) ≡ length out + 64 =
            omega (arith, length-append out digest) in
          let (ks, e, rest) =
            keystream_loop_total fuel key len domain (u64 (counter + 1)) (out ++ digest) short
              (All-append IsByte out digest bytes digits) (omega (arith, ltb→lt _ _ more))
              (omega arith) in
          (ks, rw more (rw made e), rest)
      | inr done ↦ (out, rw done refl, (ltb→le _ _ done, bytes))
    ]

-- A key stream of any length is returned when the key has at most 64 bytes, and it has that length.
pub blake2b_ctr_keystream_total :
    (key : Bytes) (len : ℕ) (domain : Bytes)
    → length key ≤ 64
    → (ks : Bytes) × (blake2b_ctr_keystream key len domain ≡ ok ks) × (length ks ≡ len) × IsBytes ks
unfolding blake2b_ctr_keystream
blake2b_ctr_keystream_total key len domain short =
    let (out, e, (long, bytes)) =
      keystream_loop_total (len + 1) key len domain 0 [] short tt (omega arith) (omega arith) in
    (
      resize len 0 out,
      rw e refl,
      length-resize len 0 out,
      All-resize IsByte len 0 out (omega arith) bytes,
    )

xor_bytes_twice : (xs ks : Bytes) → xor_bytes (xor_bytes xs ks) ks ≡ xs
unfolding xor_bytes
xor_bytes_twice [] ks = refl
xor_bytes_twice (x ∷ xs) [] = ap₂ ◌∷◌ (bit_xor_cancel x 0) (xor_bytes_twice xs [])
xor_bytes_twice (x ∷ xs) (k ∷ ks) = ap₂ ◌∷◌ (bit_xor_cancel x k) (xor_bytes_twice xs ks)

length-xor_bytes : (xs ks : Bytes) → length (xor_bytes xs ks) ≡ length xs
unfolding xor_bytes
length-xor_bytes [] ks = refl
length-xor_bytes (x ∷ xs) [] = ap suc (length-xor_bytes xs [])
length-xor_bytes (x ∷ xs) (k ∷ ks) = ap suc (length-xor_bytes xs ks)

-- With a key of at most 64 bytes `stream_xor` returns, keeps the length, and applied again under
-- the same key and domain it gives the data back.
pub stream_xor_twice :
    (key input domain : Bytes)
    → length key ≤ 64
    → (out : Bytes) × (stream_xor key input domain ≡ ok out)
      × (length out ≡ length input)
      × (stream_xor key out domain ≡ ok input)
unfolding stream_xor
stream_xor_twice key input domain short =
    let (ks, e, len, bytes) = blake2b_ctr_keystream_total key (length input) domain short in
    (
      xor_bytes input ks,
      rw e refl,
      length-xor_bytes input ks,
      rw (length-xor_bytes input ks) (rw e (ap (λ d. ok d) (xor_bytes_twice input ks))),
    )

xor_bytes-IsBytes : (xs ks : Bytes) → IsBytes xs → IsBytes ks → IsBytes (xor_bytes xs ks)
unfolding xor_bytes
xor_bytes-IsBytes [] ks h g = tt
xor_bytes-IsBytes (x ∷ xs) [] h g =
    (bit_xor-lt 8 x 0 h.0 (omega arith), xor_bytes-IsBytes xs [] h.1 tt)
xor_bytes-IsBytes (x ∷ xs) (k ∷ ks) h g =
    (bit_xor-lt 8 x k h.0 g.0, xor_bytes-IsBytes xs ks h.1 g.1)

-- On bytes `stream_xor` returns bytes.
pub stream_xor_total :
    (key input domain : Bytes)
    → length key ≤ 64
    → IsBytes input
    → (out : Bytes) × (stream_xor key input domain ≡ ok out) × IsBytes out
unfolding stream_xor
stream_xor_total key input domain short h =
    let (ks, e, len, bytes) = blake2b_ctr_keystream_total key (length input) domain short in
    (xor_bytes input ks, rw e refl, xor_bytes-IsBytes input ks h bytes)
