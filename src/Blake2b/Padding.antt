-- ===== src/Blake2b/Padding.antt =====
-- The buffer of the BLAKE2b of client/src/crypto/crypto.cpp, and `final`, which pads it.
use crackme.Base.{
  ℕ, zero, suc, ◌+◌, ◌/◌, ◌%◌, ◌^◌, ◌≤◌, ◌<◌, ◌≡◌, refl, sym, ap, ◌∙◌, List, [], ◌∷◌, ◌++◌, Bool,
  true, false, arith, Bytes, ltb, Bool-cases, inl, inr, if◌then◌else◌, length, take, drop, resize,
  length-set, length-take, take-set, take_all, resize_all, ltb→lt, ltb→le,
}
use crackme.Blake2b.{Blake2b, compress, compress_words, inc, put_byte, pad, output, final}

-- The new chain value; it depends on nothing but these arguments.
abbrev pub chain : List ℕ → ℕ → Bytes → Bool → List ℕ
chain h count block last = compress_words h (count % 2 ^ 64) (count / 2 ^ 64 % 2 ^ 64) block last

-- RFC 7693, block by block: `count` bytes have been taken in before `xs`. All blocks but the last
-- are full, and the last is padded by zeros. Each round takes 128 bytes, so `fuel` may be the
-- length of `xs`.
unfoldable pub hash_blocks : ℕ → List ℕ → ℕ → Bytes → List ℕ
hash_blocks zero h count xs = chain h (count + length xs) (resize 128 0 xs) true
hash_blocks (suc fuel) h count xs =
    let rest =
      hash_blocks fuel (chain h (count + 128) (take 128 xs) false) (count + 128) (drop 128 xs) in
    if ltb 128 (length xs) then rest else chain h (count + length xs) (resize 128 0 xs) true

-- `st` has taken in `count` bytes and compressed them; its buffer has room for 128.
pub record IsRunning (st : Blake2b) (count : ℕ) : Type 0 where
  pub low : st.t0 ≡ count % 2 ^ 64
  pub high : st.t1 ≡ count / 2 ^ 64 % 2 ^ 64
  pub room : length st.buf ≡ 128
  pub filled : st.buflen ≤ 128

pub inc-IsRunning :
    (st : Blake2b) (count n : ℕ) → n ≤ 128 → IsRunning st count → IsRunning (inc st n) (count + n)
unfolding inc
inc-IsRunning st count n h r = ground (arith, low_lem)
  where
    low_lem : (st.t0 ≡ count % 2 ^ 64) × (st.t1 ≡ count / 2 ^ 64 % 2 ^ 64)
    low_lem = (r.low, r.high)

compress-chain :
    (st : Blake2b) (count : ℕ) (block : Bytes) (last : Bool)
    → IsRunning st count
    → compress st block last ≡ record st { h = chain st.h count block last }
unfolding compress
compress-chain st count block last r i = record st {
  h = compress_words st.h (r.low i) (r.high i) block last;
}

resize-append_fill :
    (n : ℕ) (xs : Bytes) → length xs < n → resize n 0 (xs ++ (0 ∷ [])) ≡ resize n 0 xs
resize-append_fill zero xs h = absurd (omega arith)
resize-append_fill (suc n) [] h = refl
resize-append_fill (suc n) (x ∷ xs) h = ap (λ l. x ∷ l) (resize-append_fill n xs (omega arith))

pub put_byte-IsRunning :
    (st : Blake2b) (count x : ℕ)
    → st.buflen < 128
    → IsRunning st count
    → IsRunning (put_byte st x) count
unfolding put_byte
put_byte-IsRunning st count x h r = record {
  low = r.low;
  high = r.high;
  room = length-set st.buf st.buflen x ∙ r.room;
  filled = omega arith;
}

pub take-put_byte :
    (st : Blake2b) (x : ℕ)
    → st.buflen < length st.buf
    → take (put_byte st x).buflen (put_byte st x).buf ≡ take st.buflen st.buf ++ (x ∷ [])
unfolding put_byte
take-put_byte st x h =
    let e : st.buflen + 1 ≡ suc st.buflen = omega arith in rw e (take-set st.buflen st.buf x h)

full_pad :
    (st : Blake2b)
    → st.buflen ≡ 128
    → length st.buf ≡ 128
    → st ≡ record st { buf = resize 128 0 (take st.buflen st.buf); buflen = 128 }
full_pad st e room i = record st { buf = whole i; buflen = e i }
  where
    whole : st.buf ≡ resize 128 0 (take st.buflen st.buf)
    whole =
        sym (
          ap (resize 128 0) (take_all st.buflen st.buf (omega arith))
          ∙ resize_all 128 0 st.buf room)

put_zero_pad :
    (st : Blake2b)
    → st.buflen < 128
    → length st.buf ≡ 128
    → record (put_byte st 0) {
      buf = resize 128 0 (take (put_byte st 0).buflen (put_byte st 0).buf);
      buflen = 128;
    }
      ≡ record st { buf = resize 128 0 (take st.buflen st.buf); buflen = 128 }
put_zero_pad st lt room = unfold put_byte in λ i. record st { buf = same i; buflen = 128 }
  where
    held : length (take st.buflen st.buf) < 128
    held = omega (arith, length-take st.buflen st.buf)

    same :
        resize 128 0 (take (put_byte st 0).buflen (put_byte st 0).buf)
        ≡ resize 128 0 (take st.buflen st.buf)
    same = ap (resize 128 0) (take-put_byte st 0 (omega arith)) ∙ resize-append_fill 128 _ held

-- Padding keeps the filled part and puts zeros behind it.
buf-pad :
    (left : ℕ) (st : Blake2b)
    → length st.buf ≡ 128
    → st.buflen ≤ 128
    → 128 ≤ st.buflen + left
    → pad left st ≡ record st { buf = resize 128 0 (take st.buflen st.buf); buflen = 128 }
unfolding pad
buf-pad zero st room le enough = full_pad st (omega arith) room
buf-pad (suc left) st room le enough = elim (Bool-cases (ltb st.buflen 128)) [
  | inl more ↦ rw more (
      buf-pad left (put_byte st 0) (unfold put_byte in length-set st.buf st.buflen 0 ∙ room)
        (unfold put_byte in omega (arith, ltb→lt _ _ more)) (unfold put_byte in omega arith)
      ∙ put_zero_pad st (ltb→lt _ _ more) room)
  | inr done ↦ rw done (full_pad st (omega (arith, ltb→le _ _ done)) room)
]

-- The last step of either description, on a buffer that holds `xs`.
pub final-chain :
    (st : Blake2b) (count : ℕ)
    → IsRunning st count
    → final st
      ≡ output
          (chain st.h (count + st.buflen) (resize 128 0 (take st.buflen st.buf)) true)
          st.outlen
          0
unfolding final compress inc
final-chain st count r =
    ap (λ (s : Blake2b). output (compress s s.buf true).h s.outlen 0)
      (buf-pad 128 (inc st st.buflen) r.room r.filled (omega arith))
    ∙ counted
  where
    counting : IsRunning (inc st st.buflen) (count + st.buflen)
    counting = inc-IsRunning st count st.buflen r.filled r

    counted :
        output
          (compress_words st.h
            (inc st st.buflen).t0
            (inc st st.buflen).t1
            (resize 128 0 (take st.buflen st.buf))
            true)
          st.outlen
          0
        ≡ output
            (chain st.h (count + st.buflen) (resize 128 0 (take st.buflen st.buf)) true)
            st.outlen
            0
    counted i =
        output
          (compress_words st.h (counting.low i) (counting.high i)
            (resize 128 0 (take st.buflen st.buf)) true)
          st.outlen 0
