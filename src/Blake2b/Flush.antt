-- ===== src/Blake2b/Flush.antt =====
-- `update` of the BLAKE2b of client/src/crypto/crypto.cpp on a buffer that fills up.
use crackme.Base.{
  ℕ, zero, suc, ◌+◌, ◌/◌, ◌%◌, ◌^◌, ◌≤◌, ◌<◌, ◌≡◌, refl, sym, ap, ap₂, ◌∙◌, List, [], ◌∷◌, ◌++◌,
  true, false, arith, Bytes, ltb, Bool-cases, inl, inr, length, take, resize, append_assoc,
  append-nil, length-take, take_all, take-append, drop-append, ltb→lt, ltb→le, lt→ltb, le→ltb,
  ==_iff, length-append,
}
use crackme.Blake2b.{Blake2b, compress, compress_words, inc, flush, put_byte, update, output, final}
use crackme.Blake2b.Padding.{
  chain, hash_blocks, IsRunning, inc-IsRunning, put_byte-IsRunning, take-put_byte, final-chain,
}

flush-kept : (st : Blake2b) → st.buflen < 128 → flush st ≡ st
unfolding flush
flush-kept st h = ground arith

-- A full buffer is compressed and left empty.
abbrev emptied : Blake2b → ℕ → Blake2b
emptied st count = record st {
  h = chain st.h (count + 128) st.buf false;
  t0 = (count + 128) % 2 ^ 64;
  t1 = (count + 128) / 2 ^ 64 % 2 ^ 64;
  buflen = 0;
}

flush-full :
    (st : Blake2b) (count : ℕ) → st.buflen ≡ 128 → IsRunning st count → flush st ≡ emptied st count
unfolding flush compress inc
flush-full st count e r = rw ((==_iff _ _).1 e) λ i. record st {
  h = compress_words st.h (counting.low i) (counting.high i) st.buf false;
  t0 = counting.low i;
  t1 = counting.high i;
  buflen = 0;
}
  where
    counting : IsRunning (inc st 128) (count + 128)
    counting = inc-IsRunning st count 128 (omega arith) r

emptied-IsRunning :
    (st : Blake2b) (count : ℕ) → IsRunning st count → IsRunning (emptied st count) (count + 128)
emptied-IsRunning st count r = record {
  low = refl;
  high = refl;
  room = r.room;
  filled = omega arith;
}

hash_blocks-last :
    (fuel : ℕ) (h : List ℕ) (count : ℕ) (xs : Bytes)
    → length xs ≤ 128
    → hash_blocks fuel h count xs ≡ chain h (count + length xs) (resize 128 0 xs) true
unfolding hash_blocks
hash_blocks-last zero h count xs le = refl
hash_blocks-last (suc fuel) h count xs le = rw (le→ltb _ _ le)

hash_blocks-more :
    (fuel : ℕ) (h : List ℕ) (count : ℕ) (block xs : Bytes) (x : ℕ)
    → length block ≡ 128
    → hash_blocks (suc fuel) h count (block ++ (x ∷ xs))
      ≡ hash_blocks fuel (chain h (count + 128) block false) (count + 128) (x ∷ xs)
unfolding hash_blocks
hash_blocks-more fuel h count block xs x e = rw (lt→ltb 128 _ long) (
    ap₂ (λ b r. hash_blocks fuel (chain h (count + 128) b false) (count + 128) r)
      (take-append 128 block (x ∷ xs) e) (drop-append 128 block (x ∷ xs) e))
  where
    long : 128 < length (block ++ (x ∷ xs))
    long = omega (arith, length-append block (x ∷ xs))

-- Whatever has been taken in, streaming the rest and finishing gives the block-wise hash of the
-- buffered bytes and the rest.
module _ (xs : Bytes) (x : ℕ) (st : Blake2b) where
  hold_byte :
      (fuel count : ℕ)
      → st.buflen < length st.buf
      → hash_blocks fuel st.h count (take (put_byte st x).buflen (put_byte st x).buf ++ xs)
        ≡ hash_blocks fuel st.h count (take st.buflen st.buf ++ (x ∷ xs))
  hold_byte fuel count h =
      ap (λ l. hash_blocks fuel st.h count l)
        (ap (λ l. l ++ xs) (take-put_byte st x h)
          ∙ append_assoc (take st.buflen st.buf) (x ∷ []) xs)

pub final-update :
    (fuel : ℕ) (xs : Bytes) (st : Blake2b) (count : ℕ)
    → IsRunning st count
    → st.buflen + length xs ≤ 128 + fuel
    → final (update st xs)
      ≡ output (hash_blocks fuel st.h count (take st.buflen st.buf ++ xs)) st.outlen 0
unfolding update
final-update fuel [] st count r enough =
    let held : length (take st.buflen st.buf) ≡ st.buflen =
      omega (arith, length-take st.buflen st.buf, r.room, r.filled) in
    final-chain st count r
    ∙ ap (λ h. output h st.outlen 0)
        (ap (λ n. chain st.h (count + n) (resize 128 0 (take st.buflen st.buf)) true) (sym held)
          ∙ sym (hash_blocks-last fuel st.h count (take st.buflen st.buf) (omega arith))
          ∙ ap (hash_blocks fuel st.h count) (sym (append-nil (take st.buflen st.buf))))
final-update zero (x ∷ xs) st count r enough =
    let lt : st.buflen < 128 = omega arith in
    rw (flush-kept st lt) (
      final-update zero xs (put_byte st x) count (put_byte-IsRunning st count x lt r)
        (unfold put_byte in omega arith)
      ∙ unfold put_byte in
        ap (λ h. output h st.outlen 0) (hold_byte xs x st zero count (omega (arith, r.room))))
final-update (suc fuel) (x ∷ xs) st count r enough = elim (Bool-cases (ltb st.buflen 128)) [
  | inl more ↦
      let lt : st.buflen < 128 = ltb→lt _ _ more in
      rw (flush-kept st lt) (
        final-update (suc fuel) xs (put_byte st x) count (put_byte-IsRunning st count x lt r)
          (unfold put_byte in omega arith)
        ∙ unfold put_byte in
          ap (λ h. output h st.outlen 0)
            (hold_byte xs x st (suc fuel) count (omega (arith, r.room))))
  | inr done ↦
      let e : st.buflen ≡ 128 = omega (arith, ltb→le _ _ done, r.filled) in
      let st' = emptied st count in
      rw (flush-full st count e r) (
        final-update fuel xs (put_byte st' x) (count + 128)
          (put_byte-IsRunning st' (count + 128) x (omega arith) (emptied-IsRunning st count r))
          (unfold put_byte in omega arith)
        ∙ unfold put_byte in
          ap (λ h. output h st.outlen 0)
            (hold_byte xs x st' fuel (count + 128) (omega (arith, r.room))
              ∙ sym (hash_blocks-more fuel st.h count st.buf xs x r.room)
              ∙ ap (λ b. hash_blocks (suc fuel) st.h count (b ++ (x ∷ xs)))
                  (sym (take_all st.buflen st.buf (omega (arith, r.room))))))
]
