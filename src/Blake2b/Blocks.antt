-- ===== src/Blake2b/Blocks.antt =====
-- The streaming BLAKE2b of client/src/crypto/crypto.cpp against its block-wise description.
use crackme.Base.{
  ℕ, ◌≤◌, ◌≡◌, refl, ap, ◌∙◌, List, [], ◌∷◌, ◌++◌, arith, Bytes, u64, ◌==◌, Bool-cases, inl, inr,
  if◌then◌else◌, length, set, resize, le→ltb, ok, length-append, length-resize, bit_xor, get_or,
  ◌<<<◌,
}
use crackme.Blake2b.{Blake2b, init, flush, put_byte, update, output, final, blake2b_from, iv}
use crackme.Blake2b.Padding.{hash_blocks, IsRunning}
use crackme.Blake2b.Flush.{final-update}

-- The first chain value: the parameter block of RFC 7693 is folded into the first word.
abbrev pub init_words : ℕ → ℕ → List ℕ
init_words out keylen =
    set iv 0 (bit_xor (get_or iv 0 0) (bit_xor (bit_xor 0x01010000 (u64 (keylen <<< 8))) out))

-- A key takes up one whole block.
abbrev pub key_block : Bytes → Bytes
key_block key = if length key == 0 then [] else resize 128 0 key

update-append : (xs ys : Bytes) (st : Blake2b) → update (update st xs) ys ≡ update st (xs ++ ys)
unfolding update
update-append [] ys st = refl
update-append (x ∷ xs) ys st = update-append xs ys (put_byte (flush st) x)

init-IsRunning :
    (first_buf : Bytes) (out keylen : ℕ)
    → length first_buf ≡ 128
    → IsRunning (init first_buf out keylen) 0
unfolding init
init-IsRunning first_buf out keylen e = record {
  low = refl;
  high = refl;
  room = e;
  filled = omega arith;
}

whole_input :
    (first_buf input key : Bytes) (out : ℕ)
    → length first_buf ≡ 128
    → final (update (init first_buf out (length key)) (key_block key ++ input))
      ≡ output
          (hash_blocks (length input) (init_words out (length key)) 0 (key_block key ++ input))
          out
          0
unfolding init
whole_input first_buf input key out e =
    final-update (length input) (key_block key ++ input) (init first_buf out (length key)) 0
      (init-IsRunning first_buf out (length key) e)
      (omega (arith, length-append (key_block key) input, short))
  where
    short : length (key_block key) ≤ 128
    short = elim (Bool-cases (length key == 0)) [
      | inl none_given ↦ rw none_given (omega arith)
      | inr given ↦ rw given (omega (arith, length-resize 128 0 key))
    ]

-- For every digest length from 1 to 64 and every key of at most 64 bytes, the streaming code
-- returns the block-wise BLAKE2b of the key block and the input, whatever its buffer held at first.
pub blake2b_from-hash_blocks :
    (first_buf input key : Bytes) (out_len : ℕ)
    → length first_buf ≡ 128
    → 1 ≤ out_len
    → out_len ≤ 64
    → length key ≤ 64
    → blake2b_from first_buf input key out_len
      ≡ ok (
          output
            (hash_blocks
              (length input)
              (init_words out_len (length key))
              0
              (key_block key ++ input))
            out_len
            0)
unfolding blake2b_from
blake2b_from-hash_blocks first_buf input key out_len e lo hi short =
    rw (le→ltb out_len 1 lo, le→ltb 64 out_len hi, le→ltb 64 (length key) short)
      (ap (λ d. ok d) (keyed ∙ whole_input first_buf input key out_len e))
  where
    st0 : Blake2b
    st0 = init first_buf out_len (length key)

    keyed :
        final (update (if length key == 0 then st0 else update st0 (resize 128 0 key)) input)
        ≡ final (update st0 (key_block key ++ input))
    keyed = elim (Bool-cases (length key == 0)) [
      | inl none_given ↦ rw none_given refl
      | inr given ↦ rw given (ap final (update-append (resize 128 0 key) input st0))
    ]
