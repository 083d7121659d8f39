-- ===== src/Codec/Base64/RoundTrip.antt =====
-- `b64decode` undoes `b64encode` of client/src/crypto/base64.cpp.
use crackme.Base.{
  three_true, not-true, ℕ, ◌+◌, ◌-◌, ◌*◌, ◌/◌, ◌%◌, ◌^◌, ◌<◌, ◌≡◌, refl, sym, ap, ap₂, ◌∙◌, [], ◌∷◌,
  ◌++◌, Bool, false, bit_or, bit_and, Bytes, IsBytes, u8, u32, ◌<<<◌, ◌>>>◌, leb, ◌==◌, ◌&&◌, not,
  if◌then◌else◌, get_or, Result, append-nil, ◌>>=◌, ok, arith, append_assoc, ==_iff,
}
use crackme.Base.Bits.{bit_or_fields, bit_and_mask}
use crackme.Base.Tables.{holds_below, holds_below-at}
use crackme.Codec.Alphabet.{negative}
use crackme.Codec.Base64.{
  k_alpha, k_rev, letter, skipped, Decoder, decode_char, decode_loop, b64encode, b64decode,
}

-- Each of the 64 letters stands for its index, and is neither the padding nor skipped.
good_letter : ℕ → Bool
unfolding k_rev
good_letter s =
    let c = get_or k_alpha s 0 in (get_or k_rev c 0 == s) && not (c == b'=') && not (skipped c)

good_letters :
    (s : ℕ)
    → s < 64
    → (get_or k_rev (get_or k_alpha s 0) 0 ≡ s)
      × ((get_or k_alpha s 0 == b'=') ≡ false)
      × (skipped (get_or k_alpha s 0) ≡ false)
unfolding good_letter
good_letters s h =
    let all = holds_below-at good_letter 64 (unfold holds_below good_letter in refl) s h in
    let (same, used, kept) = three_true _ _ _ all in
    ((==_iff _ s).0 same, not-true _ used, not-true _ kept)

-- Reading the letter of the digit `s` with less than 6, and with 6 or less than 8, bits waiting.
decode_char-digit :
    (s : ℕ) (out : Bytes) (buf bits : ℕ)
    → s < 64
    → decode_char (get_or k_alpha s 0) (out, (buf, bits)) ≡ (
        let buf' = u32 (buf * 64) + s in
        if leb 8 (bits + 6)
        then ok (out ++ (u8 (bit_and (buf' >>> (bits + 6 - 8)) 0xFF) ∷ []), (buf', bits + 6 - 8))
        else ok (out, (buf', bits + 6)))
unfolding decode_char
decode_char-digit s out buf bits h =
    let (same, used, kept) = good_letters s h in
    let small : negative s ≡ false = ground arith in
    let room : u32 (buf * 64) ≡ (buf % 2 ^ 26) * 2 ^ 6 = omega arith in
    rw (kept, same, small, room, bit_or_fields 6 (buf % 2 ^ 26) s h) refl

decode_loop-digit :
    (s : ℕ) (text : Bytes) (d : Decoder)
    → s < 64
    → decode_loop (get_or k_alpha s 0 ∷ text) d
      ≡ (decode_char (get_or k_alpha s 0) d >>= λ d'. decode_loop text d')
unfolding decode_loop
decode_loop-digit s text d h = let (_, used, _) = good_letters s h in rw used refl

-- The buffer after one more digit.
abbrev push : ℕ → ℕ → ℕ
push buf s = u32 (buf * 64) + s

decode_0 :
    (s : ℕ) (text out : Bytes) (buf : ℕ)
    → s < 64
    → decode_loop (get_or k_alpha s 0 ∷ text) (out, (buf, 0))
      ≡ decode_loop text (out, (push buf s, 6))
decode_0 s text out buf h =
    decode_loop-digit s text (out, (buf, 0)) h
    ∙ ap (λ (r : Result Decoder). r >>= λ d. decode_loop text d) (decode_char-digit s out buf 0 h)

low_byte : (x k : ℕ) → u8 (bit_and (x >>> k) 0xFF) ≡ x / 2 ^ k % 256
low_byte x k = rw (bit_and_mask 8 (x >>> k)) (omega arith)

decode_6 :
    (s : ℕ) (text out : Bytes) (buf : ℕ)
    → s < 64
    → decode_loop (get_or k_alpha s 0 ∷ text) (out, (buf, 6))
      ≡ decode_loop text (out ++ (push buf s / 16 % 256 ∷ []), (push buf s, 4))
decode_6 s text out buf h =
    decode_loop-digit s text (out, (buf, 6)) h
    ∙ ap (λ (r : Result Decoder). r >>= λ d. decode_loop text d) (decode_char-digit s out buf 6 h)
    ∙ ap (λ (b : ℕ). decode_loop text (out ++ (b ∷ []), (push buf s, 4))) (low_byte (push buf s) 4)

decode_4 :
    (s : ℕ) (text out : Bytes) (buf : ℕ)
    → s < 64
    → decode_loop (get_or k_alpha s 0 ∷ text) (out, (buf, 4))
      ≡ decode_loop text (out ++ (push buf s / 4 % 256 ∷ []), (push buf s, 2))
decode_4 s text out buf h =
    decode_loop-digit s text (out, (buf, 4)) h
    ∙ ap (λ (r : Result Decoder). r >>= λ d. decode_loop text d) (decode_char-digit s out buf 4 h)
    ∙ ap (λ (b : ℕ). decode_loop text (out ++ (b ∷ []), (push buf s, 2))) (low_byte (push buf s) 2)

decode_2 :
    (s : ℕ) (text out : Bytes) (buf : ℕ)
    → s < 64
    → decode_loop (get_or k_alpha s 0 ∷ text) (out, (buf, 2))
      ≡ decode_loop text (out ++ (push buf s % 256 ∷ []), (push buf s, 0))
decode_2 s text out buf h =
    decode_loop-digit s text (out, (buf, 2)) h
    ∙ ap (λ (r : Result Decoder). r >>= λ d. decode_loop text d) (decode_char-digit s out buf 2 h)
    ∙ ap (λ (b : ℕ). decode_loop text (out ++ (b ∷ []), (push buf s, 0)))
        (low_byte (push buf s) 0 ∙ omega arith)

decode_pad :
    (text out : Bytes) (buf bits : ℕ) → decode_loop (b'=' ∷ text) (out, (buf, bits)) ≡ ok out
unfolding decode_loop
decode_pad text out buf bits = refl

letter-digit : (n k : ℕ) → letter n k ≡ get_or k_alpha (n / 2 ^ k % 64) 0
letter-digit n k = ap (λ (s : ℕ). get_or k_alpha s 0) (bit_and_mask 6 (n >>> k))

-- The two digits that carry the first byte of a group.
decode_first :
    (n : ℕ) (text out : Bytes) (buf : ℕ)
    → n < 2 ^ 24
    → (buf' : ℕ) × (buf' % 16 ≡ n / 2 ^ 12 % 16)
      × (decode_loop (letter n 18 ∷ letter n 12 ∷ text) (out, (buf, 0))
          ≡ decode_loop text (out ++ (n / 2 ^ 16 ∷ []), (buf', 4)))
decode_first n text out buf h =
    let s = n / 2 ^ 18 % 64 in
    let s' = n / 2 ^ 12 % 64 in
    let buf1 = push buf s in
    let buf2 = push buf1 s' in
    let value : buf2 / 16 % 256 ≡ n / 2 ^ 16 = omega arith in
    (
      buf2,
      omega arith,
      rw (letter-digit n 18, letter-digit n 12)
          (decode_0 s (get_or k_alpha s' 0 ∷ text) out buf (omega arith)
            ∙ decode_6 s' text out buf1 (omega arith)
            ∙ ap (λ (b : ℕ). decode_loop text (out ++ (b ∷ []), (buf2, 4))) value),
    )

-- The third digit, which completes the second byte.
decode_second :
    (n : ℕ) (text out : Bytes) (buf : ℕ)
    → buf % 16 ≡ n / 2 ^ 12 % 16
    → (buf' : ℕ) × (buf' % 4 ≡ n / 2 ^ 6 % 4)
      × (decode_loop (letter n 6 ∷ text) (out, (buf, 4))
          ≡ decode_loop text (out ++ (n / 2 ^ 8 % 256 ∷ []), (buf', 2)))
decode_second n text out buf h =
    let s = n / 2 ^ 6 % 64 in
    let buf1 = push buf s in
    let value : buf1 / 4 % 256 ≡ n / 2 ^ 8 % 256 = omega arith in
    (
      buf1,
      omega arith,
      rw (letter-digit n 6) (
          decode_4 s text out buf (omega arith)
          ∙ ap (λ (b : ℕ). decode_loop text (out ++ (b ∷ []), (buf1, 2))) value),
    )

-- The fourth digit, which completes the third byte.
decode_third :
    (n : ℕ) (text out : Bytes) (buf : ℕ)
    → buf % 4 ≡ n / 2 ^ 6 % 4
    → (buf' : ℕ) × (decode_loop (letter n 0 ∷ text) (out, (buf, 2))
        ≡ decode_loop text (out ++ (n % 256 ∷ []), (buf', 0)))
decode_third n text out buf h =
    let s = n / 2 ^ 0 % 64 in
    let buf1 = push buf s in
    let value : buf1 % 256 ≡ n % 256 = omega arith in
    (
      buf1,
      rw (letter-digit n 0) (
          decode_2 s text out buf (omega arith)
          ∙ ap (λ (b : ℕ). decode_loop text (out ++ (b ∷ []), (buf1, 0))) value),
    )

two_bytes : (a b : ℕ) → b < 256 → bit_or (a <<< 16) (b <<< 8) ≡ (a * 256 + b) * 2 ^ 8
two_bytes a b hb = bit_or_fields 16 a (b <<< 8) (omega arith) ∙ omega arith

three_bytes :
    (a b c : ℕ)
    → b < 256
    → c < 256
    → bit_or (bit_or (a <<< 16) (b <<< 8)) c ≡ a * 65536 + b * 256 + c
three_bytes a b c hb hc =
    rw (two_bytes a b hb) (bit_or_fields 8 (a * 256 + b) c (omega arith) ∙ omega arith)

decode_encoded :
    (input out : Bytes) (buf : ℕ)
    → IsBytes input
    → decode_loop (b64encode input) (out, (buf, 0)) ≡ ok (out ++ input)
unfolding b64encode
decode_encoded [] out buf h = unfold decode_loop in ap ok (sym (append-nil out))
decode_encoded (a ∷ []) out buf h =
    let n = a <<< 16 in
    let (buf1, _, e1) = decode_first n (b'=' ∷ b'=' ∷ []) out buf (omega arith) in
    let first : n / 2 ^ 16 ≡ a = omega arith in
    e1 ∙ decode_pad (b'=' ∷ []) _ buf1 4 ∙ ap (λ (x : ℕ). ok (out ++ (x ∷ []))) first
decode_encoded (a ∷ b ∷ []) out buf h =
    let n = bit_or (a <<< 16) (b <<< 8) in
    let join : n ≡ (a * 256 + b) * 2 ^ 8 = two_bytes a b h.1.0 in
    let (buf1, k1, e1) = decode_first n (letter n 6 ∷ b'=' ∷ []) out buf (omega arith) in
    let (buf2, _, e2) = decode_second n (b'=' ∷ []) (out ++ (n / 2 ^ 16 ∷ [])) buf1 k1 in
    let first : n / 2 ^ 16 ≡ a = omega arith in
    let second : n / 2 ^ 8 % 256 ≡ b = omega arith in
    e1
    ∙ e2
    ∙ decode_pad [] _ buf2 2
    ∙ ap ok (append_assoc out _ _ ∙ ap₂ (λ (x y : ℕ). out ++ (x ∷ y ∷ [])) first second)
decode_encoded (a ∷ b ∷ c ∷ rest) out buf h =
    let n = bit_or (bit_or (a <<< 16) (b <<< 8)) c in
    let join : n ≡ a * 65536 + b * 256 + c = three_bytes a b c h.1.0 h.1.1.0 in
    let text = b64encode rest in
    let (buf1, k1, e1) = decode_first n (letter n 6 ∷ letter n 0 ∷ text) out buf (omega arith) in
    let out1 = out ++ (n / 2 ^ 16 ∷ []) in
    let (buf2, k2, e2) = decode_second n (letter n 0 ∷ text) out1 buf1 k1 in
    let out2 = out1 ++ (n / 2 ^ 8 % 256 ∷ []) in
    let (buf3, e3) = decode_third n text out2 buf2 k2 in
    let first : n / 2 ^ 16 ≡ a = omega arith in
    let second : n / 2 ^ 8 % 256 ≡ b = omega arith in
    let third : n % 256 ≡ c = omega arith in
    let whole : (out2 ++ (n % 256 ∷ [])) ++ rest ≡ out ++ (a ∷ b ∷ c ∷ rest) =
      rw (first, second, third) (simp append_assoc) in
    e1 ∙ e2 ∙ e3 ∙ decode_encoded rest (out2 ++ (n % 256 ∷ [])) buf3 h.1.1.1 ∙ ap ok whole

-- Decoding the base64 text of any bytes gives the bytes back.
pub b64decode-b64encode : (input : Bytes) → IsBytes input → b64decode (b64encode input) ≡ ok input
unfolding b64decode
b64decode-b64encode input h = decode_encoded input [] 0 h
