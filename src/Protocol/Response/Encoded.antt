-- ===== src/Protocol/Response/Encoded.antt =====
-- `decode_response` of client/src/net/protocol.cpp on a text that `b64encode` wrote.
use mathlib.Core.List.{reverse, reverse-reverse, reverse-cons}
use crackme.Base.{
  ℕ, ◌<◌, ◌≡◌, refl, [], ◌∷◌, arith, Bool, true, false, not, ◌&&◌, ◌==◌, bit_and, bit_or, ◌<<<◌,
  Bytes, IsBytes, All, All-append, ◌>>>◌, length, get_or, ok, not-true, both_true,
}
use crackme.Base.Tables.{holds_below, holds_below-at}
use crackme.Base.Bits.{bit_and_mask}
use crackme.Codec.Base64.{k_alpha, letter, b64encode}
use crackme.Codec.Base64.RoundTrip.{b64decode-b64encode}
use crackme.Protocol.Response.{is_blank, strip_left, decode_response}

-- A character that `decode_response` neither strips nor takes for an error of the server.
clean : ℕ → Bool
clean c = not (is_blank c) && not (c == b'{')

abbrev IsClean : Bytes → Type 0
IsClean text = All (λ c. clean c ≡ true) text

clean-letter : (n shift : ℕ) → clean (letter n shift) ≡ true
clean-letter n shift =
    holds_below-at (λ s. clean (get_or k_alpha s 0)) 64 (unfold holds_below clean is_blank in refl)
      (bit_and (n >>> shift) 63) (let mask = bit_and_mask 6 (n >>> shift) in omega (arith, mask))

b64encode-IsClean : (b : Bytes) → IsClean (b64encode b)
unfolding b64encode
b64encode-IsClean [] = tt
b64encode-IsClean (a ∷ []) =
    let n = a <<< 16 in
    (clean-letter n 18, (clean-letter n 12, unfold clean is_blank in (refl, (refl, tt))))
b64encode-IsClean (a ∷ b ∷ []) =
    let n = bit_or (a <<< 16) (b <<< 8) in
    (
      clean-letter n 18,
      (clean-letter n 12, (clean-letter n 6, unfold clean is_blank in (refl, tt))),
    )
b64encode-IsClean (a ∷ b ∷ c ∷ rest) =
    let n = bit_or (bit_or (a <<< 16) (b <<< 8)) c in
    (
      clean-letter n 18,
      (clean-letter n 12, (clean-letter n 6, (clean-letter n 0, b64encode-IsClean rest))),
    )

strip_left-IsClean : (text : Bytes) → IsClean text → strip_left text ≡ text
unfolding strip_left clean
strip_left-IsClean [] h = refl
strip_left-IsClean (c ∷ text) h = rw (not-true (is_blank c) (both_true _ _ h.0).0) refl

reverse-IsClean : (text : Bytes) → IsClean text → IsClean (reverse text)
reverse-IsClean [] h = tt
reverse-IsClean (c ∷ text) h =
    rw (reverse-cons c text) (
      All-append (λ c. clean c ≡ true) (reverse text) (c ∷ []) (reverse-IsClean text h.1) (h.0, tt))

stripped : (text : Bytes) → IsClean text → reverse (strip_left (reverse (strip_left text))) ≡ text
stripped text h =
    rw (strip_left-IsClean text h, strip_left-IsClean (reverse text) (reverse-IsClean text h))
      (reverse-reverse text)

clean_head : (text : Bytes) → IsClean text → (get_or text 0 0 == b'{') ≡ false
unfolding clean
clean_head [] h = refl
clean_head (c ∷ text) h = not-true (c == b'{') (both_true _ _ h.0).1

length-b64encode : (b : Bytes) → 0 < length b → 0 < length (b64encode b)
unfolding b64encode
length-b64encode [] h = absurd (omega arith)
length-b64encode (a ∷ []) h = omega arith
length-b64encode (a ∷ b ∷ []) h = omega arith
length-b64encode (a ∷ b ∷ c ∷ rest) h = omega arith

-- A response that is the base64 text of some bytes is decoded to them.
pub decode_response-b64encode :
    (b : Bytes) → IsBytes b → 0 < length b → decode_response (b64encode b) ≡ ok b
unfolding decode_response
decode_response-b64encode b h some_bytes =
    let text = b64encode b in
    let plain = b64encode-IsClean b in
    let filled = length-b64encode b some_bytes in
    let counted : (length text == 0) ≡ false = ground (arith, filled) in
    rw (stripped text plain, counted, clean_head text plain) (b64decode-b64encode b h)
