-- ===== src/Codec/Base64.antt =====
-- client/src/crypto/base64.cpp.
pub mod RoundTrip
use crackme.Base.{
  ℕ, zero, suc, ◌+◌, ◌-◌, ◌^◌, List, true, false, [], ◌∷◌, ◌++◌, Bool, bit_or, bit_and, Bytes, u8,
  u32, ◌<<<◌, ◌>>>◌, leb, ◌==◌, ◌||◌, if◌then◌else◌, get_or, Result, ◌>>=◌, ok, err,
  base64_invalid_character,
}
use crackme.Config.{ascii}
use crackme.Codec.Alphabet.{make_rev, negative}

abbrev pub k_alpha : Bytes
k_alpha = ascii "ABCDEFGHIJKLMNOPQRSTUVWXYZabcdefghijklmnopqrstuvwxyz0123456789+/"

unfoldable pub k_rev : List ℕ
unfolding make_rev
k_rev = make_rev k_alpha

-- `kAlpha[(n >> shift) & 63]`.
abbrev pub letter : ℕ → ℕ → ℕ
letter n shift = get_or k_alpha (bit_and (n >>> shift) 63) 0

-- The data from the index `i` on.
unfoldable pub b64encode : Bytes → Bytes
b64encode [] = []
b64encode (a ∷ []) = let n = a <<< 16 in letter n 18 ∷ letter n 12 ∷ b'=' ∷ b'=' ∷ []
b64encode (a ∷ b ∷ []) =
    let n = bit_or (a <<< 16) (b <<< 8) in letter n 18 ∷ letter n 12 ∷ letter n 6 ∷ b'=' ∷ []
b64encode (a ∷ b ∷ c ∷ rest) =
    let n = bit_or (bit_or (a <<< 16) (b <<< 8)) c in
    letter n 18 ∷ letter n 12 ∷ letter n 6 ∷ letter n 0 ∷ b64encode rest

abbrev pub skipped : ℕ → Bool
skipped c = (c == 0x0A) || (c == 0x0D) || (c == 0x20) || (c == 0x09)

-- `out`, `buf` and `bits` of `b64decode`.
abbrev pub Decoder : Type 0
Decoder = Bytes × (ℕ × ℕ)

-- The body of the loop for a character that is not '='.
unfoldable pub decode_char : ℕ → Decoder → Result Decoder
unfolding k_rev
decode_char c (out, (buf, bits)) =
    let v = get_or k_rev c 0 in
    let buf' = bit_or (u32 (buf <<< 6)) v in
    let bits' = bits + 6 in
    let byte = u8 (bit_and (buf' >>> (bits' - 8)) 0xFF) in
    if skipped c
    then ok (out, (buf, bits))
    else if negative v
    then err base64_invalid_character
    else if leb 8 bits'
    then ok (out ++ (byte ∷ []), (buf', bits' - 8))
    else ok (out, (buf', bits'))

-- The loop of `b64decode` over the characters left.
unfoldable pub decode_loop : Bytes → Decoder → Result Bytes
decode_loop [] d = ok d.0
decode_loop (c ∷ text) d =
    let rest = decode_char c d >>= λ d'. decode_loop text d' in if c == b'=' then ok d.0 else rest

unfoldable pub b64decode : Bytes → Result Bytes
unfolding decode_loop
b64decode text = decode_loop text ([], (0, 0))
