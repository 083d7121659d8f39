-- ===== src/Protocol/Response.antt =====
-- `decode_response` and `parse_pubkey` of client/src/net/protocol.cpp.
pub mod Encoded
use crackme.Base.{
  ℕ, ◌+◌, ◌-◌, ◌%◌, ◌^◌, [], ◌∷◌, ◌++◌, Bool, bit_or, Bytes, u8, u64, ◌<<<◌, ltb, leb, ◌==◌, ◌||◌,
  ◌&&◌, not, same_bytes, if◌then◌else◌, length, take, drop, get_or, Result, ok, err, ◌>>=◌, ◌>>◌,
  guard, empty_server_response, server_rejected, public_key_missing_field, public_key_malformed,
  public_key_bad_hex, public_key_bad_hex_digit,
}
use mathlib.Core.List.{reverse}
use crackme.Config.{ascii}
use crackme.Codec.Base64.{b64decode}

pub is_blank : ℕ → Bool
is_blank c = (c == 0x20) || (c == 0x0A) || (c == 0x0D)

pub strip_left : Bytes → Bytes
unfolding is_blank
strip_left [] = []
strip_left (c ∷ cs) = let rest = strip_left cs in if is_blank c then rest else c ∷ cs

unfoldable pub decode_response : Bytes → Result Bytes
unfolding strip_left
decode_response text = do
  let s = reverse (strip_left (reverse (strip_left text)))
  guard (not (length s == 0)) empty_server_response
  guard (not (get_or s 0 0 == b'{')) server_rejected
  b64decode s

-- `std::string::npos`.
abbrev pub npos : ℕ
npos = 2 ^ 64 - 1

-- `find` of a character in the rest of a string that starts at the index `pos`.
find_from : ℕ → Bytes → ℕ → ℕ
find_from c [] pos = npos
find_from c (x ∷ xs) pos = let rest = find_from c xs (pos + 1) in if x == c then pos else rest

find_char : ℕ → Bytes → ℕ → ℕ
unfolding find_from
find_char c s pos = if ltb pos (length s) then find_from c (drop pos s) pos else npos

-- `find` of a string.
find_text : Bytes → Bytes → ℕ → ℕ
find_text word [] pos = npos
find_text word (x ∷ xs) pos =
    let rest = find_text word xs (pos + 1) in
    if same_bytes (take (length word) (x ∷ xs)) word then pos else rest

nyb : ℕ → Result ℕ
nyb c =
    if leb b'0' c && leb c b'9'
    then ok (c - b'0')
    else if leb b'a' c && leb c b'f'
    then ok (c - b'a' + 10)
    else if leb b'A' c && leb c b'F'
    then ok (c - b'A' + 10)
    else err public_key_bad_hex_digit

hex_bytes : Bytes → Bytes → Result Bytes
unfolding nyb
hex_bytes (a ∷ b ∷ hex) out =
    nyb a >>= λ hi. nyb b >>= λ lo. hex_bytes hex (out ++ (u8 (bit_or (hi <<< 4) lo) ∷ []))
hex_bytes hex out = ok out

unfoldable pub parse_pubkey : Bytes → Result Bytes
unfolding find_char find_text hex_bytes
parse_pubkey json = do
  let k = find_text (ascii "public_key") json 0
  guard (not (k == npos)) public_key_missing_field
  let colon = find_char b':' json k
  let q1 = find_char 0x22 json colon
  let q2 = find_char 0x22 json (u64 (q1 + 1))
  guard (not ((q1 == npos) || (q2 == npos))) public_key_malformed
  let hex = take (q2 - q1 - 1) (drop (q1 + 1) json)
  guard (length hex % 2 == 0) public_key_bad_hex
  hex_bytes hex []
