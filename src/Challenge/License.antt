-- ===== src/Challenge/License.antt =====
-- client/src/challenge/license_format.cpp.
pub mod RoundTrip
pub mod Blanks
pub mod Shape
pub mod Idempotent
use crackme.Base.{
  ℕ, zero, suc, ◌+◌, ◌-◌, ◌*◌, List, [], ◌∷◌, ◌++◌, Bool, true, false, bit_or, Bytes, u8, u64,
  ◌<<<◌, ◌>>>◌, ltb, leb, ◌==◌, ◌||◌, ◌&&◌, not, same_bytes, if◌then◌else◌, length, drop, get_or,
  Result, ok, err, ◌>>=◌, ◌>>◌, guard, license_bad_block_length, license_bad_base32_char,
  license_bad_layout, license_bad_decoded_length, license_bad_version, username_length_out_of_range,
  non_printable_username_char,
}
use mathlib.Core.List.{reverse}
use crackme.Buffer.{append}
use crackme.Config.{ascii, license_prefix, license_version, license_struct_size, vm_username_cap}
use crackme.Codec.Alphabet.{make_rev, negative}

abbrev pub b32_alpha : Bytes
b32_alpha = ascii "ABCDEFGHIJKLMNOPQRSTUVWXYZ234567"

unfoldable pub k_b32 : List ℕ
unfolding make_rev
k_b32 = make_rev b32_alpha

b32_loop : Bytes → ℕ → Result ℕ
unfolding k_b32
b32_loop [] acc = ok acc
b32_loop (c ∷ blk) acc =
    let v = get_or k_b32 c 0 in
    let rest = b32_loop blk (bit_or (u64 (acc <<< 5)) v) in
    if negative v then err license_bad_base32_char else rest

-- `out[i]` for the `left` indices from `i` on.
acc_bytes : ℕ → ℕ → ℕ → Bytes
acc_bytes zero i acc = []
acc_bytes (suc left) i acc = u8 (acc >>> (32 - 8 * i)) ∷ acc_bytes left (i + 1) acc

unfoldable pub b32decode_block : Bytes → Result Bytes
unfolding b32_loop acc_bytes
b32decode_block blk = do
  guard (length blk == 8) license_bad_block_length
  acc ← b32_loop blk 0
  ok (acc_bytes 5 0 acc)

unfoldable pub is_ws : ℕ → Bool
is_ws c = (c == 0x20) || (c == 0x09) || (c == 0x0D) || (c == 0x0A)

-- The loop that moves `b`, and, on the reversed text, the one that moves `e`.
pub trim_left : Bytes → Bytes
unfolding is_ws
trim_left [] = []
trim_left (c ∷ cs) = let rest = trim_left cs in if is_ws c then rest else c ∷ cs

pub trim : Bytes → Bytes
unfolding trim_left
trim raw = reverse (trim_left (reverse (trim_left raw)))

pub lower_all : Bytes → Bytes → Result Bytes
lower_all [] out = ok out
lower_all (ch ∷ s) out =
    let ch' = if leb b'A' ch && leb ch b'Z' then u8 (ch + 0x20) else ch in
    let rest = lower_all s (out ++ (ch' ∷ [])) in
    if ltb ch 0x20 || ltb 0x7E ch then err non_printable_username_char else rest

unfoldable pub normalize_username : Bytes → Result Bytes
unfolding trim lower_all
normalize_username raw = do
  let s = trim raw
  guard (not ((length s == 0) || ltb vm_username_cap (length s))) username_length_out_of_range
  lower_all s []

-- The parts between the dashes; `cur` is the one being read.
pub split_parts : Bytes → List Bytes → Bytes → List Bytes
unfolding is_ws
split_parts [] parts cur = parts ++ (cur ∷ [])
split_parts (c ∷ cs) parts cur =
    let (parts', cur') =
      if is_ws c
      then (parts, cur)
      else if c == b'-'
      then (parts ++ (cur ∷ []), [])
      else (parts, cur ++ (c ∷ [])) in
    split_parts cs parts' cur'

unfoldable pub decode_parts : List Bytes → Bytes → Result Bytes
unfolding b32decode_block
decode_parts [] st = ok st
decode_parts (part ∷ parts) st =
    b32decode_block part >>= λ block. decode_parts parts (append st block)

unfoldable pub decode_license : Bytes → Result Bytes
unfolding split_parts decode_parts
decode_license license_str = do
  let parts = split_parts license_str [] []
  guard ((length parts == 6) && same_bytes (get_or parts 0 []) license_prefix) license_bad_layout
  st ← decode_parts (drop 1 parts) []
  guard (length st == license_struct_size) license_bad_decoded_length
  guard (get_or st 0 0 == license_version) license_bad_version
  ok st
