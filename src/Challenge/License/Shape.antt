-- ===== src/Challenge/License/Shape.antt =====
-- What `decode_license` and `normalize_username` of client/src/challenge/license_format.cpp return.
use crackme.Base.{
  ◌++◌, ◌||◌, ◌&&◌, ◌⊎◌, inl, inr, leb, u8, drop, List, guard-then, both_true, same_bytes,
  same_bytes→eq, Bool-cases, if◌then◌else◌, license_bad_block_length, license_bad_layout,
  license_bad_decoded_length, license_bad_version, username_length_out_of_range, ℕ, zero, suc, ◌+◌,
  ◌≤◌, ◌<◌, ◌≡◌, true, false, not, [], ◌∷◌, Bytes, IsByte, IsBytes, length, get_or, All, All-append,
  length-append, ltb, ◌==◌, ==_iff, ok, >>=-eq-ok, arith,
}
use mathlib.Core.Path.{subst}
use crackme.Buffer.{append}
use crackme.Config.{license_prefix, license_version, license_struct_size}
use crackme.Challenge.License.{
  b32_loop, acc_bytes, b32decode_block, lower_all, trim, normalize_username, decode_parts,
  decode_license, split_parts,
}

acc_bytes-IsBytes : (left i acc : ℕ) → IsBytes (acc_bytes left i acc)
unfolding acc_bytes
acc_bytes-IsBytes zero i acc = tt
acc_bytes-IsBytes (suc left) i acc = (omega arith, acc_bytes-IsBytes left (i + 1) acc)

decode_parts-IsBytes :
    (parts : List Bytes) (st out : Bytes)
    → IsBytes st
    → decode_parts parts st ≡ ok out
    → IsBytes out
unfolding decode_parts b32decode_block
decode_parts-IsBytes [] st out h e = let same : st ≡ out = cc in subst IsBytes same h
decode_parts-IsBytes (part ∷ parts) st out h e =
    let (block, made, e') =
      >>=-eq-ok (b32decode_block part) (λ block. decode_parts parts (append st block)) e in
    let (_, e1) = guard-then (length part == 8) license_bad_block_length _ made in
    let (acc, _, e2) = >>=-eq-ok (b32_loop part 0) (λ (acc : ℕ). ok (acc_bytes 5 0 acc)) e1 in
    let same : acc_bytes 5 0 acc ≡ block = cc in
    decode_parts-IsBytes parts (append st block) out
      (All-append IsByte st block h (subst IsBytes same (acc_bytes-IsBytes 5 0 acc))) e'

-- A license that decodes is a structure of 25 bytes with version 6, and its text has six parts, the
-- first of which is the prefix `RG6`.
pub decode_license_ok :
    (license_str st : Bytes)
    → decode_license license_str ≡ ok st
    → let parts = split_parts license_str [] [] in
      (length parts ≡ 6)
      × (get_or parts 0 [] ≡ license_prefix)
      × (length st ≡ 25)
      × (get_or st 0 0 ≡ 6)
      × IsBytes st
unfolding decode_license
decode_license_ok license_str st e =
    let parts = split_parts license_str [] [] in
    let (layout, e1) =
      guard-then ((length parts == 6) && same_bytes (get_or parts 0 []) license_prefix)
        license_bad_layout _ e in
    let (count, prefix) =
      both_true (length parts == 6) (same_bytes (get_or parts 0 []) license_prefix) layout in
    let (out, decoded, e2) = >>=-eq-ok (decode_parts (drop 1 parts) []) _ e1 in
    let (size, e3) =
      guard-then (length out == license_struct_size) license_bad_decoded_length _ e2 in
    let (version, e4) = guard-then (get_or out 0 0 == license_version) license_bad_version _ e3 in
    let same : out ≡ st = cc e4 in
    let (size', version', bytes) =
      subst (λ (st : Bytes). (length st ≡ 25) × (get_or st 0 0 ≡ 6) × IsBytes st) same
        (
          (==_iff (length out) 25).0 size,
          (==_iff (get_or out 0 0) 6).0 version,
          decode_parts-IsBytes (drop 1 parts) [] out tt decoded,
        ) in
    (
      (==_iff (length parts) 6).0 count,
      same_bytes→eq (get_or parts 0 []) license_prefix prefix,
      size',
      version',
      bytes,
    )

-- A character of a normalised username: printable ASCII and no capital letter.
unfoldable pub IsNameChar : ℕ → Type 0
IsNameChar ch = (0x20 ≤ ch) × (ch ≤ 0x7E) × ((ch < 0x41) ⊎ (0x5A < ch))

unfoldable pub lowered : ℕ → ℕ
lowered ch = if leb b'A' ch && leb ch b'Z' then u8 (ch + 0x20) else ch

lowered-IsNameChar : (ch : ℕ) → (ltb ch 0x20 || ltb 0x7E ch) ≡ false → IsNameChar (lowered ch)
unfolding IsNameChar lowered
lowered-IsNameChar ch h = ground arith

pub lower_all_ok :
    (s out r : Bytes)
    → All IsNameChar out
    → lower_all s out ≡ ok r
    → (length r ≡ length out + length s) × All IsNameChar r
unfolding lower_all lowered
lower_all_ok [] out r h e =
    let same : out ≡ r = cc in
    subst (λ r. (length r ≡ length out + 0) × All IsNameChar r) same (omega arith, h)
lower_all_ok (ch ∷ s) out r h e = elim (Bool-cases (ltb ch 0x20 || ltb 0x7E ch)) [
  | inl bad ↦ absurd (cc (rw bad at e))
  | inr good ↦
      let next = out ++ (lowered ch ∷ []) in
      let (size, all) =
        lower_all_ok s next r
          (All-append IsNameChar out (lowered ch ∷ []) h (lowered-IsNameChar ch good, tt))
          (rw good at e) in
      (omega (arith, size, length-append out (lowered ch ∷ [])), all)
]

-- A normalised username has 1 to 64 characters, each printable ASCII and none a capital letter.
pub normalize_username_ok :
    (raw s : Bytes)
    → normalize_username raw ≡ ok s
    → (1 ≤ length s) × (length s ≤ 64) × All IsNameChar s
unfolding normalize_username
normalize_username_ok raw s e =
    let t = trim raw in
    let (fits, e1) =
      guard-then (not ((length t == 0) || ltb 64 (length t))) username_length_out_of_range _ e in
    let (size, all) = lower_all_ok t [] s tt e1 in
    let (low, high) = bounds (length t) fits in (omega arith, omega arith, all)
  where
    bounds : (n : ℕ) → not ((n == 0) || ltb 64 n) ≡ true → (1 ≤ n) × (n ≤ 64)
    bounds n h = ground arith
