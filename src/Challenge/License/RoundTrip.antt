-- ===== src/Challenge/License/RoundTrip.antt =====
-- `decode_license` of client/src/challenge/license_format.cpp against an encoder of licenses: five
-- groups of eight base32 letters (RFC 4648) behind the prefix, joined by dashes.
use crackme.Base.{
  ℕ, ◌+◌, ◌*◌, ◌/◌, ◌%◌, ◌^◌, ◌<◌, ◌≡◌, refl, sym, ap, ◌∙◌, List, [], ◌∷◌, ◌++◌, Bool, false, ◌&&◌,
  not, arith, Bytes, IsBytes, u64, same_bytes_self, ==_iff, ◌==◌, three_true, not-true, length,
  get_or, All, append_assoc, append-nil, ok,
}
use crackme.Base.Bits.{bit_or_fields}
use crackme.Base.Tables.{holds_below, holds_below-at}
use crackme.Config.{license_prefix}
use crackme.Codec.Alphabet.{negative}
use crackme.Challenge.License.{
  b32_alpha, k_b32, b32_loop, acc_bytes, b32decode_block, is_ws, split_parts, decode_parts,
  decode_license,
}

-- The letters of a number of 40 bits.
abbrev b32_letter : ℕ → ℕ → ℕ
b32_letter n k = get_or b32_alpha (n / 2 ^ k % 32) 0

pub b32encode : ℕ → Bytes
b32encode n =
    b32_letter n 35
    ∷ b32_letter n 30
    ∷ b32_letter n 25
    ∷ b32_letter n 20
    ∷ b32_letter n 15
    ∷ b32_letter n 10
    ∷ b32_letter n 5
    ∷ b32_letter n 0
    ∷ []

-- Five bytes as a number; the groups of a license behind what stands before them.
pub encode_blocks : Bytes → Bytes
encode_blocks (a ∷ b ∷ c ∷ d ∷ e ∷ rest) =
    b'-' ∷ (b32encode (a * 2 ^ 32 + b * 2 ^ 24 + c * 2 ^ 16 + d * 2 ^ 8 + e) ++ encode_blocks rest)
encode_blocks rest = []

pub encode_license : Bytes → Bytes
encode_license st = license_prefix ++ encode_blocks st

-- What the tables say of each of the 32 letters.
good_letter : ℕ → Bool
unfolding k_b32 is_ws
good_letter s =
    let c = get_or b32_alpha s 0 in (get_or k_b32 c 0 == s) && not (is_ws c) && not (c == b'-')

-- A character that stays in its group.
abbrev IsPlain : ℕ → Type 0
IsPlain c = (is_ws c ≡ false) × ((c == b'-') ≡ false)

good_letters :
    (s : ℕ) → s < 32 → (get_or k_b32 (get_or b32_alpha s 0) 0 ≡ s) × IsPlain (get_or b32_alpha s 0)
unfolding good_letter
good_letters s h =
    let (same, blank, dash) =
      three_true _ _ _
        (holds_below-at good_letter 32 (unfold holds_below good_letter in refl) s h) in
    ((==_iff _ s).0 same, (not-true _ blank, not-true _ dash))

b32_loop-letter :
    (s : ℕ) (blk : Bytes) (acc : ℕ)
    → s < 32
    → b32_loop (get_or b32_alpha s 0 ∷ blk) acc ≡ b32_loop blk (u64 (acc * 32) + s)
unfolding b32_loop
b32_loop-letter s blk acc h =
    let (same, _) = good_letters s h in
    let small : negative s ≡ false = ground arith in
    let room : u64 (acc * 32) ≡ (acc % 2 ^ 59) * 2 ^ 5 = omega arith in
    rw (same, small, room, bit_or_fields 5 (acc % 2 ^ 59) s h) refl

next_letter :
    (n k acc next : ℕ) (blk : Bytes)
    → u64 (acc * 32) + n / 2 ^ k % 32 ≡ next
    → b32_loop (b32_letter n k ∷ blk) acc ≡ b32_loop blk next
next_letter n k acc next blk e =
    b32_loop-letter (n / 2 ^ k % 32) blk acc (omega arith) ∙ ap (b32_loop blk) e

-- Eight letters give their number back.
b32_loop-b32encode : (n : ℕ) → n < 2 ^ 40 → b32_loop (b32encode n) 0 ≡ ok n
unfolding b32encode
b32_loop-b32encode n h =
    next_letter n 35 0 (n / 2 ^ 35) _ (omega arith)
    ∙ next_letter n 30 (n / 2 ^ 35) (n / 2 ^ 30) _ (omega arith)
    ∙ next_letter n 25 (n / 2 ^ 30) (n / 2 ^ 25) _ (omega arith)
    ∙ next_letter n 20 (n / 2 ^ 25) (n / 2 ^ 20) _ (omega arith)
    ∙ next_letter n 15 (n / 2 ^ 20) (n / 2 ^ 15) _ (omega arith)
    ∙ next_letter n 10 (n / 2 ^ 15) (n / 2 ^ 10) _ (omega arith)
    ∙ next_letter n 5 (n / 2 ^ 10) (n / 2 ^ 5) _ (omega arith)
    ∙ next_letter n 0 (n / 2 ^ 5) n [] (omega arith)
    ∙ unfold b32_loop in refl

abbrev number : ℕ → ℕ → ℕ → ℕ → ℕ → ℕ
number a b c d e = a * 2 ^ 32 + b * 2 ^ 24 + c * 2 ^ 16 + d * 2 ^ 8 + e

-- A group of letters decodes to the five bytes it was made from.
b32decode_block-b32encode :
    (a b c d e : ℕ)
    → IsBytes (a ∷ b ∷ c ∷ d ∷ e ∷ [])
    → b32decode_block (b32encode (number a b c d e)) ≡ ok (a ∷ b ∷ c ∷ d ∷ e ∷ [])
unfolding b32decode_block
b32decode_block-b32encode a b c d e h =
    let size : length (b32encode (number a b c d e)) ≡ 8 = unfold b32encode in refl in
    rw (size, b32_loop-b32encode (number a b c d e) (omega arith))
      (ap ok (
        unfold acc_bytes in
        list_of_five (omega arith) (omega arith) (omega arith) (omega arith) (omega arith)))
  where
    list_of_five :
        {a b c d e a' b' c' d' e' : ℕ}
        → a ≡ a'
        → b ≡ b'
        → c ≡ c'
        → d ≡ d'
        → e ≡ e'
        → a ∷ b ∷ c ∷ d ∷ e ∷ [] ≡ a' ∷ b' ∷ c' ∷ d' ∷ e' ∷ []
    list_of_five p q r s t = cc

split_parts-letter :
    (c : ℕ) (cs : Bytes) (parts : List Bytes) (cur : Bytes)
    → IsPlain c
    → split_parts (c ∷ cs) parts cur ≡ split_parts cs parts (cur ++ (c ∷ []))
unfolding split_parts
split_parts-letter c cs parts cur (blank, dash) = rw (blank, dash, split_parts) refl

-- Plain characters join the group that is being read.
split_parts-plain :
    (part rest : Bytes) (parts : List Bytes) (cur : Bytes)
    → All IsPlain part
    → split_parts (part ++ rest) parts cur ≡ split_parts rest parts (cur ++ part)
unfolding split_parts
split_parts-plain [] rest parts cur h = rw (append-nil cur) refl
split_parts-plain (c ∷ part) rest parts cur h =
    split_parts-letter c (part ++ rest) parts cur h.0
    ∙ (split_parts-plain part rest parts (cur ++ (c ∷ [])) h.1
        ∙ ap (split_parts rest parts) (append_assoc cur (c ∷ []) part))

split_parts-dash :
    (rest : Bytes) (parts : List Bytes) (cur : Bytes)
    → split_parts (b'-' ∷ rest) parts cur ≡ split_parts rest (parts ++ (cur ∷ [])) []
unfolding split_parts is_ws
split_parts-dash rest parts cur = refl

b32encode-IsPlain : (n : ℕ) → All IsPlain (b32encode n)
unfolding b32encode
b32encode-IsPlain n =
    let plain = λ (k : ℕ). (good_letters (n / 2 ^ k % 32) (omega arith)).1 in
    (plain 35, (plain 30, (plain 25, (plain 20, (plain 15, (plain 10, (plain 5, (plain 0, tt))))))))

-- The groups of five bytes each.
groups : Bytes → List Bytes
groups (a ∷ b ∷ c ∷ d ∷ e ∷ rest) = b32encode (number a b c d e) ∷ groups rest
groups rest = []

split_parts-encode_blocks :
    (st : Bytes) (parts : List Bytes) (cur : Bytes)
    → split_parts (encode_blocks st) parts cur ≡ parts ++ (cur ∷ groups st)
unfolding encode_blocks groups
split_parts-encode_blocks (a ∷ b ∷ c ∷ d ∷ e ∷ rest) parts cur =
    split_parts-dash _ parts cur
    ∙ split_parts-plain (b32encode (number a b c d e)) (encode_blocks rest) (parts ++ (cur ∷ [])) []
        (b32encode-IsPlain _)
    ∙ split_parts-encode_blocks rest (parts ++ (cur ∷ [])) (b32encode (number a b c d e))
    ∙ append_assoc parts (cur ∷ []) _
split_parts-encode_blocks [] parts cur = unfold split_parts in refl
split_parts-encode_blocks (a ∷ []) parts cur = unfold split_parts in refl
split_parts-encode_blocks (a ∷ b ∷ []) parts cur = unfold split_parts in refl
split_parts-encode_blocks (a ∷ b ∷ c ∷ []) parts cur = unfold split_parts in refl
split_parts-encode_blocks (a ∷ b ∷ c ∷ d ∷ []) parts cur = unfold split_parts in refl

length-groups : (st : Bytes) → length (groups st) ≡ length st / 5
unfolding groups
length-groups (a ∷ b ∷ c ∷ d ∷ e ∷ rest) = omega (arith, length-groups rest)
length-groups [] = refl
length-groups (a ∷ []) = refl
length-groups (a ∷ b ∷ []) = refl
length-groups (a ∷ b ∷ c ∷ []) = refl
length-groups (a ∷ b ∷ c ∷ d ∷ []) = refl

decode_parts-groups :
    (st out : Bytes)
    → IsBytes st
    → length st % 5 ≡ 0
    → decode_parts (groups st) out ≡ ok (out ++ st)
unfolding groups decode_parts
decode_parts-groups (a ∷ b ∷ c ∷ d ∷ e ∷ rest) out h m =
    rw (b32decode_block-b32encode a b c d e (omega arith)) (
      decode_parts-groups rest (out ++ (a ∷ b ∷ c ∷ d ∷ e ∷ [])) h.1.1.1.1.1 (omega arith)
      ∙ ap ok (append_assoc out _ rest))
decode_parts-groups [] out h m = ap ok (sym (append-nil out))
decode_parts-groups (a ∷ []) out h m = absurd (omega arith)
decode_parts-groups (a ∷ b ∷ []) out h m = absurd (omega arith)
decode_parts-groups (a ∷ b ∷ c ∷ []) out h m = absurd (omega arith)
decode_parts-groups (a ∷ b ∷ c ∷ d ∷ []) out h m = absurd (omega arith)

split_parts-encode_license :
    (st : Bytes) → split_parts (encode_license st) [] [] ≡ license_prefix ∷ groups st
unfolding encode_license
split_parts-encode_license st =
    split_parts-plain license_prefix (encode_blocks st) [] []
      (unfold is_ws in ((refl, refl), ((refl, refl), ((refl, refl), tt))))
    ∙ split_parts-encode_blocks st [] license_prefix

-- A license of 25 bytes with version 6, written as text, decodes to itself.
pub decode_license-encode_license :
    (st : Bytes)
    → IsBytes st
    → length st ≡ 25
    → get_or st 0 0 ≡ 6
    → decode_license (encode_license st) ≡ ok st
unfolding decode_license
decode_license-encode_license st h size version =
    let five : length (groups st) ≡ 5 = omega (arith, length-groups st, size) in
    rw
      (
        split_parts-encode_license st,
        five,
        same_bytes_self license_prefix,
        decode_parts-groups st [] h (omega arith),
        size,
        version,
      )
      refl
