-- ===== src/Challenge/License/Blanks.antt =====
-- `decode_license` of client/src/challenge/license_format.cpp on a text with blanks.
use crackme.Base.{
  ℕ, ◌≡◌, refl, sym, ◌∙◌, List, [], ◌∷◌, true, Bytes, Bool-cases, inl, inr, if◌then◌else◌,
}
use crackme.Challenge.License.{is_ws, split_parts, decode_license}

-- A text without its blanks.
pub without_ws : Bytes → Bytes
without_ws [] = []
without_ws (c ∷ text) = let rest = without_ws text in if is_ws c then rest else c ∷ rest

split_parts-blank :
    (c : ℕ) (cs : Bytes) (parts : List Bytes) (cur : Bytes)
    → is_ws c ≡ true
    → split_parts (c ∷ cs) parts cur ≡ split_parts cs parts cur
unfolding split_parts
split_parts-blank c cs parts cur blank = rw (blank, split_parts) refl

split_parts-same :
    (c : ℕ) (text text' : Bytes) (parts : List Bytes) (cur : Bytes)
    → ((parts : List Bytes) (cur : Bytes)
        → split_parts text parts cur ≡ split_parts text' parts cur)
    → split_parts (c ∷ text) parts cur ≡ split_parts (c ∷ text') parts cur
unfolding split_parts
split_parts-same c text text' parts cur h = h _ _

split_parts-without_ws :
    (text : Bytes) (parts : List Bytes) (cur : Bytes)
    → split_parts (without_ws text) parts cur ≡ split_parts text parts cur
unfolding without_ws
split_parts-without_ws [] parts cur = refl
split_parts-without_ws (c ∷ text) parts cur = elim (Bool-cases (is_ws c)) [
  | inl blank ↦
      rw blank (split_parts-without_ws text parts cur)
      ∙ sym (split_parts-blank c text parts cur blank)
  | inr plain ↦ rw plain (
      split_parts-same c (without_ws text) text parts cur
        (λ parts cur. split_parts-without_ws text parts cur))
]

-- Blanks anywhere in the text of a license, also between its characters, change nothing, neither the
-- result nor the error.
pub decode_license-without_ws :
    (text : Bytes) → decode_license (without_ws text) ≡ decode_license text
unfolding decode_license
decode_license-without_ws text = rw (split_parts-without_ws text [] []) refl
