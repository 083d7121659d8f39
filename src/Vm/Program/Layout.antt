-- ===== src/Vm/Program/Layout.antt =====
-- The memory image that `pack_inputs` of client/src/vm/vm.cpp makes of its inputs.
use crackme.Base.{
  ℕ, zero, suc, ◌+◌, ◌*◌, ◌≤◌, ◌≡◌, refl, sym, ap, ap₂, ◌∙◌, List, [], ◌∷◌, ◌++◌, min, arith, Bytes,
  IsByte, IsBytes, ltb, ltb→lt, ltb→le, Bool-cases, inl, inr, if◌then◌else◌, length, length-take,
  length-drop, length-resize, take, drop, take-append-drop, drop-drop, take_all, append_assoc,
  All-take, All-drop, All-resize, replicate, resize, set, ok,
}
use crackme.Buffer.{str_bytes, be64, rd_be64}
use crackme.Buffer.Endian.{rd_be64-be64, be64-rd_be64, rd_be64-lt}
use crackme.Config.{vm_input_domain}
use crackme.Blake2b.{blake2b}
use crackme.Blake2b.Bounds.{blake2b_total, blake2b_digest}
use crackme.Vm.Program.Memory.{capped-IsBytes}
use crackme.Vm.Program.{words_from, pack_words, pack_inputs, read_words, store_words}

-- The words of a memory one behind the other, big-endian.
pub image : List ℕ → Bytes
image [] = []
image (w ∷ words) = be64 w ++ image words

image-append : (xs ys : List ℕ) → image (xs ++ ys) ≡ image xs ++ image ys
unfolding image
image-append [] ys = refl
image-append (x ∷ xs) ys =
    rw (image-append xs ys) (sym (append_assoc (be64 x) (image xs) (image ys)))

take_more : (m n : ℕ) (xs : Bytes) → take m xs ++ take n (drop m xs) ≡ take (m + n) xs
take_more zero n xs = ground arith
take_more (suc m) n [] = take_all n [] (omega arith) ∙ sym (take_all (suc m + n) [] (omega arith))
take_more (suc m) n (x ∷ xs) =
    let e : suc m + n ≡ suc (m + n) = omega arith in rw e (ap (λ l. x ∷ l) (take_more m n xs))

-- Eight bytes at the front of a longer buffer.
be64-rd_be64_front : (p : Bytes) → IsBytes p → 8 ≤ length p → be64 (rd_be64 p) ≡ take 8 p
be64-rd_be64_front p h n =
    let front = take 8 p in
    let bytes = All-take IsByte 8 p h in
    let spelled = be64-rd_be64 front bytes (omega (arith, length-take 8 p)) in
    let whole : be64 (rd_be64 front) ++ drop 8 p ≡ p =
      ap (λ (f : Bytes). f ++ drop 8 p) spelled ∙ take-append-drop 8 p in
    let read : rd_be64 p ≡ rd_be64 front =
      ap rd_be64 (sym whole)
      ∙ rd_be64-be64 (rd_be64 front) (drop 8 p) (rd_be64-lt front bytes) (All-drop IsByte 8 p h) in
    ap be64 read ∙ spelled

image-read_words :
    (padded : Bytes) (left i : ℕ)
    → IsBytes padded
    → (i + left) * 8 ≤ length padded
    → image (read_words padded left i) ≡ take (left * 8) (drop (i * 8) padded)
unfolding image read_words
image-read_words padded zero i h fits = refl
image-read_words padded (suc left) i h fits =
    let p = drop (i * 8) padded in
    let first =
      be64-rd_be64_front p (All-drop IsByte (i * 8) padded h)
        (omega (arith, length-drop (i * 8) padded)) in
    let next : drop ((i + 1) * 8) padded ≡ drop 8 p =
      ap (λ (k : ℕ). drop k padded) (omega arith) ∙ sym (drop-drop (i * 8) 8 padded) in
    let count : suc left * 8 ≡ 8 + left * 8 = omega arith in
    ap₂ (λ (a b : Bytes). a ++ b) first
      (image-read_words padded left (i + 1) h (omega arith) ∙ ap (take (left * 8)) next)
    ∙ take_more 8 (left * 8) p
    ∙ ap (λ (k : ℕ). take k p) (sym count)

-- The words that are read are the input, padded or cut.
image-words_from :
    (input : Bytes) (n : ℕ) → IsBytes input → image (words_from input n) ≡ resize (n * 8) 0 input
unfolding words_from
image-words_from input n h =
    let padded = resize (n * 8) 0 input in
    image-read_words padded n 0 (All-resize IsByte (n * 8) 0 input (omega arith) h)
      (omega (arith, length-resize (n * 8) 0 input))
    ∙ take_all (n * 8) padded (omega (arith, length-resize (n * 8) 0 input))

resize_twice : (n : ℕ) (xs : Bytes) → resize n 0 (resize n 0 xs) ≡ resize n 0 xs
resize_twice zero xs = refl
resize_twice (suc n) [] = ap (λ (l : Bytes). 0 ∷ l) (resize_twice n [])
resize_twice (suc n) (x ∷ xs) = ap (λ (l : Bytes). x ∷ l) (resize_twice n xs)

-- The name, cut to 64 bytes when it is longer.
abbrev capped : Bytes → Bytes
capped name = if ltb 64 (length name) then resize 64 0 name else name

length-capped : (name : Bytes) → length (capped name) ≡ min 64 (length name)
length-capped name = elim (Bool-cases (ltb 64 (length name))) [
  | inl long ↦ rw long (omega (arith, length-resize 64 0 name, ltb→lt 64 (length name) long))
  | inr fits ↦ rw fits (omega (arith, ltb→le 64 (length name) fits))
]

resize-capped : (name : Bytes) → resize 64 0 (capped name) ≡ resize 64 0 name
resize-capped name = elim (Bool-cases (ltb 64 (length name))) [
  | inl long ↦ rw long (resize_twice 64 name)
  | inr fits ↦ rw fits refl
]

image-cons :
    (w : ℕ) (words : List ℕ) (rest : Bytes)
    → image words ≡ rest
    → image (w ∷ words) ≡ be64 w ++ rest
unfolding image
image-cons w words rest e = ap (λ (b : Bytes). be64 w ++ b) e

image-part :
    (input : Bytes) (n : ℕ) (words : List ℕ) (rest : Bytes)
    → IsBytes input
    → image words ≡ rest
    → image (words_from input n ++ words) ≡ resize (n * 8) 0 input ++ rest
image-part input n words rest h e =
    image-append (words_from input n) words
    ∙ ap₂ (λ (a b : Bytes). a ++ b) (image-words_from input n h) e

-- The cells in order.
cells :
    (username_norm license_struct server_random session_id transcript_prefix : Bytes) (seed : ℕ)
    → set
        (pack_words username_norm license_struct server_random session_id transcript_prefix)
        21
        seed
      ≡ length (capped username_norm)
        ∷ (words_from (capped username_norm) 8
            ++ (words_from license_struct 4
                ++ (words_from server_random 2
                    ++ (words_from session_id 2
                        ++ (words_from transcript_prefix 4 ++ (seed ∷ replicate 42 0))))))
unfolding pack_words words_from read_words store_words
cells username_norm license_struct server_random session_id transcript_prefix seed = refl

-- The memory image that `pack_words` makes, with any value put into cell 21.
pack_words-image :
    (username_norm license_struct server_random session_id transcript_prefix : Bytes) (seed : ℕ)
    → IsBytes username_norm
    → IsBytes license_struct
    → IsBytes server_random
    → IsBytes session_id
    → IsBytes transcript_prefix
    → image (
        set
          (pack_words username_norm license_struct server_random session_id transcript_prefix)
          21
          seed)
      ≡ be64 (length (capped username_norm))
        ++ (resize 64 0 (capped username_norm)
            ++ (resize 32 0 license_struct
                ++ (resize 16 0 server_random
                    ++ (resize 16 0 session_id
                        ++ (resize 32 0 transcript_prefix ++ (be64 seed ++ replicate 336 0))))))
pack_words-image username_norm license_struct server_random session_id transcript_prefix seed hu hl
      hr hs ht =
    ap image (cells username_norm license_struct server_random session_id transcript_prefix seed)
    ∙ image-cons (length (capped username_norm)) _ _ (
        image-part (capped username_norm) 8 _ _ (capped-IsBytes username_norm hu) (
          image-part license_struct 4 _ _ hl (
            image-part server_random 2 _ _ hr (
              image-part session_id 2 _ _ hs (
                image-part transcript_prefix 4 _ _ ht (
                  image-cons seed (replicate 42 0) (replicate 336 0)
                    (unfold image be64 in refl)))))))

-- The packed memory, byte for byte: the length of the name cut to 64, the name in 64 bytes, the license
-- in 32, the random bytes and the session id in 16 each, the transcript in 32, each cut or padded with
-- zeros, then the eight bytes that seed the machine, and zeros.
pub pack_inputs-image :
    (username_norm license_struct server_random session_id transcript_prefix : Bytes)
    → IsBytes username_norm
    → IsBytes license_struct
    → IsBytes server_random
    → IsBytes session_id
    → IsBytes transcript_prefix
    → (mem : List ℕ) × (vmin : Bytes) × (pack_inputs username_norm license_struct server_random
          session_id transcript_prefix
        ≡ ok mem)
      × (blake2b (str_bytes vm_input_domain) [] 8 ≡ ok vmin)
      × (image mem
          ≡ be64 (min 64 (length username_norm))
            ++ (resize 64 0 username_norm
                ++ (resize 32 0 license_struct
                    ++ (resize 16 0 server_random
                        ++ (resize 16 0 session_id
                            ++ (resize 32 0 transcript_prefix ++ (vmin ++ replicate 336 0)))))))
unfolding pack_inputs
pack_inputs-image username_norm license_struct server_random session_id transcript_prefix hu hl hr
      hs ht =
    let (vmin, made) =
      blake2b_total (str_bytes vm_input_domain) [] 8 (omega arith) (omega arith) (omega arith) in
    let (_, _, _, size, digits) = blake2b_digest (str_bytes vm_input_domain) [] 8 vmin made in
    let packed =
      pack_words-image username_norm license_struct server_random session_id transcript_prefix
        (rd_be64 vmin) hu hl hr hs ht in
    (
      set (pack_words username_norm license_struct server_random session_id transcript_prefix) 21
          (rd_be64 vmin),
      vmin,
      rw made refl,
      made,
      packed
          ∙ rw
              (
                length-capped username_norm,
                resize-capped username_norm,
                be64-rd_be64 vmin digits size,
              )
              refl,
    )
