-- ===== src/Vm/Program/Memory.antt =====
-- `run_vm` of client/src/vm/vm.cpp : the packed inputs are 64 words.
use crackme.Base.{
  ℕ, zero, suc, ◌+◌, ◌*◌, ◌^◌, ◌<◌, ◌≡◌, refl, ◌∙◌, List, [], ◌∷◌, arith, Bytes, IsByte, IsBytes,
  IsU64, ltb, ltb→le, length-resize, Bool-cases, inl, inr, length, length-set, All, All-set,
  All-drop, All-replicate, All-resize, resize, drop, set, replicate, ok, if◌then◌else◌,
}
use crackme.Buffer.{str_bytes, rd_be64}
use crackme.Buffer.Endian.{rd_be64-lt}
use crackme.Config.{vm_input_domain}
use crackme.Blake2b.Bounds.{blake2b_total, blake2b_digest}
use crackme.Vm.Program.{pack_inputs, pack_words, read_words, words_from, store_words}

read_words-IsU64 :
    (padded : Bytes) (left i : ℕ) → IsBytes padded → All IsU64 (read_words padded left i)
unfolding read_words
read_words-IsU64 padded zero i h = tt
read_words-IsU64 padded (suc left) i h = (
  rd_be64-lt (drop (i * 8) padded) (All-drop IsByte (i * 8) padded h),
  read_words-IsU64 padded left (i + 1) h,
)

words_from-IsU64 : (input : Bytes) (n : ℕ) → IsBytes input → All IsU64 (words_from input n)
unfolding words_from
words_from-IsU64 input n h =
    read_words-IsU64 _ n 0 (All-resize IsByte (n * 8) 0 input (omega arith) h)

-- A memory of 64 words.
pub record IsMemory (mem : List ℕ) : Type 0 where
  pub size : length mem ≡ 64
  pub words : All IsU64 mem

set-IsMemory : (mem : List ℕ) (i x : ℕ) → IsU64 x → IsMemory mem → IsMemory (set mem i x)
set-IsMemory mem i x h m = record {
  size = length-set mem i x ∙ m.size;
  words = All-set IsU64 mem i x h m.words;
}

store_words-IsMemory :
    (mem : List ℕ) (i : ℕ) (words : List ℕ)
    → All IsU64 words
    → IsMemory mem
    → IsMemory (store_words mem i words)
unfolding store_words
store_words-IsMemory mem i [] h m = m
store_words-IsMemory mem i (w ∷ words) h m =
    store_words-IsMemory (set mem i w) (i + 1) words h.1 (set-IsMemory mem i w h.0 m)

pub capped-IsBytes :
    (uname : Bytes)
    → IsBytes uname
    → IsBytes (if ltb 64 (length uname) then resize 64 0 uname else uname)
capped-IsBytes uname h = elim (Bool-cases (ltb 64 (length uname))) [
  | inl long ↦ rw long (All-resize IsByte 64 0 uname (omega arith) h)
  | inr fits ↦ rw fits h
]

capped-lt :
    (uname : Bytes) → length (if ltb 64 (length uname) then resize 64 0 uname else uname) < 2 ^ 64
capped-lt uname = elim (Bool-cases (ltb 64 (length uname))) [
  | inl long ↦ rw long (omega (arith, length-resize 64 0 uname))
  | inr fits ↦ rw fits (omega (arith, ltb→le 64 (length uname) fits))
]

store_from-IsMemory :
    (mem : List ℕ) (i : ℕ) (input : Bytes) (n : ℕ)
    → IsBytes input
    → IsMemory mem
    → IsMemory (store_words mem i (words_from input n))
store_from-IsMemory mem i input n h m =
    store_words-IsMemory mem i (words_from input n) (words_from-IsU64 input n h) m

module _ (username_norm license_struct server_random session_id transcript_prefix : Bytes)
    (hu : IsBytes username_norm) (hl : IsBytes license_struct) (hr : IsBytes server_random)
    (hs : IsBytes session_id) (ht : IsBytes transcript_prefix) where
  pack_words-IsMemory :
      IsMemory (pack_words username_norm license_struct server_random session_id transcript_prefix)
  unfolding pack_words
  pack_words-IsMemory = store_from-IsMemory _ 17 transcript_prefix 4 ht (
      store_from-IsMemory _ 15 session_id 2 hs (
        store_from-IsMemory _ 13 server_random 2 hr (
          store_from-IsMemory _ 9 license_struct 4 hl (
            store_from-IsMemory _ 1 _ 8 (capped-IsBytes username_norm hu) (
              set-IsMemory (replicate 64 0) 0
                (length (
                  if ltb 64 (length username_norm)
                  then resize 64 0 username_norm
                  else username_norm))
                (capped-lt username_norm)
                (record { size = refl; words = All-replicate IsU64 64 0 (omega arith) }))))))

  pub pack_inputs_total :
      (mem : List ℕ) × (pack_inputs username_norm license_struct server_random session_id
          transcript_prefix
        ≡ ok mem)
      × IsMemory mem
  unfolding pack_inputs
  pack_inputs_total =
      let (vmin, made) =
        blake2b_total (str_bytes vm_input_domain) [] 8 (omega arith) (omega arith) (omega arith) in
      let (_, _, _, _, digits) = blake2b_digest (str_bytes vm_input_domain) [] 8 vmin made in
      (
        set (pack_words username_norm license_struct server_random session_id transcript_prefix) 21
            (rd_be64 vmin),
        rw made refl,
        set-IsMemory
            (pack_words username_norm license_struct server_random session_id transcript_prefix) 21
            (rd_be64 vmin) (rd_be64-lt vmin digits) pack_words-IsMemory,
      )
