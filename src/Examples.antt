-- ===== src/Examples.antt =====
-- The theorems at concrete inputs: the byte helpers, the hash, the encodings and the license here,
-- the virtual machine and the protocol in the children.
mod Program
mod Granted
mod Proofs
mod Conversation
mod Vectors
pub mod Machine
pub mod Session
pub mod Run
pub mod Texts
pub mod Network
pub mod Honest
pub mod Shell
use crackme.Base.{
  same_bytes, ℕ, ◌+◌, ◌≤◌, ◌≡◌, refl, [], ◌∷◌, ◌++◌, bit_xor, arith, Bytes, IsBytes, u32, u64,
  length, get_or, take, drop, replicate, resize, All, Result, ok,
}
use crackme.Buffer.{be32, be64, rd_be32, rd_be64, slice}
use crackme.Buffer.Endian.{rd_be64-be64, be64-rd_be64, rd_be32-be32}
use crackme.Buffer.Slice.{slice_middle}
use crackme.Obfuscation.{rg_obf, mba_add, mba_xor, blinded32}
use crackme.Obfuscation.Laws.{rg_obf_lem, mba_add_lem, mba_xor_lem, blinded32_lem}
use crackme.Config.{ascii, license_prefix}
use crackme.Blake2b.{blake2b, blake2b_from, output, blake2b_ctr_keystream, stream_xor}
use crackme.Blake2b.Padding.{hash_blocks}
use crackme.Blake2b.Blocks.{init_words, key_block, blake2b_from-hash_blocks}
use crackme.Blake2b.Bounds.{blake2b_total, blake2b_digest}
use crackme.Blake2b.Stream.{blake2b_ctr_keystream_total, stream_xor_twice}
use crackme.Codec.Base64.{b64encode, b64decode}
use crackme.Codec.Base64.RoundTrip.{b64decode-b64encode}
use crackme.Challenge.License.{normalize_username, decode_license, split_parts}
use crackme.Challenge.License.Shape.{IsNameChar, normalize_username_ok, decode_license_ok}

blake2b_from-hash_blocks_example :
    blake2b_from (replicate 128 7) (ascii "abc") (ascii "key") 64
    ≡ ok (output (hash_blocks 3 (init_words 64 3) 0 (key_block (ascii "key") ++ ascii "abc")) 64 0)
blake2b_from-hash_blocks_example =
    blake2b_from-hash_blocks (replicate 128 7) (ascii "abc") (ascii "key") 64 refl (omega arith)
      (omega arith) (omega arith)

blake2b_total_example : (digest : Bytes) × (blake2b (ascii "abc") [] 32 ≡ ok digest)
blake2b_total_example = blake2b_total (ascii "abc") [] 32 (omega arith) (omega arith) (omega arith)

abbrev abc_digest : Bytes
abc_digest = blake2b_total_example.0

blake2b_digest_example :
    (1 ≤ 32) × (32 ≤ 64) × (0 ≤ 64) × (length abc_digest ≡ 32) × IsBytes abc_digest
blake2b_digest_example = blake2b_digest (ascii "abc") [] 32 abc_digest blake2b_total_example.1

stream_xor_twice_example :
    (out : Bytes) × (stream_xor (ascii "key") (1 ∷ 2 ∷ []) (ascii "d") ≡ ok out)
    × (length out ≡ 2)
    × (stream_xor (ascii "key") out (ascii "d") ≡ ok (1 ∷ 2 ∷ []))
stream_xor_twice_example = stream_xor_twice (ascii "key") (1 ∷ 2 ∷ []) (ascii "d") (omega arith)

b64decode-b64encode_example :
    b64decode (b64encode (1 ∷ 200 ∷ 0 ∷ 77 ∷ [])) ≡ ok (1 ∷ 200 ∷ 0 ∷ 77 ∷ [])
b64decode-b64encode_example = b64decode-b64encode (1 ∷ 200 ∷ 0 ∷ 77 ∷ []) (omega arith)

normalized : normalize_username (ascii " Player1 ") ≡ ok (ascii "player1")
unfolding normalize_username
normalized = refl

normalize_username_ok_example : (1 ≤ 7) × (7 ≤ 64) × All IsNameChar (ascii "player1")
normalize_username_ok_example =
    normalize_username_ok (ascii " Player1 ") (ascii "player1") normalized

-- A text whose first byte decodes to the version 6.
abbrev license_text : Bytes
license_text = ascii "RG6-AYAAAAAA-AAAAAAAA-AAAAAAAA-AAAAAAAA-AAAAAAA7 "

abbrev license_bytes : Bytes
license_bytes = 6 ∷ replicate 23 0 ++ (31 ∷ [])

decoded : decode_license license_text ≡ ok license_bytes
unfolding decode_license same_bytes
decoded = refl

decode_license_ok_example :
    (length (split_parts license_text [] []) ≡ 6)
    × (get_or (split_parts license_text [] []) 0 [] ≡ license_prefix)
    × (length license_bytes ≡ 25)
    × (get_or license_bytes 0 0 ≡ 6)
    × IsBytes license_bytes
decode_license_ok_example = decode_license_ok license_text license_bytes decoded
