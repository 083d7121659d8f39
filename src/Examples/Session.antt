-- ===== src/Examples/Session.antt =====
-- The theorems on frames, keys and the session, with a stand-in for libsodium: its digests and MACs
-- are the first 32 bytes of an argument, it accepts each signature, and it opens each ciphertext.
use crackme.Base.{
  ◌+◌, ◌/◌, ◌≡◌, refl, [], ◌∷◌, ◌++◌, arith, same_bytes, true, some, Bytes, length, length-resize,
  replicate, resize, ok, ◌>>=◌,
}
use crackme.Buffer.{rd_be32, rd_be64}
use crackme.Config.{ascii}
use crackme.Sodium.{Sodium, hmac_sha256}
use crackme.Sodium.Kdf.{hkdf_expand, t_blocks, hkdf_expand-t_blocks}
use crackme.Frame.{Frame, serialize, take_field, parse}
use crackme.Frame.RoundTrip.{IsFrame, parse-serialize}
use crackme.Frame.Exact.{serialize-parse}
use crackme.Challenge.Transcript.{Transcript, seal_frame, open_frame}
use crackme.Challenge.Transcript.Sync.{open_frame-seal_frame, open_frame-parse}

abbrev plain : Frame
plain = record {
  message_type = 1;
  session_id = replicate 16 9;
  counter = 2;
  nonce = replicate 24 5;
  encrypted_payload = 1 ∷ 2 ∷ 3 ∷ [];
  auth_tag = replicate 16 0;
  transcript_mac = replicate 32 8;
}

plain-IsFrame : IsFrame plain
plain-IsFrame = record {
  type_byte = omega arith;
  sid_size = refl;
  counter_word = omega arith;
  nonce_size = refl;
  payload_size = omega arith;
  tag_size = refl;
  mac_size = refl;
}

parse-serialize_example : parse (serialize plain) ≡ ok plain
parse-serialize_example = parse-serialize plain plain-IsFrame

-- The bytes of `plain`, written out.
abbrev wire : Bytes
wire =
    0x52 ∷ 0x47 ∷ 0x36 ∷ 0x00 ∷ 6 ∷ 1 ∷ replicate 16 9
    ++ (0 ∷ 0 ∷ 0 ∷ 0 ∷ 0 ∷ 0 ∷ 0 ∷ 2 ∷ replicate 24 5
        ++ (0 ∷ 0 ∷ 0 ∷ 3 ∷ 1 ∷ 2 ∷ 3 ∷ replicate 16 0 ++ replicate 32 8))

wire_parses : parse wire ≡ ok plain
unfolding parse take_field rd_be32 rd_be64 same_bytes
wire_parses = refl

serialize-parse_example : IsFrame plain × (serialize plain ≡ wire)
serialize-parse_example = serialize-parse wire plain (omega arith) wire_parses

abbrev pub toy : Sodium
toy = record {
  crypto_hash_sha256 = λ m. resize 32 0 m;
  crypto_auth_hmacsha256 = λ key m. resize 32 0 key;
  crypto_scalarmult_base = λ priv. some priv;
  crypto_scalarmult = λ priv peer. some peer;
  crypto_sign_verify_detached = λ sig m pk. true;
  aead_encrypt_combined = λ plaintext aad nonce key. plaintext ++ replicate 16 0;
  aead_decrypt_combined = λ combined aad nonce key. some (resize 48 0 key);
}

toy_mac : (key m : Bytes) → length (hmac_sha256 toy key m) ≡ 32
toy_mac key m = length-resize 32 0 key

hkdf_expand-t_blocks_example :
    hkdf_expand toy (ascii "prk") (ascii "info") 70
    ≡ ok (resize 70 0 (t_blocks toy (ascii "prk") (ascii "info") ((70 + 31) / 32) [] 1))
hkdf_expand-t_blocks_example =
    hkdf_expand-t_blocks toy (ascii "prk") (ascii "info") 70 toy_mac (omega arith)

abbrev old : Transcript
old = record { state = replicate 32 3 }

abbrev key : Bytes
key = replicate 32 4

open_frame-parse_example :
    let (f, t') =
      seal_frame toy old key 3 (replicate 16 9) 2 (replicate 24 5) (7 ∷ []) (replicate 16 0) in
    (parse (serialize f) >>= λ g. open_frame toy old key g) ≡ ok t'
open_frame-parse_example =
    open_frame-parse toy old key 3 (replicate 16 9) 2 (replicate 24 5) (7 ∷ []) (replicate 16 0)
      toy_mac (omega arith) refl (omega arith) refl (omega arith) refl

abbrev sealed : Frame × Transcript
sealed = seal_frame toy old key 3 (replicate 16 9) 2 (replicate 24 5) (7 ∷ []) (replicate 16 0)

sealed_opens : open_frame toy old key sealed.0 ≡ ok sealed.1
sealed_opens =
    open_frame-seal_frame toy old key 3 (replicate 16 9) 2 (replicate 24 5) (7 ∷ [])
      (replicate 16 0)
