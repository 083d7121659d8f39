-- ===== src/Protocol/Frames/Wire.antt =====
-- A sealed frame on its way: from the bytes of a response, through `decode_response` of
-- client/src/net/protocol.cpp and `Frame::parse`, to the frame.
use crackme.Base.{
  ℕ, ◌+◌, ◌^◌, ◌≤◌, ◌<◌, ◌≡◌, [], ◌∷◌, ◌++◌, arith, Bytes, IsByte, IsBytes, IsU64, u32, All-append,
  length, some, ok,
}
use crackme.Buffer.{be64, be32}
use crackme.Buffer.Endian.{be64-IsBytes, be32-IsBytes}
use crackme.Config.{magic, proto_version}
use crackme.Sodium.{Sodium, sha256, hmac_sha256}
use crackme.Frame.{Frame, serialize, parse}
use crackme.Frame.RoundTrip.{IsFrame, layout, tail7, serialize-layout, parse-serialize}
use crackme.Codec.Base64.{b64encode}
use crackme.Challenge.Transcript.{Transcript, mac_for, seal_frame}
use crackme.Protocol.Response.{decode_response}
use crackme.Protocol.Response.Encoded.{decode_response-b64encode}

-- What is documented of libsodium: a hash consists of bytes; a MAC is 32 bytes; a ciphertext consists of bytes, is as long
-- as the plaintext and its tag of 16 bytes, and is decrypted under the same key, nonce and additional data.
pub record IsSodium (na : Sodium) : Type 0 where
  pub hash_bytes : (input : Bytes) → IsBytes (sha256 na input)
  pub mac_size : (key input : Bytes) → length (hmac_sha256 na key input) ≡ 32
  pub mac_bytes : (key input : Bytes) → IsBytes (hmac_sha256 na key input)
  pub sealed_size :
      (plaintext aad nonce key : Bytes)
      → length (na.aead_encrypt_combined plaintext aad nonce key) ≡ length plaintext + 16
  pub sealed_bytes :
      (plaintext aad nonce key : Bytes)
      → IsBytes plaintext
      → IsBytes (na.aead_encrypt_combined plaintext aad nonce key)
  pub decrypts :
      (plaintext aad nonce key : Bytes)
      → na.aead_decrypt_combined (na.aead_encrypt_combined plaintext aad nonce key) aad nonce key
        ≡ some plaintext

-- What the sender puts around a payload.
pub record Envelope : Type 0 where
  pub message_type : ℕ
  pub session_id : Bytes
  pub counter : ℕ
  pub nonce : Bytes

pub record IsEnvelope (x : Envelope) : Type 0 where
  pub type_byte : x.message_type < 256
  pub sid_size : length x.session_id ≡ 16
  pub sid_bytes : IsBytes x.session_id
  pub counter_word : IsU64 x.counter
  pub nonce_size : length x.nonce ≡ 24
  pub nonce_bytes : IsBytes x.nonce

-- `seal_frame` on an envelope.
abbrev pub seal_envelope :
    Sodium → Transcript → Bytes → Envelope → Bytes → Bytes → Frame × Transcript
seal_envelope na t mac_key x payload tag =
    seal_frame na t mac_key x.message_type x.session_id x.counter x.nonce payload tag

-- The body of the response that carries a frame.
abbrev pub body : Frame → Bytes
body f = b64encode (serialize f)

magic-IsBytes : IsBytes magic
magic-IsBytes = omega arith

proto_version-IsByte : IsByte proto_version
proto_version-IsByte = omega arith

serialize-IsBytes :
    (f : Frame)
    → f.message_type < 256
    → IsBytes f.session_id
    → IsBytes f.nonce
    → IsBytes f.encrypted_payload
    → IsBytes f.auth_tag
    → IsBytes f.transcript_mac
    → IsBytes (serialize f)
unfolding layout tail7
serialize-IsBytes f ht hs hn hp ha hm =
    let size = be32 (u32 (length f.encrypted_payload)) in
    let last = All-append IsByte f.auth_tag f.transcript_mac ha hm in
    let tail = All-append IsByte f.encrypted_payload _ hp last in
    let sized = All-append IsByte size _ (be32-IsBytes (u32 (length f.encrypted_payload))) tail in
    let fresh = All-append IsByte f.nonce _ hn sized in
    let counted = All-append IsByte (be64 f.counter) _ (be64-IsBytes f.counter) fresh in
    let named = All-append IsByte f.session_id _ hs counted in
    rw (serialize-layout f) (
      All-append IsByte magic ((proto_version ∷ []) ++ ((f.message_type ∷ []) ++ _)) magic-IsBytes
        (proto_version-IsByte, (ht, named)))

length-serialize : (f : Frame) → 0 < length (serialize f)
unfolding layout
length-serialize f = rw (serialize-layout f) (omega arith)

module _ (na : Sodium) (laws : IsSodium na) (t : Transcript) (mac_key : Bytes) (x : Envelope)
    (sized : IsEnvelope x) (payload tag : Bytes) (small : length payload ≤ 2 ^ 20)
    (plain : IsBytes payload) (tag_size : length tag ≡ 16) (tag_bytes : IsBytes tag) where
  seal_envelope-IsFrame : IsFrame (seal_envelope na t mac_key x payload tag).0
  unfolding seal_frame mac_for
  seal_envelope-IsFrame = record {
    type_byte = sized.type_byte;
    sid_size = sized.sid_size;
    counter_word = sized.counter_word;
    nonce_size = sized.nonce_size;
    payload_size = small;
    tag_size = tag_size;
    mac_size = laws.mac_size mac_key _;
  }

  seal_envelope-IsBytes : IsBytes (serialize (seal_envelope na t mac_key x payload tag).0)
  unfolding seal_frame mac_for
  seal_envelope-IsBytes =
      serialize-IsBytes (seal_envelope na t mac_key x payload tag).0 sized.type_byte sized.sid_bytes
        sized.nonce_bytes plain tag_bytes (laws.mac_bytes mac_key _)

  -- The frame arrives.
  pub received :
      let f = (seal_envelope na t mac_key x payload tag).0 in
      (decode_response (body f) ≡ ok (serialize f)) × (parse (serialize f) ≡ ok f)
  received =
      let f = (seal_envelope na t mac_key x payload tag).0 in
      (
        decode_response-b64encode (serialize f) seal_envelope-IsBytes (length-serialize f),
        parse-serialize f seal_envelope-IsFrame,
      )
