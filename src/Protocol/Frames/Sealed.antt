-- ===== src/Protocol/Frames/Sealed.antt =====
-- A frame that the other side sealed arrives: `plain_open` and `aead_open` of
-- client/src/net/protocol.cpp undo `plain_seal` and `aead_seal`, also through the text of a response.
use crackme.Base.{
  ℕ, ◌-◌, ◌^◌, ◌≤◌, ◌≡◌, refl, arith, Bytes, IsByte, IsBytes, length, length-replicate, length-drop,
  length-take, replicate, take-append-drop, All-take, All-drop, All-replicate, Result, ok,
}
use crackme.Buffer.{append}
use crackme.Sodium.{Sodium, aead_encrypt, aead_decrypt}
use crackme.Frame.{Frame, header, serialize, parse}
use crackme.Challenge.Transcript.{Transcript, seal_frame}
use crackme.Challenge.Transcript.Sync.{open_frame-seal_frame}
use crackme.Protocol.Frames.{plain_seal, plain_open, aead_header, aead_seal, aead_open}
use crackme.Protocol.Response.{decode_response}
use crackme.Protocol.Frames.Wire.{IsSodium, Envelope, IsEnvelope, seal_envelope, body, received}

-- The frames of the server: in the clear, and with the payload encrypted.
unfoldable pub plain_reply : Sodium → Transcript → Bytes → Envelope → Bytes → Frame × Transcript
plain_reply na t mac_key x payload =
    plain_seal na t mac_key x.message_type x.session_id x.counter payload x.nonce

unfoldable pub aead_reply :
    Sodium → Transcript → Bytes → Bytes → Envelope → Bytes → Frame × Transcript
aead_reply na t mac_key aead_key x plaintext =
    aead_seal na t mac_key aead_key x.message_type x.session_id x.counter plaintext x.nonce

-- A response that carries the frame `f`, which opens to `payload` in the state `t'`.
pub record Arrives (f : Frame) (opened : Result (Bytes × Transcript)) (payload : Bytes)
    (t' : Transcript) : Type 0 where
  pub decoded : decode_response (body f) ≡ ok (serialize f)
  pub parsed : parse (serialize f) ≡ ok f
  pub opens : opened ≡ ok (payload, t')

-- A frame in the clear arrives with its payload, and leaves both sides in the same state.
pub plain_reply-Arrives :
    (na : Sodium) (laws : IsSodium na) (t : Transcript) (mac_key : Bytes) (x : Envelope)
    → IsEnvelope x
    → (payload : Bytes) → length payload ≤ 2 ^ 20
    → IsBytes payload
    → let (f, t') = plain_reply na t mac_key x payload in
      Arrives f (plain_open na t mac_key f) payload t'
unfolding plain_reply plain_seal
plain_reply-Arrives na laws t mac_key x sized payload small plain =
    let tag : Bytes = replicate 16 0 in
    let (decoded, parsed) =
      received na laws t mac_key x sized payload tag small plain refl
        (All-replicate IsByte 16 0 (omega arith)) in
    record {
      decoded = decoded;
      parsed = parsed;
      opens =
          unfold plain_open in
          rw
            (open_frame-seal_frame na t mac_key x.message_type x.session_id x.counter x.nonce
              payload tag)
            (unfold seal_frame in refl);
    }

-- The two parts of a ciphertext.
pub aead_encrypt-append :
    (na : Sodium) (key nonce plaintext aad : Bytes)
    → let (ct, tag) = aead_encrypt na key nonce plaintext aad in
      append ct tag ≡ na.aead_encrypt_combined plaintext aad nonce key
unfolding aead_encrypt
aead_encrypt-append na key nonce plaintext aad =
    let combined = na.aead_encrypt_combined plaintext aad nonce key in
    take-append-drop (length combined - 16) combined

pub aead_encrypt-sizes :
    (na : Sodium) (laws : IsSodium na) (key nonce plaintext aad : Bytes)
    → IsBytes plaintext
    → let (ct, tag) = aead_encrypt na key nonce plaintext aad in
      (length ct ≡ length plaintext) × (length tag ≡ 16) × IsBytes ct × IsBytes tag
unfolding aead_encrypt
aead_encrypt-sizes na laws key nonce plaintext aad plain =
    let combined = na.aead_encrypt_combined plaintext aad nonce key in
    let n = length combined - 16 in
    let size = laws.sealed_size plaintext aad nonce key in
    let bytes = laws.sealed_bytes plaintext aad nonce key plain in
    (
      omega (arith, size, length-take n combined),
      omega (arith, size, length-drop n combined),
      All-take IsByte n combined bytes,
      All-drop IsByte n combined bytes,
    )

-- With libsodium's laws, an encrypted frame whose fields have the sizes of the format and whose
-- plaintext is of at most 2^20 bytes arrives: the text of the response is decoded and parsed to the
-- frame, which opens to the plaintext, and both sides are in the same state again.
pub aead_reply-Arrives :
    (na : Sodium) (laws : IsSodium na) (t : Transcript) (mac_key aead_key : Bytes) (x : Envelope)
    → IsEnvelope x
    → (plaintext : Bytes) → length plaintext ≤ 2 ^ 20
    → IsBytes plaintext
    → let (f, t') = aead_reply na t mac_key aead_key x plaintext in
      Arrives f (aead_open na t mac_key aead_key f) plaintext t'
unfolding aead_reply aead_seal
aead_reply-Arrives na laws t mac_key aead_key x sized plaintext small plain =
    let aad = header (aead_header x.message_type x.session_id x.counter x.nonce plaintext) in
    let (ct, tag) = aead_encrypt na aead_key x.nonce plaintext aad in
    let (ct_size, tag_size, ct_bytes, tag_bytes) =
      aead_encrypt-sizes na laws aead_key x.nonce plaintext aad plain in
    let (decoded, parsed) =
      received na laws t mac_key x sized ct tag (omega (arith, ct_size, small)) ct_bytes tag_size
        tag_bytes in
    let f = (seal_envelope na t mac_key x ct tag).0 in
    let same : header f ≡ aad =
      unfold seal_frame header aead_header in
      rw (ct_size, length-replicate {A = ℕ} (length plaintext) 0) refl in
    let opened : aead_decrypt na aead_key f.nonce f.encrypted_payload f.auth_tag aad
        ≡ ok plaintext =
      unfold seal_frame aead_decrypt in
      rw
        (
          aead_encrypt-append na aead_key x.nonce plaintext aad,
          laws.decrypts plaintext aad x.nonce aead_key,
        )
        refl in
    record {
      decoded = decoded;
      parsed = parsed;
      opens =
          unfold aead_open in
          rw
            (
              open_frame-seal_frame na t mac_key x.message_type x.session_id x.counter x.nonce ct
                  tag,
              same,
              opened,
            )
            refl;
    }
