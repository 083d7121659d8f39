-- ===== src/Protocol/Session/Sections.antt =====
-- Each section of `run_session` of client/src/net/protocol.cpp with the server of Protocol/Session/Server.
use crackme.Base.{
  ◌≡◌, refl, ◌++◌, arith, true, Bytes, IsByte, IsBytes, All-append, length, length-append, some, ok,
  same_bytes_self,
}
use crackme.Buffer.{str_bytes}
use crackme.Buffer.Slice.{slice_halves, slice_thirds}
use crackme.Config.{
  ascii, mt_hello, mt_client_proof_1, hkdf_c2s, hkdf_s2c, hkdf_mac, hkdf_proof1, hkdf_sproof1,
  hkdf_proof2, hkdf_seal,
}
use crackme.Sodium.{Sodium, hmac_sha256, x25519_base, x25519_shared, ed25519_verify}
use crackme.Sodium.Kdf.{hkdf_extract, hkdf_expand, subkey, hkdf_expand-subkey}
use crackme.Frame.{Frame}
use crackme.Vm.Run.{VmResult}
use crackme.Challenge.Transcript.{Transcript, initial}
use crackme.Challenge.Proofs.{compute_proof1}
use crackme.Protocol.Frames.{Keys, derive_keys, bootstrap_mac_key, plain_seal, aead_seal}
use crackme.Protocol.Frames.Wire.{IsSodium, body}
use crackme.Protocol.Frames.Sealed.{plain_reply-Arrives, aead_reply-Arrives}
use crackme.Protocol.Response.{parse_pubkey}
use crackme.Protocol.Session.{
  Http, Draws, Hello, Proved, hello_payload, signed_data, check_challenge, hello_section,
  session_keys, p1_payload, sp1_in, proof1_section,
}
use crackme.Protocol.Session.Server.{
  keys_of, Server, IsServer, challenge, server_proof1, proof1_reply,
}

derive_keys-keys_of :
    (na : Sodium) (laws : IsSodium na) (prk : Bytes) → derive_keys na prk ≡ ok (keys_of na prk)
unfolding derive_keys keys_of
derive_keys-keys_of na laws prk =
    let one : (info : Bytes) → hkdf_expand na prk info 32 ≡ ok (subkey na prk info) =
      λ info. hkdf_expand-subkey na prk info laws.mac_size in
    rw
      (
        one (str_bytes hkdf_c2s),
        one (str_bytes hkdf_s2c),
        one (str_bytes hkdf_mac),
        one (str_bytes hkdf_proof1),
        one (str_bytes hkdf_sproof1),
        one (str_bytes hkdf_proof2),
        one (str_bytes hkdf_seal),
      )
      refl

-- What the client holds after the hello.
unfoldable pub hello_of : Bytes → Server → Transcript → Transcript → Hello
hello_of pk s t t' = record {
  server_sign_pk = pk;
  t1 = t.state;
  server_pub = s.server_pub;
  server_random = s.server_random;
  signature = s.signature;
  transcript = t';
}

challenge_size :
    (s : Server) → IsServer s → length (s.server_pub ++ (s.server_random ++ s.signature)) ≡ 112
challenge_size s sized = omega (
  arith,
  length-append s.server_pub (s.server_random ++ s.signature),
  length-append s.server_random s.signature,
  sized.pub_size,
  sized.random_size,
  sized.signature_size,
)

check_challenge-accepts :
    (na : Sodium) (s : Server) (sized : IsServer s) (pk : Bytes) (t t' : Transcript)
    → ed25519_verify na pk (signed_data t.state s.server_pub s.server_random) s.signature ≡ true
    → check_challenge na pk t.state (s.server_pub ++ (s.server_random ++ s.signature)) t'
      ≡ ok (hello_of pk s t t')
unfolding check_challenge hello_of
check_challenge-accepts na s sized pk t t' verified =
    let payload = s.server_pub ++ (s.server_random ++ s.signature) in
    let (first, second, third) =
      slice_thirds s.server_pub s.server_random s.signature 32 16 64 sized.pub_size
        sized.random_size sized.signature_size (omega arith) in
    let size : length payload ≡ 112 = challenge_size s sized in
    rw (size, first, second, third, verified) refl

-- The hello: the server has the client's frame, and answers with its challenge.
pub hello_section-honest :
    (na : Sodium) (laws : IsSodium na) (s : Server) (sized : IsServer s) (http : Http)
    (draws : Draws)
    → (username_norm pk_json pk kp_pub : Bytes) → http.get (ascii "/api/v1/public-key") ≡ ok pk_json
    → parse_pubkey pk_json ≡ ok pk
    → na.crypto_scalarmult_base draws.x25519_priv ≡ some kp_pub
    → let (hello, t) =
        plain_seal na
          (initial na)
          (bootstrap_mac_key na)
          mt_hello
          draws.session_id
          1
          (hello_payload kp_pub draws.client_random username_norm)
          draws.hello_nonce in
      let (chal, t') = challenge na s t in
      http.post (ascii "/api/v1/hello") (body hello) ≡ ok (body chal)
      → ed25519_verify na pk (signed_data t.state s.server_pub s.server_random) s.signature ≡ true
      → hello_section na http draws username_norm ≡ ok (hello_of pk s t t')
unfolding hello_section x25519_base challenge
hello_section-honest na laws s sized http draws username_norm pk_json pk kp_pub hk hj hb hp hv =
    let (hello, t) =
      plain_seal na (initial na) (bootstrap_mac_key na) mt_hello draws.session_id 1
        (hello_payload kp_pub draws.client_random username_norm) draws.hello_nonce in
    let (chal, t') = challenge na s t in
    let payload = s.server_pub ++ (s.server_random ++ s.signature) in
    let arrives =
      plain_reply-Arrives na laws t (bootstrap_mac_key na) s.hello_envelope sized.hello_sized
        payload (rw (challenge_size s sized) (omega arith))
        (All-append IsByte s.server_pub _ sized.pub_bytes (
          All-append IsByte s.server_random s.signature sized.random_bytes
            sized.signature_bytes)) in
    rw (hk, hj, hb, hp, arrives.decoded, arrives.parsed, arrives.opens)
      (check_challenge-accepts na s sized pk t t' hv)

-- The keys: both sides derive them from the transcript and the shared secret.
pub session_keys-keys_of :
    (na : Sodium) (laws : IsSodium na) (draws : Draws) (h : Hello) (shared : Bytes)
    → na.crypto_scalarmult draws.x25519_priv h.server_pub ≡ some shared
    → session_keys na draws h ≡ ok (keys_of na (hkdf_extract na h.transcript.state shared))
unfolding session_keys x25519_shared
session_keys-keys_of na laws draws h shared e =
    rw (e, derive_keys-keys_of na laws (hkdf_extract na h.transcript.state shared)) refl

-- The client's first proof, as a frame.
unfoldable pub first_proof :
    Sodium → Draws → Bytes → Bytes → Hello → Keys → VmResult → Frame × Transcript
first_proof na draws username_norm license_struct h keys vmres =
    let proof1 =
      compute_proof1 na keys.proof1 username_norm license_struct vmres h.server_random
        draws.session_id h.transcript.state in
    aead_seal na h.transcript keys.mac keys.c2s mt_client_proof_1 draws.session_id 2
      (p1_payload license_struct vmres proof1) draws.proof1_nonce

unfoldable pub proved_of : Sodium → Server → Keys → VmResult → Transcript → Transcript → Proved
proved_of na s keys vmres t t' = record {
  t3 = t.state;
  server_proof1 = server_proof1 na s keys vmres.vm_digest t;
  server_challenge2 = s.challenge2;
  transcript = t';
}

pub proof1_section-honest :
    (na : Sodium) (laws : IsSodium na) (s : Server) (sized : IsServer s) (http : Http)
    (draws : Draws)
    → (username_norm license_struct : Bytes) (h : Hello) (keys : Keys) (vmres : VmResult)
    → let (p1, t) = first_proof na draws username_norm license_struct h keys vmres in
      let (reply, t') = proof1_reply na s keys vmres.vm_digest t in
      http.post (ascii "/api/v1/exchange") (body p1) ≡ ok (body reply)
      → proof1_section na http draws username_norm license_struct h keys vmres
        ≡ ok (proved_of na s keys vmres t t')
unfolding proof1_section first_proof proof1_reply proved_of
proof1_section-honest na laws s sized http draws username_norm license_struct h keys vmres hp =
    let (p1, t) = first_proof na draws username_norm license_struct h keys vmres in
    let proof = server_proof1 na s keys vmres.vm_digest t in
    let proof_size : length proof ≡ 32 = unfold server_proof1 in laws.mac_size keys.sproof1 _ in
    let proof_bytes : IsBytes proof = unfold server_proof1 in laws.mac_bytes keys.sproof1 _ in
    let size : length (proof ++ s.challenge2) ≡ 48 =
      omega (arith, length-append proof s.challenge2, proof_size, sized.challenge2_size) in
    let arrives =
      aead_reply-Arrives na laws t keys.mac keys.s2c s.proof1_envelope sized.proof1_sized
        (proof ++ s.challenge2) (rw size (omega arith))
        (All-append IsByte proof s.challenge2 proof_bytes sized.challenge2_bytes) in
    let (first, second) =
      slice_halves proof s.challenge2 32 16 proof_size sized.challenge2_size (omega arith) in
    rw (hp, arrives.decoded, arrives.parsed, arrives.opens, size, first, second)
      (unfold server_proof1 in
        rw
          (same_bytes_self
            (hmac_sha256 na keys.sproof1 (sp1_in t.state vmres.vm_digest s.challenge2)))
          refl)
