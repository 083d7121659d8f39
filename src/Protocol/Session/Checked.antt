-- ===== src/Protocol/Session/Checked.antt =====
-- What `run_session` of client/src/net/protocol.cpp has checked when it returns.
use crackme.Base.{
  ◌≡◌, true, Bytes, ltb, not, ◌==◌, same_bytes→eq, length, ok, >>=-eq-ok, guard-then, ◌+◌,
  server_challenge_too_short, server_challenge_signature_invalid, bad_server_proof1_length,
  server_proof1_invalid,
}
use mathlib.Core.Path.{subst}
use crackme.Buffer.{slice}
use crackme.Config.{ascii, mt_hello, mt_client_proof_1}
use crackme.Codec.Base64.{b64encode}
use crackme.Sodium.{Sodium, hmac_sha256, x25519_base, ed25519_verify, ct_equal}
use crackme.Frame.{serialize, parse}
use crackme.Vm.Run.{VmResult}
use crackme.Challenge.Transcript.{Transcript, initial}
use crackme.Challenge.Proofs.{compute_proof1}
use crackme.Protocol.Frames.{Keys, bootstrap_mac_key, plain_seal, plain_open, aead_seal, aead_open}
use crackme.Protocol.Response.{decode_response, parse_pubkey}
use crackme.Protocol.Session.{
  Http, Draws, Hello, Proved, hello_payload, signed_data, check_challenge, hello_section,
  p1_payload, sp1_in, proof1_section,
}

-- The signature that the challenge carries.
check_challenge_ok :
    (na : Sodium) (server_sign_pk t1 chal_payload : Bytes) (t' : Transcript) (h : Hello)
    → check_challenge na server_sign_pk t1 chal_payload t' ≡ ok h
    → ed25519_verify na h.server_sign_pk (signed_data h.t1 h.server_pub h.server_random) h.signature
      ≡ true
unfolding check_challenge
check_challenge_ok na server_sign_pk t1 chal_payload t' h e =
    let (_, e8) =
      guard-then (not (ltb (length chal_payload) (32 + 16 + 64))) server_challenge_too_short _ e in
    let (server_pub, _, e9) = >>=-eq-ok (slice chal_payload 0 32) _ e8 in
    let (server_random, _, e10) = >>=-eq-ok (slice chal_payload 32 16) _ e9 in
    let (signature, _, e11) = >>=-eq-ok (slice chal_payload 48 64) _ e10 in
    let (verified, e12) =
      guard-then
        (ed25519_verify na server_sign_pk (signed_data t1 server_pub server_random) signature)
        server_challenge_signature_invalid _ e11 in
    let same : record {
      server_sign_pk = server_sign_pk;
      t1 = t1;
      server_pub = server_pub;
      server_random = server_random;
      signature = signature;
      transcript = t';
    }
        ≡ h =
      cc e12 in
    subst
      (λ (h : Hello).
        ed25519_verify na h.server_sign_pk (signed_data h.t1 h.server_pub h.server_random)
          h.signature
        ≡ true)
      same verified

pub hello_section_ok :
    (na : Sodium) (http : Http) (draws : Draws) (username_norm : Bytes) (h : Hello)
    → hello_section na http draws username_norm ≡ ok h
    → ed25519_verify na h.server_sign_pk (signed_data h.t1 h.server_pub h.server_random) h.signature
      ≡ true
unfolding hello_section
hello_section_ok na http draws username_norm h e =
    let (pk_json, _, e1) = >>=-eq-ok (http.get (ascii "/api/v1/public-key")) _ e in
    let (server_sign_pk, _, e2) = >>=-eq-ok (parse_pubkey pk_json) _ e1 in
    let (kp_pub, _, e3) = >>=-eq-ok (x25519_base na draws.x25519_priv) _ e2 in
    let bootstrap = bootstrap_mac_key na in
    let payload = hello_payload kp_pub draws.client_random username_norm in
    let (hello, t) =
      plain_seal na (initial na) bootstrap mt_hello draws.session_id 1 payload draws.hello_nonce in
    let (resp, _, e4) =
      >>=-eq-ok (http.post (ascii "/api/v1/hello") (b64encode (serialize hello))) _ e3 in
    let (raw, _, e5) = >>=-eq-ok (decode_response resp) _ e4 in
    let (chal, _, e6) = >>=-eq-ok (parse raw) _ e5 in
    let ((chal_payload, t'), _, e7) = >>=-eq-ok (plain_open na t bootstrap chal) _ e6 in
    check_challenge_ok na server_sign_pk t.state chal_payload t' h e7

-- The answer to the first proof.
pub proof1_section_ok :
    (na : Sodium) (http : Http) (draws : Draws) (username_norm license_struct : Bytes)
    → (h : Hello) (keys : Keys) (vmres : VmResult) (p : Proved)
    → proof1_section na http draws username_norm license_struct h keys vmres ≡ ok p
    → p.server_proof1
      ≡ hmac_sha256 na keys.sproof1 (sp1_in p.t3 vmres.vm_digest p.server_challenge2)
unfolding proof1_section
proof1_section_ok na http draws username_norm license_struct h keys vmres p e =
    let salt = h.transcript.state in
    let proof1 =
      compute_proof1 na keys.proof1 username_norm license_struct vmres h.server_random
        draws.session_id salt in
    let payload = p1_payload license_struct vmres proof1 in
    let (p1, t) =
      aead_seal na h.transcript keys.mac keys.c2s mt_client_proof_1 draws.session_id 2 payload
        draws.proof1_nonce in
    let (resp, _, e1) =
      >>=-eq-ok (http.post (ascii "/api/v1/exchange") (b64encode (serialize p1))) _ e in
    let (raw, _, e2) = >>=-eq-ok (decode_response resp) _ e1 in
    let (sp, _, e3) = >>=-eq-ok (parse raw) _ e2 in
    let ((sp_payload, t'), _, e4) = >>=-eq-ok (aead_open na t keys.mac keys.s2c sp) _ e3 in
    let (_, e5) = guard-then (length sp_payload == 48) bad_server_proof1_length _ e4 in
    let (server_proof1, _, e6) = >>=-eq-ok (slice sp_payload 0 32) _ e5 in
    let (server_challenge2, _, e7) = >>=-eq-ok (slice sp_payload 32 16) _ e6 in
    let mac = hmac_sha256 na keys.sproof1 (sp1_in t.state vmres.vm_digest server_challenge2) in
    let (equal, e8) = guard-then (ct_equal server_proof1 mac) server_proof1_invalid _ e7 in
    let same : record {
      t3 = t.state;
      server_proof1 = server_proof1;
      server_challenge2 = server_challenge2;
      transcript = t';
    }
        ≡ p =
      cc e8 in
    subst
      (λ (p : Proved).
        p.server_proof1
        ≡ hmac_sha256 na keys.sproof1 (sp1_in p.t3 vmres.vm_digest p.server_challenge2))
      same (same_bytes→eq server_proof1 mac equal)
