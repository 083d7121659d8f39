-- ===== src/Protocol/Session/Conversation/Log.antt =====
-- The requests of `run_session` of client/src/net/protocol.cpp with their answers: what a session
-- leaves behind, by the section at which it ends.
use crackme.Base.{
  ◌≡◌, sym, ap, ◌∙◌, List, [], ◌∷◌, true, ltb, not, length, ◌+◌, Bytes, Result, Error, ok, err,
  ◌>>=◌, >>=-eq-ok, guard-then, server_challenge_too_short, server_challenge_signature_invalid,
}
use crackme.Config.{ascii}
use crackme.Buffer.{slice}
use crackme.Frame.{parse}
use crackme.Sodium.{Sodium, x25519_base, ed25519_verify, hmac_sha256}
use crackme.Challenge.Transcript.{Transcript}
use crackme.Vm.Run.{VmResult}
use crackme.Vm.Program.{run_vm}
use crackme.Protocol.Frames.{Keys, bootstrap_mac_key, plain_open}
use crackme.Protocol.Response.{decode_response, parse_pubkey}
use crackme.Protocol.Session.{
  Draws, Hello, Proved, check_challenge, hello_section, session_keys, proof1_section,
  finalize_section, signed_data, sp1_in,
}
use crackme.Protocol.Session.Honest.{client_hello}
use crackme.Protocol.Session.Conversation.{Request, get_request}
use crackme.Protocol.Session.Conversation.Steps.{
  answering, hello_request, exchange_request, finalize_request,
}

abbrev pub key_request : Request
key_request = get_request (ascii "/api/v1/public-key")

-- The challenge names the transcript of the hello that it answers.
check_challenge-t1 :
    (na : Sodium) (server_sign_pk t1 chal_payload : Bytes) (t' : Transcript) (h : Hello)
    → check_challenge na server_sign_pk t1 chal_payload t' ≡ ok h
    → h.t1 ≡ t1
unfolding check_challenge
check_challenge-t1 na server_sign_pk t1 chal_payload t' h e =
    let (_, e1) =
      guard-then (not (ltb (length chal_payload) (32 + 16 + 64))) server_challenge_too_short _ e in
    let (server_pub, _, e2) = >>=-eq-ok (slice chal_payload 0 32) _ e1 in
    let (server_random, _, e3) = >>=-eq-ok (slice chal_payload 32 16) _ e2 in
    let (signature, _, e4) = >>=-eq-ok (slice chal_payload 48 64) _ e3 in
    let (_, e5) =
      guard-then
        (ed25519_verify na server_sign_pk (signed_data t1 server_pub server_random) signature)
        server_challenge_signature_invalid _ e4 in
    let same : record {
      server_sign_pk = server_sign_pk;
      t1 = t1;
      server_pub = server_pub;
      server_random = server_random;
      signature = signature;
      transcript = t';
    }
        ≡ h =
      cc e5 in
    sym (ap (λ (h : Hello). h.t1) same)

module _ (na : Sodium) (draws : Draws) (username_norm license_struct : Bytes) where
  pub hello_section-t1 :
      (a0 a1 : Result Bytes) (kp_pub : Bytes) (h : Hello)
      → x25519_base na draws.x25519_priv ≡ ok kp_pub
      → hello_section na (answering a0 a1) draws username_norm ≡ ok h
      → h.t1 ≡ (client_hello na draws username_norm kp_pub).1.state
  unfolding hello_section client_hello
  hello_section-t1 a0 a1 kp_pub h base e =
      let (pk_json, _, e1) = >>=-eq-ok a0 _ e in
      let (server_sign_pk, _, e2) = >>=-eq-ok (parse_pubkey pk_json) _ e1 in
      let (kp_pub', base', e3) = >>=-eq-ok (x25519_base na draws.x25519_priv) _ e2 in
      let (resp, _, e4) = >>=-eq-ok a1 _ e3 in
      let (raw, _, e5) = >>=-eq-ok (decode_response resp) _ e4 in
      let (chal, _, e6) = >>=-eq-ok (parse raw) _ e5 in
      let t = (client_hello na draws username_norm kp_pub').1 in
      let ((chal_payload, t'), _, e7) =
        >>=-eq-ok (plain_open na t (bootstrap_mac_key na) chal) _ e6 in
      let same : kp_pub' ≡ kp_pub = cc (base, base') in
      check_challenge-t1 na server_sign_pk t.state chal_payload t' h e7
      ∙ ap (λ kp. (client_hello na draws username_norm kp).1.state) same

  -- The client's public key, behind the server's answer to the key request.
  abbrev pub own_key : Result Bytes → Result Bytes
  own_key a0 = do
    pk_json ← a0
    server_sign_pk ← parse_pubkey pk_json
    x25519_base na draws.x25519_priv

  abbrev pub machine : Hello → Result VmResult
  machine h =
      run_vm username_norm license_struct h.server_random draws.session_id h.transcript.state
        h.server_random

  -- The machine's result, behind the answers to the key request and to the hello.
  abbrev pub challenge_run : Result Bytes → Result Bytes → Result VmResult
  challenge_run a0 a1 = do
    h ← hello_section na (answering a0 a1) draws username_norm
    keys ← session_keys na draws h
    machine h

  -- What holds when the first proof goes out: from the first two answers came a challenge that the
  -- server has signed over this hello, and the keys and the machine's result belong to it.
  pub record IsChallenged (a0 a1 : Result Bytes) (kp_pub : Bytes) (h : Hello) (keys : Keys)
      (vmres : VmResult) : Type 0 where
    pub key : x25519_base na draws.x25519_priv ≡ ok kp_pub
    pub hello : hello_section na (answering a0 a1) draws username_norm ≡ ok h
    pub own_hello : h.t1 ≡ (client_hello na draws username_norm kp_pub).1.state
    pub signed :
        ed25519_verify na h.server_sign_pk
          (signed_data h.t1 h.server_pub h.server_random)
          h.signature
        ≡ true
    pub derived : session_keys na draws h ≡ ok keys
    pub ran : machine h ≡ ok vmres

  -- How far a session comes: its requests with their answers, and its result.
  pub data Course : List (Request × Result Bytes) → Result Bytes → Type 0 where
    ends_at_key :
        (a0 : Result Bytes) (e : Error)
        → own_key a0 ≡ err e
        → Course ((key_request, a0) ∷ []) (err e)
    ends_at_hello :
        (a0 a1 : Result Bytes) (kp_pub : Bytes) (e : Error)
        → own_key a0 ≡ ok kp_pub
        → challenge_run a0 a1 ≡ err e
        → Course
            ((key_request, a0)
              ∷ (hello_request na draws username_norm license_struct kp_pub, a1)
              ∷ [])
            (err e)
    ends_at_exchange :
        (a0 a1 a2 : Result Bytes) (kp_pub : Bytes) (h : Hello) (keys : Keys) (vmres : VmResult)
        (e : Error)
        → IsChallenged a0 a1 kp_pub h keys vmres
        → proof1_section na (answering a2 a2) draws username_norm license_struct h keys vmres
          ≡ err e
        → Course
            ((key_request, a0)
              ∷ (hello_request na draws username_norm license_struct kp_pub, a1)
              ∷ (exchange_request na draws username_norm license_struct h keys vmres, a2)
              ∷ [])
            (err e)
    ends_at_finalize :
        (a0 a1 a2 a3 : Result Bytes) (kp_pub : Bytes) (h : Hello) (keys : Keys) (vmres : VmResult)
        (p : Proved)
        → IsChallenged a0 a1 kp_pub h keys vmres
        → proof1_section na (answering a2 a2) draws username_norm license_struct h keys vmres ≡ ok p
        → p.server_proof1
          ≡ hmac_sha256 na keys.sproof1 (sp1_in p.t3 vmres.vm_digest p.server_challenge2)
        → Course
            ((key_request, a0)
              ∷ (hello_request na draws username_norm license_struct kp_pub, a1)
              ∷ (exchange_request na draws username_norm license_struct h keys vmres, a2)
              ∷ (finalize_request na draws username_norm license_struct h keys vmres p, a3)
              ∷ [])
            (finalize_section na (answering a3 a3) draws h keys vmres p)
