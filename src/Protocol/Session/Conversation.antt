-- ===== src/Protocol/Session/Conversation.antt =====
-- `run_session` of client/src/net/protocol.cpp as a process, statement by statement: it asks for
-- something, and goes on with the answer. A server may keep a state from one request to the next.
-- The message types, the texts and the names of the draws are those of Protocol/Session.
pub mod Steps
pub mod Log
pub mod Course
use crackme.Base.{
  ℕ, ◌+◌, ◌-◌, List, [], ◌∷◌, Bool, Bytes, u16, ltb, ◌==◌, not, length, Result, ok, err, Error,
  guard, server_challenge_too_short, server_challenge_signature_invalid, bad_server_proof1_length,
  server_proof1_invalid, sealed_blob_too_short,
}
use crackme.Buffer.{append, str_bytes, be16, be32, slice}
use crackme.Config.{
  ascii, mt_hello, mt_client_proof_1, mt_client_proof_2, sz_nonce, sz_authtag, sign_context,
  sproof1_label, seal_info,
}
use crackme.Sodium.{
  Sodium, hmac_sha256, x25519_base, x25519_shared, ed25519_verify, aead_decrypt, ct_equal,
}
use crackme.Sodium.Kdf.{hkdf_extract, hkdf}
use crackme.Frame.{Frame, serialize, parse}
use crackme.Codec.Base64.{b64encode}
use crackme.Vm.Run.{VmResult}
use crackme.Vm.Program.{run_vm}
use crackme.Challenge.Transcript.{Transcript, initial}
use crackme.Challenge.Proofs.{compute_proof1, compute_proof2}
use crackme.Protocol.Frames.{
  Keys, derive_keys, bootstrap_mac_key, plain_seal, plain_open, aead_seal, aead_open,
}
use crackme.Protocol.Response.{decode_response, parse_pubkey}
use crackme.Protocol.Session.{Draws}

pub data Request : Type 0 where
  get_request : (path : Bytes) → Request
  post_request : (path body : Bytes) → Request

pub data Talk : Type 0 where
  done : Result Bytes → Talk
  asks : Request → (Result Bytes → Talk) → Talk

-- The statements behind a call; an exception ends the session.
unfoldable pub resume : {A : Type 0} → Result A → (A → Talk) → Talk
resume (ok a) k = k a
resume (err e) k = done (err e)

infixl 5 ◌>>=◌ ◌>>◌
abbrev pub ◌>>=◌ : {A : Type 0} → Result A → (A → Talk) → Talk
r >>= k = resume r k

abbrev pub ◌>>◌ : Result (Unit {0}) → Talk → Talk
r >> k = r >>= λ _. k

-- What the challenge leaves: the server's key for signatures, its public key, its random bytes and
-- the transcript.
pub record Challenged : Type 0 where
  pub server_pub : Bytes
  pub server_random : Bytes
  pub transcript : Transcript

module _ (na : Sodium) (draws : Draws) (username_norm license_struct : Bytes) where
  -- CLIENT_PROOF_2 / FINALIZE, with `t` behind the server's proof and `salt` the state T2.
  unfoldable pub finalizing :
      Challenged → Keys → VmResult → (server_challenge2 : Bytes) → Transcript → Talk
  finalizing c keys vmres server_challenge2 t =
      let proof2 =
        compute_proof2 na keys.proof2 server_challenge2 c.server_random c.server_pub vmres.vm_digest
          c.transcript.state in
      let (p2, t5) =
        aead_seal na t keys.mac keys.c2s mt_client_proof_2 draws.session_id 3 proof2
          draws.proof2_nonce in
      asks (post_request (ascii "/api/v1/finalize") (b64encode (serialize p2))) λ answer. do
        resp ← answer
        raw ← decode_response resp
        sealed ← parse raw
        (inner_blob, _) ← aead_open na t5 keys.mac keys.s2c sealed
        guard (not (ltb (length inner_blob) (sz_nonce + sz_authtag))) sealed_blob_too_short
        seal_nonce ← slice inner_blob 0 sz_nonce
        let ct_len = length inner_blob - sz_nonce - sz_authtag
        inner_ct ← slice inner_blob sz_nonce ct_len
        inner_tag ← slice inner_blob (sz_nonce + ct_len) sz_authtag
        k_seal ← hkdf na t5.state keys.seal (str_bytes seal_info) 32
        done (aead_decrypt na k_seal seal_nonce inner_ct inner_tag t5.state)

  -- CLIENT_PROOF_1.
  unfoldable pub proving : Challenged → Keys → VmResult → Talk
  proving c keys vmres =
      let proof1 =
        compute_proof1 na keys.proof1 username_norm license_struct vmres c.server_random
          draws.session_id c.transcript.state in
      let in1 = append (append [] license_struct) vmres.vm_digest in
      let in2 = append (append in1 vmres.vm_state_hash) (be32 vmres.vm_path_id) in
      let p1_payload = append (append in2 (be32 vmres.vm_halt_code)) proof1 in
      let (p1, t3) =
        aead_seal na c.transcript keys.mac keys.c2s mt_client_proof_1 draws.session_id 2 p1_payload
          draws.proof1_nonce in
      asks (post_request (ascii "/api/v1/exchange") (b64encode (serialize p1))) λ answer. do
        resp ← answer
        raw ← decode_response resp
        sp ← parse raw
        (sp_payload, t4) ← aead_open na t3 keys.mac keys.s2c sp
        guard (length sp_payload == 48) bad_server_proof1_length
        server_proof1 ← slice sp_payload 0 32
        server_challenge2 ← slice sp_payload 32 16
        let sp1_in =
            append (append (append (append [] (str_bytes sproof1_label)) t3.state) vmres.vm_digest)
              server_challenge2
        guard (ct_equal server_proof1 (hmac_sha256 na keys.sproof1 sp1_in)) server_proof1_invalid
        finalizing c keys vmres server_challenge2 t4

  -- The session keys and the machine.
  unfoldable pub computing : Challenged → Talk
  computing c = do
    shared ← x25519_shared na draws.x25519_priv c.server_pub
    keys ← derive_keys na (hkdf_extract na c.transcript.state shared)
    vmres ←
        run_vm username_norm license_struct c.server_random draws.session_id c.transcript.state
          c.server_random
    proving c keys vmres

  -- HELLO.
  unfoldable pub greeting : (server_sign_pk kp_pub : Bytes) → Talk
  greeting server_sign_pk kp_pub =
      let bootstrap = bootstrap_mac_key na in
      let in1 = append (append [] kp_pub) draws.client_random in
      let hello_payload = append (append in1 (be16 (u16 (length username_norm)))) username_norm in
      let (hello, t1) =
        plain_seal na (initial na) bootstrap mt_hello draws.session_id 1 hello_payload
          draws.hello_nonce in
      asks (post_request (ascii "/api/v1/hello") (b64encode (serialize hello))) λ answer. do
        resp ← answer
        raw ← decode_response resp
        chal ← parse raw
        (chal_payload, t2) ← plain_open na t1 bootstrap chal
        guard (not (ltb (length chal_payload) (32 + 16 + 64))) server_challenge_too_short
        server_pub ← slice chal_payload 0 32
        server_random ← slice chal_payload 32 16
        signature ← slice chal_payload 48 64
        let signed_data =
            append (append (append (append [] (str_bytes sign_context)) t1.state) server_pub)
              server_random
        guard (ed25519_verify na server_sign_pk signed_data signature)
            server_challenge_signature_invalid
        computing
            (record { server_pub = server_pub; server_random = server_random; transcript = t2 })

  unfoldable pub conversation : Talk
  conversation = asks (get_request (ascii "/api/v1/public-key")) λ answer. do
    pk_json ← answer
    server_sign_pk ← parse_pubkey pk_json
    kp_pub ← x25519_base na draws.x25519_priv
    greeting server_sign_pk kp_pub

-- A server with a state: its requests with their answers, and the result of a session with it.
unfoldable pub play :
    {S : Type 0}
    → (S → Request → Result Bytes × S)
    → S
    → Talk
    → List (Request × Result Bytes) × Result Bytes
play server s (done r) = ([], r)
play server s (asks q k) =
    let (a, s') = server s q in let (log, r) = play server s' (k a) in ((q, a) ∷ log, r)
