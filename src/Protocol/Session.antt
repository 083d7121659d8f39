-- ===== src/Protocol/Session.antt =====
-- `run_session` of client/src/net/protocol.cpp, section by section. The server's answers (`Http`)
-- and what `random_bytes` draws (`Draws`) are parameters; the messages it prints are left out.
pub mod Checked
pub mod Server
pub mod Sections
pub mod Final
pub mod Honest
pub mod Conversation
use crackme.Base.{
  ℕ, ◌+◌, ◌-◌, [], ◌∷◌, Bytes, u16, ltb, ◌==◌, not, length, Result, ok, err, ◌>>=◌, ◌>>◌, guard,
  server_challenge_too_short, server_challenge_signature_invalid, bad_server_proof1_length,
  server_proof1_invalid, sealed_blob_too_short,
}
use crackme.Buffer.{append, str_bytes, be16, be32, slice}
use crackme.Config.{
  ascii, mt_hello, mt_client_proof_1, mt_client_proof_2, sz_nonce, sz_authtag, sign_context,
  sproof1_label, seal_info,
}
use crackme.Sodium.{
  Sodium, hmac_sha256, x25519_base, x25519_shared, ed25519_verify, aead_decrypt, ct_equal,
}
use crackme.Sodium.Kdf.{hkdf_extract, hkdf}
use crackme.Frame.{Frame, serialize, parse}
use crackme.Codec.Base64.{b64encode}
use crackme.Vm.Run.{VmResult}
use crackme.Vm.Program.{run_vm}
use crackme.Challenge.Transcript.{Transcript, initial}
use crackme.Challenge.Proofs.{compute_proof1, compute_proof2}
use crackme.Protocol.Frames.{
  Keys, derive_keys, bootstrap_mac_key, plain_seal, plain_open, aead_seal, aead_open,
}
use crackme.Protocol.Response.{decode_response, parse_pubkey}

-- What the server answers to a path and a body.
pub record Http : Type 0 where
  pub get : Bytes → Result Bytes
  pub post : Bytes → Bytes → Result Bytes

-- The results of `random_bytes`, in the order of the calls.
pub record Draws : Type 0 where
  pub x25519_priv : Bytes
  pub client_random : Bytes
  pub session_id : Bytes
  pub hello_nonce : Bytes
  pub proof1_nonce : Bytes
  pub proof2_nonce : Bytes

-- What the section HELLO leaves to the later ones.
pub record Hello : Type 0 where
  pub server_sign_pk : Bytes
  pub t1 : Bytes
  pub server_pub : Bytes
  pub server_random : Bytes
  pub signature : Bytes
  pub transcript : Transcript

unfoldable pub hello_payload : Bytes → Bytes → Bytes → Bytes
hello_payload kp_pub client_random username_norm =
    let p1 = append [] kp_pub in
    let p2 = append p1 client_random in
    let p3 = append p2 (be16 (u16 (length username_norm))) in append p3 username_norm

unfoldable pub signed_data : Bytes → Bytes → Bytes → Bytes
signed_data t1 server_pub server_random =
    append (append (append (append [] (str_bytes sign_context)) t1) server_pub) server_random

-- HELLO from the payload of the challenge on.
unfoldable pub check_challenge : Sodium → Bytes → Bytes → Bytes → Transcript → Result Hello
check_challenge na server_sign_pk t1 chal_payload t' = do
  guard (not (ltb (length chal_payload) (32 + 16 + 64))) server_challenge_too_short
  server_pub ← slice chal_payload 0 32
  server_random ← slice chal_payload 32 16
  signature ← slice chal_payload 48 64
  guard (ed25519_verify na server_sign_pk (signed_data t1 server_pub server_random) signature)
      server_challenge_signature_invalid
  ok (record {
    server_sign_pk = server_sign_pk;
    t1 = t1;
    server_pub = server_pub;
    server_random = server_random;
    signature = signature;
    transcript = t';
  })

unfoldable pub hello_section : Sodium → Http → Draws → Bytes → Result Hello
hello_section na http draws username_norm = do
  pk_json ← http.get (ascii "/api/v1/public-key")
  server_sign_pk ← parse_pubkey pk_json
  kp_pub ← x25519_base na draws.x25519_priv
  let bootstrap = bootstrap_mac_key na
  let payload = hello_payload kp_pub draws.client_random username_norm
  let (hello, t) =
      plain_seal na (initial na) bootstrap mt_hello draws.session_id 1 payload draws.hello_nonce
  resp ← http.post (ascii "/api/v1/hello") (b64encode (serialize hello))
  raw ← decode_response resp
  chal ← parse raw
  (chal_payload, t') ← plain_open na t bootstrap chal
  check_challenge na server_sign_pk t.state chal_payload t'

unfoldable pub session_keys : Sodium → Draws → Hello → Result Keys
session_keys na draws h = do
  shared ← x25519_shared na draws.x25519_priv h.server_pub
  derive_keys na (hkdf_extract na h.transcript.state shared)

-- What the section CLIENT_PROOF_1 leaves to the last one.
pub record Proved : Type 0 where
  pub t3 : Bytes
  pub server_proof1 : Bytes
  pub server_challenge2 : Bytes
  pub transcript : Transcript

unfoldable pub p1_payload : Bytes → VmResult → Bytes → Bytes
p1_payload license_struct vmres proof1 =
    let p1 = append [] license_struct in
    let p2 = append p1 vmres.vm_digest in
    let p3 = append p2 vmres.vm_state_hash in
    let p4 = append p3 (be32 vmres.vm_path_id) in
    let p5 = append p4 (be32 vmres.vm_halt_code) in append p5 proof1

unfoldable pub sp1_in : Bytes → Bytes → Bytes → Bytes
sp1_in t3 vm_digest server_challenge2 =
    append (append (append (append [] (str_bytes sproof1_label)) t3) vm_digest) server_challenge2

unfoldable pub proof1_section :
    Sodium → Http → Draws → Bytes → Bytes → Hello → Keys → VmResult → Result Proved
proof1_section na http draws username_norm license_struct h keys vmres = do
  let salt = h.transcript.state
  let proof1 =
      compute_proof1 na keys.proof1 username_norm license_struct vmres h.server_random
        draws.session_id salt
  let payload = p1_payload license_struct vmres proof1
  let (p1, t) =
      aead_seal na h.transcript keys.mac keys.c2s mt_client_proof_1 draws.session_id 2 payload
        draws.proof1_nonce
  resp ← http.post (ascii "/api/v1/exchange") (b64encode (serialize p1))
  raw ← decode_response resp
  sp ← parse raw
  (sp_payload, t') ← aead_open na t keys.mac keys.s2c sp
  guard (length sp_payload == 48) bad_server_proof1_length
  server_proof1 ← slice sp_payload 0 32
  server_challenge2 ← slice sp_payload 32 16
  guard
      (ct_equal server_proof1
        (hmac_sha256 na keys.sproof1 (sp1_in t.state vmres.vm_digest server_challenge2)))
      server_proof1_invalid
  ok (record {
    t3 = t.state;
    server_proof1 = server_proof1;
    server_challenge2 = server_challenge2;
    transcript = t';
  })

unfoldable pub finalize_section :
    Sodium → Http → Draws → Hello → Keys → VmResult → Proved → Result Bytes
finalize_section na http draws h keys vmres p = do
  let proof2 =
      compute_proof2 na keys.proof2 p.server_challenge2 h.server_random h.server_pub vmres.vm_digest
        h.transcript.state
  let (p2, t) =
      aead_seal na p.transcript keys.mac keys.c2s mt_client_proof_2 draws.session_id 3 proof2
        draws.proof2_nonce
  resp ← http.post (ascii "/api/v1/finalize") (b64encode (serialize p2))
  raw ← decode_response resp
  sealed ← parse raw
  (inner_blob, _) ← aead_open na t keys.mac keys.s2c sealed
  guard (not (ltb (length inner_blob) (sz_nonce + sz_authtag))) sealed_blob_too_short
  seal_nonce ← slice inner_blob 0 sz_nonce
  let ct_len = length inner_blob - sz_nonce - sz_authtag
  inner_ct ← slice inner_blob sz_nonce ct_len
  inner_tag ← slice inner_blob (sz_nonce + ct_len) sz_authtag
  k_seal ← hkdf na t.state keys.seal (str_bytes seal_info) 32
  aead_decrypt na k_seal seal_nonce inner_ct inner_tag t.state

unfoldable pub run_session : Sodium → Http → Draws → Bytes → Bytes → Result Bytes
run_session na http draws username_norm license_struct = do
  h ← hello_section na http draws username_norm
  keys ← session_keys na draws h
  vmres ←
      run_vm username_norm license_struct h.server_random draws.session_id h.transcript.state
        h.server_random
  p ← proof1_section na http draws username_norm license_struct h keys vmres
  finalize_section na http draws h keys vmres p
