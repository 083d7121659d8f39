-- ===== src/Protocol/Session/Honest.antt =====
-- `run_session` of client/src/net/protocol.cpp with the server of Protocol/Session/Server.
use crackme.Base.{◌≡◌, true, Bytes, IsBytes, some, ok}
use crackme.Config.{ascii, mt_hello}
use crackme.Sodium.{Sodium, ed25519_verify}
use crackme.Sodium.Kdf.{hkdf_extract}
use crackme.Frame.{Frame}
use crackme.Vm.Run.{VmResult}
use crackme.Vm.Program.{run_vm}
use crackme.Vm.Program.Halts.{run_vm_returns}
use crackme.Challenge.Transcript.{Transcript, initial, absorb, seal_frame}
use crackme.Protocol.Frames.Sealed.{plain_reply}
use crackme.Protocol.Frames.{bootstrap_mac_key, plain_seal}
use crackme.Protocol.Frames.Wire.{IsSodium, body}
use crackme.Protocol.Response.{parse_pubkey}
use crackme.Protocol.Session.{Http, Draws, hello_payload, signed_data, run_session}
use crackme.Protocol.Session.Server.{
  keys_of, Server, IsServer, challenge, proof1_reply, final_reply,
}
use crackme.Protocol.Session.Sections.{
  hello_of, hello_section-honest, session_keys-keys_of, first_proof, proved_of,
  proof1_section-honest,
}
use crackme.Protocol.Session.Final.{second_proof, finalize_section-honest}

-- The client's hello.
unfoldable pub client_hello : Sodium → Draws → Bytes → Bytes → Frame × Transcript
client_hello na draws username_norm kp_pub =
    plain_seal na (initial na) (bootstrap_mac_key na) mt_hello draws.session_id 1
      (hello_payload kp_pub draws.client_random username_norm) draws.hello_nonce

-- The transcript behind the challenge is a hash.
challenge_state :
    (na : Sodium) (laws : IsSodium na) (s : Server) (t : Transcript)
    → IsBytes (challenge na s t).1.state
unfolding challenge plain_reply plain_seal seal_frame absorb
challenge_state na laws s t = laws.hash_bytes _

-- With the machine's result in hand.
run_session-answered :
    (na : Sodium) (laws : IsSodium na) (s : Server) (sized : IsServer s) (http : Http)
    (draws : Draws)
    → (username_norm license_struct pk_json pk kp_pub shared : Bytes) (vmres : VmResult)
    → http.get (ascii "/api/v1/public-key") ≡ ok pk_json
    → parse_pubkey pk_json ≡ ok pk
    → na.crypto_scalarmult_base draws.x25519_priv ≡ some kp_pub
    → na.crypto_scalarmult draws.x25519_priv s.server_pub ≡ some shared
    → let (hello, t1) = client_hello na draws username_norm kp_pub in
      let (chal, t2) = challenge na s t1 in
      let h = hello_of pk s t1 t2 in
      let keys = keys_of na (hkdf_extract na t2.state shared) in
      let (p1, t3) = first_proof na draws username_norm license_struct h keys vmres in
      let (reply, t4) = proof1_reply na s keys vmres.vm_digest t3 in
      let (p2, t5) = second_proof na draws h keys vmres (proved_of na s keys vmres t3 t4) in
      http.post (ascii "/api/v1/hello") (body hello) ≡ ok (body chal)
      → ed25519_verify na pk (signed_data t1.state s.server_pub s.server_random) s.signature ≡ true
      → run_vm username_norm license_struct s.server_random draws.session_id t2.state
          s.server_random
        ≡ ok vmres
      → http.post (ascii "/api/v1/exchange") (body p1) ≡ ok (body reply)
      → http.post (ascii "/api/v1/finalize") (body p2) ≡ ok (body (final_reply na s keys t5).0)
      → run_session na http draws username_norm license_struct ≡ ok s.flag
unfolding run_session client_hello hello_of
run_session-answered na laws s sized http draws username_norm license_struct pk_json pk kp_pub
      shared vmres hk hj hb hs hp hv hm hx hf =
    let (hello, t1) = client_hello na draws username_norm kp_pub in
    let (chal, t2) = challenge na s t1 in
    let h = hello_of pk s t1 t2 in
    let keys = keys_of na (hkdf_extract na t2.state shared) in
    let (p1, t3) = first_proof na draws username_norm license_struct h keys vmres in
    let (reply, t4) = proof1_reply na s keys vmres.vm_digest t3 in
    let p = proved_of na s keys vmres t3 t4 in
    rw
      (
        hello_section-honest na laws s sized http draws username_norm pk_json pk kp_pub hk hj hb hp
            hv,
        session_keys-keys_of na laws draws h shared hs,
        hm,
        proof1_section-honest na laws s sized http draws username_norm license_struct h keys vmres
            hx,
      )
      (finalize_section-honest na laws s sized http draws h keys vmres p hf)

-- With an honest server the session delivers the flag: if libsodium keeps its laws, the fields of the
-- server's frames have the sizes of the protocol, the name, the license and the session id are
-- bytes, the server sends a public key that parses and answers each of the three frames as the
-- protocol prescribes, in the shared state of the transcript, with the keys of the shared secret and
-- the digest that the machine computes on the session's inputs, its signature verifies and the two
-- key agreements succeed, then `run_session` returns the server's flag.
pub run_session-honest :
    (na : Sodium) (laws : IsSodium na) (s : Server) (sized : IsServer s) (http : Http)
    (draws : Draws)
    → (username_norm license_struct pk_json pk kp_pub shared : Bytes) → IsBytes username_norm
    → IsBytes license_struct
    → IsBytes draws.session_id
    → http.get (ascii "/api/v1/public-key") ≡ ok pk_json
    → parse_pubkey pk_json ≡ ok pk
    → na.crypto_scalarmult_base draws.x25519_priv ≡ some kp_pub
    → na.crypto_scalarmult draws.x25519_priv s.server_pub ≡ some shared
    → let (hello, t1) = client_hello na draws username_norm kp_pub in
      let (chal, t2) = challenge na s t1 in
      let h = hello_of pk s t1 t2 in
      let keys = keys_of na (hkdf_extract na t2.state shared) in
      http.post (ascii "/api/v1/hello") (body hello) ≡ ok (body chal)
      → ed25519_verify na pk (signed_data t1.state s.server_pub s.server_random) s.signature ≡ true
      → ((vmres : VmResult)
          → run_vm username_norm license_struct s.server_random draws.session_id t2.state
              s.server_random
            ≡ ok vmres
          → let (p1, t3) = first_proof na draws username_norm license_struct h keys vmres in
            let (reply, t4) = proof1_reply na s keys vmres.vm_digest t3 in
            let (p2, t5) = second_proof na draws h keys vmres (proved_of na s keys vmres t3 t4) in
            (http.post (ascii "/api/v1/exchange") (body p1) ≡ ok (body reply))
            × (http.post (ascii "/api/v1/finalize") (body p2)
                ≡ ok (body (final_reply na s keys t5).0)))
      → run_session na http draws username_norm license_struct ≡ ok s.flag
run_session-honest na laws s sized http draws username_norm license_struct pk_json pk kp_pub shared
      hu hl hd hk hj hb hs hp hv answers =
    let (vmres, hm, _, _) =
      run_vm_returns username_norm license_struct s.server_random draws.session_id _ hu hl
        sized.random_bytes hd (challenge_state na laws s _) s.server_random in
    let (hx, hf) = answers vmres hm in
    run_session-answered na laws s sized http draws username_norm license_struct pk_json pk kp_pub
      shared vmres hk hj hb hs hp hv hm hx hf
