-- ===== src/App/Granted.antt =====
-- A run of `run_app` of client/src/app.cpp with the server of Protocol/Session/Server.
use crackme.Base.{
  ℕ, ◌≡◌, ap, ◌∙◌, List, [], ◌∷◌, ◌++◌, true, false, Bytes, IsByte, IsBytes, arith, All, some,
  Result, ok,
}
use crackme.Config.{ascii}
use crackme.Sodium.{Sodium, ed25519_verify}
use crackme.Sodium.Kdf.{hkdf_extract}
use crackme.Http.{HttpClient, http_client, get, post}
use crackme.Vm.Run.{VmResult}
use crackme.Vm.Program.{run_vm}
use crackme.Challenge.License.{normalize_username, decode_license}
use crackme.Challenge.License.Shape.{IsNameChar, normalize_username_ok, decode_license_ok}
use crackme.Protocol.Frames.Wire.{IsSodium, body}
use crackme.Protocol.Response.{parse_pubkey}
use crackme.Protocol.Session.{Http, Draws, signed_data}
use crackme.Protocol.Session.Server.{
  keys_of, Server, IsServer, challenge, proof1_reply, final_reply,
}
use crackme.Protocol.Session.Sections.{hello_of, first_proof, proved_of}
use crackme.Protocol.Session.Final.{second_proof}
use crackme.Protocol.Session.Honest.{client_hello, run_session-honest}
use crackme.App.{Args, parse_args}
use crackme.App.Shell.{
  World, Line, access_granted, Run, credentials, attempt, net_session, verdict, printing,
  after_parse, run_app, c_str,
}
use crackme.App.Exit.{portal_lines, after_args-portal}

-- The four answers of a server on a session: its key, its challenge, and, for the digest that the
-- machine computes, its proof and its sealed payload.
pub record Answers (na : Sodium) (s : Server) (http : Http) (draws : Draws)
    (uname lic pk_json pk kp_pub shared : Bytes) : Type 0 where
  pub key : http.get (ascii "/api/v1/public-key") ≡ ok pk_json
  pub key_parses : parse_pubkey pk_json ≡ ok pk
  pub own_key : na.crypto_scalarmult_base draws.x25519_priv ≡ some kp_pub
  pub agreed : na.crypto_scalarmult draws.x25519_priv s.server_pub ≡ some shared
  pub challenged :
      let (hello, t1) = client_hello na draws uname kp_pub in
      http.post (ascii "/api/v1/hello") (body hello) ≡ ok (body (challenge na s t1).0)
  pub signed :
      let t1 = (client_hello na draws uname kp_pub).1 in
      ed25519_verify na pk (signed_data t1.state s.server_pub s.server_random) s.signature ≡ true
  pub proved :
      let t1 = (client_hello na draws uname kp_pub).1 in
      let t2 = (challenge na s t1).1 in
      let h = hello_of pk s t1 t2 in
      let keys = keys_of na (hkdf_extract na t2.state shared) in
      (vmres : VmResult)
      → run_vm uname lic s.server_random draws.session_id t2.state s.server_random ≡ ok vmres
      → let (p1, t3) = first_proof na draws uname lic h keys vmres in
        let (reply, t4) = proof1_reply na s keys vmres.vm_digest t3 in
        let (p2, t5) = second_proof na draws h keys vmres (proved_of na s keys vmres t3 t4) in
        (http.post (ascii "/api/v1/exchange") (body p1) ≡ ok (body reply))
        × (http.post (ascii "/api/v1/finalize") (body p2) ≡ ok (body (final_reply na s keys t5).0))

IsNameChar-IsByte : (ch : ℕ) → IsNameChar ch → IsByte ch
unfolding IsNameChar
IsNameChar-IsByte ch (low, high, _) = omega (arith, high)

name_bytes : (name : Bytes) → All IsNameChar name → IsBytes name
name_bytes [] h = tt
name_bytes (ch ∷ name) (letter, h) = (IsNameChar-IsByte ch letter, name_bytes name h)

-- What the network of the program answers through the client of an address.
abbrev pub http_of : World → HttpClient → Http
http_of w client = record { get = get w.win w.rounds client; post = post w.win w.rounds client }

attempt-Answers :
    (w : World) (args : Args) (s : Server) (client : HttpClient)
    → (username license uname lic pk_json pk kp_pub shared : Bytes) → IsSodium w.na
    → IsServer s
    → IsBytes w.draws.session_id
    → normalize_username username ≡ ok uname
    → decode_license license ≡ ok lic
    → http_client args.server ≡ ok client
    → Answers w.na s (http_of w client) w.draws uname lic pk_json pk kp_pub shared
    → attempt w args username license ≡ ok s.flag
unfolding attempt net_session
attempt-Answers w args s client username license uname lic pk_json pk kp_pub shared laws sized drawn
      named decoded connected a =
    let (_, _, letters) = normalize_username_ok username uname named in
    let (_, _, _, _, lic_bytes) = decode_license_ok license lic decoded in
    rw (named, decoded, connected)
      (run_session-honest w.na laws s sized (http_of w client) w.draws uname lic pk_json pk kp_pub
        shared (name_bytes uname letters) lic_bytes drawn a.key a.key_parses a.own_key a.agreed
        a.challenged a.signed a.proved)

-- With valid credentials and an honest server the program grants access: if the command line parses
-- and does not ask for help, libsodium starts and keeps its laws, the name can be normalised and the
-- license decoded, the address of the server is one, and a server that is built as the protocol
-- prescribes gives its four answers, then the exit code is 0 and the last line printed is the server's
-- flag, up to its first NUL.
pub run_app-granted :
    (w : World) (argv : List Bytes) (args : Args) (s : Server) (client : HttpClient)
    → (uname lic pk_json pk kp_pub shared : Bytes) → parse_args argv ≡ ok args
    → args.help ≡ false
    → w.sodium_ready ≡ true
    → IsSodium w.na
    → IsServer s
    → IsBytes w.draws.session_id
    → normalize_username (credentials args w.input).0 ≡ ok uname
    → decode_license (credentials args w.input).1 ≡ ok lic
    → http_client args.server ≡ ok client
    → Answers w.na s (http_of w client) w.draws uname lic pk_json pk kp_pub shared
    → ((run_app w argv).status ≡ ok 0)
      × ((before : List Line) × ((run_app w argv).printed
            ≡ before ++ (access_granted (c_str s.flag) ∷ [])))
unfolding run_app after_parse printing verdict
run_app-granted w argv args s client uname lic pk_json pk kp_pub shared parsed no_help ready laws
      sized drawn named decoded connected a =
    let (username, license, asked) = credentials args w.input in
    let got =
      attempt-Answers w args s client username license uname lic pk_json pk kp_pub shared laws sized
        drawn named decoded connected a in
    let run = after_args-portal w args no_help ready in
    let whole : run_app w argv ≡ printing (portal_lines w args) (verdict args.verbose (ok s.flag)) =
      ap (after_parse w) parsed
      ∙ run
      ∙ ap (λ (r : Result Bytes). printing (portal_lines w args) (verdict args.verbose r)) got in
    (ap (λ (r : Run). r.status) whole, (portal_lines w args, ap (λ (r : Run). r.printed) whole))
