-- ===== src/Examples/Honest.antt =====
-- A session with an honest server, and a whole run of the program around it. The stand-in for
-- libsodium keeps the laws that the theorem asks for; the machine's run is that of the test vectors.
use crackme.Base.{
  ◌≡◌, refl, ap, arith, true, [], ◌∷◌, ◌++◌, ◌-◌, ◌==◌, Bytes, IsByte, length, length-append, take,
  take-append, All-append, replicate, same_bytes, if◌then◌else◌, some, ok,
}
use crackme.Config.{ascii}
use crackme.Sodium.{Sodium, ed25519_verify}
use crackme.Sodium.Kdf.{hkdf_extract}
use crackme.Frame.{Frame}
use crackme.Http.{HttpClient, WinHttp, request, receive_loop, poll, get, post}
use crackme.Challenge.Transcript.{Transcript, absorb, seal_frame}
use crackme.Protocol.Frames.{Keys, plain_seal, aead_open}
use crackme.Protocol.Frames.Wire.{Envelope, IsEnvelope, IsSodium, body}
use crackme.Protocol.Frames.Sealed.{plain_reply, aead_reply, Arrives, aead_reply-Arrives}
use crackme.Protocol.Response.{parse_pubkey}
use crackme.Protocol.Session.{Http, Draws, Hello, signed_data, run_session}
use crackme.Protocol.Session.Server.{
  keys_of, Server, IsServer, challenge, proof1_reply, final_reply,
}
use crackme.Protocol.Session.Sections.{hello_of, first_proof, proved_of}
use crackme.Protocol.Session.Final.{second_proof}
use crackme.Protocol.Session.Honest.{client_hello, run_session-honest}
use mathlib.Core.Path.{subst}
use crackme.App.Granted.{Answers}
use crackme.Vm.Run.{VmResult}
use crackme.Vm.Program.{run_vm}
use crackme.Vm.Program.Vectors.{
  username, license, server_random, session_id, transcript_prefix, expected, vm_parity,
}

abbrev pub lawful : Sodium
lawful = record {
  crypto_hash_sha256 = λ m. transcript_prefix;
  crypto_auth_hmacsha256 = λ key m. replicate 32 7;
  crypto_scalarmult_base = λ priv. some priv;
  crypto_scalarmult = λ priv peer. some peer;
  crypto_sign_verify_detached = λ sig m pk. true;
  aead_encrypt_combined = λ plaintext aad nonce key. plaintext ++ replicate 16 0;
  aead_decrypt_combined = λ combined aad nonce key. some (take (length combined - 16) combined);
}

pub lawful-IsSodium : IsSodium lawful
lawful-IsSodium = record {
  hash_bytes = λ input. omega arith;
  mac_size = λ key input. refl;
  mac_bytes = λ key input. omega arith;
  sealed_size = λ plaintext aad nonce key. length-append plaintext (replicate 16 0);
  sealed_bytes =
      λ plaintext aad nonce key h. All-append IsByte plaintext (replicate 16 0) h (omega arith);
  decrypts = λ plaintext aad nonce key. ap some (
      take-append (length (plaintext ++ replicate 16 0) - 16) plaintext (replicate 16 0)
        (omega (arith, length-append plaintext (replicate 16 0))));
}

abbrev envelope : Envelope
envelope = record { message_type = 2; session_id = session_id; counter = 1; nonce = replicate 24 5 }

envelope-IsEnvelope : IsEnvelope envelope
envelope-IsEnvelope = record {
  type_byte = omega arith;
  sid_size = refl;
  sid_bytes = omega arith;
  counter_word = omega arith;
  nonce_size = refl;
  nonce_bytes = omega arith;
}

abbrev pub honest : Server
honest = record {
  server_pub = replicate 32 1;
  server_random = server_random;
  signature = replicate 64 2;
  challenge2 = replicate 16 3;
  seal_nonce = replicate 24 4;
  flag = ascii "FLAG";
  hello_envelope = envelope;
  proof1_envelope = envelope;
  final_envelope = envelope;
}

pub honest-IsServer : IsServer honest
honest-IsServer = record {
  pub_size = refl;
  random_size = refl;
  signature_size = refl;
  challenge2_size = refl;
  seal_nonce_size = refl;
  flag_size = omega arith;
  pub_bytes = omega arith;
  random_bytes = omega arith;
  signature_bytes = omega arith;
  challenge2_bytes = omega arith;
  seal_nonce_bytes = omega arith;
  flag_bytes = omega arith;
  hello_sized = envelope-IsEnvelope;
  proof1_sized = envelope-IsEnvelope;
  final_sized = envelope-IsEnvelope;
}

abbrev pub draws : Draws
draws = record {
  x25519_priv = replicate 32 1;
  client_random = replicate 16 2;
  session_id = session_id;
  hello_nonce = replicate 24 3;
  proof1_nonce = replicate 24 4;
  proof2_nonce = replicate 24 5;
}

abbrev pub pk : Bytes
pk = replicate 32 0xaa

abbrev pub pk_json : Bytes
pk_json = ascii "{ 'k':1, public_key: " ++ (0x22 ∷ replicate 64 b'a' ++ (0x22 ∷ []))

-- The frames of the session, in their order.
pub hello_step : Frame × Transcript
hello_step = client_hello lawful draws username (replicate 32 1)

pub challenge_step : Frame × Transcript
challenge_step = challenge lawful honest hello_step.1

pub hello_done : Hello
hello_done = hello_of pk honest hello_step.1 challenge_step.1

pub keys : Keys
keys = keys_of lawful (hkdf_extract lawful challenge_step.1.state (replicate 32 1))

pub proof1_step : Frame × Transcript
proof1_step = first_proof lawful draws username license hello_done keys expected

pub reply_step : Frame × Transcript
reply_step = proof1_reply lawful honest keys expected.vm_digest proof1_step.1

pub proof2_step : Frame × Transcript
proof2_step =
    second_proof lawful draws hello_done keys expected
      (proved_of lawful honest keys expected proof1_step.1 reply_step.1)

abbrev answer : Bytes → Bytes
answer path =
    if same_bytes path (ascii "/api/v1/public-key")
    then pk_json
    else if same_bytes path (ascii "/api/v1/hello")
    then body challenge_step.0
    else if same_bytes path (ascii "/api/v1/exchange")
    then body reply_step.0
    else body (final_reply lawful honest keys proof2_step.1).0

-- Each answer comes in one piece.
abbrev pub network : WinHttp
network = record {
  open_session = true;
  connect = λ host port. true;
  exchange = λ host port verb path body. record {
    opens = true;
    sends = true;
    receives = true;
    query = λ k. if k == 0 then some 1 else some 0;
    read = λ k avail. some (answer path);
  };
}

abbrev pub client : HttpClient
client = record { host = ascii "127.0.0.1"; port = 31337 }

abbrev pub http : Http
http = record { get = get network 2 client; post = post network 2 client }

pk_parses : parse_pubkey pk_json ≡ ok pk
unfolding parse_pubkey same_bytes
pk_parses = refl

verified :
    ed25519_verify lawful pk
      (signed_data hello_step.1.state (replicate 32 1) server_random)
      (replicate 64 2)
    ≡ true
unfolding ed25519_verify
verified = refl

vm_runs :
    run_vm username license server_random session_id challenge_step.1.state server_random
    ≡ ok expected
unfolding challenge_step challenge plain_reply plain_seal seal_frame absorb
vm_runs = vm_parity

-- The answers to the proofs fit the machine's result.
abbrev Answered : VmResult → Type 0
Answered vmres =
    let p1 = first_proof lawful draws username license hello_done keys vmres in
    let reply = proof1_reply lawful honest keys vmres.vm_digest p1.1 in
    let p2 =
      second_proof lawful draws hello_done keys vmres
        (proved_of lawful honest keys vmres p1.1 reply.1) in
    (http.post (ascii "/api/v1/exchange") (body p1.0) ≡ ok (body reply.0))
    × (http.post (ascii "/api/v1/finalize") (body p2.0)
        ≡ ok (body (final_reply lawful honest keys p2.1).0))

answered :
    (vmres : VmResult)
    → run_vm username license server_random session_id challenge_step.1.state server_random
      ≡ ok vmres
    → Answered vmres
unfolding hello_step challenge_step hello_done keys proof1_step reply_step proof2_step get post
    request receive_loop poll same_bytes
answered vmres e = let same : expected ≡ vmres = cc (vm_runs, e) in subst Answered same (refl, refl)

pub answers :
    Answers lawful honest http draws username license pk_json pk (replicate 32 1) (replicate 32 1)
unfolding hello_step challenge_step hello_done keys proof1_step reply_step proof2_step get post
    request receive_loop poll same_bytes
answers = record {
  key = refl;
  key_parses = pk_parses;
  own_key = refl;
  agreed = refl;
  challenged = refl;
  signed = verified;
  proved = answered;
}

pub session_returns : run_session lawful http draws username license ≡ ok (ascii "FLAG")
unfolding hello_step challenge_step hello_done keys proof1_step reply_step proof2_step get post
    request receive_loop poll same_bytes
session_returns =
    run_session-honest lawful lawful-IsSodium honest honest-IsServer http draws username license
      pk_json pk (replicate 32 1) (replicate 32 1) (omega arith) (omega arith) (omega arith) refl
      pk_parses refl refl refl verified answered

run_session-honest_example : run_session lawful http draws username license ≡ ok (ascii "FLAG")
unfolding hello_step challenge_step hello_done keys proof1_step reply_step proof2_step get post
    request receive_loop poll same_bytes
run_session-honest_example =
    run_session-honest lawful lawful-IsSodium honest honest-IsServer http draws username license
      pk_json pk (replicate 32 1) (replicate 32 1) (omega arith) (omega arith) (omega arith) refl
      pk_parses refl refl refl verified answered

abbrev old : Transcript
old = record { state = replicate 32 3 }

abbrev key : Bytes
key = replicate 32 4

aead_reply-Arrives_example :
    let (f, t') = aead_reply lawful old key key envelope (1 ∷ 2 ∷ []) in
    Arrives f (aead_open lawful old key key f) (1 ∷ 2 ∷ []) t'
aead_reply-Arrives_example =
    aead_reply-Arrives lawful lawful-IsSodium old key key envelope envelope-IsEnvelope (1 ∷ 2 ∷ [])
      (omega arith) (omega arith)
