-- ===== src/Examples/Run.antt =====
-- A whole session with the stand-in for libsodium of the neighbouring module.
use crackme.Base.{[], ◌∷◌, ◌++◌, same_bytes, Bytes, if◌then◌else◌, replicate, resize, ok}
use crackme.Config.{ascii, transcript_seed, bootstrap_mac_label}
use crackme.Frame.{serialize}
use crackme.Codec.Base64.{b64encode}
use crackme.Vm.Words
use crackme.Vm.Machine
use crackme.Protocol.Session.{Http, Draws}

abbrev frame_text : Bytes → Bytes → Bytes
frame_text payload mac = b64encode (
    serialize (record {
      message_type = 2;
      session_id = replicate 16 9;
      counter = 1;
      nonce = replicate 24 5;
      encrypted_payload = payload;
      auth_tag = replicate 16 0;
      transcript_mac = mac;
    }))

abbrev server : Http
server = record {
  get = λ path. ok (ascii "{ 'k':1, public_key: " ++ (0x22 ∷ replicate 64 b'a' ++ (0x22 ∷ [])));
  post = λ path body.
      if same_bytes path (ascii "/api/v1/hello")
      then ok (frame_text (replicate 112 1) (resize 32 0 bootstrap_mac_label))
      else ok (frame_text (replicate 48 0) (resize 32 0 transcript_seed));
}

abbrev draws : Draws
draws = record {
  x25519_priv = replicate 32 1;
  client_random = replicate 16 2;
  session_id = replicate 16 9;
  hello_nonce = replicate 24 3;
  proof1_nonce = replicate 24 4;
  proof2_nonce = replicate 24 5;
}

abbrev payload : Bytes
payload = resize 48 0 transcript_seed
