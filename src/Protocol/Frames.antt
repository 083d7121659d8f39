-- ===== src/Protocol/Frames.antt =====
-- The session keys and the frame helpers of client/src/net/protocol.cpp. A nonce that the source
-- draws with `random_bytes` is an argument.
pub mod Wire
pub mod Sealed
use crackme.Base.{ℕ, [], Bytes, length, replicate, Result, ok, ◌>>=◌}
use crackme.Buffer.{str_bytes}
use crackme.Config.{
  bootstrap_mac_label, hkdf_c2s, hkdf_s2c, hkdf_mac, hkdf_proof1, hkdf_sproof1, hkdf_proof2,
  hkdf_seal, sz_authtag,
}
use crackme.Sodium.{Sodium, sha256, aead_encrypt, aead_decrypt}
use crackme.Sodium.Kdf.{hkdf_expand}
use crackme.Frame.{Frame, header}
use crackme.Challenge.Transcript.{Transcript, seal_frame, open_frame}

pub record Keys : Type 0 where
  pub c2s : Bytes
  pub s2c : Bytes
  pub mac : Bytes
  pub proof1 : Bytes
  pub sproof1 : Bytes
  pub proof2 : Bytes
  pub seal : Bytes

unfoldable pub derive_keys : Sodium → Bytes → Result Keys
derive_keys na prk = do
  c2s ← hkdf_expand na prk (str_bytes hkdf_c2s) 32
  s2c ← hkdf_expand na prk (str_bytes hkdf_s2c) 32
  mac ← hkdf_expand na prk (str_bytes hkdf_mac) 32
  proof1 ← hkdf_expand na prk (str_bytes hkdf_proof1) 32
  sproof1 ← hkdf_expand na prk (str_bytes hkdf_sproof1) 32
  proof2 ← hkdf_expand na prk (str_bytes hkdf_proof2) 32
  seal ← hkdf_expand na prk (str_bytes hkdf_seal) 32
  ok (record {
    c2s = c2s;
    s2c = s2c;
    mac = mac;
    proof1 = proof1;
    sproof1 = sproof1;
    proof2 = proof2;
    seal = seal;
  })

abbrev pub bootstrap_mac_key : Sodium → Bytes
bootstrap_mac_key na = sha256 na (str_bytes bootstrap_mac_label)

unfoldable pub plain_seal :
    Sodium → Transcript → Bytes → ℕ → Bytes → ℕ → Bytes → Bytes → Frame × Transcript
plain_seal na t mac_key mt sid counter payload nonce =
    seal_frame na t mac_key mt sid counter nonce payload (replicate sz_authtag 0)

unfoldable pub plain_open : Sodium → Transcript → Bytes → Frame → Result (Bytes × Transcript)
plain_open na t mac_key f = do t' ← open_frame na t mac_key f; ok (f.encrypted_payload, t')

-- The header that is authenticated: its payload has the size of the plaintext. `header` does not
-- read the tag and the MAC, which are empty here.
unfoldable pub aead_header : ℕ → Bytes → ℕ → Bytes → Bytes → Frame
aead_header mt sid counter nonce plaintext = record {
  message_type = mt;
  session_id = sid;
  counter = counter;
  nonce = nonce;
  encrypted_payload = replicate (length plaintext) 0;
  auth_tag = [];
  transcript_mac = [];
}

unfoldable pub aead_seal :
    Sodium → Transcript → Bytes → Bytes → ℕ → Bytes → ℕ → Bytes → Bytes → Frame × Transcript
aead_seal na t mac_key aead_key mt sid counter plaintext nonce =
    let hdr = aead_header mt sid counter nonce plaintext in
    let (ct, tag) = aead_encrypt na aead_key nonce plaintext (header hdr) in
    seal_frame na t mac_key mt sid counter nonce ct tag

unfoldable pub aead_open : Sodium → Transcript → Bytes → Bytes → Frame → Result (Bytes × Transcript)
aead_open na t mac_key aead_key f = do
  t' ← open_frame na t mac_key f
  plaintext ← aead_decrypt na aead_key f.nonce f.encrypted_payload f.auth_tag (header f)
  ok (plaintext, t')
