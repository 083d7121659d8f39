-- ===== src/Protocol/Session/Server.antt =====
-- The server that `run_session` of client/src/net/protocol.cpp is written for: the frames that it
-- sends back, in the state of the transcript that it shares with the client. It is no code of the
-- client; the theorems of Protocol/Session/Sections and Honest compare the client against it.
use crackme.Base.{◌++◌, ◌≤◌, ◌+◌, ◌^◌, ◌≡◌, Bytes, IsBytes, length}
use crackme.Buffer.{str_bytes}
use crackme.Config.{
  hkdf_c2s, hkdf_s2c, hkdf_mac, hkdf_proof1, hkdf_sproof1, hkdf_proof2, hkdf_seal, seal_info,
}
use crackme.Sodium.{Sodium, hmac_sha256, aead_encrypt}
use crackme.Sodium.Kdf.{hkdf_extract, subkey}
use crackme.Frame.{Frame}
use crackme.Challenge.Transcript.{Transcript}
use crackme.Protocol.Frames.{Keys, bootstrap_mac_key}
use crackme.Protocol.Frames.Wire.{Envelope, IsEnvelope}
use crackme.Protocol.Frames.Sealed.{plain_reply, aead_reply}
use crackme.Protocol.Session.{sp1_in}

-- The keys of a session.
unfoldable pub keys_of : Sodium → Bytes → Keys
keys_of na prk = record {
  c2s = subkey na prk (str_bytes hkdf_c2s);
  s2c = subkey na prk (str_bytes hkdf_s2c);
  mac = subkey na prk (str_bytes hkdf_mac);
  proof1 = subkey na prk (str_bytes hkdf_proof1);
  sproof1 = subkey na prk (str_bytes hkdf_sproof1);
  proof2 = subkey na prk (str_bytes hkdf_proof2);
  seal = subkey na prk (str_bytes hkdf_seal);
}

-- What the server draws and knows.
pub record Server : Type 0 where
  pub server_pub : Bytes
  pub server_random : Bytes
  pub signature : Bytes
  pub challenge2 : Bytes
  pub seal_nonce : Bytes
  pub flag : Bytes
  pub hello_envelope : Envelope
  pub proof1_envelope : Envelope
  pub final_envelope : Envelope

-- The fields have the sizes that the client reads.
pub record IsServer (s : Server) : Type 0 where
  pub pub_size : length s.server_pub ≡ 32
  pub random_size : length s.server_random ≡ 16
  pub signature_size : length s.signature ≡ 64
  pub challenge2_size : length s.challenge2 ≡ 16
  pub seal_nonce_size : length s.seal_nonce ≡ 24
  pub flag_size : length s.flag + 40 ≤ 2 ^ 20
  pub pub_bytes : IsBytes s.server_pub
  pub random_bytes : IsBytes s.server_random
  pub signature_bytes : IsBytes s.signature
  pub challenge2_bytes : IsBytes s.challenge2
  pub seal_nonce_bytes : IsBytes s.seal_nonce
  pub flag_bytes : IsBytes s.flag
  pub hello_sized : IsEnvelope s.hello_envelope
  pub proof1_sized : IsEnvelope s.proof1_envelope
  pub final_sized : IsEnvelope s.final_envelope

-- The answer to the hello.
unfoldable pub challenge : Sodium → Server → Transcript → Frame × Transcript
challenge na s t =
    plain_reply na t (bootstrap_mac_key na) s.hello_envelope
      (s.server_pub ++ (s.server_random ++ s.signature))

-- The answer to the first proof: that the server, too, has run the machine.
unfoldable pub server_proof1 : Sodium → Server → Keys → Bytes → Transcript → Bytes
server_proof1 na s keys vm_digest t =
    hmac_sha256 na keys.sproof1 (sp1_in t.state vm_digest s.challenge2)

unfoldable pub proof1_reply : Sodium → Server → Keys → Bytes → Transcript → Frame × Transcript
proof1_reply na s keys vm_digest t =
    aead_reply na t keys.mac keys.s2c s.proof1_envelope
      (server_proof1 na s keys vm_digest t ++ s.challenge2)

-- The answer to the second proof: the flag, sealed once more under a key of its own.
unfoldable pub seal_key : Sodium → Keys → Transcript → Bytes
seal_key na keys t = subkey na (hkdf_extract na t.state keys.seal) (str_bytes seal_info)

unfoldable pub sealed_flag : Sodium → Server → Keys → Transcript → Bytes
sealed_flag na s keys t =
    let (ct, tag) = aead_encrypt na (seal_key na keys t) s.seal_nonce s.flag t.state in
    s.seal_nonce ++ (ct ++ tag)

unfoldable pub final_reply : Sodium → Server → Keys → Transcript → Frame × Transcript
final_reply na s keys t =
    aead_reply na t keys.mac keys.s2c s.final_envelope (sealed_flag na s keys t)
