-- ===== src/Challenge/Transcript.antt =====
-- client/src/challenge/transcript.hpp and transcript.cpp.
pub mod Sync
use crackme.Base.{ℕ, [], Bytes, not, Result, ok, err, ◌>>=◌, ◌>>◌, guard, transcript_mac_mismatch}
use crackme.Buffer.{append, str_bytes}
use crackme.Config.{transcript_seed}
use crackme.Sodium.{Sodium, sha256, hmac_sha256, ct_equal}
use crackme.Frame.{Frame, pre_mac, serialize}

pub record Transcript : Type 0 where
  pub state : Bytes

unfoldable pub initial : Sodium → Transcript
initial na = record { state = sha256 na (str_bytes transcript_seed) }

unfoldable pub mac_for : Sodium → Transcript → Bytes → Bytes → Bytes
mac_for na t mac_key frame_pre_mac = hmac_sha256 na mac_key (append t.state frame_pre_mac)

unfoldable pub absorb : Sodium → Transcript → Bytes → Transcript
absorb na t full_frame = record { state = sha256 na (append t.state full_frame) }

-- `f` before its MAC is set, which `pre_mac` does not read.
unsealed : ℕ → Bytes → ℕ → Bytes → Bytes → Bytes → Frame
unsealed mt sid counter nonce encrypted_payload auth_tag = record {
  message_type = mt;
  session_id = sid;
  counter = counter;
  nonce = nonce;
  encrypted_payload = encrypted_payload;
  auth_tag = auth_tag;
  transcript_mac = [];
}

unfoldable pub seal_frame :
    Sodium → Transcript → Bytes → ℕ → Bytes → ℕ → Bytes → Bytes → Bytes → Frame × Transcript
unfolding unsealed
seal_frame na t mac_key mt sid counter nonce encrypted_payload auth_tag =
    let f = unsealed mt sid counter nonce encrypted_payload auth_tag in
    let sealed = record f { transcript_mac = mac_for na t mac_key (pre_mac f) } in
    (sealed, absorb na t (serialize sealed))

unfoldable pub open_frame : Sodium → Transcript → Bytes → Frame → Result Transcript
open_frame na t mac_key frame = do
  let expected = mac_for na t mac_key (pre_mac frame)
  guard (ct_equal expected frame.transcript_mac) transcript_mac_mismatch
  ok (absorb na t (serialize frame))
