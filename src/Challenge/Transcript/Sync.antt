-- ===== src/Challenge/Transcript/Sync.antt =====
-- `Transcript::seal_frame` and `open_frame` of client/src/challenge/transcript.cpp keep the two ends
-- of a connection in step.
use crackme.Base.{
  ℕ, ◌^◌, ◌≤◌, ◌<◌, ◌≡◌, refl, ap, ◌∙◌, Bytes, IsU64, length, same_bytes_self, Result, ok, ◌>>=◌,
}
use crackme.Sodium.{Sodium, hmac_sha256}
use crackme.Frame.{Frame, header, pre_mac, serialize, parse}
use crackme.Frame.RoundTrip.{IsFrame, parse-serialize}
use crackme.Challenge.Transcript.{Transcript, mac_for, seal_frame, open_frame}

-- The receiver of a sealed frame that is in the state of the sender accepts it, and the two are in
-- the same state again.
pub open_frame-seal_frame :
    (na : Sodium) (t : Transcript) (mac_key : Bytes) (mt : ℕ) (sid : Bytes) (counter : ℕ)
    → (nonce encrypted_payload auth_tag : Bytes)
    → let (f, t') = seal_frame na t mac_key mt sid counter nonce encrypted_payload auth_tag in
      open_frame na t mac_key f ≡ ok t'
unfolding open_frame seal_frame pre_mac header
open_frame-seal_frame na t mac_key mt sid counter nonce encrypted_payload auth_tag =
    rw (same_bytes_self (mac_for na t mac_key _)) refl

-- Over the wire: a sealed frame whose fields have the sizes of the format is parsed and accepted by a
-- receiver in the sender's state, which is then in the sender's new state; a MAC has 32 bytes.
pub open_frame-parse :
    (na : Sodium) (t : Transcript) (mac_key : Bytes) (mt : ℕ) (sid : Bytes) (counter : ℕ)
    → (nonce encrypted_payload auth_tag : Bytes)
    → ((key input : Bytes) → length (hmac_sha256 na key input) ≡ 32)
    → mt < 256
    → length sid ≡ 16
    → IsU64 counter
    → length nonce ≡ 24
    → length encrypted_payload ≤ 2 ^ 20
    → length auth_tag ≡ 16
    → let (f, t') = seal_frame na t mac_key mt sid counter nonce encrypted_payload auth_tag in
      (parse (serialize f) >>= λ g. open_frame na t mac_key g) ≡ ok t'
open_frame-parse na t mac_key mt sid counter nonce encrypted_payload auth_tag h ht hs hc hn hp ha =
    let (f, t') = seal_frame na t mac_key mt sid counter nonce encrypted_payload auth_tag in
    let sized : IsFrame f =
      unfold seal_frame mac_for in
      record {
        type_byte = ht;
        sid_size = hs;
        counter_word = hc;
        nonce_size = hn;
        payload_size = hp;
        tag_size = ha;
        mac_size = h mac_key _;
      } in
    ap (λ (r : Result Frame). r >>= λ g. open_frame na t mac_key g) (parse-serialize f sized)
    ∙ open_frame-seal_frame na t mac_key mt sid counter nonce encrypted_payload auth_tag
