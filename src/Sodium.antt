-- ===== src/Sodium.antt =====
-- The wrappers of client/src/crypto/crypto.cpp around libsodium. The functions of libsodium are the
-- parameter `Sodium` of everything that calls them.
pub mod Kdf
use crackme.Base.{
  or_throw, ℕ, ◌≡◌, ◌-◌, Bool, false, Bytes, ◌==◌, ◌||◌, not, same_bytes, if◌then◌else◌, length,
  take, drop, Option, none, some, Result, ok, err, x25519_base_failed, x25519_shared_failed,
  aead_authentication_failed, ◌>>=◌, guard, libsodium_init_failed,
}
use crackme.Buffer.{append}

-- The calls of libsodium; `none` is a status other than 0. The AEAD ciphertext carries its tag in
-- its last 16 bytes.
pub record Sodium : Type 0 where
  pub crypto_hash_sha256 : Bytes → Bytes
  pub crypto_auth_hmacsha256 : Bytes → Bytes → Bytes
  pub crypto_scalarmult_base : Bytes → Option Bytes
  pub crypto_scalarmult : Bytes → Bytes → Option Bytes
  pub crypto_sign_verify_detached : Bytes → Bytes → Bytes → Bool
  pub aead_encrypt_combined : Bytes → Bytes → Bytes → Bytes → Bytes
  pub aead_decrypt_combined : Bytes → Bytes → Bytes → Bytes → Option Bytes

-- With what `sodium_init` answers.
abbrev pub init : Bool → Result (Unit {0})
init ready = guard ready libsodium_init_failed

abbrev pub sha256 : Sodium → Bytes → Bytes
sha256 na input = na.crypto_hash_sha256 input

abbrev pub hmac_sha256 : Sodium → Bytes → Bytes → Bytes
hmac_sha256 na key input = na.crypto_auth_hmacsha256 key input

unfoldable pub x25519_base : Sodium → Bytes → Result Bytes
x25519_base na priv = or_throw x25519_base_failed (na.crypto_scalarmult_base priv)

unfoldable pub x25519_shared : Sodium → Bytes → Bytes → Result Bytes
x25519_shared na priv peer_pub = or_throw x25519_shared_failed (na.crypto_scalarmult priv peer_pub)

unfoldable pub ed25519_verify : Sodium → Bytes → Bytes → Bytes → Bool
ed25519_verify na verify_pub msg sig =
    if not (length verify_pub == 32) || not (length sig == 64)
    then false
    else na.crypto_sign_verify_detached sig msg verify_pub

-- The ciphertext and the tag.
unfoldable pub aead_encrypt : Sodium → Bytes → Bytes → Bytes → Bytes → Bytes × Bytes
aead_encrypt na key nonce plaintext aad =
    let combined = na.aead_encrypt_combined plaintext aad nonce key in
    (take (length combined - 16) combined, drop (length combined - 16) combined)

unfoldable pub aead_decrypt : Sodium → Bytes → Bytes → Bytes → Bytes → Bytes → Result Bytes
aead_decrypt na key nonce ciphertext tag aad =
    or_throw aead_authentication_failed
      (na.aead_decrypt_combined (append ciphertext tag) aad nonce key)

-- Two empty buffers are equal before `sodium_memcmp` is asked, which compares as `same_bytes` does.
abbrev pub ct_equal : Bytes → Bytes → Bool
ct_equal a b = same_bytes a b
