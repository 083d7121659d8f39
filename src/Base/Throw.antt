-- ===== src/Base/Throw.antt =====
-- Exceptions as values. Every `throw std::runtime_error("...")` of the client is one error here,
-- named after its text.
use mathlib.Core.Path.{◌≡◌, refl}
use mathlib.Core.Bool.{Bool, true, false}
use mathlib.Core.Option.{Option, none, some}

pub data Error : Type 0 where
  slice_out_of_range : Error
  blake2b_out_len blake2b_key_too_long : Error
  base64_invalid_character : Error
  frame_too_short frame_truncated frame_bad_magic frame_bad_version : Error
  frame_payload_too_large frame_trailing_bytes : Error
  transcript_mac_mismatch : Error
  license_bad_block_length license_bad_base32_char license_bad_layout : Error
  license_bad_decoded_length license_bad_version : Error
  username_length_out_of_range non_printable_username_char : Error
  vm_ip_out_of_range vm_u16_oob vm_u64_oob vm_register_index_oob : Error
  vm_bad_cond vm_ret_underflow : Error
  x25519_base_failed x25519_shared_failed aead_authentication_failed : Error
  empty_server_response server_rejected : Error
  public_key_missing_field public_key_malformed public_key_bad_hex : Error
  public_key_bad_hex_digit : Error
  server_challenge_too_short server_challenge_signature_invalid : Error
  bad_server_proof1_length server_proof1_invalid sealed_blob_too_short : Error
  win_http_open_failed win_http_connect_failed win_http_open_request_failed : Error
  win_http_send_request_failed win_http_receive_response_failed : Error
  win_http_query_failed win_http_read_failed : Error
  stoi_invalid_argument stoi_out_of_range : Error
  libsodium_init_failed : Error
  missing_value unknown_argument : Error
  -- No error of the client: a loop of the model ran out of rounds. The theorems rule it out.
  out_of_fuel : Error

-- What a call gives: the error it throws, or its value.
pub data Result {ℓ} (T : Type ℓ) : Type ℓ where
  err : Error → Result T
  ok : T → Result T

-- `if (!test) throw thrown;`
abbrev pub guard : (test : Bool) → (thrown : Error) → Result (Unit {0})
guard false thrown = err thrown
guard true thrown = ok tt

-- The statements behind a call run on its value.
infixl 5 ◌>>=◌ ◌>>◌
abbrev pub ◌>>=◌ {ℓ κ} : {S : Type ℓ} {T : Type κ} → Result S → (S → Result T) → Result T
err thrown >>= next = err thrown
ok value >>= next = next value

abbrev pub ◌>>◌ {ℓ} : {T : Type ℓ} → Result (Unit {0}) → Result T → Result T
first >> second = first >>= λ done. second

-- Where a value came from: the call returned, and the rest ran on what it returned.
pub >>=-eq-ok {ℓ κ} :
    {S : Type ℓ} {T : Type κ} (call : Result S) (next : S → Result T) {out : T}
    → (call >>= next) ≡ ok out
    → (value : S) × (call ≡ ok value) × (next value ≡ ok out)
>>=-eq-ok (err thrown) next e = cc
>>=-eq-ok (ok value) next e = (value, refl, e)

-- Passing a guard.
pub guard-then {ℓ} :
    {B : Type ℓ} (b : Bool) (e : Error) (k : Unit {0} → Result B) {v : B}
    → (guard b e >>= k) ≡ ok v
    → (b ≡ true) × (k tt ≡ ok v)
guard-then true e k h = (refl, h)
guard-then false e k h = cc

-- A call that reports failure without throwing, followed by a throw.
abbrev pub or_throw {ℓ} : {T : Type ℓ} → Error → Option T → Result T
or_throw thrown none = err thrown
or_throw thrown (some value) = ok value
