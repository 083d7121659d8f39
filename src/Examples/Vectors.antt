-- ===== src/Examples/Vectors.antt =====
-- The self-test of client/tests/selftest_crypto.cpp on a table that answers as libsodium does.
use crackme.Base.{
  ◌≡◌, refl, true, ok, some, [], ◌∷◌, ◌++◌, ◌==◌, Bytes, same_bytes, length, if◌then◌else◌,
}
use crackme.Sodium.{Sodium}
use crackme.Sodium.Kdf.{hkdf}
use crackme.Selftest.{Report}
use crackme.Selftest.CryptoRun.{seed, crypto_main, Agrees, crypto_main-Agrees}
use crackme.Selftest.Vectors.{
  k_msg, k_ikm32, k_sha256_t0, k_sha256_msg, k_hmac, k_pub_b, k_shared, k_aead_plain, k_aead_ct,
  k_aead_tag,
}

-- The pseudorandom key and the two blocks of the HKDF vector.
abbrev prk : Bytes
prk =
    0xa1 ∷ 0xe3 ∷ 0x21 ∷ 0xdb ∷ 0x29 ∷ 0xee ∷ 0x91 ∷ 0x66 ∷ 0xbd ∷ 0x4a ∷ 0xb6 ∷ 0x30 ∷ 0x29 ∷ 0x5c
    ∷ 0x8d ∷ 0x2f ∷ 0x6e ∷ 0x44 ∷ 0x3d ∷ 0xfa ∷ 0xc1 ∷ 0xcd ∷ 0xbc ∷ 0xb1 ∷ 0xaa ∷ 0x6c ∷ 0x59
    ∷ 0x2a ∷ 0xbe ∷ 0xc6 ∷ 0x95 ∷ 0x58 ∷ []

abbrev t1 : Bytes
t1 =
    0x18 ∷ 0x9c ∷ 0x7f ∷ 0xf4 ∷ 0x38 ∷ 0x7b ∷ 0x56 ∷ 0x52 ∷ 0xcd ∷ 0x24 ∷ 0xd0 ∷ 0x14 ∷ 0xf0 ∷ 0x9d
    ∷ 0xa0 ∷ 0x0d ∷ 0x73 ∷ 0x36 ∷ 0xb9 ∷ 0x9b ∷ 0x10 ∷ 0xfb ∷ 0xec ∷ 0x2f ∷ 0x1c ∷ 0x3c ∷ 0x60
    ∷ 0xfb ∷ 0x7d ∷ 0xbd ∷ 0x5c ∷ 0x08 ∷ []

abbrev t2 : Bytes
t2 =
    0xf8 ∷ 0x45 ∷ 0x1e ∷ 0x12 ∷ 0xab ∷ 0x33 ∷ 0xcf ∷ 0xe2 ∷ 0x1c ∷ 0xa5 ∷ 0xc2 ∷ 0xc4 ∷ 0xc2 ∷ 0xe3
    ∷ 0x7a ∷ 0x77 ∷ 0x58 ∷ 0x23 ∷ 0x5d ∷ 0x96 ∷ 0x22 ∷ 0xac ∷ 0xe9 ∷ 0x53 ∷ 0x7a ∷ 0xef ∷ 0x99
    ∷ 0x9e ∷ 0x8d ∷ 0xd8 ∷ 0x5b ∷ 0x17 ∷ []

abbrev table : Sodium
table = record {
  crypto_hash_sha256 = λ m. if same_bytes m seed then k_sha256_t0 else k_sha256_msg;
  crypto_auth_hmacsha256 = λ key m.
      if same_bytes m k_msg
      then k_hmac
      else if same_bytes m k_ikm32
      then prk
      else if length m == 13
      then t1
      else t2;
  crypto_scalarmult_base = λ priv. some k_pub_b;
  crypto_scalarmult = λ priv peer. some k_shared;
  crypto_sign_verify_detached = λ sig m pk. true;
  aead_encrypt_combined = λ plaintext aad nonce key. k_aead_ct ++ k_aead_tag;
  aead_decrypt_combined = λ combined aad nonce key. some k_aead_plain;
}

table-Agrees : Agrees table
unfolding hkdf same_bytes
table-Agrees = record {
  hash_of_seed = refl;
  hash_of_msg = refl;
  mac = refl;
  derived = refl;
  base = refl;
  shared = refl;
  sealed = refl;
  opened = refl;
  verified = refl;
}

table_passes : (r : Report) × (crypto_main table true ≡ ok (r, 0))
table_passes = (crypto_main-Agrees table).1 table-Agrees
