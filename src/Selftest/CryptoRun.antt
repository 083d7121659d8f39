-- ===== src/Selftest/CryptoRun.antt =====
-- `main` of client/tests/selftest_crypto.cpp. It compares the program's own BLAKE2b, key stream,
-- stream cipher and base64 with vectors, and libsodium through the program's wrappers.
use crackme.Base.{
  ℕ, ◌≡◌, ◌↔◌, ◌++◌, refl, sym, ap, ◌∙◌, List, [], ◌∷◌, Bool, true, Bytes, same_bytes, length, ◌-◌,
  take-append-drop, ◌==◌, if◌then◌else◌, Option, some, none, Result, ok, ◌>>=◌, ◌>>◌, or_throw,
  arith, Error, >>=-eq-ok,
}
use std.Path.{ap₂}
use crackme.Buffer.{str_bytes, cat, be64}
use crackme.Config.{ascii}
use crackme.Blake2b.{
  blake2b, blake2b_from, init, update, final, compress, compress_words, inc, blake2b_ctr_keystream,
  stream_xor,
}
use crackme.Codec.Base64.{b64encode, b64decode}
use crackme.Codec.Base64.RoundTrip.{b64decode-b64encode}
use crackme.Vm.Words
use crackme.Sodium
use crackme.Sodium.{
  Sodium, sha256, hmac_sha256, x25519_base, x25519_shared, ed25519_verify, aead_encrypt,
  aead_decrypt,
}
use crackme.Sodium.Kdf.{hkdf}
use crackme.Selftest.{Report, Call, compares, holds, run_checks, conclude, begun}
use crackme.Selftest.Calls.{Passes, AllPass, run_checks-AllPass, AllPass-run_checks}
use crackme.Selftest.Vectors.{
  k_key32, k_salt32, k_ikm32, k_msg, k_domain, k_info, k_sha256_t0, k_sha256_msg, k_blake_unkeyed32,
  k_blake_keyed4, k_blake_keyed64, k_hmac, k_hkdf48, k_keystream80, k_stream_xor, k_priv_a,
  k_priv_b, k_pub_b, k_shared, k_aead_key, k_aead_nonce, k_aead_aad, k_aead_plain, k_aead_ct,
  k_aead_tag, k_ed_pk, k_ed_msg, k_ed_sig,
}

abbrev pub seed : Bytes
seed = str_bytes (ascii "RG6-TRANSCRIPT/v6")

unfoldable pub crypto_calls : Sodium → List Call
crypto_calls na =
    let (ct, tag) = aead_encrypt na k_aead_key k_aead_nonce k_aead_plain k_aead_aad in
    compares (ascii "sha256(TRANSCRIPT_SEED)") (ok (sha256 na seed)) k_sha256_t0
    ∷ compares (ascii "sha256(msg)") (ok (sha256 na k_msg)) k_sha256_msg
    ∷ compares (ascii "blake2b unkeyed/32") (blake2b k_msg [] 32) k_blake_unkeyed32
    ∷ compares (ascii "blake2b keyed/4") (blake2b k_msg k_key32 4) k_blake_keyed4
    ∷ compares (ascii "blake2b keyed/64") (blake2b k_msg k_key32 64) k_blake_keyed64
    ∷ compares (ascii "hmac-sha256") (ok (hmac_sha256 na k_key32 k_msg)) k_hmac
    ∷ compares (ascii "hkdf 48") (hkdf na k_salt32 k_ikm32 k_info 48) k_hkdf48
    ∷ compares (ascii "blake2b-ctr keystream 80") (blake2b_ctr_keystream k_key32 80 k_domain)
        k_keystream80
    ∷ compares (ascii "stream_xor") (stream_xor k_key32 k_msg k_domain) k_stream_xor
    ∷ compares (ascii "x25519 base(privB)") (x25519_base na k_priv_b) k_pub_b
    ∷ compares (ascii "x25519 shared(privA,pubB)") (x25519_shared na k_priv_a k_pub_b) k_shared
    ∷ compares (ascii "aead ciphertext") (ok ct) k_aead_ct
    ∷ compares (ascii "aead tag") (ok tag) k_aead_tag
    ∷ compares (ascii "aead decrypt")
        (aead_decrypt na k_aead_key k_aead_nonce k_aead_ct k_aead_tag k_aead_aad) k_aead_plain
    ∷ holds (ascii "ed25519 verify") (ed25519_verify na k_ed_pk k_ed_msg k_ed_sig)
    ∷ holds (ascii "base64 encode")
        (same_bytes (b64encode (str_bytes (ascii "RankGate!"))) (ascii "UmFua0dhdGUh"))
    ∷ compares (ascii "base64 decode") (b64decode (ascii "UmFua0dhdGUh"))
        (str_bytes (ascii "RankGate!"))
    ∷ []

abbrev pub title : Bytes
title = ascii "RankGate crypto self-test (byte-parity vs Python server)"

-- `init()` throws if `sodium_init` fails.
unfoldable pub crypto_main : Sodium → Bool → Result (Report × ℕ)
crypto_main na sodium_ready = do
  Sodium.init sodium_ready
  r ← run_checks (crypto_calls na) (begun title)
  ok (conclude r)

-- libsodium, and the program's HKDF over it, give the vectors.
pub record Agrees (na : Sodium) : Type 0 where
  pub hash_of_seed : na.crypto_hash_sha256 seed ≡ k_sha256_t0
  pub hash_of_msg : na.crypto_hash_sha256 k_msg ≡ k_sha256_msg
  pub mac : na.crypto_auth_hmacsha256 k_key32 k_msg ≡ k_hmac
  pub derived : hkdf na k_salt32 k_ikm32 k_info 48 ≡ ok k_hkdf48
  pub base : na.crypto_scalarmult_base k_priv_b ≡ some k_pub_b
  pub shared : na.crypto_scalarmult k_priv_a k_pub_b ≡ some k_shared
  pub sealed :
      na.aead_encrypt_combined k_aead_plain k_aead_aad k_aead_nonce k_aead_key
      ≡ k_aead_ct ++ k_aead_tag
  pub opened :
      na.aead_decrypt_combined (k_aead_ct ++ k_aead_tag) k_aead_aad k_aead_nonce k_aead_key
      ≡ some k_aead_plain
  pub verified : na.crypto_sign_verify_detached k_ed_sig k_ed_msg k_ed_pk ≡ true

-- The program's own primitives against their vectors.
blake2b_vectors :
    (blake2b k_msg [] 32 ≡ ok k_blake_unkeyed32)
    × (blake2b k_msg k_key32 4 ≡ ok k_blake_keyed4)
    × (blake2b k_msg k_key32 64 ≡ ok k_blake_keyed64)
    × (blake2b_ctr_keystream k_key32 80 k_domain ≡ ok k_keystream80)
    × (stream_xor k_key32 k_msg k_domain ≡ ok k_stream_xor)
unfolding blake2b blake2b_from init update final compress compress_words inc blake2b_ctr_keystream
    stream_xor cat be64 Words.rotr64
blake2b_vectors = (refl, refl, refl, refl, refl)

base64_vectors :
    (same_bytes (b64encode (str_bytes (ascii "RankGate!"))) (ascii "UmFua0dhdGUh") ≡ true)
    × (b64decode (ascii "UmFua0dhdGUh") ≡ ok (str_bytes (ascii "RankGate!")))
unfolding b64encode same_bytes
base64_vectors = (refl, b64decode-b64encode (str_bytes (ascii "RankGate!")) (omega arith))

thrown-some : (x : Bytes) (e : Error) (o : Option Bytes) → or_throw e o ≡ ok x → o ≡ some x
thrown-some x e none h = cc h
thrown-some x e (some y) h = let same : y ≡ x = cc h in ap some same

ok_same : (x y : Bytes) → ◌≡◌ {A = Result Bytes} (ok x) (ok y) → x ≡ y
ok_same x y h = cc h

AllPass-Agrees : (na : Sodium) → AllPass (crypto_calls na) → Agrees na
unfolding AllPass Passes crypto_calls aead_encrypt aead_decrypt x25519_base x25519_shared
    ed25519_verify
AllPass-Agrees na h =
    let combined = na.aead_encrypt_combined k_aead_plain k_aead_aad k_aead_nonce k_aead_key in
    let (
      p0,
      (p1, (_, (_, (_, (p5, (p6, (_, (_, (p9, (p10, (p11, (p12, (p13, (p14, _)))))))))))))),
    ) =
      h in
    record {
      hash_of_seed = ok_same _ _ p0;
      hash_of_msg = ok_same _ _ p1;
      mac = ok_same _ _ p5;
      derived = p6;
      base = thrown-some _ _ _ p9;
      shared = thrown-some _ _ _ p10;
      sealed =
          sym (take-append-drop (length combined - 16) combined)
          ∙ ap₂ (λ (x y : Bytes). x ++ y) (ok_same _ _ p11) (ok_same _ _ p12);
      opened = thrown-some _ _ _ p13;
      verified = p14;
    }

Agrees-AllPass : (na : Sodium) → Agrees na → AllPass (crypto_calls na)
unfolding AllPass Passes crypto_calls aead_encrypt aead_decrypt x25519_base x25519_shared
    ed25519_verify
Agrees-AllPass na a =
    let (b0, b1, b2, ks, xored) = blake2b_vectors in
    let (encoded, decoded) = base64_vectors in
    let sealed = a.sealed in
    (
      ap ok a.hash_of_seed,
      (
        ap ok a.hash_of_msg,
        (
          b0,
          (
            b1,
            (
              b2,
              (
                ap ok a.mac,
                (
                  a.derived,
                  (
                    ks,
                    (
                      xored,
                      (
                        rw a.base refl,
                        (
                          rw a.shared refl,
                          (
                            rw sealed refl,
                            (
                              rw sealed refl,
                              (rw a.opened refl, (a.verified, (encoded, (decoded, tt)))),
                            ),
                          ),
                        ),
                      ),
                    ),
                  ),
                ),
              ),
            ),
          ),
        ),
      ),
    )

status_zero :
    (r' r : Report) → ◌≡◌ {A = Result (Report × ℕ)} (ok (conclude r')) (ok (r, 0)) → r'.failures ≡ 0
unfolding conclude
status_zero r' r e =
    let same : conclude r' ≡ (r, 0) = cc e in
    let status : ◌≡◌ {A = ℕ} (if r'.failures == 0 then 0 else 1) 0 =
      ap (λ (x : Report × ℕ). x.1) same in
    ground arith

-- The self-test reports success exactly if libsodium, and the program's HKDF over it, give the
-- vectors: the program's own BLAKE2b, key stream, stream cipher and base64 pass theirs on every run.
pub crypto_main-Agrees :
    (na : Sodium) → ((r : Report) × (crypto_main na true ≡ ok (r, 0))) ↔ Agrees na
unfolding crypto_main
crypto_main-Agrees na = (
  λ (r, e). AllPass-Agrees na (
      let (r', ran, q) = >>=-eq-ok (run_checks (crypto_calls na) _) _ e in
      AllPass-run_checks (crypto_calls na) _ r' ran (status_zero r' r q)),
  λ a.
      let (r', ran, none_failed) =
        run_checks-AllPass (crypto_calls na) (begun title) (Agrees-AllPass na a) in
      ((conclude r').0, rw ran (unfold conclude in rw none_failed refl)),
)
