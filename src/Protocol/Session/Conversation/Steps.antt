-- ===== src/Protocol/Session/Conversation/Steps.antt =====
-- The process of Protocol/Session/Conversation and the sections of Protocol/Session: what each of the
-- two does with an answer.
use crackme.Base.{◌≡◌, refl, Bool, true, false, Error, guard, ap, Bytes, Result, ok, err, ◌>>=◌}
use std.Path.{fun_ext}
use crackme.Config.{ascii, sz_nonce, seal_info}
use crackme.Buffer.{slice, str_bytes}
use crackme.Sodium.Kdf.{hkdf}
use crackme.Sodium.{Sodium, x25519_base}
use crackme.Frame.{parse}
use crackme.Vm.Run.{VmResult}
use crackme.Protocol.Frames.{Keys, aead_open, plain_open, bootstrap_mac_key}
use crackme.Protocol.Frames.Wire.{body}
use crackme.Protocol.Response.{parse_pubkey, decode_response}
use crackme.Protocol.Session.{
  Http, Draws, Hello, Proved, check_challenge, hello_section, proof1_section, finalize_section,
  hello_payload, signed_data, p1_payload, sp1_in,
}
use crackme.Protocol.Session.Sections.{first_proof}
use crackme.Protocol.Session.Final.{second_proof}
use crackme.Protocol.Session.Honest.{client_hello}
use crackme.Protocol.Session.Conversation.{
  Request, Talk, Challenged, resume, finalizing, proving, computing, greeting, asks, done,
  post_request,
}

-- A server that gives one answer to the key request and one to what is posted.
abbrev pub answering : Result Bytes → Result Bytes → Http
answering got posted = record { get = λ path. got; post = λ path body. posted }

abbrev pub challenge_of : Hello → Challenged
challenge_of h = record {
  server_pub = h.server_pub;
  server_random = h.server_random;
  transcript = h.transcript;
}

-- A call in the process and the same call in a section.
resume-then :
    {A B : Type 0} (r : Result A) (k : A → Talk) (k' : A → Result B) (f : B → Talk)
    → ((a : A) → k a ≡ resume (k' a) f)
    → resume r k ≡ resume (r >>= k') f
unfolding resume
resume-then (ok a) k k' f same = same a
resume-then (err e) k k' f same = refl

guard-resume :
    {B : Type 0} (b : Bool) (e : Error) (v : B) (f : B → Talk)
    → resume (guard b e) (λ passed. f v) ≡ resume (guard b e >>= λ passed. ok v) f
unfolding resume
guard-resume true e v f = refl
guard-resume false e v f = refl

resume-done : (r : Result Bytes) → done r ≡ resume r (λ v. done (ok v))
unfolding resume
resume-done (ok a) = refl
resume-done (err e) = refl

asks_same :
    (q : Request) (k k' : Result Bytes → Talk)
    → ((a : Result Bytes) → k a ≡ k' a)
    → asks q k ≡ asks q k'
asks_same q k k' same = ap (asks q) (fun_ext same)

module _ (na : Sodium) (draws : Draws) (username_norm license_struct : Bytes) where
  unfoldable pub hello_request : (kp_pub : Bytes) → Request
  hello_request kp_pub =
      post_request (ascii "/api/v1/hello") (body (client_hello na draws username_norm kp_pub).0)

  unfoldable pub exchange_request : Hello → Keys → VmResult → Request
  exchange_request h keys vmres =
      post_request (ascii "/api/v1/exchange")
        (body (first_proof na draws username_norm license_struct h keys vmres).0)

  unfoldable pub finalize_request : Hello → Keys → VmResult → Proved → Request
  finalize_request h keys vmres p =
      post_request (ascii "/api/v1/finalize") (body (second_proof na draws h keys vmres p).0)

  pub finalizing-finalize_section :
      (h : Hello) (keys : Keys) (vmres : VmResult) (p : Proved)
      → finalizing na draws username_norm license_struct
          (challenge_of h)
          keys
          vmres
          p.server_challenge2
          p.transcript
        ≡ asks (finalize_request h keys vmres p) λ a3.
          resume (finalize_section na (answering a3 a3) draws h keys vmres p) λ v. done (ok v)
  unfolding finalizing finalize_section finalize_request second_proof
  finalizing-finalize_section h keys vmres p = asks_same _ _ _ λ a3. resume-then a3 _ _ _ λ resp.
      resume-then (decode_response resp) _ _ _ λ raw. resume-then (parse raw) _ _ _ λ sealed.
        resume-then (aead_open na _ keys.mac keys.s2c sealed) _ _ _ λ (inner_blob, t).
          resume-then _ _ _ _ λ passed.
            resume-then (slice inner_blob 0 sz_nonce) _ _ _ λ seal_nonce.
              resume-then (slice inner_blob _ _) _ _ _ λ inner_ct.
                resume-then (slice inner_blob _ _) _ _ _ λ inner_tag.
                  resume-then (hkdf na _ keys.seal (str_bytes seal_info) 32) _ _ _
                    λ k_seal. resume-done _

  pub proving-proof1_section :
      (h : Hello) (keys : Keys) (vmres : VmResult)
      → proving na draws username_norm license_struct (challenge_of h) keys vmres
        ≡ asks (exchange_request h keys vmres) λ a2.
          resume
            (proof1_section na (answering a2 a2) draws username_norm license_struct h keys vmres)
            λ p.
              finalizing na draws username_norm license_struct
                (challenge_of h)
                keys
                vmres
                p.server_challenge2
                p.transcript
  unfolding proving proof1_section exchange_request first_proof p1_payload sp1_in
  proving-proof1_section h keys vmres = asks_same _ _ _ λ a2. resume-then a2 _ _ _ λ resp.
      resume-then (decode_response resp) _ _ _ λ raw. resume-then (parse raw) _ _ _ λ sp.
        resume-then (aead_open na _ keys.mac keys.s2c sp) _ _ _ λ (sp_payload, t4).
          resume-then _ _ _ _ λ passed. resume-then (slice sp_payload 0 32) _ _ _ λ server_proof1.
            resume-then (slice sp_payload 32 16) _ _ _ λ server_challenge2. guard-resume _ _ _ _

  pub greeting-hello_section :
      (pk_json server_sign_pk kp_pub : Bytes)
      → parse_pubkey pk_json ≡ ok server_sign_pk
      → x25519_base na draws.x25519_priv ≡ ok kp_pub
      → greeting na draws username_norm license_struct server_sign_pk kp_pub
        ≡ asks (hello_request kp_pub) λ a1.
          resume
            (hello_section na (answering (ok pk_json) a1) draws username_norm)
            λ h. computing na draws username_norm license_struct (challenge_of h)
  unfolding greeting hello_section hello_request client_hello hello_payload signed_data
      check_challenge
  greeting-hello_section pk_json server_sign_pk kp_pub parsed base =
      rw (parsed, base)
        (asks_same _ _ _ λ a1. resume-then a1 _ _ _ λ resp.
          resume-then (decode_response resp) _ _ _ λ raw. resume-then (parse raw) _ _ _ λ chal.
            resume-then (plain_open na _ (bootstrap_mac_key na) chal) _ _ _ λ (chal_payload, t2).
              resume-then _ _ _ _ λ passed.
                resume-then (slice chal_payload 0 32) _ _ _ λ server_pub.
                  resume-then (slice chal_payload 32 16) _ _ _ λ server_random.
                    resume-then (slice chal_payload 48 64) _ _ _ λ signature. guard-resume _ _ _ _)
