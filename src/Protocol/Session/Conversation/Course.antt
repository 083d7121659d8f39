-- ===== src/Protocol/Session/Conversation/Course.antt =====
-- The order of the requests of `run_session` of client/src/net/protocol.cpp, and what it has checked
-- before each of them.
use crackme.Base.{◌≡◌, refl, sym, List, [], ◌∷◌, Bytes, Result, Error, ok, err}
use mathlib.Core.Path.{subst}
use crackme.Sodium.Kdf.{hkdf_extract}
use crackme.Sodium.{Sodium, x25519_base, x25519_shared}
use crackme.Vm.Run.{VmResult}
use crackme.Protocol.Frames.{Keys, derive_keys}
use crackme.Protocol.Response.{parse_pubkey}
use crackme.Protocol.Session.{
  Draws, Hello, Proved, hello_section, session_keys, proof1_section, finalize_section,
}
use crackme.Protocol.Session.Checked.{hello_section_ok, proof1_section_ok}
use crackme.Protocol.Session.Conversation.{
  Request, Talk, conversation, greeting, computing, proving, finalizing, play, done, resume,
}
use crackme.Protocol.Session.Conversation.Log.{
  key_request, own_key, IsChallenged, Course, ends_at_key, ends_at_hello, ends_at_exchange,
  ends_at_finalize, machine, hello_section-t1,
}
use crackme.Protocol.Session.Conversation.Steps.{
  answering, challenge_of, hello_request, exchange_request, finalize_request,
  finalizing-finalize_section, proving-proof1_section, greeting-hello_section,
}

module _ (na : Sodium) (draws : Draws) (username_norm license_struct : Bytes) where
  module _ {S : Type 0} (server : S → Request → Result Bytes × S) where
    -- A call that throws, or that goes on.
    resume-plays :
        {A : Type 0} (P : List (Request × Result Bytes) → Result Bytes → Type 0) (s : S)
        (r : Result A) (k : A → Talk)
        → ((e : Error) → r ≡ err e → P [] (err e))
        → ((a : A) → r ≡ ok a → P (play server s (k a)).0 (play server s (k a)).1)
        → P (play server s (resume r k)).0 (play server s (resume r k)).1
    unfolding resume play
    resume-plays P s (ok a) k thrown returned = returned a refl
    resume-plays P s (err e) k thrown returned = thrown e refl

    resume-done-plays :
        (P : List (Request × Result Bytes) → Result Bytes → Type 0) (s : S) (r : Result Bytes)
        → P [] r
        → let t = resume r λ v. done (ok v) in P (play server s t).0 (play server s t).1
    unfolding resume play
    resume-done-plays P s (ok a) given = given
    resume-done-plays P s (err e) given = given

    finalizing-Course :
        (s : S) (a0 a1 a2 : Result Bytes) (kp_pub : Bytes) (h : Hello) (keys : Keys)
        (vmres : VmResult) (p : Proved)
        → IsChallenged na draws username_norm license_struct a0 a1 kp_pub h keys vmres
        → proof1_section na (answering a2 a2) draws username_norm license_struct h keys vmres ≡ ok p
        → let (log, r) = play server s (
            finalizing na draws username_norm license_struct
              (challenge_of h)
              keys
              vmres
              p.server_challenge2
              p.transcript) in
          Course na draws username_norm license_struct
            ((key_request, a0)
              ∷ (hello_request na draws username_norm license_struct kp_pub, a1)
              ∷ (exchange_request na draws username_norm license_struct h keys vmres, a2)
              ∷ log)
            r
    unfolding play
    finalizing-Course s a0 a1 a2 kp_pub h keys vmres p c proved =
        let (a3, s') =
          server s (finalize_request na draws username_norm license_struct h keys vmres p) in
        rw (finalizing-finalize_section na draws username_norm license_struct h keys vmres p) (
          resume-done-plays
            (λ log r.
              Course na draws username_norm license_struct
                ((key_request, a0)
                  ∷ (hello_request na draws username_norm license_struct kp_pub, a1)
                  ∷ (exchange_request na draws username_norm license_struct h keys vmres, a2)
                  ∷ (finalize_request na draws username_norm license_struct h keys vmres p, a3)
                  ∷ log)
                r)
            s' (finalize_section na (answering a3 a3) draws h keys vmres p)
            (ends_at_finalize a0 a1 a2 a3 kp_pub h keys vmres p c proved (
              proof1_section_ok na (answering a2 a2) draws username_norm license_struct h keys vmres
                p proved)))

    proving-Course :
        (s : S) (a0 a1 : Result Bytes) (kp_pub : Bytes) (h : Hello) (keys : Keys) (vmres : VmResult)
        → IsChallenged na draws username_norm license_struct a0 a1 kp_pub h keys vmres
        → let (log, r) =
            play server s
              (proving na draws username_norm license_struct (challenge_of h) keys vmres) in
          Course na draws username_norm license_struct
            ((key_request, a0)
              ∷ (hello_request na draws username_norm license_struct kp_pub, a1)
              ∷ log)
            r
    unfolding play
    proving-Course s a0 a1 kp_pub h keys vmres c =
        let q2 = exchange_request na draws username_norm license_struct h keys vmres in
        let (a2, s') = server s q2 in
        rw (proving-proof1_section na draws username_norm license_struct h keys vmres) (
          resume-plays
            (λ log r.
              Course na draws username_norm license_struct
                ((key_request, a0)
                  ∷ (hello_request na draws username_norm license_struct kp_pub, a1)
                  ∷ (q2, a2)
                  ∷ log)
                r)
            s' (proof1_section na (answering a2 a2) draws username_norm license_struct h keys vmres)
            _ (λ e failed. ends_at_exchange a0 a1 a2 kp_pub h keys vmres e c failed)
            (λ p proved. finalizing-Course s' a0 a1 a2 kp_pub h keys vmres p c proved))

    computing-Course :
        (s : S) (a0 a1 : Result Bytes) (kp_pub : Bytes) (h : Hello)
        → own_key na draws username_norm license_struct a0 ≡ ok kp_pub
        → x25519_base na draws.x25519_priv ≡ ok kp_pub
        → hello_section na (answering a0 a1) draws username_norm ≡ ok h
        → let (log, r) =
            play server s (computing na draws username_norm license_struct (challenge_of h)) in
          Course na draws username_norm license_struct
            ((key_request, a0)
              ∷ (hello_request na draws username_norm license_struct kp_pub, a1)
              ∷ log)
            r
    unfolding computing session_keys
    computing-Course s a0 a1 kp_pub h own base hello =
        let P : List (Request × Result Bytes) → Result Bytes → Type 0 = λ log r.
          Course na draws username_norm license_struct
            ((key_request, a0)
              ∷ (hello_request na draws username_norm license_struct kp_pub, a1)
              ∷ log)
            r in
        resume-plays P s (x25519_shared na draws.x25519_priv h.server_pub) _
          (λ e failed. ends_at_hello a0 a1 kp_pub e own (rw (hello, failed) refl))
          λ shared agreed.
            resume-plays P s (derive_keys na (hkdf_extract na h.transcript.state shared)) _
              (λ e failed. ends_at_hello a0 a1 kp_pub e own (rw (hello, agreed, failed) refl))
              λ keys derived.
                resume-plays P s (machine na draws username_norm license_struct h) _
                  (λ e failed.
                    ends_at_hello a0 a1 kp_pub e own (rw (hello, agreed, derived, failed) refl))
                  λ vmres ran. proving-Course s a0 a1 kp_pub h keys vmres (record {
                    key = base;
                    hello = hello;
                    own_hello =
                        hello_section-t1 na draws username_norm license_struct a0 a1 kp_pub h base
                          hello;
                    signed = hello_section_ok na (answering a0 a1) draws username_norm h hello;
                    derived = rw (agreed, derived) refl;
                    ran = ran;
                  })

    greeting-Course :
        (s : S) (pk_json server_sign_pk kp_pub : Bytes)
        → parse_pubkey pk_json ≡ ok server_sign_pk
        → x25519_base na draws.x25519_priv ≡ ok kp_pub
        → let (log, r) =
            play server s (greeting na draws username_norm license_struct server_sign_pk kp_pub) in
          Course na draws username_norm license_struct ((key_request, ok pk_json) ∷ log) r
    unfolding play
    greeting-Course s pk_json server_sign_pk kp_pub parsed base =
        let q1 = hello_request na draws username_norm license_struct kp_pub in
        let (a1, s') = server s q1 in
        let own : own_key na draws username_norm license_struct (ok pk_json) ≡ ok kp_pub =
          rw (parsed, base) refl in
        rw
          (greeting-hello_section na draws username_norm license_struct pk_json server_sign_pk
            kp_pub parsed base)
          (resume-plays
            (λ log r.
              Course na draws username_norm license_struct
                ((key_request, ok pk_json) ∷ (q1, a1) ∷ log) r)
            s' (hello_section na (answering (ok pk_json) a1) draws username_norm) _
            (λ e failed. ends_at_hello (ok pk_json) a1 kp_pub e own (rw failed refl))
            (λ h hello. computing-Course s' (ok pk_json) a1 kp_pub h own base hello))

    -- Whatever the server answers, and whatever state it keeps, a session asks for the public key,
    -- says hello, sends the first proof and sends the second, in this order, and its log and its
    -- result are of one of four kinds. It ends behind the key request if that answer, or the making of
    -- the client's key, fails; behind the hello if the challenge, the session keys or the machine's run
    -- fails; behind the first proof if the server's answer to it fails; else behind the second proof,
    -- with the result of the section FINALIZE on the last answer. The first proof goes out only after
    -- a challenge, taken from the answer to the hello, whose signature over this session's hello
    -- verified, made with the keys and the machine's result of that challenge; the second only after
    -- the server's proof, taken from the answer to the first, is the MAC of the transcript, the digest
    -- and the second challenge.
    pub conversation-Course :
        (s : S)
        → let (log, r) = play server s (conversation na draws username_norm license_struct) in
          Course na draws username_norm license_struct log r
    unfolding conversation play
    conversation-Course s =
        let (a0, s1) = server s key_request in
        let P : List (Request × Result Bytes) → Result Bytes → Type 0 =
          λ log r. Course na draws username_norm license_struct ((key_request, a0) ∷ log) r in
        resume-plays P s1 a0 _ (λ e failed. ends_at_key a0 e (rw failed refl))
          λ pk_json answered.
            resume-plays P s1 (parse_pubkey pk_json) _
              (λ e failed. ends_at_key a0 e (rw (answered, failed) refl))
              λ server_sign_pk parsed.
                resume-plays P s1 (x25519_base na draws.x25519_priv) _
                  (λ e failed. ends_at_key a0 e (rw (answered, parsed, failed) refl))
                  λ kp_pub base.
                    let t = greeting na draws username_norm license_struct server_sign_pk kp_pub in
                    subst
                      (λ a.
                        Course na draws username_norm license_struct
                          ((key_request, a) ∷ (play server s1 t).0) (play server s1 t).1)
                      (sym answered) (greeting-Course s1 pk_json server_sign_pk kp_pub parsed base)
