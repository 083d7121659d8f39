-- ===== src/Examples/Proofs.antt =====
-- Two first proofs for different names, with a MAC that does not tell them apart.
use crackme.Base.{◌≡◌, ◌≢◌, ◌⊎◌, ◌∷◌, [], refl, arith}
use crackme.Config.{ascii}
use crackme.Sodium.{hmac_sha256}
use crackme.Vm.Program.Vectors.{
  username, license, server_random, session_id, transcript_prefix, expected,
}
use crackme.Challenge.Proofs.{compute_proof1}
use crackme.Challenge.Proofs.Distinct.{IsSized1, SameFields1, proof1_text, compute_proof1_distinct}
use crackme.Examples.Honest.{lawful}

sized : IsSized1 license expected server_random session_id transcript_prefix
sized = record {
  license_size = refl;
  digest_size = refl;
  hash_size = refl;
  path_word = omega arith;
  code_word = omega arith;
  random_size = refl;
  sid_size = refl;
  prefix_size = refl;
}

compute_proof1_distinct_example :
    let x = proof1_text username license expected server_random session_id transcript_prefix in
    let y =
      proof1_text (ascii "player2") license expected server_random session_id transcript_prefix in
    SameFields1 username
      (ascii "player2")
      license
      license
      expected
      expected
      server_random
      server_random
      session_id
      session_id
      transcript_prefix
      transcript_prefix
    ⊎ ((x ≢ y) × (hmac_sha256 lawful (1 ∷ []) x ≡ hmac_sha256 lawful (1 ∷ []) y))
unfolding compute_proof1
compute_proof1_distinct_example =
    compute_proof1_distinct lawful (1 ∷ []) username (ascii "player2") license license expected
      expected server_random server_random session_id session_id transcript_prefix transcript_prefix
      sized sized refl
