-- ===== src/Challenge/Proofs/Distinct.antt =====
-- What the proofs of client/src/challenge/proof_builder.cpp commit to: each field of the MAC's input.
use mathlib.Core.Bool.{true≢false}
use crackme.Base.{
  ◌≢◌, ◌⊎◌, inl, inr, Bool-cases, same_bytes, same_bytes→eq, same_bytes_self, ℕ, ◌≡◌, refl, sym, ap,
  ◌∙◌, [], ◌++◌, arith, Bytes, IsU32, u16, length, length-append, take, drop, take-append,
  drop-append,
}
use crackme.Config.{proof1_label}
use crackme.Buffer.{str_bytes, be16, be32, rd_be32}
use crackme.Buffer.Endian.{rd_be32-be32, length-be32, length-be16}
use crackme.Sodium.{Sodium, hmac_sha256}
use crackme.Vm.Run.{VmResult}
use crackme.Challenge.Proofs.{compute_proof1}

-- Equal sums with a last part of the same size have equal parts.
last_parts :
    (xs ys us vs : Bytes) → length us ≡ length vs → xs ++ us ≡ ys ++ vs → (xs ≡ ys) × (us ≡ vs)
last_parts xs ys us vs size e =
    let whole : length (xs ++ us) ≡ length (ys ++ vs) = ap length e in
    let first : length xs ≡ length ys =
      omega (arith, whole, size, length-append xs us, length-append ys vs) in
    (
      sym (take-append (length ys) xs us first)
          ∙ ap (take (length ys)) e
          ∙ take-append (length ys) ys vs refl,
      sym (drop-append (length ys) xs us first)
          ∙ ap (drop (length ys)) e
          ∙ drop-append (length ys) ys vs refl,
    )

be32_same : (a b : ℕ) → IsU32 a → IsU32 b → be32 a ≡ be32 b → a ≡ b
be32_same a b ha hb e =
    sym (rd_be32-be32 a [] ha) ∙ ap (λ (xs : Bytes). rd_be32 (xs ++ [])) e ∙ rd_be32-be32 b [] hb

same_size : (a b : ℕ) → length (be32 a) ≡ length (be32 b)
same_size a b = length-be32 a ∙ sym (length-be32 b)

-- The name is the one field without a size of its own.
name_size :
    (u u' label : Bytes)
    → label ++ be16 (u16 (length u)) ++ u ≡ label ++ be16 (u16 (length u')) ++ u'
    → length u ≡ length u'
name_size u u' label e =
    let whole : length (label ++ be16 (u16 (length u)) ++ u)
        ≡ length (label ++ be16 (u16 (length u')) ++ u') =
      ap length e in
    omega (
      arith,
      whole,
      length-append (label ++ be16 (u16 (length u))) u,
      length-append (label ++ be16 (u16 (length u'))) u',
      length-append label (be16 (u16 (length u))),
      length-append label (be16 (u16 (length u'))),
      length-be16 (u16 (length u)),
      length-be16 (u16 (length u')),
    )

-- The fields of the first proof, with the sizes that the program gives them.
pub record IsSized1 (license_struct : Bytes) (vm : VmResult)
    (server_random session_id prefix : Bytes) : Type 0 where
  pub license_size : length license_struct ≡ 25
  pub digest_size : length vm.vm_digest ≡ 32
  pub hash_size : length vm.vm_state_hash ≡ 32
  pub path_word : IsU32 vm.vm_path_id
  pub code_word : IsU32 vm.vm_halt_code
  pub random_size : length server_random ≡ 16
  pub sid_size : length session_id ≡ 16
  pub prefix_size : length prefix ≡ 32

-- The text that the first proof stands for.
pub proof1_text : Bytes → Bytes → VmResult → Bytes → Bytes → Bytes → Bytes
proof1_text u l vm r i t =
    str_bytes proof1_label
    ++ be16 (u16 (length u))
    ++ u
    ++ l
    ++ vm.vm_digest
    ++ vm.vm_state_hash
    ++ be32 vm.vm_path_id
    ++ be32 vm.vm_halt_code
    ++ r
    ++ i
    ++ t

-- The two texts spell the same name, license, machine's result, random bytes, session id and
-- transcript.
pub record SameFields1 (u u' l l' : Bytes) (vm vm' : VmResult) (r r' i i' t t' : Bytes)
    : Type 0 where
  pub name : u ≡ u'
  pub license : l ≡ l'
  pub digest : vm.vm_digest ≡ vm'.vm_digest
  pub state_hash : vm.vm_state_hash ≡ vm'.vm_state_hash
  pub path : vm.vm_path_id ≡ vm'.vm_path_id
  pub halt_code : vm.vm_halt_code ≡ vm'.vm_halt_code
  pub random : r ≡ r'
  pub session : i ≡ i'
  pub transcript : t ≡ t'

proof1_text_fields :
    (u u' l l' : Bytes) (vm vm' : VmResult) (r r' i i' t t' : Bytes)
    → IsSized1 l vm r i t
    → IsSized1 l' vm' r' i' t'
    → proof1_text u l vm r i t ≡ proof1_text u' l' vm' r' i' t'
    → SameFields1 u u' l l' vm vm' r r' i i' t t'
unfolding proof1_text
proof1_text_fields u u' l l' vm vm' r r' i i' t t' s s' e =
    let (e9, et) = last_parts _ _ t t' (omega (arith, s.prefix_size, s'.prefix_size)) e in
    let (e8, ei) = last_parts _ _ i i' (omega (arith, s.sid_size, s'.sid_size)) e9 in
    let (e7, er) = last_parts _ _ r r' (omega (arith, s.random_size, s'.random_size)) e8 in
    let (e6, ec) =
      last_parts _ _ (be32 vm.vm_halt_code) (be32 vm'.vm_halt_code) (same_size _ _) e7 in
    let (e5, ep) = last_parts _ _ (be32 vm.vm_path_id) (be32 vm'.vm_path_id) (same_size _ _) e6 in
    let (e4, eh) =
      last_parts _ _ vm.vm_state_hash vm'.vm_state_hash (omega (arith, s.hash_size, s'.hash_size))
        e5 in
    let (e3, ed) =
      last_parts _ _ vm.vm_digest vm'.vm_digest (omega (arith, s.digest_size, s'.digest_size)) e4 in
    let (e2, el) = last_parts _ _ l l' (omega (arith, s.license_size, s'.license_size)) e3 in
    let (_, eu) = last_parts _ _ u u' (name_size u u' (str_bytes proof1_label) e2) e2 in
    record {
      name = eu;
      license = el;
      digest = ed;
      state_hash = eh;
      path = be32_same _ _ s.path_word s'.path_word ep;
      halt_code = be32_same _ _ s.code_word s'.code_word ec;
      random = er;
      session = ei;
      transcript = et;
    }

-- If two first proofs under one key agree, then every field agrees (the name, the license, the four
-- results of the machine, the server's random bytes, the session id and the transcript), or the two
-- texts differ and are a collision of HMAC under that key. The fields have the program's sizes; of the
-- MAC nothing is assumed.
pub compute_proof1_distinct :
    (na : Sodium) (key : Bytes) (u u' l l' : Bytes) (vm vm' : VmResult) (r r' i i' t t' : Bytes)
    → IsSized1 l vm r i t
    → IsSized1 l' vm' r' i' t'
    → compute_proof1 na key u l vm r i t ≡ compute_proof1 na key u' l' vm' r' i' t'
    → SameFields1 u u' l l' vm vm' r r' i i' t t'
      ⊎ ((proof1_text u l vm r i t ≢ proof1_text u' l' vm' r' i' t')
          × (hmac_sha256 na key (proof1_text u l vm r i t)
              ≡ hmac_sha256 na key (proof1_text u' l' vm' r' i' t')))
unfolding compute_proof1
compute_proof1_distinct na key u u' l l' vm vm' r r' i i' t t' s s' e =
    let x = proof1_text u l vm r i t in
    let y = proof1_text u' l' vm' r' i' t' in
    elim (Bool-cases (same_bytes x y)) [
      | inl same ↦
          inl (proof1_text_fields u u' l l' vm vm' r r' i i' t t' s s' (same_bytes→eq x y same))
      | inr other ↦ inr (
        λ q. true≢false (sym (same_bytes_self y) ∙ ap (λ z. same_bytes z y) (sym q) ∙ other),
        unfold proof1_text in e,
      )
    ]
