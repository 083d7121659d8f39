-- ===== src/Vm/Run/Permutation.antt =====
-- `handler_permutation` of client/src/vm/vm.cpp is a permutation of the 256 dispatch slots.
use mathlib.Core.Path.{subst}
use crackme.Base.{
  ℕ, zero, suc, ◌+◌, ◌*◌, ◌<◌, ◌≡◌, refl, sym, ap, ◌∙◌, List, [], ◌∷◌, inl, inr, arith, Bytes, ◌==◌,
  ==_iff, Bool-cases, if◌then◌else◌, length, get_or, set, length-set, get_or-set_self,
  get_or-set_ne, ok,
}
use crackme.Buffer.{cat, str_bytes}
use crackme.Config.{vm_perm_label, vm_perm_ks_domain}
use crackme.Blake2b.Bounds.{blake2b_total, blake2b_digest}
use crackme.Blake2b.Stream.{blake2b_ctr_keystream_total}
use crackme.Vm.Run.{iota, swap, shuffle, handler_permutation}

-- The slots of the 256 opcodes lie in range, and no two opcodes share one.
pub record IsPermutation (perm : List ℕ) : Type 0 where
  pub size : length perm ≡ 256
  pub in_range : (op : ℕ) → op < 256 → get_or perm op 0 < 256
  pub distinct : (a b : ℕ) → a < 256 → b < 256 → get_or perm a 0 ≡ get_or perm b 0 → a ≡ b

length-iota : (n i : ℕ) → length (iota n i) ≡ n
unfolding iota
length-iota zero i = refl
length-iota (suc n) i = ap suc (length-iota n (i + 1))

get_or-iota : (n i k : ℕ) → k < n → get_or (iota n i) k 0 ≡ i + k
unfolding iota
get_or-iota zero i k h = absurd (omega arith)
get_or-iota (suc n) i zero h = omega arith
get_or-iota (suc n) i (suc k) h = omega (arith, get_or-iota n (i + 1) k (omega arith))

pub iota-IsPermutation : IsPermutation (iota 256 0)
iota-IsPermutation = record {
  size = length-iota 256 0;
  in_range = λ op h. omega (arith, get_or-iota 256 0 op h);
  distinct = λ a b ha hb e. omega (arith, get_or-iota 256 0 a ha, get_or-iota 256 0 b hb);
}

-- Where slot `k` of the swapped table comes from.
abbrev exchanged : ℕ → ℕ → ℕ → ℕ
exchanged i j k = if k == j then i else if k == i then j else k

get_or-swap :
    (perm : List ℕ) (i j k : ℕ)
    → i < length perm
    → j < length perm
    → get_or (swap perm i j) k 0 ≡ get_or perm (exchanged i j k) 0
unfolding swap
get_or-swap perm i j k hi hj =
    let once = set perm i (get_or perm j 0) in
    let same_size : length once ≡ length perm = length-set perm i (get_or perm j 0) in
    elim (Bool-cases (k == j)) [
      | inl at_j ↦
          let e : j ≡ k = sym ((==_iff k j).0 at_j) in
          rw at_j (
            subst (λ t. get_or (set once j (get_or perm i 0)) t 0 ≡ get_or perm i 0) e
              (get_or-set_self once j (get_or perm i 0) 0 (omega arith)))
      | inr not_j ↦
          rw (not_j, get_or-set_ne once j k (get_or perm i 0) 0 (ground arith))
            (elim (Bool-cases (k == i)) [
              | inl at_i ↦
                  let e : i ≡ k = sym ((==_iff k i).0 at_i) in
                  rw at_i (
                    subst (λ t. get_or once t 0 ≡ get_or perm j 0) e
                      (get_or-set_self perm i (get_or perm j 0) 0 hi))
              | inr not_i ↦
                  rw (not_i, get_or-set_ne perm i k (get_or perm j 0) 0 (ground arith)) refl
            ])
    ]

exchanged-lt : (i j k : ℕ) → i < 256 → j < 256 → k < 256 → exchanged i j k < 256
exchanged-lt i j k hi hj hk = ground arith

exchanged_distinct : (i j a b : ℕ) → exchanged i j a ≡ exchanged i j b → a ≡ b
exchanged_distinct i j a b e = ground arith

swap-IsPermutation :
    (perm : List ℕ) (i j : ℕ)
    → i < 256
    → j < 256
    → IsPermutation perm
    → IsPermutation (swap perm i j)
swap-IsPermutation perm i j hi hj p =
    let moved : (k : ℕ) → get_or (swap perm i j) k 0 ≡ get_or perm (exchanged i j k) 0 =
      λ k. get_or-swap perm i j k (omega (arith, p.size)) (omega (arith, p.size)) in
    record {
      size = unfold swap in length-set _ j _ ∙ length-set perm i _ ∙ p.size;
      in_range = λ op h. rw (moved op) (p.in_range _ (exchanged-lt i j op hi hj h));
      distinct = λ a b ha hb e. exchanged_distinct i j a b (
          p.distinct _ _ (exchanged-lt i j a hi hj ha) (exchanged-lt i j b hi hj hb)
            (sym (moved a) ∙ e ∙ moved b));
    }

shuffle-IsPermutation :
    (ks : Bytes) (n : ℕ) (perm : List ℕ)
    → n < 256
    → IsPermutation perm
    → IsPermutation (shuffle ks n perm)
unfolding shuffle
shuffle-IsPermutation ks zero perm h p = p
shuffle-IsPermutation ks (suc n) perm h p =
    shuffle-IsPermutation ks n _ (omega arith)
      (swap-IsPermutation perm (n + 1) _ (omega arith) (omega arith) p)

-- For every session nonce there is a handler permutation, and it is a bijection of the 256 slots.
pub handler_permutation-IsPermutation :
    (session_nonce : Bytes)
    → (perm : List ℕ) × (handler_permutation session_nonce ≡ ok perm) × IsPermutation perm
unfolding handler_permutation
handler_permutation-IsPermutation session_nonce =
    let message = cat (str_bytes vm_perm_label ∷ session_nonce ∷ []) in
    let (seed, made) = blake2b_total message [] 32 (omega arith) (omega arith) (omega arith) in
    let (_, _, _, size, _) = blake2b_digest message [] 32 seed made in
    let (ks, drawn, _, _) =
      blake2b_ctr_keystream_total seed (256 * 2) (str_bytes vm_perm_ks_domain) (omega arith) in
    (
      shuffle ks 255 (iota 256 0),
      rw made (rw drawn refl),
      shuffle-IsPermutation ks 255 (iota 256 0) (omega arith) iota-IsPermutation,
    )
