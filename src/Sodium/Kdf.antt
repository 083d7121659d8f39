-- ===== src/Sodium/Kdf.antt =====
-- client/src/crypto/kdf.cpp.
use crackme.Base.{
  ℕ, zero, suc, ◌+◌, ◌*◌, ◌/◌, ◌≤◌, ◌<◌, ◌≡◌, refl, ap, ◌∙◌, sym, [], ◌∷◌, ◌++◌, arith, Bytes, u8,
  ltb, ◌==◌, if◌then◌else◌, length, length-append, append_assoc, append-nil, resize, resize_all,
  replicate, Result, ok, err, out_of_fuel, lt→ltb, le→ltb,
}
use crackme.Buffer.{append}
use crackme.Sodium.{Sodium, hmac_sha256}

unfoldable pub hkdf_extract : Sodium → Bytes → Bytes → Bytes
hkdf_extract na salt ikm =
    let s = if length salt == 0 then replicate 32 0 else salt in hmac_sha256 na s ikm

-- The loop of `hkdf_expand`, on fuel.
expand_loop : Sodium → Bytes → Bytes → ℕ → ℕ → Bytes → Bytes → ℕ → Result Bytes
expand_loop na prk info size zero out t counter =
    if ltb (length out) size then err out_of_fuel else ok (resize size 0 out)
expand_loop na prk info size (suc fuel) out t counter =
    let t' = hmac_sha256 na prk (append t info ++ (counter ∷ [])) in
    let rest = expand_loop na prk info size fuel (append out t') t' (u8 (counter + 1)) in
    if ltb (length out) size then rest else ok (resize size 0 out)

-- Each round adds the 32 bytes of a MAC, so `size` rounds are enough.
unfoldable pub hkdf_expand : Sodium → Bytes → Bytes → ℕ → Result Bytes
unfolding expand_loop
hkdf_expand na prk info size = expand_loop na prk info size size [] [] 1

unfoldable pub hkdf : Sodium → Bytes → Bytes → Bytes → ℕ → Result Bytes
unfolding hkdf_expand
hkdf na salt ikm info size = hkdf_expand na (hkdf_extract na salt ikm) info size

-- T(counter) ++ T(counter + 1) ++ … of RFC 5869, `blocks` of them, behind the block `t`.
unfoldable pub t_blocks : Sodium → Bytes → Bytes → ℕ → Bytes → ℕ → Bytes
t_blocks na prk info zero t counter = []
t_blocks na prk info (suc blocks) t counter =
    let t' = hmac_sha256 na prk (t ++ (info ++ (counter ∷ []))) in
    t' ++ t_blocks na prk info blocks t' (counter + 1)

t_blocks_wrap :
    (na : Sodium) (prk info : Bytes) (blocks : ℕ) (t : Bytes) (counter : ℕ)
    → counter + blocks ≤ 256
    → t_blocks na prk info blocks t (u8 counter) ≡ t_blocks na prk info blocks t counter
unfolding t_blocks
t_blocks_wrap na prk info zero t counter c = refl
t_blocks_wrap na prk info (suc blocks) t counter c =
    let small : u8 counter ≡ counter = omega arith in
    ap (λ (k : ℕ). t_blocks na prk info (suc blocks) t k) small

-- With `blocks` blocks to go, no more than one byte short of the size each, and fuel for them.
expand_loop-t_blocks :
    (na : Sodium) (prk info : Bytes) (size blocks fuel : ℕ) (out t : Bytes) (counter : ℕ)
    → ((key input : Bytes) → length (hmac_sha256 na key input) ≡ 32)
    → blocks ≤ fuel
    → size ≤ length out + 32 * blocks
    → length out + 32 * blocks < size + 32
    → counter + blocks ≤ 256
    → expand_loop na prk info size fuel out t counter
      ≡ ok (resize size 0 (out ++ t_blocks na prk info blocks t counter))
unfolding expand_loop t_blocks
expand_loop-t_blocks na prk info size zero zero out t counter h f lo hi c =
    rw (le→ltb (length out) size (omega arith), append-nil out) refl
expand_loop-t_blocks na prk info size zero (suc fuel) out t counter h f lo hi c =
    rw (le→ltb (length out) size (omega arith), append-nil out) refl
expand_loop-t_blocks na prk info size (suc blocks) zero out t counter h f lo hi c =
    absurd (omega arith)
expand_loop-t_blocks na prk info size (suc blocks) (suc fuel) out t counter h f lo hi c =
    let t' = hmac_sha256 na prk (append t info ++ (counter ∷ [])) in
    let size' : length (out ++ t') ≡ length out + 32 =
      length-append out t' ∙ ap (λ (k : ℕ). length out + k) (h prk _) in
    let input : t ++ (info ++ (counter ∷ [])) ≡ append t info ++ (counter ∷ []) =
      sym (append_assoc t info (counter ∷ [])) in
    rw (lt→ltb (length out) size (omega arith), input)
      (expand_loop-t_blocks na prk info size blocks fuel (append out t') t' (u8 (counter + 1)) h
          (omega arith) (omega arith) (omega arith) (omega arith)
        ∙ ap (λ (b : Bytes). ok (resize size 0 ((out ++ t') ++ b)))
            (t_blocks_wrap na prk info blocks t' (counter + 1) (omega arith))
        ∙ ap (λ (b : Bytes). ok (resize size 0 b)) (append_assoc out t' _))

-- Up to the limit of RFC 5869, 255 blocks of 32 bytes, `hkdf_expand` returns, and its result is the
-- first `size` bytes of T(1) ++ T(2) ++ …, given that a MAC of libsodium has 32 bytes.
pub hkdf_expand-t_blocks :
    (na : Sodium) (prk info : Bytes) (size : ℕ)
    → ((key input : Bytes) → length (hmac_sha256 na key input) ≡ 32)
    → size ≤ 255 * 32
    → hkdf_expand na prk info size
      ≡ ok (resize size 0 (t_blocks na prk info ((size + 31) / 32) [] 1))
unfolding hkdf_expand
hkdf_expand-t_blocks na prk info size h limit =
    expand_loop-t_blocks na prk info size ((size + 31) / 32) size [] [] 1 h (omega arith)
      (omega arith) (omega arith) (omega arith)

-- The one block of a key of 32 bytes.
unfoldable pub subkey : Sodium → Bytes → Bytes → Bytes
subkey na prk info = hmac_sha256 na prk (info ++ (1 ∷ []))

pub hkdf_expand-subkey :
    (na : Sodium) (prk info : Bytes)
    → ((key input : Bytes) → length (hmac_sha256 na key input) ≡ 32)
    → hkdf_expand na prk info 32 ≡ ok (subkey na prk info)
unfolding t_blocks subkey
hkdf_expand-subkey na prk info h =
    hkdf_expand-t_blocks na prk info 32 h (omega arith)
    ∙ ap (λ (b : Bytes). ok (resize 32 0 b)) (append-nil (subkey na prk info))
    ∙ ap ok (resize_all 32 0 (subkey na prk info) (h prk _))
