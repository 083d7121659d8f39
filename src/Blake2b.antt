-- ===== src/Blake2b.antt =====
-- The self-contained BLAKE2b of client/src/crypto/crypto.cpp, the key stream on it and `stream_xor`.
-- `uint8_t buf[128]` is not initialised: `Blake2b.init` takes its first contents.
pub mod Padding
pub mod Flush
pub mod Blocks
pub mod Bounds
pub mod Stream
use crackme.Base.{
  ℕ, zero, suc, ◌+◌, ◌-◌, ◌*◌, ◌/◌, ◌%◌, List, [], ◌∷◌, ◌++◌, Bool, true, false, bit_or, bit_xor,
  Bytes, u8, u64, ◌<<<◌, ◌>>>◌, ltb, ◌==◌, ◌||◌, if◌then◌else◌, ◌≡◌, refl, length, take, set,
  get_or, resize, replicate, Result, ok, err, ◌>>=◌, blake2b_out_len, blake2b_key_too_long,
  out_of_fuel,
}
use crackme.Buffer.{append, be64}

abbrev pub iv : List ℕ
iv =
    0x6a09e667f3bcc908 ∷ 0xbb67ae8584caa73b ∷ 0x3c6ef372fe94f82b ∷ 0xa54ff53a5f1d36f1
    ∷ 0x510e527fade682d1 ∷ 0x9b05688c2b3e6c1f ∷ 0x1f83d9abfb41bd6b ∷ 0x5be0cd19137e2179 ∷ []

abbrev pub sigma : List (List ℕ)
sigma =
    (0 ∷ 1 ∷ 2 ∷ 3 ∷ 4 ∷ 5 ∷ 6 ∷ 7 ∷ 8 ∷ 9 ∷ 10 ∷ 11 ∷ 12 ∷ 13 ∷ 14 ∷ 15 ∷ [])
    ∷ (14 ∷ 10 ∷ 4 ∷ 8 ∷ 9 ∷ 15 ∷ 13 ∷ 6 ∷ 1 ∷ 12 ∷ 0 ∷ 2 ∷ 11 ∷ 7 ∷ 5 ∷ 3 ∷ [])
    ∷ (11 ∷ 8 ∷ 12 ∷ 0 ∷ 5 ∷ 2 ∷ 15 ∷ 13 ∷ 10 ∷ 14 ∷ 3 ∷ 6 ∷ 7 ∷ 1 ∷ 9 ∷ 4 ∷ [])
    ∷ (7 ∷ 9 ∷ 3 ∷ 1 ∷ 13 ∷ 12 ∷ 11 ∷ 14 ∷ 2 ∷ 6 ∷ 5 ∷ 10 ∷ 4 ∷ 0 ∷ 15 ∷ 8 ∷ [])
    ∷ (9 ∷ 0 ∷ 5 ∷ 7 ∷ 2 ∷ 4 ∷ 10 ∷ 15 ∷ 14 ∷ 1 ∷ 11 ∷ 12 ∷ 6 ∷ 8 ∷ 3 ∷ 13 ∷ [])
    ∷ (2 ∷ 12 ∷ 6 ∷ 10 ∷ 0 ∷ 11 ∷ 8 ∷ 3 ∷ 4 ∷ 13 ∷ 7 ∷ 5 ∷ 15 ∷ 14 ∷ 1 ∷ 9 ∷ [])
    ∷ (12 ∷ 5 ∷ 1 ∷ 15 ∷ 14 ∷ 13 ∷ 4 ∷ 10 ∷ 0 ∷ 7 ∷ 6 ∷ 3 ∷ 9 ∷ 2 ∷ 8 ∷ 11 ∷ [])
    ∷ (13 ∷ 11 ∷ 7 ∷ 14 ∷ 12 ∷ 1 ∷ 3 ∷ 9 ∷ 5 ∷ 0 ∷ 15 ∷ 4 ∷ 8 ∷ 6 ∷ 2 ∷ 10 ∷ [])
    ∷ (6 ∷ 15 ∷ 14 ∷ 9 ∷ 11 ∷ 3 ∷ 0 ∷ 8 ∷ 12 ∷ 2 ∷ 13 ∷ 7 ∷ 1 ∷ 4 ∷ 10 ∷ 5 ∷ [])
    ∷ (10 ∷ 2 ∷ 8 ∷ 4 ∷ 7 ∷ 6 ∷ 1 ∷ 5 ∷ 15 ∷ 11 ∷ 9 ∷ 14 ∷ 3 ∷ 12 ∷ 13 ∷ 0 ∷ [])
    ∷ (0 ∷ 1 ∷ 2 ∷ 3 ∷ 4 ∷ 5 ∷ 6 ∷ 7 ∷ 8 ∷ 9 ∷ 10 ∷ 11 ∷ 12 ∷ 13 ∷ 14 ∷ 15 ∷ [])
    ∷ (14 ∷ 10 ∷ 4 ∷ 8 ∷ 9 ∷ 15 ∷ 13 ∷ 6 ∷ 1 ∷ 12 ∷ 0 ∷ 2 ∷ 11 ∷ 7 ∷ 5 ∷ 3 ∷ [])
    ∷ []

unfoldable pub rotr64 : ℕ → ℕ → ℕ
rotr64 x n = bit_or (x >>> n) (u64 (x <<< (64 - n)))

pub record Blake2b : Type 0 where
  pub h : List ℕ
  pub t0 : ℕ
  pub t1 : ℕ
  pub buf : Bytes
  pub buflen : ℕ
  pub outlen : ℕ

-- `w = (w << 8) | block[i * 8 + b]` for b = 7, …, 0; `left` is `b + 1`.
load_word : Bytes → ℕ → ℕ → ℕ → ℕ
load_word block i zero w = w
load_word block i (suc left) w =
    load_word block i left (bit_or (u64 (w <<< 8)) (get_or block (i * 8 + left) 0))

load_words : Bytes → ℕ → ℕ → List ℕ
load_words block zero i = []
load_words block (suc left) i = load_word block i 8 0 ∷ load_words block left (i + 1)

-- The lambda `G`, on the local array `v`.
g_mix : List ℕ → ℕ → ℕ → ℕ → ℕ → ℕ → ℕ → List ℕ
g_mix v0 a b c d x y =
    let v1 = set v0 a (u64 (get_or v0 a 0 + get_or v0 b 0 + x)) in
    let v2 = set v1 d (rotr64 (bit_xor (get_or v1 d 0) (get_or v1 a 0)) 32) in
    let v3 = set v2 c (u64 (get_or v2 c 0 + get_or v2 d 0)) in
    let v4 = set v3 b (rotr64 (bit_xor (get_or v3 b 0) (get_or v3 c 0)) 24) in
    let v5 = set v4 a (u64 (get_or v4 a 0 + get_or v4 b 0 + y)) in
    let v6 = set v5 d (rotr64 (bit_xor (get_or v5 d 0) (get_or v5 a 0)) 16) in
    let v7 = set v6 c (u64 (get_or v6 c 0 + get_or v6 d 0)) in
    set v7 b (rotr64 (bit_xor (get_or v7 b 0) (get_or v7 c 0)) 63)

round : List ℕ → List ℕ → List ℕ → List ℕ
unfolding g_mix
round m s v0 =
    let w = λ (i : ℕ). get_or m (get_or s i 0) 0 in
    let v1 = g_mix v0 0 4 8 12 (w 0) (w 1) in
    let v2 = g_mix v1 1 5 9 13 (w 2) (w 3) in
    let v3 = g_mix v2 2 6 10 14 (w 4) (w 5) in
    let v4 = g_mix v3 3 7 11 15 (w 6) (w 7) in
    let v5 = g_mix v4 0 5 10 15 (w 8) (w 9) in
    let v6 = g_mix v5 1 6 11 12 (w 10) (w 11) in
    let v7 = g_mix v6 2 7 8 13 (w 12) (w 13) in g_mix v7 3 4 9 14 (w 14) (w 15)

-- The twelve rounds take the rows of `kSigma` in order.
rounds : List ℕ → List (List ℕ) → List ℕ → List ℕ
rounds m [] v = v
rounds m (s ∷ rows) v = rounds m rows (round m s v)

-- `h[i] ^= v[i] ^ v[8 + i]`
fold_halves : List ℕ → List ℕ → ℕ → List ℕ
fold_halves [] v i = []
fold_halves (x ∷ h) v i =
    bit_xor x (bit_xor (get_or v i 0) (get_or v (8 + i) 0)) ∷ fold_halves h v (i + 1)

-- The body of `compress`: what becomes of `h`, by the counter `t` and one block.
unfoldable pub compress_words : List ℕ → ℕ → ℕ → Bytes → Bool → List ℕ
unfolding rotr64 load_word load_words round rounds fold_halves
compress_words h t0 t1 block last =
    let v0 = h ++ iv in
    let v1 = set v0 12 (bit_xor (get_or v0 12 0) t0) in
    let v2 = set v1 13 (bit_xor (get_or v1 13 0) t1) in
    let v3 = if last then set v2 14 (bit_xor (get_or v2 14 0) 0xFFFFFFFFFFFFFFFF) else v2 in
    let m = load_words block 16 0 in fold_halves h (rounds m sigma v3) 0

unfoldable pub compress : Blake2b → Bytes → Bool → Blake2b
compress st block last = record st { h = compress_words st.h st.t0 st.t1 block last }

unfoldable pub inc : Blake2b → ℕ → Blake2b
inc st n =
    let t0' = u64 (st.t0 + n) in
    record st { t0 = t0'; t1 = if ltb t0' n then u64 (st.t1 + 1) else st.t1 }

unfoldable pub init : Bytes → ℕ → ℕ → Blake2b
init first_buf out keylen = record {
  h = set iv 0 (bit_xor (get_or iv 0 0) (bit_xor (bit_xor 0x01010000 (u64 (keylen <<< 8))) out));
  t0 = 0;
  t1 = 0;
  buf = first_buf;
  buflen = 0;
  outlen = out;
}

-- A full buffer is compressed only when another byte comes.
flush : Blake2b → Blake2b
flush st =
    let st1 = inc st 128 in
    let st2 = compress st1 st1.buf false in
    if st.buflen == 128 then record st2 { buflen = 0 } else st

pub put_byte : Blake2b → ℕ → Blake2b
put_byte st x = record st { buf = set st.buf st.buflen x; buflen = st.buflen + 1 }

unfoldable pub update : Blake2b → Bytes → Blake2b
unfolding flush put_byte
update st [] = st
update st (x ∷ input) = update (put_byte (flush st) x) input

-- `while (buflen < 128) buf[buflen++] = 0`, with `left` rounds at most.
pad : ℕ → Blake2b → Blake2b
pad zero st = st
pad (suc left) st = let rest = pad left (put_byte st 0) in if ltb st.buflen 128 then rest else st

-- `out[i] = h[i / 8] >> (8 * (i % 8))`
pub output : List ℕ → ℕ → ℕ → Bytes
output h zero i = []
output h (suc left) i = u8 (get_or h (i / 8) 0 >>> (8 * (i % 8))) ∷ output h left (i + 1)

unfoldable pub final : Blake2b → Bytes
unfolding pad put_byte output
final st =
    let st1 = pad 128 (inc st st.buflen) in
    let st2 = compress st1 st1.buf true in output st2.h st2.outlen 0

-- The digest from a buffer with the given first contents.
unfoldable pub blake2b_from : Bytes → Bytes → Bytes → ℕ → Result Bytes
blake2b_from first_buf input key out_len =
    let st0 = init first_buf out_len (length key) in
    let st1 = if length key == 0 then st0 else update st0 (resize 128 0 key) in
    if ltb out_len 1 || ltb 64 out_len
    then err blake2b_out_len
    else if ltb 64 (length key)
    then err blake2b_key_too_long
    else ok (final (update st1 input))

unfoldable pub blake2b : Bytes → Bytes → ℕ → Result Bytes
blake2b input key out_len = blake2b_from (replicate 128 0) input key out_len

-- `while (out.size() < length)`: each round adds the 64 bytes of one digest; `fuel` bounds the
-- rounds, and `length + 1` of them are more than enough (Blake2b/Stream).
keystream_loop : ℕ → Bytes → ℕ → Bytes → ℕ → Bytes → Result Bytes
keystream_loop zero key len domain counter out = err out_of_fuel
keystream_loop (suc fuel) key len domain counter out =
    let next = do
      digest ← blake2b (append domain (be64 counter)) key 64
      keystream_loop fuel key len domain (u64 (counter + 1)) (append out digest)
    in if ltb (length out) len then next else ok out

unfoldable pub blake2b_ctr_keystream : Bytes → ℕ → Bytes → Result Bytes
unfolding keystream_loop
blake2b_ctr_keystream key len domain = do
  out ← keystream_loop (len + 1) key len domain 0 []
  ok (resize len 0 out)

-- `out[i] = data[i] ^ ks[i]`
unfoldable pub xor_bytes : Bytes → Bytes → Bytes
xor_bytes [] ks = []
xor_bytes (x ∷ input) [] = bit_xor x 0 ∷ xor_bytes input []
xor_bytes (x ∷ input) (k ∷ ks) = bit_xor x k ∷ xor_bytes input ks

unfoldable pub stream_xor : Bytes → Bytes → Bytes → Result Bytes
unfolding blake2b_ctr_keystream xor_bytes
stream_xor key input domain = do
  ks ← blake2b_ctr_keystream key (length input) domain
  ok (xor_bytes input ks)
