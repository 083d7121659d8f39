-- ===== src/Buffer.antt =====
-- client/src/common.hpp: the byte buffer and the big-endian conversions. A pointer argument is the
-- list of the bytes from it on; the callers see to it that enough bytes are there, and a read
-- behind the end, which C++ leaves undefined, gives 0 here.
pub mod Endian
pub mod Slice
use crackme.Base.{
  ℕ, zero, suc, ◌+◌, ◌-◌, ◌*◌, List, [], ◌∷◌, ◌++◌, bit_or, Bytes, u8, u16, u32, u64, ◌<<<◌, ◌>>>◌,
  ltb, if◌then◌else◌, length, take, drop, get_or, Result, ok, err, slice_out_of_range,
}

-- Both overloads of `append`: the pointer one is given the bytes `p[0..n)`.
abbrev pub append : Bytes → Bytes → Bytes
append dst src = dst ++ src

append_all : Bytes → List Bytes → Bytes
append_all out [] = out
append_all out (part ∷ parts) = append_all (append out part) parts

-- The sum of the sizes only reserves room.
unfoldable pub cat : List Bytes → Bytes
unfolding append_all
cat parts = append_all [] parts

-- A `std::string` is the list of its bytes already.
abbrev pub str_bytes : Bytes → Bytes
str_bytes s = s

unfoldable pub be16 : ℕ → Bytes
be16 v = u8 (v >>> 8) ∷ u8 v ∷ []

unfoldable pub be32 : ℕ → Bytes
be32 v = u8 (v >>> 24) ∷ u8 (v >>> 16) ∷ u8 (v >>> 8) ∷ u8 v ∷ []

-- `out[i]` for the `left` indices from `i` on.
be64_loop : ℕ → ℕ → ℕ → Bytes
be64_loop zero i v = []
be64_loop (suc left) i v = u8 (v >>> (56 - 8 * i)) ∷ be64_loop left (i + 1) v

unfoldable pub be64 : ℕ → Bytes
unfolding be64_loop
be64 v = be64_loop 8 0 v

unfoldable pub rd_be16 : Bytes → ℕ
rd_be16 p = u16 (bit_or (get_or p 0 0 <<< 8) (get_or p 1 0))

unfoldable pub rd_be32 : Bytes → ℕ
rd_be32 p =
    bit_or
      (bit_or (bit_or (u32 (get_or p 0 0 <<< 24)) (u32 (get_or p 1 0 <<< 16)))
        (u32 (get_or p 2 0 <<< 8)))
      (get_or p 3 0)

rd_be64_loop : ℕ → ℕ → ℕ → Bytes → ℕ
rd_be64_loop zero i v p = v
rd_be64_loop (suc left) i v p = rd_be64_loop left (i + 1) (bit_or (u64 (v <<< 8)) (get_or p i 0)) p

unfoldable pub rd_be64 : Bytes → ℕ
unfolding rd_be64_loop
rd_be64 p = rd_be64_loop 8 0 0 p

-- `off + len` is a sum of `size_t`.
unfoldable pub slice : Bytes → ℕ → ℕ → Result Bytes
slice b off len =
    if ltb (length b) (u64 (off + len)) then err slice_out_of_range else ok (take len (drop off b))
