-- ===== src/Vm/Words.antt =====
-- The 64-bit helpers at the top of client/src/vm/vm.cpp, and the condition
-- codes and flag bits of client/src/vm/opcodes.hpp.
use crackme.Base.{
  ℕ, ◌+◌, ◌-◌, ◌*◌, bit_and, bit_or, bit_xor, u64, ◌<<<◌, ◌>>>◌, ◌==◌, if◌then◌else◌,
}

-- `unsigned n` is masked by 63 first.
unfoldable pub rotl64 : ℕ → ℕ → ℕ
rotl64 x n = let k = bit_and n 63 in if k == 0 then x else bit_or (u64 (x <<< k)) (x >>> (64 - k))

unfoldable pub rotr64 : ℕ → ℕ → ℕ
rotr64 x n = let k = bit_and n 63 in if k == 0 then x else bit_or (x >>> k) (u64 (x <<< (64 - k)))

unfoldable pub hash_round : ℕ → ℕ → ℕ
hash_round a b =
    let x1 = bit_xor a (rotl64 b 17) in
    let x2 = u64 (x1 * 0x9E3779B97F4A7C15) in
    let x3 = bit_xor x2 (x2 >>> 31) in let x4 = u64 (x3 + rotl64 a 13) in bit_xor x4 (rotr64 x4 7)

unfoldable pub mix : ℕ → ℕ → ℕ → ℕ
mix acc val rd =
    let rotated = rotl64 val (bit_and (rd * 7 + 13) 63) in
    u64 (acc + bit_xor rotated 0xD1B54A32D192ED03)

-- The condition codes and the flag bits.
abbrev pub cond_zf : ℕ
cond_zf = 0

abbrev pub cond_nzf : ℕ
cond_nzf = 1

abbrev pub cond_cf : ℕ
cond_cf = 2

abbrev pub cond_ncf : ℕ
cond_ncf = 3

abbrev pub cond_sf : ℕ
cond_sf = 4

abbrev pub cond_nsf : ℕ
cond_nsf = 5

abbrev pub fl_zf : ℕ
fl_zf = 1

abbrev pub fl_cf : ℕ
fl_cf = 2

abbrev pub fl_sf : ℕ
fl_sf = 4
