-- ===== src/Decoys.antt =====
-- client/src/protection/decoys.cpp and opaque.hpp: the decoy checks.
-- `volatile int g_opaque_seed` may hold any value, and is an argument: the 32 bits of the `int`.
-- A `long long` is its 64 bits, and `% 2` of it is 0 exactly if its last bit is.
pub mod Predicates
use crackme.Base.{
  ◌-◌, ◌^◌, u64, ltb, List, ◌++◌, ℕ, ◌+◌, ◌*◌, ◌%◌, [], ◌∷◌, Bool, bit_and, bit_or, bit_xor, Bytes,
  u32, ◌==◌, if◌then◌else◌, map, length,
}
use crackme.Obfuscation.{mba_add, blinded32}

abbrev pub k_decoy_bytecode : Bytes
k_decoy_bytecode =
    0x10 ∷ 0x00 ∷ 0x2a ∷ 0x33 ∷ 0x01 ∷ 0x02 ∷ 0x60 ∷ 0x00 ∷ 0x18 ∷ 0x70 ∷ 0x0c ∷ 0x0d ∷ 0x0e ∷ 0x40
    ∷ 0x03 ∷ 0x11 ∷ 0x50 ∷ 0x04 ∷ 0x05 ∷ 0x61 ∷ 0x00 ∷ 0x2c ∷ 0x33 ∷ 0x06 ∷ 0x06 ∷ 0x71 ∷ 0x0c
    ∷ 0x0c ∷ 0x31 ∷ 0x07 ∷ 0x07 ∷ 0x08 ∷ 0xf0 ∷ 0x99 ∷ 0x21 ∷ 0x09 ∷ 0x0a ∷ 0x20 ∷ 0x0b ∷ 0x0c
    ∷ 0x33 ∷ 0x0d ∷ 0x0e ∷ 0x0f ∷ 0x64 ∷ 0x42 ∷ 0x01 ∷ 0x02 ∷ 0x03 ∷ 0x70 ∷ 0x0a ∷ 0x0b ∷ 0x0c
    ∷ 0x36 ∷ 0x05 ∷ 0x06 ∷ 0xf0 ∷ 0x7e ∷ 0x11 ∷ 0x22 ∷ 0x33 ∷ 0x44 ∷ 0x55 ∷ 0x66 ∷ 0x77 ∷ 0x88
    ∷ 0x99 ∷ 0xaa ∷ 0xbb ∷ 0xcc ∷ 0xdd ∷ 0xee ∷ []

abbrev pub decoy_enc : Bytes
decoy_enc =
    0x1c ∷ 0x16 ∷ 0x1b ∷ 0x1d ∷ 0x21 ∷ 0x3e ∷ 0x3f ∷ 0x39 ∷ 0x35 ∷ 0x23 ∷ 0x05 ∷ 0x2e ∷ 0x32 ∷ 0x33
    ∷ 0x39 ∷ 0x05 ∷ 0x33 ∷ 0x29 ∷ 0x05 ∷ 0x34 ∷ 0x35 ∷ 0x2e ∷ 0x05 ∷ 0x2e ∷ 0x32 ∷ 0x3f ∷ 0x05
    ∷ 0x28 ∷ 0x3f ∷ 0x3b ∷ 0x36 ∷ 0x05 ∷ 0x1c ∷ 0x16 ∷ 0x1b ∷ 0x1d ∷ 0x27 ∷ []

unfoldable pub decoy_flag : Bytes
decoy_flag = map (λ c. bit_xor c 0x5A) decoy_enc

unfoldable pub serial_acc : Bytes → ℕ → ℕ
serial_acc [] acc = acc
serial_acc (c ∷ license) acc = serial_acc license (blinded32 acc c 0x9E3779B9)

unfoldable pub sum32 : Bytes → ℕ → ℕ
sum32 [] acc = acc
sum32 (c ∷ cs) acc = sum32 cs (u32 (mba_add acc c))

unfoldable pub fake_serial_check : Bytes → Bytes → Bool
fake_serial_check username license =
    bit_and (bit_xor (serial_acc license 0x811C9DC5) (sum32 username 0)) 0xFFFF == 0x1337

unfoldable pub fake_vm_trace : ℕ
fake_vm_trace = sum32 k_decoy_bytecode 0

-- The lambda `fold`.
unfoldable pub fnv_fold : Bytes → ℕ → ℕ
fnv_fold [] h = h
fnv_fold (c ∷ s) h = fnv_fold s (u32 (mba_add (u32 (bit_xor h c * 0x01000193)) 0))

unfoldable pub input_hash : Bytes → Bytes → ℕ
input_hash a b = fnv_fold b (bit_xor (fnv_fold a 0x811C9DC5) 0x7C)

-- What `decoy_preflight` prints: the decoy flag, and the code.
pub data DecoyLine : Type 0 where
  unlock : Bytes → DecoyLine
  preflight_complete : ℕ → DecoyLine

-- The code, as the 32 bits of the `int`, and what is printed.
unfoldable pub decoy_preflight : Bytes → Bytes → Bool → ℕ × List DecoyLine
decoy_preflight username license verbose =
    let serial_ok = fake_serial_check username license in
    let start = bit_xor fake_vm_trace (if serial_ok then 0xA5 else 0x5A) in
    let matches = input_hash username license == 0x5A1C9E37 in
    let code = if matches then bit_xor start (length decoy_flag) else start in
    let unlocked : List DecoyLine = if matches then unlock decoy_flag ∷ [] else [] in
    let complete : List DecoyLine = if verbose then preflight_complete code ∷ [] else [] in
    (code, unlocked ++ complete)

-- The cast to `long long` repeats the sign.
unfoldable pub sign_extend : ℕ → ℕ
sign_extend seed = if ltb seed (2 ^ 31) then seed else seed + (2 ^ 64 - 2 ^ 32)

unfoldable pub opaque_x : ℕ → ℕ
opaque_x seed = bit_or (sign_extend seed) 1

unfoldable pub opaque_true : ℕ → Bool
opaque_true seed = let x = opaque_x seed in u64 (x * u64 (x + 1)) % 2 == 0

unfoldable pub opaque_false : ℕ → Bool
opaque_false seed = let x = opaque_x seed in u64 (u64 (u64 (x * x) + x) + 1) % 2 == 0
