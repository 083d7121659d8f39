-- ===== src/Vm/Machine/Valid.antt =====
-- Well-formed states of client/src/vm/vm.cpp: sizes and widths, and the words that stay in theirs.
use native.Mathlib.Nat.{div-le_self, mod-lt}
use crackme.Base.{
  ℕ, ◌+◌, ◌-◌, ◌*◌, ◌^◌, ◌≤◌, ◌<◌, ◌≡◌, refl, ◌∙◌, ◌∷◌, Bool, true, false, inl, inr, arith, bit_and,
  bit_or, Bytes, IsU64, IsU32, sub64, ◌>>>◌, Bool-cases, ◌==◌, ltb, if◌then◌else◌, length,
  length-set, set, All, All-set,
}
use crackme.Base.Bits.{bit_xor-lt, bit_or-lt, bit_and-le}
use crackme.Vm.Words.{rotl64, rotr64, hash_round, mix}
use crackme.Vm.Machine.{Vm, cmp_flags, alu3, shift}

-- The words are of 64 bits.
pub rotl64-lt : (x n : ℕ) → IsU64 x → IsU64 (rotl64 x n)
unfolding rotl64
rotl64-lt x n h = elim (Bool-cases (bit_and n 63 == 0)) [
  | inl e ↦ rw e h
  | inr e ↦
      let right : x >>> (64 - bit_and n 63) < 2 ^ 64 =
        omega (arith, div-le_self x (2 ^ (64 - bit_and n 63))) in
      rw e (bit_or-lt 64 _ _ (mod-lt _ (omega arith)) right)
]

pub rotr64-lt : (x n : ℕ) → IsU64 x → IsU64 (rotr64 x n)
unfolding rotr64
rotr64-lt x n h = elim (Bool-cases (bit_and n 63 == 0)) [
  | inl e ↦ rw e h
  | inr e ↦
      let right : x >>> bit_and n 63 < 2 ^ 64 = omega (arith, div-le_self x (2 ^ bit_and n 63)) in
      rw e (bit_or-lt 64 _ _ right (mod-lt _ (omega arith)))
]

pub hash_round-lt : (a b : ℕ) → IsU64 (hash_round a b)
unfolding hash_round
hash_round-lt a b =
    bit_xor-lt 64 _ _ (mod-lt _ (omega arith)) (rotr64-lt _ 7 (mod-lt _ (omega arith)))

pub mix-lt : (acc val rd : ℕ) → IsU64 (mix acc val rd)
unfolding mix
mix-lt acc val rd = mod-lt _ (omega arith)

pub alu3-lt : (op a b : ℕ) → IsU64 a → IsU64 b → IsU64 (alu3 op a b)
unfolding alu3
alu3-lt op a b ha hb =
    ground (arith, bit_xor-lt 64 a b ha hb, bit_or-lt 64 a b ha hb, bit_and-le a b)

pub shift-lt : (op a imm : ℕ) → IsU64 a → IsU64 (shift op a imm)
unfolding shift
shift-lt op a imm h = ground (
  arith,
  rotl64-lt a imm h,
  rotr64-lt a imm h,
  div-le_self a (2 ^ bit_and imm 63),
  mod-lt (a * 2 ^ bit_and imm 63) {m = 2 ^ 64} (omega arith),
)

-- The flags of a comparison, bit by bit.
pub cmp_flags_sum :
    (a b : ℕ)
    → cmp_flags a b
      ≡ (if a == b then 1 else 0)
        + (if ltb a b then 2 else 0)
        + (if sub64 a b >>> 63 == 0 then 0 else 4)
unfolding cmp_flags
cmp_flags_sum a b = by_tests (a == b) (ltb a b) (sub64 a b >>> 63 == 0)
  where
    by_tests :
        (e l z : Bool)
        → (if z
            then if l then bit_or (if e then bit_or 0 1 else 0) 2 else (if e then bit_or 0 1 else 0)
            else bit_or
                (if l
                  then bit_or (if e then bit_or 0 1 else 0) 2
                  else (if e then bit_or 0 1 else 0))
                4)
          ≡ (if e then 1 else 0) + (if l then 2 else 0) + (if z then 0 else 4)
    by_tests true true true = refl
    by_tests true true false = refl
    by_tests true false true = refl
    by_tests true false false = refl
    by_tests false true true = refl
    by_tests false true false = refl
    by_tests false false true = refl
    by_tests false false false = refl

cmp_flags-lt : (a b : ℕ) → cmp_flags a b < 8
cmp_flags-lt a b = rw cmp_flags_sum (ground arith)

module _ (code : Bytes) where
  abbrev pub IsAddress : ℕ → Type 0
  IsAddress a = a ≤ length code + 65535

  pub record IsValid (vm : Vm) : Type 0 where
    pub mem_size : length vm.mem ≡ 64
    pub mem_words : All IsU64 vm.mem
    pub reg_size : length vm.reg ≡ 16
    pub reg_words : All IsU64 vm.reg
    pub returns : All IsAddress vm.stack
    pub flag_bits : vm.flags < 8
    pub address : IsAddress vm.ip
    pub path_word : IsU32 vm.path
    pub operand_byte : vm.halt_operand < 256

-- Writes to one field.
module _ (code : Bytes) (vm : Vm) (v : IsValid code vm) where
  pub with_ip : (a : ℕ) → IsAddress code a → IsValid code (record vm { ip = a })
  with_ip a h = record {
    mem_size = v.mem_size;
    mem_words = v.mem_words;
    reg_size = v.reg_size;
    reg_words = v.reg_words;
    returns = v.returns;
    flag_bits = v.flag_bits;
    address = h;
    path_word = v.path_word;
    operand_byte = v.operand_byte;
  }

  pub with_reg : (i x : ℕ) → IsU64 x → IsValid code (record vm { reg = set vm.reg i x })
  with_reg i x h = record {
    mem_size = v.mem_size;
    mem_words = v.mem_words;
    reg_size = length-set vm.reg i x ∙ v.reg_size;
    reg_words = All-set IsU64 vm.reg i x h v.reg_words;
    returns = v.returns;
    flag_bits = v.flag_bits;
    address = v.address;
    path_word = v.path_word;
    operand_byte = v.operand_byte;
  }

  pub with_mem : (i x : ℕ) → IsU64 x → IsValid code (record vm { mem = set vm.mem i x })
  with_mem i x h = record {
    mem_size = length-set vm.mem i x ∙ v.mem_size;
    mem_words = All-set IsU64 vm.mem i x h v.mem_words;
    reg_size = v.reg_size;
    reg_words = v.reg_words;
    returns = v.returns;
    flag_bits = v.flag_bits;
    address = v.address;
    path_word = v.path_word;
    operand_byte = v.operand_byte;
  }

  pub with_flags : (a b : ℕ) → IsValid code (record vm { flags = cmp_flags a b })
  with_flags a b = record {
    mem_size = v.mem_size;
    mem_words = v.mem_words;
    reg_size = v.reg_size;
    reg_words = v.reg_words;
    returns = v.returns;
    flag_bits = cmp_flags-lt a b;
    address = v.address;
    path_word = v.path_word;
    operand_byte = v.operand_byte;
  }

  pub with_path : (x : ℕ) → IsU32 x → IsValid code (record vm { path = x })
  with_path x h = record {
    mem_size = v.mem_size;
    mem_words = v.mem_words;
    reg_size = v.reg_size;
    reg_words = v.reg_words;
    returns = v.returns;
    flag_bits = v.flag_bits;
    address = v.address;
    path_word = h;
    operand_byte = v.operand_byte;
  }

  pub with_halt :
      (x : ℕ) (done : Bool) → x < 256 → IsValid code (record vm { halt_operand = x; halted = done })
  with_halt x done h = record {
    mem_size = v.mem_size;
    mem_words = v.mem_words;
    reg_size = v.reg_size;
    reg_words = v.reg_words;
    returns = v.returns;
    flag_bits = v.flag_bits;
    address = v.address;
    path_word = v.path_word;
    operand_byte = h;
  }

  pub with_call : IsValid code (record vm { stack = vm.ip ∷ vm.stack })
  with_call = record {
    mem_size = v.mem_size;
    mem_words = v.mem_words;
    reg_size = v.reg_size;
    reg_words = v.reg_words;
    returns = (v.address, v.returns);
    flag_bits = v.flag_bits;
    address = v.address;
    path_word = v.path_word;
    operand_byte = v.operand_byte;
  }
