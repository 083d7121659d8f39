-- ===== src/Vm/Op.antt =====
-- The opcodes of client/src/vm/opcodes.hpp.
use crackme.Base.{ℕ}

abbrev pub nop : ℕ
nop = 0x00

abbrev pub mov_ri : ℕ
mov_ri = 0x10

abbrev pub mov_rr : ℕ
mov_rr = 0x11

abbrev pub load : ℕ
load = 0x20

abbrev pub store : ℕ
store = 0x21

abbrev pub add : ℕ
add = 0x30

abbrev pub sub : ℕ
sub = 0x31

abbrev pub mul : ℕ
mul = 0x32

abbrev pub xor : ℕ
xor = 0x33

abbrev pub and : ℕ
and = 0x34

abbrev pub or : ℕ
or = 0x35

abbrev pub not : ℕ
not = 0x36

abbrev pub rol : ℕ
rol = 0x40

abbrev pub ror : ℕ
ror = 0x41

abbrev pub shl : ℕ
shl = 0x42

abbrev pub shr : ℕ
shr = 0x43

abbrev pub cmp : ℕ
cmp = 0x50

abbrev pub cmov : ℕ
cmov = 0x51

abbrev pub jmp : ℕ
jmp = 0x60

abbrev pub jz : ℕ
jz = 0x61

abbrev pub jnz : ℕ
jnz = 0x62

abbrev pub call : ℕ
call = 0x63

abbrev pub ret : ℕ
ret = 0x64

abbrev pub hash_round : ℕ
hash_round = 0x70

abbrev pub mix : ℕ
mix = 0x71

abbrev pub halt : ℕ
halt = 0xF0
