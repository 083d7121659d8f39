-- ===== src/Vm/Program/Vectors.antt =====
-- The run of client/tests/selftest_vm.cpp, on the vectors of client/tests/vm_vectors.h.
use crackme.Base.{◌≡◌, refl, [], ◌∷◌, Bytes, ok}
use crackme.Buffer.{cat, be16, be32, be64, rd_be64}
use crackme.Obfuscation.{rg_obf}
use crackme.Blake2b.{
  blake2b, blake2b_from, init, update, final, compress, compress_words, inc, blake2b_ctr_keystream,
  stream_xor,
}
use crackme.Vm.Words
use crackme.Vm.Machine
use crackme.Vm.Machine.{fetch8}
use crackme.Vm.Run.{VmResult, handler_permutation, build_dispatch_table, run_loop, finish}
use crackme.Vm.Program.{run_vm}

abbrev pub username : Bytes
username = 0x70 ∷ 0x6c ∷ 0x61 ∷ 0x79 ∷ 0x65 ∷ 0x72 ∷ 0x31 ∷ []

abbrev pub license : Bytes
license =
    0x06 ∷ 0x30 ∷ 0x59 ∷ 0x5d ∷ 0xf0 ∷ 0x21 ∷ 0x8b ∷ 0x78 ∷ 0x78 ∷ 0xd2 ∷ 0x08 ∷ 0x6b ∷ 0x03 ∷ 0x99
    ∷ 0x61 ∷ 0x7c ∷ 0x0d ∷ 0x53 ∷ 0x38 ∷ 0xbf ∷ 0x83 ∷ 0xce ∷ 0xda ∷ 0x97 ∷ 0xa7 ∷ []

abbrev pub server_random : Bytes
server_random =
    0x02 ∷ 0x07 ∷ 0x0c ∷ 0x11 ∷ 0x16 ∷ 0x1b ∷ 0x20 ∷ 0x25 ∷ 0x2a ∷ 0x2f ∷ 0x34 ∷ 0x39 ∷ 0x3e ∷ 0x43
    ∷ 0x48 ∷ 0x4d ∷ []

abbrev pub session_id : Bytes
session_id =
    0x01 ∷ 0x0a ∷ 0x13 ∷ 0x1c ∷ 0x25 ∷ 0x2e ∷ 0x37 ∷ 0x40 ∷ 0x49 ∷ 0x52 ∷ 0x5b ∷ 0x64 ∷ 0x6d ∷ 0x76
    ∷ 0x7f ∷ 0x88 ∷ []

abbrev pub transcript_prefix : Bytes
transcript_prefix =
    0x03 ∷ 0x0e ∷ 0x19 ∷ 0x24 ∷ 0x2f ∷ 0x3a ∷ 0x45 ∷ 0x50 ∷ 0x5b ∷ 0x66 ∷ 0x71 ∷ 0x7c ∷ 0x87 ∷ 0x92
    ∷ 0x9d ∷ 0xa8 ∷ 0xb3 ∷ 0xbe ∷ 0xc9 ∷ 0xd4 ∷ 0xdf ∷ 0xea ∷ 0xf5 ∷ 0x00 ∷ 0x0b ∷ 0x16 ∷ 0x21
    ∷ 0x2c ∷ 0x37 ∷ 0x42 ∷ 0x4d ∷ 0x58 ∷ []

abbrev pub expected : VmResult
expected = record {
  vm_digest =
      0xe2 ∷ 0xfc ∷ 0xe1 ∷ 0xd1 ∷ 0x63 ∷ 0xe3 ∷ 0xbf ∷ 0xa3 ∷ 0xf1 ∷ 0x45 ∷ 0x1b ∷ 0xca ∷ 0x4f
      ∷ 0xb5 ∷ 0x3e ∷ 0x8c ∷ 0xb7 ∷ 0x21 ∷ 0x2a ∷ 0x8b ∷ 0x70 ∷ 0x91 ∷ 0x67 ∷ 0x66 ∷ 0x37 ∷ 0xaa
      ∷ 0x1c ∷ 0xfd ∷ 0xee ∷ 0x39 ∷ 0x44 ∷ 0xe5 ∷ [];
  vm_state_hash =
      0x2f ∷ 0xf3 ∷ 0x3f ∷ 0xb0 ∷ 0xc5 ∷ 0xbd ∷ 0xa3 ∷ 0x7c ∷ 0x65 ∷ 0x21 ∷ 0xc3 ∷ 0x1b ∷ 0x93
      ∷ 0xe9 ∷ 0x40 ∷ 0x58 ∷ 0xb6 ∷ 0x45 ∷ 0x68 ∷ 0xed ∷ 0xde ∷ 0x73 ∷ 0x4d ∷ 0x71 ∷ 0xd0 ∷ 0xc1
      ∷ 0xa4 ∷ 0xe7 ∷ 0xca ∷ 0x36 ∷ 0xf0 ∷ 0xfc ∷ [];
  vm_path_id = 0x3eab9f0b;
  vm_halt_code = 0x49;
}

pub vm_parity :
    run_vm username license server_random session_id transcript_prefix server_random ≡ ok expected
unfolding run_vm rg_obf cat be16 be32 be64 rd_be64 blake2b blake2b_from init update final compress
    compress_words inc blake2b_ctr_keystream stream_xor handler_permutation build_dispatch_table
    run_loop finish Words.rotl64 Words.rotr64 Words.hash_round Words.mix Machine.◌>>=◌
    Machine.fetch8 Machine.fetch16 Machine.fetch64 Machine.get_reg Machine.set_reg Machine.get_mem
    Machine.set_mem Machine.get_flags Machine.set_ip Machine.cmp_flags Machine.set_cmp_flags
    Machine.has_flag Machine.cond_of Machine.cond Machine.fold_path Machine.push_stack
    Machine.return_to Machine.halt_with Machine.alu3 Machine.shift Machine.move_if Machine.jump_if
    Machine.h_nop Machine.h_mov_ri Machine.h_mov_rr Machine.h_load Machine.h_store Machine.h_alu3
    Machine.h_not Machine.h_shift Machine.h_cmp Machine.h_cmov Machine.h_jmp Machine.h_jcc
    Machine.h_call Machine.h_ret Machine.h_hash Machine.h_mix Machine.h_halt Machine.h_unknown
vm_parity = refl
