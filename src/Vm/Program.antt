-- ===== src/Vm/Program.antt =====
-- The inputs, the embedded bytecode and `run_vm` of client/src/vm/vm.cpp, and the blob of
-- client/src/vm/bytecode_blob.cpp.
pub mod Layout
pub mod Memory
pub mod Refinement
pub mod Vectors
pub mod Halts
use crackme.Base.{
  ℕ, zero, suc, ◌+◌, ◌*◌, List, [], ◌∷◌, ◌++◌, false, Bytes, ltb, if◌then◌else◌, length, drop,
  get_or, set, replicate, resize, Result, ok, err, ◌>>=◌,
}
use crackme.Buffer.{str_bytes, rd_be64}
use crackme.Config.{
  vm_input_domain, vm_blob_domain, vm_blob_key_label, vm_mem_words, vm_username_cap,
}
use crackme.Blake2b.{blake2b, stream_xor}
use crackme.Vm.Machine.{Vm}
use crackme.Vm.Run.{
  VmResult, handler_permutation, build_dispatch_table, run_loop, max_steps, finish,
}

-- `out[i] = rd_be64(&padded[i * 8])` for the `left` indices from `i` on.
read_words : Bytes → ℕ → ℕ → List ℕ
read_words padded zero i = []
read_words padded (suc left) i = rd_be64 (drop (i * 8) padded) ∷ read_words padded left (i + 1)

unfoldable pub words_from : Bytes → ℕ → List ℕ
unfolding read_words
words_from input nwords = read_words (resize (nwords * 8) 0 input) nwords 0

-- `mem[at + i] = words[i]`
store_words : List ℕ → ℕ → List ℕ → List ℕ
store_words mem at [] = mem
store_words mem at (w ∷ words) = store_words (set mem at w) (at + 1) words

-- `pack_inputs` up to `mem[20]`.
unfoldable pub pack_words : Bytes → Bytes → Bytes → Bytes → Bytes → List ℕ
unfolding words_from store_words
pack_words username_norm license_struct server_random session_id transcript_prefix =
    let uname =
      if ltb vm_username_cap (length username_norm)
      then resize vm_username_cap 0 username_norm
      else username_norm in
    let mem0 = set (replicate vm_mem_words 0) 0 (length uname) in
    let mem1 = store_words mem0 1 (words_from uname 8) in
    let mem2 = store_words mem1 9 (words_from license_struct 4) in
    let mem3 = store_words mem2 13 (words_from server_random 2) in
    let mem4 = store_words mem3 15 (words_from session_id 2) in
    store_words mem4 17 (words_from transcript_prefix 4)

unfoldable pub pack_inputs : Bytes → Bytes → Bytes → Bytes → Bytes → Result (List ℕ)
unfolding pack_words
pack_inputs username_norm license_struct server_random session_id transcript_prefix = do
  let mem = pack_words username_norm license_struct server_random session_id transcript_prefix
  vmin ← blake2b (str_bytes vm_input_domain) [] 8
  ok (set mem 21 (rd_be64 vmin))

-- `kEncryptedBlob`
abbrev pub encrypted_blob : Bytes
encrypted_blob =
    0x30 ∷ 0x8f ∷ 0xe8 ∷ 0xb5 ∷ 0x00 ∷ 0x21 ∷ 0xbc ∷ 0xd8 ∷ 0xc0 ∷ 0x1b ∷ 0x41 ∷ 0x41 ∷ 0x39 ∷ 0x9c
    ∷ 0xd7 ∷ 0x00 ∷ 0x08 ∷ 0x9e ∷ 0x24 ∷ 0xf0 ∷ 0xfb ∷ 0x4a ∷ 0x4a ∷ 0xed ∷ 0x04 ∷ 0xb9 ∷ 0xd9
    ∷ 0xa5 ∷ 0x15 ∷ 0xc7 ∷ 0x61 ∷ 0x3c ∷ 0x60 ∷ 0x86 ∷ 0xc6 ∷ 0x50 ∷ 0xd0 ∷ 0x77 ∷ 0x21 ∷ 0x97
    ∷ 0x2e ∷ 0xdb ∷ 0x1a ∷ 0x77 ∷ 0x47 ∷ 0x15 ∷ 0xa9 ∷ 0x35 ∷ 0xb4 ∷ 0x84 ∷ 0x4f ∷ 0x93 ∷ 0x36
    ∷ 0x62 ∷ 0x29 ∷ 0x4a ∷ 0xa0 ∷ 0xda ∷ 0xd9 ∷ 0x63 ∷ 0x57 ∷ 0xe0 ∷ 0x48 ∷ 0xd6 ∷ 0x71 ∷ 0x1a
    ∷ 0xc8 ∷ 0x86 ∷ 0x77 ∷ 0x2f ∷ 0x2f ∷ 0x39 ∷ 0x2d ∷ 0x9a ∷ 0x75 ∷ 0x3c ∷ 0x75 ∷ 0x25 ∷ 0xee
    ∷ 0x02 ∷ 0xd6 ∷ 0x0a ∷ 0xa8 ∷ 0x13 ∷ 0xbc ∷ 0x3a ∷ 0x76 ∷ 0xd3 ∷ 0x30 ∷ 0xa4 ∷ 0xdc ∷ 0xa9
    ∷ 0x72 ∷ 0x26 ∷ 0xaa ∷ 0x2e ∷ 0x8f ∷ 0x05 ∷ 0x5b ∷ 0x19 ∷ 0x8d ∷ 0x72 ∷ 0x21 ∷ 0x09 ∷ 0xc6
    ∷ 0xf7 ∷ 0xe8 ∷ 0x83 ∷ 0x6e ∷ 0x31 ∷ 0x8d ∷ 0x70 ∷ 0x60 ∷ 0x29 ∷ 0xf0 ∷ 0x75 ∷ 0xd2 ∷ 0xcd
    ∷ 0xbe ∷ 0x48 ∷ 0x10 ∷ 0xf6 ∷ 0x94 ∷ 0x50 ∷ 0xa0 ∷ 0x90 ∷ 0xea ∷ 0x5c ∷ 0xb8 ∷ 0x51 ∷ 0xfc
    ∷ 0xfe ∷ 0xe7 ∷ 0xa0 ∷ 0x3b ∷ 0xf1 ∷ 0xd7 ∷ 0x2a ∷ 0xe8 ∷ 0xa2 ∷ 0x58 ∷ 0x70 ∷ 0xf3 ∷ 0x4b
    ∷ 0xe8 ∷ 0xd9 ∷ 0xfb ∷ 0x2f ∷ 0x1e ∷ 0x52 ∷ 0xbe ∷ 0xc2 ∷ 0x55 ∷ 0x85 ∷ 0x31 ∷ 0xcb ∷ 0x33
    ∷ 0x26 ∷ 0x4a ∷ 0x57 ∷ 0x35 ∷ 0x48 ∷ 0x5d ∷ 0xe1 ∷ 0xdb ∷ 0x87 ∷ 0x60 ∷ 0xa9 ∷ 0xdb ∷ 0xfa
    ∷ 0x26 ∷ 0xe6 ∷ 0x61 ∷ 0xe3 ∷ 0x3a ∷ 0x18 ∷ 0x56 ∷ 0x26 ∷ 0x88 ∷ 0x1f ∷ 0x93 ∷ 0x75 ∷ 0x83
    ∷ 0x9a ∷ 0xd0 ∷ 0xb9 ∷ 0x23 ∷ 0x14 ∷ 0xf1 ∷ 0x92 ∷ 0xcb ∷ 0x25 ∷ 0x65 ∷ 0x66 ∷ 0xf8 ∷ 0x47
    ∷ 0xa4 ∷ 0xc9 ∷ 0x31 ∷ 0x77 ∷ 0x8a ∷ 0xbc ∷ 0x59 ∷ 0xa3 ∷ 0x48 ∷ 0xdf ∷ 0x08 ∷ 0x39 ∷ 0x93
    ∷ 0x0a ∷ 0xf3 ∷ 0xcc ∷ 0xbf ∷ 0xc0 ∷ 0x7e ∷ 0xcf ∷ 0x9a ∷ 0x21 ∷ 0x71 ∷ 0xc5 ∷ 0x11 ∷ 0x89
    ∷ 0xce ∷ 0x49 ∷ 0x4c ∷ 0xf5 ∷ 0xaa ∷ 0x4e ∷ 0x94 ∷ 0xc2 ∷ 0x5e ∷ 0x6a ∷ 0xfc ∷ 0x7a ∷ 0xd4
    ∷ 0x20 ∷ 0x56 ∷ 0xfe ∷ 0xc8 ∷ 0x34 ∷ 0x22 ∷ 0x65 ∷ []

unfoldable pub load_bytecode : Result Bytes
load_bytecode = do
  key ← blake2b (str_bytes vm_blob_key_label) [] 32
  stream_xor key encrypted_blob (str_bytes vm_blob_domain)

-- The state that the constructor of `VM` sets up.
abbrev pub start : List ℕ → Vm
start mem = record {
  mem = mem;
  reg = replicate 16 0;
  stack = [];
  flags = 0;
  ip = 0;
  path = 0x811C9DC5;
  halted = false;
  halt_operand = 0;
}

-- The constructor and `run`, on any code.
unfoldable pub run_code : Bytes → List ℕ → Bytes → Result VmResult
run_code code mem session_nonce = do
  perm ← handler_permutation session_nonce
  vm ← run_loop code perm (build_dispatch_table perm) max_steps (start mem)
  finish vm

unfoldable pub run_vm : Bytes → Bytes → Bytes → Bytes → Bytes → Bytes → Result VmResult
unfolding run_code pack_inputs load_bytecode
run_vm username_norm license_struct server_random session_id transcript_prefix session_nonce = do
  mem ← pack_inputs username_norm license_struct server_random session_id transcript_prefix
  code ← load_bytecode
  run_code code mem session_nonce
