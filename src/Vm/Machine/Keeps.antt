-- ===== src/Vm/Machine/Keeps.antt =====
-- Every handler of client/src/vm/vm.cpp keeps the machine well formed.
use crackme.Base.{ℕ, ◌-◌, ◌%◌, ◌^◌, List, [], ◌∷◌, true, arith, Bytes, IsBytes, All}
use crackme.Vm.Words.{hash_round, mix}
use crackme.Vm.Machine.{
  Vm, get_flags, fold_path, push_stack, return_to, halt_with, alu3, shift, h_mov_ri, h_mov_rr,
  h_load, h_store, h_alu3, h_not, h_shift, h_cmp, h_cmov, h_jmp, h_jcc, h_call, h_hash, h_mix,
  h_halt, h_unknown,
}
use crackme.Vm.Machine.Valid.{
  IsValid, IsAddress, hash_round-lt, mix-lt, alu3-lt, shift-lt, with_halt, with_call,
}
use crackme.Vm.Machine.Rules.{
  Keeps, then_fetch8, then_fetch16, then_fetch64, then_get_reg, then_get_mem, then_keep,
  set_reg-Keeps, set_mem-Keeps, set_ip-Keeps, set_cmp_flags-Keeps, fold_path-Keeps, move_if-Keeps,
  jump_if-Keeps, then_cond, after,
}

module _ (code : Bytes) (bytes : IsBytes code) where
  -- A handler in the state `vm`.
  module _ (vm : Vm) (v : IsValid code vm) where
    pub h_mov_ri-Keeps : Keeps code (h_mov_ri code vm)
    unfolding h_mov_ri
    h_mov_ri-Keeps = then_fetch8 code bytes _ vm v λ rd vm1 (_, v1).
        then_fetch64 code bytes _ vm1 v1 λ imm vm2 (h, v2). set_reg-Keeps code bytes rd imm vm2 h v2

    pub h_mov_rr-Keeps : Keeps code (h_mov_rr code vm)
    unfolding h_mov_rr
    h_mov_rr-Keeps = then_fetch8 code bytes _ vm v λ rd vm1 (_, v1).
        then_fetch8 code bytes _ vm1 v1 λ rs vm2 (_, v2).
          then_get_reg code bytes _ vm2 v2 rs
            λ a vm3 (h, v3). set_reg-Keeps code bytes rd a vm3 h v3

    pub h_load-Keeps : Keeps code (h_load code vm)
    unfolding h_load
    h_load-Keeps = then_fetch8 code bytes _ vm v λ rd vm1 (_, v1).
        then_fetch8 code bytes _ vm1 v1 λ areg vm2 (_, v2).
          then_get_reg code bytes _ vm2 v2 areg λ a vm3 (_, v3).
            then_get_mem code bytes _ vm3 v3 (a % 64)
              λ x vm4 (h, v4). set_reg-Keeps code bytes rd x vm4 h v4

    pub h_store-Keeps : Keeps code (h_store code vm)
    unfolding h_store
    h_store-Keeps = then_fetch8 code bytes _ vm v λ areg vm1 (_, v1).
        then_fetch8 code bytes _ vm1 v1 λ rs vm2 (_, v2).
          then_get_reg code bytes _ vm2 v2 rs λ x vm3 (h, v3).
            then_get_reg code bytes _ vm3 v3 areg
              λ a vm4 (_, v4). set_mem-Keeps code bytes (a % 64) x vm4 h v4

    pub h_alu3-Keeps : (op : ℕ) → Keeps code (h_alu3 code op vm)
    unfolding h_alu3
    h_alu3-Keeps op = then_fetch8 code bytes _ vm v λ rd vm1 (_, v1).
        then_fetch8 code bytes _ vm1 v1 λ ra vm2 (_, v2).
          then_fetch8 code bytes _ vm2 v2 λ rb vm3 (_, v3).
            then_get_reg code bytes _ vm3 v3 ra λ a vm4 (ha, v4).
              then_get_reg code bytes _ vm4 v4 rb λ b vm5 (hb, v5).
                set_reg-Keeps code bytes rd (alu3 op a b) vm5 (alu3-lt op a b ha hb) v5

    pub h_not-Keeps : Keeps code (h_not code vm)
    unfolding h_not
    h_not-Keeps = then_fetch8 code bytes _ vm v λ rd vm1 (_, v1).
        then_fetch8 code bytes _ vm1 v1 λ ra vm2 (_, v2).
          then_get_reg code bytes _ vm2 v2 ra
            λ a vm3 (_, v3). set_reg-Keeps code bytes rd (2 ^ 64 - 1 - a) vm3 (omega arith) v3

    pub h_shift-Keeps : (op : ℕ) → Keeps code (h_shift code op vm)
    unfolding h_shift
    h_shift-Keeps op = then_fetch8 code bytes _ vm v λ rd vm1 (_, v1).
        then_fetch8 code bytes _ vm1 v1 λ ra vm2 (_, v2).
          then_fetch8 code bytes _ vm2 v2 λ imm vm3 (_, v3).
            then_get_reg code bytes _ vm3 v3 ra λ a vm4 (h, v4).
              set_reg-Keeps code bytes rd (shift op a imm) vm4 (shift-lt op a imm h) v4

    pub h_cmp-Keeps : Keeps code (h_cmp code vm)
    unfolding h_cmp
    h_cmp-Keeps = then_fetch8 code bytes _ vm v λ ra vm1 (_, v1).
        then_fetch8 code bytes _ vm1 v1 λ rb vm2 (_, v2).
          then_get_reg code bytes _ vm2 v2 ra λ a vm3 (_, v3).
            then_get_reg code bytes _ vm3 v3 rb
              λ b vm4 (_, v4). set_cmp_flags-Keeps code bytes a b vm4 v4

    pub h_cmov-Keeps : Keeps code (h_cmov code vm)
    unfolding h_cmov
    h_cmov-Keeps = then_fetch8 code bytes _ vm v λ rd vm1 (_, v1).
        then_fetch8 code bytes _ vm1 v1 λ rs vm2 (_, v2).
          then_fetch8 code bytes _ vm2 v2 λ c vm3 (_, v3).
            then_cond code bytes _ c vm3 v3
              λ taken vm4 v4. move_if-Keeps code bytes taken rd rs vm4 v4

    pub h_jmp-Keeps : Keeps code (h_jmp code vm)
    unfolding h_jmp
    h_jmp-Keeps =
        then_fetch16 code bytes _ vm v λ addr vm1 (h, v1). set_ip-Keeps code bytes addr vm1 h v1

    pub h_jcc-Keeps : (op : ℕ) → Keeps code (h_jcc code op vm)
    unfolding h_jcc
    h_jcc-Keeps op = then_fetch16 code bytes _ vm v λ addr vm1 (h, v1).
        after (λ _ vm'. IsValid code vm') _ get_flags _ vm1 (unfold get_flags in v1)
          λ flags vm2 v2.
            then_keep code bytes _ (fold_path _) vm2 (fold_path-Keeps code bytes _ vm2 v2)
              λ _ vm3 v3. jump_if-Keeps code bytes _ addr vm3 h v3

    pub h_call-Keeps : Keeps code (h_call code vm)
    unfolding h_call
    h_call-Keeps = then_fetch16 code bytes _ vm v λ addr vm1 (h, v1).
        then_keep code bytes _ push_stack vm1 (unfold push_stack in with_call code vm1 v1)
          λ _ vm2 v2. set_ip-Keeps code bytes addr vm2 h v2

    pub h_hash-Keeps : Keeps code (h_hash code vm)
    unfolding h_hash
    h_hash-Keeps = then_fetch8 code bytes _ vm v λ rd vm1 (_, v1).
        then_fetch8 code bytes _ vm1 v1 λ ra vm2 (_, v2).
          then_fetch8 code bytes _ vm2 v2 λ rb vm3 (_, v3).
            then_get_reg code bytes _ vm3 v3 ra λ a vm4 (_, v4).
              then_get_reg code bytes _ vm4 v4 rb λ b vm5 (_, v5).
                set_reg-Keeps code bytes rd (hash_round a b) vm5 (hash_round-lt a b) v5

    pub h_mix-Keeps : Keeps code (h_mix code vm)
    unfolding h_mix
    h_mix-Keeps = then_fetch8 code bytes _ vm v λ rd vm1 (_, v1).
        then_fetch8 code bytes _ vm1 v1 λ ra vm2 (_, v2).
          then_get_reg code bytes _ vm2 v2 rd λ acc vm3 (_, v3).
            then_get_reg code bytes _ vm3 v3 ra
              λ x vm4 (_, v4). set_reg-Keeps code bytes rd (mix acc x rd) vm4 (mix-lt acc x rd) v4

    pub h_halt-Keeps : Keeps code (h_halt code vm)
    unfolding h_halt
    h_halt-Keeps =
        then_fetch8 code bytes _ vm v
          λ operand vm1 (h, v1). unfold halt_with in with_halt code vm1 v1 operand true h

    pub h_unknown-Keeps : Keeps code (h_unknown code vm)
    unfolding h_unknown halt_with
    h_unknown-Keeps = with_halt code vm v 0xFD true (omega arith)

  pub return_to-Keeps :
      (stack : List ℕ) (vm : Vm)
      → All (IsAddress code) stack
      → IsValid code vm
      → Keeps code (return_to stack vm)
  unfolding return_to
  return_to-Keeps [] vm h v = tt
  return_to-Keeps (top ∷ rest) vm h v = record {
    mem_size = v.mem_size;
    mem_words = v.mem_words;
    reg_size = v.reg_size;
    reg_words = v.reg_words;
    returns = h.1;
    flag_bits = v.flag_bits;
    address = h.0;
    path_word = v.path_word;
    operand_byte = v.operand_byte;
  }
