-- ===== src/Vm/Machine/Rules.antt =====
-- Rules for the calls that the handlers of client/src/vm/vm.cpp are made of: each keeps the state
-- well formed.
use native.Mathlib.Nat.{mod-lt}
use crackme.Base.{
  ℕ, ◌+◌, ◌^◌, ◌<◌, Bool, true, false, inl, inr, arith, Bytes, IsByte, IsBytes, IsU64, Bool-cases,
  ltb, leb, length, drop, All-get_or, All-drop, Result, ok, err,
}
use crackme.Buffer.Endian.{rd_be64-lt}
use crackme.Vm.Machine.{
  Vm, M, ◌>>=◌, fetch8, fetch16, fetch64, get_reg, set_reg, get_mem, set_mem, set_ip, set_cmp_flags,
  cond_of, cond, fold_path, move_if, jump_if,
}
use crackme.Vm.Machine.Valid.{IsValid, with_ip, with_reg, with_mem, with_flags, with_path}

-- What holds of the value and the state when a call returns; a throw is fine.
abbrev pub Ensures : {A : Type 0} → (A → Vm → Type 0) → Result (A × Vm) → Type 0
Ensures Q (ok (a, vm)) = Q a vm
Ensures Q (err e) = Unit

bind_cases :
    {A B : Type 0} (P : A → Vm → Type 0) (Q : B → Vm → Type 0) (f : A → M B) (r : Result (A × Vm))
    → Ensures P r
    → ((a : A) (vm' : Vm) → P a vm' → Ensures Q (f a vm'))
    → Ensures Q (elim r [ ok (a, vm') ↦ f a vm' | err e ↦ err e ])
bind_cases P Q f (ok (a, vm')) h k = k a vm' h
bind_cases P Q f (err e) h k = tt

pub after :
    {A B : Type 0} (P : A → Vm → Type 0) (Q : B → Vm → Type 0) (m : M A) (f : A → M B) (vm : Vm)
    → Ensures P (m vm)
    → ((a : A) (vm' : Vm) → P a vm' → Ensures Q (f a vm'))
    → Ensures Q ((m >>= f) vm)
unfolding ◌>>=◌
after P Q m f vm h k = bind_cases P Q f (m vm) h k

abbrev pub Keeps : Bytes → {A : Type 0} → Result (A × Vm) → Type 0
Keeps code r = Ensures (λ _ vm. IsValid code vm) r

module _ (code : Bytes) (bytes : IsBytes code) where
  -- One rule for each call that a handler makes before others.
  module _ {A : Type 0} (f : ℕ → M A) (vm : Vm) (v : IsValid code vm) where
    pub then_fetch8 :
        ((op : ℕ) (vm' : Vm) → (op < 256) × IsValid code vm' → Keeps code (f op vm'))
        → Keeps code ((fetch8 code >>= f) vm)
    then_fetch8 = after (λ op vm'. (op < 256) × IsValid code vm') _ (fetch8 code) f vm fetched
      where
        fetched : Ensures (λ op vm'. (op < 256) × IsValid code vm') (fetch8 code vm)
        fetched =
            unfold fetch8 in
            elim (Bool-cases (leb (length code) vm.ip)) [
              | inl out ↦ rw out tt
              | inr within ↦ rw within (
                All-get_or IsByte code vm.ip 0 (omega arith) bytes,
                with_ip code vm v _ (ground arith),
              )
            ]

    pub then_fetch16 :
        ((addr : ℕ) (vm' : Vm) → (addr < 2 ^ 16) × IsValid code vm' → Keeps code (f addr vm'))
        → Keeps code ((fetch16 code >>= f) vm)
    then_fetch16 =
        after (λ addr vm'. (addr < 2 ^ 16) × IsValid code vm') _ (fetch16 code) f vm fetched
      where
        fetched : Ensures (λ addr vm'. (addr < 2 ^ 16) × IsValid code vm') (fetch16 code vm)
        fetched =
            unfold fetch16 in
            elim (Bool-cases (ltb (length code) (vm.ip + 2))) [
              | inl out ↦ rw out tt
              | inr within ↦ rw within (mod-lt _ (omega arith), with_ip code vm v _ (ground arith))
            ]

    pub then_fetch64 :
        ((imm : ℕ) (vm' : Vm) → IsU64 imm × IsValid code vm' → Keeps code (f imm vm'))
        → Keeps code ((fetch64 code >>= f) vm)
    then_fetch64 = after (λ imm vm'. IsU64 imm × IsValid code vm') _ (fetch64 code) f vm fetched
      where
        fetched : Ensures (λ imm vm'. IsU64 imm × IsValid code vm') (fetch64 code vm)
        fetched =
            unfold fetch64 in
            elim (Bool-cases (ltb (length code) (vm.ip + 8))) [
              | inl out ↦ rw out tt
              | inr within ↦ rw within (
                rd_be64-lt (drop vm.ip code) (All-drop IsByte vm.ip code bytes),
                with_ip code vm v _ (ground arith),
              )
            ]

    pub then_get_reg :
        (i : ℕ)
        → ((a : ℕ) (vm' : Vm) → IsU64 a × IsValid code vm' → Keeps code (f a vm'))
        → Keeps code ((get_reg i >>= f) vm)
    then_get_reg i = after (λ a vm'. IsU64 a × IsValid code vm') _ (get_reg i) f vm got
      where
        got : Ensures (λ a vm'. IsU64 a × IsValid code vm') (get_reg i vm)
        got =
            unfold get_reg in
            elim (Bool-cases (leb 16 i)) [
              | inl out ↦ rw out tt
              | inr within ↦ rw within (All-get_or IsU64 vm.reg i 0 (omega arith) v.reg_words, v)
            ]

    pub then_get_mem :
        (i : ℕ)
        → ((a : ℕ) (vm' : Vm) → IsU64 a × IsValid code vm' → Keeps code (f a vm'))
        → Keeps code ((get_mem i >>= f) vm)
    then_get_mem i =
        after (λ a vm'. IsU64 a × IsValid code vm') _ (get_mem i) f vm
          (unfold get_mem in (All-get_or IsU64 vm.mem i 0 (omega arith) v.mem_words, v))

  module _ {A : Type 0} (f : Unit {0} → M A) (m : M (Unit {0})) (vm : Vm) where
    pub then_keep :
        Keeps code (m vm)
        → ((u : Unit {0}) (vm' : Vm) → IsValid code vm' → Keeps code (f u vm'))
        → Keeps code ((m >>= f) vm)
    then_keep = after (λ _ vm'. IsValid code vm') _ m f vm

  pub set_reg-Keeps : (i x : ℕ) (vm : Vm) → IsU64 x → IsValid code vm → Keeps code (set_reg i x vm)
  unfolding set_reg
  set_reg-Keeps i x vm h v = elim (Bool-cases (leb 16 i)) [
    | inl out ↦ rw out tt
    | inr within ↦ rw within (with_reg code vm v i x h)
  ]

  pub set_mem-Keeps : (i x : ℕ) (vm : Vm) → IsU64 x → IsValid code vm → Keeps code (set_mem i x vm)
  unfolding set_mem
  set_mem-Keeps i x vm h v = with_mem code vm v i x h

  pub set_ip-Keeps :
      (addr : ℕ) (vm : Vm) → addr < 2 ^ 16 → IsValid code vm → Keeps code (set_ip addr vm)
  unfolding set_ip
  set_ip-Keeps addr vm h v = with_ip code vm v addr (omega arith)

  pub set_cmp_flags-Keeps :
      (a b : ℕ) (vm : Vm) → IsValid code vm → Keeps code (set_cmp_flags a b vm)
  unfolding set_cmp_flags
  set_cmp_flags-Keeps a b vm v = with_flags code vm v a b

  pub fold_path-Keeps : (taken : Bool) (vm : Vm) → IsValid code vm → Keeps code (fold_path taken vm)
  unfolding fold_path
  fold_path-Keeps taken vm v = with_path code vm v _ (mod-lt _ (omega arith))

  pub move_if-Keeps :
      (taken : Bool) (rd rs : ℕ) (vm : Vm) → IsValid code vm → Keeps code (move_if taken rd rs vm)
  unfolding move_if
  move_if-Keeps true rd rs vm v =
      then_get_reg _ vm v rs λ a vm1 (h, v1). set_reg-Keeps rd a vm1 h v1
  move_if-Keeps false rd rs vm v = v

  pub jump_if-Keeps :
      (taken : Bool) (addr : ℕ) (vm : Vm)
      → addr < 2 ^ 16
      → IsValid code vm
      → Keeps code (jump_if taken addr vm)
  unfolding jump_if
  jump_if-Keeps true addr vm h v = set_ip-Keeps addr vm h v
  jump_if-Keeps false addr vm h v = v

  pub then_cond :
      {A : Type 0} (f : Bool → M A) (c : ℕ) (vm : Vm)
      → IsValid code vm
      → ((b : Bool) (vm' : Vm) → IsValid code vm' → Keeps code (f b vm'))
      → Keeps code ((cond c >>= f) vm)
  then_cond f c vm v =
      after (λ _ vm'. IsValid code vm') _ (cond c) f vm (unfold cond in tested (cond_of vm.flags c))
    where
      tested :
          (r : Result Bool)
          → Ensures (λ _ vm'. IsValid code vm') (elim r [ ok b ↦ ok (b, vm) | err e ↦ err e ])
      tested (ok b) = v
      tested (err e) = tt
