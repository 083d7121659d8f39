-- ===== src/Vm/Isa/Step.antt =====
-- One step of the class `VM` of client/src/vm/vm.cpp against decoding an instruction and performing it.
use crackme.Base.{arith, ℕ, ◌≡◌, refl, ◌∙◌, Bytes, Result, ok, err, ◌>>=◌}
use crackme.Vm.Machine
use crackme.Vm.Machine.{Vm, M, fetch8, fetch16, fetch64}
use crackme.Vm.Machine.Branches.{bind-ok, bind-err}
use crackme.Vm.Run
use crackme.Vm.Run.{Handler, invoke}
use crackme.Vm.Run.Dispatch.{handler_for}
use crackme.Vm.Run.Direct.{direct_step}
use crackme.Vm.Isa.{
  Instr, mov_rr, load, store, alu, complement, shifted, cmp, cmov, jmp, jcc, call, hash, mixed,
  perform, takes,
}
use crackme.Vm.Isa.Decode.{read8, read16, read64, reg2, reg3, address, operands, decode}

-- Performing what was decoded, from `vm` with `ip_` behind it.
abbrev pub perform_at : Vm → Instr × ℕ → Result (Unit {0} × Vm)
perform_at vm (i, next) = perform i (record vm { ip = next })

-- A fetch and what follows, against a read and what follows: both throw, or both go on.
module _ (read : ℕ → Result (ℕ × ℕ)) (fetch : M ℕ) (k : ℕ → M (Unit {0}))
    (g : ℕ → ℕ → Result (Instr × ℕ)) (vm : Vm)
    (fetches : fetch vm ≡ (read vm.ip >>= λ (x, n). ok (x, record vm { ip = n })))
    (rest : (x n : ℕ) → k x (record vm { ip = n }) ≡ (g x n >>= perform_at vm)) where
  by_read :
      (r : Result (ℕ × ℕ))
      → fetch vm ≡ (r >>= λ (x, n). ok (x, record vm { ip = n }))
      → Machine.◌>>=◌ fetch k vm ≡ (r >>= (λ (x, n). g x n) >>= perform_at vm)
  by_read (err e) h = bind-err fetch k vm e h
  by_read (ok (x, n)) h = bind-ok fetch k vm x _ h ∙ rest x n

  then_read : Machine.◌>>=◌ fetch k vm ≡ (read vm.ip >>= (λ (x, n). g x n) >>= perform_at vm)
  then_read = by_read (read vm.ip) fetches

module _ (code : Bytes) where
  fetch8-read8 :
      (vm : Vm) → fetch8 code vm ≡ (read8 code vm.ip >>= λ (x, n). ok (x, record vm { ip = n }))
  unfolding fetch8 read8
  fetch8-read8 vm = ground arith

  fetch16-read16 :
      (vm : Vm) → fetch16 code vm ≡ (read16 code vm.ip >>= λ (x, n). ok (x, record vm { ip = n }))
  unfolding fetch16 read16
  fetch16-read16 vm = ground arith

  fetch64-read64 :
      (vm : Vm) → fetch64 code vm ≡ (read64 code vm.ip >>= λ (x, n). ok (x, record vm { ip = n }))
  unfolding fetch64 read64
  fetch64-read64 vm = ground arith

  module _ (k : ℕ → M (Unit {0})) (g : ℕ → ℕ → Result (Instr × ℕ)) (vm : Vm)
      (rest : (x n : ℕ) → k x (record vm { ip = n }) ≡ (g x n >>= perform_at vm)) where
    then_read8 :
        Machine.◌>>=◌ (fetch8 code) k vm
        ≡ (read8 code vm.ip >>= (λ (x, n). g x n) >>= perform_at vm)
    then_read8 = then_read (read8 code) (fetch8 code) k g vm (fetch8-read8 vm) rest

    then_read16 :
        Machine.◌>>=◌ (fetch16 code) k vm
        ≡ (read16 code vm.ip >>= (λ (x, n). g x n) >>= perform_at vm)
    then_read16 = then_read (read16 code) (fetch16 code) k g vm (fetch16-read16 vm) rest

    then_read64 :
        Machine.◌>>=◌ (fetch64 code) k vm
        ≡ (read64 code vm.ip >>= (λ (x, n). g x n) >>= perform_at vm)
    then_read64 = then_read (read64 code) (fetch64 code) k g vm (fetch64-read64 vm) rest

  -- Two and three registers, and an address.
  module _ (vm : Vm) where
    then_reg2 :
        (k : ℕ → ℕ → M (Unit {0})) (make : ℕ → ℕ → Instr)
        → ((a b n : ℕ) → k a b (record vm { ip = n }) ≡ perform (make a b) (record vm { ip = n }))
        → Machine.◌>>=◌ (fetch8 code) (λ a. Machine.◌>>=◌ (fetch8 code) (k a)) vm
          ≡ (reg2 code make vm.ip >>= perform_at vm)
    then_reg2 k make same =
        then_read8 _ _ vm λ a n. then_read8 _ _ (record vm { ip = n }) λ b n'. same a b n'

    then_reg3 :
        (k : ℕ → ℕ → ℕ → M (Unit {0})) (make : ℕ → ℕ → ℕ → Instr)
        → ((a b c n : ℕ)
            → k a b c (record vm { ip = n }) ≡ perform (make a b c) (record vm { ip = n }))
        → Machine.◌>>=◌
            (fetch8 code)
            (λ a. Machine.◌>>=◌ (fetch8 code) (λ b. Machine.◌>>=◌ (fetch8 code) (k a b)))
            vm
          ≡ (reg3 code make vm.ip >>= perform_at vm)
    then_reg3 k make same = then_read8 _ _ vm λ a n.
        then_read8 _ _ (record vm { ip = n })
          λ b n'. then_read8 _ _ (record vm { ip = n' }) λ c n''. same a b c n''

    then_address :
        (k : ℕ → M (Unit {0})) (make : ℕ → Instr)
        → ((a n : ℕ) → k a (record vm { ip = n }) ≡ perform (make a) (record vm { ip = n }))
        → Machine.◌>>=◌ (fetch16 code) k vm ≡ (address code make vm.ip >>= perform_at vm)
    then_address k make same = then_read16 _ _ vm λ a n. same a n

  -- A handler reads its operands, and then does what its instruction does.
  invoke-perform :
      (h : Handler) (op : ℕ) (vm : Vm)
      → invoke code h op vm ≡ (operands code h op vm.ip >>= perform_at vm)
  unfolding invoke operands perform takes Machine.h_nop Machine.h_mov_ri Machine.h_mov_rr
      Machine.h_load Machine.h_store Machine.h_alu3 Machine.h_not Machine.h_shift Machine.h_cmp
      Machine.h_cmov Machine.h_jmp Machine.h_jcc Machine.h_call Machine.h_ret Machine.h_hash
      Machine.h_mix Machine.h_halt Machine.h_unknown
  invoke-perform Run.h_nop op vm = refl
  invoke-perform Run.h_mov_ri op vm =
      then_read8 _ _ vm λ rd n. then_read64 _ _ (record vm { ip = n }) λ imm n'. refl
  invoke-perform Run.h_mov_rr op vm = then_reg2 vm _ mov_rr λ _ _ _. refl
  invoke-perform Run.h_load op vm = then_reg2 vm _ load λ _ _ _. refl
  invoke-perform Run.h_store op vm = then_reg2 vm _ store λ _ _ _. refl
  invoke-perform Run.h_alu3 op vm = then_reg3 vm _ (alu op) λ _ _ _ _. refl
  invoke-perform Run.h_not op vm = then_reg2 vm _ complement λ _ _ _. refl
  invoke-perform Run.h_shift op vm = then_reg3 vm _ (shifted op) λ _ _ _ _. refl
  invoke-perform Run.h_cmp op vm = then_reg2 vm _ cmp λ _ _ _. refl
  invoke-perform Run.h_cmov op vm = then_reg3 vm _ cmov λ _ _ _ _. refl
  invoke-perform Run.h_jmp op vm = then_address vm _ jmp λ _ _. refl
  invoke-perform Run.h_jcc op vm = then_address vm _ (jcc op) λ _ _. refl
  invoke-perform Run.h_call op vm = then_address vm _ call λ _ _. refl
  invoke-perform Run.h_ret op vm = refl
  invoke-perform Run.h_hash op vm = then_reg3 vm _ hash λ _ _ _ _. refl
  invoke-perform Run.h_mix op vm = then_reg2 vm _ mixed λ _ _ _. refl
  invoke-perform Run.h_halt op vm = then_read8 _ _ vm λ operand n. refl
  invoke-perform Run.h_unknown op vm = refl

  -- On any code, one step is to decode the instruction at `ip_` and to perform it from behind it; it
  -- throws what the decoding throws, before any register is looked at, or what the performing does.
  pub direct_step-decode : (vm : Vm) → direct_step code vm ≡ (decode code vm.ip >>= perform_at vm)
  unfolding direct_step decode
  direct_step-decode vm =
      then_read8 _ _ vm λ op n. invoke-perform (handler_for op) op (record vm { ip = n })
