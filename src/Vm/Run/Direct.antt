-- ===== src/Vm/Run/Direct.antt =====
-- The machine of client/src/vm/vm.cpp without the permuted table: one step by the opcode, runs as
-- a step relation, and the loop in terms of it.
use mathlib.Core.Path.{subst}
use crackme.Base.{
  ℕ, zero, suc, ◌+◌, ◌≤◌, ◌≡◌, refl, sym, ap, ◌∙◌, List, true, false, inl, inr, arith, Bytes,
  IsBytes, Bool-cases, Result, ok, err, ◌>>=◌, >>=-eq-ok,
}
use crackme.Vm.Machine
use crackme.Vm.Machine.{Vm, M, fetch8}
use crackme.Vm.Machine.Branches.{bind-ok, bind-err, fetch8_cases}
use crackme.Vm.Run.{invoke, build_dispatch_table, step, run_loop}
use crackme.Vm.Run.Permutation.{IsPermutation}
use crackme.Vm.Run.Dispatch.{handler_for, build_dispatch_table-handler_for}

unfoldable pub direct_step : Bytes → M (Unit {0})
direct_step code = Machine.◌>>=◌ (fetch8 code) λ op. invoke code (handler_for op) op

step-direct_step :
    (code : Bytes) (perm : List ℕ) (vm : Vm)
    → IsBytes code
    → IsPermutation perm
    → step code perm (build_dispatch_table perm) vm ≡ direct_step code vm
unfolding step direct_step
step-direct_step code perm vm bytes p = elim (fetch8_cases code vm bytes) [
  | inl e ↦ bind-err (fetch8 code) _ vm _ e ∙ sym (bind-err (fetch8 code) _ vm _ e)
  | inr (op, small, e) ↦
      bind-ok (fetch8 code) _ vm op _ e
      ∙ ap (λ h. invoke code h op (record vm { ip = vm.ip + 1 }))
          (build_dispatch_table-handler_for perm op p small)
      ∙ sym (bind-ok (fetch8 code) _ vm op _ e)
]

-- `Runs code n vm w`: from `vm`, `n` steps of a machine that has not halted lead to `w`.
pub data Runs (code : Bytes) : ℕ → Vm → Vm → Type 0 where
  here : (vm : Vm) → Runs code zero vm vm
  next :
      {n : ℕ} {vm w : Vm} (vm' : Vm)
      → vm.halted ≡ false
      → direct_step code vm ≡ ok (tt, vm')
      → Runs code n vm' w
      → Runs code (suc n) vm w

-- How the loop ends with `left` rounds to go: at a machine that has halted, or at the step limit
-- with the operand 0xEE.
pub data Ends (code : Bytes) (left : ℕ) (vm w : Vm) : Type 0 where
  at_halt : (n : ℕ) → n ≤ left → Runs code n vm w → w.halted ≡ true → Ends code left vm w
  at_limit :
      (u : Vm)
      → Runs code left vm u
      → u.halted ≡ false
      → w ≡ record u { halt_operand = 0xEE }
      → Ends code left vm w

Ends-next :
    (code : Bytes) (left : ℕ) (vm vm' w : Vm)
    → vm.halted ≡ false
    → direct_step code vm ≡ ok (tt, vm')
    → Ends code left vm' w
    → Ends code (suc left) vm w
Ends-next code left vm vm' w live e (at_halt n h r d) =
    at_halt (suc n) (omega arith) (next vm' live e r) d
Ends-next code left vm vm' w live e (at_limit u r d q) = at_limit u (next vm' live e r) d q

bind_same :
    {f g : Vm → Result Vm} (r : Result (Unit {0} × Vm))
    → ((vm : Vm) → f vm ≡ g vm)
    → (r >>= λ (_, vm). f vm) ≡ (r >>= λ (_, vm). g vm)
bind_same (ok (_, vm)) h = h vm
bind_same (err x) h = refl

module _ (code : Bytes) (perm : List ℕ) (bytes : IsBytes code) (p : IsPermutation perm) where
  abbrev loop : ℕ → Vm → Result Vm
  loop left vm = run_loop code perm (build_dispatch_table perm) left vm

  loop_done : (left : ℕ) (vm : Vm) → vm.halted ≡ true → loop left vm ≡ ok vm
  unfolding run_loop
  loop_done zero vm e = ground arith
  loop_done (suc left) vm e = ground arith

  loop_limit : (vm : Vm) → vm.halted ≡ false → loop 0 vm ≡ ok (record vm { halt_operand = 0xEE })
  unfolding run_loop
  loop_limit vm e = ground arith

  loop_live :
      (left : ℕ) (vm : Vm)
      → vm.halted ≡ false
      → loop (suc left) vm
        ≡ (step code perm (build_dispatch_table perm) vm >>= λ (_, vm'). loop left vm')
  unfolding run_loop
  loop_live left vm e = ground arith

  loop_next :
      (left : ℕ) (vm : Vm)
      → vm.halted ≡ false
      → loop (suc left) vm ≡ (direct_step code vm >>= λ (_, vm'). loop left vm')
  loop_next left vm e =
      loop_live left vm e
      ∙ ap (λ r. r >>= λ (_, vm'). loop left vm') (step-direct_step code perm vm bytes p)

  -- A loop that returns has run by the steps of the opcodes alone, through the permuted table, and
  -- it ends at a halt within the rounds, or at the step limit with operand 0xEE.
  pub run_loop-Ends : (left : ℕ) (vm w : Vm) → loop left vm ≡ ok w → Ends code left vm w
  run_loop-Ends zero vm w e = elim (Bool-cases vm.halted) [
    | inl done ↦
        let same : vm ≡ w = cc (loop_done 0 vm done) in
        at_halt 0 (omega arith) (subst (λ u. Runs code 0 vm u) same (here vm))
          (subst (λ u. u.halted ≡ true) same done)
    | inr live ↦ at_limit vm (here vm) live (cc (loop_limit vm live))
  ]
  run_loop-Ends (suc left) vm w e = elim (Bool-cases vm.halted) [
    | inl done ↦
        let same : vm ≡ w = cc (loop_done (suc left) vm done) in
        at_halt 0 (omega arith) (subst (λ u. Runs code 0 vm u) same (here vm))
          (subst (λ u. u.halted ≡ true) same done)
    | inr live ↦
        let ((u, vm'), stepped, rest) =
          >>=-eq-ok (direct_step code vm) _ (sym (loop_next left vm live) ∙ e) in
        Ends-next code left vm vm' w live stepped (run_loop-Ends left vm' w rest)
  ]

-- A run to a halt within the rounds is what the loop returns.
pub Runs-run_loop :
    (code : Bytes) (perm : List ℕ)
    → IsBytes code
    → IsPermutation perm
    → {n : ℕ} {vm w : Vm} → (left : ℕ) → n ≤ left
    → Runs code n vm w
    → w.halted ≡ true
    → run_loop code perm (build_dispatch_table perm) left vm ≡ ok w
Runs-run_loop code perm bytes p left few (here vm) done = loop_done code perm bytes p left vm done
Runs-run_loop code perm bytes p zero few (next vm' live e r) done = absurd (omega arith)
Runs-run_loop code perm bytes p (suc left) few (next {vm = vm} vm' live e r) done =
    loop_next code perm bytes p left vm live
    ∙ ap (λ q. q >>= λ (_, u). run_loop code perm (build_dispatch_table perm) left u) e
    ∙ Runs-run_loop code perm bytes p left (omega arith) r done

-- What the loop does does not depend on the permutation.
pub run_loop_same :
    (code : Bytes) (perm perm' : List ℕ)
    → IsBytes code
    → IsPermutation perm
    → IsPermutation perm'
    → (left : ℕ) (vm : Vm)
    → run_loop code perm (build_dispatch_table perm) left vm
      ≡ run_loop code perm' (build_dispatch_table perm') left vm
run_loop_same code perm perm' bytes p p' zero vm = unfold run_loop in refl
run_loop_same code perm perm' bytes p p' (suc left) vm = elim (Bool-cases vm.halted) [
  | inl done ↦
      loop_done code perm bytes p (suc left) vm done
      ∙ sym (loop_done code perm' bytes p' (suc left) vm done)
  | inr live ↦
      loop_next code perm bytes p left vm live
      ∙ bind_same (direct_step code vm) (λ vm'. run_loop_same code perm perm' bytes p p' left vm')
      ∙ sym (loop_next code perm' bytes p' left vm live)
]
