-- ===== src/Vm/Run/Dispatch.antt =====
-- The dispatch through the permuted table of client/src/vm/vm.cpp against a direct `switch`.
use mathlib.Core.Path.{subst}
use crackme.Base.{
  ℕ, ◌<◌, ◌≡◌, refl, sym, ap, ◌∙◌, List, [], ◌∷◌, true, inl, inr, arith, ◌==◌, ==_iff, Bool-cases,
  if◌then◌else◌, length, length-set, get_or, set, get_or-set_self, get_or-set_ne, All, replicate,
  get_or-replicate,
}
use crackme.Base.Tables.{holds_below, holds_below-at}
use crackme.Vm.Op
use crackme.Vm.Run.{
  Handler, h_nop, h_mov_ri, h_mov_rr, h_load, h_store, h_alu3, h_not, h_shift, h_cmp, h_cmov, h_jmp,
  h_jcc, h_call, h_ret, h_hash, h_mix, h_halt, h_unknown, dispatch_rows, set_rows,
  build_dispatch_table,
}
use crackme.Vm.Run.Permutation.{IsPermutation}

-- The handler of an opcode, as a `switch` has it.
unfoldable pub handler_for : ℕ → Handler
handler_for op =
    if op == Op.nop
    then h_nop
    else if op == Op.mov_ri
    then h_mov_ri
    else if op == Op.mov_rr
    then h_mov_rr
    else if op == Op.load
    then h_load
    else if op == Op.store
    then h_store
    else if op == Op.add
    then h_alu3
    else if op == Op.sub
    then h_alu3
    else if op == Op.mul
    then h_alu3
    else if op == Op.xor
    then h_alu3
    else if op == Op.and
    then h_alu3
    else if op == Op.or
    then h_alu3
    else if op == Op.not
    then h_not
    else if op == Op.rol
    then h_shift
    else if op == Op.ror
    then h_shift
    else if op == Op.shl
    then h_shift
    else if op == Op.shr
    then h_shift
    else if op == Op.cmp
    then h_cmp
    else if op == Op.cmov
    then h_cmov
    else if op == Op.jmp
    then h_jmp
    else if op == Op.jz
    then h_jcc
    else if op == Op.jnz
    then h_jcc
    else if op == Op.call
    then h_call
    else if op == Op.ret
    then h_ret
    else if op == Op.hash_round
    then h_hash
    else if op == Op.mix
    then h_mix
    else if op == Op.halt
    then h_halt
    else h_unknown

-- The last row for an opcode wins.
pick : List (ℕ × Handler) → ℕ → Handler → Handler
pick [] op h = h
pick ((o, h') ∷ rows) op h = pick rows op (if o == op then h' else h)

abbrev OpsInRange : List (ℕ × Handler) → Type 0
OpsInRange rows = All (λ (row : ℕ × Handler). row.0 < 256) rows

module _ (perm : List ℕ) (p : IsPermutation perm) (op : ℕ) (h : op < 256) where
  get_or-set_row :
      (table : List Handler) (o : ℕ) (h' : Handler)
      → length table ≡ 256
      → o < 256
      → get_or (set table (get_or perm o 0) h') (get_or perm op 0) h_unknown
        ≡ (if o == op then h' else get_or table (get_or perm op 0) h_unknown)
  get_or-set_row table o h' size ho = elim (Bool-cases (o == op)) [
    | inl same ↦ rw same (
        subst (λ t. get_or (set table (get_or perm o 0) h') (get_or perm t 0) h_unknown ≡ h')
          ((==_iff o op).0 same)
          (get_or-set_self table (get_or perm o 0) h' h_unknown (omega (arith, p.in_range o ho))))
    | inr other ↦ rw other (
        get_or-set_ne table (get_or perm o 0) (get_or perm op 0) h' h_unknown
          (λ e. ground (arith, p.distinct o op ho h e)))
  ]

  get_or-set_rows :
      (rows : List (ℕ × Handler)) (table : List Handler)
      → length table ≡ 256
      → OpsInRange rows
      → get_or (set_rows perm rows table) (get_or perm op 0) h_unknown
        ≡ pick rows op (get_or table (get_or perm op 0) h_unknown)
  unfolding set_rows pick
  get_or-set_rows [] table size ops = refl
  get_or-set_rows ((o, h') ∷ rows) table size ops =
      get_or-set_rows rows _ (length-set table _ h' ∙ size) ops.1
      ∙ ap (pick rows op) (get_or-set_row table o h' size ops.0)

-- Handlers are told apart by a number.
number : Handler → ℕ
number h_nop = 0
number h_mov_ri = 1
number h_mov_rr = 2
number h_load = 3
number h_store = 4
number h_alu3 = 5
number h_not = 6
number h_shift = 7
number h_cmp = 8
number h_cmov = 9
number h_jmp = 10
number h_jcc = 11
number h_call = 12
number h_ret = 13
number h_hash = 14
number h_mix = 15
number h_halt = 16
number h_unknown = 17

abbrev numbered : List Handler
numbered =
    h_nop ∷ h_mov_ri ∷ h_mov_rr ∷ h_load ∷ h_store ∷ h_alu3 ∷ h_not ∷ h_shift ∷ h_cmp ∷ h_cmov
    ∷ h_jmp ∷ h_jcc ∷ h_call ∷ h_ret ∷ h_hash ∷ h_mix ∷ h_halt ∷ h_unknown ∷ []

of_number : (h : Handler) → get_or numbered (number h) h_unknown ≡ h
unfolding number
of_number h_nop = refl
of_number _ = refl

number_injective : (g h : Handler) → number g ≡ number h → g ≡ h
number_injective g h e = sym (of_number g) ∙ ap (λ n. get_or numbered n h_unknown) e ∙ of_number h

rows_agree :
    holds_below 256 (λ op. number (pick dispatch_rows op h_unknown) == number (handler_for op))
    ≡ true
unfolding holds_below number pick handler_for
rows_agree = refl

-- Through any permutation of the slots, the table leads every opcode byte to the handler that a
-- direct `switch` has for it.
pub build_dispatch_table-handler_for :
    (perm : List ℕ) (op : ℕ)
    → IsPermutation perm
    → op < 256
    → get_or (build_dispatch_table perm) (get_or perm op 0) h_unknown ≡ handler_for op
unfolding build_dispatch_table
build_dispatch_table-handler_for perm op p h =
    get_or-set_rows perm p op h dispatch_rows (replicate 256 h_unknown) refl (omega arith)
    ∙ ap (pick dispatch_rows op) (get_or-replicate 256 (get_or perm op 0) h_unknown)
    ∙ number_injective _ _ ((==_iff _ _).0 (holds_below-at _ 256 rows_agree op h))
