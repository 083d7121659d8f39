-- ===== src/Vm/Machine/Branches.antt =====
-- The binds and the fetches of client/src/vm/vm.cpp, branch by branch.
use crackme.Base.{
  ℕ, ◌+◌, ◌<◌, ◌≡◌, refl, ◌⊎◌, inl, inr, arith, Bytes, IsByte, IsBytes, Bool-cases, length, get_or,
  All-get_or, Error, ok, err, leb, vm_ip_out_of_range,
}
use crackme.Vm.Machine.{Vm, M, ◌>>=◌, fetch8}

module _ {A B : Type 0} (m : M A) (f : A → M B) (vm : Vm) where
  pub bind-ok : (a : A) (vm' : Vm) → m vm ≡ ok (a, vm') → (m >>= f) vm ≡ f a vm'
  unfolding ◌>>=◌
  bind-ok a vm' e = rw (e, ◌>>=◌)

  pub bind-err : (x : Error) → m vm ≡ err x → (m >>= f) vm ≡ err x
  unfolding ◌>>=◌
  bind-err x e = rw (e, ◌>>=◌)

-- A fetched byte is the code's at `ip_`, which moves on; behind the code there is the error.
pub fetch8_cases :
    (code : Bytes) (vm : Vm)
    → IsBytes code
    → (fetch8 code vm ≡ err vm_ip_out_of_range)
      ⊎ ((op : ℕ) × (op < 256) × (fetch8 code vm ≡ ok (op, record vm { ip = vm.ip + 1 })))
unfolding fetch8
fetch8_cases code vm bytes = elim (Bool-cases (leb (length code) vm.ip)) [
  | inl out ↦ inl (rw out refl)
  | inr within ↦
      inr (get_or code vm.ip 0, All-get_or IsByte code vm.ip 0 (omega arith) bytes, rw within refl)
]
