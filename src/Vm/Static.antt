-- ===== src/Vm/Static.antt =====
-- A static check for code of the machine of client/src/vm/vm.cpp: it follows `ip_`, the stack and
-- what is known of the registers and the flags, and both sides of a branch that depends on the rest.
pub mod Sound
pub mod Performs
pub mod Certified
use crackme.Base.{
  ℕ, zero, suc, List, [], ◌∷◌, Bool, true, false, ◌&&◌, ◌||◌, Bytes, leb, ◌==◌, if◌then◌else◌, set,
  get_or, Option, none, some, Result, ok, err, same_bytes,
}
use crackme.Vm.Machine.{alu3, cmp_flags}
use crackme.Vm.Isa.{
  Instr, nop, mov_ri, mov_rr, load, store, alu, complement, shifted, cmp, cmov, jmp, jcc, call, ret,
  hash, mixed, halt, unknown, takes,
}
use crackme.Vm.Isa.Decode.{decode}

-- What is known of a state: `none` is anything.
pub record Abstract : Type 0 where
  pub ip : ℕ
  pub regs : List (Option ℕ)
  pub flags : Option ℕ
  pub stack : List ℕ

-- What an instruction may do: throw, go on, go on in one of two ways, or halt with an operand.
pub data Outcome : Type 0 where
  stuck : Outcome
  goes : Abstract → Outcome
  forks : Abstract → Abstract → Outcome
  halts : ℕ → Outcome

-- `i` has to be a register.
unfoldable pub needing : ℕ → Outcome → Outcome
needing i o = if leb 16 i then stuck else o

unfoldable pub put : Abstract → ℕ → Option ℕ → Outcome
put a rd x = needing rd (goes (record a { regs = set a.regs rd x }))

abbrev pub reg_of : Abstract → ℕ → Option ℕ
reg_of a i = get_or a.regs i none

unfoldable pub both : (ℕ → ℕ → ℕ) → Option ℕ → Option ℕ → Option ℕ
both f (some x) (some y) = some (f x y)
both f x y = none

unfoldable pub branch : Abstract → ℕ → ℕ → Option ℕ → Outcome
branch a op addr none = forks (record a { ip = addr }) a
branch a op addr (some f) = if takes op f then goes (record a { ip = addr }) else goes a

unfoldable pub popped : Abstract → List ℕ → Outcome
popped a [] = stuck
popped a (top ∷ rest) = goes (record a { ip = top; stack = rest })

unfoldable pub abstractly : Instr → Abstract → Outcome
abstractly nop a = goes a
abstractly (mov_ri rd imm) a = put a rd (some imm)
abstractly (mov_rr rd rs) a = needing rs (put a rd (reg_of a rs))
abstractly (load rd areg) a = needing areg (put a rd none)
abstractly (store areg rs) a = needing rs (needing areg (goes a))
abstractly (alu op rd ra rb) a =
    needing ra (needing rb (put a rd (both (alu3 op) (reg_of a ra) (reg_of a rb))))
abstractly (complement rd ra) a = needing ra (put a rd none)
abstractly (shifted op rd ra imm) a = needing ra (put a rd none)
abstractly (cmp ra rb) a =
    needing ra (needing rb (goes (record a { flags = both cmp_flags (reg_of a ra) (reg_of a rb) })))
abstractly (cmov rd rs c) a = if leb 6 c then stuck else needing rs (put a rd none)
abstractly (jmp addr) a = goes (record a { ip = addr })
abstractly (jcc op addr) a = branch a op addr a.flags
abstractly (call addr) a = goes (record a { stack = a.ip ∷ a.stack; ip = addr })
abstractly ret a = popped a a.stack
abstractly (hash rd ra rb) a = needing ra (needing rb (put a rd none))
abstractly (mixed rd ra) a = needing rd (needing ra (put a rd none))
abstractly (halt operand) a = halts operand
abstractly unknown a = halts 0xFD

-- The instruction at `a.ip`.
unfoldable pub decoded : Abstract → Result (Instr × ℕ) → Outcome
decoded a (err e) = stuck
decoded a (ok (i, next)) = abstractly i (record a { ip = next })

unfoldable pub advance : Bytes → Abstract → Outcome
advance code a = decoded a (decode code a.ip)

-- Each state that `b` describes is described by `a`.
unfoldable pub covers_value : Option ℕ → Option ℕ → Bool
covers_value none y = true
covers_value (some x) none = false
covers_value (some x) (some y) = x == y

unfoldable pub covers_all : List (Option ℕ) → List (Option ℕ) → Bool
covers_all [] [] = true
covers_all (x ∷ xs) (y ∷ ys) = covers_value x y && covers_all xs ys
covers_all xs ys = false

unfoldable pub covers : Abstract → Abstract → Bool
covers a b =
    (a.ip == b.ip)
    && (covers_value a.flags b.flags && (same_bytes a.stack b.stack && covers_all a.regs b.regs))

unfoldable pub covers_goal : Option Abstract → Abstract → Bool
covers_goal none b = false
covers_goal (some a) b = covers a b

-- Nothing throws, a halt has the operand, and each way on passes.
unfoldable pub judge : (Abstract → Bool) → ℕ → Outcome → Bool
judge passes operand stuck = false
judge passes operand (goes a) = passes a
judge passes operand (forks a b) = passes a && passes b
judge passes operand (halts x) = x == operand

-- Within `fuel` instructions every way from `a` comes to the goal, or halts with `operand`.
unfoldable pub check : Bytes → ℕ → Option Abstract → ℕ → Abstract → Bool
check code operand goal zero a = covers_goal goal a
check code operand goal (suc fuel) a = elim (covers_goal goal a) [
  | true ↦ true
  | false ↦ judge (check code operand goal fuel) operand (advance code a)
]

-- From each point of the list every way comes to the next, and from the last to a halt.
unfoldable pub certified : Bytes → ℕ → ℕ → List Abstract → Bool
certified code operand fuel [] = false
certified code operand fuel (a ∷ []) = check code operand none fuel a
certified code operand fuel (a ∷ b ∷ rest) =
    check code operand (some b) fuel a && certified code operand fuel (b ∷ rest)
