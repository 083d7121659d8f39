-- ===== src/Selftest.antt =====
-- client/tests: the self-tests of the cryptography and of the virtual machine. What they print is
-- held as lines, without the layout of `printf`.
pub mod Vectors
pub mod Calls
pub mod CryptoRun
pub mod VmRun
use crackme.Base.{
  ℕ, ◌+◌, List, [], ◌∷◌, ◌++◌, Bool, Bytes, bit_and, ◌>>>◌, get_or, if◌then◌else◌, ◌==◌, same_bytes,
  Result, ok, ◌>>=◌,
}
use crackme.Config.{ascii}

-- `hex`: two digits for each byte.
unfoldable pub hex : Bytes → Bytes
hex [] = []
hex (x ∷ b) =
    get_or (ascii "0123456789abcdef") (x >>> 4) 0
    ∷ get_or (ascii "0123456789abcdef") (bit_and x 15) 0
    ∷ hex b

pub data Line : Type 0 where
  banner : Bytes → Line
  passed : (name : Bytes) → Line
  failed : (name got want : Bytes) → Line
  untrue : (name : Bytes) → Line
  summary : (failures : ℕ) → Line

-- What was printed, and `g_fail`.
pub record Report : Type 0 where
  pub printed : List Line
  pub failures : ℕ

-- Before the first check.
abbrev pub begun : Bytes → Report
begun title = record { printed = banner title ∷ []; failures = 0 }

unfoldable pub check : Bytes → Bytes → Bytes → Report → Report
check name got want r =
    if same_bytes got want then record r { printed = r.printed ++ (passed name ∷ []) } else record {
      printed = r.printed ++ (failed name (hex got) (hex want) ∷ []);
      failures = r.failures + 1;
    }

unfoldable pub check_true : Bytes → Bool → Report → Report
check_true name cond r =
    if cond
    then record r { printed = r.printed ++ (passed name ∷ []) }
    else record { printed = r.printed ++ (untrue name ∷ []); failures = r.failures + 1 }

-- The calls that a `main` makes of the two, in order; what is compared may throw.
pub data Call : Type 0 where
  compares : (name : Bytes) (got : Result Bytes) (want : Bytes) → Call
  holds : (name : Bytes) (cond : Bool) → Call

unfoldable pub run_checks : List Call → Report → Result Report
run_checks [] r = ok r
run_checks (compares name got want ∷ calls) r = got >>= λ g. run_checks calls (check name g want r)
run_checks (holds name cond ∷ calls) r = run_checks calls (check_true name cond r)

-- The last line and the status.
unfoldable pub conclude : Report → Report × ℕ
conclude r = (
  record r { printed = r.printed ++ (summary r.failures ∷ []) },
  if r.failures == 0 then 0 else 1,
)
