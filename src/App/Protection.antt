-- ===== src/App/Protection.antt =====
-- The protections of `run_app` of client/src/app.cpp gate nothing.
use crackme.Base.{
  ℕ, ◌≡◌, refl, ap, sym, ◌∙◌, [], ◌∷◌, ◌++◌, List, map, Bool, true, false, not, Bool-cases, ◌||◌,
  inl, inr, Bytes, Result, ok, err, ◌>>=◌, same_bytes, if◌then◌else◌,
}
use crackme.Config.{ascii}
use crackme.App.{Args, default_args, with_value, takes_value, switch_on, args_loop, parse_args}
use crackme.Guards.{Windows, GuardLine, run_guards}
use crackme.Decoys.{decoy_preflight}
use crackme.App.Shell.{
  World, Line, net_session, banner, protection_disabled, guard_line, decoy_line, protection_lines,
  Run, credentials, attempt, verdict, printing, portal, after_args, after_parse, run_app,
}

-- The arguments with the protections off.
abbrev unprotected : Args → Args
unprotected a = record a { no_protection = true }

-- A step that commutes with `unprotected`, before one that does.
>>=-unprotected :
    (first first' : Result Args) (next : Args → Result Args)
    → first' ≡ (first >>= λ a. ok (unprotected a))
    → ((a : Args) → next (unprotected a) ≡ (next a >>= λ a'. ok (unprotected a')))
    → (first' >>= next) ≡ (first >>= next >>= λ a. ok (unprotected a))
>>=-unprotected (err e) first' next h commutes = rw h refl
>>=-unprotected (ok a) first' next h commutes = rw h (commutes a)

with_value-unprotected :
    (s value : Bytes) (a : Args)
    → with_value s value (unprotected a) ≡ (with_value s value a >>= λ a'. ok (unprotected a'))
unfolding with_value
with_value-unprotected s value a = elim (Bool-cases (same_bytes s (ascii "--server"))) [
  | inl h ↦ simp h refl
  | inr h ↦ elim (Bool-cases (same_bytes s (ascii "--username") || same_bytes s (ascii "-u"))) [
    | inl h' ↦ simp (h, h') refl
    | inr h' ↦ simp (h, h') refl
  ]
]

switch_on-unprotected :
    (s : Bytes) (a : Args)
    → switch_on s (unprotected a) ≡ (switch_on s a >>= λ a'. ok (unprotected a'))
unfolding switch_on
switch_on-unprotected s a = elim (Bool-cases (same_bytes s (ascii "--no-protection"))) [
  | inl h ↦ simp h refl
  | inr h ↦ elim (Bool-cases (same_bytes s (ascii "--verbose") || same_bytes s (ascii "-v"))) [
    | inl h' ↦ simp (h, h') refl
    | inr h' ↦ elim (Bool-cases (same_bytes s (ascii "--help") || same_bytes s (ascii "-h"))) [
      | inl h'' ↦ simp (h, h', h'') refl
      | inr h'' ↦ simp (h, h', h'') refl
    ]
  ]
]

args_loop-unprotected :
    (argv : List Bytes) (a : Args)
    → args_loop argv (unprotected a) ≡ (args_loop argv a >>= λ a'. ok (unprotected a'))
unfolding args_loop
args_loop-unprotected [] a = refl
args_loop-unprotected (s ∷ []) a = elim (Bool-cases (takes_value s)) [
  | inl h ↦ simp h refl
  | inr h ↦ simp h (switch_on-unprotected s a)
]
args_loop-unprotected (s ∷ value ∷ rest) a = elim (Bool-cases (takes_value s)) [
  | inl h ↦ simp h (
      >>=-unprotected (with_value s value a) _ (args_loop rest) (with_value-unprotected s value a)
        (args_loop-unprotected rest))
  | inr h ↦ simp h (
      >>=-unprotected (switch_on s a) _ (args_loop (value ∷ rest)) (switch_on-unprotected s a)
        (args_loop-unprotected (value ∷ rest)))
]

parse_args-unprotected :
    (argv : List Bytes)
    → parse_args (ascii "--no-protection" ∷ argv) ≡ (parse_args argv >>= λ a. ok (unprotected a))
unfolding parse_args args_loop switch_on takes_value same_bytes
parse_args-unprotected [] = refl
parse_args-unprotected (s ∷ rest) = args_loop-unprotected (s ∷ rest) default_args

-- What is printed but for the lines about the protections.
unfoldable pub about_protection : Line → Bool
about_protection (guard_line g) = true
about_protection protection_disabled = true
about_protection line = false

unfoldable pub outcome_lines : List Line → List Line
outcome_lines [] = []
outcome_lines (line ∷ lines) =
    let rest = outcome_lines lines in if about_protection line then rest else line ∷ rest

outcome_lines-append :
    (p q : List Line) → outcome_lines (p ++ q) ≡ outcome_lines p ++ outcome_lines q
unfolding outcome_lines
outcome_lines-append [] q = refl
outcome_lines-append (line ∷ p) q = elim (Bool-cases (about_protection line)) [
  | inl h ↦ rw h (outcome_lines-append p q)
  | inr h ↦ rw h (ap (λ l. line ∷ l) (outcome_lines-append p q))
]

outcome_lines-map : (guards : List GuardLine) → outcome_lines (map guard_line guards) ≡ []
unfolding outcome_lines about_protection
outcome_lines-map [] = refl
outcome_lines-map (g ∷ guards) = outcome_lines-map guards

outcome_lines-protection_lines :
    (os : Windows) (args : Args) → outcome_lines (protection_lines os args) ≡ []
unfolding protection_lines
outcome_lines-protection_lines os args = elim (Bool-cases args.no_protection) [
  | inl h ↦ elim (Bool-cases args.verbose) [
    | inl h' ↦ simp (h, h') (unfold outcome_lines about_protection in refl)
    | inr h' ↦ simp (h, h') (unfold outcome_lines in refl)
  ]
  | inr h ↦ simp h (outcome_lines-map (run_guards os args.verbose))
]

-- The outcome of a run: the status, and what is printed but for the lines about the protections.
unfoldable pub outcome : Run → List Line × Result ℕ
outcome r = (outcome_lines r.printed, r.status)

outcome-printing :
    (before : List Line) (r : Run)
    → outcome (printing before r) ≡ (outcome_lines before ++ (outcome r).0, (outcome r).1)
unfolding outcome printing
outcome-printing before r = rw (outcome_lines-append before r.printed) refl

outcome_lines-after :
    (os os' : Windows) (args args' : Args) (rest : List Line)
    → outcome_lines (protection_lines os args ++ rest)
      ≡ outcome_lines (protection_lines os' args' ++ rest)
outcome_lines-after os os' args args' rest =
    rw
      (
        outcome_lines-append (protection_lines os args) rest,
        outcome_lines-append (protection_lines os' args') rest,
        outcome_lines-protection_lines os args,
        outcome_lines-protection_lines os' args',
      )
      refl

attempt-unprotected :
    (w : World) (os : Windows) (args : Args) (username license : Bytes)
    → attempt (record w { os = os }) (unprotected args) username license
      ≡ attempt w args username license
unfolding attempt net_session
attempt-unprotected w os args username license = refl

credentials-unprotected :
    (args : Args) (input : List Bytes)
    → credentials (unprotected args) input ≡ credentials args input
unfolding credentials
credentials-unprotected args input = refl

portal-unprotected :
    (w : World) (os : Windows) (args : Args)
    → outcome (portal (record w { os = os }) (unprotected args)) ≡ outcome (portal w args)
unfolding portal
portal-unprotected w os args =
    let (username, license, asked) = credentials args w.input in
    let (code, decoys) = decoy_preflight username license args.verbose in
    let rest = asked ++ map decoy_line decoys in
    let end = verdict args.verbose (attempt w args username license) in
    rw (credentials-unprotected args w.input, attempt-unprotected w os args username license)
      (outcome-printing (protection_lines os (unprotected args) ++ rest) end
        ∙ ap (λ (lines : List Line). (lines ++ (outcome end).0, (outcome end).1))
            (outcome_lines-after os w.os (unprotected args) args rest)
        ∙ sym (outcome-printing (protection_lines w.os args ++ rest) end))

-- Two runs that differ in their last branch.
outcome-last :
    (b c : Bool) (first second third third' : Run)
    → outcome third ≡ outcome third'
    → outcome (if b then first else if c then second else third)
      ≡ outcome (if b then first else if c then second else third')
outcome-last true c first second third third' h = refl
outcome-last false true first second third third' h = refl
outcome-last false false first second third third' h = h

after_parse-unprotected :
    (w : World) (os : Windows) (parsed : Result Args)
    → outcome (after_parse (record w { os = os }) (parsed >>= λ a. ok (unprotected a)))
      ≡ outcome (after_parse w parsed)
unfolding after_parse after_args
after_parse-unprotected w os (err e) = refl
after_parse-unprotected w os (ok args) =
    let r = portal w args in
    let r' = portal (record w { os = os }) (unprotected args) in
    let same : outcome r' ≡ outcome r = portal-unprotected w os args in
    outcome-last args.help (not w.sodium_ready) _ _ (printing (banner ∷ []) r')
      (printing (banner ∷ []) r)
      (outcome-printing (banner ∷ []) r'
        ∙ ap (λ (o : List Line × Result ℕ). (outcome_lines (banner ∷ []) ++ o.0, o.1)) same
        ∙ sym (outcome-printing (banner ∷ []) r))

-- The protections gate nothing: switched off, and on any Windows whatever its debuggers and its
-- loaded image are, a run has the same status, and prints the same but for the lines about the
-- protections.
pub run_app-unprotected :
    (w : World) (os : Windows) (argv : List Bytes)
    → outcome (run_app (record w { os = os }) (ascii "--no-protection" ∷ argv))
      ≡ outcome (run_app w argv)
unfolding run_app
run_app-unprotected w os argv =
    rw (parse_args-unprotected argv) (after_parse-unprotected w os (parse_args argv))
