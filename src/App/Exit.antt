-- ===== src/App/Exit.antt =====
-- The exit codes of `run_app` of client/src/app.cpp.
use crackme.Base.{
  ℕ, ◌≡◌, refl, ap, sym, ◌∙◌, [], ◌∷◌, ◌++◌, List, map, true, false, Bytes, Error, ok, err,
}
use crackme.App.{Args, parse_args}
use crackme.App.Shell.{
  World, Line, banner, protection_lines, decoy_line, access_denied, access_granted, Run,
  credentials, attempt, net_session, verdict, printing, portal, after_args, after_parse, run_app,
  c_str,
}
use crackme.Sodium.{Sodium}
use crackme.Guards.{Windows}
use crackme.Decoys.{decoy_preflight}
use crackme.Http.{WinHttp}
use crackme.Protocol.Session.{Draws}
use crackme.Challenge.License.{normalize_username, decode_license}

-- What a run with the exit code 0 has done, unless it was asked for help: the last line that it
-- printed is the payload.
unfoldable pub Succeeded : World → Args → List Line → Type 0
Succeeded w args printed =
    let (username, license, asked) = credentials args w.input in
    (uname : Bytes) × (lic : Bytes) × (flag : Bytes) × (before : List Line) × (normalize_username
        username
      ≡ ok uname)
    × (decode_license license ≡ ok lic)
    × (net_session w args.server uname lic ≡ ok flag)
    × (printed ≡ before ++ (access_granted (c_str flag) ∷ []))

-- The lines in front of the verdict.
pub portal_lines : World → Args → List Line
portal_lines w args =
    let (username, license, asked) = credentials args w.input in
    let (code, decoys) = decoy_preflight username license args.verbose in
    banner ∷ (protection_lines w.os args ++ (asked ++ map decoy_line decoys))

pub after_args-portal :
    (w : World) (args : Args)
    → args.help ≡ false
    → w.sodium_ready ≡ true
    → let (username, license, asked) = credentials args w.input in
      after_args w args
      ≡ printing (portal_lines w args) (verdict args.verbose (attempt w args username license))
unfolding after_args portal portal_lines printing
after_args-portal w args hh hr = simp (hh, hr) refl

-- The run of a failure that is not explained.
denied_run : Windows → List Bytes → Args → Run
denied_run os input args =
    let (username, license, asked) = credentials args input in
    let (code, decoys) = decoy_preflight username license args.verbose in
    printing (banner ∷ []) (
      printing (protection_lines os args ++ (asked ++ map decoy_line decoys))
        (record { printed = access_denied ∷ []; status = ok 1 }))

run_app-denied_run :
    (w : World) (argv : List Bytes) (args : Args) (e : Error)
    → parse_args argv ≡ ok args
    → args.help ≡ false
    → args.verbose ≡ false
    → w.sodium_ready ≡ true
    → let (username, license, asked) = credentials args w.input in
      attempt w args username license ≡ err e → run_app w argv ≡ denied_run w.os w.input args
unfolding run_app after_parse after_args portal verdict denied_run
run_app-denied_run w argv args e hp hh hv hr h = simp (hp, hh, hr, h, hv) refl

-- What the answers of the network and of libsodium, and the random draws, can change.
unfoldable pub elsewhere : World → Sodium → WinHttp → ℕ → Draws → World
elsewhere w na win rounds draws = record w { na = na; win = win; rounds = rounds; draws = draws }

-- Without `--verbose` and `--help` a failure says nothing about its cause: once libsodium has
-- started, two runs with the same arguments, on the same machine and with the same input, that fail
-- at any stage, even with another network, another behaviour of libsodium and other random draws,
-- print the same and exit with 1.
pub run_app-denied :
    (w : World) (na : Sodium) (win : WinHttp) (rounds : ℕ) (draws : Draws) (argv : List Bytes)
    → (args : Args) (e e' : Error) → parse_args argv ≡ ok args
    → args.help ≡ false
    → args.verbose ≡ false
    → w.sodium_ready ≡ true
    → let (username, license, asked) = credentials args w.input in
      attempt w args username license ≡ err e
      → attempt (elsewhere w na win rounds draws) args username license ≡ err e'
      → (run_app w argv ≡ run_app (elsewhere w na win rounds draws) argv)
        × ((run_app w argv).status ≡ ok 1)
unfolding elsewhere
run_app-denied w na win rounds draws argv args e e' hp hh hv hr h h' =
    let run = run_app-denied_run w argv args e hp hh hv hr h in
    let run' = run_app-denied_run (elsewhere w na win rounds draws) argv args e' hp hh hv hr h' in
    let code : (denied_run w.os w.input args).status ≡ ok 1 = unfold denied_run printing in refl in
    (run ∙ sym run', ap (λ (r : Run). r.status) run ∙ code)
