-- ===== src/App/Shell.antt =====
-- `run_app` of client/src/app.cpp, and `main`, which forwards to it. What it prints is a list of
-- `Line`s; the progress messages of `run_session` are left out.

use crackme.Base.{
  ℕ, [], ◌∷◌, ◌++◌, List, map, Bool, true, false, not, Bytes, if◌then◌else◌, Error, Result, ok, err,
  ◌>>=◌, libsodium_init_failed,
}
use crackme.Config.{ascii}
use crackme.App.{Args, parse_args}
use crackme.Guards.{GuardLine, Windows, run_guards}
use crackme.Decoys.{DecoyLine, decoy_preflight}
use crackme.Http.{WinHttp, http_client, split_at, get, post}
use crackme.Sodium.{Sodium}
use crackme.Challenge.License.{normalize_username, decode_license}
use crackme.Protocol.Session.{Draws, run_session}

-- What the program meets: whether `sodium_init` succeeds, Windows, the network, with `rounds` for the
-- loop of `request`, libsodium, the random draws, and the lines of the standard input.
pub record World : Type 0 where
  pub sodium_ready : Bool
  pub os : Windows
  pub win : WinHttp
  pub rounds : ℕ
  pub na : Sodium
  pub draws : Draws
  pub input : List Bytes

pub data Line : Type 0 where
  error_line : Error → Line
  help_text : Line
  banner : Line
  protection_disabled : Line
  guard_line : GuardLine → Line
  prompt_label : Bytes → Line
  decoy_line : DecoyLine → Line
  session_error : Error → Line
  access_granted : Bytes → Line
  access_denied : Line

-- A run: what it printed, and the exit code or the exception that leaves `main`.
pub record Run : Type 0 where
  pub printed : List Line
  pub status : Result ℕ

-- The line read, which is empty at the end of the input, and the lines left.
unfoldable pub getline : List Bytes → Bytes × List Bytes
getline [] = ([], [])
getline (line ∷ input) = (line, input)

-- `have ? given : prompt (label)`: the text, what is printed for it, and the input left.
unfoldable pub given_or_prompt : Bool → Bytes → Bytes → List Bytes → Bytes × List Line × List Bytes
given_or_prompt true given label input = (given, [], input)
given_or_prompt false given label input =
    let (line, rest) = getline input in (line, prompt_label label ∷ [], rest)

-- `net::run_session`, the constructor of its client included.
unfoldable pub net_session : World → Bytes → Bytes → Bytes → Result Bytes
net_session w server_url username_norm license_struct = http_client server_url >>= λ client.
    run_session w.na (record { get = get w.win w.rounds client; post = post w.win w.rounds client })
      w.draws username_norm license_struct

-- What the `try` block computes.
unfoldable pub attempt : World → Args → Bytes → Bytes → Result Bytes
attempt w args username license = do
  uname ← normalize_username username
  lic ← decode_license license
  net_session w args.server uname lic

-- A `std::string` as `printf` prints its `c_str`: up to the first NUL.
unfoldable pub c_str : Bytes → Bytes
c_str s = (split_at 0 s).0

-- The end of the `try` block, and its handler.
unfoldable pub verdict : Bool → Result Bytes → Run
verdict verbose (ok flag) = record { printed = access_granted (c_str flag) ∷ []; status = ok 0 }
verdict verbose (err e) = record {
  printed = (if verbose then session_error e ∷ [] else []) ++ (access_denied ∷ []);
  status = ok 1;
}

unfoldable pub printing : List Line → Run → Run
printing before r = record { printed = before ++ r.printed; status = r.status }

unfoldable pub protection_lines : Windows → Args → List Line
protection_lines os args =
    if not args.no_protection
    then map guard_line (run_guards os args.verbose)
    else if args.verbose
    then protection_disabled ∷ []
    else []

-- The two texts, and what the prompts for them print.
unfoldable pub credentials : Args → List Bytes → Bytes × Bytes × List Line
credentials args input =
    let (username, asked, rest) =
      given_or_prompt args.have_username args.username (ascii "Username   : ") input in
    let (license, asked', rest') =
      given_or_prompt args.have_license args.license (ascii "License key: ") rest in
    (username, license, asked ++ asked')

-- From the guards on.
unfoldable pub portal : World → Args → Run
portal w args =
    let (username, license, asked) = credentials args w.input in
    let (code, decoys) = decoy_preflight username license args.verbose in
    printing (protection_lines w.os args ++ (asked ++ map decoy_line decoys))
      (verdict args.verbose (attempt w args username license))

unfoldable pub after_args : World → Args → Run
after_args w args =
    if args.help
    then record { printed = help_text ∷ []; status = ok 0 }
    else if not w.sodium_ready
    then record { printed = banner ∷ []; status = err libsodium_init_failed }
    else printing (banner ∷ []) (portal w args)

unfoldable pub after_parse : World → Result Args → Run
after_parse w (err e) = record { printed = error_line e ∷ help_text ∷ []; status = ok 2 }
after_parse w (ok args) = after_args w args

unfoldable pub run_app : World → List Bytes → Run
run_app w argv = after_parse w (parse_args argv)
