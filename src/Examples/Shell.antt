-- ===== src/Examples/Shell.antt =====
-- Whole runs of the program: one that is granted, one that is denied, and one without protections.
use crackme.Base.{
  ◌≡◌, refl, true, false, [], ◌∷◌, List, arith, none, Bytes, same_bytes, ok, err,
  license_bad_layout,
}
use crackme.Config.{ascii}
use crackme.Challenge.License.{normalize_username, decode_license, is_ws}
use crackme.Challenge.License.RoundTrip.{encode_license, decode_license-encode_license}
use crackme.Guards.{Windows}
use crackme.Http.{
  WinHttp, http_client, stoi_signed, skip_space, signed_value, starts_with_digit, is_digit,
  digits_value, split_at, stoi, without_scheme, with_port,
}
use crackme.App.{Args, default_args, parse_args, args_loop, takes_value, with_value}
use crackme.App.Shell.{World, attempt, credentials, given_or_prompt, run_app}
use crackme.App.Exit.{elsewhere, run_app-denied}
use crackme.App.Protection.{outcome, run_app-unprotected}
use crackme.Vm.Program.Vectors.{username, license}
use crackme.Examples.Network.{machine}
use crackme.Examples.Honest.{lawful, draws, network, client}

abbrev pub world : World
world = record {
  sodium_ready = true;
  os = machine;
  win = network;
  rounds = 2;
  na = lawful;
  draws = draws;
  input = [];
}

abbrev pub arguments : Bytes → List Bytes
arguments key = ascii "-u" ∷ ascii "player1" ∷ ascii "-l" ∷ key ∷ []

abbrev pub parsed : Bytes → Args
parsed key = record default_args {
  username = ascii "player1";
  have_username = true;
  license = key;
  have_license = true;
}

pub arguments_parsed : (key : Bytes) → parse_args (arguments key) ≡ ok (parsed key)
unfolding parse_args args_loop takes_value with_value same_bytes
arguments_parsed key = refl

pub named : normalize_username (ascii "player1") ≡ ok username
unfolding normalize_username
named = refl

pub connected : http_client (default_args.server) ≡ ok client
unfolding http_client split_at stoi without_scheme with_port same_bytes stoi_signed skip_space
    signed_value starts_with_digit is_digit digits_value
connected = refl

pub decoded : decode_license (encode_license license) ≡ ok license
decoded = decode_license-encode_license license (omega arith) refl refl

not_a_license : decode_license (ascii "x") ≡ err license_bad_layout
unfolding decode_license is_ws same_bytes
not_a_license = refl

-- A network that is down, and a Windows without a debugger.
abbrev other_network : WinHttp
other_network = record network { open_session = false }

abbrev quiet : Windows
quiet = record machine { is_debugger_present = false; module_image = none }

bad_license_elsewhere :
    attempt
      (record world { na = lawful; win = other_network; rounds = 7; draws = draws })
      (parsed (ascii "x"))
      (ascii "player1")
      (ascii "x")
    ≡ err license_bad_layout
unfolding attempt
bad_license_elsewhere = rw (named, not_a_license) refl

bad_license :
    attempt world (parsed (ascii "x")) (ascii "player1") (ascii "x") ≡ err license_bad_layout
unfolding attempt
bad_license = rw (named, not_a_license) refl

run_app-denied_example :
    (run_app world (arguments (ascii "x"))
      ≡ run_app (elsewhere world lawful other_network 7 draws) (arguments (ascii "x")))
    × ((run_app world (arguments (ascii "x"))).status ≡ ok 1)
run_app-denied_example =
    run_app-denied world lawful other_network 7 draws (arguments (ascii "x")) (parsed (ascii "x"))
      license_bad_layout license_bad_layout (arguments_parsed (ascii "x")) refl refl refl
      (unfold credentials given_or_prompt in bad_license)
      (unfold credentials given_or_prompt elsewhere in bad_license_elsewhere)

run_app-unprotected_example :
    outcome (run_app (record world { os = quiet }) (ascii "--no-protection" ∷ ascii "-v" ∷ []))
    ≡ outcome (run_app world (ascii "-v" ∷ []))
run_app-unprotected_example = run_app-unprotected world quiet (ascii "-v" ∷ [])
