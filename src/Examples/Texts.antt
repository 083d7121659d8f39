-- ===== src/Examples/Texts.antt =====
-- The theorems on what the user types, and on what the decoys make of it.
use crackme.Base.{◌≡◌, bit_xor, refl, arith, [], map, true, false, ok}
use crackme.Base.Fnv.{fnv1a, fnv1a_from}
use crackme.Config.{ascii}
use crackme.Challenge.License.{decode_license, normalize_username, is_ws, trim}
use crackme.Challenge.License.RoundTrip.{encode_license, decode_license-encode_license}
use crackme.Challenge.License.Blanks.{without_ws, decode_license-without_ws}
use crackme.Challenge.License.Shape.{lowered}
use crackme.Challenge.License.Idempotent.{normalize_username_twice}
use crackme.Vm.Program.Vectors.{license}
use crackme.App.{Args, parse_args}
use crackme.App.Arguments.{to_argv, parse_args-to_argv}
use crackme.Decoys.{input_hash, opaque_true, opaque_false}
use crackme.Decoys.Predicates.{input_hash-fnv1a, opaque_constant}

decode_license-encode_license_example : decode_license (encode_license license) ≡ ok license
decode_license-encode_license_example =
    decode_license-encode_license license (omega arith) refl refl

decode_license-without_ws_example :
    decode_license (without_ws (ascii "RG6-A B")) ≡ decode_license (ascii "RG6-A B")
decode_license-without_ws_example = decode_license-without_ws (ascii "RG6-A B")

player_name : normalize_username (ascii " Player1 ") ≡ ok (ascii "player1")
unfolding normalize_username is_ws
player_name = refl

normalize_username_twice_example :
    (ascii "player1" ≡ map lowered (trim (ascii " Player1 ")))
    × (normalize_username (ascii "player1") ≡ ok (ascii "player1"))
normalize_username_twice_example =
    normalize_username_twice (ascii " Player1 ") (ascii "player1") player_name

abbrev typed : Args
typed = record {
  server = ascii "http://h:1";
  username = ascii "a";
  license = [];
  have_username = true;
  have_license = false;
  no_protection = true;
  verbose = false;
  help = false;
}

parse_args-to_argv_example : parse_args (to_argv typed) ≡ ok typed
parse_args-to_argv_example = parse_args-to_argv typed (λ e. absurd (cc e)) (λ e. refl)

opaque_constant_example : (opaque_true 0x1337 ≡ true) × (opaque_false 0x1337 ≡ false)
opaque_constant_example = opaque_constant 0x1337

input_hash-fnv1a_example :
    input_hash (ascii "player1") (ascii "RG6")
    ≡ fnv1a_from (bit_xor (fnv1a (ascii "player1")) 0x7C) (ascii "RG6")
input_hash-fnv1a_example = input_hash-fnv1a (ascii "player1") (ascii "RG6")
