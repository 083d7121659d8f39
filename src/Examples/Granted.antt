-- ===== src/Examples/Granted.antt =====
-- A whole run of the program with an honest server: the flag is the last line.
use crackme.Base.{◌≡◌, ◌++◌, refl, arith, List, [], ◌∷◌, ok, replicate}
use crackme.Config.{ascii}
use crackme.Challenge.License.RoundTrip.{encode_license}
use crackme.Vm.Program.Vectors.{username, license}
use crackme.App.Shell.{Line, access_granted, c_str, credentials, given_or_prompt, run_app}
use crackme.App.Granted.{run_app-granted}
use crackme.Examples.Honest.{lawful-IsSodium, honest, honest-IsServer, client, pk, pk_json, answers}
use crackme.Examples.Shell.{world, arguments, parsed, arguments_parsed, named, decoded, connected}

run_app-granted_example :
    ((run_app world (arguments (encode_license license))).status ≡ ok 0)
    × ((before : List Line) × ((run_app world (arguments (encode_license license))).printed
          ≡ before ++ (access_granted (c_str (ascii "FLAG")) ∷ [])))
unfolding credentials given_or_prompt
run_app-granted_example =
    run_app-granted world (arguments (encode_license license)) (parsed (encode_license license))
      honest client username license pk_json pk (replicate 32 1) (replicate 32 1)
      (arguments_parsed (encode_license license)) refl refl lawful-IsSodium honest-IsServer
      (omega arith) named decoded connected answers
