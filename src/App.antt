-- ===== src/App.antt =====
-- `parse_args` of client/src/app.cpp (`run_app` is in App/Shell); the arguments are those behind the program's name.
pub mod Shell
pub mod Granted
pub mod Exit
pub mod Protection
pub mod Arguments
use crackme.Base.{
  [], ◌∷◌, List, Bool, true, false, Bytes, same_bytes, ◌||◌, if◌then◌else◌, Result, ok, err, ◌>>=◌,
  missing_value, unknown_argument,
}
use crackme.Config.{ascii}

pub record Args : Type 0 where
  pub server : Bytes
  pub username : Bytes
  pub license : Bytes
  pub have_username : Bool
  pub have_license : Bool
  pub no_protection : Bool
  pub verbose : Bool
  pub help : Bool

abbrev pub default_args : Args
default_args = record {
  server = ascii "http://127.0.0.1:31337";
  username = [];
  license = [];
  have_username = false;
  have_license = false;
  no_protection = false;
  verbose = false;
  help = false;
}

-- An argument that takes a value, by what the value does; the other arguments.
unfoldable pub with_value : Bytes → Bytes → Args → Result Args
with_value s value a =
    if same_bytes s (ascii "--server")
    then ok (record a { server = value })
    else if same_bytes s (ascii "--username") || same_bytes s (ascii "-u")
    then ok (record a { username = value; have_username = true })
    else ok (record a { license = value; have_license = true })

unfoldable pub takes_value : Bytes → Bool
takes_value s =
    same_bytes s (ascii "--server")
    || same_bytes s (ascii "--username")
    || same_bytes s (ascii "-u")
    || same_bytes s (ascii "--license")
    || same_bytes s (ascii "-l")

unfoldable pub switch_on : Bytes → Args → Result Args
switch_on s a =
    if same_bytes s (ascii "--no-protection")
    then ok (record a { no_protection = true })
    else if same_bytes s (ascii "--verbose") || same_bytes s (ascii "-v")
    then ok (record a { verbose = true })
    else if same_bytes s (ascii "--help") || same_bytes s (ascii "-h")
    then ok (record a { help = true })
    else err unknown_argument

unfoldable pub args_loop : List Bytes → Args → Result Args
args_loop [] a = ok a
args_loop (s ∷ []) a = if takes_value s then err missing_value else switch_on s a
args_loop (s ∷ value ∷ rest) a =
    let valued = with_value s value a >>= λ a'. args_loop rest a' in
    let switched = switch_on s a >>= λ a'. args_loop (value ∷ rest) a' in
    if takes_value s then valued else switched

unfoldable pub parse_args : List Bytes → Result Args
parse_args argv = args_loop argv default_args
