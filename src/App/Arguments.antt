-- ===== src/App/Arguments.antt =====
-- What `parse_args` of client/src/app.cpp accepts.
use crackme.Base.{◌≡◌, refl, ◌∙◌, [], ◌∷◌, ◌++◌, List, Bool, true, false, Bytes, ok, same_bytes}
use crackme.Config.{ascii}
use crackme.App.{Args, default_args, with_value, takes_value, switch_on, args_loop, parse_args}

-- An option with its value, and a switch, if they are set.
abbrev option : Bool → Bytes → Bytes → List Bytes
option true name value = name ∷ value ∷ []
option false name value = []

abbrev switch : Bool → Bytes → List Bytes
switch true name = name ∷ []
switch false name = []

-- A command line that sets the fields of `a`.
unfoldable pub to_argv : Args → List Bytes
to_argv a =
    ascii "--server"
    ∷ a.server
    ∷ (option a.have_username (ascii "--username") a.username
        ++ (option a.have_license (ascii "--license") a.license
            ++ (switch a.no_protection (ascii "--no-protection")
                ++ (switch a.verbose (ascii "--verbose") ++ switch a.help (ascii "--help")))))

-- One switch in front of the rest.
switch_step :
    (s : Bytes) (rest : List Bytes) (a a' : Args)
    → takes_value s ≡ false
    → switch_on s a ≡ ok a'
    → args_loop (s ∷ rest) a ≡ args_loop rest a'
unfolding args_loop
switch_step s [] a a' h e = rw (h, e) refl
switch_step s (value ∷ rest) a a' h e = rw (h, e) refl

username_step :
    (b : Bool) (u : Bytes) (rest : List Bytes) (a : Args)
    → (b ≡ false → u ≡ [])
    → args_loop
        (option b (ascii "--username") u ++ rest)
        (record a { username = []; have_username = false })
      ≡ args_loop rest (record a { username = u; have_username = b })
unfolding args_loop with_value takes_value same_bytes
username_step true u rest a h = refl
username_step false u rest a h = rw (h refl) refl

license_step :
    (b : Bool) (l : Bytes) (rest : List Bytes) (a : Args)
    → (b ≡ false → l ≡ [])
    → args_loop
        (option b (ascii "--license") l ++ rest)
        (record a { license = []; have_license = false })
      ≡ args_loop rest (record a { license = l; have_license = b })
unfolding args_loop with_value takes_value same_bytes
license_step true l rest a h = refl
license_step false l rest a h = rw (h refl) refl

no_protection_step :
    (b : Bool) (rest : List Bytes) (a : Args)
    → args_loop (switch b (ascii "--no-protection") ++ rest) (record a { no_protection = false })
      ≡ args_loop rest (record a { no_protection = b })
unfolding switch_on takes_value same_bytes
no_protection_step true rest a = switch_step (ascii "--no-protection") rest _ _ refl refl
no_protection_step false rest a = refl

verbose_step :
    (b : Bool) (rest : List Bytes) (a : Args)
    → args_loop (switch b (ascii "--verbose") ++ rest) (record a { verbose = false })
      ≡ args_loop rest (record a { verbose = b })
unfolding switch_on takes_value same_bytes
verbose_step true rest a = switch_step (ascii "--verbose") rest _ _ refl refl
verbose_step false rest a = refl

help_step :
    (b : Bool) (a : Args)
    → args_loop (switch b (ascii "--help")) (record a { help = false }) ≡ ok (record a { help = b })
unfolding args_loop switch_on takes_value same_bytes
help_step true a = refl
help_step false a = refl

server_step :
    (server : Bytes) (rest : List Bytes)
    → parse_args (ascii "--server" ∷ server ∷ rest)
      ≡ args_loop rest (record default_args { server = server })
unfolding parse_args args_loop with_value takes_value same_bytes
server_step server rest = refl

-- The command line of `a` is parsed back to `a`, if a user name or license that is not given is empty.
pub parse_args-to_argv :
    (a : Args)
    → (a.have_username ≡ false → a.username ≡ [])
    → (a.have_license ≡ false → a.license ≡ [])
    → parse_args (to_argv a) ≡ ok a
unfolding to_argv
parse_args-to_argv a hu hl =
    let flags = switch a.verbose (ascii "--verbose") ++ switch a.help (ascii "--help") in
    let flags' = switch a.no_protection (ascii "--no-protection") ++ flags in
    let named = option a.have_license (ascii "--license") a.license ++ flags' in
    server_step a.server (option a.have_username (ascii "--username") a.username ++ named)
    ∙ username_step a.have_username a.username named (record default_args { server = a.server }) hu
    ∙ license_step a.have_license a.license flags'
        (record a {
          license = [];
          have_license = false;
          no_protection = false;
          verbose = false;
          help = false;
        })
        hl
    ∙ no_protection_step a.no_protection flags
        (record a { no_protection = false; verbose = false; help = false })
    ∙ verbose_step a.verbose (switch a.help (ascii "--help"))
        (record a { verbose = false; help = false })
    ∙ help_step a.help (record a { help = false })
