-- ===== src/Tests/CommandLine.antt =====
-- Options, and what they leave.
use debian_binfmt_support.Prelude.{◌≡◌, refl, some, List, [], ◌∷◌, Bytes, text, str_eq, isdigit}
use debian_binfmt_support.Action.Ensures.{Ensures}
use debian_binfmt_support.Argp.{ArgpOption, find_long, handed}
use debian_binfmt_support.Update.Options.Table.{Key, mask, options, spelling, opt_of, call_of}
use debian_binfmt_support.Update.Options.Table.Handled.{Handled, options-Handled}
use debian_binfmt_support.Action.{done, ◌>>=◌}
use debian_binfmt_support.Os.Memory.{memory}
use debian_binfmt_support.Error.{observe}
use debian_binfmt_support.Update.Base.{access_x}
use debian_binfmt_support.Update.Options.{Opt, Options, install, opt_mode, opt_offset, parse_opt}
use debian_binfmt_support.Update.Options.Offset.{IsWhole}
use debian_binfmt_support.Update.Main.{initial_options, parse_opts}
use debian_binfmt_support.Update.Main.Digits.{parse_opts-IsWhole}
use debian_binfmt_support.Tests.{env, paths, machine, installed}

-- A command line that is accepted.
abbrev installing : List (Opt × List Bytes)
installing = (opt_mode install, text "jar" ∷ text "/j" ∷ []) ∷ (opt_offset (text "12"), []) ∷ []

abbrev accepted : Options
accepted = record (initial_options paths) {
  mode = some install;
  name = some (text "jar");
  spec = record ((initial_options paths).spec) {
    interpreter = some (text "/j");
    offset = some (text "12");
  };
}

options_are_accepted :
    (parse_opts env installing (initial_options paths) installed).0 ≡ done accepted
unfolding parse_opts parse_opt ◌>>=◌ access_x observe memory machine str_eq isdigit text
options_are_accepted = refl

parse_opts-IsWhole_example : IsWhole (some (text "12"))
parse_opts-IsWhole_example =
    parse_opts-IsWhole env installing paths installed accepted options_are_accepted

options-Handled_example :
    (row : ArgpOption Key) × (find_long (spelling mask) (options paths) ≡ some row)
    × (row.key ≡ mask)
    × (call_of mask (handed row (text "ff")) ≡ some (opt_of mask (text "ff")))
    × Ensures Handled (parse_opt env (opt_of mask (text "ff")) accepted [])
options-Handled_example = options-Handled env paths mask (text "ff") accepted []
