-- ===== src/Update/Main.antt =====
-- `main` of src/update-binfmts.c, behind what `argp_parse` calls.
pub mod Dry
pub mod Modes
pub mod Digits
pub mod Arguments
pub mod Installs
pub mod Crashes
pub mod Outcomes
use debian_binfmt_support.Prelude.{
  Bool, true, false, Option, none, some, List, [], ◌∷◌, ◌++◌, Bytes, text, if◌then◌else◌,
}
use debian_binfmt_support.Action.{Action, pure, crash, exit, ◌>>=◌, ◌>>◌}
use debian_binfmt_support.Error.{quit}
use debian_binfmt_support.Paths.{Paths}
use debian_binfmt_support.KvHash.{KvLib, kvhash_initialize, kvhash_insert}
use debian_binfmt_support.Format.New.{binfmt_new}
use debian_binfmt_support.Update.Base.{Env, Config, Act, program_name, check_supported_os}
use debian_binfmt_support.Update.Enable.{act_enable}
use debian_binfmt_support.Update.Disable.{act_disable}
use debian_binfmt_support.Update.Install.{act_install}
use debian_binfmt_support.Update.Remove.{act_remove}
use debian_binfmt_support.Update.Import.{act_import}
use debian_binfmt_support.Update.Display.{act_display, act_find}
use debian_binfmt_support.Update.Options.{
  Mode, install, remove, import, display, enable, disable, find, SpecType, magic, extension, Opt,
  Spec, Options, Parsed, type_name, parse_opt,
}

-- The globals as the program starts.
abbrev pub initial_options : Paths → Options
initial_options paths = record {
  mode = none;
  type = none;
  name = none;
  executable = none;
  pkg = none;
  spec = record {
    magic = none;
    mask = none;
    offset = none;
    extension = none;
    interpreter = none;
    detector = none;
    credentials = none;
    preserve = none;
  };
  config = record { test = false; paths = paths };
}

module _ (H : KvLib Bytes) where
  -- `ADD_SPEC (field)`
  add_spec : Bytes → Option Bytes → H.Table → H.Table
  add_spec field none args = args
  add_spec field (some value) args = (kvhash_insert H args field (some value)).1

  -- `(type == OPT_MAGIC) ? "magic" : "extension"`
  unfoldable pub type_value : Option SpecType → Bytes
  type_value (some magic) = text "magic"
  type_value _ = text "extension"

  -- `format_args`
  unfoldable pub format_args : Bytes → Option SpecType → Spec → H.Table
  unfolding add_spec type_value
  format_args pkg type spec =
      let a0 = (kvhash_insert H (kvhash_initialize H) (text "package") (some pkg)).1 in
      let a1 = (kvhash_insert H a0 (text "type") (some (type_value type))).1 in
      let a2 = add_spec (text "magic") spec.magic a1 in
      let a3 = add_spec (text "mask") spec.mask a2 in
      let a4 = add_spec (text "offset") spec.offset a3 in
      let a5 = add_spec (text "extension") spec.extension a4 in
      let a6 = add_spec (text "interpreter") spec.interpreter a5 in
      let a7 = add_spec (text "detector") spec.detector a6 in
      let a8 = add_spec (text "credentials") spec.credentials a7 in
      add_spec (text "preserve") spec.preserve a8

-- `if (!package) package = ":";`
abbrev pub package_or_local : Option Bytes → Bytes
package_or_local (some p) = p
package_or_local none = text ":"

-- The globals behind a call of `parse_opt`.
abbrev pub kept : Options → Option Parsed → Options
kept o none = o
kept o (some p) = p.0

module _ (E : Env) where
  install_name : Options → Option Bytes → Act E Bool
  install_name o none = crash
  install_name o (some name) = do
    binfmt ←
        binfmt_new E.os program_name E.args name
          (format_args E.args (package_or_local o.pkg) o.type o.spec)
    act_install E o.config name binfmt

  remove_name : Options → Option Bytes → Act E Bool
  remove_name o none = crash
  remove_name o (some name) = act_remove E o.config name (package_or_local o.pkg)

  find_path : Options → Option Bytes → Act E Bool
  find_path o none = crash
  find_path o (some path) = act_find E o.config path

  -- The chain of tests of `mode`; with none set `status` stays 0.
  unfoldable pub dispatch : Options → Option Mode → Act E Bool
  unfolding install_name remove_name find_path
  dispatch o none = pure false
  dispatch o (some install) = install_name o o.name
  dispatch o (some remove) = remove_name o o.name
  dispatch o (some import) = act_import E o.config o.name
  dispatch o (some display) = act_display E o.config o.name
  dispatch o (some enable) = act_enable E o.config o.name
  dispatch o (some disable) = act_disable E o.config o.name
  dispatch o (some find) = find_path o o.executable

  -- From the end of the command line on. A return is the exit status 0.
  unfoldable pub run_mode : Options → Act E (Unit {0})
  run_mode o = do
    status ← dispatch o o.mode
    if status then pure tt else quit E.os program_name (text "exiting due to previous errors")

  -- The calls of `parse_opt`, each with the arguments that follow it. A key that is not known is
  -- left to argp.
  unfoldable pub parse_opts : List (Opt × List Bytes) → Options → Act E Options
  parse_opts [] o = pure o
  parse_opts ((key, rest) ∷ calls) o = do p ← parse_opt E key o rest; parse_opts calls (kept o p)

  -- `argp_ok` says that `argp_parse` returns 0.
  unfoldable pub main : List (Opt × List Bytes) → Bool → Paths → Act E (Unit {0})
  main calls argp_ok paths = do
    check_supported_os E
    o ← parse_opts calls (initial_options paths)
    if argp_ok then run_mode o else exit 2
