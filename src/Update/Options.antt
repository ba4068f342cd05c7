-- ===== src/Update/Options.antt =====
-- The command line of src/update-binfmts.c. `argp_parse` is not modelled: it calls `parse_opt`
-- once for each option, with its argument and the place in `argv` where the rest stands, and at
-- the end with `ARGP_KEY_SUCCESS`. `argp_error` and `argp_failure` exit with status 2.
pub mod Modes
pub mod Offset
pub mod Reads
pub mod Operands
pub mod Names
pub mod Table
use debian_binfmt_support.Prelude.{
  ℕ, Bool, true, false, not, ◌||◌, ◌&&◌, Option, none, some, List, [], ◌∷◌, ◌++◌, Bytes, text,
  str_eq, isdigit, if◌then◌else◌,
}
use debian_binfmt_support.Action.{Action, pure, crash, exit, ◌>>=◌, ◌>>◌}
use debian_binfmt_support.Error.{complain}
use debian_binfmt_support.Paths.{Paths}
use debian_binfmt_support.Update.Base.{Env, Config, Act, program_name, warn, access_x}
use debian_binfmt_support.Update.Import.{is_reserved}

-- The options that set `mode`, and those that set `type`, of `enum opts`.
pub data Mode : Type 0 where
  install remove import display enable disable find : Mode

pub data SpecType : Type 0 where
  magic extension : SpecType

-- A key that `parse_opt` is called with, and its argument.
pub data Opt : Type 0 where
  opt_mode : Mode → Opt
  opt_type : SpecType → Bytes → Opt
  opt_mask opt_offset opt_detector opt_credentials opt_preserve opt_package : Bytes → Opt
  opt_admindir opt_importdir opt_procdir : Bytes → Opt
  opt_test : Opt
  -- `ARGP_KEY_SUCCESS`
  key_success : Opt
  -- Any other key.
  key_other : Opt

-- `spec`
pub record Spec : Type 0 where
  pub magic : Option Bytes
  pub mask : Option Bytes
  pub offset : Option Bytes
  pub extension : Option Bytes
  pub interpreter : Option Bytes
  pub detector : Option Bytes
  pub credentials : Option Bytes
  pub preserve : Option Bytes

-- The globals that `parse_opt` sets.
pub record Options : Type 0 where
  pub mode : Option Mode
  pub type : Option SpecType
  pub name : Option Bytes
  pub executable : Option Bytes
  pub pkg : Option Bytes
  pub spec : Spec
  pub config : Config

unfoldable pub mode_name : Mode → Bytes
mode_name install = text "install"
mode_name remove = text "remove"
mode_name import = text "import"
mode_name display = text "display"
mode_name enable = text "enable"
mode_name disable = text "disable"
mode_name find = text "find"

unfoldable pub type_name : SpecType → Bytes
type_name magic = text "magic"
type_name extension = text "extension"

all_digits : Bytes → Bool
unfolding isdigit
all_digits [] = true
all_digits (c ∷ cs) = isdigit c && all_digits cs

-- What a call leaves: the globals, and the arguments from `state->next` on.
abbrev pub Parsed : Type 0
Parsed = Options × List Bytes

module _ (E : Env) where
  -- `argp_error` and `argp_failure`: a message, and `argp_err_exit_status`. What argp prints
  -- around the message is not modelled.
  unfoldable pub argp_error : {A : Type 0} → Bytes → Act E A
  argp_error message = do complain (program_name ++ text ": " ++ message ++ text "\n"); exit 2

  not_executable : Bytes → Act E (Unit {0})
  not_executable path = do
    usable ← access_x E path
    if usable
        then pure tt
        else warn E
            (text "no executable " ++ path ++ text " found, but continuing anyway as you request")

  -- `if (mode) argp_error (...); mode = key;`
  set_mode : Mode → Options → Act E Options
  set_mode m o = elim o.mode [
    | some old ↦
        argp_error (text "two modes given: --" ++ mode_name old ++ text " and --" ++ mode_name m)
    | none ↦ pure (record o { mode = some m })
  ]

  set_type : SpecType → Options → Act E Options
  set_type t o = elim o.type [
    | some old ↦ argp_error (
        text "two binary format specifications given: --"
        ++ type_name old
        ++ text " and --"
        ++ type_name t)
    | none ↦ pure (record o { type = some t })
  ]

  -- `OPT_INSTALL` and `OPT_REMOVE` take two arguments.
  take_two : Mode → Options → List Bytes → Act E Parsed
  unfolding not_executable
  take_two m o (name ∷ path ∷ rest) = do
    not_executable path
    pure (record o { name = some name; spec = record (o.spec) { interpreter = some path } }, rest)
  take_two m o _ = argp_error (text "--" ++ mode_name m ++ text " needs <name> <path>")

  -- The others but `OPT_FIND` take one if there is one.
  pub take_name : Options → List Bytes → Parsed
  take_name o (name ∷ rest) = (record o { name = some name }, rest)
  take_name o [] = (o, [])

  take_executable : Options → List Bytes → Act E Parsed
  take_executable o (path ∷ rest) = pure (record o { executable = some path }, rest)
  take_executable o [] = argp_error (text "--find needs <path>")

  take_arguments : Mode → Options → List Bytes → Act E Parsed
  unfolding take_two take_name take_executable
  take_arguments install o rest = take_two install o rest
  take_arguments remove o rest = take_two remove o rest
  take_arguments find o rest = take_executable o rest
  take_arguments _ o rest = pure (take_name o rest)

  abbrev with_spec : Options → Spec → Options
  with_spec o s = record o { spec = s }

  pub type_argument : SpecType → Bytes → Options → Options
  type_argument magic arg o = with_spec o (record (o.spec) { magic = some arg })
  type_argument extension arg o = with_spec o (record (o.spec) { extension = some arg })

  -- `if (field) argp_error (...)`
  once : Bytes → Option Bytes → Act E (Unit {0})
  once label none = pure tt
  once label (some _) = argp_error (text "more than one --" ++ label ++ text " option given")

  -- `if (!strcmp (name, ".") || ...)` on the name of `--install`.
  check_name : Option Bytes → Act E (Unit {0})
  check_name none = crash
  check_name (some name) =
      if is_reserved name
      then argp_error (text "binary format name '" ++ name ++ text "' is reserved")
      else pure tt

  check_install : Options → Act E (Unit {0})
  unfolding check_name
  check_install o = elim o.type [
    | none ↦ argp_error (text "--install requires a <spec> option")
    | some _ ↦ check_name o.name
  ]

  check_mode : Options → Option Mode → Act E (Unit {0})
  unfolding check_install
  check_mode o none = argp_error (
      text
        "you must use one of --install, --remove, --import, --display, --enable, --disable, --find")
  check_mode o (some install) = check_install o
  check_mode o (some _) = pure tt

  abbrev with_paths : Options → Paths → Options
  with_paths o p = record o { config = record (o.config) { paths = p } }

  -- `none` is `ARGP_ERR_UNKNOWN`.
  unfoldable pub parse_opt : Opt → Options → List Bytes → Act E (Option Parsed)
  unfolding set_mode set_type take_arguments type_argument once check_mode all_digits not_executable
  parse_opt (opt_mode m) o rest = do o' ← set_mode m o; p ← take_arguments m o' rest; pure (some p)
  parse_opt (opt_type t arg) o rest = do
    o' ← set_type t o
    pure (some (type_argument t arg o', rest))
  parse_opt (opt_mask arg) o rest = do
    once (text "mask") (o.spec.mask)
    pure (some (with_spec o (record (o.spec) { mask = some arg }), rest))
  parse_opt (opt_offset arg) o rest = do
    once (text "offset") (o.spec.offset)
    if all_digits arg
        then pure (some (with_spec o (record (o.spec) { offset = some arg }), rest))
        else argp_error (text "offset must be a whole number")
  parse_opt (opt_detector arg) o rest = do
    once (text "detector") (o.spec.detector)
    not_executable arg
    pure (some (with_spec o (record (o.spec) { detector = some arg }), rest))
  parse_opt (opt_credentials arg) o rest =
      pure (some (with_spec o (record (o.spec) { credentials = some arg }), rest))
  parse_opt (opt_preserve arg) o rest =
      pure (some (with_spec o (record (o.spec) { preserve = some arg }), rest))
  parse_opt (opt_package arg) o rest = do
    once (text "package") o.pkg
    pure (some (record o { pkg = some arg }, rest))
  parse_opt (opt_admindir arg) o rest =
      pure (some (with_paths o (record (o.config.paths) { admindir = arg }), rest))
  parse_opt (opt_importdir arg) o rest =
      pure (some (with_paths o (record (o.config.paths) { importdir = arg }), rest))
  parse_opt (opt_procdir arg) o rest =
      pure (some (with_paths o (record (o.config.paths) { procdir = arg }), rest))
  parse_opt opt_test o rest =
      pure (some (record o { config = record (o.config) { test = true } }, rest))
  parse_opt key_success o rest = check_mode o o.mode >> pure (some (o, rest))
  parse_opt key_other o rest = pure none
