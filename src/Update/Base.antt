-- ===== src/Update/Base.antt =====
-- What the actions of src/update-binfmts.c share: its globals, and its small helpers.
pub mod Reads
pub mod Tables
pub mod Files
use debian_binfmt_support.Prelude.{
  ℕ, Bool, true, false, Option, none, some, List, [], ◌∷◌, ◌++◌, Bytes, text, str_eq, path_in, ◌==◌,
  if◌then◌else◌,
}
use debian_binfmt_support.Action.{Outcome, done, Action, pure, exit, gets, call, ◌>>=◌, ◌>>◌}
use debian_binfmt_support.Os.{Os, Machine}
use debian_binfmt_support.Error.{
  observe, system, print, complain, warning, warning_err, quit, quit_err, kind_exists, kind_is_file,
  kind_is_directory,
}
use debian_binfmt_support.Paths.{Paths}
use debian_binfmt_support.KvHash.{
  KvLib, KvElem, kvhash_exists, kvhash_lookup, kvhash_insert, kvhash_delete,
}
use debian_binfmt_support.Format.{Binfmt}

-- The system, and the hash tables of formats (`formats`) and of named values.
pub record Env : Type 1 where
  pub os : Os
  pub formats : KvLib Binfmt
  pub args : KvLib Bytes

-- The globals that the command line sets and the actions only read.
pub record Config : Type 0 where
  pub test : Bool
  pub paths : Paths

abbrev pub State : Env → Type 0
State E = Machine E.os.State E.formats.Table

abbrev pub Act : Env → Type 0 → Type 0
Act E = Action (State E)

abbrev pub program_name : Bytes
program_name = text "update-binfmts"

-- The globals that `main` makes of the directories.
abbrev pub path_register : Config → Bytes
path_register c = path_in c.paths.procdir (text "register")

abbrev pub path_status : Config → Bytes
path_status c = path_in c.paths.procdir (text "status")

abbrev pub run_detectors : Config → Bytes
run_detectors c = path_in c.paths.auxdir (text "run-detectors")

-- `package = "<local>"` where the package is ":".
unfoldable pub shown_package : Bytes → Bytes
shown_package p = if str_eq p (text ":") then text "<local>" else p

module _ (E : Env) where
  abbrev pub warn : Bytes → Act E (Unit {0})
  warn = warning E.os program_name

  abbrev pub warn_err : Bytes → Act E (Unit {0})
  warn_err = warning_err E.os program_name

  unfoldable pub exists : Bytes → Act E Bool
  exists name = observe λ s. kind_exists (E.os.stat s name)

  unfoldable pub is_file : Bytes → Act E Bool
  is_file name = observe λ s. kind_is_file (E.os.stat s name)

  unfoldable pub is_directory : Bytes → Act E Bool
  is_directory name = observe λ s. kind_is_directory (E.os.stat s name)

  unfoldable pub access_x : Bytes → Act E Bool
  access_x name = observe λ s. E.os.executable s name

  -- `pipeline_run (pipeline_new_command_args (...)) == 0`
  unfoldable pub runs : List Bytes → Act E Bool
  runs argv = do status ← system (E.os.run argv); pure (status == 0)

  -- `kvhash_exists (formats, name)`, and so on.
  unfoldable pub formats_exists : Bytes → Act E Bool
  formats_exists name = gets λ m. kvhash_exists E.formats m.table name

  unfoldable pub formats_lookup : Bytes → Act E (Option Binfmt)
  formats_lookup name = gets λ m. kvhash_lookup E.formats m.table name

  unfoldable pub formats_insert : Bytes → Option Binfmt → Act E (Unit {0})
  formats_insert name b =
      call λ m. (tt, record m { table = (kvhash_insert E.formats m.table name b).1 })

  unfoldable pub formats_delete : Bytes → Act E (Unit {0})
  formats_delete name =
      call λ m. (tt, record m { table = (kvhash_delete E.formats m.table name).1 })

  -- `HASH_FOR_EACH (format_iter, formats)`: the entries when the loop begins.
  unfoldable pub formats_entries : Act E (List (KvElem Binfmt))
  formats_entries = gets λ m. E.formats.entries m.table

  hurd_note : Bytes → Act E (Unit {0})
  hurd_note sysname =
      if str_eq sysname (text "GNU")
      then complain (text "Patches for Hurd support are welcomed; they should not be difficult.\n")
      else pure tt

  unfoldable pub check_supported_os : Act E (Unit {0})
  unfolding hurd_note
  check_supported_os = do
    sysname ← observe E.os.sysname
    if str_eq sysname (text "Linux") then pure tt else (do
      tty ← observe E.os.stderr_tty
      if tty
          then complain (text "Sorry, update-binfmts currently only works on Linux.\n")
            >> hurd_note sysname
          else pure tt
      exit 0)

  unfoldable pub rename_mv : Bytes → Bytes → Act E Bool
  rename_mv source dest = do
    renamed ← system (E.os.rename source dest)
    if renamed then pure true else runs (text "mv" ∷ source ∷ dest ∷ [])
