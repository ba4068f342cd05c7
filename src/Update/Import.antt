-- ===== src/Update/Import.antt =====
-- `act_import` of src/update-binfmts.c, with a name and with `NULL`.
pub mod Dry
pub mod Outcome
use debian_binfmt_support.Prelude.{
  ℕ, Bool, true, false, not, ◌||◌, Option, none, some, List, [], ◌∷◌, ◌++◌, Bytes, text, str_eq,
  after_last, path_in, ◌==◌, if◌then◌else◌,
}
use debian_binfmt_support.Action.{Action, pure, crash, ◌>>=◌, ◌>>◌, each_worked}
use debian_binfmt_support.Error.{observe}
use debian_binfmt_support.KvHash.{kvhash_exists, kvhash_lookup}
use debian_binfmt_support.Format.{Binfmt, percent_s}
use debian_binfmt_support.Format.New.{binfmt_new}
use debian_binfmt_support.Find.Candidates.{is_dot}
use debian_binfmt_support.Update.Base.{
  Env, Config, Act, program_name, warn, warn_err, is_file, access_x, formats_exists, formats_lookup,
}
use debian_binfmt_support.Update.Packaged.{get_import}
use debian_binfmt_support.Update.Database.{load_format}
use debian_binfmt_support.Update.Install.{act_install}

-- The names that the file system and binfmt_misc take.
unfoldable pub is_reserved : Bytes → Bool
is_reserved name =
    str_eq name (text ".")
    || str_eq name (text "..")
    || str_eq name (text "register")
    || str_eq name (text "status")

-- `!strcmp (binfmt->package, ":")`; `none` where a null pointer is read.
abbrev is_local : Option Binfmt → Option Bool
is_local none = none
is_local (some b) = elim b.pkg [ some p ↦ some (str_eq p (text ":")) | none ↦ none ]

module _ (E : Env) (c : Config) where
  -- `id`, and `path`.
  abbrev pub id_of : Bytes → Bytes
  id_of name = elim (after_last b'/' name) [ some id ↦ id | none ↦ name ]

  abbrev pub import_path : Bytes → Bytes
  import_path name = elim (after_last b'/' name) [
    | some id ↦ name
    | none ↦ path_in c.paths.importdir name
  ]

  -- `NULL`, or a table with no entry.
  nothing_in : Option E.args.Table → Bool
  nothing_in none = true
  nothing_in (some import) = E.args.hash_get_n_entries import == 0

  -- The warning on the interpreter.
  check_interpreter : Bytes → Option Bytes → Act E (Unit {0})
  check_interpreter path none = warn E (
      path
      ++ text ": no executable "
      ++ percent_s none
      ++ text " found, but continuing anyway as you request")
  check_interpreter path (some interpreter) = do
    usable ← access_x E interpreter
    if usable
        then pure tt
        else warn E (
            path
            ++ text ": no executable "
            ++ interpreter
            ++ text " found, but continuing anyway as you request")

  unfoldable pub install_import : Bytes → Bytes → E.args.Table → Act E Bool
  unfolding check_interpreter
  install_import path id import =
      if not (kvhash_exists E.args import (text "package"))
      then warn E (path ++ text ": required 'package' line missing") >> pure false
      else (do
        check_interpreter path (kvhash_lookup E.args import (text "interpreter"))
        binfmt ← binfmt_new E.os program_name E.args path import
        -- The result of `act_install` is dropped.
        _ ← act_install E c id binfmt
        pure true)

  -- `true` if a format of the name was installed by hand.
  local_answer : Option Bool → Act E Bool
  local_answer none = crash
  local_answer (some b) = pure b

  unfoldable pub is_local_change : Bytes → Act E Bool
  unfolding local_answer
  is_local_change id = do
    known ← formats_exists E id
    if known then (do binfmt ← formats_lookup E id; local_answer (is_local binfmt)) else pure false

  import_found : Bytes → Bytes → Option E.args.Table → Act E Bool
  import_found path id none = pure false
  import_found path id (some import) = do
    load_format E c id true
    preserved ← is_local_change id
    if preserved
        then warn E (text "preserving local changes to " ++ id) >> pure true
        else install_import path id import

  unfoldable pub import_name : Bytes → Act E Bool
  unfolding nothing_in import_found install_import
  import_name name =
      if is_reserved (id_of name)
      then warn E (text "binary format name '" ++ id_of name ++ text "' is reserved") >> pure false
      else (do
        import ← get_import E (import_path name)
        if nothing_in import
            then warn E
                (text "couldn't find information about '" ++ id_of name ++ text "' to import")
              >> pure false
            else import_found (import_path name) (id_of name) import)

  import_entry : Bytes → Act E Bool
  import_entry entry = if is_dot entry then pure true else (do
    there ← is_file E (path_in c.paths.importdir entry)
    if there then import_name entry else pure true)

  import_all : Option (List Bytes) → Act E Bool
  unfolding import_entry
  import_all none = warn_err E (text "unable to open " ++ c.paths.importdir) >> pure false
  import_all (some entries) = each_worked import_entry entries true

  unfoldable pub act_import : Option Bytes → Act E Bool
  unfolding import_all
  act_import (some name) = import_name name
  act_import none = do dir ← observe (λ s. E.os.list s c.paths.importdir); import_all dir
