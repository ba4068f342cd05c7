-- ===== src/Update/Remove.antt =====
-- `act_remove` of src/update-binfmts.c.
pub mod Dry
pub mod Usable
pub mod Foreign
pub mod Removal
pub mod Deletes
use debian_binfmt_support.Prelude.{
  Bool, true, false, not, Option, none, some, List, ◌++◌, Bytes, text, if◌then◌else◌,
}
use debian_binfmt_support.Action.{Action, pure, crash, ◌>>=◌, ◌>>◌}
use debian_binfmt_support.Os.{Unlinked, unlinked, no_entry, refused}
use debian_binfmt_support.Error.{system, print}
use debian_binfmt_support.Format.{Binfmt}
use debian_binfmt_support.Update.Base.{
  Env, Config, Act, warn, warn_err, is_file, formats_exists, formats_lookup, formats_delete,
}
use debian_binfmt_support.Update.Database.{admindir_name, load_format}
use debian_binfmt_support.Update.Disable.{disable_name}
use debian_binfmt_support.Update.Install.{same_package}

module _ (E : Env) (c : Config) where
  -- The package given and that of the format in the table, if no null pointer is read.
  owners : Bytes → Option Binfmt → Option (Bytes × Bytes)
  owners package' none = none
  owners package' (some old) = elim old.pkg [ some p ↦ some (package', p) | none ↦ none ]

  -- Whether the format may be removed by the package.
  may_remove : Bytes → Bytes → Act E Bool
  unfolding owners
  may_remove name package' = do
    known ← formats_exists E name
    if known
        then (do
          old ← formats_lookup E name
          same_package E c (text "; not removing.") (owners package' old))
        else pure true

  unlinked_from : Bytes → Unlinked → Act E Bool
  unlinked_from name unlinked = do formats_delete E name; pure true
  unlinked_from name _ =
      warn_err E (text "unable to remove " ++ admindir_name E c name) >> pure false

  unfoldable pub delete_format : Bytes → Act E Bool
  unfolding unlinked_from
  delete_format name =
      if c.test
      then print (text "remove " ++ admindir_name E c name) >> pure true
      else (do u ← system (E.os.unlink (admindir_name E c name)); unlinked_from name u)

  remove_owned : Bytes → Act E Bool
  remove_owned name = do
    disabled ← disable_name E c name
    if disabled
        then delete_format name
        else warn E (text "unable to disable binary format " ++ name) >> pure false

  unfoldable pub act_remove : Bytes → Bytes → Act E Bool
  unfolding may_remove remove_owned
  act_remove name package' = do
    there ← is_file E (admindir_name E c name)
    if not there
        then warn E (admindir_name E c name ++ text " does not exist; nothing to do!") >> pure true
        else (do
          load_format E c name true
          allowed ← may_remove name package'
          -- "I don't think this should be fatal."
          if allowed then remove_owned name else pure true)
