-- ===== src/Update/Install.antt =====
-- `act_install` of src/update-binfmts.c. The format is a pointer, null where `binfmt_new` has
-- refused: no caller tests it.
pub mod Dry
pub mod Usable
pub mod Files
pub mod Save
pub mod Foreign
pub mod Stale
pub mod Null
use debian_binfmt_support.Prelude.{
  Bool, true, false, not, ◌&&◌, Option, none, some, List, [], ◌∷◌, ◌++◌, Bytes, text, str_eq,
  if◌then◌else◌,
}
use debian_binfmt_support.Action.{Action, pure, crash, ◌>>=◌, ◌>>◌}
use debian_binfmt_support.Os.{
  Written, written, not_opened, not_closed, Unlinked, unlinked, no_entry, refused,
}
use debian_binfmt_support.Error.{system, print}
use debian_binfmt_support.Format.{Binfmt, binfmt_print}
use debian_binfmt_support.Format.Write.{binfmt_write}
use debian_binfmt_support.Update.Base.{
  Env, Config, Act, program_name, shown_package, warn, warn_err, exists, is_file, formats_exists,
  formats_lookup, formats_insert, rename_mv,
}
use debian_binfmt_support.Update.Database.{admindir_name, procdir_name, load_format}
use debian_binfmt_support.Update.Enable.{enable_name}
use debian_binfmt_support.Update.Disable.{disable_name}

-- `!strcmp (package, old_package)`, or the null pointer among the four that is read.
abbrev pub packages : Option Binfmt → Option Binfmt → Option (Bytes × Bytes)
packages (some binfmt) (some old) = elim binfmt.pkg [
  | some package' ↦ elim old.pkg [ some old_package ↦ some (package', old_package) | none ↦ none ]
  | none ↦ none
]
packages _ _ = none

module _ (E : Env) (c : Config) where
  -- `true` if the packages agree; `last` ends the warning.
  unfoldable pub same_package : Bytes → Option (Bytes × Bytes) → Act E Bool
  same_package last none = crash
  same_package last (some (package', old_package)) =
      if str_eq package' old_package
      then pure true
      else warn E (
          text "current package is "
          ++ shown_package package'
          ++ text ", but binary format already installed by "
          ++ shown_package old_package
          ++ last)
        >> pure false

  -- The first test: whether a format of the name may be replaced.
  unfoldable pub may_replace : Bytes → Option Binfmt → Act E Bool
  may_replace name binfmt = do
    known ← formats_exists E name
    if known
        then (do old ← formats_lookup E name; same_package (text "") (packages binfmt old))
        else pure true

  -- The second test, on the administrative file itself; `false` if the function returns 0 there.
  disable_old : Bytes → Act E Bool
  disable_old name = do
    there ← is_file E (admindir_name E c name)
    if there
        then (do
          disabled ← disable_name E c name
          if disabled
              then pure true
              else warn E (text "unable to disable binary format " ++ name) >> pure false)
        else pure true

  -- `binfmt_write` on a null pointer gets as far as the first `fprintf`.
  null_opened : Bytes → Written → Act E Bool
  null_opened filename not_opened =
      warn_err E (text "unable to open " ++ filename ++ text " for writing") >> pure false
  null_opened filename _ = crash

  write_null : Bytes → Unlinked → Act E Bool
  unfolding null_opened
  write_null filename refused =
      warn_err E (text "unable to ensure " ++ filename ++ text " nonexistent") >> pure false
  write_null filename _ = system (E.os.write filename []) >>= null_opened filename

  write_pointer : Option Binfmt → Bytes → Act E Bool
  unfolding write_null
  write_pointer (some binfmt) filename = binfmt_write E.os program_name binfmt filename
  write_pointer none filename = system (E.os.unlink filename) >>= write_null filename

  put_in_place : Bytes → Bytes → Act E Bool
  put_in_place tmp target = do
    renamed ← rename_mv E tmp target
    if renamed
        then pure true
        else warn_err E (text "unable to install " ++ tmp ++ text " as " ++ target) >> pure false

  -- The new description goes to a file beside the old one, and takes its place.
  unfoldable pub save : Bytes → Option Binfmt → Act E Bool
  unfolding write_pointer put_in_place
  save name binfmt = do
    let tmp : Bytes = admindir_name E c name ++ text ".tmp"
    wrote ← write_pointer binfmt tmp
    if wrote then put_in_place tmp (admindir_name E c name) else pure false

  print_pointer : Option Binfmt → Act E (Unit {0})
  print_pointer none = print (text "install the following binary format description:\n") >> crash
  print_pointer (some binfmt) =
      print (text "install the following binary format description:\n")
      >> print (binfmt_print binfmt)

  record_format : Bytes → Option Binfmt → Act E Bool
  unfolding print_pointer
  record_format name binfmt = if c.test then print_pointer binfmt >> pure true else save name binfmt

  -- The end: the table, and the kernel.
  unfoldable pub enable_new : Bytes → Option Binfmt → Act E Bool
  enable_new name binfmt = do
    formats_insert E name binfmt
    enabled ← enable_name E c name
    if enabled
        then pure true
        else warn E (text "unable to enable binary format " ++ name) >> pure false

  -- From the test for an entry of the kernel on.
  install_disabled : Bytes → Option Binfmt → Act E Bool
  unfolding record_format
  install_disabled name binfmt = do
    there ← exists E (procdir_name E c name)
    if there && not c.test
        then warn E (
            text "found manually created entry for "
            ++ name
            ++ text " in "
            ++ c.paths.procdir
            ++ text "; leaving it alone")
          >> pure true
        else (do
          recorded ← record_format name binfmt
          if recorded then enable_new name binfmt else pure false)

  unfoldable pub act_install : Bytes → Option Binfmt → Act E Bool
  unfolding disable_old install_disabled
  act_install name binfmt = do
    load_format E c name true
    allowed ← may_replace name binfmt
    if not allowed then pure false else (do
      disabled ← disable_old name
      if not disabled then pure false else install_disabled name binfmt)
