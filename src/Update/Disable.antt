-- ===== src/Update/Disable.antt =====
-- `act_disable` of src/update-binfmts.c, with a name and with `NULL`.
pub mod Dry
pub mod Usable
pub mod Gone
pub mod Returns
use debian_binfmt_support.Prelude.{
  ℕ, Bool, true, false, not, Option, none, some, List, ◌++◌, map, Bytes, text, if◌then◌else◌,
}
use debian_binfmt_support.Action.{Action, pure, ◌>>=◌, ◌>>◌, each_worked}
use debian_binfmt_support.Os.{Written, written, not_opened, not_closed}
use debian_binfmt_support.Error.{system, print}
use debian_binfmt_support.Update.Base.{
  Env, Config, Act, warn, warn_err, exists, is_directory, formats_entries,
}
use debian_binfmt_support.Update.Kernel.{unload_binfmt_misc}
use debian_binfmt_support.Update.Database.{procdir_name, load_all_formats}

module _ (E : Env) (c : Config) where
  -- Behind the write of `-1` to the entry.
  told : Bytes → Written → Act E Bool
  told entry not_opened =
      warn_err E (text "unable to open " ++ entry ++ text " for writing") >> pure false
  told entry not_closed = warn_err E (text "unable to close " ++ entry) >> pure false
  told entry written = do
    there ← exists E entry
    if there
        then warn E (text "removal of " ++ entry ++ text " ignored by kernel!") >> pure false
        else pure true

  disable_present : Bytes → Act E Bool
  unfolding told
  disable_present name =
      if c.test then print (text "disable " ++ name ++ text "\n") >> pure true else (do
        w ← system (E.os.write (procdir_name E c name) (text "-1"))
        told (procdir_name E c name) w)

  unfoldable pub disable_name : Bytes → Act E Bool
  unfolding disable_present
  disable_name name = do
    mounted ← is_directory E c.paths.procdir
    if not mounted then pure true else (do
      there ← exists E (procdir_name E c name)
      if there then disable_present name else pure true)

  disable_if_there : Bytes → Act E Bool
  disable_if_there name = do
    there ← exists E (procdir_name E c name)
    if there then disable_name name else pure true

  unfoldable pub disable_all : Act E Bool
  unfolding disable_if_there
  disable_all = do
    mounted ← is_directory E c.paths.procdir
    if not mounted then pure true else (do
      load_all_formats E c false
      es ← formats_entries E
      worked ← each_worked disable_if_there (map (λ e. e.key) es) true
      _ ← unload_binfmt_misc E c
      pure worked)

  unfoldable pub act_disable : Option Bytes → Act E Bool
  act_disable none = disable_all
  act_disable (some name) = disable_name name
