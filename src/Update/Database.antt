-- ===== src/Update/Database.antt =====
-- Reading the administrative directory, of src/update-binfmts.c.
pub mod Reads
pub mod Usable
pub mod Directory
pub mod Listed
pub mod Known
use debian_binfmt_support.Prelude.{
  Bool, true, false, Option, none, some, List, [], ◌∷◌, ◌++◌, Bytes, text, path_in, if◌then◌else◌,
}
use debian_binfmt_support.Action.{Action, pure, ◌>>=◌, ◌>>◌}
use debian_binfmt_support.Error.{observe, quit_err}
use debian_binfmt_support.Format.{Binfmt}
use debian_binfmt_support.Format.Load.{binfmt_load}
use debian_binfmt_support.Find.Candidates.{is_dot}
use debian_binfmt_support.Update.Base.{Env, Config, Act, program_name, is_file, formats_insert}

module _ (E : Env) (c : Config) where
  abbrev pub admindir_name : Bytes → Bytes
  admindir_name name = path_in c.paths.admindir name

  abbrev pub procdir_name : Bytes → Bytes
  procdir_name name = path_in c.paths.procdir name

  -- `if (format)`: an older format of the name stays.
  keep_format : Bytes → Option Binfmt → Act E (Unit {0})
  keep_format name none = pure tt
  keep_format name (some format) = formats_insert E name (some format)

  unfoldable pub load_format : Bytes → Bool → Act E (Unit {0})
  unfolding keep_format
  load_format name quiet = do
    there ← is_file E (admindir_name name)
    if there
        then (do
          format ← binfmt_load E.os program_name name (admindir_name name) quiet
          keep_format name format)
        else pure tt

  load_entries : Bool → List Bytes → Act E (Unit {0})
  load_entries quiet [] = pure tt
  load_entries quiet (entry ∷ entries) =
      (if is_dot entry then pure tt else load_format entry quiet) >> load_entries quiet entries

  opened_dir : Bool → Option (List Bytes) → Act E (Unit {0})
  unfolding load_entries
  opened_dir quiet none = quit_err E.os program_name (text "unable to open " ++ c.paths.admindir)
  opened_dir quiet (some entries) = load_entries quiet entries

  unfoldable pub load_all_formats : Bool → Act E (Unit {0})
  unfolding opened_dir
  load_all_formats quiet = do
    dir ← observe (λ s. E.os.list s c.paths.admindir)
    opened_dir quiet dir
