-- ===== src/Update/Base/Reads.antt =====
-- The shared helpers of src/update-binfmts.c, and the state of the system.
use debian_binfmt_support.Prelude.{true, Option, Bytes}
use debian_binfmt_support.Action.Keeps.{Keeps, keeps_rules, Keeps-gets, Keeps-call}
use debian_binfmt_support.Error.Laws.{
  SysIs, observe-SysIs, warning-SysIs, warning_err-SysIs, quit-SysIs, quit_err-SysIs, print-SysIs,
  complain-SysIs,
}
use debian_binfmt_support.Paths.{Paths}
use debian_binfmt_support.Format.{Binfmt}
use debian_binfmt_support.Update.Base.{
  Env, Config, State, exists, is_file, is_directory, access_x, formats_exists, formats_lookup,
  formats_insert, formats_delete, formats_entries, hurd_note, check_supported_os,
}

-- The system is in state `s`.
abbrev pub Still : (E : Env) → E.os.State → State E → Type 0
Still E s = SysIs s

module _ (E : Env) {s : E.os.State} where
  pub exists-Still : (name : Bytes) → Keeps (Still E s) (exists E name)
  unfolding exists
  exists-Still name = observe-SysIs _

  pub is_file-Still : (name : Bytes) → Keeps (Still E s) (is_file E name)
  unfolding is_file
  is_file-Still name = observe-SysIs _

  pub is_directory-Still : (name : Bytes) → Keeps (Still E s) (is_directory E name)
  unfolding is_directory
  is_directory-Still name = observe-SysIs _

  pub access_x-Still : (name : Bytes) → Keeps (Still E s) (access_x E name)
  unfolding access_x
  access_x-Still name = observe-SysIs _

  pub formats_exists-Still : (name : Bytes) → Keeps (Still E s) (formats_exists E name)
  unfolding formats_exists
  formats_exists-Still name = Keeps-gets _

  pub formats_lookup-Still : (name : Bytes) → Keeps (Still E s) (formats_lookup E name)
  unfolding formats_lookup
  formats_lookup-Still name = Keeps-gets _

  pub formats_entries-Still : Keeps (Still E s) (formats_entries E)
  unfolding formats_entries
  formats_entries-Still = Keeps-gets _

  pub formats_insert-Still :
      (name : Bytes) (b : Option Binfmt) → Keeps (Still E s) (formats_insert E name b)
  unfolding formats_insert
  formats_insert-Still name b = Keeps-call _ (λ m h. h)

  pub formats_delete-Still : (name : Bytes) → Keeps (Still E s) (formats_delete E name)
  unfolding formats_delete
  formats_delete-Still name = Keeps-call _ (λ m h. h)

-- What actions that leave the system alone are built of.
pub ruleset still_rules = (
  keeps_rules, exists-Still, is_file-Still, is_directory-Still, access_x-Still,
  formats_exists-Still, formats_lookup-Still, formats_entries-Still, formats_insert-Still,
  formats_delete-Still, observe-SysIs, warning-SysIs, warning_err-SysIs, quit-SysIs, quit_err-SysIs,
  print-SysIs, complain-SysIs,
)

-- The configuration of `--test`.
abbrev pub dry : Paths → Config
dry paths = record { test = true; paths = paths }

module _ (E : Env) {s : E.os.State} where
  hurd_note-Still : (sysname : Bytes) → Keeps (Still E s) (hurd_note E sysname)
  unfolding hurd_note
  hurd_note-Still sysname = search still_rules

  pub check_supported_os-Still : Keeps (Still E s) (check_supported_os E)
  unfolding check_supported_os
  check_supported_os-Still = search (still_rules, hurd_note-Still) depth 12
