-- ===== src/Format/Load/Reads.antt =====
-- `binfmt_load` of src/format.c, and the state of the system.
use debian_binfmt_support.Prelude.{Bool, Option, none, some, Bytes}
use debian_binfmt_support.Action.Keeps.{Keeps, keeps_rules, Keeps-pure}
use debian_binfmt_support.Os.{Os}
use debian_binfmt_support.Error.Laws.{SysIs, quit-SysIs, quit_err-SysIs}
use debian_binfmt_support.Format.{Binfmt}
use debian_binfmt_support.Format.Fields.{Read, got, missing_field}
use debian_binfmt_support.Format.Load.{binfmt_load, loaded, opened}

module _ (os : Os) (program_name : Bytes) {T : Type 0} {s : os.State} where
  loaded-SysIs :
      (filename : Bytes) (quiet : Bool) (r : Read Binfmt)
      → Keeps (SysIs {T = T} s) (loaded os program_name filename quiet r)
  unfolding loaded
  loaded-SysIs filename quiet (got b) = Keeps-pure _
  loaded-SysIs filename quiet (missing_field f) = search (keeps_rules, quit-SysIs)

  opened-SysIs :
      (name filename : Bytes) (quiet : Bool) (file : Option Bytes)
      → Keeps (SysIs {T = T} s) (opened os program_name name filename quiet file)
  unfolding opened
  opened-SysIs name filename quiet none = quit_err-SysIs os program_name _
  opened-SysIs name filename quiet (some file) = loaded-SysIs filename quiet _

  pub binfmt_load-SysIs :
      (name filename : Bytes) (quiet : Bool)
      → Keeps (SysIs {T = T} s) (binfmt_load os program_name name filename quiet)
  unfolding binfmt_load
  binfmt_load-SysIs name filename quiet = search (keeps_rules, opened-SysIs)
