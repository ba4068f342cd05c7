-- ===== src/Format/Load/Full.antt =====
-- The descriptions that `binfmt_load` of src/format.c returns.
use debian_binfmt_support.Prelude.{Bool, true, false, Option, none, some, Bytes}
use debian_binfmt_support.Action.Safe.{Fails, Yields, Yields-pure, Yields-then}
use debian_binfmt_support.Os.{Os}
use debian_binfmt_support.Error.Tables.{Tabled, quit-Yields, quit_err-Yields, observe-Safe}
use debian_binfmt_support.Format.{Binfmt}
use debian_binfmt_support.Format.Fields.{Read, got, missing_field}
use debian_binfmt_support.Format.Fields.Full.{IsFull, Gets, read_fields-Full}
use debian_binfmt_support.Format.Load.{binfmt_load, loaded, opened}

-- A null pointer is returned only if the call is quiet.
abbrev pub Loads : Bool → Option Binfmt → Type 0
Loads quiet (some b) = IsFull b
Loads true none = Unit
Loads false none = ⊥

module _ (os : Os) (program_name : Bytes) {T : Type 0} {K : T → Type 0} where
  loaded-Loads :
      (filename : Bytes) (quiet : Bool) (r : Read Binfmt)
      → Gets IsFull r
      → Yields Fails (Tabled K) (Loads quiet) (loaded os program_name filename quiet r)
  unfolding loaded
  loaded-Loads filename quiet (got b) full = Yields-pure (some b) full
  loaded-Loads filename true (missing_field f) u = Yields-pure none tt
  loaded-Loads filename false (missing_field f) u = quit-Yields os program_name _

  opened-Loads :
      (name filename : Bytes) (quiet : Bool) (file : Option Bytes)
      → Yields Fails (Tabled K) (Loads quiet) (opened os program_name name filename quiet file)
  unfolding opened
  opened-Loads name filename quiet none = quit_err-Yields os program_name _
  opened-Loads name filename quiet (some file) =
      loaded-Loads filename quiet _ (read_fields-Full name file)

  pub binfmt_load-Loads :
      (name filename : Bytes) (quiet : Bool)
      → Yields Fails (Tabled K) (Loads quiet) (binfmt_load os program_name name filename quiet)
  unfolding binfmt_load
  binfmt_load-Loads name filename quiet =
      Yields-then _ _ (observe-Safe _) (opened-Loads name filename quiet)
