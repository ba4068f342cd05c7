-- ===== src/Format/Load.antt =====
-- `binfmt_load` of src/format.c.
pub mod Reads
pub mod Full
pub mod Cases
use debian_binfmt_support.Prelude.{
  Bool, true, false, Option, none, some, ◌++◌, Bytes, text, if◌then◌else◌,
}
use debian_binfmt_support.Action.{Action, pure, ◌>>=◌}
use debian_binfmt_support.Os.{Os, Machine}
use debian_binfmt_support.Error.{observe, quit, quit_err}
use debian_binfmt_support.Format.{Binfmt}
use debian_binfmt_support.Format.Fields.{Read, got, missing_field, read_fields}

abbrev pub out_of_data : Bytes → Bytes → Bytes
out_of_data filename field = filename ++ text " corrupt: out of binfmt data reading " ++ field

module _ (os : Os) (program_name : Bytes) {T : Type 0} where
  -- `NULL` only if `quiet`; a short file is fatal if not.
  loaded : Bytes → Bool → Read Binfmt → Action (Machine os.State T) (Option Binfmt)
  loaded filename quiet (got binfmt) = pure (some binfmt)
  loaded filename quiet (missing_field field) =
      if quiet then pure none else quit os program_name (out_of_data filename field)

  opened : Bytes → Bytes → Bool → Option Bytes → Action (Machine os.State T) (Option Binfmt)
  opened name filename quiet none = quit_err os program_name (text "unable to open " ++ filename)
  opened name filename quiet (some file) = loaded filename quiet (read_fields name file)

  unfoldable pub binfmt_load : Bytes → Bytes → Bool → Action (Machine os.State T) (Option Binfmt)
  unfolding loaded opened observe
  binfmt_load name filename quiet = do
    file ← observe (λ s. os.read s filename)
    opened name filename quiet file
