-- ===== src/Format/Write.antt =====
-- `binfmt_write` of src/format.c.
pub mod Tables
use debian_binfmt_support.Prelude.{Bool, true, false, Option, ◌++◌, Bytes, text}
use debian_binfmt_support.Action.{Action, pure, ◌>>=◌, ◌>>◌}
use debian_binfmt_support.Os.{
  Os, Machine, Written, written, not_opened, not_closed, Unlinked, refused,
}
use debian_binfmt_support.Error.{system, warning_err}
use debian_binfmt_support.Format.{Binfmt, or_empty}

-- `WRITE_FIELD (field)`
abbrev pub write_field : Option Bytes → Bytes → Bytes
write_field field rest = or_empty field ++ (text "\n" ++ rest)

-- What the calls of `fprintf` write.
unfoldable pub file_text : Binfmt → Bytes
file_text binfmt = write_field binfmt.pkg (
    write_field binfmt.type (
      write_field binfmt.offset (
        write_field binfmt.magic (
          write_field binfmt.mask (
            write_field binfmt.interpreter (
              write_field binfmt.detector
                (write_field binfmt.credentials (write_field binfmt.preserve (text "")))))))))

module _ (os : Os) (program_name : Bytes) {T : Type 0} where
  -- The result of `fopen` and of `fclose`.
  written_result : Bytes → Written → Action (Machine os.State T) Bool
  written_result filename written = pure true
  written_result filename not_opened =
      warning_err os program_name (text "unable to open " ++ filename ++ text " for writing")
      >> pure false
  written_result filename not_closed =
      warning_err os program_name (text "unable to close " ++ filename) >> pure false

  -- The result of `unlink`; a file that was not there is no failure.
  write_unlinked : Binfmt → Bytes → Unlinked → Action (Machine os.State T) Bool
  unfolding written_result
  write_unlinked binfmt filename refused =
      warning_err os program_name (text "unable to ensure " ++ filename ++ text " nonexistent")
      >> pure false
  write_unlinked binfmt filename _ =
      system (os.write filename (file_text binfmt)) >>= written_result filename

  unfoldable pub binfmt_write : Binfmt → Bytes → Action (Machine os.State T) Bool
  unfolding write_unlinked system
  binfmt_write binfmt filename = system (os.unlink filename) >>= write_unlinked binfmt filename
