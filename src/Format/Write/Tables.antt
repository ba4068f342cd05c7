-- ===== src/Format/Write/Tables.antt =====
-- `binfmt_write` of src/format.c, and the table of formats.
use debian_binfmt_support.Prelude.{ℕ, Bytes}
use debian_binfmt_support.Action.Safe.{Safe}
use debian_binfmt_support.Os.{
  Os, Written, written, not_opened, not_closed, Unlinked, unlinked, no_entry, refused,
}
use debian_binfmt_support.Error.Tables.{Tabled, table_rules}
use debian_binfmt_support.Format.{Binfmt}
use debian_binfmt_support.Format.Write.{written_result, write_unlinked, binfmt_write}

module _ (os : Os) (program_name : Bytes) {T : Type 0} {X : ℕ → Type 0} {K : T → Type 0} where
  written_result-Safe :
      (filename : Bytes) (w : Written)
      → Safe X (Tabled K) (written_result os program_name filename w)
  unfolding written_result
  written_result-Safe filename written = search table_rules
  written_result-Safe filename not_opened = search table_rules
  written_result-Safe filename not_closed = search table_rules

  write_unlinked-Safe :
      (b : Binfmt) (filename : Bytes) (u : Unlinked)
      → Safe X (Tabled K) (write_unlinked os program_name b filename u)
  unfolding write_unlinked
  write_unlinked-Safe b filename refused = search table_rules
  write_unlinked-Safe b filename unlinked = search (table_rules, written_result-Safe)
  write_unlinked-Safe b filename no_entry = search (table_rules, written_result-Safe)

  pub binfmt_write-Safe :
      (b : Binfmt) (filename : Bytes) → Safe X (Tabled K) (binfmt_write os program_name b filename)
  unfolding binfmt_write
  binfmt_write-Safe b filename = search (table_rules, write_unlinked-Safe)
