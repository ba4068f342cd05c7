-- ===== src/Tests/Saving.antt =====
-- The file that an installation leaves, and a disk on which nothing can be written.
use debian_binfmt_support.Prelude.{
  true, false, ◌≡◌, refl, arith, some, [], Bytes, text, str_eq, path_in,
}
use debian_binfmt_support.Action.{done, ◌>>=◌}
use debian_binfmt_support.Os.{Os, not_opened, FilesWork}
use debian_binfmt_support.Os.Memory.{memory, memory-ReplacingWorks}
use debian_binfmt_support.KvHash.Assoc.{assoc_lib}
use debian_binfmt_support.Format.Load.{binfmt_load}
use debian_binfmt_support.Format.Write.{binfmt_write}
use debian_binfmt_support.Format.RoundTrip.{IsOneLine, stored}
use debian_binfmt_support.Update.Base.{program_name, rename_mv}
use debian_binfmt_support.Update.Install.{save}
use debian_binfmt_support.Update.Install.Save.{
  tmp_name, tmp_name-other, DiskWorks, binfmt_load-save, save_write_fails,
}
use debian_binfmt_support.Error.{warning_err}
use debian_binfmt_support.Update.Base.{Env, State}
use debian_binfmt_support.Update.Database.{admindir_name}
use debian_binfmt_support.Tests.{env, config, local_jar, machine, installed}

local_jar-IsOneLine : IsOneLine local_jar
unfolding text
local_jar-IsOneLine = record {
  pkg_line = ground arith;
  type_line = ground arith;
  offset_line = ground arith;
  magic_line = ground arith;
  mask_line = ground arith;
  interpreter_line = ground arith;
  detector_line = ground arith;
  credentials_line = ground arith;
  preserve_line = ground arith;
}

jar-DiskWorks : DiskWorks env config (text "jar")
jar-DiskWorks = memory-ReplacingWorks _ _ (tmp_name-other env config (text "jar"))

local_jar_saved : (save env config (text "jar") (some local_jar) installed).0 ≡ done true
unfolding save ◌>>=◌ binfmt_write rename_mv memory path_in str_eq text machine
local_jar_saved = refl

binfmt_load-save_example :
    binfmt_load memory program_name
      (text "jar")
      (admindir_name env config (text "jar"))
      true
      (save env config (text "jar") (some local_jar) installed).1
    ≡ (
      done (some (stored (text "jar") local_jar)),
      (save env config (text "jar") (some local_jar) installed).1,
    )
binfmt_load-save_example =
    binfmt_load-save env config (text "jar") jar-DiskWorks local_jar true installed
      local_jar-IsOneLine local_jar_saved

-- A disk on which nothing can be written.
abbrev full : Os
unfolding memory
full = record memory { write = λ path t s. (not_opened, s) }

full-FilesWork : (path : Bytes) → FilesWork full path
unfolding memory
full-FilesWork path = record { read-write = λ t s h. cc }

abbrev full_env : Env
full_env = record { os = full; formats = assoc_lib; args = assoc_lib }

full-DiskWorks : DiskWorks full_env config (text "jar")
unfolding memory
full-DiskWorks = record {
  files = full-FilesWork _;
  write-elsewhere = λ t s. refl;
  unlink-elsewhere = jar-DiskWorks.unlink-elsewhere;
  rename-moves = jar-DiskWorks.rename-moves;
  rename-fails = jar-DiskWorks.rename-fails;
  mv-moves = jar-DiskWorks.mv-moves;
}

abbrev full_installed : State full_env
unfolding memory assoc_lib
full_installed = record installed { err = [] }

abbrev after_write : State full_env
after_write =
    (binfmt_write full program_name local_jar (tmp_name full_env config (text "jar"))
      full_installed).1

jar_not_written :
    binfmt_write full program_name local_jar (tmp_name full_env config (text "jar")) full_installed
    ≡ (done false, after_write)
unfolding binfmt_write ◌>>=◌ full full_installed machine path_in str_eq text warning_err
jar_not_written = refl

save_write_fails_example :
    (save full_env config (text "jar") (some local_jar) full_installed ≡ (done false, after_write))
    × (full.read after_write.sys (admindir_name full_env config (text "jar"))
        ≡ full.read full_installed.sys (admindir_name full_env config (text "jar")))
save_write_fails_example =
    save_write_fails full_env config (text "jar") full-DiskWorks local_jar full_installed
      after_write jar_not_written
