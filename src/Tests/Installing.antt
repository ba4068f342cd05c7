-- ===== src/Tests/Installing.antt =====
-- A whole installation, and the files behind it.
use debian_binfmt_support.Update.Kernel.{get_binfmt_style, load_binfmt_misc}
use debian_binfmt_support.Format.Lines.{getline}
use debian_binfmt_support.Format.Fields.{read_fields, read_required}
use debian_binfmt_support.Find.Candidates.{is_dot}
use debian_binfmt_support.Format.Write.{binfmt_write, file_text}
use debian_binfmt_support.KvHash.{kvhash_exists, kvhash_insert, kvhash_lookup}
use debian_binfmt_support.Error.{warning_err}
use debian_binfmt_support.Prelude.{
  true, ◌≡◌, ◌≢◌, refl, ap, ℕ, ◌==◌, false, ◌∷◌, ◌⊎◌, arith, none, some, [], Bytes, text, str_eq,
  path_in,
}
use debian_binfmt_support.Action.{done, ◌>>=◌}
use debian_binfmt_support.Os.Memory.{memory, memory-ReplacingWorks}
use debian_binfmt_support.Format.Load.{binfmt_load}
use debian_binfmt_support.Format.RoundTrip.{IsOneLine, stored}
use debian_binfmt_support.Update.Base.{
  State, program_name, is_file, formats_exists, exists, rename_mv, formats_insert, formats_entries,
  formats_lookup, is_directory,
}
use debian_binfmt_support.Update.Base.Files.{IsApart}
use debian_binfmt_support.Update.Base.Tables.{wet}
use debian_binfmt_support.Update.Database.{admindir_name, load_format, load_all_formats}
use debian_binfmt_support.Update.Enable.{
  act_enable, enable_name, needs_detector, register, same_spec_among, send,
}
use debian_binfmt_support.Update.Enable.Files.{read-act_enable}
use debian_binfmt_support.Update.Install.{act_install, may_replace, save, enable_new}
use debian_binfmt_support.Update.Install.Files.{LeftAlone, act_install_loads}
use debian_binfmt_support.KvHash.Assoc.{assoc_lib}
use debian_binfmt_support.Update.Enable.Kernel.{split_at, second_part}
use debian_binfmt_support.Tests.Enabling.{register_line, kernel, kernel_env, kernel_installed}
use debian_binfmt_support.Update.Install.Save.{tmp_name-other, DiskWorks}
use debian_binfmt_support.Tests.{paths, jar, machine, mounted}

abbrev second_byte : Bytes → ℕ
second_byte (a ∷ b ∷ s) = b
second_byte _ = 0

entry-other : (name : Bytes) → path_in (text "/p") name ≢ text "/a/jar"
unfolding path_in text
entry-other name e = let d : true ≡ false = ap (λ s. second_byte s == b'p') e in cc

-- The administrative files are on the disk of the kernel that has no other file to read back.
jar_path-IsApart :
    IsApart kernel_env (wet paths) (admindir_name kernel_env (wet paths) (text "jar"))
unfolding memory path_in str_eq text register_line
jar_path-IsApart = record {
  read-register = λ t s.
      (memory-ReplacingWorks (path_in (text "/p") (second_part (split_at b':' t))) (text "/a/jar")
          (entry-other _)).write-elsewhere
        t s;
  read-status = λ t s. refl;
  read-modprobe = λ s. ground arith;
  read-mount = λ s. ground arith;
}

jar-DiskWorks : DiskWorks kernel_env (wet paths) (text "jar")
unfolding memory register_line path_in str_eq text
jar-DiskWorks =
    let works = memory-ReplacingWorks _ _ (tmp_name-other kernel_env (wet paths) (text "jar")) in
    record {
      files = record { read-write = λ t s h. works.files.read-write t s h };
      write-elsewhere = λ t s. works.write-elsewhere t s;
      unlink-elsewhere = works.unlink-elsewhere;
      rename-moves = works.rename-moves;
      rename-fails = works.rename-fails;
      mv-moves = works.mv-moves;
    }

read-act_enable_example :
    kernel.read
      (act_enable kernel_env (wet paths) none kernel_installed).1.sys
      (admindir_name kernel_env (wet paths) (text "jar"))
    ≡ kernel.read kernel_installed.sys (admindir_name kernel_env (wet paths) (text "jar"))
read-act_enable_example =
    read-act_enable kernel_env (wet paths) (admindir_name kernel_env (wet paths) (text "jar"))
      jar_path-IsApart none kernel_installed

jar-IsOneLine : IsOneLine jar
unfolding text
jar-IsOneLine = record {
  pkg_line = ground arith;
  type_line = ground arith;
  offset_line = ground arith;
  magic_line = ground arith;
  mask_line = ground arith;
  interpreter_line = ground arith;
  detector_line = ground arith;
  credentials_line = ground arith;
  preserve_line = ground arith;
}

-- Nothing is installed, and binfmt_misc is mounted.
abbrev fresh : State kernel_env
unfolding memory assoc_lib
fresh = record (mounted []) { err = [] }

abbrev after : State kernel_env
after = (act_install kernel_env (wet paths) (text "jar") (some jar) fresh).1

jar_installs : (act_install kernel_env (wet paths) (text "jar") (some jar) fresh).0 ≡ done true
unfolding act_install ◌>>=◌ load_format is_file machine text path_in may_replace formats_exists
    kvhash_exists exists save binfmt_write rename_mv enable_new formats_insert is_dot read_fields
    read_required getline binfmt_load file_text kvhash_insert kvhash_lookup formats_entries
    formats_lookup is_directory load_all_formats enable_name needs_detector register same_spec_among
    send get_binfmt_style load_binfmt_misc warning_err register_line
jar_installs = refl

act_install_loads_example :
    LeftAlone kernel_env paths (text "jar") after
    ⊎ (binfmt_load kernel program_name
          (text "jar")
          (admindir_name kernel_env (wet paths) (text "jar"))
          true
          after
        ≡ (done (some (stored (text "jar") jar)), after))
act_install_loads_example =
    act_install_loads kernel_env paths (text "jar") jar true fresh jar-DiskWorks jar_path-IsApart
      jar-IsOneLine jar_installs
