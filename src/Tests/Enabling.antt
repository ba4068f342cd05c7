-- ===== src/Tests/Enabling.antt =====
-- A kernel that makes an entry of each line that it is sent, and a format that is enabled in it.
use debian_binfmt_support.Format.Write.{file_text}
use debian_binfmt_support.Format.Load.{binfmt_load}
use debian_binfmt_support.Format.Lines.{getline, trim_right}
use debian_binfmt_support.Format.Fields.{read_fields, read_optional, read_required}
use debian_binfmt_support.Find.Candidates.{is_dot}
use debian_binfmt_support.KvHash.{kvhash_exists, kvhash_insert, kvhash_lookup}
use debian_binfmt_support.Update.Database.{procdir_name, load_format, load_all_formats}
use debian_binfmt_support.Prelude.{
  true, false, ◌≡◌, refl, ◌⊎◌, arith, [], Bytes, text, NoByte, str_eq, str_eq_refl, path_in,
  if◌then◌else◌, c_string, isspace,
}
use debian_binfmt_support.Action.{done, ◌>>=◌}
use debian_binfmt_support.Os.{Os, Written, written}
use debian_binfmt_support.Os.Memory.{Disk, memory}
use debian_binfmt_support.Error.{system, observe, kind_exists, warning_err}
use debian_binfmt_support.KvHash.Assoc.{assoc_lib, assoc_lib-IsLawful}
use debian_binfmt_support.Update.Base.{
  Env, State, path_register, path_status, is_file, formats_exists, exists, formats_insert,
  formats_entries, formats_lookup, is_directory,
}
use debian_binfmt_support.Update.Base.Tables.{wet, AllUsable}
use debian_binfmt_support.Update.Kernel.{load_binfmt_misc, get_binfmt_style}
use debian_binfmt_support.Update.Enable.{
  enable_name, needs_detector, register, same_spec_among, send,
}
use debian_binfmt_support.Update.Enable.Kernel.{split_at, second_part, second_part-regstring}
use debian_binfmt_support.Update.Enable.Present.{HasEntry, Registers, enable_name-HasEntry}
use debian_binfmt_support.Update.Enable.Sends.{Sent, enable_name-Sent}
use debian_binfmt_support.Tests.{paths, installed, machine}

-- What is written to the register file makes an entry, and is not found in the register file
-- itself; what is written to the status file is found nowhere.
unfoldable pub register_line : Bytes → Bytes → Disk → Written × Disk
unfolding memory path_in text
register_line path t s =
    if str_eq path (path_register (wet paths))
    then memory.write (path_in (text "/p") (second_part (split_at b':' t))) t s
    else if str_eq path (path_status (wet paths))
    then (written, s)
    else memory.write path t s

abbrev pub kernel : Os
unfolding memory
kernel = record memory { write = register_line }

abbrev pub kernel_env : Env
kernel_env = record { os = kernel; formats = assoc_lib; args = assoc_lib }

kernel-Registers : Registers kernel_env paths
unfolding memory register_line
kernel-Registers = record {
  registers = λ name b type interpreter s plain w. rw (str_eq_refl (path_register (wet paths))) (
      rw (second_part-regstring name b type interpreter plain)
        (ground (arith, str_eq_refl (path_in (text "/p") name))));
}

abbrev pub kernel_installed : State kernel_env
unfolding memory assoc_lib
kernel_installed = record installed { err = [] }

jar_no_colon : NoByte b':' (text "jar")
unfolding text
jar_no_colon = ground arith

jar_enables : (enable_name kernel_env (wet paths) (text "jar") kernel_installed).0 ≡ done true
unfolding enable_name ◌>>=◌ load_format is_file formats_exists kvhash_exists exists register_line
    formats_insert system is_dot read_fields read_optional read_required getline trim_right
    binfmt_load file_text assoc_lib kvhash_insert kvhash_lookup c_string isspace formats_entries
    formats_lookup is_directory load_all_formats needs_detector register same_spec_among send
    get_binfmt_style load_binfmt_misc warning_err
jar_enables = refl

enable_name-HasEntry_example :
    ((load_binfmt_misc kernel_env (wet paths) kernel_installed).0 ≡ done false)
    ⊎ HasEntry kernel_env paths
        (text "jar")
        (enable_name kernel_env (wet paths) (text "jar") kernel_installed).1
enable_name-HasEntry_example =
    enable_name-HasEntry kernel_env paths kernel-Registers (text "jar") jar_no_colon
      kernel_installed jar_enables

-- binfmt_misc is switched on, and the format is not enabled.
abbrev switched_on : State kernel_env
switched_on = (load_binfmt_misc kernel_env (wet paths) kernel_installed).1

misc_switched_on :
    load_binfmt_misc kernel_env (wet paths) kernel_installed ≡ (done true, switched_on)
unfolding load_binfmt_misc get_binfmt_style ◌>>=◌ warning_err is_file is_directory observe system
    memory path_in str_eq text machine register_line
misc_switched_on = refl

jar_not_enabled :
    kind_exists (kernel.stat switched_on.sys (procdir_name kernel_env (wet paths) (text "jar")))
    ≡ false
unfolding load_binfmt_misc get_binfmt_style ◌>>=◌ warning_err is_file is_directory observe system
    memory path_in str_eq text machine register_line
jar_not_enabled = refl

none_known : AllUsable kernel_env kernel_installed.table
unfolding assoc_lib kernel_installed
none_known = tt

enable_name-Sent_example :
    Sent kernel_env assoc_lib-IsLawful paths
      (text "jar")
      switched_on
      (enable_name kernel_env (wet paths) (text "jar") kernel_installed)
enable_name-Sent_example =
    enable_name-Sent kernel_env assoc_lib-IsLawful paths (text "jar") kernel_installed switched_on
      none_known misc_switched_on jar_not_enabled jar_enables
