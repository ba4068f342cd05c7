-- ===== src/Tests/Crashes.antt =====
-- Runs that read a null pointer, and runs that do not.
use debian_binfmt_support.Prelude.{
  Bool, true, ◌≡◌, refl, ◌⊎◌, some, List, [], ◌∷◌, Bytes, text, str_eq, path_in,
}
use debian_binfmt_support.Action.{done, crashed, ◌>>=◌}
use debian_binfmt_support.Action.Safe.{Ends}
use debian_binfmt_support.Error.{observe, print}
use debian_binfmt_support.KvHash.{kvhash_initialize, kvhash_exists, kvhash_lookup}
use debian_binfmt_support.Update.Enable.{act_enable, enable_name, register}
use debian_binfmt_support.Update.Kernel.{load_binfmt_misc, unload_binfmt_misc}
use debian_binfmt_support.Update.Disable.{disable_name}
use debian_binfmt_support.Update.Disable.Returns.{kernel_calls_return}
use debian_binfmt_support.Update.Database.{load_format}
use debian_binfmt_support.KvHash.Assoc.{assoc_lib, assoc_lib-IsLawful}
use debian_binfmt_support.Os.Memory.{memory}
use debian_binfmt_support.Format.Fields.Full.{IsUsable, IsUsable-set}
use debian_binfmt_support.Find.Candidates.{load_all_formats}
use debian_binfmt_support.Find.Candidates.Asserts.{load_all_formats_asserts}
use debian_binfmt_support.RunDetectors.{program_name}
use debian_binfmt_support.Update.Base.{
  check_supported_os, exists, is_file, formats_exists, formats_lookup,
}
use debian_binfmt_support.Update.Base.Tables.{AllUsable, EndsForeign, wet}
use debian_binfmt_support.Update.Install.{act_install}
use debian_binfmt_support.Update.Install.Usable.{act_install_usable}
use debian_binfmt_support.Update.Options.{
  Opt, Options, enable, opt_mode, opt_test, key_success, parse_opt,
}
use debian_binfmt_support.Update.Main.{initial_options, parse_opts, run_mode, dispatch, main}
use debian_binfmt_support.Update.Main.Crashes.{MayCrash}
use debian_binfmt_support.Update.Main.Outcomes.{main_outcomes}
use debian_binfmt_support.Tests.{machine, env, paths, jar, local_jar, mounted, installed, known}

local_jar-IsUsable : IsUsable local_jar
local_jar-IsUsable = IsUsable-set local_jar _ _ _ _ _ refl refl refl refl refl

jar-IsUsable : IsUsable jar
jar-IsUsable = IsUsable-set jar _ _ _ _ _ refl refl refl refl refl

all_known : AllUsable env known.table
unfolding assoc_lib
all_known = ((jar, refl, jar-IsUsable), tt)

act_install_usable_example :
    Ends (act_install env (wet paths) (text "jar") (some local_jar) known).0
    × AllUsable env (act_install env (wet paths) (text "jar") (some local_jar) known).1.table
act_install_usable_example =
    act_install_usable env assoc_lib-IsLawful paths (text "jar") local_jar known local_jar-IsUsable
      all_known

load_all_formats_asserts_example :
    Ends (load_all_formats memory program_name paths installed).0
    × ((load_all_formats memory program_name paths installed).1.table ≡ installed.table)
load_all_formats_asserts_example = load_all_formats_asserts memory program_name paths installed

-- No format is installed, and one is enabled with `--test`.
abbrev calls : List (Opt × List Bytes)
calls = (opt_mode enable, text "jar" ∷ []) ∷ (opt_test, []) ∷ (key_success, []) ∷ []

started_empty : (mounted []).table ≡ kvhash_initialize env.formats
unfolding assoc_lib machine
started_empty = refl

reads_null : (main env calls true paths (mounted [])).0 ≡ crashed
unfolding main ◌>>=◌ check_supported_os observe str_eq memory text parse_opts parse_opt run_mode
    dispatch act_enable enable_name load_binfmt_misc print exists machine load_format is_file
    path_in formats_exists formats_lookup register assoc_lib kvhash_exists kvhash_lookup
reads_null = refl

main_outcomes_example :
    EndsForeign env (mounted []) (main env calls true paths (mounted []))
    ⊎ ((env.os.sysname (mounted []).sys ≡ text "Linux")
        × (Ends (main env calls true paths (mounted [])).0
            ⊎ ((o : Options) × ((parse_opts env calls (initial_options paths) (mounted [])).0
                  ≡ done o)
                × MayCrash o)))
main_outcomes_example =
    main_outcomes env assoc_lib-IsLawful assoc_lib-IsLawful calls true paths (mounted [])
      started_empty

kernel_calls_return_example :
    ((loaded : Bool) × ((load_binfmt_misc env (wet paths) installed).0 ≡ done loaded))
    × ((unloaded : Bool) × ((unload_binfmt_misc env (wet paths) installed).0 ≡ done unloaded))
    × ((disabled : Bool) × ((disable_name env (wet paths) (text "jar") installed).0
          ≡ done disabled))
kernel_calls_return_example = kernel_calls_return env (wet paths) (text "jar") installed
