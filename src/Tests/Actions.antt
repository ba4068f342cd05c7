-- ===== src/Tests/Actions.antt =====
-- Installing, removing, importing, disabling.
use debian_binfmt_support.Prelude.{
  none, Bool, true, false, ◌≡◌, refl, ap, ◌≢◌, ◌⊎◌, arith, none, some, [], ◌∷◌, Bytes, text, str_eq,
  path_in, after_last, isspace, c_string, tolower,
}
use debian_binfmt_support.Action.{Outcome, done, crashed, ◌>>=◌}
use debian_binfmt_support.Os.{Os, written}
use debian_binfmt_support.Os.Memory.{memory}
use debian_binfmt_support.Error.{system, observe, kind_is_file, kind_is_directory}
use debian_binfmt_support.KvHash.{kvhash_exists, kvhash_insert, kvhash_lookup}
use debian_binfmt_support.KvHash.Assoc.{assoc_lib, assoc_lib-IsLawful}
use debian_binfmt_support.KvHash.Laws.{view}
use debian_binfmt_support.Format.Lines.{getline, trim_right}
use debian_binfmt_support.Format.Fields.{read_fields, read_required, read_optional}
use debian_binfmt_support.Format.Load.{binfmt_load}
use debian_binfmt_support.Format.Write.{file_text}
use debian_binfmt_support.Update.Base.{
  Env, State, is_file, is_directory, exists, formats_insert, formats_exists, formats_lookup,
  formats_delete,
}
use debian_binfmt_support.Update.Database.{load_format, admindir_name}
use debian_binfmt_support.Update.Disable.{disable_name}
use debian_binfmt_support.Update.Disable.Gone.{Gone, disable_name-Gone}
use debian_binfmt_support.Update.Install.{enable_new, act_install, same_package}
use debian_binfmt_support.Update.Install.Foreign.{warned, owned_by_other, act_install_other_package}
use debian_binfmt_support.Update.Install.Null.{act_install_null}
use debian_binfmt_support.Update.Install.Stale.{enable_new_stale}
use debian_binfmt_support.Update.Packaged.{
  all_lines, split_space, key_value, import_lines, get_import,
}
use debian_binfmt_support.Update.Import.{
  is_reserved, id_of, import_path, import_name, install_import,
}
use debian_binfmt_support.Update.Import.Outcome.{import_name_local, install_import-true}
use debian_binfmt_support.Update.Remove.{act_remove, delete_format}
use debian_binfmt_support.Update.Remove.Foreign.{act_remove_other_package}
use debian_binfmt_support.Update.Options.{Options, remove, find}
use debian_binfmt_support.Update.Main.{run_mode}
use debian_binfmt_support.Update.Main.Dry.{run_mode_dry}
use debian_binfmt_support.Update.Remove.Removal.{Removal}
use debian_binfmt_support.Update.Remove.Deletes.{act_remove-Removal}
use debian_binfmt_support.Tests.{
  env, paths, config, dry_config, jar, local_jar, machine, mounted, installed, known,
}

abbrev remove_jar : Options
remove_jar = record {
  mode = some remove;
  type = none;
  name = some (text "jar");
  executable = none;
  pkg = some (text "java");
  spec = record {
    magic = none;
    mask = none;
    offset = none;
    extension = none;
    interpreter = none;
    detector = none;
    credentials = none;
    preserve = none;
  };
  config = dry_config;
}

remove_ne_find : some remove ≢ some find
remove_ne_find e = cc

run_mode_dry_example : (run_mode env remove_jar installed).1.sys ≡ installed.sys
run_mode_dry_example = run_mode_dry env remove_jar installed refl remove_ne_find

java_ne_sun : text "sun" ≢ text "java"
unfolding text
java_ne_sun e = ground arith

-- Reading the administrative file.
jar_loaded : load_format env config (text "jar") true installed ≡ (done tt, known)
unfolding load_format ◌>>=◌ memory assoc_lib binfmt_load file_text read_fields read_required
    read_optional getline trim_right isspace is_file observe formats_insert kvhash_insert str_eq
    c_string path_in text
jar_loaded = refl

jar_known : view env.formats known.table (text "jar") ≡ some (some jar)
unfolding view memory assoc_lib str_eq text
jar_known = refl

act_install_other_package_example :
    (act_install env config (text "jar") (some (record jar { pkg = some (text "sun") })) installed
      ≡ (done false, warned env (owned_by_other (text "sun") (text "java") (text "")) known))
    × ((act_install env config
          (text "jar")
          (some (record jar { pkg = some (text "sun") }))
          installed).1.sys
        ≡ installed.sys)
act_install_other_package_example =
    act_install_other_package env assoc_lib-IsLawful config (text "jar") (text "sun") (text "java")
      (record jar { pkg = some (text "sun") }) jar installed known jar_loaded jar_known refl refl
      java_ne_sun

jar_is_file :
    kind_is_file (env.os.stat installed.sys (admindir_name env config (text "jar"))) ≡ true
unfolding memory path_in str_eq text machine
jar_is_file = refl

act_remove_other_package_example :
    (act_remove env config (text "jar") (text "sun") installed ≡ (
      done true,
      warned env (owned_by_other (text "sun") (text "java") (text "; not removing.")) known,
    ))
    × ((act_remove env config (text "jar") (text "sun") installed).1.sys ≡ installed.sys)
act_remove_other_package_example =
    act_remove_other_package env assoc_lib-IsLawful config (text "jar") (text "sun") (text "java")
      jar installed known jar_is_file jar_loaded jar_known refl java_ne_sun

enable_new_stale_example :
    enable_new env config (text "jar") (some local_jar) known
    ≡ enable_new env config (text "jar") (some jar) known
enable_new_stale_example =
    enable_new_stale env assoc_lib-IsLawful config (text "jar") local_jar jar known jar_known

-- A packaged file, where the administrator has a format of the name.
abbrev packaged : Bytes
packaged = text "package java\nmagic PK\n"

abbrev local_installed : State env
local_installed = mounted ((text "/a/jar", file_text local_jar) ∷ (text "/i/jar", packaged) ∷ [])

abbrev local_known : State env
unfolding assoc_lib
local_known = record local_installed {
  table = record { key = text "jar"; value = some local_jar } ∷ [];
}

abbrev imported_values : env.args.Table
unfolding assoc_lib
imported_values =
    record { key = text "package"; value = some (text "java") }
    ∷ record { key = text "magic"; value = some (text "PK") }
    ∷ []

jar_imported :
    get_import env (import_path env config (text "jar")) local_installed
    ≡ (done (some imported_values), local_installed)
unfolding get_import ◌>>=◌ memory assoc_lib str_eq path_in text observe after_last import_lines
    all_lines kvhash_insert key_value split_space c_string trim_right isspace tolower
jar_imported = refl

local_loaded : load_format env config (text "jar") true local_installed ≡ (done tt, local_known)
unfolding load_format ◌>>=◌ memory assoc_lib binfmt_load file_text read_fields read_required
    read_optional getline trim_right isspace is_file observe formats_insert kvhash_insert str_eq
    c_string path_in text
local_loaded = refl

jar_not_reserved : is_reserved (id_of env config (text "jar")) ≡ false
unfolding is_reserved str_eq text after_last
jar_not_reserved = refl

local_is_known : view env.formats local_known.table (text "jar") ≡ some (some local_jar)
unfolding view memory assoc_lib str_eq text
local_is_known = refl

two_values : env.args.hash_get_n_entries imported_values ≢ 0
unfolding assoc_lib
two_values e = omega arith

import_name_local_example :
    (import_name env config (text "jar") local_installed
      ≡ (done true, warned env (text "preserving local changes to jar") local_known))
    × ((import_name env config (text "jar") local_installed).1.sys ≡ local_installed.sys)
unfolding text after_last
import_name_local_example =
    import_name_local env assoc_lib-IsLawful config (text "jar") imported_values local_jar
      local_installed local_installed local_known jar_not_reserved jar_imported two_values
      local_loaded local_is_known refl

-- The file of another package: the installation is refused.
abbrev sun_values : env.args.Table
unfolding assoc_lib
sun_values =
    record { key = text "package"; value = some (text "sun") }
    ∷ record { key = text "magic"; value = some (text "PK") }
    ∷ []

sun_package : kvhash_exists env.args sun_values (text "package") ≡ true
unfolding kvhash_exists assoc_lib str_eq text
sun_package = refl

sun_refused :
    (act_install env config
      (text "jar")
      (some (record jar { pkg = some (text "sun") }))
      installed).0
    ≡ done false
sun_refused = ap (λ (r : Outcome Bool × State env). r.0) act_install_other_package_example.0

install_import-true_example :
    (install_import env config (text "/i/jar") (text "jar") sun_values installed).0 ≢ done false
install_import-true_example =
    install_import-true env config (text "/i/jar") (text "jar") sun_values installed sun_package

-- A kernel that takes `-1`.
abbrev taking : Os
unfolding memory
taking = record memory {
  write = λ path t s. elim (str_eq t (text "-1")) [
    | true ↦ (written, (memory.unlink path s).1)
    | false ↦ memory.write path t s
  ];
}

abbrev taking_env : Env
taking_env = record { os = taking; formats = assoc_lib; args = assoc_lib }

abbrev enabled : State taking_env
unfolding memory assoc_lib
enabled = record (mounted ((text "/p/jar", text "enabled") ∷ [])) { out = [] }

jar_disabled : (disable_name taking_env config (text "jar") enabled).0 ≡ done true
unfolding disable_name ◌>>=◌ is_directory observe taking enabled text exists path_in system
jar_disabled = refl

disable_name-Gone_example :
    (kind_is_directory (taking.stat enabled.sys (text "/p")) ≡ false)
    ⊎ Gone taking_env config (text "jar") (disable_name taking_env config (text "jar") enabled).1
disable_name-Gone_example =
    disable_name-Gone taking_env config (text "jar") enabled refl jar_disabled

-- The package removes its own format, which is not enabled.
jar_removes : (act_remove env config (text "jar") (text "java") installed).0 ≡ done true
unfolding act_remove ◌>>=◌ load_format is_file text machine path_in binfmt_load read_fields
    read_required getline file_text formats_insert formats_exists kvhash_exists kvhash_insert
    formats_lookup same_package kvhash_lookup c_string trim_right isspace exists is_directory
    disable_name delete_format formats_delete system
jar_removes = refl

act_remove-Removal_example :
    Removal env config
      (text "jar")
      (text "java")
      installed
      (act_remove env config (text "jar") (text "java") installed).1
act_remove-Removal_example =
    act_remove-Removal env assoc_lib-IsLawful paths (text "jar") (text "java") installed jar_removes

act_install_null_example : act_install env config (text "jar") none installed ≡ (crashed, known)
act_install_null_example =
    act_install_null env assoc_lib-IsLawful config (text "jar") jar installed known jar_loaded
      jar_known
