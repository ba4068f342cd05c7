-- ===== src/Tests/Formats.antt =====
-- Descriptions of formats: written, read back, compared, made; and the hash table of arguments.
use debian_binfmt_support.Prelude.{
  Bool, true, ◌≡◌, refl, ◌↔◌, arith, none, some, [], ◌∷◌, map, Bytes, text, str_eq, has_byte,
  tolower, isspace, c_string,
}
use debian_binfmt_support.Action.{done, ◌>>=◌}
use debian_binfmt_support.Os.Memory.{memory, memory-FilesWork}
use debian_binfmt_support.KvHash.{kvhash_initialize, kvhash_insert, kvhash_lookup, kvhash_exists}
use debian_binfmt_support.KvHash.Assoc.{assoc_lib, assoc_lib-IsLawful}
use debian_binfmt_support.KvHash.Laws.{view, Refines, kvhash-Refines}
use debian_binfmt_support.Format.{Binfmt, binfmt_equals}
use debian_binfmt_support.Format.Equality.{HasSpec, SameSpec, binfmt_equals-SameSpec}
use debian_binfmt_support.Format.Lines.{trim_right}
use debian_binfmt_support.Format.Load.{binfmt_load}
use debian_binfmt_support.Format.Write.{binfmt_write}
use debian_binfmt_support.Format.RoundTrip.{IsOneLine, stored, binfmt_load-binfmt_write}
use debian_binfmt_support.Format.New.{set_field, fill_defaults, binfmt_new}
use debian_binfmt_support.Format.New.Complete.{IsComplete, binfmt_new-IsComplete}
use debian_binfmt_support.Update.Base.{State, program_name}
use debian_binfmt_support.Update.Packaged.{all_lines, key_value, split_space, get_import}
use debian_binfmt_support.Update.Packaged.Keys.{first_value, get_import-first_value}
use debian_binfmt_support.Tests.{env, jar, local_jar, machine, installed}

kvhash-Refines_example : Refines (assoc_lib {V = Bytes}) assoc_lib-IsLawful
kvhash-Refines_example = kvhash-Refines assoc_lib assoc_lib-IsLawful

-- The second insertion of a key is without effect.
insert_twice :
    kvhash_lookup {V = Bytes} assoc_lib
      (kvhash_insert assoc_lib
        (kvhash_insert assoc_lib
          (kvhash_initialize assoc_lib)
          (text "type")
          (some (text "magic"))).1
        (text "type")
        (some (text "extension"))).1
      (text "type")
    ≡ some (text "magic")
unfolding kvhash_insert kvhash_lookup assoc_lib str_eq text
insert_twice = refl

jar-HasSpec : HasSpec jar
jar-HasSpec = record {
  type_set = λ e. cc;
  offset_set = λ e. cc;
  magic_set = λ e. cc;
  mask_set = λ e. cc;
}

local_jar-HasSpec : HasSpec local_jar
local_jar-HasSpec = record {
  type_set = λ e. cc;
  offset_set = λ e. cc;
  magic_set = λ e. cc;
  mask_set = λ e. cc;
}

binfmt_equals-SameSpec_example :
    (x : Bool) × (binfmt_equals jar local_jar ≡ some x) × ((x ≡ true) ↔ SameSpec jar local_jar)
binfmt_equals-SameSpec_example = binfmt_equals-SameSpec jar local_jar jar-HasSpec local_jar-HasSpec

jar-IsOneLine : IsOneLine jar
unfolding text
jar-IsOneLine = record {
  pkg_line = ground arith;
  type_line = ground arith;
  offset_line = ground arith;
  magic_line = ground arith;
  mask_line = ground arith;
  interpreter_line = ground arith;
  detector_line = ground arith;
  credentials_line = ground arith;
  preserve_line = ground arith;
}

jar_written : (binfmt_write memory program_name jar (text "/a/jar") installed).0 ≡ done true
unfolding binfmt_write ◌>>=◌ memory assoc_lib text
jar_written = refl

binfmt_load-binfmt_write_example :
    binfmt_load memory program_name
      (text "jar")
      (text "/a/jar")
      true
      (binfmt_write memory program_name jar (text "/a/jar") installed).1
    ≡ (
      done (some (stored (text "jar") jar)),
      (binfmt_write memory program_name jar (text "/a/jar") installed).1,
    )
binfmt_load-binfmt_write_example =
    binfmt_load-binfmt_write memory program_name jar (text "jar") (text "/a/jar") true installed
      (memory-FilesWork (text "/a/jar")) jar-IsOneLine jar_written

abbrev jar_args : env.args.Table
unfolding assoc_lib
jar_args =
    record { key = text "package"; value = some (text "java") }
    ∷ record { key = text "magic"; value = some (text "PK") }
    ∷ record { key = text "interpreter"; value = some (text "/j") }
    ∷ []

-- What `binfmt_new` makes of them.
abbrev made : Binfmt
made = record {
  name = text "jar";
  pkg = some (text "java");
  type = some (text "magic");
  offset = some (text "0");
  magic = some (text "PK");
  mask = some [];
  interpreter = some (text "/j");
  detector = none;
  credentials = none;
  preserve = none;
}

jar_made :
    (binfmt_new memory program_name env.args (text "jar") jar_args installed).0 ≡ done (some made)
unfolding binfmt_new ◌>>=◌ memory assoc_lib kvhash_lookup kvhash_exists set_field fill_defaults
    str_eq has_byte text
jar_made = refl

binfmt_new-IsComplete_example : IsComplete made × (made.name ≡ text "jar")
binfmt_new-IsComplete_example =
    binfmt_new-IsComplete memory program_name env.args (text "jar") jar_args installed made jar_made

-- A packaged file with a key that stands twice.
abbrev packaged : Bytes
packaged = text "package java\nType magic\nmagic PK\ntype extension\ncredentials\n"

abbrev shipped : State env
shipped = machine ((text "/i/jar", packaged) ∷ []) [] []

get_import-first_value_example :
    (t : env.args.Table) × (get_import env (text "/i/jar") shipped ≡ (done (some t), shipped))
    × ((k : Bytes) → view env.args t k ≡ first_value k (map key_value (all_lines packaged)))
unfolding memory assoc_lib str_eq text
get_import-first_value_example =
    get_import-first_value env assoc_lib-IsLawful (text "/i/jar") packaged shipped refl

-- The first line of a key counts, and one without a space gives the null pointer.
first_type :
    (first_value (text "type") (map key_value (all_lines packaged)) ≡ some (some (text "magic")))
    × (first_value (text "credentials") (map key_value (all_lines packaged)) ≡ some none)
unfolding all_lines key_value split_space trim_right str_eq text tolower isspace c_string
first_type = (refl, refl)
