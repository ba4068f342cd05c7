-- ===== src/Tests/Registering.antt =====
-- Enabling: the line for the kernel, and the choice of the interpreter.
use debian_binfmt_support.Prelude.{
  ap, Any, Bytes, some, Bool, true, false, ◌≡◌, refl, ◌⊎◌, ◌↔◌, arith, none, [], ◌∷◌, text, str_eq,
  path_in, NoByte, All, if◌then◌else◌, isspace, c_string,
}
use debian_binfmt_support.Action.{Outcome, done, crashed, ◌>>=◌}
use debian_binfmt_support.Os.Memory.{memory}
use debian_binfmt_support.Error.{observe, print, kind_exists}
use debian_binfmt_support.KvHash.{kvhash_insert}
use debian_binfmt_support.KvHash.Assoc.{assoc_lib, assoc_lib-IsLawful}
use debian_binfmt_support.KvHash.Laws.{view}
use debian_binfmt_support.Format.{percent_s}
use debian_binfmt_support.Format.Equality.{HasSpec}
use debian_binfmt_support.Format.Lines.{getline, trim_right}
use debian_binfmt_support.Format.Fields.{read_fields, read_required, read_optional}
use debian_binfmt_support.Format.Load.{binfmt_load}
use debian_binfmt_support.Format.Write.{file_text}
use debian_binfmt_support.Find.Candidates.{is_dot}
use debian_binfmt_support.Update.Base.{State, is_file, formats_insert}
use debian_binfmt_support.Update.Database.Directory.{Adds, is_entry, load_all_formats-Adds}
use debian_binfmt_support.Update.Kernel.{load_binfmt_misc}
use debian_binfmt_support.Update.Database.{load_format, load_all_formats, procdir_name}
use debian_binfmt_support.Update.Enable.{
  is_set, type_letter, regstring, needs_detector, enable_name,
}
use debian_binfmt_support.Update.Enable.Kernel.{split_at, flags, split_at-regstring}
use debian_binfmt_support.Update.Enable.Shared.{Shares, HoldsSpec, needs_detector-Any}
use debian_binfmt_support.Update.Enable.Unknown.{enable_name_unknown}
use debian_binfmt_support.Update.Packaged.{all_lines}
use debian_binfmt_support.Update.Kernel.{BinfmtStyle, binfmt_filesystem, get_binfmt_style}
use debian_binfmt_support.Update.Kernel.Style.{NamesMisc, get_binfmt_style-Any}
use debian_binfmt_support.Tests.{env, config, dry_config, jar, machine, installed, known}

jar_no_colon : NoByte b':' (text "jar")
unfolding text
jar_no_colon = ground arith

offset_no_colon : NoByte b':' (percent_s jar.offset)
unfolding text percent_s
offset_no_colon = ground arith

magic_no_colon : NoByte b':' (percent_s jar.magic)
unfolding text percent_s
magic_no_colon = ground arith

mask_no_colon : NoByte b':' (percent_s jar.mask)
unfolding text percent_s
mask_no_colon = ground arith

interpreter_no_colon : NoByte b':' (text "/j")
unfolding text
interpreter_no_colon = ground arith

split_at-regstring_example :
    split_at b':' (regstring (text "jar") jar (text "magic") (text "/j"))
    ≡ []
      ∷ text "jar"
      ∷ type_letter (text "magic")
      ∷ percent_s jar.offset
      ∷ percent_s jar.magic
      ∷ percent_s jar.mask
      ∷ text "/j"
      ∷ flags jar
      ∷ []
split_at-regstring_example =
    split_at-regstring (text "jar") jar (text "magic") (text "/j") jar_no_colon offset_no_colon
      magic_no_colon mask_no_colon interpreter_no_colon

jar_line : regstring (text "jar") jar (text "magic") (text "/j") ≡ text ":jar:M:0:PK::/j:\n"
unfolding regstring percent_s str_eq text
jar_line = refl

jar-HasSpec : HasSpec jar
jar-HasSpec = record {
  type_set = λ e. cc;
  offset_set = λ e. cc;
  magic_set = λ e. cc;
  mask_set = λ e. cc;
}

all_loaded : load_all_formats env config true installed ≡ (done tt, known)
unfolding load_all_formats load_format ◌>>=◌ memory assoc_lib binfmt_load file_text read_fields
    read_required read_optional getline trim_right isspace is_file is_dot observe formats_insert
    kvhash_insert str_eq c_string path_in text
all_loaded = refl

All-HoldsSpec : All HoldsSpec (env.formats.entries known.table)
unfolding assoc_lib known
All-HoldsSpec = ((jar, refl, jar-HasSpec), tt)

needs_detector-Any_example :
    (x : Bool) × ((needs_detector env config (text "zip") jar installed).0 ≡ done x)
    × ((x ≡ true) ↔ (
        (is_set jar.detector ≡ true)
        ⊎ Any (Shares (text "zip") jar) (env.formats.entries known.table)))
needs_detector-Any_example =
    needs_detector-Any env config (text "zip") jar installed known jar-HasSpec all_loaded
      All-HoldsSpec

-- With `--test`, binfmt_misc counts as loaded.
misc_loaded :
    load_binfmt_misc env dry_config installed
    ≡ (done true, record installed { out = text "load binfmt_misc\n" })
unfolding load_binfmt_misc ◌>>=◌ print text machine
misc_loaded = refl

abbrev announced : State env
announced = record installed { out = text "load binfmt_misc\n" }

zip_absent :
    kind_exists (env.os.stat announced.sys (procdir_name env dry_config (text "zip"))) ≡ false
unfolding memory path_in str_eq text machine
zip_absent = refl

zip_not_loaded : load_format env dry_config (text "zip") false announced ≡ (done tt, announced)
unfolding load_format ◌>>=◌ memory is_file observe path_in str_eq text machine
zip_not_loaded = refl

zip_unknown : view env.formats announced.table (text "zip") ≡ none
unfolding view memory assoc_lib text machine
zip_unknown = refl

enable_name_unknown_example :
    (enable_name env dry_config (text "zip") installed).0
    ≡ (if dry_config.test then crashed else done false)
enable_name_unknown_example =
    enable_name_unknown env assoc_lib-IsLawful dry_config (text "zip") installed announced announced
      misc_loaded zip_absent zip_not_loaded zip_unknown

-- A list of file systems with binfmt_misc in it.
abbrev filesystems : Bytes
filesystems = text "nodev\tsysfs\nnodev\tbinfmt_misc\n"

abbrev listed : State env
listed = machine ((text "/proc/filesystems", filesystems) ∷ []) [] []

get_binfmt_style-Any_example :
    (style : BinfmtStyle) × (get_binfmt_style env listed ≡ (done style, listed))
    × ((style ≡ binfmt_filesystem) ↔ Any NamesMisc (all_lines filesystems))
unfolding memory str_eq text machine
get_binfmt_style-Any_example = get_binfmt_style-Any env listed filesystems refl

jar_in_directory : env.os.list installed.sys config.paths.admindir ≡ some (text "jar" ∷ [])
unfolding memory str_eq text machine
jar_in_directory = refl

load_all_formats-Adds_example :
    Adds env assoc_lib-IsLawful config
      (λ key. is_entry key (text "jar" ∷ []))
      installed
      (load_all_formats env config true installed).1
load_all_formats-Adds_example =
    load_all_formats-Adds env assoc_lib-IsLawful config true (text "jar" ∷ []) installed
      jar_in_directory (ap (λ (x : Outcome (Unit {0}) × State env). x.0) all_loaded)
