-- ===== src/Update/Options/Table.antt =====
-- `enum opts` and `options` of src/update-binfmts.c: what `argp_parse` knows of the command line.
pub mod Handled
use debian_binfmt_support.Prelude.{
  ℕ, Bool, true, false, Option, none, some, List, [], ◌∷◌, ◌++◌, ◌≡◌, refl, ◌≢◌, Bytes, text,
  str_eq, if◌then◌else◌,
}
use debian_binfmt_support.Argp.{ArgpOption, hidden_option, shown_option}
use debian_binfmt_support.Paths.{Paths}
use debian_binfmt_support.Update.Options.{
  Mode, install, remove, import, display, enable, disable, find, mode_name, SpecType, magic,
  extension, type_name, Opt, opt_mode, opt_type, opt_mask, opt_offset, opt_detector,
  opt_credentials, opt_preserve, opt_package, opt_admindir, opt_importdir, opt_procdir, opt_test,
  key_success, key_other, Options, Parsed, parse_opt,
}

-- The enumerators.
pub data Key : Type 0 where
  mode_key : Mode → Key
  type_key : SpecType → Key
  mask offset detector credentials preserve package_name : Key
  admindir importdir procdir test : Key

-- The table; the texts name the directories of the build.
pub options : Paths → List (ArgpOption Key)
unfolding hidden_option shown_option
options build =
    hidden_option (text "install") (mode_key install) none false (text "install binary format")
    ∷ hidden_option (text "remove") (mode_key remove) none false (text "remove binary format")
    ∷ hidden_option (text "import") (mode_key import) none true (text "import packaged format file")
    ∷ hidden_option (text "display") (mode_key display) none true
        (text "display information on binary format")
    ∷ hidden_option (text "enable") (mode_key enable) none true
        (text "enable binary format in kernel")
    ∷ hidden_option (text "disable") (mode_key disable) none true
        (text "disable binary format in kernel")
    ∷ hidden_option (text "find") (mode_key find) none false
        (text "find list of interpreters for an executable")
    ∷ hidden_option (text "magic") (type_key magic) (some (text "BYTE-SEQUENCE")) false
        (text "match files starting with this byte sequence")
    ∷ hidden_option (text "mask") mask (some (text "BYTE-SEQUENCE")) false
        (text "mask byte sequence with this string before comparing with magic")
    ∷ hidden_option (text "offset") offset (some (text "OFFSET")) false
        (text "byte offset of magic/mask in file")
    ∷ hidden_option (text "extension") (type_key extension) (some (text "EXTENSION")) false
        (text "match files whose names end in .EXTENSION")
    ∷ hidden_option (text "detector") detector (some (text "PATH")) false
        (text "use this userspace detector program")
    ∷ hidden_option (text "credentials") credentials (some (text "YES/NO")) false
        (text "use credentials of original binary for interpreter (yes/no)")
    ∷ hidden_option (text "preserve") preserve (some (text "YES/NO")) false
        (text "preserve argv[0] of original binary for interpreter (yes/no)")
    ∷ shown_option (text "package") package_name (some (text "PACKAGE-NAME"))
        (text "for --install and --remove, specify the current package name") 1
    ∷ shown_option (text "admindir") admindir (some (text "DIRECTORY"))
        (text "administration directory (default: " ++ build.admindir ++ text ")") 2
    ∷ shown_option (text "importdir") importdir (some (text "DIRECTORY"))
        (text "import directory (default: " ++ build.importdir ++ text ")") 3
    ∷ record (shown_option (text "procdir") procdir (some (text "DIRECTORY"))
        (text "proc directory, for test suite use only (default: " ++ build.procdir ++ text ")")
        5) { hidden = true }
    ∷ shown_option (text "test") test none (text "don't do anything, just demonstrate") 6
    ∷ []

-- How the messages of `parse_opt` and the manual spell an option.
pub spelling : Key → Bytes
unfolding mode_name type_name
spelling (mode_key m) = mode_name m
spelling (type_key t) = type_name t
spelling mask = text "mask"
spelling offset = text "offset"
spelling detector = text "detector"
spelling credentials = text "credentials"
spelling preserve = text "preserve"
spelling package_name = text "package"
spelling admindir = text "admindir"
spelling importdir = text "importdir"
spelling procdir = text "procdir"
spelling test = text "test"

-- The case of `parse_opt`.
pub opt_of : Key → Bytes → Opt
opt_of (mode_key m) arg = opt_mode m
opt_of (type_key t) arg = opt_type t arg
opt_of mask arg = opt_mask arg
opt_of offset arg = opt_offset arg
opt_of detector arg = opt_detector arg
opt_of credentials arg = opt_credentials arg
opt_of preserve arg = opt_preserve arg
opt_of package_name arg = opt_package arg
opt_of admindir arg = opt_admindir arg
opt_of importdir arg = opt_importdir arg
opt_of procdir arg = opt_procdir arg
opt_of test arg = opt_test

-- The same, where `none` stands for a null pointer that would be kept as the argument.
pub call_of : Key → Option Bytes → Option Opt
unfolding opt_of
call_of k (some arg) = some (opt_of k arg)
call_of (mode_key m) none = some (opt_mode m)
call_of test none = some opt_test
call_of _ none = none
