-- ===== src/Format.antt =====
-- src/format.h and the parts of src/format.c that look at one description of a binary format.
-- A `char *` field may be null until `binfmt_load` or the end of `binfmt_new` has filled it.
-- `binfmt_free` and `binfmt_hash_free` release storage, which is not modelled; `magic_size` is
-- in `Find`, where alone it is used.
pub mod Lines
pub mod Fields
pub mod Load
pub mod New
pub mod Write
pub mod RoundTrip
pub mod Equality
use debian_binfmt_support.Prelude.{
  ℕ, ◌-◌, Bool, true, false, Option, none, some, List, [], ◌∷◌, ◌++◌, Bytes, text, str_eq, length,
  replicate,
}

-- `struct binfmt`; `pkg` is its field `package`.
pub record Binfmt : Type 0 where
  pub name : Bytes
  pub pkg : Option Bytes
  pub type : Option Bytes
  pub offset : Option Bytes
  pub magic : Option Bytes
  pub mask : Option Bytes
  pub interpreter : Option Bytes
  pub detector : Option Bytes
  pub credentials : Option Bytes
  pub preserve : Option Bytes

-- `field ? field : ""`
abbrev pub or_empty : Option Bytes → Bytes
or_empty (some s) = s
or_empty none = []

-- `%s`; glibc prints a null pointer as `(null)`.
unfoldable pub percent_s : Option Bytes → Bytes
percent_s (some s) = s
percent_s none = text "(null)"

-- `!strcmp (a, b)`; a null pointer is a crash, `none`.
abbrev pub compare_fields : Option Bytes → Option Bytes → Option Bool
compare_fields (some a) (some b) = some (str_eq a b)
compare_fields _ _ = none

-- `a && b`, where `b` is not reached if `a` is false.
abbrev pub and_then : Option Bool → Option Bool → Option Bool
and_then (some true) b = b
and_then a b = a

-- `none` where `strcmp` is given a null pointer.
unfoldable pub binfmt_equals : Binfmt → Binfmt → Option Bool
binfmt_equals left right = and_then (compare_fields left.type right.type) (
    and_then (compare_fields left.offset right.offset)
      (and_then (compare_fields left.magic right.magic) (compare_fields left.mask right.mask)))

-- `PRINT_FIELD`, `"%12s = %s\n"`
print_field : Bytes → Option Bytes → Bytes
print_field label field =
    replicate (12 - length label) b' ' ++ label ++ text " = " ++ or_empty field ++ text "\n"

-- What `binfmt_print` prints.
unfoldable pub binfmt_print : Binfmt → Bytes
unfolding print_field
binfmt_print binfmt =
    print_field (text "package") binfmt.pkg
    ++ print_field (text "type") binfmt.type
    ++ print_field (text "offset") binfmt.offset
    ++ print_field (text "magic") binfmt.magic
    ++ print_field (text "mask") binfmt.mask
    ++ print_field (text "interpreter") binfmt.interpreter
    ++ print_field (text "detector") binfmt.detector
    ++ print_field (text "credentials") binfmt.credentials
    ++ print_field (text "preserve") binfmt.preserve
