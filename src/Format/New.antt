-- ===== src/Format/New.antt =====
-- `binfmt_new` of src/format.c: a description from named values, of the command line or of a
-- format file. `none` is its `NULL`.
pub mod Defaults
pub mod Complete
pub mod Reads
pub mod Usable
use debian_binfmt_support.Prelude.{
  Bool, true, false, Option, none, some, List, [], ◌∷◌, ◌++◌, Bytes, text, str_eq, has_byte,
  if◌then◌else◌,
}
use debian_binfmt_support.Action.{Action, pure, ◌>>=◌, ◌>>◌}
use debian_binfmt_support.Os.{Os, Machine}
use debian_binfmt_support.Error.{quit, warning}
use debian_binfmt_support.KvHash.{KvLib, kvhash_lookup, kvhash_exists}
use debian_binfmt_support.Format.{Binfmt}

-- `if (!binfmt->mask) binfmt->mask = xstrdup ("")`
unfoldable pub default_mask : Option Bytes → Bytes
default_mask (some mask) = mask
default_mask none = text ""

-- `if (!binfmt->offset || !*binfmt->offset) binfmt->offset = xstrdup ("0")`
unfoldable pub default_offset : Option Bytes → Bytes
default_offset (some (c ∷ cs)) = c ∷ cs
default_offset _ = text "0"

-- The last two tests, on a description that was not refused.
unfoldable pub fill_defaults : Binfmt → Binfmt
unfolding default_mask default_offset
fill_defaults b = record b {
  mask = some (default_mask b.mask);
  offset = some (default_offset b.offset);
}

module _ (os : Os) (program_name : Bytes) (H : KvLib Bytes) {T : Type 0} where
  -- `if (value && strchr (value, '\n')) quit (...)`
  no_newline : Option Bytes → Action (Machine os.State T) (Option Bytes)
  no_newline none = pure none
  no_newline (some value) =
      if has_byte b'\n' value
      then quit os program_name (text "newlines prohibited in binfmt files (" ++ value ++ text ")")
      else pure (some value)

  -- `SET_FIELD (field)`
  unfoldable pub set_field : H.Table → Bytes → Action (Machine os.State T) (Option Bytes)
  unfolding no_newline
  set_field args field = no_newline (kvhash_lookup H args field)

  refuse : Bytes → Bytes → Action (Machine os.State T) (Option Binfmt)
  refuse name why = warning os program_name (name ++ why) >> pure none

  -- The block `if (!binfmt->type)`, where `magic` says whether the field is set.
  type_from : Bytes → Bool → Option Bytes → Action (Machine os.State T) (Option Bytes)
  type_from name extension (some magic) =
      if extension
      then warning os program_name (name ++ text ": can't use both --magic and --extension")
        >> pure none
      else pure (some (text "magic"))
  type_from name extension none =
      if extension
      then pure (some (text "extension"))
      else warning os program_name (name ++ text ": either --magic or --extension is required")
        >> pure none

  choose_type : Bytes → H.Table → Binfmt → Action (Machine os.State T) (Option Bytes)
  choose_type name args b = elim b.type [
    | some type ↦ pure (some type)
    | none ↦ type_from name (kvhash_exists H args (text "extension")) b.magic
  ]

  -- The block `if (!strcmp (binfmt->type, "extension"))` behind the copy of the extension.
  extension_only :
      Bytes → Option Bytes → Option Bytes → Binfmt → Action (Machine os.State T) (Option Binfmt)
  unfolding refuse
  extension_only name (some mask) offset b =
      refuse name (text ": can't use --mask with --extension")
  extension_only name none (some offset) b =
      refuse name (text ": can't use --offset with --extension")
  extension_only name none none b = pure (some (fill_defaults b))

  with_type : Bytes → H.Table → Binfmt → Option Bytes → Action (Machine os.State T) (Option Binfmt)
  unfolding extension_only
  with_type name args b none = pure none
  with_type name args b (some type) =
      if str_eq type (text "extension")
      then (do
        extension ← set_field args (text "extension")
        extension_only name b.mask b.offset (record b { type = some type; magic = extension }))
      else pure (some (fill_defaults (record b { type = some type })))

  unfoldable pub binfmt_new : Bytes → H.Table → Action (Machine os.State T) (Option Binfmt)
  unfolding with_type choose_type type_from
  binfmt_new name args = do
    pkg ← set_field args (text "package")
    type ← set_field args (text "type")
    offset ← set_field args (text "offset")
    magic ← set_field args (text "magic")
    mask ← set_field args (text "mask")
    interpreter ← set_field args (text "interpreter")
    detector ← set_field args (text "detector")
    credentials ← set_field args (text "credentials")
    preserve ← set_field args (text "preserve")
    let b : Binfmt = record {
      name = name;
      pkg = pkg;
      type = type;
      offset = offset;
      magic = magic;
      mask = mask;
      interpreter = interpreter;
      detector = detector;
      credentials = credentials;
      preserve = preserve;
    }
    type' ← choose_type name args b
    with_type name args b type'
