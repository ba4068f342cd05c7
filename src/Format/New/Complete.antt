-- ===== src/Format/New/Complete.antt =====
-- The descriptions that `binfmt_new` of src/format.c returns.
use mathlib.Core.Option.{some-injective}
use debian_binfmt_support.Prelude.{
  ◌⊎◌, Bool, ◌≡◌, refl, ◌≢◌, sym, ap, ◌∙◌, arith, Option, none, some, [], Bytes, text, str_eq,
  str_eq_iff, has_byte, has_byte-NoByte, Bool-cases, inl, inr,
}
use debian_binfmt_support.Action.{done}
use debian_binfmt_support.Action.Ensures.{
  Ensures, Ensures-pure, Ensures-exit, Ensures-if, Ensures-bind, Ensures-then,
}
use debian_binfmt_support.Os.{Os, Machine}
use debian_binfmt_support.Error.{quit}
use debian_binfmt_support.KvHash.{KvLib, kvhash_lookup}
use debian_binfmt_support.Format.{Binfmt}
use debian_binfmt_support.Format.New.{
  default_mask, default_offset, fill_defaults, set_field, binfmt_new, no_newline, refuse, type_from,
  choose_type, extension_only, with_type,
}
use debian_binfmt_support.Format.New.Defaults.{default_offset-ne-nil, default-lines, retyped-lines}
use debian_binfmt_support.Format.RoundTrip.{OneLine, IsOneLine}

-- The type, the offset and the mask are set, the offset is not empty, no field holds a newline,
-- and a match by extension has the neutral mask and offset.
pub record IsComplete (b : Binfmt) : Type 0 where
  pub type_set : b.type ≢ none
  pub mask_set : b.mask ≢ none
  pub offset_set : b.offset ≢ none
  pub offset_ne_nil : b.offset ≢ some []
  pub lines : IsOneLine b
  pub extension_plain :
      (b.type ≢ some (text "extension")) ⊎ ((b.mask ≡ some []) × (b.offset ≡ some (text "0")))

abbrev Made : Bytes → Option Binfmt → Type 0
Made name none = Unit
Made name (some b) = IsComplete b × (b.name ≡ name)

fill_defaults-IsComplete :
    (b : Binfmt) (type : Bytes)
    → b.type ≡ some type
    → IsOneLine b
    → (type ≡ text "extension" → (b.mask ≡ none) × (b.offset ≡ none))
    → IsComplete (fill_defaults b)
unfolding fill_defaults default_mask default_offset text
fill_defaults-IsComplete b type t lines plain = record {
  type_set = λ e. cc;
  mask_set = λ e. cc;
  offset_set = λ e. cc;
  offset_ne_nil = λ e. default_offset-ne-nil b.offset (some-injective _ _ e);
  lines = default-lines b lines;
  extension_plain = elim (Bool-cases (str_eq type (text "extension"))) [
    | inl same ↦
        let (no_mask, no_offset) = plain ((str_eq_iff type (text "extension")).0 same) in
        inr (ap some (ap default_mask no_mask), ap some (ap default_offset no_offset))
    | inr other ↦ inl (λ e.
        absurd
          (ground (arith, (str_eq_iff type (text "extension")).1 (some-injective _ _ (sym t ∙ e)))))
  ];
}

module _ (os : Os) (program_name : Bytes) (H : KvLib Bytes) {T : Type 0} where
  no_newline-OneLine :
      (value : Option Bytes) → Ensures OneLine (no_newline os program_name H {T = T} value)
  unfolding no_newline quit
  no_newline-OneLine none = Ensures-pure none tt
  no_newline-OneLine (some value) = elim (Bool-cases (has_byte b'\n' value)) [
    | inl bad ↦ rw bad (Ensures-then _ _ (λ _. Ensures-exit 2))
    | inr good ↦ rw good (Ensures-pure (some value) (has_byte-NoByte b'\n' value good))
  ]

  set_field-OneLine :
      (args : H.Table) (field : Bytes)
      → Ensures OneLine (set_field os program_name H {T = T} args field)
  unfolding set_field
  set_field-OneLine args field = no_newline-OneLine (kvhash_lookup H args field)

  type_from-OneLine :
      (name : Bytes) (extension : Bool) (magic : Option Bytes)
      → Ensures OneLine (type_from os program_name H {T = T} name extension magic)
  unfolding type_from text
  type_from-OneLine name extension (some magic) =
      Ensures-if extension _ _ (Ensures-then _ _ (λ _. Ensures-pure none tt))
        (Ensures-pure _ (omega arith))
  type_from-OneLine name extension none =
      Ensures-if extension _ _ (Ensures-pure _ (omega arith))
        (Ensures-then _ _ (λ _. Ensures-pure none tt))

  choose_type-OneLine :
      (name : Bytes) (args : H.Table) (b : Binfmt) (type : Option Bytes)
      → b.type ≡ type
      → OneLine type
      → Ensures OneLine (choose_type os program_name H {T = T} name args b)
  unfolding choose_type
  choose_type-OneLine name args b none e h = rw (e, choose_type) (type_from-OneLine name _ b.magic)
  choose_type-OneLine name args b (some type) e h = rw (e, choose_type) (Ensures-pure _ h)

  refuse-Made : (name why : Bytes) → Ensures (Made name) (refuse os program_name H {T = T} name why)
  unfolding refuse
  refuse-Made name why = Ensures-then _ _ (λ _. Ensures-pure none tt)

  extension_only-Made :
      (name type : Bytes) (mask offset : Option Bytes) (b : Binfmt)
      → b.mask ≡ mask
      → b.offset ≡ offset
      → b.type ≡ some type
      → IsOneLine b
      → b.name ≡ name
      → Ensures (Made name) (extension_only os program_name H {T = T} name mask offset b)
  unfolding extension_only fill_defaults
  extension_only-Made name type (some mask) offset b k o t lines n = refuse-Made name _
  extension_only-Made name type none (some offset) b k o t lines n = refuse-Made name _
  extension_only-Made name type none none b k o t lines n =
      Ensures-pure _ (fill_defaults-IsComplete b type t lines (λ _. (k, o)), n)

  with_type-Made :
      (name : Bytes) (args : H.Table) (b : Binfmt) (type : Option Bytes)
      → IsOneLine b
      → b.name ≡ name
      → OneLine type
      → Ensures (Made name) (with_type os program_name H {T = T} name args b type)
  unfolding with_type fill_defaults
  with_type-Made name args b none lines n h = Ensures-pure none tt
  with_type-Made name args b (some type) lines n h =
      elim (Bool-cases (str_eq type (text "extension"))) [
        | inl same ↦ rw same (
            Ensures-bind _ _ (set_field-OneLine args (text "extension")) (λ extension e.
              extension_only-Made name type b.mask b.offset
                (record b { type = some type; magic = extension }) refl refl refl
                (retyped-lines b _ _ lines h e) n))
        | inr other ↦ rw other (
            Ensures-pure _ (
              fill_defaults-IsComplete (record b { type = some type }) type refl
                  (retyped-lines b _ _ lines h lines.magic_line)
                  (λ e. absurd (ground (arith, (str_eq_iff type (text "extension")).1 e))),
              n,
            ))
      ]

  binfmt_new-Made :
      (name : Bytes) (args : H.Table)
      → Ensures (Made name) (binfmt_new os program_name H {T = T} name args)
  unfolding binfmt_new
  binfmt_new-Made name args = Ensures-bind _ _ (set_field-OneLine args _) λ pkg h0.
      Ensures-bind _ _ (set_field-OneLine args _) λ type h1.
        Ensures-bind _ _ (set_field-OneLine args _) λ offset h2.
          Ensures-bind _ _ (set_field-OneLine args _) λ magic h3.
            Ensures-bind _ _ (set_field-OneLine args _) λ mask h4.
              Ensures-bind _ _ (set_field-OneLine args _) λ interpreter h5.
                Ensures-bind _ _ (set_field-OneLine args _) λ detector h6.
                  Ensures-bind _ _ (set_field-OneLine args _) λ credentials h7.
                    Ensures-bind _ _ (set_field-OneLine args _) λ preserve h8.
                      let b : Binfmt = record {
                        name = name;
                        pkg = pkg;
                        type = type;
                        offset = offset;
                        magic = magic;
                        mask = mask;
                        interpreter = interpreter;
                        detector = detector;
                        credentials = credentials;
                        preserve = preserve;
                      } in
                      let lines : IsOneLine b = record {
                        pkg_line = h0;
                        type_line = h1;
                        offset_line = h2;
                        magic_line = h3;
                        mask_line = h4;
                        interpreter_line = h5;
                        detector_line = h6;
                        credentials_line = h7;
                        preserve_line = h8;
                      } in
                      Ensures-bind _ _ (choose_type-OneLine name args b type refl h1)
                        λ type' h9. with_type-Made name args b type' lines refl h9

  -- Whatever `binfmt_new` returns bears the name that it was given and is complete: its type,
  -- offset and mask are set, its offset is not empty, none of its fields holds a newline, and if
  -- it matches by extension its mask is empty and its offset is 0.
  pub binfmt_new-IsComplete :
      (name : Bytes) (args : H.Table) (m : Machine os.State T) (b : Binfmt)
      → (binfmt_new os program_name H name args m).0 ≡ done (some b)
      → IsComplete b × (b.name ≡ name)
  binfmt_new-IsComplete name args m b = (binfmt_new-Made name args).returned m (some b)
