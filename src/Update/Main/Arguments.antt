-- ===== src/Update/Main/Arguments.antt =====
-- `format_args` of `main` in src/update-binfmts.c.
use debian_binfmt_support.Prelude.{
  Option, none, some, Bytes, text, ◌≡◌, refl, ◌∙◌, arith, str_eq, if◌then◌else◌, ap,
}
use debian_binfmt_support.KvHash.{KvLib, IsLawful, or_new, kvhash_lookup}
use debian_binfmt_support.KvHash.Laws.{
  view, flat, view-initialize_lem, view-kvhash_insert, kvhash_lookup-view,
}
use debian_binfmt_support.Update.Options.{SpecType, Spec}
use debian_binfmt_support.Update.Main.{add_spec, type_value, format_args}

-- What an `ADD_SPEC` gives its key.
abbrev given : Option Bytes → Option (Option Bytes)
given none = none
given (some value) = some (some value)

flat-given : (value : Option Bytes) → flat (given value) ≡ value
flat-given none = refl
flat-given (some value) = refl

or_new-none : (x : Option (Option Bytes)) → or_new x none ≡ x
or_new-none none = refl
or_new-none (some x) = refl

module _ (H : KvLib Bytes) (L : IsLawful H) where
  view-add_spec :
      (field : Bytes) (value : Option Bytes) (t : H.Table) (k : Bytes)
      → view H (add_spec H field value t) k
        ≡ or_new (view H t k) (if str_eq k field then given value else none)
  unfolding add_spec
  view-add_spec field none t k = ground arith
  view-add_spec field (some value) t k = view-kvhash_insert H L t field (some value) k

  -- The value of a key of the table that `main` makes of the command line.
  view-format_args :
      (pkg : Bytes) (type : Option SpecType) (s : Spec) (k : Bytes)
      → view H (format_args H pkg type s) k
        ≡ or_new
            (or_new
              (or_new
                (or_new
                  (or_new
                    (or_new
                      (or_new
                        (or_new
                          (or_new (if str_eq k (text "package") then some (some pkg) else none) (
                            if str_eq k (text "type")
                            then some (some (type_value H type))
                            else none))
                          (if str_eq k (text "magic") then given s.magic else none))
                        (if str_eq k (text "mask") then given s.mask else none))
                      (if str_eq k (text "offset") then given s.offset else none))
                    (if str_eq k (text "extension") then given s.extension else none))
                  (if str_eq k (text "interpreter") then given s.interpreter else none))
                (if str_eq k (text "detector") then given s.detector else none))
              (if str_eq k (text "credentials") then given s.credentials else none))
            (if str_eq k (text "preserve") then given s.preserve else none)
  unfolding format_args
  view-format_args pkg type s k =
      simp (view-add_spec, view-kvhash_insert H L, view-initialize_lem H L)

  lookup-format_args :
      (pkg : Bytes) (type : Option SpecType) (s : Spec) (k : Bytes) {v : Option (Option Bytes)}
      → view H (format_args H pkg type s) k ≡ v
      → kvhash_lookup H (format_args H pkg type s) k ≡ flat v
  lookup-format_args pkg type s k e =
      kvhash_lookup-view H L (format_args H pkg type s) k ∙ ap flat e

  lookup-given :
      (pkg : Bytes) (type : Option SpecType) (s : Spec) (k : Bytes) (value : Option Bytes)
      → view H (format_args H pkg type s) k ≡ given value
      → kvhash_lookup H (format_args H pkg type s) k ≡ value
  lookup-given pkg type s k value e = lookup-format_args pkg type s k e ∙ flat-given value

  module _ (pkg : Bytes) (type : Option SpecType) (s : Spec) where
    pub lookup-package : kvhash_lookup H (format_args H pkg type s) (text "package") ≡ some pkg
    unfolding str_eq text
    lookup-package = lookup-format_args pkg type s _ (view-format_args pkg type s _ ∙ refl)

    pub lookup-type :
        kvhash_lookup H (format_args H pkg type s) (text "type") ≡ some (type_value H type)
    unfolding str_eq text
    lookup-type = lookup-format_args pkg type s _ (view-format_args pkg type s _ ∙ refl)

    pub lookup-magic : kvhash_lookup H (format_args H pkg type s) (text "magic") ≡ s.magic
    unfolding str_eq text
    lookup-magic =
        lookup-given pkg type s _ s.magic (view-format_args pkg type s _ ∙ simp or_new-none)

    pub lookup-mask : kvhash_lookup H (format_args H pkg type s) (text "mask") ≡ s.mask
    unfolding str_eq text
    lookup-mask =
        lookup-given pkg type s _ s.mask (view-format_args pkg type s _ ∙ simp or_new-none)

    pub lookup-offset : kvhash_lookup H (format_args H pkg type s) (text "offset") ≡ s.offset
    unfolding str_eq text
    lookup-offset =
        lookup-given pkg type s _ s.offset (view-format_args pkg type s _ ∙ simp or_new-none)

    pub lookup-extension :
        kvhash_lookup H (format_args H pkg type s) (text "extension") ≡ s.extension
    unfolding str_eq text
    lookup-extension =
        lookup-given pkg type s _ s.extension (view-format_args pkg type s _ ∙ simp or_new-none)
