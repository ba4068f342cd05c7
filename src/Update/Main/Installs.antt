-- ===== src/Update/Main/Installs.antt =====
-- `binfmt_new` as `main` of src/update-binfmts.c calls it.
use mathlib.Core.Option.{some-injective}
use debian_binfmt_support.Prelude.{
  text, ap, ◌∙◌, str_eq, ◌≡◌, refl, sym, ◌≢◌, ◌⊎◌, inl, inr, true, false, none, some, Bytes,
}
use debian_binfmt_support.Action.Safe.{Fails, Yields, Yields-weaken}
use debian_binfmt_support.Error.Tables.{Tabled}
use debian_binfmt_support.KvHash.{IsLawful, kvhash_lookup}
use debian_binfmt_support.Update.Base.{Env, program_name}
use debian_binfmt_support.Update.Base.Tables.{AllUsable}
use debian_binfmt_support.Update.Options.{magic, extension, Options}
use debian_binfmt_support.Update.Options.Operands.{IsNamed}
use debian_binfmt_support.Update.Main.{type_value, format_args, package_or_local}
use debian_binfmt_support.Format.New.{binfmt_new}
use debian_binfmt_support.Format.New.Usable.{
  UsableUnless, UsableUnless-weaken, given_either, binfmt_new-UsableUnless,
}
use debian_binfmt_support.Update.Main.Arguments.{
  lookup-package, lookup-type, lookup-magic, lookup-mask, lookup-offset, lookup-extension,
}

some_not_null : {A : Type 0} {a : A} → none ≢ some a
some_not_null e = cc

magic_not_extension : some (text "magic") ≢ some (text "extension")
unfolding str_eq text
magic_not_extension e =
    let differ : false ≡ true = ap (λ s. str_eq s (text "extension")) (some-injective _ _ e) in cc

module _ (E : Env) (LA : IsLawful E.args) where
  -- What `binfmt_new` gives of the command line, with the reason for a null pointer.
  pub made-UsableUnless :
      (o : Options) (name : Bytes)
      → ((o.type ≡ some magic) ⊎ (o.type ≡ some extension))
      → IsNamed o
      → Yields Fails
          (Tabled (AllUsable E))
          (UsableUnless
            ((o.type ≡ some extension) × ((o.spec.mask ≢ none) ⊎ (o.spec.offset ≢ none))))
          (binfmt_new E.os program_name E.args name
            (format_args E.args (package_or_local o.pkg) o.type o.spec))
  unfolding type_value text
  made-UsableUnless o name typed w =
      let pkg = package_or_local o.pkg in
      let args = format_args E.args pkg o.type o.spec in
      let made = binfmt_new E.os program_name E.args name args in
      let typed_as = lookup-type E.args LA pkg o.type o.spec in
      let packaged : kvhash_lookup E.args args (text "package") ≢ none =
        λ n. some_not_null (sym n ∙ lookup-package E.args LA pkg o.type o.spec) in
      elim typed [
        | inl t ↦
            let as_magic : kvhash_lookup E.args args (text "type") ≡ some (text "magic") =
              typed_as ∙ rw t refl in
            Yields-weaken made
              (λ b.
                UsableUnless-weaken b (λ (e, h). absurd (magic_not_extension (sym as_magic ∙ e))))
              (binfmt_new-UsableUnless E.os program_name E.args name args packaged (
                inl (
                  as_magic,
                  λ n. w.magic_given t (sym (lookup-magic E.args LA pkg o.type o.spec) ∙ n),
                )))
        | inr t ↦
            Yields-weaken made
              (λ b. UsableUnless-weaken b (λ (e, h). (
                t,
                given_either h (λ n k. n (lookup-mask E.args LA pkg o.type o.spec ∙ k))
                    (λ n k. n (lookup-offset E.args LA pkg o.type o.spec ∙ k)),
              )))
              (binfmt_new-UsableUnless E.os program_name E.args name args packaged (
                inr (
                  typed_as ∙ rw t refl,
                  λ n. w.extension_given t (sym (lookup-extension E.args LA pkg o.type o.spec) ∙ n),
                )))
      ]
