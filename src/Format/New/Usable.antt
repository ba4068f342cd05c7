-- ===== src/Format/New/Usable.antt =====
-- The descriptions that `binfmt_new` of src/format.c makes of the values of a command line.
use debian_binfmt_support.Prelude.{
  Option, none, some, Bytes, text, ◌≡◌, refl, sym, ◌∙◌, ◌≢◌, ◌⊎◌, inl, inr, str_eq,
}
use debian_binfmt_support.Action.{◌>>=◌}
use debian_binfmt_support.Action.Safe.{
  Yields, Fails, Yields-pure, Yields-bind, Yields-then, Yields-if, Yields-weaken,
}
use debian_binfmt_support.Os.{Os}
use debian_binfmt_support.Error.Tables.{Tabled, warning-Safe, quit-Yields}
use debian_binfmt_support.KvHash.{KvLib, kvhash_lookup}
use debian_binfmt_support.Format.{Binfmt}
use debian_binfmt_support.Format.Fields.Full.{IsUsable}
use debian_binfmt_support.Format.New.{
  no_newline, set_field, refuse, choose_type, extension_only, with_type, binfmt_new, fill_defaults,
}

-- The description can be used, or the pointer is null and `why` holds.
abbrev pub UsableUnless : Type 0 → Option Binfmt → Type 0
UsableUnless why none = why
UsableUnless why (some b) = IsUsable b

pub UsableUnless-weaken :
    {why because : Type 0} (b : Option Binfmt)
    → (why → because)
    → UsableUnless why b
    → UsableUnless because b
UsableUnless-weaken none k h = k h
UsableUnless-weaken (some b) k h = h

pub given_either : {A B C D : Type 0} → A ⊎ B → (A → C) → (B → D) → C ⊎ D
given_either (inl a) f g = inl (f a)
given_either (inr b) f g = inr (g b)

fill_defaults-IsUsable :
    (b : Binfmt) → b.pkg ≢ none → b.type ≢ none → b.magic ≢ none → IsUsable (fill_defaults b)
unfolding fill_defaults
fill_defaults-IsUsable b p t m = record {
  spec = record { type_set = t; offset_set = λ e. cc; magic_set = m; mask_set = λ e. cc };
  pkg_set = p;
}

module _ (os : Os) (program_name : Bytes) (H : KvLib Bytes) {T : Type 0} {K : T → Type 0} where
  no_newline-same :
      (value : Option Bytes)
      → Yields Fails (Tabled {T = T} K) (λ v. v ≡ value) (no_newline os program_name H value)
  unfolding no_newline
  no_newline-same none = Yields-pure _ refl
  no_newline-same (some value) =
      Yields-if _ _ _ (quit-Yields os program_name _) (Yields-pure _ refl)

  set_field-lookup :
      (args : H.Table) (field : Bytes)
      → Yields Fails
          (Tabled {T = T} K)
          (λ v. v ≡ kvhash_lookup H args field)
          (set_field os program_name H args field)
  unfolding set_field
  set_field-lookup args field = no_newline-same _

  refuse-UsableUnless :
      {why : Type 0} (name message : Bytes)
      → why
      → Yields Fails (Tabled {T = T} K) (UsableUnless why) (refuse os program_name H name message)
  unfolding refuse
  refuse-UsableUnless name message h =
      Yields-then _ _ (warning-Safe os program_name _) λ u. Yields-pure _ h

  extension_only-UsableUnless :
      (name : Bytes) (mask offset : Option Bytes) (b : Binfmt)
      → b.pkg ≢ none
      → b.type ≢ none
      → b.magic ≢ none
      → Yields Fails
          (Tabled {T = T} K)
          (UsableUnless ((mask ≢ none) ⊎ (offset ≢ none)))
          (extension_only os program_name H name mask offset b)
  unfolding extension_only
  extension_only-UsableUnless name (some mask) offset b p t m =
      refuse-UsableUnless name _ (inl (λ e. cc))
  extension_only-UsableUnless name none (some offset) b p t m =
      refuse-UsableUnless name _ (inr (λ e. cc))
  extension_only-UsableUnless name none none b p t m =
      Yields-pure _ (fill_defaults-IsUsable b p t m)

  -- A magic was given, and the type says so.
  magic-Usable :
      (name : Bytes) (args : H.Table) (b : Binfmt)
      → b.pkg ≢ none
      → b.type ≡ some (text "magic")
      → b.magic ≢ none
      → Yields Fails
          (Tabled {T = T} K)
          (UsableUnless ⊥)
          (choose_type os program_name H name args b >>= with_type os program_name H name args b)
  unfolding choose_type with_type str_eq text
  magic-Usable name args b p t m = rw t (
      Yields-bind _ _ (Yields-pure {Q = λ r. r ≡ some (text "magic")} _ refl)
        λ r e. rw e (Yields-pure _ (fill_defaults-IsUsable _ p (λ e. cc) m)))

  extension-Usable :
      (name : Bytes) (args : H.Table) (b : Binfmt)
      → b.pkg ≢ none
      → b.type ≡ some (text "extension")
      → kvhash_lookup H args (text "extension") ≢ none
      → Yields Fails
          (Tabled {T = T} K)
          (UsableUnless ((b.mask ≢ none) ⊎ (b.offset ≢ none)))
          (choose_type os program_name H name args b >>= with_type os program_name H name args b)
  unfolding choose_type with_type str_eq text
  extension-Usable name args b p t x = rw t (
      Yields-bind _ _ (Yields-pure {Q = λ r. r ≡ some (text "extension")} _ refl) λ r e. rw e (
        Yields-bind _ _ (set_field-lookup args _) λ v same.
          extension_only-UsableUnless name b.mask b.offset _ p (λ e. cc)
            (λ null. x (sym same ∙ null))))

  -- From a package and a type with its argument, `binfmt_new` gives a description that can be
  -- used; a null pointer only for an extension with a mask or an offset.
  pub binfmt_new-UsableUnless :
      (name : Bytes) (args : H.Table)
      → kvhash_lookup H args (text "package") ≢ none
      → ((kvhash_lookup H args (text "type") ≡ some (text "magic"))
          × (kvhash_lookup H args (text "magic") ≢ none))
        ⊎ ((kvhash_lookup H args (text "type") ≡ some (text "extension"))
            × (kvhash_lookup H args (text "extension") ≢ none))
      → Yields Fails
          (Tabled {T = T} K)
          (UsableUnless (
            (kvhash_lookup H args (text "type") ≡ some (text "extension"))
            × ((kvhash_lookup H args (text "mask") ≢ none)
                ⊎ (kvhash_lookup H args (text "offset") ≢ none))))
          (binfmt_new os program_name H name args)
  unfolding binfmt_new
  binfmt_new-UsableUnless name args p given = Yields-bind _ _ (set_field-lookup args _) λ pkg ep.
      Yields-bind _ _ (set_field-lookup args _) λ type et.
        Yields-bind _ _ (set_field-lookup args _) λ offset eo.
          Yields-bind _ _ (set_field-lookup args _) λ magic em.
            Yields-bind _ _ (set_field-lookup args _) λ mask ek.
              Yields-bind _ _ (set_field-lookup args _) λ interpreter ei.
                Yields-bind _ _ (set_field-lookup args _) λ detector ed.
                  Yields-bind _ _ (set_field-lookup args _) λ credentials ec.
                    Yields-bind _ _ (set_field-lookup args _) λ preserve er. elim given [
                      | inl (t, m) ↦
                          Yields-weaken _ (λ b. UsableUnless-weaken b (λ h. elim h [ ]))
                            (magic-Usable name args _ (λ n. p (sym ep ∙ n)) (et ∙ t)
                              (λ n. m (sym em ∙ n)))
                      | inr (t, x) ↦
                          Yields-weaken _
                            (λ b.
                              UsableUnless-weaken b
                                (λ h. (t, given_either h (λ n k. n (ek ∙ k)) (λ n o. n (eo ∙ o)))))
                            (extension-Usable name args _ (λ n. p (sym ep ∙ n)) (et ∙ t) x)
                    ]
