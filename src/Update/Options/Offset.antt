-- ===== src/Update/Options/Offset.antt =====
-- `parse_opt` of src/update-binfmts.c, and the offset.
use debian_binfmt_support.Prelude.{
  ℕ, ◌≤◌, true, ◌≡◌, refl, arith, Option, none, some, List, [], ◌∷◌, Bytes, All, isdigit,
  Bool-cases, inl, inr,
}
use debian_binfmt_support.Action.Ensures.{Ensures, Ensures-pure, Ensures-bind, Ensures-then}
use debian_binfmt_support.Update.Base.{Env}
use debian_binfmt_support.Update.Options.{
  Mode, install, remove, find, SpecType, magic, extension, Opt, opt_mode, opt_type, opt_mask,
  opt_offset, opt_detector, opt_credentials, opt_preserve, opt_package, opt_admindir, opt_importdir,
  opt_procdir, opt_test, key_success, key_other, Options, Parsed, set_mode, set_type, all_digits,
  take_two, take_name, take_executable, take_arguments, type_argument, parse_opt,
}
use debian_binfmt_support.Update.Options.Modes.{argp_error-Ensures}

abbrev pub IsDigit : ℕ → Type 0
IsDigit c = (b'0' ≤ c) × (c ≤ b'9')

-- No offset was given, or one of digits alone.
abbrev pub IsWhole : Option Bytes → Type 0
IsWhole none = Unit
IsWhole (some s) = All IsDigit s

abbrev pub WholeIn : Option Parsed → Type 0
WholeIn none = Unit
WholeIn (some p) = IsWhole p.0.spec.offset

all_digits-All : (s : Bytes) → all_digits s ≡ true → All IsDigit s
unfolding all_digits isdigit
all_digits-All [] h = tt
all_digits-All (c ∷ s) h = (ground arith, all_digits-All s (ground arith))

module _ (E : Env) where
  set_mode-IsWhole :
      (m : Mode) (o : Options) (old : Option Mode)
      → o.mode ≡ old
      → IsWhole o.spec.offset
      → Ensures (λ o'. IsWhole o'.spec.offset) (set_mode E m o)
  unfolding set_mode
  set_mode-IsWhole m o none e h = rw (e, set_mode) (Ensures-pure _ h)
  set_mode-IsWhole m o (some old) e h = rw (e, set_mode) (argp_error-Ensures E _)

  set_type-IsWhole :
      (t : SpecType) (o : Options) (old : Option SpecType)
      → o.type ≡ old
      → IsWhole o.spec.offset
      → Ensures (λ o'. IsWhole o'.spec.offset) (set_type E t o)
  unfolding set_type
  set_type-IsWhole t o none e h = rw (e, set_type) (Ensures-pure _ h)
  set_type-IsWhole t o (some old) e h = rw (e, set_type) (argp_error-Ensures E _)

  take_two-IsWhole :
      (m : Mode) (o : Options) (rest : List Bytes)
      → IsWhole o.spec.offset
      → Ensures (λ p. IsWhole p.0.spec.offset) (take_two E m o rest)
  unfolding take_two
  take_two-IsWhole m o [] h = argp_error-Ensures E _
  take_two-IsWhole m o (name ∷ []) h = argp_error-Ensures E _
  take_two-IsWhole m o (name ∷ path ∷ rest) h = Ensures-then _ _ (λ _. Ensures-pure _ h)

  take_name-IsWhole :
      (o : Options) (rest : List Bytes)
      → IsWhole o.spec.offset
      → IsWhole (take_name E o rest).0.spec.offset
  unfolding take_name
  take_name-IsWhole o [] h = h
  take_name-IsWhole o (name ∷ rest) h = h

  take_arguments-IsWhole :
      (m : Mode) (o : Options) (rest : List Bytes)
      → IsWhole o.spec.offset
      → Ensures (λ p. IsWhole p.0.spec.offset) (take_arguments E m o rest)
  unfolding take_arguments take_executable
  take_arguments-IsWhole install o rest h = take_two-IsWhole install o rest h
  take_arguments-IsWhole remove o rest h = take_two-IsWhole remove o rest h
  take_arguments-IsWhole find o [] h = argp_error-Ensures E _
  take_arguments-IsWhole find o (path ∷ rest) h = Ensures-pure _ h
  take_arguments-IsWhole _ o rest h = Ensures-pure _ (take_name-IsWhole o rest h)

  type_argument-IsWhole :
      (t : SpecType) (arg : Bytes) (o : Options)
      → IsWhole o.spec.offset
      → IsWhole (type_argument E t arg o).spec.offset
  unfolding type_argument
  type_argument-IsWhole magic arg o h = h
  type_argument-IsWhole extension arg o h = h

  pub parse_opt-WholeIn :
      (key : Opt) (o : Options) (rest : List Bytes)
      → IsWhole o.spec.offset
      → Ensures WholeIn (parse_opt E key o rest)
  unfolding parse_opt
  parse_opt-WholeIn (opt_mode n) o rest h =
      Ensures-bind _ _ (set_mode-IsWhole n o o.mode refl h)
        λ o' k. Ensures-bind _ _ (take_arguments-IsWhole n o' rest k) λ p l. Ensures-pure _ l
  parse_opt-WholeIn (opt_type t arg) o rest h =
      Ensures-bind _ _ (set_type-IsWhole t o o.type refl h)
        λ o' k. Ensures-pure _ (type_argument-IsWhole t arg o' k)
  parse_opt-WholeIn (opt_mask arg) o rest h = Ensures-then _ _ (λ _. Ensures-pure _ h)
  parse_opt-WholeIn (opt_offset arg) o rest h = Ensures-then _ _ (λ _.
      elim (Bool-cases (all_digits arg)) [
        | inl whole ↦ rw whole (Ensures-pure _ (all_digits-All arg whole))
        | inr other ↦ rw other (argp_error-Ensures E _)
      ])
  parse_opt-WholeIn (opt_detector arg) o rest h =
      Ensures-then _ _ (λ _. Ensures-then _ _ (λ _. Ensures-pure _ h))
  parse_opt-WholeIn (opt_credentials arg) o rest h = Ensures-pure _ h
  parse_opt-WholeIn (opt_preserve arg) o rest h = Ensures-pure _ h
  parse_opt-WholeIn (opt_package arg) o rest h = Ensures-then _ _ (λ _. Ensures-pure _ h)
  parse_opt-WholeIn (opt_admindir arg) o rest h = Ensures-pure _ h
  parse_opt-WholeIn (opt_importdir arg) o rest h = Ensures-pure _ h
  parse_opt-WholeIn (opt_procdir arg) o rest h = Ensures-pure _ h
  parse_opt-WholeIn opt_test o rest h = Ensures-pure _ h
  parse_opt-WholeIn key_success o rest h = Ensures-then _ _ (λ _. Ensures-pure _ h)
  parse_opt-WholeIn key_other o rest h = Ensures-pure _ tt
