-- ===== src/Update/Options/Modes.antt =====
-- `parse_opt` of src/update-binfmts.c, and the mode.
use debian_binfmt_support.Prelude.{◌≡◌, refl, sym, ◌∙◌, Option, none, some, List, [], ◌∷◌, Bytes}
use debian_binfmt_support.Action.Ensures.{
  Ensures, Ensures-pure, Ensures-exit, Ensures-if, Ensures-bind, Ensures-then,
}
use debian_binfmt_support.Update.Base.{Env}
use debian_binfmt_support.Update.Options.{
  Mode, install, remove, find, SpecType, magic, extension, Opt, opt_mode, opt_type, opt_mask,
  opt_offset, opt_detector, opt_credentials, opt_preserve, opt_package, opt_admindir, opt_importdir,
  opt_procdir, opt_test, key_success, key_other, Options, Parsed, argp_error, set_mode, set_type,
  take_two, take_name, take_executable, take_arguments, type_argument, parse_opt,
}

-- The mode behind a call of `parse_opt`.
abbrev pub ModeIs : Mode → Options → Option Parsed → Type 0
ModeIs a o none = o.mode ≡ some a
ModeIs a o (some p) = p.0.mode ≡ some a

module _ (E : Env) where
  pub argp_error-Never :
      {A : Type 0} (message : Bytes) → Ensures (λ _. ⊥) (argp_error E {A = A} message)
  unfolding argp_error
  argp_error-Never message = Ensures-then _ _ (λ _. Ensures-exit 2)

  pub argp_error-Ensures :
      {A : Type 0} {Q : A → Type 0} (message : Bytes) → Ensures Q (argp_error E message)
  unfolding argp_error
  argp_error-Ensures message = Ensures-then _ _ (λ _. Ensures-exit 2)

  -- Setting the mode returns only if it was not set.
  set_mode-ModeIs :
      (m : Mode) (o : Options) (old : Option Mode)
      → o.mode ≡ old
      → Ensures (λ o'. (o.mode ≡ none) × (o'.mode ≡ some m)) (set_mode E m o)
  unfolding set_mode
  set_mode-ModeIs m o none e = rw (e, set_mode) (Ensures-pure _ (refl, refl))
  set_mode-ModeIs m o (some old) e = rw (e, set_mode) (argp_error-Ensures _)

  take_two-mode :
      (m : Mode) (o : Options) (rest : List Bytes)
      → Ensures (λ p. p.0.mode ≡ o.mode) (take_two E m o rest)
  unfolding take_two
  take_two-mode m o [] = argp_error-Ensures _
  take_two-mode m o (name ∷ []) = argp_error-Ensures _
  take_two-mode m o (name ∷ path ∷ rest) = Ensures-then _ _ (λ _. Ensures-pure _ refl)

  take_name-mode : (o : Options) (rest : List Bytes) → (take_name E o rest).0.mode ≡ o.mode
  unfolding take_name
  take_name-mode o [] = refl
  take_name-mode o (name ∷ rest) = refl

  take_executable-mode :
      (o : Options) (rest : List Bytes)
      → Ensures (λ p. p.0.mode ≡ o.mode) (take_executable E o rest)
  unfolding take_executable
  take_executable-mode o [] = argp_error-Ensures _
  take_executable-mode o (path ∷ rest) = Ensures-pure _ refl

  take_arguments-mode :
      (m : Mode) (o : Options) (rest : List Bytes)
      → Ensures (λ p. p.0.mode ≡ o.mode) (take_arguments E m o rest)
  unfolding take_arguments
  take_arguments-mode install o rest = take_two-mode install o rest
  take_arguments-mode remove o rest = take_two-mode remove o rest
  take_arguments-mode find o rest = take_executable-mode o rest
  take_arguments-mode _ o rest = Ensures-pure _ (take_name-mode o rest)

  -- An option that sets the mode returns only if none was set before.
  pub parse_opt-sets :
      (m : Mode) (o : Options) (rest : List Bytes)
      → Ensures (λ p. (o.mode ≡ none) × ModeIs m o p) (parse_opt E (opt_mode m) o rest)
  unfolding parse_opt
  parse_opt-sets m o rest =
      Ensures-bind _ _ (set_mode-ModeIs m o o.mode refl) λ o' h.
        Ensures-bind _ _ (take_arguments-mode m o' rest) λ p k. Ensures-pure _ (h.0, k ∙ h.1)

  type_argument-mode :
      (t : SpecType) (arg : Bytes) (o : Options) → (type_argument E t arg o).mode ≡ o.mode
  unfolding type_argument
  type_argument-mode magic arg o = refl
  type_argument-mode extension arg o = refl

  set_type-mode :
      (t : SpecType) (o : Options) (old : Option SpecType)
      → o.type ≡ old
      → Ensures (λ o'. o'.mode ≡ o.mode) (set_type E t o)
  unfolding set_type
  set_type-mode t o none e = rw (e, set_type) (Ensures-pure _ refl)
  set_type-mode t o (some old) e = rw (e, set_type) (argp_error-Ensures _)

  -- No other option changes it.
  pub parse_opt-ModeIs :
      (m : Mode) (key : Opt) (o : Options) (rest : List Bytes)
      → o.mode ≡ some m
      → Ensures (ModeIs m o) (parse_opt E key o rest)
  unfolding parse_opt
  parse_opt-ModeIs m (opt_mode n) o rest h =
      Ensures-bind _ _ (set_mode-ModeIs n o o.mode refl) λ o' k. absurd (clash (sym k.0 ∙ h))
    where
      clash : ◌≡◌ {A = Option Mode} none (some m) → ⊥
      clash e = cc
  parse_opt-ModeIs m (opt_type t arg) o rest h =
      Ensures-bind _ _ (set_type-mode t o o.type refl)
        λ o' k. Ensures-pure _ (type_argument-mode t arg o' ∙ k ∙ h)
  parse_opt-ModeIs m (opt_mask arg) o rest h = Ensures-then _ _ (λ _. Ensures-pure _ h)
  parse_opt-ModeIs m (opt_offset arg) o rest h =
      Ensures-then _ _ (λ _. Ensures-if _ _ _ (Ensures-pure _ h) (argp_error-Ensures _))
  parse_opt-ModeIs m (opt_detector arg) o rest h =
      Ensures-then _ _ (λ _. Ensures-then _ _ (λ _. Ensures-pure _ h))
  parse_opt-ModeIs m (opt_credentials arg) o rest h = Ensures-pure _ h
  parse_opt-ModeIs m (opt_preserve arg) o rest h = Ensures-pure _ h
  parse_opt-ModeIs m (opt_package arg) o rest h = Ensures-then _ _ (λ _. Ensures-pure _ h)
  parse_opt-ModeIs m (opt_admindir arg) o rest h = Ensures-pure _ h
  parse_opt-ModeIs m (opt_importdir arg) o rest h = Ensures-pure _ h
  parse_opt-ModeIs m (opt_procdir arg) o rest h = Ensures-pure _ h
  parse_opt-ModeIs m opt_test o rest h = Ensures-pure _ h
  parse_opt-ModeIs m key_success o rest h = Ensures-then _ _ (λ _. Ensures-pure _ h)
  parse_opt-ModeIs m key_other o rest h = Ensures-pure _ h
