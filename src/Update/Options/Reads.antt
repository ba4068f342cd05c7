-- ===== src/Update/Options/Reads.antt =====
-- `parse_opt` of src/update-binfmts.c, and the state of the system.
use debian_binfmt_support.Prelude.{◌≡◌, refl, Option, none, some, List, [], ◌∷◌, Bytes}
use debian_binfmt_support.Action.Keeps.{Keeps, Keeps-pure, Keeps-crash, Keeps-bind}
use debian_binfmt_support.Update.Base.{Env}
use debian_binfmt_support.Update.Base.Reads.{Still, still_rules}
use debian_binfmt_support.Update.Options.{
  Mode, install, remove, find, SpecType, Opt, opt_mode, opt_type, opt_mask, opt_offset,
  opt_detector, opt_package, key_success, Options, argp_error, not_executable, set_mode, set_type,
  take_two, take_executable, take_arguments, once, check_name, check_install, check_mode, parse_opt,
}

module _ (E : Env) {s : E.os.State} where
  argp_error-Still :
      {A : Type 0} (message : Bytes) → Keeps (Still E s) (argp_error E {A = A} message)
  unfolding argp_error
  argp_error-Still message = search still_rules

  not_executable-Still : (path : Bytes) → Keeps (Still E s) (not_executable E path)
  unfolding not_executable
  not_executable-Still path = search still_rules

  set_mode-Still :
      (m : Mode) (o : Options) (old : Option Mode)
      → o.mode ≡ old
      → Keeps (Still E s) (set_mode E m o)
  unfolding set_mode
  set_mode-Still m o none e = rw (e, set_mode) (Keeps-pure _)
  set_mode-Still m o (some old) e = rw (e, set_mode) (argp_error-Still _)

  set_type-Still :
      (t : SpecType) (o : Options) (old : Option SpecType)
      → o.type ≡ old
      → Keeps (Still E s) (set_type E t o)
  unfolding set_type
  set_type-Still t o none e = rw (e, set_type) (Keeps-pure _)
  set_type-Still t o (some old) e = rw (e, set_type) (argp_error-Still _)

  take_two-Still :
      (m : Mode) (o : Options) (rest : List Bytes) → Keeps (Still E s) (take_two E m o rest)
  unfolding take_two
  take_two-Still m o [] = argp_error-Still _
  take_two-Still m o (name ∷ []) = argp_error-Still _
  take_two-Still m o (name ∷ path ∷ rest) = search (still_rules, not_executable-Still)

  take_executable-Still :
      (o : Options) (rest : List Bytes) → Keeps (Still E s) (take_executable E o rest)
  unfolding take_executable
  take_executable-Still o [] = argp_error-Still _
  take_executable-Still o (path ∷ rest) = Keeps-pure _

  take_arguments-Still :
      (m : Mode) (o : Options) (rest : List Bytes) → Keeps (Still E s) (take_arguments E m o rest)
  unfolding take_arguments
  take_arguments-Still install o rest = take_two-Still install o rest
  take_arguments-Still remove o rest = take_two-Still remove o rest
  take_arguments-Still find o rest = take_executable-Still o rest
  take_arguments-Still _ o rest = Keeps-pure _

  once-Still : (label : Bytes) (old : Option Bytes) → Keeps (Still E s) (once E label old)
  unfolding once
  once-Still label none = Keeps-pure _
  once-Still label (some v) = argp_error-Still _

  check_name-Still : (name : Option Bytes) → Keeps (Still E s) (check_name E name)
  unfolding check_name
  check_name-Still none = Keeps-crash
  check_name-Still (some name) = search (still_rules, argp_error-Still)

  check_install-Still :
      (o : Options) (type : Option SpecType) → o.type ≡ type → Keeps (Still E s) (check_install E o)
  unfolding check_install
  check_install-Still o none e = rw (e, check_install) (argp_error-Still _)
  check_install-Still o (some t) e = rw (e, check_install) (check_name-Still o.name)

  check_mode-Still : (o : Options) (mode : Option Mode) → Keeps (Still E s) (check_mode E o mode)
  unfolding check_mode
  check_mode-Still o none = argp_error-Still _
  check_mode-Still o (some install) = check_install-Still o o.type refl
  check_mode-Still o (some _) = Keeps-pure _

  pub parse_opt-Still :
      (key : Opt) (o : Options) (rest : List Bytes) → Keeps (Still E s) (parse_opt E key o rest)
  unfolding parse_opt
  parse_opt-Still (opt_mode m) o rest =
      Keeps-bind _ _ (set_mode-Still m o o.mode refl)
        (λ o'. search (still_rules, take_arguments-Still))
  parse_opt-Still (opt_type t arg) o rest =
      Keeps-bind _ _ (set_type-Still t o o.type refl) (λ o'. Keeps-pure _)
  parse_opt-Still key_success o rest = search (still_rules, check_mode-Still)
  parse_opt-Still (opt_offset arg) o rest = search (still_rules, once-Still, argp_error-Still)
  parse_opt-Still (opt_detector arg) o rest = search (still_rules, once-Still, not_executable-Still)
  parse_opt-Still (opt_mask arg) o rest = search (still_rules, once-Still)
  parse_opt-Still (opt_package arg) o rest = search (still_rules, once-Still)
  parse_opt-Still _ o rest = Keeps-pure _
