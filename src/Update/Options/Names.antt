-- ===== src/Update/Options/Names.antt =====
-- `parse_opt` of src/update-binfmts.c, and what the mode and the type need.
use debian_binfmt_support.Prelude.{◌≡◌, refl, ◌≢◌, Option, none, some, List, [], ◌∷◌, Bytes}
use debian_binfmt_support.Action.Safe.{
  Fails, Yields, Safe, Yields-pure, Safe-pure, Yields-if, Yields-then, Yields-bind,
}
use debian_binfmt_support.Error.Tables.{Tabled}
use debian_binfmt_support.Update.Base.{Env}
use debian_binfmt_support.Update.Base.Tables.{usable_rules}
use debian_binfmt_support.Update.Options.{
  Mode, install, remove, import, display, enable, disable, find, SpecType, Opt, opt_mode, opt_type,
  opt_mask, opt_offset, opt_detector, opt_credentials, opt_preserve, opt_package, opt_admindir,
  opt_importdir, opt_procdir, opt_test, key_success, key_other, Options, argp_error, not_executable,
  set_mode, set_type, take_two, take_executable, take_arguments, once, check_name, check_install,
  check_mode, parse_opt,
}
use debian_binfmt_support.Update.Options.Operands.{
  IsNamed, IsTyped, IsNamed-same, NamedBehind, take_name-IsNamed, type_argument-IsNamed,
}

module _ (E : Env) {K : E.formats.Table → Type 0} where
  argp_error-Yields :
      {A : Type 0} {Q : A → Type 0} (message : Bytes)
      → Yields Fails (Tabled K) Q (argp_error E {A = A} message)
  unfolding argp_error
  argp_error-Yields message = search usable_rules

  not_executable-Safe : (path : Bytes) → Safe Fails (Tabled K) (not_executable E path)
  unfolding not_executable
  not_executable-Safe path = search usable_rules

  once-Safe : (label : Bytes) (old : Option Bytes) → Safe Fails (Tabled K) (once E label old)
  unfolding once
  once-Safe label none = Safe-pure _
  once-Safe label (some v) = argp_error-Yields _

  set_mode-Yields :
      (m : Mode) (o : Options) (old : Option Mode)
      → o.mode ≡ old
      → IsNamed o
      → Yields Fails (Tabled K) (λ o'. (o'.mode ≡ some m) × IsTyped o') (set_mode E m o)
  unfolding set_mode
  set_mode-Yields m o none e w =
      rw (e, set_mode)
        (Yields-pure _
          (refl, record { given_magic = w.magic_given; given_extension = w.extension_given }))
  set_mode-Yields m o (some old) e w = rw (e, set_mode) (argp_error-Yields _)

  set_type-Yields :
      (t : SpecType) (o : Options) (old : Option SpecType)
      → o.type ≡ old
      → Yields Fails (Tabled K) (λ o'. o' ≡ record o { type = some t }) (set_type E t o)
  unfolding set_type
  set_type-Yields t o none e = rw (e, set_type) (Yields-pure _ refl)
  set_type-Yields t o (some old) e = rw (e, set_type) (argp_error-Yields _)

  take_two-Yields :
      (m : Mode) (o : Options) (rest : List Bytes)
      → o.mode ≢ some find
      → IsTyped o
      → Yields Fails (Tabled K) (λ p. IsNamed p.0) (take_two E m o rest)
  unfolding take_two
  take_two-Yields m o [] h w = argp_error-Yields _
  take_two-Yields m o (name ∷ []) h w = argp_error-Yields _
  take_two-Yields m o (name ∷ path ∷ rest) h w = Yields-then _ _ (not_executable-Safe path) λ u.
      Yields-pure _ (record {
        installing = λ _ e. cc;
        removing = λ _ e. cc;
        finding = λ found. absurd (h found);
        magic_given = w.given_magic;
        extension_given = w.given_extension;
      })

  take_executable-Yields :
      (o : Options) (rest : List Bytes)
      → o.mode ≡ some find
      → IsTyped o
      → Yields Fails (Tabled K) (λ p. IsNamed p.0) (take_executable E o rest)
  unfolding take_executable
  take_executable-Yields o [] h w = argp_error-Yields _
  take_executable-Yields o (path ∷ rest) h w = Yields-pure _ (record {
    installing = λ e. cc;
    removing = λ e. cc;
    finding = λ _ e. cc;
    magic_given = w.given_magic;
    extension_given = w.given_extension;
  })

  take_arguments-Yields :
      (m : Mode) (o : Options) (rest : List Bytes)
      → o.mode ≡ some m
      → IsTyped o
      → Yields Fails (Tabled K) (λ p. IsNamed p.0) (take_arguments E m o rest)
  unfolding take_arguments
  take_arguments-Yields install o rest h w = take_two-Yields install o rest (λ e. cc) w
  take_arguments-Yields remove o rest h w = take_two-Yields remove o rest (λ e. cc) w
  take_arguments-Yields find o rest h w = take_executable-Yields o rest h w
  take_arguments-Yields import o rest h w =
      Yields-pure _ (take_name-IsNamed E o rest (λ e. cc) (λ e. cc) (λ e. cc) w)
  take_arguments-Yields display o rest h w =
      Yields-pure _ (take_name-IsNamed E o rest (λ e. cc) (λ e. cc) (λ e. cc) w)
  take_arguments-Yields enable o rest h w =
      Yields-pure _ (take_name-IsNamed E o rest (λ e. cc) (λ e. cc) (λ e. cc) w)
  take_arguments-Yields disable o rest h w =
      Yields-pure _ (take_name-IsNamed E o rest (λ e. cc) (λ e. cc) (λ e. cc) w)

  check_name-Safe : (name : Option Bytes) → name ≢ none → Safe Fails (Tabled K) (check_name E name)
  unfolding check_name
  check_name-Safe none h = absurd (h refl)
  check_name-Safe (some name) h = search (usable_rules, argp_error-Yields)

  check_install-Safe :
      (o : Options) (type : Option SpecType)
      → o.type ≡ type
      → o.name ≢ none
      → Safe Fails (Tabled K) (check_install E o)
  unfolding check_install
  check_install-Safe o none e h = rw (e, check_install) (argp_error-Yields _)
  check_install-Safe o (some t) e h = rw (e, check_install) (check_name-Safe o.name h)

  check_mode-Safe :
      (o : Options) (mode : Option Mode)
      → o.mode ≡ mode
      → IsNamed o
      → Safe Fails (Tabled K) (check_mode E o mode)
  unfolding check_mode
  check_mode-Safe o none e w = argp_error-Yields _
  check_mode-Safe o (some install) e w = check_install-Safe o o.type refl (w.installing e)
  check_mode-Safe o (some _) e w = Safe-pure _

  -- From globals that fit the mode, `parse_opt` reads no null pointer and leaves such globals.
  pub parse_opt-Named :
      (key : Opt) (o : Options) (rest : List Bytes)
      → IsNamed o
      → Yields Fails (Tabled K) (NamedBehind o) (parse_opt E key o rest)
  unfolding parse_opt
  parse_opt-Named (opt_mode m) o rest w =
      Yields-bind _ _ (set_mode-Yields m o o.mode refl w)
        λ o' e. Yields-bind _ _ (take_arguments-Yields m o' rest e.0 e.1) λ p n. Yields-pure _ n
  parse_opt-Named (opt_type t arg) o rest w =
      Yields-bind _ _ (set_type-Yields t o o.type refl)
        λ o' same. Yields-pure _ (type_argument-IsNamed E t arg o o' w same)
  parse_opt-Named (opt_mask arg) o rest w =
      Yields-then _ _ (once-Safe _ _)
        λ u. Yields-pure _ (IsNamed-same o _ w refl refl refl refl refl refl)
  parse_opt-Named (opt_offset arg) o rest w = Yields-then _ _ (once-Safe _ _) λ u.
      Yields-if _ _ _ (Yields-pure _ (IsNamed-same o _ w refl refl refl refl refl refl))
        (argp_error-Yields _)
  parse_opt-Named (opt_detector arg) o rest w = Yields-then _ _ (once-Safe _ _) λ u.
      Yields-then _ _ (not_executable-Safe arg)
        λ v. Yields-pure _ (IsNamed-same o _ w refl refl refl refl refl refl)
  parse_opt-Named (opt_credentials arg) o rest w =
      Yields-pure _ (IsNamed-same o _ w refl refl refl refl refl refl)
  parse_opt-Named (opt_preserve arg) o rest w =
      Yields-pure _ (IsNamed-same o _ w refl refl refl refl refl refl)
  parse_opt-Named (opt_package arg) o rest w =
      Yields-then _ _ (once-Safe _ _)
        λ u. Yields-pure _ (IsNamed-same o _ w refl refl refl refl refl refl)
  parse_opt-Named (opt_admindir arg) o rest w =
      Yields-pure _ (IsNamed-same o _ w refl refl refl refl refl refl)
  parse_opt-Named (opt_importdir arg) o rest w =
      Yields-pure _ (IsNamed-same o _ w refl refl refl refl refl refl)
  parse_opt-Named (opt_procdir arg) o rest w =
      Yields-pure _ (IsNamed-same o _ w refl refl refl refl refl refl)
  parse_opt-Named opt_test o rest w =
      Yields-pure _ (IsNamed-same o _ w refl refl refl refl refl refl)
  parse_opt-Named key_success o rest w =
      Yields-then _ _ (check_mode-Safe o o.mode refl w) λ u. Yields-pure _ w
  parse_opt-Named key_other o rest w = Yields-pure _ w
