-- ===== src/Update/Main/Crashes.antt =====
-- The modes of src/update-binfmts.c, from the end of the command line on.
use debian_binfmt_support.Prelude.{
  text, ◌≡◌, refl, sym, subst, ◌≢◌, ◌⊎◌, inl, inr, Bool, true, false, Option, none, some, Bytes,
  Bool-cases, if◌then◌else◌,
}
use debian_binfmt_support.Action.{Outcome, crashed, continue, pure, done, exited, exit, ◌>>=◌}
use debian_binfmt_support.Action.Safe.{Fails, Anything, Holds, Safe, continue-cases}
use debian_binfmt_support.Error.Tables.{Tabled}
use debian_binfmt_support.KvHash.{IsLawful}
use debian_binfmt_support.Update.Base.{Env, State, program_name}
use debian_binfmt_support.Update.Base.Tables.{AllUsable}
use debian_binfmt_support.Update.Enable.{act_enable}
use debian_binfmt_support.Update.Enable.Usable.{act_enable-Usable}
use debian_binfmt_support.Update.Disable.Usable.{act_disable-Usable}
use debian_binfmt_support.Update.Remove.Usable.{act_remove-Usable}
use debian_binfmt_support.Update.Display.Usable.{act_display-Usable}
use debian_binfmt_support.Update.Options.{
  Mode, install, remove, import, display, enable, disable, find, SpecType, magic, extension,
  Options,
}
use debian_binfmt_support.Update.Options.Operands.{IsNamed}
use debian_binfmt_support.Update.Main.{
  format_args, install_name, package_or_local, remove_name, dispatch, run_mode,
}
use debian_binfmt_support.Error.{quit}
use debian_binfmt_support.Format.{Binfmt}
use debian_binfmt_support.Format.New.{binfmt_new}
use debian_binfmt_support.Format.New.Usable.{UsableUnless}
use debian_binfmt_support.Update.Install.{act_install}
use debian_binfmt_support.Update.Install.Usable.{act_install-Usable}
use debian_binfmt_support.Update.Main.Installs.{made-UsableUnless}

-- The command lines that may crash: `--install` with `--test`, with no type, or with
-- `--extension` and a mask or an offset, of which `binfmt_new` makes a null pointer; `--import`;
-- `--find`, on an offset that reads out of bounds; and `--enable` with `--test`, on a name that is
-- not known.
pub data MayCrash (o : Options) : Type 0 where
  installs_untyped : o.mode ≡ some install → o.type ≡ none → MayCrash o
  installs_masked :
      o.mode ≡ some install
      → o.type ≡ some extension
      → (o.spec.mask ≢ none) ⊎ (o.spec.offset ≢ none)
      → MayCrash o
  tests_install : o.mode ≡ some install → o.config.test ≡ true → MayCrash o
  imports : o.mode ≡ some import → MayCrash o
  finds : o.mode ≡ some find → MayCrash o
  tests_enable : o.mode ≡ some enable → o.config.test ≡ true → MayCrash o

typed_or_not :
    (type : Option SpecType) → ((type ≡ some magic) ⊎ (type ≡ some extension)) ⊎ (type ≡ none)
typed_or_not none = inr refl
typed_or_not (some magic) = inl (inl refl)
typed_or_not (some extension) = inl (inr refl)

module _ (E : Env) (L : IsLawful E.formats) (LA : IsLawful E.args) where
  enable-Usable :
      (o : Options) (name : Option Bytes)
      → o.config.test ≡ false
      → Safe Fails (Tabled (AllUsable E)) (act_enable E o.config name)
  enable-Usable o name real =
      subst
        (λ (t : Bool).
          Safe Fails (Tabled (AllUsable E))
            (act_enable E (record { test = t; paths = o.config.paths }) name))
        (sym real) (act_enable-Usable E L o.config.paths name)

  remove_name-Usable :
      (o : Options) (name : Option Bytes)
      → name ≢ none
      → Safe Fails (Tabled (AllUsable E)) (remove_name E o name)
  unfolding remove_name
  remove_name-Usable o none h = absurd (h refl)
  remove_name-Usable o (some name) h = act_remove-Usable E L o.config name (package_or_local o.pkg)

  installed-Holds :
      (o : Options) (name : Bytes) (b : Option Binfmt) (m : State E)
      → o.mode ≡ some install
      → o.config.test ≡ false
      → UsableUnless ((o.type ≡ some extension) × ((o.spec.mask ≢ none) ⊎ (o.spec.offset ≢ none))) b
      → Tabled (AllUsable E) m
      → Holds Fails Anything (act_install E o.config name b m).0 ⊎ MayCrash o
  installed-Holds o name none m e real (t, h) k = inr (installs_masked e t h)
  installed-Holds o name (some b) m e real u k = inl (
      subst
        (λ (t : Bool).
          Holds Fails Anything
            (act_install E (record { test = t; paths = o.config.paths }) name (some b) m).0)
        (sym real) ((act_install-Usable E L o.config.paths name b u).at m k).0)

  install_name-Holds :
      (o : Options) (name : Option Bytes) (m : State E)
      → o.mode ≡ some install
      → name ≢ none
      → o.config.test ≡ false
      → ((o.type ≡ some magic) ⊎ (o.type ≡ some extension))
      → IsNamed o
      → Tabled (AllUsable E) m
      → Holds Fails Anything (install_name E o name m).0 ⊎ MayCrash o
  unfolding install_name ◌>>=◌
  install_name-Holds o none m e named real typed w k = absurd (named refl)
  install_name-Holds o (some name) m e named real typed w k =
      let args = format_args E.args (package_or_local o.pkg) o.type o.spec in
      let (new, k1) = (made-UsableUnless E LA o name typed w).at m k in
      let made = binfmt_new E.os program_name E.args name args m in
      elim (continue-cases _ made.0 (act_install E o.config name) made.1 new) [
        | inl failed ↦ inl (rw failed refl)
        | inr (b, eb, u, same) ↦ elim (installed-Holds o name b made.1 e real u k1) [
          | inl fine ↦ inl (subst (Holds Fails Anything) (sym same) fine)
          | inr may ↦ inr may
        ]
      ]

  install-Holds :
      (o : Options) (m : State E)
      → o.mode ≡ some install
      → IsNamed o
      → Tabled (AllUsable E) m
      → Holds Fails Anything (install_name E o o.name m).0 ⊎ MayCrash o
  install-Holds o m e w k = elim (Bool-cases o.config.test) [
    | inl test ↦ inr (tests_install e test)
    | inr real ↦ elim (typed_or_not o.type) [
      | inl typed ↦ install_name-Holds o o.name m e (w.installing e) real typed w k
      | inr untyped ↦ inr (installs_untyped e untyped)
    ]
  ]

  dispatch-Holds :
      (o : Options) (mode : Option Mode) (m : State E)
      → o.mode ≡ mode
      → IsNamed o
      → Tabled (AllUsable E) m
      → Holds Fails Anything (dispatch E o mode m).0 ⊎ MayCrash o
  unfolding dispatch pure
  dispatch-Holds o none m e w k = inl tt
  dispatch-Holds o (some install) m e w k = install-Holds o m e w k
  dispatch-Holds o (some import) m e w k = inr (imports e)
  dispatch-Holds o (some find) m e w k = inr (finds e)
  dispatch-Holds o (some remove) m e w k =
      inl ((remove_name-Usable o o.name (w.removing e)).at m k).0
  dispatch-Holds o (some display) m e w k = inl ((act_display-Usable E L o.config o.name).at m k).0
  dispatch-Holds o (some disable) m e w k = inl ((act_disable-Usable E L o.config o.name).at m k).0
  dispatch-Holds o (some enable) m e w k = elim (Bool-cases o.config.test) [
    | inl test ↦ inr (tests_enable e test)
    | inr real ↦ inl ((enable-Usable o o.name real).at m k).0
  ]

  finished :
      (r : Outcome Bool) (m : State E)
      → Holds Fails Anything r
      → Holds Fails Anything
          (continue r
            (λ status.
              if status
              then pure tt
              else quit E.os program_name (text "exiting due to previous errors"))
            m).0
  unfolding quit ◌>>=◌ pure exit
  finished (done true) m h = tt
  finished (done false) m h = refl
  finished (exited n) m h = h
  finished crashed m h = h

  pub run_mode-Holds :
      (o : Options) (m : State E)
      → IsNamed o
      → Tabled (AllUsable E) m
      → Holds Fails Anything (run_mode E o m).0 ⊎ MayCrash o
  unfolding run_mode ◌>>=◌
  run_mode-Holds o m w k = elim (dispatch-Holds o o.mode m refl w k) [
    | inr may ↦ inr may
    | inl fine ↦ inl (finished (dispatch E o o.mode m).0 _ fine)
  ]
