-- ===== src/Update/Install/Foreign.antt =====
-- `act_install` of src/update-binfmts.c on a format of another package.
use debian_binfmt_support.Prelude.{
  Bool, true, false, ◌≡◌, refl, ◌≢◌, ◌∙◌, sym, ap, arith, some, Bytes, text, ◌++◌, str_eq,
  str_eq_iff, Bool-cases, inl, inr,
}
use debian_binfmt_support.Action.{Outcome, done, ◌>>=◌}
use debian_binfmt_support.Error.{warning}
use debian_binfmt_support.Error.Laws.{warning_done}
use debian_binfmt_support.KvHash.{IsLawful}
use debian_binfmt_support.KvHash.Laws.{view}
use debian_binfmt_support.Format.{Binfmt}
use debian_binfmt_support.Update.Base.{Env, Config, State, program_name, shown_package}
use debian_binfmt_support.Update.Database.{load_format}
use debian_binfmt_support.Update.Database.Known.{formats_exists-view, formats_lookup-view}
use debian_binfmt_support.Update.Database.Reads.{load_format-Still}
use debian_binfmt_support.Update.Install.{packages, same_package, may_replace, act_install}

-- The warning; `last` ends it.
abbrev pub owned_by_other : Bytes → Bytes → Bytes → Bytes
owned_by_other p q last =
    text "current package is "
    ++ shown_package p
    ++ text ", but binary format already installed by "
    ++ shown_package q
    ++ last

-- What `warn` makes of the state.
abbrev pub warned : (E : Env) → Bytes → State E → State E
warned E message m = (warning E.os program_name message m).1

module _ (E : Env) (L : IsLawful E.formats) (c : Config) where
  pub same_package-other :
      (p q last : Bytes) (m : State E)
      → p ≢ q
      → same_package E c last (some (p, q)) m ≡ (done false, warned E (owned_by_other p q last) m)
  unfolding same_package ◌>>=◌
  same_package-other p q last m ne = elim (Bool-cases (str_eq p q)) [
    | inl same ↦ absurd (ne ((str_eq_iff p q).0 same))
    | inr other ↦ rw other (rw (warning_done E.os program_name (owned_by_other p q last) m) refl)
  ]

  packages-some :
      (new old : Binfmt) (p q : Bytes)
      → new.pkg ≡ some p
      → old.pkg ≡ some q
      → packages (some new) (some old) ≡ some (p, q)
  packages-some new old p q hp hq = ground arith

  may_replace-other :
      (name p q : Bytes) (new old : Binfmt) (m : State E)
      → view E.formats m.table name ≡ some (some old)
      → new.pkg ≡ some p
      → old.pkg ≡ some q
      → p ≢ q
      → may_replace E c name (some new) m ≡ (done false, warned E (owned_by_other p q (text "")) m)
  unfolding may_replace ◌>>=◌
  may_replace-other name p q new old m known hp hq ne =
      rw
        (
          formats_exists-view E L name m,
          known,
          formats_lookup-view E L name m,
          known,
          packages-some new old p q hp hq,
        )
        (same_package-other p q (text "") m ne)

  -- Where reading the installed description gives one of another package, `act_install` returns
  -- 0 after a warning that names both packages. The system is as it was before the call, and the
  -- table is as that reading left it: nothing is disabled, written or enabled.
  pub act_install_other_package :
      (name p q : Bytes) (new old : Binfmt) (m m' : State E)
      → load_format E c name true m ≡ (done tt, m')
      → view E.formats m'.table name ≡ some (some old)
      → new.pkg ≡ some p
      → old.pkg ≡ some q
      → p ≢ q
      → (act_install E c name (some new) m
          ≡ (done false, warned E (owned_by_other p q (text "")) m'))
        × ((act_install E c name (some new) m).1.sys ≡ m.sys)
  unfolding act_install ◌>>=◌ warning
  act_install_other_package name p q new old m m' loaded known hp hq ne =
      let refused : act_install E c name (some new) m
          ≡ (done false, warned E (owned_by_other p q (text "")) m') =
        rw (loaded, may_replace-other name p q new old m' known hp hq ne) refl in
      (
        refused,
        ap (λ (r : Outcome Bool × State E). r.1.sys) refused
            ∙ sym (ap (λ (r : Outcome (Unit {0}) × State E). r.1.sys) loaded)
            ∙ (load_format-Still E c {s = m.sys} name true).at m refl,
      )
