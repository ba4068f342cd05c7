-- ===== src/Update/Remove/Foreign.antt =====
-- `act_remove` of src/update-binfmts.c on a format of another package.
use debian_binfmt_support.Prelude.{
  Bool, true, false, ◌≡◌, refl, ◌≢◌, ◌∙◌, sym, ap, arith, some, Bytes, text,
}
use debian_binfmt_support.Action.{Outcome, done, ◌>>=◌}
use debian_binfmt_support.Error.{observe, warning, kind_is_file}
use debian_binfmt_support.KvHash.{IsLawful}
use debian_binfmt_support.KvHash.Laws.{view}
use debian_binfmt_support.Format.{Binfmt}
use debian_binfmt_support.Update.Base.{Env, Config, State, is_file}
use debian_binfmt_support.Update.Database.{admindir_name, load_format}
use debian_binfmt_support.Update.Database.Reads.{load_format-Still}
use debian_binfmt_support.Update.Database.Known.{formats_exists-view, formats_lookup-view}
use debian_binfmt_support.Update.Install.Foreign.{warned, owned_by_other, same_package-other}
use debian_binfmt_support.Update.Remove.{owners, may_remove, act_remove}

module _ (E : Env) (L : IsLawful E.formats) (c : Config) where
  owners-some :
      (p q : Bytes) (old : Binfmt) → old.pkg ≡ some q → owners E c p (some old) ≡ some (p, q)
  unfolding owners
  owners-some p q old h = ground arith

  may_remove-other :
      (name p q : Bytes) (old : Binfmt) (m : State E)
      → view E.formats m.table name ≡ some (some old)
      → old.pkg ≡ some q
      → p ≢ q
      → may_remove E c name p m
        ≡ (done false, warned E (owned_by_other p q (text "; not removing.")) m)
  unfolding may_remove ◌>>=◌
  may_remove-other name p q old m known hq ne =
      rw
        (
          formats_exists-view E L name m,
          known,
          formats_lookup-view E L name m,
          known,
          owners-some p q old hq,
        )
        (same_package-other E L c p q (text "; not removing.") m ne)

  -- Where the administrative file is there and reading it gives a format of another package,
  -- `act_remove` returns 1 after a warning that names both packages, and the system is as it was:
  -- nothing is disabled or unlinked.
  pub act_remove_other_package :
      (name p q : Bytes) (old : Binfmt) (m m' : State E)
      → kind_is_file (E.os.stat m.sys (admindir_name E c name)) ≡ true
      → load_format E c name true m ≡ (done tt, m')
      → view E.formats m'.table name ≡ some (some old)
      → old.pkg ≡ some q
      → p ≢ q
      → (act_remove E c name p m
          ≡ (done true, warned E (owned_by_other p q (text "; not removing.")) m'))
        × ((act_remove E c name p m).1.sys ≡ m.sys)
  unfolding act_remove ◌>>=◌ is_file observe warning
  act_remove_other_package name p q old m m' there loaded known hq ne =
      let refused : act_remove E c name p m
          ≡ (done true, warned E (owned_by_other p q (text "; not removing.")) m') =
        rw (there, loaded, may_remove-other name p q old m' known hq ne) refl in
      (
        refused,
        ap (λ (r : Outcome Bool × State E). r.1.sys) refused
            ∙ sym (ap (λ (r : Outcome (Unit {0}) × State E). r.1.sys) loaded)
            ∙ (load_format-Still E c {s = m.sys} name true).at m refl,
      )
