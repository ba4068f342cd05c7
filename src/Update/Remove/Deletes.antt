-- ===== src/Update/Remove/Deletes.antt =====
-- What an `act_remove` of src/update-binfmts.c that answers 1 has done.
use debian_binfmt_support.Prelude.{
  Bool, true, false, ◌≡◌, ◌≢◌, refl, sym, ap, subst, ◌∙◌, ◌⊎◌, inl, inr, arith, Option, none, some,
  Bytes, text, str_eq, str_eq_iff, if◌then◌else◌, Bool-cases,
}
use debian_binfmt_support.Action.{Action, Outcome, done, exited, crashed, continue, pure, ◌>>=◌}
use debian_binfmt_support.Action.Inversion.{bind-Returned, bind_after}
use debian_binfmt_support.Os.{Unlinked, unlinked, no_entry, refused}
use debian_binfmt_support.Error.{
  system, observe, warning, warning_err, kind_is_file, kind_exists, kind_is_directory,
}
use debian_binfmt_support.Action.Safe.{Fails}
use debian_binfmt_support.Paths.{Paths}
use debian_binfmt_support.Update.Base.Tables.{wet}
use debian_binfmt_support.KvHash.{IsLawful, kvhash_delete}
use debian_binfmt_support.KvHash.Laws.{view, view-kvhash_delete}
use debian_binfmt_support.Format.{Binfmt}
use debian_binfmt_support.Update.Base.{Env, Config, State, is_file, formats_delete}
use debian_binfmt_support.Update.Database.{admindir_name, procdir_name, load_format}
use debian_binfmt_support.Update.Database.Known.{formats_exists-view, formats_lookup-view}
use debian_binfmt_support.Update.Database.Directory.{
  Adds, load_format-Adds, known_of, loaded-known, others_kept,
}
use debian_binfmt_support.Update.Disable.{disable_name}
use debian_binfmt_support.Update.Disable.Gone.{
  Gone, TellsAtMost, disable_name-Gone, disable_name-TellsAtMost,
}
use debian_binfmt_support.Update.Disable.Usable.{disable_name-Safe}
use debian_binfmt_support.Update.Install.{same_package}
use debian_binfmt_support.Update.Remove.{
  owners, may_remove, unlinked_from, delete_format, remove_owned, act_remove,
}
use debian_binfmt_support.Update.Remove.Removal.{
  Owns, OwnedByOther, Removal, not_installed, left_alone, removed,
}

not_done : done false ≡ done true → ⊥
not_done e = cc

not_crashed :
    {S A B : Type 0} {b : B} (r : Outcome A) (f : A → Action S B) (s : S)
    → r ≡ crashed
    → (continue r f s).0 ≡ done b
    → ⊥
not_crashed (done a) f s e h = cc
not_crashed (exited n) f s e h = cc
not_crashed crashed f s e h = cc

module _ (E : Env) (L : IsLawful E.formats) (paths : Paths) (name p : Bytes) where
  abbrev c : Config
  c = wet paths

  -- The three ways in which the test of the packages ends.
  data Test (known : Option (Option Binfmt)) (m : State E) (r : Outcome Bool × State E)
      : Type 0 where
    own : Owns p known → r ≡ (done true, m) → Test known m r
    foreign :
        OwnedByOther p known
        → r.0 ≡ done false
        → r.1.sys ≡ m.sys
        → r.1.table ≡ m.table
        → Test known m r
    reads_null : r.0 ≡ crashed → Test known m r

  abbrev pair : Option Bytes → Option (Bytes × Bytes)
  pair none = none
  pair (some q) = some (p, q)

  owners-pair : (old : Binfmt) → owners E c p (some old) ≡ pair old.pkg
  unfolding owners
  owners-pair old = ground arith

  compared-Test :
      (old : Binfmt) (pkg : Option Bytes) (m : State E)
      → old.pkg ≡ pkg
      → Test (some (some old)) m (same_package E c (text "; not removing.") (pair pkg) m)
  unfolding same_package ◌>>=◌ warning pure
  compared-Test old none m e = reads_null refl
  compared-Test old (some q) m e = elim (Bool-cases (str_eq p q)) [
    | inl same ↦ rw same (own (inr (old, refl, e ∙ ap some (sym ((str_eq_iff p q).0 same)))) refl)
    | inr other ↦ rw other (
        foreign (old, (q, refl, e, λ k. absurd (ground (arith, (str_eq_iff p q).1 k)))) refl refl
          refl)
  ]

  may_remove-Test :
      (known : Option (Option Binfmt)) (m : State E)
      → view E.formats m.table name ≡ known
      → Test known m (may_remove E c name p m)
  unfolding may_remove owners same_package ◌>>=◌
  may_remove-Test none m e = rw (formats_exists-view E L name m, e) (own (inl refl) refl)
  may_remove-Test (some none) m e =
      rw (formats_exists-view E L name m, e, formats_lookup-view E L name m, e) (reads_null refl)
  may_remove-Test (some (some old)) m e =
      rw (formats_exists-view E L name m, e, formats_lookup-view E L name m, e)
        (compared-Test old old.pkg m refl)

  -- The entry of the kernel is away, then the file is unlinked, then the name leaves the table.
  record Deleted (m m' : State E) : Type 0 where
    before : E.os.State
    told_only : TellsAtMost E c name m.sys before
    away :
        (kind_is_directory (E.os.stat m.sys c.paths.procdir) ≡ false)
        ⊎ (kind_exists (E.os.stat before (procdir_name E c name)) ≡ false)
    file_gone : E.os.unlink (admindir_name E c name) before ≡ (unlinked, m'.sys)
    name_gone : m'.table ≡ (kvhash_delete E.formats m.table name).1

  unlinked_from-unlinked :
      (u : Unlinked) (m : State E)
      → (unlinked_from E c name u m).0 ≡ done true
      → (u ≡ unlinked)
        × ((unlinked_from E c name u m).1.sys ≡ m.sys)
        × ((unlinked_from E c name u m).1.table ≡ (kvhash_delete E.formats m.table name).1)
  unfolding unlinked_from formats_delete warning_err ◌>>=◌
  unlinked_from-unlinked unlinked m h = (refl, refl, refl)
  unlinked_from-unlinked no_entry m h = cc
  unlinked_from-unlinked refused m h = cc

  delete_format-unlinked :
      (m : State E)
      → (delete_format E c name m).0 ≡ done true
      → (E.os.unlink (admindir_name E c name) m.sys ≡ (unlinked, (delete_format E c name m).1.sys))
        × ((delete_format E c name m).1.table ≡ (kvhash_delete E.formats m.table name).1)
  unfolding delete_format system ◌>>=◌
  delete_format-unlinked m h =
      let u = E.os.unlink (admindir_name E c name) m.sys in
      let (e, same, entry) = unlinked_from-unlinked u.0 (record m { sys = u.1 }) h in
      (ap (λ (w : Unlinked). (w, u.1)) e ∙ ap (λ (t : E.os.State). (unlinked, t)) (sym same), entry)

  remove_owned-Deleted :
      (m : State E)
      → (remove_owned E c name m).0 ≡ done true
      → Deleted m (remove_owned E c name m).1
  unfolding remove_owned ◌>>=◌ warning
  remove_owned-Deleted m h =
      let r = bind-Returned _ (disable_name E c name) m h in by_answer r.value r.state r.ran
    where
      by_answer :
          (disabled : Bool) (m1 : State E)
          → disable_name E c name m ≡ (done disabled, m1)
          → Deleted m (remove_owned E c name m).1
      by_answer false m1 ran = absurd (not_done (rw ran at h))
      by_answer true m1 ran =
          let (file, entry) = delete_format-unlinked m1 (rw ran at h) in
          let kept : m1.table ≡ m.table =
            subst (λ (x : Outcome Bool × State E). x.1.table ≡ m.table) ran
              ((disable_name-Safe E c {X = Fails} {K = λ t. t ≡ m.table} name).at m
                (record { held = refl })).1.held in
          rw ran (record {
            before = m1.sys;
            told_only =
                subst (λ (x : Outcome Bool × State E). TellsAtMost E c name m.sys x.1.sys) ran
                  (disable_name-TellsAtMost E c name m);
            away =
                subst
                  (λ (x : Outcome Bool × State E).
                    (kind_is_directory (E.os.stat m.sys c.paths.procdir) ≡ false)
                    ⊎ Gone E c name x.1)
                  ran
                  (disable_name-Gone E c name m refl
                    (ap (λ (x : Outcome Bool × State E). x.0) ran));
            file_gone = file;
            name_gone =
                entry ∙ ap (λ (t : E.formats.Table). (kvhash_delete E.formats t name).1) kept;
          })

  views_without :
      (m m1 m' : State E)
      → Adds E L c (λ key. str_eq key name) m m1
      → Deleted m1 m'
      → (j : Bytes)
      → view E.formats m'.table j ≡ (if str_eq j name then none else view E.formats m.table j)
  views_without m m1 m' a d j =
      ap (λ (t : E.formats.Table). view E.formats t j) d.name_gone
      ∙ view-kvhash_delete E.formats L m1.table name j
      ∙ elim (Bool-cases (str_eq j name)) [
        | inl same ↦ rw same refl
        | inr other ↦ rw other (others_kept E L c name m m1 a j other)
      ]

  -- From the test of the packages on.
  tested-Removal :
      (m m1 : State E) (r : Outcome Bool × State E)
      → Adds E L c (λ key. str_eq key name) m m1
      → Test (known_of E c name m) m1 r
      → (continue r.0 (λ allowed. if allowed then remove_owned E c name else pure true) r.1).0
        ≡ done true
      → Removal E c name p m
          (continue r.0 (λ allowed. if allowed then remove_owned E c name else pure true) r.1).1
  unfolding pure
  tested-Removal m m1 r a (own owns e) h = rw e (
      let d = remove_owned-Deleted m1 (rw e at h) in
      removed d.before
        (subst (λ (s : E.os.State). TellsAtMost E c name s d.before) a.same_system d.told_only) owns
        (subst
          (λ (s : E.os.State).
            (kind_is_directory (E.os.stat s c.paths.procdir) ≡ false)
            ⊎ (kind_exists (E.os.stat d.before (procdir_name E c name)) ≡ false))
          a.same_system d.away)
        d.file_gone (views_without m m1 _ a d))
  tested-Removal m m1 r a (foreign other denied same kept) h = rw denied (
      left_alone other (same ∙ a.same_system) (λ j ne.
        ap (λ (t : E.formats.Table). view E.formats t j) kept
        ∙ others_kept E L c name m m1 a j (differs j ne)))
    where
      differs : (j : Bytes) → j ≢ name → str_eq j name ≡ false
      differs j ne = ground (arith, str_eq_iff j name)
  tested-Removal m m1 r a (reads_null e) h = absurd (not_crashed r.0 _ _ e h)

  rest : Action (State E) Bool
  rest = may_remove E c name p >>= λ allowed. if allowed then remove_owned E c name else pure true

  -- From the load of the format on.
  loaded-Removal :
      (m : State E)
      → ((load_format E c name true >>= λ _. rest) m).0 ≡ done true
      → Removal E c name p m ((load_format E c name true >>= λ _. rest) m).1
  unfolding rest ◌>>=◌
  loaded-Removal m h =
      let r = bind-Returned (λ _. rest) (load_format E c name true) m h in
      let after = bind_after (λ _. rest) (load_format E c name true) m r in
      let adds : Adds E L c (λ key. str_eq key name) m r.state =
        subst (λ (x : Outcome (Unit {0}) × State E). Adds E L c (λ key. str_eq key name) m x.1)
          r.ran
          (load_format-Adds E L c name true m
            (ap (λ (x : Outcome (Unit {0}) × State E). x.0) r.ran)) in
      subst (λ (x : Outcome Bool × State E). Removal E c name p m x.1) (sym after)
        (tested r.state adds (sym (ap (λ (x : Outcome Bool × State E). x.0) after) ∙ h))
    where
      tested :
          (m1 : State E)
          → Adds E L c (λ key. str_eq key name) m m1
          → (rest m1).0 ≡ done true
          → Removal E c name p m (rest m1).1
      tested m1 adds g =
          tested-Removal m m1 (may_remove E c name p m1) adds
            (subst (λ known. Test known m1 (may_remove E c name p m1))
              (loaded-known E L c name m m1 adds) (may_remove-Test _ m1 refl))
            g

  -- Without `--test`, an `act_remove` that answers 1 has done one of three things. The
  -- administrative file was not there, and nothing has changed. Or what the table or that file says
  -- of the name is a format of another package, the system is as it was, and no other name of the
  -- table is concerned. Or nothing or a format of the package was known of the name; at most, -1 was
  -- written to the entry of the kernel; the directory of binfmt_misc was not there or there is no
  -- such entry as the file is unlinked, with success and as the last that happens to the system;
  -- and the table is that of the beginning without the name.
  pub act_remove-Removal :
      (m : State E)
      → (act_remove E c name p m).0 ≡ done true
      → Removal E c name p m (act_remove E c name p m).1
  unfolding act_remove is_file observe ◌>>=◌ warning rest
  act_remove-Removal m h =
      elim (Bool-cases (kind_is_file (E.os.stat m.sys (admindir_name E c name)))) [
        | inr absent ↦ rw absent (not_installed absent refl refl)
        | inl there ↦ rw there (loaded-Removal m (rw there at h))
      ]
