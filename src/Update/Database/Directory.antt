-- ===== src/Update/Database/Directory.antt =====
-- The table of formats behind `load_format` and `load_all_formats` of src/update-binfmts.c, and the
-- files of the administrative directory.
use mathlib.Core.Option.{some-injective}
use debian_binfmt_support.Prelude.{
  ◌≡◌, refl, sym, ◌∙◌, ap, subst, arith, Bool, true, false, not, ◌&&◌, ◌||◌, Option, none, some,
  List, [], ◌∷◌, Bytes, str_eq, str_eq_iff, str_eq_refl, if◌then◌else◌, Bool-cases, inl, inr,
}
use debian_binfmt_support.Action.{Outcome, done, pure, call, continue, ◌>>=◌}
use debian_binfmt_support.Action.Inversion.{not_exited, bind-Returned, bind_after}
use debian_binfmt_support.Error.{observe, kind_is_file}
use debian_binfmt_support.KvHash.{IsLawful, or_new}
use debian_binfmt_support.KvHash.Laws.{view, view-kvhash_insert}
use debian_binfmt_support.Find.Candidates.{is_dot}
use debian_binfmt_support.Format.{Binfmt}
use debian_binfmt_support.Format.Load.{binfmt_load}
use debian_binfmt_support.Format.Load.Cases.{
  held_in, Loading, gives, skips, fails, binfmt_load-Loading,
}
use debian_binfmt_support.Update.Base.{Env, Config, State, program_name, is_file, formats_insert}
use debian_binfmt_support.Update.Database.{
  admindir_name, keep_format, load_format, load_entries, opened_dir, load_all_formats,
}

-- What the administrative directory says of a name.
abbrev pub described : (E : Env) → Config → E.os.State → Bytes → Option Binfmt
described E c s name =
    if kind_is_file (E.os.stat s (admindir_name E c name))
    then held_in name (E.os.read s (admindir_name E c name))
    else none

abbrev pub entry_of : Option Binfmt → Option (Option Binfmt)
entry_of none = none
entry_of (some b) = some (some b)

-- What the table says of the name, or else the administrative directory.
abbrev pub known_of : (E : Env) → Config → Bytes → State E → Option (Option Binfmt)
known_of E c name m = or_new (view E.formats m.table name) (entry_of (described E c m.sys name))

-- A name of the directory other than `.` and `..`.
unfoldable pub is_entry : Bytes → List Bytes → Bool
is_entry name [] = false
is_entry name (entry ∷ entries) =
    let later = is_entry name entries in (not (is_dot entry) && str_eq name entry) || later

or_new-none : (v : Option (Option Binfmt)) → v ≡ or_new v none
or_new-none none = refl
or_new-none (some v) = refl

abbrev absent : Option (Option Binfmt)
absent = none

if_none : (b : Bool) → (if b then none else none) ≡ absent
if_none true = refl
if_none false = refl

module _ (E : Env) (L : IsLawful E.formats) (c : Config) where
  -- The system is as it was, and the names in `these` that were not in the table are there with
  -- their description, if they have one.
  pub record Adds (these : Bytes → Bool) (m m' : State E) : Type 0 where
    pub same_system : m'.sys ≡ m.sys
    pub entries_of :
        (key : Bytes)
        → view E.formats m'.table key
          ≡ or_new
              (view E.formats m.table key)
              (if these key then entry_of (described E c m.sys key) else none)

  Adds-none :
      (these : Bytes → Bool) (m : State E)
      → ((key : Bytes) → (if these key then entry_of (described E c m.sys key) else none) ≡ none)
      → Adds these m m
  Adds-none these m h = record {
    same_system = refl;
    entries_of = λ key. rw (h key) (or_new-none _);
  }

  only_described :
      (name key : Bytes) (s : E.os.State) (d : Option Binfmt)
      → described E c s name ≡ d
      → (if str_eq key name then entry_of (described E c s key) else none)
        ≡ (if str_eq key name then entry_of d else none)
  only_described name key s d h = elim (Bool-cases (str_eq key name)) [
    | inl same ↦ rw same (ap entry_of (rw ((str_eq_iff key name).0 same) h))
    | inr other ↦ rw other refl
  ]

  -- One name, of which the directory says `d`.
  keep_format-Adds :
      (name : Bytes) (d : Option Binfmt) (m : State E)
      → described E c m.sys name ≡ d
      → (keep_format E c name d m).0 ≡ done tt
        × Adds (λ key. str_eq key name) m (keep_format E c name d m).1
  unfolding keep_format formats_insert call pure
  keep_format-Adds name none m h = (
    refl,
    Adds-none _ m (λ key. only_described name key m.sys none h ∙ if_none (str_eq key name)),
  )
  keep_format-Adds name (some b) m h = (
    refl,
    record {
      same_system = refl;
      entries_of = λ key.
          view-kvhash_insert E.formats L m.table name (some b) key
          ∙ ap (or_new (view E.formats m.table key))
              (sym (only_described name key m.sys (some b) h));
    },
  )

  loaded-Adds :
      (name : Bytes) (quiet : Bool) (m : State E) (r : Outcome (Option Binfmt) × State E)
      → Loading (described E c m.sys name) quiet m r
      → (continue r.0 (keep_format E c name) r.1).0 ≡ done tt
      → Adds (λ key. str_eq key name) m (continue r.0 (keep_format E c name) r.1).1
  loaded-Adds name quiet m r (gives b held e) h = rw e (keep_format-Adds name (some b) m held).1
  loaded-Adds name quiet m r (skips nothing q e) h = rw e (keep_format-Adds name none m nothing).1
  loaded-Adds name quiet m r (fails nothing e) h = absurd (not_exited r.0 _ _ e h)

  by_kind :
      (name : Bytes) (quiet : Bool) (m : State E) (there : Bool)
      → kind_is_file (E.os.stat m.sys (admindir_name E c name)) ≡ there
      → ((if there
            then binfmt_load E.os program_name name (admindir_name E c name) quiet
              >>= keep_format E c name
            else pure tt)
          m).0
        ≡ done tt
      → Adds
          (λ key. str_eq key name)
          m
          ((if there
              then binfmt_load E.os program_name name (admindir_name E c name) quiet
                >>= keep_format E c name
              else pure tt)
            m).1
  unfolding ◌>>=◌ pure
  by_kind name quiet m false k h =
      Adds-none _ m
        (λ key. only_described name key m.sys none (rw k refl) ∙ if_none (str_eq key name))
  by_kind name quiet m true k h =
      loaded-Adds name quiet m _
        (subst
          (λ d.
            Loading d quiet m (binfmt_load E.os program_name name (admindir_name E c name) quiet m))
          (rw k refl) (binfmt_load-Loading E.os program_name m name (admindir_name E c name) quiet))
        h

  pub load_format-Adds :
      (name : Bytes) (quiet : Bool) (m : State E)
      → (load_format E c name quiet m).0 ≡ done tt
      → Adds (λ key. str_eq key name) m (load_format E c name quiet m).1
  unfolding load_format is_file observe ◌>>=◌
  load_format-Adds name quiet m h = by_kind name quiet m _ refl h

  -- What was known before is what the table holds once the format is loaded.
  pub loaded-known :
      (name : Bytes) (m m1 : State E)
      → Adds (λ key. str_eq key name) m m1
      → view E.formats m1.table name ≡ known_of E c name m
  loaded-known name m m1 a = a.entries_of name ∙ rw (str_eq_refl name) refl

  pub others_kept :
      (name : Bytes) (m m1 : State E)
      → Adds (λ key. str_eq key name) m m1
      → (j : Bytes) → str_eq j name ≡ false
      → view E.formats m1.table j ≡ view E.formats m.table j
  others_kept name m m1 a j other = a.entries_of j ∙ rw other (sym (or_new-none _))

  -- Two loops one behind the other.
  pub Adds-then :
      (these those : Bytes → Bool) (m m1 m2 : State E)
      → Adds these m m1
      → Adds those m1 m2
      → Adds (λ key. these key || those key) m m2
  Adds-then these those m m1 m2 first next = record {
    same_system = next.same_system ∙ first.same_system;
    entries_of = λ key.
        next.entries_of key
        ∙ merge (these key) (those key) key (first.entries_of key)
            (ap (λ (s : E.os.State). entry_of (described E c s key)) first.same_system);
  }
    where
      merge :
          (a b : Bool) (key : Bytes)
          → view E.formats m1.table key
            ≡ or_new
                (view E.formats m.table key)
                (if a then entry_of (described E c m.sys key) else none)
          → entry_of (described E c m1.sys key) ≡ entry_of (described E c m.sys key)
          → or_new
              (view E.formats m1.table key)
              (if b then entry_of (described E c m1.sys key) else none)
            ≡ or_new
                (view E.formats m.table key)
                (if a || b then entry_of (described E c m.sys key) else none)
      merge a b key first same = rw (same, first) (ground arith)

  entry-Adds :
      (quiet : Bool) (entry : Bytes) (m : State E)
      → ((if is_dot entry then pure tt else load_format E c entry quiet) m).0 ≡ done tt
      → Adds
          (λ key. not (is_dot entry) && str_eq key entry)
          m
          ((if is_dot entry then pure tt else load_format E c entry quiet) m).1
  unfolding pure
  entry-Adds quiet entry m h = elim (Bool-cases (is_dot entry)) [
    | inl dot ↦ rw dot (Adds-none _ m (λ key. refl))
    | inr file ↦ rw file (load_format-Adds entry quiet m (rw file at h))
  ]

  load_entries-Adds :
      (quiet : Bool) (entries : List Bytes) (m : State E)
      → (load_entries E c quiet entries m).0 ≡ done tt
      → Adds (λ key. is_entry key entries) m (load_entries E c quiet entries m).1
  unfolding load_entries is_entry pure
  load_entries-Adds quiet [] m h = Adds-none _ m (λ key. refl)
  load_entries-Adds quiet (entry ∷ entries) m h =
      let first = if is_dot entry then pure tt else load_format E c entry quiet in
      let r = bind-Returned (λ _. load_entries E c quiet entries) first m h in
      let after = bind_after (λ _. load_entries E c quiet entries) first m r in
      subst
        (λ (x : Outcome (Unit {0}) × State E). Adds (λ key. is_entry key (entry ∷ entries)) m x.1)
        (sym after)
        (Adds-then _ _ m r.state _
          (subst
            (λ (x : Outcome (Unit {0}) × State E).
              Adds (λ key. not (is_dot entry) && str_eq key entry) m x.1)
            r.ran (entry-Adds quiet entry m (ap (λ (x : Outcome (Unit {0}) × State E). x.0) r.ran)))
          (load_entries-Adds quiet entries r.state
            (sym (ap (λ (x : Outcome (Unit {0}) × State E). x.0) after) ∙ h)))

  opened_dir-Adds :
      (quiet : Bool) (dir : Option (List Bytes)) (entries : List Bytes) (m : State E)
      → dir ≡ some entries
      → (opened_dir E c quiet dir m).0 ≡ done tt
      → Adds (λ key. is_entry key entries) m (opened_dir E c quiet dir m).1
  unfolding opened_dir
  opened_dir-Adds quiet none entries m d h = cc
  opened_dir-Adds quiet (some es) entries m d h =
      subst (λ xs. Adds (λ key. is_entry key xs) m (load_entries E c quiet es m).1)
        (some-injective es entries d) (load_entries-Adds quiet es m h)

  -- If load_all_formats returns, the system is as it was, and the table has gained exactly the names
  -- of the administrative directory, other than . and .., that are regular files with all lines of
  -- a description, each with that description; a name that was in the table keeps what it had.
  pub load_all_formats-Adds :
      (quiet : Bool) (entries : List Bytes) (m : State E)
      → E.os.list m.sys c.paths.admindir ≡ some entries
      → (load_all_formats E c quiet m).0 ≡ done tt
      → Adds (λ key. is_entry key entries) m (load_all_formats E c quiet m).1
  unfolding load_all_formats observe ◌>>=◌
  load_all_formats-Adds quiet entries m dir h = opened_dir-Adds quiet _ entries m dir h
