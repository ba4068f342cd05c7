-- ===== src/Find/Candidates/Directory.antt =====
-- The list that `load_all_formats` of src/find.c makes of the two directories.
use mathlib.Core.Option.{some-injective}
use debian_binfmt_support.Prelude.{
  ◌≡◌, refl, sym, ◌∙◌, ap, arith, subst, ◌≢◌, ◌⊎◌, true, false, str_eq, str_eq_iff, text, Option,
  none, some, List, [], ◌∷◌, Bytes, path_in, Bool-cases, inl, inr,
}
use debian_binfmt_support.Action.{Outcome, done, continue, pure, ◌>>=◌}
use debian_binfmt_support.Action.Inversion.{not_exited, bind-Returned}
use debian_binfmt_support.Os.{Os, Machine}
use debian_binfmt_support.Error.{observe, quit_err, kind_exists}
use debian_binfmt_support.Paths.{Paths}
use debian_binfmt_support.Format.{Binfmt, or_empty}
use debian_binfmt_support.Format.Fields.{Read, got, missing_field, read_fields}
use debian_binfmt_support.Format.Fields.Full.{IsFull, Gets, read_fields-Full}
use debian_binfmt_support.Format.Load.Cases.{
  got_one, held_in, Loading, gives, skips, fails, binfmt_load-Loading,
}
use debian_binfmt_support.Find.Candidates.{
  Candidate, add_last, is_dot, asserted, loaded_candidate, load_entry, load_entries, opened_dir,
  load_all_formats,
}
use debian_binfmt_support.Find.Candidates.Chosen.{
  Found, Choice, dot, disabled, misfit, taken, Chosen, ends, passes, takes, accepted, Answers,
  accepted-Answers,
}

is_dot-false :
    (entry : Bytes)
    → is_dot entry ≡ false
    → (str_eq entry (text ".") ≡ false) × (str_eq entry (text "..") ≡ false)
unfolding is_dot
is_dot-false entry h = (ground arith, ground arith)

done-injective : {A : Type 0} {x y : A} → done x ≡ done y → x ≡ y
done-injective e = cc

held_in-IsFull :
    (name : Bytes) (file : Option Bytes) (b : Binfmt) → held_in name file ≡ some b → IsFull b
held_in-IsFull name none b h = cc
held_in-IsFull name (some file) b h = by_read (read_fields name file) (read_fields-Full name file) h
  where
    by_read : (r : Read Binfmt) → Gets IsFull r → got_one r ≡ some b → IsFull b
    by_read (got a) full e = subst IsFull (some-injective a b e) full
    by_read (missing_field f) u e = cc

module _ (os : Os) (pn : Bytes) (paths : Paths) {T : Type 0} (m : Machine os.State T) where
  asserted-set :
      (field : Option Bytes)
      → field ≢ none
      → asserted os pn paths field m ≡ (done (or_empty field), m)
  unfolding asserted pure
  asserted-set none h = absurd (h refl)
  asserted-set (some s) h = refl

  loaded_candidate-some :
      (b : Binfmt) → IsFull b → loaded_candidate os pn paths (some b) m ≡ (done (accepted b), m)
  unfolding loaded_candidate ◌>>=◌ pure
  loaded_candidate-some b f =
      let spec = f.usable.spec in
      rw
        (
          asserted-set b.type spec.type_set,
          asserted-set b.magic spec.magic_set,
          asserted-set b.mask spec.mask_set,
          asserted-set b.offset spec.offset_set,
          asserted-set b.interpreter f.interpreter_set,
          asserted-set b.detector f.detector_set,
        )
        refl

  -- The candidate of the description that is found.
  abbrev Loaded : Option Binfmt → Outcome (Option Candidate) × Machine os.State T → Type 0
  Loaded held r = (b : Binfmt) × (held ≡ some b) × (r ≡ (done (accepted b), m))

  loaded_candidate-Loaded :
      (held : Option Binfmt) (r : Outcome (Option Binfmt) × Machine os.State T)
      → Loading held false m r
      → ((b : Binfmt) → held ≡ some b → IsFull b)
      → {c : Option Candidate} → (continue r.0 (loaded_candidate os pn paths) r.1).0 ≡ done c
      → Loaded held (continue r.0 (loaded_candidate os pn paths) r.1)
  loaded_candidate-Loaded held r (gives b there e) full h =
      (b, there, rw e (loaded_candidate-some b (full b there)))
  loaded_candidate-Loaded held r (skips nothing q e) full h = cc
  loaded_candidate-Loaded held r (fails nothing e) full h = absurd (not_exited r.0 _ _ e h)

  -- The entry adds what it should, and nothing else has happened.
  abbrev Picks : Bytes → Outcome (Option Candidate) × Machine os.State T → Type 0
  Picks entry r = (c : Option Candidate) × Choice os paths m.sys entry c × (r ≡ (done c, m))

  Answers-Choice :
      (entry : Bytes) (b : Binfmt) (c : Option Candidate)
      → Found os paths m.sys entry b
      → Answers b c
      → Choice os paths m.sys entry c
  Answers-Choice entry b none found no_fit = misfit b found no_fit
  Answers-Choice entry b (some c) found (fits, right) = taken b c found fits right

  is_dot-dot : (entry : Bytes) → is_dot entry ≡ true → (entry ≡ text ".") ⊎ (entry ≡ text "..")
  unfolding is_dot
  is_dot-dot entry h = elim (Bool-cases (str_eq entry (text "."))) [
    | inl here ↦ inl ((str_eq_iff entry (text ".")).0 here)
    | inr other ↦ inr ((str_eq_iff entry (text "..")).0 (ground arith))
  ]

  not_dot : (entry name : Bytes) → str_eq entry name ≡ false → entry ≢ name
  not_dot entry name h e = ground (arith, (str_eq_iff entry name).1 e)

  load_entry-Picks :
      (entry : Bytes) {c : Option Candidate}
      → (load_entry os pn paths entry m).0 ≡ done c
      → Picks entry (load_entry os pn paths entry m)
  unfolding load_entry observe ◌>>=◌ pure
  load_entry-Picks entry h = elim (Bool-cases (is_dot entry)) [
    | inl dotted ↦ (none, dot (is_dot-dot entry dotted), rw dotted refl)
    | inr named ↦ elim (Bool-cases (kind_exists (os.stat m.sys (path_in paths.procdir entry)))) [
      | inl there ↦
          let (b, held, e) =
            loaded_candidate-Loaded _ _
              (binfmt_load-Loading os pn m entry (path_in paths.admindir entry) false)
              (held_in-IsFull entry _) (rw (named, there) at h) in
          (
            accepted b,
            Answers-Choice entry b (accepted b) (found_at entry b named there held)
                (accepted-Answers b),
            rw (named, there) e,
          )
      | inr away ↦ (none, disabled away, rw (named, away) refl)
    ]
  ]
    where
      found_at :
          (entry : Bytes) (b : Binfmt)
          → is_dot entry ≡ false
          → kind_exists (os.stat m.sys (path_in paths.procdir entry)) ≡ true
          → held_in entry (os.read m.sys (path_in paths.admindir entry)) ≡ some b
          → Found os paths m.sys entry b
      found_at entry b named there held = record {
        not_here = not_dot entry (text ".") (is_dot-false entry named).0;
        not_above = not_dot entry (text "..") (is_dot-false entry named).1;
        enabled = there;
        described = held;
      }

  add_last-Chosen :
      (entry : Bytes) (entries : List Bytes) (c : Option Candidate) (cs : List Candidate)
      → Choice os paths m.sys entry c
      → Chosen os paths m.sys entries cs
      → Chosen os paths m.sys (entry ∷ entries) (add_last c cs)
  add_last-Chosen entry entries none cs choice later = passes entry entries cs choice later
  add_last-Chosen entry entries (some c) cs choice later = takes entry entries c cs choice later

  -- The list of the entries, and nothing else has happened.
  abbrev Lists : List Bytes → Outcome (List Candidate) × Machine os.State T → Type 0
  Lists entries r = (cs : List Candidate) × Chosen os paths m.sys entries cs × (r ≡ (done cs, m))

  load_entries-Lists :
      (entries : List Bytes) {cs : List Candidate}
      → (load_entries os pn paths entries m).0 ≡ done cs
      → Lists entries (load_entries os pn paths entries m)
  unfolding load_entries ◌>>=◌ pure
  load_entries-Lists [] h = ([], ends, refl)
  load_entries-Lists (entry ∷ entries) h =
      let r = bind-Returned _ (load_entry os pn paths entry) m h in
      let (c, choice, first) =
        load_entry-Picks entry
          (ap (λ (x : Outcome (Option Candidate) × Machine os.State T). x.0) r.ran) in
      let r' = bind-Returned _ (load_entries os pn paths entries) m (rw first at h) in
      let (cs, chosen, later) =
        load_entries-Lists entries
          (ap (λ (x : Outcome (List Candidate) × Machine os.State T). x.0) r'.ran) in
      (add_last c cs, add_last-Chosen entry entries c cs choice chosen, rw first (rw later refl))

  opened_dir-Lists :
      (dir : Option (List Bytes)) {cs : List Candidate}
      → (opened_dir os pn paths dir m).0 ≡ done cs
      → (entries : List Bytes) × (dir ≡ some entries) × Lists entries (opened_dir os pn paths dir m)
  unfolding opened_dir quit_err ◌>>=◌
  opened_dir-Lists none h = cc
  opened_dir-Lists (some entries) h = (entries, refl, load_entries-Lists entries h)

-- If load_all_formats of find.c returns, the administrative directory could be read, nothing has
-- changed, and the list has, in the order of that directory, one candidate for each entry other
-- than . and .. that has an entry of the kernel beside it, but for the descriptions whose mask is
-- neither empty nor as long as the magic. A candidate has the fields of the description in the
-- file, with the escapes of magic and mask expanded and 0 for an empty offset.
pub load_all_formats-Chosen :
    (os : Os) (program_name : Bytes) (paths : Paths) {T : Type 0} (cs : List Candidate)
    (m : Machine os.State T)
    → (load_all_formats os program_name paths m).0 ≡ done cs
    → (entries : List Bytes) × (os.list m.sys paths.admindir ≡ some entries)
      × Chosen os paths m.sys entries cs
      × (load_all_formats os program_name paths m ≡ (done cs, m))
unfolding load_all_formats observe ◌>>=◌
load_all_formats-Chosen os program_name paths {T} cs m h =
    let (entries, dir, listed) = opened_dir-Lists os program_name paths m _ h in
    let (cs', chosen, e) = listed in
    let same : cs' ≡ cs =
      done-injective
        (sym (ap (λ (x : Outcome (List Candidate) × Machine os.State T). x.0) e) ∙ h) in
    (
      entries,
      dir,
      subst (Chosen os paths m.sys entries) same chosen,
      e ∙ ap (λ (x : List Candidate). (done x, m)) same,
    )
