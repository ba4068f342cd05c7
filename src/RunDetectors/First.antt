-- ===== src/RunDetectors/First.antt =====
-- The interpreter that takes the place of run-detectors, of src/run-detectors.c.
use debian_binfmt_support.Prelude.{
  true, false, ◌≡◌, refl, ◌⊎◌, inl, inr, ap, Option, none, some, List, [], ◌∷◌, ◌++◌, Bytes, text,
  All, Bool-cases,
}
use debian_binfmt_support.Action.{done, exited, ◌>>=◌}
use debian_binfmt_support.Os.{Os, Machine}
use debian_binfmt_support.Error.{system, warning_err, quit}
use debian_binfmt_support.Paths.{Paths}
use debian_binfmt_support.Find.Candidates.{Candidate}
use debian_binfmt_support.Find.Interpreters.{find_interpreters}
use debian_binfmt_support.RunDetectors.{Opt, parse_opts, program_name, exec_each, main}

module _ (os : Os) (args : List Bytes) where
  -- `execvp` was asked to run the interpreter on these arguments and did not.
  abbrev pub Refused : Candidate → Type 0
  Refused c = (s : os.State) × ((os.exec c.interpreter (c.interpreter ∷ args) s).0 ≡ false)

  -- The process was replaced by `c`, after every interpreter before it was refused.
  pub record Replaced (interpreters : List Candidate) (c : Candidate) : Type 0 where
    pub before : List Candidate
    pub after : List Candidate
    pub splits : interpreters ≡ before ++ c ∷ after
    pub tried : All Refused before
    pub at : os.State
    pub took : (os.exec c.interpreter (c.interpreter ∷ args) at).0 ≡ true

  -- What the loop over the interpreters has done when it ends with this result.
  abbrev Ended : List Candidate → Option Candidate → Type 0
  Ended cs (some c) = Replaced cs c
  Ended cs none = All Refused cs

  after_refusal :
      (c : Candidate) (cs : List Candidate) (r : Option Candidate)
      → Refused c
      → Ended cs r
      → Ended (c ∷ cs) r
  after_refusal c cs none refused rest = (refused, rest)
  after_refusal c cs (some d) refused rest = record {
    before = c ∷ rest.before;
    after = rest.after;
    splits = ap (◌∷◌ c) rest.splits;
    tried = (refused, rest.tried);
    at = rest.at;
    took = rest.took;
  }

  exec_each-Ended :
      {T : Type 0} (cs : List Candidate) (m : Machine os.State T)
      → (r : Option Candidate) × (m' : Machine os.State T) × (exec_each os args cs m ≡ (done r, m'))
        × Ended cs r
  unfolding exec_each ◌>>=◌ system warning_err
  exec_each-Ended [] m = (none, m, refl, tt)
  exec_each-Ended {T} (c ∷ cs) m =
      elim (Bool-cases (os.exec c.interpreter (c.interpreter ∷ args) m.sys).0) [
        | inl took ↦ (
          some c,
          record m { sys = (os.exec c.interpreter (c.interpreter ∷ args) m.sys).1 },
          rw took refl,
          record { before = []; after = cs; splits = refl; tried = tt; at = m.sys; took = took },
        )
        | inr refused ↦
            let m1 : Machine os.State T = record m {
              sys = (os.exec c.interpreter (c.interpreter ∷ args) m.sys).1;
            } in
            let message : Bytes = text "unable to exec " ++ c.interpreter in
            let (r, m', rest, ended) =
              exec_each-Ended cs (warning_err os program_name message m1).1 in
            (r, m', rw refused rest, after_refusal c cs r (m.sys, refused) ended)
      ]

-- If `find_interpreters` returns a list for the target, run-detectors ends in one of two ways.
-- The process is replaced by an interpreter of the list that `execvp` accepts, given its own path,
-- the target and the other arguments, and every interpreter before it in the list was tried and
-- refused. Or all of them were, and the exit status is 2.
pub main-Replaced :
    (os : Os) {T : Type 0} (opts : List Opt) (target : Bytes) (args : List Bytes) (paths : Paths)
    (m m' : Machine os.State T) (interpreters : List Candidate)
    → find_interpreters os program_name (parse_opts opts paths) target m ≡ (done interpreters, m')
    → ((c : Candidate) × ((main os opts (target ∷ args) paths m).0 ≡ done c)
        × Replaced os (target ∷ args) interpreters c)
      ⊎ (((main os opts (target ∷ args) paths m).0 ≡ exited 2)
          × All (Refused os (target ∷ args)) interpreters)
unfolding main ◌>>=◌ quit
main-Replaced os {T} opts target args paths m m' interpreters found =
    let (r, m2, ran, ended) = exec_each-Ended os (target ∷ args) interpreters m' in
    go r m2 ran ended
  where
    go :
        (r : Option Candidate) (m2 : Machine os.State T)
        → exec_each os (target ∷ args) interpreters m' ≡ (done r, m2)
        → Ended os (target ∷ args) interpreters r
        → ((c : Candidate) × ((main os opts (target ∷ args) paths m).0 ≡ done c)
            × Replaced os (target ∷ args) interpreters c)
          ⊎ (((main os opts (target ∷ args) paths m).0 ≡ exited 2)
              × All (Refused os (target ∷ args)) interpreters)
    go none m2 ran ended = inr (rw (found, ran) refl, ended)
    go (some c) m2 ran ended = inl (c, rw (found, ran) refl, ended)
