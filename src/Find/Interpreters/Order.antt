-- ===== src/Find/Interpreters/Order.antt =====
-- The order of the interpreters that `find_interpreters` of src/find.c returns.
use debian_binfmt_support.Prelude.{
  ℕ, true, false, ◌≡◌, refl, ◌≢◌, arith, some, List, [], ◌∷◌, ◌++◌, Bytes, keep, All, ◌==◌,
  Bool-cases, inl, inr,
}
use debian_binfmt_support.Action.{done, pure, ◌>>=◌}
use debian_binfmt_support.Os.{Os, Machine}
use debian_binfmt_support.Error.{system}
use debian_binfmt_support.Paths.{Paths}
use debian_binfmt_support.Find.Candidates.{Candidate, is_empty}
use debian_binfmt_support.Find.Interpreters.{
  has_detector, no_detector, run_detectors, try_candidates,
}

module _ (os : Os) (path : Bytes) where
  -- From one state of the system to another, the detectors of these formats are run on the file
  -- in order, and the formats are collected whose detectors exit with status 0.
  pub data Tried : os.State → List Candidate → List Candidate → os.State → Type 0 where
    finished : {s : os.State} → Tried s [] [] s
    without :
        {s t : os.State} {c : Candidate} {cs ds : List Candidate}
        → c.detector ≡ []
        → Tried s cs ds t
        → Tried s (c ∷ cs) ds t
    passed :
        {s t u : os.State} {c : Candidate} {cs ds : List Candidate}
        → c.detector ≢ []
        → os.run (c.detector ∷ path ∷ []) s ≡ (0, t)
        → Tried t cs ds u
        → Tried s (c ∷ cs) (c ∷ ds) u
    failed :
        {s t u : os.State} {c : Candidate} {cs ds : List Candidate} {status : ℕ}
        → c.detector ≢ []
        → status ≢ 0
        → os.run (c.detector ∷ path ∷ []) s ≡ (status, t)
        → Tried t cs ds u
        → Tried s (c ∷ cs) ds u

is_empty_iff : (s : Bytes) → (is_empty s ≡ true → s ≡ []) × (is_empty s ≡ false → s ≢ [])
is_empty_iff [] = (λ h. refl, λ h e. cc)
is_empty_iff (c ∷ s) = (λ h. cc, λ h e. cc)

abbrev pub Detected : Candidate → Type 0
Detected c = c.detector ≢ []

abbrev pub Undetected : Candidate → Type 0
Undetected c = c.detector ≡ []

keep-Undetected : (cs : List Candidate) → All Undetected (keep no_detector cs)
unfolding keep
keep-Undetected [] = tt
keep-Undetected (c ∷ cs) = elim (Bool-cases (is_empty c.detector)) [
  | inl none' ↦ rw none' ((is_empty_iff c.detector).0 none', keep-Undetected cs)
  | inr some' ↦ rw some' (keep-Undetected cs)
]

module _ (os : Os) (path : Bytes) where
  Tried-Detected :
      {s t : os.State} {cs ds : List Candidate} → Tried os path s cs ds t → All Detected ds
  Tried-Detected finished = tt
  Tried-Detected (without e r) = Tried-Detected r
  Tried-Detected (passed ne ran r) = (ne, Tried-Detected r)
  Tried-Detected (failed ne bad ran r) = Tried-Detected r

module _ (os : Os) (program_name : Bytes) (paths : Paths) {T : Type 0} where
  -- What one run of a detector does to the machine.
  Runs : Bytes → List Candidate → Machine os.State T → Type 0
  Runs path cs m =
      (ds : List Candidate) × (t : os.State) × (run_detectors os program_name paths path cs m
        ≡ (done ds, record m { sys = t }))
      × Tried os path m.sys cs ds t

  detector-Runs :
      (path : Bytes) (c : Candidate) (cs : List Candidate) (m : Machine os.State T) (status : ℕ)
      (s : os.State)
      → has_detector c ≡ true
      → os.run (c.detector ∷ path ∷ []) m.sys ≡ (status, s)
      → Runs path cs (record m { sys = s })
      → Runs path (c ∷ cs) m
  unfolding Runs run_detectors ◌>>=◌ system
  detector-Runs path c cs m status s has ran (ds, t, rest, tried) =
      let ne = (is_empty_iff c.detector).1 (ground arith) in
      elim (Bool-cases (status == 0)) [
        | inl zero' ↦ (c ∷ ds, t, ground arith, passed ne (ground arith) tried)
        | inr bad ↦ (ds, t, ground arith, failed ne (ground arith) ran tried)
      ]

  run_detectors-Runs :
      (path : Bytes) (cs : List Candidate) (m : Machine os.State T) → Runs path cs m
  unfolding Runs run_detectors pure
  run_detectors-Runs path [] m = ([], m.sys, refl, finished)
  run_detectors-Runs path (c ∷ cs) m = elim (Bool-cases (is_empty c.detector)) [
    | inl none' ↦
        let (ds, t, rest, tried) = run_detectors-Runs path cs m in
        (ds, t, rw none' rest, without ((is_empty_iff c.detector).0 none') tried)
    | inr some' ↦
        let (status, s) = os.run (c.detector ∷ path ∷ []) m.sys in
        detector-Runs path c cs m status s (rw some') refl
          (run_detectors-Runs path cs (record m { sys = s }))
  ]

  -- From any list of candidates the interpreters are, first, those whose detectors exit with
  -- status 0 when they are run in order on the file, and then, in order, those with no detector;
  -- nothing else than the runs of the detectors touches the system, and nothing is printed.
  pub try_candidates-Tried :
      (path : Bytes) (ok : List Candidate) (m : Machine os.State T)
      → (ds : List Candidate) × (t : os.State) × (try_candidates os program_name paths path
            (some ok)
            m
          ≡ (done (ds ++ keep no_detector ok), record m { sys = t }))
        × Tried os path m.sys ok ds t
        × All Detected ds
        × All Undetected (keep no_detector ok)
  unfolding try_candidates ◌>>=◌ Runs
  try_candidates-Tried path ok m =
      let (ds, t, ran, tried) = run_detectors-Runs path ok m in
      (ds, t, rw ran refl, tried, Tried-Detected os path tried, keep-Undetected ok)
