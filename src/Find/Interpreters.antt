-- ===== src/Find/Interpreters.antt =====
-- `find_interpreters` of src/find.c.
pub mod Order
use debian_binfmt_support.Prelude.{
  ℕ, ◌^◌, Bool, true, false, not, ◌&&◌, Option, none, some, List, [], ◌∷◌, ◌++◌, Bytes, text,
  after_last, keep, ◌==◌, ltb, if◌then◌else◌,
}
use debian_binfmt_support.Action.{Action, pure, crash, exit, ◌>>=◌}
use debian_binfmt_support.Os.{Os, Machine}
use debian_binfmt_support.Error.{observe, system, quit_err}
use debian_binfmt_support.Paths.{Paths}
use debian_binfmt_support.Find.Candidates.{Candidate, is_empty, load_all_formats}
use debian_binfmt_support.Find.Matching.{to_read, buffer, ok_formats}

abbrev pub has_detector : Candidate → Bool
has_detector c = not (is_empty c.detector)

abbrev pub no_detector : Candidate → Bool
no_detector c = is_empty c.detector

abbrev pub add_passed : ℕ → Candidate → List Candidate → List Candidate
add_passed status c rest = if status == 0 then c ∷ rest else rest

module _ (os : Os) (program_name : Bytes) (paths : Paths) {T : Type 0} where
  -- The first loop over `ok_formats`: each detector is run on the file, in order.
  unfoldable pub run_detectors :
      Bytes → List Candidate → Action (Machine os.State T) (List Candidate)
  run_detectors path [] = pure []
  run_detectors path (c ∷ cs) =
      let next = run_detectors path cs in
      if has_detector c
      then (do
        status ← system (os.run (c.detector ∷ path ∷ []))
        rest ← next
        pure (add_passed status c rest))
      else next

  -- Both loops over `ok_formats`.
  unfoldable pub try_candidates :
      Bytes → Option (List Candidate) → Action (Machine os.State T) (List Candidate)
  try_candidates path none = crash
  try_candidates path (some ok) = do
    detected ← run_detectors path ok
    pure (detected ++ keep no_detector ok)

  target_opened :
      Bytes → List Candidate → Option Bytes → Action (Machine os.State T) (List Candidate)
  unfolding try_candidates
  target_opened path formats none = quit_err os program_name (text "unable to open " ++ path)
  target_opened path formats (some file) =
      let toread = to_read 0 formats in
      try_candidates path (ok_formats toread (buffer toread file) (after_last b'.' path) formats)

  -- `xzalloc` gives up, with `exit_failure`, on more bytes than an object can have.
  unfoldable pub find_interpreters : Bytes → Action (Machine os.State T) (List Candidate)
  unfolding target_opened
  find_interpreters path = do
    formats ← load_all_formats os program_name paths
    if ltb (to_read 0 formats) (2 ^ 63)
        then (do file ← observe (λ s. os.read s path); target_opened path formats file)
        else exit 1
