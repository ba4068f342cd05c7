-- ===== src/RunDetectors.antt =====
-- src/run-detectors.c: the program that the kernel runs in place of an interpreter. `argp_parse`
-- is not modelled: what it hands over is the options in their order and the other arguments.
pub mod First
use debian_binfmt_support.Prelude.{
  Bool, true, false, Option, none, some, List, [], ◌∷◌, ◌++◌, Bytes, text, if◌then◌else◌,
}
use debian_binfmt_support.Action.{Action, pure, ◌>>=◌, ◌>>◌}
use debian_binfmt_support.Os.{Os, Machine}
use debian_binfmt_support.Error.{system, warning_err, quit}
use debian_binfmt_support.Argp.{ArgpOption, hidden_option, shown_option}
use debian_binfmt_support.Paths.{Paths}
use debian_binfmt_support.Find.Candidates.{Candidate}
use debian_binfmt_support.Find.Interpreters.{find_interpreters}

-- `enum opts`, with the argument of each.
pub data Opt : Type 0 where
  admindir procdir : Bytes → Opt

unfoldable pub parse_opt : Opt → Paths → Paths
parse_opt (admindir arg) paths = record paths { admindir = arg }
parse_opt (procdir arg) paths = record paths { procdir = arg }

-- The table of options; the texts name the directories of the build.
abbrev pub options : Paths → List (ArgpOption (Bytes → Opt))
unfolding hidden_option shown_option
options build =
    shown_option (text "admindir") admindir (some (text "DIRECTORY"))
      (text "administration directory (default: " ++ build.admindir ++ text ")") 0
    ∷ record (shown_option (text "procdir") procdir (some (text "DIRECTORY"))
        (text "proc directory, for test suite use only (default: " ++ build.procdir ++ text ")")
        5) { hidden = true }
    ∷ []

unfoldable pub parse_opts : List Opt → Paths → Paths
parse_opts [] paths = paths
parse_opts (o ∷ os) paths = parse_opts os (parse_opt o paths)

abbrev pub program_name : Bytes
program_name = text "run-detectors"

module _ (os : Os) {T : Type 0} where
  -- The loop over the interpreters; `some` if `execvp` has replaced the process by that one.
  unfoldable pub exec_each :
      List Bytes → List Candidate → Action (Machine os.State T) (Option Candidate)
  exec_each args [] = pure none
  exec_each args (c ∷ cs) =
      let next =
        warning_err os program_name (text "unable to exec " ++ c.interpreter)
        >> exec_each args cs in
      do
        replaced ← system (os.exec c.interpreter (c.interpreter ∷ args))
        if replaced then pure (some c) else next

  exec_done : Bytes → Option Candidate → Action (Machine os.State T) Candidate
  exec_done target (some c) = pure c
  exec_done target none = quit os program_name (text "unable to find an interpreter for " ++ target)

  run_on : Paths → List Bytes → Action (Machine os.State T) Candidate
  unfolding exec_done
  run_on paths [] = quit os program_name (text "argument required")
  run_on paths (target ∷ args) = do
    interpreters ← find_interpreters os program_name paths target
    replaced ← exec_each (target ∷ args) interpreters
    exec_done target replaced

  -- Control does not come back: a value says by which interpreter the process was replaced.
  unfoldable pub main : List Opt → List Bytes → Paths → Action (Machine os.State T) Candidate
  unfolding run_on parse_opts parse_opt
  main opts args paths = run_on (parse_opts opts paths) args
