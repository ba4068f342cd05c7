-- ===== src/Tests/Runs.antt =====
-- Runs of both programs.
use debian_binfmt_support.Prelude.{
  Bytes, List, some, true, ◌≡◌, refl, ◌≢◌, ◌⊎◌, [], ◌∷◌, text, All, str_eq, path_in, isspace,
  isdigit, c_string, after_last, keep,
}
use debian_binfmt_support.Action.{done, exited, ◌>>=◌}
use debian_binfmt_support.Os.Memory.{memory}
use debian_binfmt_support.Error.{system, observe}
use debian_binfmt_support.Format.Write.{file_text}
use debian_binfmt_support.Update.Base.{State}
use debian_binfmt_support.Format.Lines.{getline, trim_right}
use debian_binfmt_support.Format.Fields.{read_fields, read_required, read_optional}
use debian_binfmt_support.Format.Load.{binfmt_load}
use debian_binfmt_support.Find.Hex.{hex_escape, expand_hex}
use debian_binfmt_support.Find.Number.{atoi}
use debian_binfmt_support.Find.Matching.{
  is_magic, to_read, buffer, is_candidate, ok_formats, masked,
}
use debian_binfmt_support.Find.Candidates.{Candidate, accept, is_dot, load_all_formats}
use debian_binfmt_support.Find.Interpreters.{run_detectors, try_candidates, find_interpreters}
use debian_binfmt_support.RunDetectors.{procdir, program_name, parse_opts, parse_opt}
use debian_binfmt_support.RunDetectors as RunDetectors
use debian_binfmt_support.RunDetectors.First.{Refused, Replaced, main-Replaced}
use debian_binfmt_support.Update.Options.{install, remove, opt_mode, opt_test}
use debian_binfmt_support.Update.Main.{main}
use debian_binfmt_support.Update.Main.Modes.{main_two_modes}
use debian_binfmt_support.Find.Candidates.Chosen.{Chosen}
use debian_binfmt_support.Find.Candidates.Directory.{load_all_formats-Chosen}
use debian_binfmt_support.Find.Candidates.Masks.{Fits, load_all_formats-All}
use debian_binfmt_support.Tests.{env, paths, jar, machine, installed}

main_two_modes_example :
    ((main env
        ((opt_test, []) ∷ (opt_mode install, text "jar" ∷ []) ∷ (opt_mode remove, []) ∷ [])
        true
        paths
        installed).0
      ≢ done tt)
    × ((main env
          ((opt_test, []) ∷ (opt_mode install, text "jar" ∷ []) ∷ (opt_mode remove, []) ∷ [])
          true
          paths
          installed).1.sys
        ≡ installed.sys)
main_two_modes_example =
    main_two_modes env install remove ((opt_test, []) ∷ []) [] [] (text "jar" ∷ []) [] true paths
      installed

-- The format is enabled, and run-detectors is called on a file that it matches.
abbrev called : State env
called =
    machine
      ((text "/a/jar", file_text jar)
        ∷ (text "/p/jar", text "enabled")
        ∷ (text "/f", text "PKx")
        ∷ [])
      ((text "/a", text "jar" ∷ []) ∷ []) (text "/j" ∷ [])

abbrev jar_candidate : Candidate
jar_candidate = record {
  name = text "jar";
  type = text "magic";
  offset = text "0";
  magic = text "PK";
  mask = [];
  interpreter = text "/j";
  detector = [];
}

interpreters_found :
    find_interpreters memory program_name
      (parse_opts (procdir (text "/p") ∷ []) paths)
      (text "/f")
      called
    ≡ (done (jar_candidate ∷ []), called)
unfolding find_interpreters ◌>>=◌ memory load_all_formats text machine observe system parse_opts
    parse_opt is_dot path_in binfmt_load read_fields read_required read_optional getline file_text
    to_read accept expand_hex hex_escape c_string trim_right isspace atoi run_detectors
    try_candidates buffer is_candidate is_magic masked ok_formats after_last str_eq isdigit keep
interpreters_found = refl

main-Replaced_example :
    ((c : Candidate) × ((RunDetectors.main memory
          (procdir (text "/p") ∷ [])
          (text "/f" ∷ text "arg" ∷ [])
          paths
          called).0
        ≡ done c)
      × Replaced memory (text "/f" ∷ text "arg" ∷ []) (jar_candidate ∷ []) c)
    ⊎ (((RunDetectors.main memory
            (procdir (text "/p") ∷ [])
            (text "/f" ∷ text "arg" ∷ [])
            paths
            called).0
          ≡ exited 2)
        × All (Refused memory (text "/f" ∷ text "arg" ∷ [])) (jar_candidate ∷ []))
main-Replaced_example =
    main-Replaced memory (procdir (text "/p") ∷ []) (text "/f") (text "arg" ∷ []) paths called
      called (jar_candidate ∷ []) interpreters_found

-- The list that find.c loads there.
formats_loaded : (load_all_formats memory program_name paths called).0 ≡ done (jar_candidate ∷ [])
unfolding ◌>>=◌ memory load_all_formats text machine observe is_dot path_in binfmt_load read_fields
    read_required read_optional getline file_text accept expand_hex hex_escape c_string trim_right
    isspace str_eq
formats_loaded = refl

load_all_formats-All_example : All Fits (jar_candidate ∷ [])
load_all_formats-All_example =
    load_all_formats-All memory program_name paths called (jar_candidate ∷ []) formats_loaded

load_all_formats-Chosen_example :
    (entries : List Bytes) × (memory.list called.sys paths.admindir ≡ some entries)
    × Chosen memory paths called.sys entries (jar_candidate ∷ [])
    × (load_all_formats memory program_name paths called ≡ (done (jar_candidate ∷ []), called))
load_all_formats-Chosen_example =
    load_all_formats-Chosen memory program_name paths (jar_candidate ∷ []) called formats_loaded
