-- ===== src/Update/Display.antt =====
-- `act_display` and `act_find` of src/update-binfmts.c.
pub mod Reads
pub mod Usable
use debian_binfmt_support.Prelude.{
  Bool, true, false, Option, none, some, List, [], ◌∷◌, ◌++◌, map, Bytes, text, if◌then◌else◌,
}
use debian_binfmt_support.Action.{Action, pure, crash, ◌>>=◌, ◌>>◌}
use debian_binfmt_support.Error.{print}
use debian_binfmt_support.Format.{Binfmt, percent_s}
use debian_binfmt_support.Find.Candidates.{Candidate}
use debian_binfmt_support.Find.Interpreters.{find_interpreters}
use debian_binfmt_support.Update.Base.{
  Env, Config, Act, program_name, shown_package, warn, exists, formats_lookup, formats_entries,
}
use debian_binfmt_support.Update.Database.{procdir_name, load_format, load_all_formats}

-- What is printed of a format behind its first line.
description : Bytes → Binfmt → Bytes
description pkg b =
    text "     package = "
    ++ shown_package pkg
    ++ text "\n"
    ++ text "        type = "
    ++ percent_s b.type
    ++ text "\n"
    ++ text "      offset = "
    ++ percent_s b.offset
    ++ text "\n"
    ++ text "       magic = "
    ++ percent_s b.magic
    ++ text "\n"
    ++ text "        mask = "
    ++ percent_s b.mask
    ++ text "\n"
    ++ text " interpreter = "
    ++ percent_s b.interpreter
    ++ text "\n"
    ++ text "    detector = "
    ++ percent_s b.detector
    ++ text "\n"

module _ (E : Env) (c : Config) where
  print_description : Binfmt → Option Bytes → Act E Bool
  print_description b none = crash
  print_description b (some pkg) = print (description pkg b) >> pure true

  display_found : Bytes → Option Binfmt → Act E Bool
  unfolding print_description description
  display_found name none =
      warn E (name ++ text " not in database of installed binary formats.") >> pure false
  display_found name (some b) = do
    enabled ← exists E (procdir_name E c name)
    print
        (name ++ text " (" ++ (if enabled then text "enabled" else text "disabled") ++ text "):\n")
    print_description b b.pkg

  unfoldable pub display_name : Bytes → Act E Bool
  unfolding display_found
  display_name name = do load_format E c name false; b ← formats_lookup E name; display_found name b

  -- The results are dropped.
  display_each : List Bytes → Act E (Unit {0})
  display_each [] = pure tt
  display_each (name ∷ names) = do _ ← display_name name; display_each names

  unfoldable pub act_display : Option Bytes → Act E Bool
  unfolding display_each
  act_display (some name) = display_name name
  act_display none = do
    load_all_formats E c false
    es ← formats_entries E
    display_each (map (λ e. e.key) es)
    pure true

  interpreter_lines : List Candidate → Bytes
  interpreter_lines [] = []
  interpreter_lines (b ∷ bs) = b.interpreter ++ text "\n" ++ interpreter_lines bs

  unfoldable pub act_find : Bytes → Act E Bool
  unfolding interpreter_lines
  act_find executable = do
    interpreters ← find_interpreters E.os program_name c.paths executable
    print (interpreter_lines interpreters)
    pure true
