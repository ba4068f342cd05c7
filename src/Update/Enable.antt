-- ===== src/Update/Enable.antt =====
-- `act_enable` of src/update-binfmts.c. With a name it is `enable_name`, with `NULL` `enable_all`;
-- `true` is the result 1.
pub mod Dry
pub mod Usable
pub mod Files
pub mod Present
pub mod Line
pub mod Needs
pub mod Sends
pub mod Unknown
pub mod Kernel
pub mod Shared
use debian_binfmt_support.Prelude.{
  ℕ, Bool, true, false, not, ◌&&◌, Option, none, some, List, [], ◌∷◌, ◌++◌, map, Bytes, text,
  str_eq, ◌==◌, if◌then◌else◌,
}
use debian_binfmt_support.Action.{Action, pure, crash, ◌>>=◌, ◌>>◌, each_worked}
use debian_binfmt_support.Os.{Written, written, not_opened, not_closed}
use debian_binfmt_support.Error.{observe, system, print}
use debian_binfmt_support.KvHash.{KvElem}
use debian_binfmt_support.Format.{Binfmt, percent_s, binfmt_equals}
use debian_binfmt_support.Update.Base.{
  Env, Config, Act, path_register, run_detectors, warn, warn_err, exists, formats_exists,
  formats_lookup, formats_entries,
}
use debian_binfmt_support.Update.Kernel.{load_binfmt_misc}
use debian_binfmt_support.Update.Database.{procdir_name, load_format, load_all_formats}

-- `s && *s`
abbrev pub is_set : Option Bytes → Bool
is_set none = false
is_set (some []) = false
is_set (some (c ∷ s)) = true

-- `s && !strcmp (s, "yes")`
abbrev pub says_yes : Option Bytes → Bool
says_yes none = false
says_yes (some s) = str_eq s (text "yes")

-- `binfmt_equals` on the value of an entry; `none` is a null pointer that is read.
abbrev equals_value : Binfmt → Option Binfmt → Option Bool
equals_value binfmt none = none
equals_value binfmt (some other) = binfmt_equals binfmt other

abbrev or_later : Option Bool → Option Bool → Option Bool
or_later none later = none
or_later (some true) later = some true
or_later (some false) later = later

-- Whether a format of another name has the same spec. The loop ends at the first.
unfoldable pub same_spec_among : Bytes → Binfmt → List (KvElem Binfmt) → Option Bool
same_spec_among name binfmt [] = some false
same_spec_among name binfmt (e ∷ es) =
    let later = same_spec_among name binfmt es in
    if str_eq e.key name then later else or_later (equals_value binfmt e.value) later

-- `type`, a format that crashes if its own is null.
abbrev pub type_letter : Bytes → Bytes
type_letter type = if str_eq type (text "magic") then text "M" else text "E"

-- `regstring`
unfoldable pub regstring : Bytes → Binfmt → Bytes → Bytes → Bytes
regstring name binfmt type interpreter =
    text ":"
    ++ (name
        ++ (text ":"
            ++ (type_letter type
                ++ (text ":"
                    ++ (percent_s binfmt.offset
                        ++ (text ":"
                            ++ (percent_s binfmt.magic
                                ++ (text ":"
                                    ++ (percent_s binfmt.mask
                                        ++ (text ":"
                                            ++ (interpreter
                                                ++ (text ":"
                                                    ++ ((if says_yes binfmt.credentials
                                                          then text "C"
                                                          else text "")
                                                        ++ ((if says_yes binfmt.preserve
                                                            then text "P"
                                                            else text "")
                                                            ++ text "\n"))))))))))))))

module _ (E : Env) (c : Config) where
  known_answer : Option Bool → Act E Bool
  known_answer none = crash
  known_answer (some b) = pure b

  -- `need_detector`
  unfoldable pub needs_detector : Bytes → Binfmt → Act E Bool
  unfolding known_answer
  needs_detector name binfmt = if is_set binfmt.detector then pure true else (do
    load_all_formats E c true
    es ← formats_entries E
    known_answer (same_spec_among name binfmt es))

  registered : Written → Act E Bool
  registered written = pure true
  registered not_opened =
      warn_err E (text "unable to open " ++ path_register c ++ text " for writing") >> pure false
  registered not_closed = warn_err E (text "unable to close " ++ path_register c) >> pure false

  -- From the format string on.
  unfoldable pub send : Bytes → Bytes → Act E Bool
  unfolding registered
  send name string =
      if c.test
      then print (text "enable " ++ name ++ text " with the following format string:\n " ++ string)
        >> pure true
      else (do w ← system (E.os.write (path_register c) string); registered w)

  with_type : Bytes → Binfmt → Option Bytes → Act E Bool
  with_type name binfmt none = crash
  with_type name binfmt (some type) = do
    need ← needs_detector name binfmt
    send name (
        regstring name binfmt type (if need then run_detectors c else percent_s binfmt.interpreter))

  -- From the lookup of the format on.
  unfoldable pub register : Bytes → Option Binfmt → Act E Bool
  unfolding with_type
  register name none = crash
  register name (some binfmt) = with_type name binfmt binfmt.type

  enable_absent : Bytes → Act E Bool
  enable_absent name = do
    load_format E c name false
    known ← formats_exists E name
    if not c.test && not known
        then warn E (name ++ text " not in database of installed binary formats.") >> pure false
        else (do binfmt ← formats_lookup E name; register name binfmt)

  unfoldable pub enable_name : Bytes → Act E Bool
  unfolding enable_absent
  enable_name name = do
    loaded ← load_binfmt_misc E c
    if not loaded then pure true else (do
      there ← exists E (procdir_name E c name)
      if there
          then warn E (name ++ text " already enabled in kernel.") >> pure true
          else enable_absent name)

  enable_if_absent : Bytes → Act E Bool
  enable_if_absent name = do
    there ← exists E (procdir_name E c name)
    if there then pure true else enable_name name

  unfoldable pub enable_all : Act E Bool
  unfolding enable_if_absent
  enable_all = do
    loaded ← load_binfmt_misc E c
    if not loaded then pure true else (do
      load_all_formats E c false
      es ← formats_entries E
      each_worked enable_if_absent (map (λ e. e.key) es) true)

  unfoldable pub act_enable : Option Bytes → Act E Bool
  act_enable none = enable_all
  act_enable (some name) = enable_name name
