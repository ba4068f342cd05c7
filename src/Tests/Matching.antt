-- ===== src/Tests/Matching.antt =====
-- The search for interpreters, on one file and a few formats.
use debian_binfmt_support.Prelude.{
  ◌^◌, ◌-◌, ◌≤◌, false, ◌≡◌, refl, arith, none, some, List, [], ◌∷◌, ◌++◌, Bytes, text, All, keep,
  inl, inr, length, str_eq, c_string, isspace, isdigit, hex_digit,
}
use debian_binfmt_support.Action.{done}
use debian_binfmt_support.Os.Memory.{memory}
use debian_binfmt_support.Find.Candidates.{Candidate}
use debian_binfmt_support.Find.Number.{atoi}
use debian_binfmt_support.Find.Hex.{hex_escape, expand_hex}
use debian_binfmt_support.Find.Hex.Laws.{escape, expand_hex-escape, length-expand_hex}
use debian_binfmt_support.Find.Matching.{
  is_magic, to_read, buffer, is_candidate, ok_formats, masked, and_mask,
}
use debian_binfmt_support.Find.Matching.NulMask.{is_candidate-nul}
use debian_binfmt_support.Find.Matching.Spec.{Matches, IsUsual, Selected, ok_formats-Selected}
use debian_binfmt_support.Find.Interpreters.{no_detector, try_candidates}
use debian_binfmt_support.Find.Interpreters.Order.{
  Tried, Detected, Undetected, try_candidates-Tried,
}
use debian_binfmt_support.Update.Base.{State, program_name}
use debian_binfmt_support.Tests.{env, paths, machine}

-- Bytes 1 and 2 of the file are `AB`, the case of the first letter aside.
abbrev by_magic : Candidate
by_magic = record {
  name = text "m";
  type = text "magic";
  offset = text "1";
  magic = text "AB";
  mask = 223 ∷ 255 ∷ [];
  interpreter = text "/m";
  detector = text "/d";
}

abbrev by_extension : Candidate
by_extension = record {
  name = text "e";
  type = text "extension";
  offset = text "0";
  magic = text "x";
  mask = [];
  interpreter = text "/e";
  detector = [];
}

abbrev candidates : List Candidate
candidates = by_magic ∷ by_extension ∷ []

by_magic-IsUsual : IsUsual by_magic
unfolding atoi isspace isdigit text
by_magic-IsUsual = record {
  forward = omega arith;
  short = omega arith;
  mask_counts = inr (refl, λ e. omega arith);
}

by_extension-IsUsual : IsUsual by_extension
unfolding atoi isspace isdigit text
by_extension-IsUsual = record { forward = omega arith; short = omega arith; mask_counts = inl refl }

abbrev file : Bytes
file = text "#aB!"

ok_formats-Selected_example :
    (ok : List Candidate) × (ok_formats
        (to_read 0 candidates)
        (buffer (to_read 0 candidates) file)
        (some (text "x"))
        candidates
      ≡ some ok)
    × Selected (Matches file (some (text "x"))) candidates ok
ok_formats-Selected_example =
    ok_formats-Selected file (some (text "x")) candidates
      (by_magic-IsUsual, (by_extension-IsUsual, tt))

-- Both match it.
both_match :
    ok_formats
      (to_read 0 candidates)
      (buffer (to_read 0 candidates) file)
      (some (text "x"))
      candidates
    ≡ some candidates
unfolding ok_formats is_candidate is_magic to_read buffer masked and_mask atoi isspace isdigit
    str_eq c_string text
both_match = refl

is_candidate-nul_example :
    is_candidate 2 (buffer 2 (text "xB")) none (record by_magic { mask = 0 ∷ 255 ∷ [] })
    ≡ is_candidate 2 (buffer 2 (text "xB")) none (record by_magic { mask = [] })
is_candidate-nul_example = is_candidate-nul 2 (buffer 2 (text "xB")) none (255 ∷ []) by_magic

-- The mask `\x00\xff` asks for the second byte alone, and the file with that byte is refused.
nul_mask :
    is_candidate 2
      (buffer 2 (text "xB"))
      none
      (record by_magic { offset = text "0"; mask = 0 ∷ 255 ∷ [] })
    ≡ some false
unfolding is_candidate is_magic buffer masked atoi isspace isdigit str_eq text
nul_mask = refl

abbrev start : State env
start = machine ((text "/f.x", file) ∷ []) [] (text "/d" ∷ [])

try_candidates-Tried_example :
    (ds : List Candidate) × (t : env.os.State) × (try_candidates memory program_name paths
        (text "/f.x")
        (some candidates)
        start
      ≡ (done (ds ++ keep no_detector candidates), record start { sys = t }))
    × Tried memory (text "/f.x") start.sys candidates ds t
    × All Detected ds
    × All Undetected (keep no_detector candidates)
try_candidates-Tried_example =
    try_candidates-Tried memory program_name paths (text "/f.x") candidates start

expand_hex-escape_example :
    expand_hex (escape (127 ∷ b'E' ∷ 0 ∷ []) ++ text "\\x4")
    ≡ (127 ∷ b'E' ∷ 0 ∷ []) ++ expand_hex (text "\\x4")
expand_hex-escape_example =
    expand_hex-escape (127 ∷ b'E' ∷ 0 ∷ []) (text "\\x4")
      (omega arith, (omega arith, (omega arith, tt)))

-- A magic of four characters a byte, the last of them cut short.
expanded : expand_hex (text "\\x7fELF\\x0") ≡ 127 ∷ text "ELF\\x0"
unfolding expand_hex hex_escape hex_digit isdigit text
expanded = refl

length-expand_hex_example : length (expand_hex (text "\\x7fELF")) ≤ length (text "\\x7fELF")
length-expand_hex_example = length-expand_hex (text "\\x7fELF")

-- Digits alone can stand for a negative offset, here -1, and the copy would start before the
-- buffer.
negative_offset :
    (atoi (text "4294967295") ≡ 2 ^ 64 - 1)
    × (is_candidate 2 (buffer 2 (text "AB")) none (record by_magic { offset = text "4294967295" })
        ≡ none)
unfolding is_candidate is_magic buffer atoi isspace isdigit str_eq text
negative_offset = (refl, refl)
