-- ===== src/Update/Packaged.antt =====
-- `get_import` of src/update-binfmts.c: the named values of a packaged format file.
pub mod Keys
pub mod Reads
use debian_binfmt_support.Prelude.{
  ℕ, Bool, true, false, Option, none, some, List, [], ◌∷◌, ◌++◌, map, Bytes, text, tolower, ◌==◌,
  if◌then◌else◌,
}
use debian_binfmt_support.Action.{Action, pure, ◌>>=◌, ◌>>◌}
use debian_binfmt_support.Error.{observe}
use debian_binfmt_support.KvHash.{KvLib, kvhash_initialize, kvhash_insert}
use debian_binfmt_support.Format.Lines.{getline, line_string}
use debian_binfmt_support.Update.Base.{Env, Act, warn_err}

abbrev pub before_head : ℕ → List Bytes → List Bytes
before_head c [] = (c ∷ []) ∷ []
before_head c (line ∷ lines) = (c ∷ line) ∷ lines

-- The lines that `getline` gives one after the other.
unfoldable pub all_lines : Bytes → List Bytes
all_lines [] = []
all_lines (c ∷ cs) =
    let longer = before_head c (all_lines cs) in
    if c == b'\n' then (c ∷ []) ∷ all_lines cs else longer

-- The text before the first space, and what stands behind it, `NULL` if there is no space.
unfoldable pub split_space : Bytes → Bytes × Option Bytes
split_space [] = ([], none)
split_space (c ∷ cs) =
    let longer = c ∷ (split_space cs).0 in
    if c == b' ' then ([], some cs) else (longer, (split_space cs).1)

-- The key of a line, in lower case, and its value.
unfoldable pub key_value : Bytes → Bytes × Option Bytes
key_value line = let (key, value) = split_space (line_string line) in (map tolower key, value)

module _ (H : KvLib Bytes) where
  -- The loop. An older value of a key stays.
  unfoldable pub import_lines : H.Table → List Bytes → H.Table
  import_lines import [] = import
  import_lines import (line ∷ lines) =
      let (key, value) = key_value line in import_lines (kvhash_insert H import key value).1 lines

module _ (E : Env) where
  -- `NULL` if the file cannot be opened.
  imported : Bytes → Option Bytes → Act E (Option E.args.Table)
  imported name none = warn_err E (text "unable to open " ++ name) >> pure none
  imported name (some file) =
      pure (some (import_lines E.args (kvhash_initialize E.args) (all_lines file)))

  unfoldable pub get_import : Bytes → Act E (Option E.args.Table)
  unfolding imported
  get_import name = do file ← observe (λ s. E.os.read s name); imported name file
