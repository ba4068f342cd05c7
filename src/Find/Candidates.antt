-- ===== src/Find/Candidates.antt =====
-- `load_all_formats` of src/find.c: the formats that are installed and enabled.
pub mod Masks
pub mod Asserts
pub mod Chosen
pub mod Directory
use debian_binfmt_support.Prelude.{
  Bool, true, false, not, ◌&&◌, ◌||◌, Option, none, some, List, [], ◌∷◌, ◌++◌, Bytes, text, str_eq,
  path_in, length, ◌==◌, if◌then◌else◌,
}
use debian_binfmt_support.Action.{Action, pure, crash, ◌>>=◌}
use debian_binfmt_support.Os.{Os, Machine}
use debian_binfmt_support.Error.{observe, quit_err, kind_exists}
use debian_binfmt_support.Paths.{Paths}
use debian_binfmt_support.Format.{Binfmt}
use debian_binfmt_support.Format.Load.{binfmt_load}
use debian_binfmt_support.Find.Hex.{expand_hex}

-- A `struct binfmt` in the list: the fields that are read behind the assertions, the magic and
-- the mask as bytes with a length. `magic_size` is the length of `magic`.
pub record Candidate : Type 0 where
  pub name : Bytes
  pub type : Bytes
  pub offset : Bytes
  pub magic : Bytes
  pub mask : Bytes
  pub interpreter : Bytes
  pub detector : Bytes

-- `!*s`
abbrev pub is_empty : Bytes → Bool
is_empty [] = true
is_empty (c ∷ cs) = false

-- What the loop does behind the assertions; `none` where it frees the format and goes on.
unfoldable pub accept : Bytes → Bytes → Bytes → Bytes → Bytes → Bytes → Bytes → Option Candidate
accept name type offset magic mask interpreter detector =
    let magic' = expand_hex magic in
    let mask' = expand_hex mask in
    if not (length mask' == 0) && not (length mask' == length magic')
    then none
    else some (record {
      name = name;
      type = type;
      offset = if is_empty offset then text "0" else offset;
      magic = magic';
      mask = mask';
      interpreter = interpreter;
      detector = detector;
    })

abbrev pub add_last : Option Candidate → List Candidate → List Candidate
add_last none rest = rest
add_last (some c) rest = c ∷ rest

-- `!strcmp (entry->d_name, ".") || !strcmp (entry->d_name, "..")`
unfoldable pub is_dot : Bytes → Bool
is_dot name = str_eq name (text ".") || str_eq name (text "..")

module _ (os : Os) (program_name : Bytes) (paths : Paths) {T : Type 0} where
  -- `assert (field)`
  asserted : Option Bytes → Action (Machine os.State T) Bytes
  asserted none = crash
  asserted (some s) = pure s

  loaded_candidate : Option Binfmt → Action (Machine os.State T) (Option Candidate)
  unfolding asserted
  loaded_candidate none = crash
  loaded_candidate (some b) = do
    type ← asserted b.type
    magic ← asserted b.magic
    mask ← asserted b.mask
    offset ← asserted b.offset
    interpreter ← asserted b.interpreter
    detector ← asserted b.detector
    pure (accept b.name type offset magic mask interpreter detector)

  -- One round of the loop over the directory.
  load_entry : Bytes → Action (Machine os.State T) (Option Candidate)
  unfolding loaded_candidate
  load_entry entry = if is_dot entry then pure none else (do
    enabled ← observe (λ s. kind_exists (os.stat s (path_in paths.procdir entry)))
    if enabled
        then (do
          b ← binfmt_load os program_name entry (path_in paths.admindir entry) false
          loaded_candidate b)
        else pure none)

  load_entries : List Bytes → Action (Machine os.State T) (List Candidate)
  load_entries [] = pure []
  load_entries (entry ∷ entries) = do
    c ← load_entry entry
    rest ← load_entries entries
    pure (add_last c rest)

  opened_dir : Option (List Bytes) → Action (Machine os.State T) (List Candidate)
  unfolding load_entries load_entry
  opened_dir none = quit_err os program_name (text "unable to open " ++ paths.admindir)
  opened_dir (some entries) = load_entries entries

  unfoldable pub load_all_formats : Action (Machine os.State T) (List Candidate)
  unfolding opened_dir
  load_all_formats = do dir ← observe (λ s. os.list s paths.admindir); opened_dir dir
