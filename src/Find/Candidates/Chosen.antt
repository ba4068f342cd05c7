-- ===== src/Find/Candidates/Chosen.antt =====
-- What `load_all_formats` of src/find.c should make of the administrative directory.
use debian_binfmt_support.Prelude.{
  ◌≡◌, refl, arith, ◌≢◌, ◌⊎◌, true, false, length, ◌==◌, text, Option, none, some, List, [], ◌∷◌,
  Bytes, path_in, if◌then◌else◌, Bool-cases, inl, inr,
}
use debian_binfmt_support.Os.{Os}
use debian_binfmt_support.Error.{kind_exists}
use debian_binfmt_support.Paths.{Paths}
use debian_binfmt_support.Format.{Binfmt, or_empty}
use debian_binfmt_support.Format.Load.Cases.{held_in}
use debian_binfmt_support.Find.Hex.{expand_hex}
use debian_binfmt_support.Find.Candidates.{Candidate, is_empty, accept}

-- The mask of the description is empty or as long as its magic, escapes expanded.
abbrev pub MaskFits : Binfmt → Type 0
MaskFits b =
    (length (expand_hex (or_empty b.mask)) ≡ 0)
    ⊎ (length (expand_hex (or_empty b.mask)) ≡ length (expand_hex (or_empty b.magic)))

-- The candidate that the description makes.
pub record IsCandidate (b : Binfmt) (c : Candidate) : Type 0 where
  pub same_name : c.name ≡ b.name
  pub same_type : c.type ≡ or_empty b.type
  pub magic_expanded : c.magic ≡ expand_hex (or_empty b.magic)
  pub mask_expanded : c.mask ≡ expand_hex (or_empty b.mask)
  pub offset_kept : or_empty b.offset ≢ [] → c.offset ≡ or_empty b.offset
  pub offset_filled : or_empty b.offset ≡ [] → c.offset ≡ text "0"
  pub same_interpreter : c.interpreter ≡ or_empty b.interpreter
  pub same_detector : c.detector ≡ or_empty b.detector

-- An entry of the administrative directory that holds a description, with an entry of the kernel
-- beside it.
pub record Found (os : Os) (paths : Paths) (s : os.State) (entry : Bytes) (b : Binfmt)
    : Type 0 where
  pub not_here : entry ≢ text "."
  pub not_above : entry ≢ text ".."
  pub enabled : kind_exists (os.stat s (path_in paths.procdir entry)) ≡ true
  pub described : held_in entry (os.read s (path_in paths.admindir entry)) ≡ some b

-- What one entry of the administrative directory adds.
pub data Choice (os : Os) (paths : Paths) (s : os.State) (entry : Bytes)
    : Option Candidate → Type 0 where
  dot : (entry ≡ text ".") ⊎ (entry ≡ text "..") → Choice os paths s entry none
  disabled :
      kind_exists (os.stat s (path_in paths.procdir entry)) ≡ false → Choice os paths s entry none
  misfit : (b : Binfmt) → Found os paths s entry b → ¬ MaskFits b → Choice os paths s entry none
  taken :
      (b : Binfmt) (c : Candidate)
      → Found os paths s entry b
      → MaskFits b
      → IsCandidate b c
      → Choice os paths s entry (some c)

-- What the entries add, in their order.
pub data Chosen (os : Os) (paths : Paths) (s : os.State)
    : List Bytes → List Candidate → Type 0 where
  ends : Chosen os paths s [] []
  passes :
      (entry : Bytes) (entries : List Bytes) (cs : List Candidate)
      → Choice os paths s entry none
      → Chosen os paths s entries cs
      → Chosen os paths s (entry ∷ entries) cs
  takes :
      (entry : Bytes) (entries : List Bytes) (c : Candidate) (cs : List Candidate)
      → Choice os paths s entry (some c)
      → Chosen os paths s entries cs
      → Chosen os paths s (entry ∷ entries) (c ∷ cs)

-- The candidate of a description whose fields are all set.
abbrev pub accepted : Binfmt → Option Candidate
accepted b =
    accept b.name (or_empty b.type) (or_empty b.offset) (or_empty b.magic) (or_empty b.mask)
      (or_empty b.interpreter) (or_empty b.detector)

-- What the code makes of a description is what it should.
abbrev pub Answers : Binfmt → Option Candidate → Type 0
Answers b none = ¬ MaskFits b
Answers b (some c) = MaskFits b × IsCandidate b c

offset_or_zero :
    (offset : Bytes)
    → (offset ≢ [] → (if is_empty offset then text "0" else offset) ≡ offset)
      × (offset ≡ [] → (if is_empty offset then text "0" else offset) ≡ text "0")
offset_or_zero [] = (λ h. absurd (h refl), λ e. refl)
offset_or_zero (c ∷ cs) = (λ h. refl, λ e. cc)

pub accepted-Answers : (b : Binfmt) → Answers b (accepted b)
unfolding accept
accepted-Answers b =
    let mask = expand_hex (or_empty b.mask) in
    let magic = expand_hex (or_empty b.magic) in
    let made : Candidate = record {
      name = b.name;
      type = or_empty b.type;
      offset = if is_empty (or_empty b.offset) then text "0" else or_empty b.offset;
      magic = magic;
      mask = mask;
      interpreter = or_empty b.interpreter;
      detector = or_empty b.detector;
    } in
    let right : IsCandidate b made = record {
      same_name = refl;
      same_type = refl;
      magic_expanded = refl;
      mask_expanded = refl;
      offset_kept = (offset_or_zero (or_empty b.offset)).0;
      offset_filled = (offset_or_zero (or_empty b.offset)).1;
      same_interpreter = refl;
      same_detector = refl;
    } in
    elim (Bool-cases (length mask == 0)) [
      | inl bare ↦ rw bare (inl (ground arith), right)
      | inr masked ↦ elim (Bool-cases (length mask == length magic)) [
        | inl same ↦ rw (masked, same) (inr (ground arith), right)
        | inr other ↦ rw (masked, other) (λ h. ground arith)
      ]
    ]
