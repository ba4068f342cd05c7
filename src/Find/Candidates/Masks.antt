-- ===== src/Find/Candidates/Masks.antt =====
-- The list that `load_all_formats` of src/find.c makes.
use debian_binfmt_support.Prelude.{
  ◌≡◌, ◌≢◌, ◌⊎◌, inl, inr, arith, Option, none, some, List, [], ◌∷◌, Bytes, text, length, All, ◌==◌,
  if◌then◌else◌, Bool-cases,
}
use debian_binfmt_support.Action.{done}
use debian_binfmt_support.Action.Ensures.{
  Ensures, Ensures-pure, Ensures-crash, Ensures-if, Ensures-exit, Ensures-bind, Ensures-then,
}
use debian_binfmt_support.Os.{Os, Machine}
use debian_binfmt_support.Error.{quit_err}
use debian_binfmt_support.Paths.{Paths}
use debian_binfmt_support.Format.{Binfmt}
use debian_binfmt_support.Find.Hex.{expand_hex}
use debian_binfmt_support.Find.Candidates.{
  Candidate, is_empty, accept, add_last, is_dot, loaded_candidate, load_entry, load_entries,
  opened_dir, load_all_formats,
}

-- The mask is empty or as long as the magic, and the offset is not empty.
pub record Fits (c : Candidate) : Type 0 where
  pub mask_fits : (length c.mask ≡ 0) ⊎ (length c.mask ≡ length c.magic)
  pub offset_ne_nil : c.offset ≢ []

abbrev FitsIfAny : Option Candidate → Type 0
FitsIfAny none = Unit
FitsIfAny (some c) = Fits c

offset_filled : (offset : Bytes) → (if is_empty offset then text "0" else offset) ≢ []
unfolding text
offset_filled [] e = cc
offset_filled (c ∷ cs) e = cc

accept-Fits :
    (name type offset magic mask interpreter detector : Bytes)
    → FitsIfAny (accept name type offset magic mask interpreter detector)
unfolding accept
accept-Fits name type offset magic mask interpreter detector =
    elim (Bool-cases (length (expand_hex mask) == 0)) [
      | inl none' ↦
          rw none' (record { mask_fits = inl (ground arith); offset_ne_nil = offset_filled offset })
      | inr some' ↦ elim (Bool-cases (length (expand_hex mask) == length (expand_hex magic))) [
        | inl same ↦
            rw (some', same)
              (record { mask_fits = inr (ground arith); offset_ne_nil = offset_filled offset })
        | inr other ↦ rw (some', other) tt
      ]
    ]

All-add_last :
    (c : Option Candidate) (rest : List Candidate)
    → FitsIfAny c
    → All Fits rest
    → All Fits (add_last c rest)
All-add_last none rest fits all = all
All-add_last (some c) rest fits all = (fits, all)

module _ (os : Os) (program_name : Bytes) (paths : Paths) {T : Type 0} where
  loaded_candidate-Fits :
      (b : Option Binfmt) → Ensures FitsIfAny (loaded_candidate os program_name paths {T = T} b)
  unfolding loaded_candidate
  loaded_candidate-Fits none = Ensures-crash
  loaded_candidate-Fits (some b) = Ensures-then _ _ (λ type. Ensures-then _ _ (λ magic.
      Ensures-then _ _ (λ mask. Ensures-then _ _ (λ offset. Ensures-then _ _ (λ interpreter.
        Ensures-then _ _ (λ detector.
          Ensures-pure _ (accept-Fits b.name type offset magic mask interpreter detector)))))))

  load_entry-Fits :
      (entry : Bytes) → Ensures FitsIfAny (load_entry os program_name paths {T = T} entry)
  unfolding load_entry
  load_entry-Fits entry = Ensures-if (is_dot entry) _ _ (Ensures-pure none tt) (
      Ensures-then _ _ (λ enabled.
        Ensures-if enabled _ _ (Ensures-then _ _ (λ b. loaded_candidate-Fits b))
          (Ensures-pure none tt)))

  load_entries-Fits :
      (entries : List Bytes)
      → Ensures (All Fits) (load_entries os program_name paths {T = T} entries)
  unfolding load_entries
  load_entries-Fits [] = Ensures-pure [] tt
  load_entries-Fits (entry ∷ entries) = Ensures-bind _ _ (load_entry-Fits entry) (λ c fits.
      Ensures-bind _ _ (load_entries-Fits entries)
        (λ rest all. Ensures-pure _ (All-add_last c rest fits all)))

  opened_dir-Fits :
      (dir : Option (List Bytes))
      → Ensures (All Fits) (opened_dir os program_name paths {T = T} dir)
  unfolding opened_dir quit_err
  opened_dir-Fits none = Ensures-then _ _ (λ e. Ensures-then _ _ (λ u. Ensures-exit 2))
  opened_dir-Fits (some entries) = load_entries-Fits entries

  load_all_formats-Fits : Ensures (All Fits) (load_all_formats os program_name paths {T = T})
  unfolding load_all_formats
  load_all_formats-Fits = Ensures-then _ _ (λ dir. opened_dir-Fits dir)

  -- If `load_all_formats` of find.c returns, each format in its list has an empty mask or one as
  -- long as its magic, both with their escapes expanded, and an offset that is not empty.
  pub load_all_formats-All :
      (m : Machine os.State T) (formats : List Candidate)
      → (load_all_formats os program_name paths m).0 ≡ done formats
      → All Fits formats
  load_all_formats-All m formats = load_all_formats-Fits.returned m formats
