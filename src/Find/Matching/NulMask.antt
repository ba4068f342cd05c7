-- ===== src/Find/Matching/NulMask.antt =====
-- Masks that begin with a NUL, in `find_interpreters` of src/find.c.
use debian_binfmt_support.Prelude.{ℕ, ◌≡◌, refl, Option, none, some, [], ◌∷◌, Bytes}
use debian_binfmt_support.Find.Candidates.{Candidate}
use debian_binfmt_support.Find.Matching.{is_magic, same_segment, masked, is_candidate}

same_segment-nul :
    (toread : ℕ) (ms : Bytes) (c : Candidate) (segment : Option Bytes)
    → same_segment toread (record c { mask = 0 ∷ ms }) segment
      ≡ same_segment toread (record c { mask = [] }) segment
unfolding same_segment masked
same_segment-nul toread ms c none = refl
same_segment-nul toread ms c (some segment) = refl

-- A mask whose first byte is NUL, whatever follows it, has no effect on the choice of candidates:
-- the format is chosen, refused or read out of bounds as if it had no mask.
pub is_candidate-nul :
    (toread : ℕ) (buf : Bytes) (extension : Option Bytes) (ms : Bytes) (c : Candidate)
    → is_candidate toread buf extension (record c { mask = 0 ∷ ms })
      ≡ is_candidate toread buf extension (record c { mask = [] })
unfolding is_candidate is_magic
is_candidate-nul toread buf extension ms c = rw (same_segment-nul toread ms c _) refl
