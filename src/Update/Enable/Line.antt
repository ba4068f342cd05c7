-- ===== src/Update/Enable/Line.antt =====
-- The line of a format, by its parts, and what decides on its interpreter.
use debian_binfmt_support.Prelude.{
  ℕ, ◌≡◌, refl, ◌≢◌, ◌⊎◌, arith, Any, some, List, [], ◌∷◌, ◌++◌, Bytes, text, str_eq, str_eq_iff,
  Bool-cases, inl, inr,
}
use debian_binfmt_support.KvHash.{KvElem}
use debian_binfmt_support.Format.{Binfmt, percent_s}
use debian_binfmt_support.Update.Base.{Config, run_detectors}
use debian_binfmt_support.Update.Enable.{type_letter, regstring}
use debian_binfmt_support.Update.Enable.Kernel.{flags}
use debian_binfmt_support.Update.Enable.Shared.{Shares}

-- The texts with a byte in front of each but the first.
abbrev pub joined : ℕ → List Bytes → Bytes
joined c [] = []
joined c (s ∷ []) = s
joined c (s ∷ t ∷ ss) = s ++ c ∷ joined c (t ∷ ss)

-- The letter for `magic`, and the one for any other type.
abbrev pub IsLetter : Bytes → Bytes → Type 0
IsLetter type letter =
    (type ≡ text "magic" → letter ≡ text "M") × (type ≢ text "magic" → letter ≡ text "E")

-- The line that asks for the format with this interpreter.
abbrev pub IsLine : Bytes → Binfmt → Bytes → Bytes → Bytes → Type 0
IsLine name b type interpreter line =
    (letter : Bytes) × IsLetter type letter
    × (line
        ≡ joined b':' (
            []
            ∷ name
            ∷ letter
            ∷ percent_s b.offset
            ∷ percent_s b.magic
            ∷ percent_s b.mask
            ∷ interpreter
            ∷ flags b
            ∷ []))

type_letter-IsLetter : (type : Bytes) → IsLetter type (type_letter type)
type_letter-IsLetter type = elim (Bool-cases (str_eq type (text "magic"))) [
  | inl magic ↦ rw magic (λ e. refl, λ ne. absurd (ne ((str_eq_iff type (text "magic")).0 magic)))
  | inr other ↦
      rw other (λ e. absurd (ground (arith, (str_eq_iff type (text "magic")).1 e)), λ ne. refl)
]

pub regstring-IsLine :
    (name : Bytes) (b : Binfmt) (type interpreter : Bytes)
    → IsLine name b type interpreter (regstring name b type interpreter)
unfolding regstring text
regstring-IsLine name b type interpreter = (type_letter type, type_letter-IsLetter type, refl)

-- The format has a detector of its own.
abbrev pub HasDetector : Binfmt → Type 0
HasDetector b = (d : Bytes) × (b.detector ≡ some d) × (d ≢ [])

-- The interpreter is run-detectors where the kernel is not to choose, and the one of the format
-- elsewhere. `es` are the formats that are known.
abbrev pub Interprets : Config → Bytes → Binfmt → List (KvElem Binfmt) → Bytes → Type 0
Interprets c name b es interpreter =
    ((interpreter ≡ run_detectors c) × (HasDetector b ⊎ Any (Shares name b) es))
    ⊎ ((interpreter ≡ percent_s b.interpreter) × (¬ (HasDetector b ⊎ Any (Shares name b) es)))
