-- ===== src/Update/Enable/Kernel.antt =====
-- The line that `act_enable` of src/update-binfmts.c makes, as the kernel reads it.
use debian_binfmt_support.Prelude.{
  ℕ, ◌≡◌, refl, ◌∙◌, ap, arith, List, [], ◌∷◌, ◌++◌, Bytes, text, NoByte, ◌==◌, if◌then◌else◌,
}
use debian_binfmt_support.Format.{Binfmt, percent_s}
use debian_binfmt_support.Update.Enable.{says_yes, type_letter, regstring}

abbrev into_first : ℕ → List Bytes → List Bytes
into_first x [] = (x ∷ []) ∷ []
into_first x (s ∷ ss) = (x ∷ s) ∷ ss

-- The parts of a text between the occurrences of a byte.
abbrev pub split_at : ℕ → Bytes → List Bytes
split_at c [] = [] ∷ []
split_at c (x ∷ xs) = if x == c then [] ∷ split_at c xs else into_first x (split_at c xs)

split_at-append :
    (c : ℕ) (s rest : Bytes) → NoByte c s → split_at c (s ++ c ∷ rest) ≡ s ∷ split_at c rest
split_at-append c [] rest h = ground arith
split_at-append c (x ∷ s) rest h = rw (split_at-append c s rest h.1) (ground arith)

split_at-NoByte : (c : ℕ) (s : Bytes) → NoByte c s → split_at c s ≡ s ∷ []
split_at-NoByte c [] h = refl
split_at-NoByte c (x ∷ s) h = rw (split_at-NoByte c s h.1) (ground arith)

-- `C` and `P`, and the newline.
abbrev pub flags : Binfmt → Bytes
flags b =
    (if says_yes b.credentials then text "C" else text "")
    ++ ((if says_yes b.preserve then text "P" else text "") ++ text "\n")

flags-NoByte : (b : Binfmt) → NoByte b':' (flags b)
unfolding text
flags-NoByte b = ground arith

type_letter-NoByte : (type : Bytes) → NoByte b':' (type_letter type)
unfolding text
type_letter-NoByte type = ground arith

-- The kernel splits the line at its first byte, a colon. If neither the name nor the offset, the
-- magic, the mask or the interpreter holds a colon, it finds an empty part, these five in their
-- places with the letter of the type behind the name, and the flags: `C` exactly if the
-- credentials are "yes", then `P` exactly if preserve is "yes", and a newline.
pub split_at-regstring :
    (name : Bytes) (b : Binfmt) (type interpreter : Bytes)
    → NoByte b':' name
    → NoByte b':' (percent_s b.offset)
    → NoByte b':' (percent_s b.magic)
    → NoByte b':' (percent_s b.mask)
    → NoByte b':' interpreter
    → split_at b':' (regstring name b type interpreter)
      ≡ []
        ∷ name
        ∷ type_letter type
        ∷ percent_s b.offset
        ∷ percent_s b.magic
        ∷ percent_s b.mask
        ∷ interpreter
        ∷ flags b
        ∷ []
unfolding regstring text
split_at-regstring name b type interpreter hn ho hm hk hi = ap (◌∷◌ []) (
    split_at-append b':' name _ hn
    ∙ ap (◌∷◌ name) (
        split_at-append b':' (type_letter type) _ (type_letter-NoByte type)
        ∙ ap (◌∷◌ (type_letter type)) (
            split_at-append b':' (percent_s b.offset) _ ho
            ∙ ap (◌∷◌ (percent_s b.offset)) (
                split_at-append b':' (percent_s b.magic) _ hm
                ∙ ap (◌∷◌ (percent_s b.magic)) (
                    split_at-append b':' (percent_s b.mask) _ hk
                    ∙ ap (◌∷◌ (percent_s b.mask)) (
                        split_at-append b':' interpreter _ hi
                        ∙ ap (◌∷◌ interpreter)
                            (split_at-NoByte b':' (flags b) (flags-NoByte b))))))))

-- The part behind the first occurrence of a byte.
abbrev pub second_part : List Bytes → Bytes
second_part (s ∷ name ∷ rest) = name
second_part _ = []

-- The kernel finds the name in its place whatever stands behind it.
pub second_part-regstring :
    (name : Bytes) (b : Binfmt) (type interpreter : Bytes)
    → NoByte b':' name
    → second_part (split_at b':' (regstring name b type interpreter)) ≡ name
unfolding regstring text
second_part-regstring name b type interpreter plain =
    ap (λ ss. second_part ([] ∷ ss)) (split_at-append b':' name _ plain)
