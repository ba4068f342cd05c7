-- ===== src/Find/Hex/Laws.antt =====
-- `expand_hex` of src/find.c: its length, and a spelling of bytes.
use debian_binfmt_support.Prelude.{
  ℕ, zero, suc, ◌+◌, ◌-◌, ◌/◌, ◌%◌, ◌≤◌, ◌<◌, Bool, true, false, ◌&&◌, ◌≡◌, refl, ◌≢◌, ap, arith,
  none, some, [], ◌∷◌, ◌++◌, Bytes, length, NoByte, All, ◌==◌, ltb, if◌then◌else◌,
}
use debian_binfmt_support.Find.Hex.{hex_escape, expand_hex}

-- The expansion is never longer than the text, as the comment in the source says.
pub length-expand_hex : (s : Bytes) → length (expand_hex s) ≤ length s
unfolding expand_hex
length-expand_hex (s0 ∷ s1 ∷ s2 ∷ s3 ∷ rest) =
    ground (arith, length-expand_hex rest, length-expand_hex (s1 ∷ s2 ∷ s3 ∷ rest))
length-expand_hex [] = omega arith
length-expand_hex (s0 ∷ []) = omega arith
length-expand_hex (s0 ∷ s1 ∷ []) = omega arith
length-expand_hex (s0 ∷ s1 ∷ s2 ∷ []) = omega arith

abbrev pub digit : ℕ → ℕ
digit d = if ltb d 10 then b'0' + d else b'a' + (d - 10)

-- `\x` and two digits for every byte.
abbrev pub escape : Bytes → Bytes
escape [] = []
escape (c ∷ cs) = b'\\' ∷ b'x' ∷ digit (c / 16) ∷ digit (c % 16) ∷ escape cs

abbrev IsByte : ℕ → Type 0
IsByte c = c < 256

decodes : ℕ → Bool
decodes c = elim (hex_escape b'\\' b'x' (digit (c / 16)) (digit (c % 16))) [
  | some v ↦ v == c
  | none ↦ false
]

-- The codes below a bound.
decodes_below : ℕ → Bool
unfolding decodes
decodes_below zero = true
decodes_below (suc bound) = decodes_below bound && decodes bound

decodes_below_lem : (c bound : ℕ) → c < bound → decodes_below bound ≡ true → decodes c ≡ true
unfolding decodes_below
decodes_below_lem c zero below held = absurd (omega arith)
decodes_below_lem c (suc bound) below held = ground (arith, decodes_below_lem c bound)

decodes_table : decodes_below 256 ≡ true
unfolding decodes_below decodes hex_escape
decodes_table = refl

hex_escape-digit :
    (c : ℕ) → c < 256 → hex_escape b'\\' b'x' (digit (c / 16)) (digit (c % 16)) ≡ some c
unfolding decodes
hex_escape-digit c h = ground (arith, decodes_below_lem c 256 h decodes_table)

-- Every sequence of bytes can be spelled, and what follows it is expanded by itself.
pub expand_hex-escape :
    (bs rest : Bytes) → All IsByte bs → expand_hex (escape bs ++ rest) ≡ bs ++ expand_hex rest
unfolding expand_hex
expand_hex-escape [] rest h = refl
expand_hex-escape (c ∷ bs) rest h =
    rw (hex_escape-digit c h.0, expand_hex) (ap (◌∷◌ c) (expand_hex-escape bs rest h.1))

hex_escape-ne-backslash : (a b c d : ℕ) → a ≢ b'\\' → hex_escape a b c d ≡ none
unfolding hex_escape
hex_escape-ne-backslash a b c d h = ground arith

-- A text with no backslash stands for itself.
pub expand_hex-NoByte : (s : Bytes) → NoByte b'\\' s → expand_hex s ≡ s
unfolding expand_hex
expand_hex-NoByte (s0 ∷ s1 ∷ s2 ∷ s3 ∷ rest) h =
    rw (hex_escape-ne-backslash s0 s1 s2 s3 h.0, expand_hex)
      (ap (◌∷◌ s0) (expand_hex-NoByte (s1 ∷ s2 ∷ s3 ∷ rest) h.1))
expand_hex-NoByte [] h = refl
expand_hex-NoByte (s0 ∷ []) h = refl
expand_hex-NoByte (s0 ∷ s1 ∷ []) h = refl
expand_hex-NoByte (s0 ∷ s1 ∷ s2 ∷ []) h = refl
