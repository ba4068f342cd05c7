-- ===== src/Find/Hex.antt =====
-- `expand_hex` of src/find.c, and the call of `strtol` that it makes.
pub mod Laws
use debian_binfmt_support.Prelude.{
  ℕ, ◌+◌, ◌-◌, ◌*◌, ◌%◌, Bool, true, false, ◌&&◌, ◌||◌, Option, none, some, List, [], ◌∷◌, Bytes,
  isspace, hex_digit, ◌==◌, if◌then◌else◌,
}

-- A number that `strtol` has read: its sign, its magnitude, and what stands behind it.
pub record Strtol : Type 0 where
  pub negative : Bool
  pub magnitude : ℕ
  pub unread : Bytes

-- The digits from here, behind `acc`.
hex_digits : ℕ → Bytes → ℕ × Bytes
hex_digits acc [] = (acc, [])
hex_digits acc (c ∷ cs) = elim (hex_digit c) [
  | some d ↦ hex_digits (acc * 16 + d) cs
  | none ↦ (acc, c ∷ cs)
]

hex_number : Bool → Bytes → Option Strtol
unfolding hex_digits
hex_number negative [] = none
hex_number negative (c ∷ cs) = elim (hex_digit c) [
  | some d ↦
      let (m, rest) = hex_digits d cs in
      some (record { negative = negative; magnitude = m; unread = rest })
  | none ↦ none
]

-- An optional `0x` or `0X`, if a digit follows it.
skip_prefix : Bytes → Bytes
skip_prefix (z ∷ x ∷ d ∷ rest) = elim (hex_digit d) [
  | some _ ↦ if z == b'0' && (x == b'x' || x == b'X') then d ∷ rest else z ∷ x ∷ d ∷ rest
  | none ↦ z ∷ x ∷ d ∷ rest
]
skip_prefix s = s

signed : Bytes → Option Strtol
unfolding skip_prefix hex_number
signed [] = none
signed (c ∷ cs) =
    if c == b'-'
    then hex_number true (skip_prefix cs)
    else if c == b'+'
    then hex_number false (skip_prefix cs)
    else hex_number false (skip_prefix (c ∷ cs))

-- `strtol (s, &end, 16)`, with no number at hand `none`. The two bytes that the program passes
-- cannot overflow a `long`.
unfoldable pub strtol_16 : Bytes → Option Strtol
unfolding signed isspace hex_digit
strtol_16 [] = none
strtol_16 (c ∷ cs) = let next = strtol_16 cs in if isspace c then next else signed (c ∷ cs)

-- `(char) hex`
abbrev as_char : Strtol → ℕ
as_char n = if n.negative then (256 - n.magnitude % 256) % 256 else n.magnitude % 256

-- The value, if `end == in + 2`.
whole : Option Strtol → Option ℕ
whole none = none
whole (some n) = elim n.unread [ [] ↦ some (as_char n) | _ ∷ _ ↦ none ]

-- The byte that four bytes stand for, if they are an escape.
unfoldable pub hex_escape : ℕ → ℕ → ℕ → ℕ → Option ℕ
unfolding whole strtol_16
hex_escape s0 s1 s2 s3 =
    if s0 == b'\\' && s1 == b'x' then whole (strtol_16 (s2 ∷ s3 ∷ [])) else none

-- The bytes that `*str` becomes; `expand_hex` returns their number. Fewer than four bytes at the
-- end fail the test `s <= *str + len - 4` and are copied.
unfoldable pub expand_hex : Bytes → Bytes
expand_hex (s0 ∷ s1 ∷ s2 ∷ s3 ∷ rest) = elim (hex_escape s0 s1 s2 s3) [
  | some byte ↦ byte ∷ expand_hex rest
  | none ↦ s0 ∷ expand_hex (s1 ∷ s2 ∷ s3 ∷ rest)
]
expand_hex s = s
