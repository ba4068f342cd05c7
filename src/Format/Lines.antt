-- ===== src/Format/Lines.antt =====
-- Lines as `getline` reads them, and the loops that drop white space at the end of one.
use debian_binfmt_support.Prelude.{
  ℕ, ◌≡◌, refl, arith, Option, none, some, [], ◌∷◌, ◌++◌, Bytes, isspace, c_string, NoByte, ◌==◌,
  if◌then◌else◌,
}

abbrev grow : ℕ → Option (Bytes × Bytes) → Option (Bytes × Bytes)
grow c none = some (c ∷ [], [])
grow c (some (line, rest)) = some (c ∷ line, rest)

-- The next line with its newline, and what follows it; `none` at the end of the file.
unfoldable pub getline : Bytes → Option (Bytes × Bytes)
getline [] = none
getline (c ∷ cs) =
    let longer = grow c (getline cs) in if c == b'\n' then some (c ∷ [], cs) else longer

abbrev put_back : ℕ → Bytes → Bytes
put_back c [] = if isspace c then [] else c ∷ []
put_back c (x ∷ xs) = c ∷ x ∷ xs

-- `while (len && isspace ((int) line[len - 1])) line[--len] = 0;`
unfoldable pub trim_right : Bytes → Bytes
trim_right [] = []
trim_right (c ∷ cs) = put_back c (trim_right cs)

-- The string that is left of a line.
abbrev pub line_string : Bytes → Bytes
line_string line = c_string (trim_right line)

pub getline-append :
    (s rest : Bytes) → NoByte b'\n' s → getline (s ++ b'\n' ∷ rest) ≡ some (s ++ b'\n' ∷ [], rest)
unfolding getline
getline-append [] rest h = refl
getline-append (c ∷ s) rest h = rw (getline-append s rest h.1) (ground arith)

pub trim_right-newline : (s : Bytes) → trim_right (s ++ b'\n' ∷ []) ≡ trim_right s
unfolding trim_right isspace
trim_right-newline [] = refl
trim_right-newline (c ∷ s) = rw (trim_right-newline s) refl

-- The string does not end in white space.
abbrev pub IsTrimmed : Bytes → Type 0
IsTrimmed s = trim_right s ≡ s

pub trim_right-IsTrimmed : (s : Bytes) → IsTrimmed (trim_right s)
unfolding trim_right
trim_right-IsTrimmed [] = refl
trim_right-IsTrimmed (c ∷ s) = ground (arith, trim_right-IsTrimmed s)
