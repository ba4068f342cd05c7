-- ===== src/Find/Number.antt =====
-- `atoi` as src/find.c uses it on an offset, on a machine with 32-bit `int` and 64-bit `long`
-- and `size_t`.
use debian_binfmt_support.Prelude.{
  ℕ, ◌+◌, ◌-◌, ◌*◌, ◌%◌, ◌^◌, min, Bool, true, false, [], ◌∷◌, Bytes, isspace, isdigit, ◌==◌, ltb,
  if◌then◌else◌,
}

decimal : ℕ → Bytes → ℕ
decimal acc [] = acc
decimal acc (c ∷ cs) =
    let next = decimal (acc * 10 + (c - b'0')) cs in if isdigit c then next else acc

-- `strtol` stops at the ends of `long`; the conversion to `int` keeps the low 32 bits. The result
-- is the `int` as a `size_t`, so a negative number stands at 2 ^ 64 and below.
int_as_size : Bool → ℕ → ℕ
int_as_size negative m =
    let long = if negative then 2 ^ 64 - min m (2 ^ 63) else min m (2 ^ 63 - 1) in
    let int = long % 2 ^ 32 in if ltb int (2 ^ 31) then int else int + (2 ^ 64 - 2 ^ 32)

atoi_signed : Bytes → ℕ
unfolding decimal int_as_size isdigit
atoi_signed [] = 0
atoi_signed (c ∷ cs) =
    if c == b'-'
    then int_as_size true (decimal 0 cs)
    else if c == b'+'
    then int_as_size false (decimal 0 cs)
    else int_as_size false (decimal 0 (c ∷ cs))

unfoldable pub atoi : Bytes → ℕ
unfolding atoi_signed isspace
atoi [] = 0
atoi (c ∷ cs) = let next = atoi cs in if isspace c then next else atoi_signed (c ∷ cs)
