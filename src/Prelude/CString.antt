-- ===== src/Prelude/CString.antt =====
-- C strings as lists of bytes, with the functions of <string.h> that the program calls.
use Prim.Native.Char.{code}
use Prim.Native.Nat.{ℕ}
use Prim.Native.String.{String}
use mathlib.Core.Bool.{Bool, true, false, ◌&&◌, ◌||◌}
use mathlib.Core.List.{List, [], ◌∷◌, ◌++◌}
use mathlib.Core.Logic.{◌↔◌, ◌≢◌}
use mathlib.Core.Option.{Option, none, some}
use mathlib.Core.Path.{◌≡◌, refl}
use native.Mathlib.Omega.{arith}
use debian_binfmt_support.Prelude.Tests.{◌==◌, if◌then◌else◌}
use debian_binfmt_support.Prelude.Lists.{All}

abbrev pub Bytes : Type 0
Bytes = List ℕ

-- The bytes of an ASCII literal.
unfoldable pub text : String → Bytes
text String.[] = []
text (String.◌∷◌ c s) = code c ∷ text s

-- `!strcmp (a, b)`
unfoldable pub str_eq : Bytes → Bytes → Bool
str_eq [] [] = true
str_eq (x ∷ xs) (y ∷ ys) = x == y && str_eq xs ys
str_eq _ _ = false

pub str_eq_iff : (a b : Bytes) → (str_eq a b ≡ true) ↔ (a ≡ b)
unfolding str_eq
str_eq_iff [] [] = ground arith
str_eq_iff (x ∷ a) (y ∷ b) = ground (arith, str_eq_iff a b)
str_eq_iff [] (y ∷ b) = ground arith
str_eq_iff (x ∷ a) [] = ground arith

pub str_eq_refl : (a : Bytes) → str_eq a a ≡ true
str_eq_refl a = (str_eq_iff a a).1 refl

-- `strchr (s, c) != NULL`
unfoldable pub has_byte : ℕ → Bytes → Bool
has_byte c [] = false
has_byte c (x ∷ xs) = x == c || has_byte c xs

-- What stands behind the last `c`, `strrchr (s, c) + 1`, if there is one.
unfoldable pub after_last : ℕ → Bytes → Option Bytes
after_last c [] = none
after_last c (x ∷ xs) =
    let here : Option Bytes = if x == c then some xs else none in
    elim (after_last c xs) [ some s ↦ some s | none ↦ here ]

-- What a `char *` to these bytes is as a string: it ends at the first NUL.
unfoldable pub c_string : Bytes → Bytes
c_string [] = []
c_string (x ∷ xs) = let rest = x ∷ c_string xs in if x == 0 then [] else rest

abbrev pub NoByte : ℕ → Bytes → Type 0
NoByte c = All (λ x. x ≢ c)

pub c_string_lem : (s : Bytes) → NoByte 0 s → c_string s ≡ s
unfolding c_string
c_string_lem [] h = refl
c_string_lem (x ∷ s) h = ground (arith, c_string_lem s h.1)

pub c_string-NoByte : (s : Bytes) → NoByte 0 (c_string s)
unfolding c_string
c_string-NoByte [] = tt
c_string-NoByte (x ∷ s) = ground (arith, c_string-NoByte s)

pub has_byte-NoByte : (c : ℕ) (s : Bytes) → has_byte c s ≡ false → NoByte c s
unfolding has_byte
has_byte-NoByte c [] h = tt
has_byte-NoByte c (x ∷ s) h = ground (arith, has_byte-NoByte c s)

pub NoByte-has_byte : (c : ℕ) (s : Bytes) → NoByte c s → has_byte c s ≡ false
unfolding has_byte
NoByte-has_byte c [] h = refl
NoByte-has_byte c (x ∷ s) h = ground (arith, NoByte-has_byte c s h.1)

-- `xasprintf ("%s/%s", dir, name)`
unfoldable pub path_in : Bytes → Bytes → Bytes
path_in dir name = dir ++ text "/" ++ name
