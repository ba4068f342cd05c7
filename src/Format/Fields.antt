-- ===== src/Format/Fields.antt =====
-- The reads of `binfmt_load` in src/format.c, on the text of the file.
pub mod Full
use debian_binfmt_support.Prelude.{none, some, [], Bytes, text}
use debian_binfmt_support.Format.{Binfmt}
use debian_binfmt_support.Format.Lines.{getline, line_string}

-- What a `READ_LINE` gives: a value, or the name of the field that was not there.
pub data Read (A : Type 0) : Type 0 where
  got : A → Read A
  missing_field : Bytes → Read A

infixl 10 ◌>>=◌
abbrev ◌>>=◌ : {A B : Type 0} → Read A → (A → Read B) → Read B
got a >>= f = f a
missing_field s >>= f = missing_field s

-- `READ_LINE (field, 0)`
unfoldable pub read_required : Bytes → Bytes → Read (Bytes × Bytes)
read_required field file = elim (getline file) [
  | none ↦ missing_field field
  | some (line, rest) ↦ got (line_string line, rest)
]

-- `READ_LINE (field, 1)`
unfoldable pub read_optional : Bytes → Bytes × Bytes
read_optional file = elim (getline file) [
  | none ↦ ([], file)
  | some (line, rest) ↦ (line_string line, rest)
]

unfoldable pub read_fields : Bytes → Bytes → Read Binfmt
read_fields name f0 = do
  (pkg, f1) ← read_required (text "package") f0
  (type, f2) ← read_required (text "type") f1
  (offset, f3) ← read_required (text "offset") f2
  (magic, f4) ← read_required (text "magic") f3
  (mask, f5) ← read_required (text "mask") f4
  (interpreter, f6) ← read_required (text "interpreter") f5
  let (detector, f7) = read_optional f6
  let (credentials, f8) = read_optional f7
  let (preserve, f9) = read_optional f8
  got (record {
    name = name;
    pkg = some pkg;
    type = some type;
    offset = some offset;
    magic = some magic;
    mask = some mask;
    interpreter = some interpreter;
    detector = some detector;
    credentials = some credentials;
    preserve = some preserve;
  })
