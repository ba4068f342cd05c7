-- ===== src/Format/RoundTrip.antt =====
-- `binfmt_write` and then `binfmt_load`, of src/format.c.
use debian_binfmt_support.Prelude.{
  Bool, true, ◌≡◌, refl, ◌∙◌, ap, arith, Option, none, some, [], ◌∷◌, ◌++◌, Bytes, text, NoByte,
  c_string, c_string_lem,
}
use debian_binfmt_support.Action.{done, ◌>>=◌}
use debian_binfmt_support.Os.{Os, FilesWork, Machine}
use debian_binfmt_support.Error.{warning_err}
use debian_binfmt_support.Format.{Binfmt, or_empty}
use debian_binfmt_support.Format.Lines.{
  getline, line_string, getline-append, trim_right-newline, IsTrimmed,
}
use debian_binfmt_support.Format.Fields.{got, read_required, read_optional, read_fields}
use debian_binfmt_support.Format.Load.{binfmt_load}
use debian_binfmt_support.Format.Write.{write_field, file_text, binfmt_write}

abbrev pub OneLine : Option Bytes → Type 0
OneLine field = NoByte b'\n' (or_empty field)

-- No field holds a newline.
pub record IsOneLine (b : Binfmt) : Type 0 where
  pub pkg_line : OneLine b.pkg
  pub type_line : OneLine b.type
  pub offset_line : OneLine b.offset
  pub magic_line : OneLine b.magic
  pub mask_line : OneLine b.mask
  pub interpreter_line : OneLine b.interpreter
  pub detector_line : OneLine b.detector
  pub credentials_line : OneLine b.credentials
  pub preserve_line : OneLine b.preserve

-- What a field is after it was written and read: a null pointer has become the empty string, and
-- white space at the end is gone.
abbrev pub stored_field : Option Bytes → Option Bytes
stored_field field = some (line_string (or_empty field))

pub stored : Bytes → Binfmt → Binfmt
stored name b = record {
  name = name;
  pkg = stored_field b.pkg;
  type = stored_field b.type;
  offset = stored_field b.offset;
  magic = stored_field b.magic;
  mask = stored_field b.mask;
  interpreter = stored_field b.interpreter;
  detector = stored_field b.detector;
  credentials = stored_field b.credentials;
  preserve = stored_field b.preserve;
}

getline-write_field :
    (field : Option Bytes) (rest : Bytes)
    → OneLine field
    → getline (write_field field rest) ≡ some (or_empty field ++ b'\n' ∷ [], rest)
unfolding text
getline-write_field field rest h = getline-append (or_empty field) rest h

line_string-newline : (s : Bytes) → line_string (s ++ b'\n' ∷ []) ≡ line_string s
line_string-newline s = ap c_string (trim_right-newline s)

read_required-write_field :
    (label : Bytes) (field : Option Bytes) (rest : Bytes)
    → OneLine field
    → read_required label (write_field field rest) ≡ got (line_string (or_empty field), rest)
unfolding read_required
read_required-write_field label field rest h =
    rw (getline-write_field field rest h, read_required) (rw (line_string-newline (or_empty field)))

read_optional-write_field :
    (field : Option Bytes) (rest : Bytes)
    → OneLine field
    → read_optional (write_field field rest) ≡ (line_string (or_empty field), rest)
unfolding read_optional
read_optional-write_field field rest h =
    rw (getline-write_field field rest h, read_optional) (rw (line_string-newline (or_empty field)))

pub read_fields-file_text :
    (name : Bytes) (b : Binfmt) → IsOneLine b → read_fields name (file_text b) ≡ got (stored name b)
unfolding read_fields file_text stored
read_fields-file_text name b h = rw (read_required-write_field _ b.pkg _ h.pkg_line) (
    rw (read_required-write_field _ b.type _ h.type_line) (
      rw (read_required-write_field _ b.offset _ h.offset_line) (
        rw (read_required-write_field _ b.magic _ h.magic_line) (
          rw (read_required-write_field _ b.mask _ h.mask_line) (
            rw (read_required-write_field _ b.interpreter _ h.interpreter_line) (
              rw (read_optional-write_field b.detector _ h.detector_line) (
                rw (read_optional-write_field b.credentials _ h.credentials_line)
                  (rw (read_optional-write_field b.preserve _ h.preserve_line) refl))))))))

-- A field that is stored as it is: set, with no NUL and no white space at its end.
abbrev Storable : Option Bytes → Type 0
Storable none = ⊥
Storable (some s) = IsTrimmed s × NoByte 0 s

stored_field-Storable : (field : Option Bytes) → Storable field → stored_field field ≡ field
stored_field-Storable none h = elim h [ ]
stored_field-Storable (some s) (trimmed, h) = ap some (ap c_string trimmed ∙ c_string_lem s h)

pub record IsStorable (b : Binfmt) : Type 0 where
  pub pkg_kept : Storable b.pkg
  pub type_kept : Storable b.type
  pub offset_kept : Storable b.offset
  pub magic_kept : Storable b.magic
  pub mask_kept : Storable b.mask
  pub interpreter_kept : Storable b.interpreter
  pub detector_kept : Storable b.detector
  pub credentials_kept : Storable b.credentials
  pub preserve_kept : Storable b.preserve

pub stored-IsStorable : (b : Binfmt) → IsStorable b → stored b.name b ≡ b
unfolding stored
stored-IsStorable b h = λ i. record {
  name = b.name;
  pkg = stored_field-Storable b.pkg h.pkg_kept i;
  type = stored_field-Storable b.type h.type_kept i;
  offset = stored_field-Storable b.offset h.offset_kept i;
  magic = stored_field-Storable b.magic h.magic_kept i;
  mask = stored_field-Storable b.mask h.mask_kept i;
  interpreter = stored_field-Storable b.interpreter h.interpreter_kept i;
  detector = stored_field-Storable b.detector h.detector_kept i;
  credentials = stored_field-Storable b.credentials h.credentials_kept i;
  preserve = stored_field-Storable b.preserve h.preserve_kept i;
}

module _ (os : Os) (program_name : Bytes) {T : Type 0} where
  pub binfmt_load-read :
      (name filename file : Bytes) (quiet : Bool) (b : Binfmt) (m : Machine os.State T)
      → os.read m.sys filename ≡ some file
      → read_fields name file ≡ got b
      → binfmt_load os program_name name filename quiet m ≡ (done (some b), m)
  unfolding binfmt_load ◌>>=◌
  binfmt_load-read name filename file quiet b m found parsed = ground arith

  -- If `binfmt_write` says that it has written a description with no newline in a field, then
  -- the file holds its text.
  pub read-binfmt_write :
      (b : Binfmt) (filename : Bytes) (m : Machine os.State T)
      → FilesWork os filename
      → (binfmt_write os program_name b filename m).0 ≡ done true
      → os.read (binfmt_write os program_name b filename m).1.sys filename ≡ some (file_text b)
  unfolding binfmt_write ◌>>=◌ warning_err
  read-binfmt_write b filename m files h =
      ground (arith, files.read-write (file_text b) (os.unlink filename m.sys).1)

  -- For a file on a disk, a description with no newline in a field that `binfmt_write` reports as written is read back
  -- by `binfmt_load`, quiet or not, with each null field empty, and each other field cut at its
  -- first NUL and at the white space that ends it; the load changes nothing.
  pub binfmt_load-binfmt_write :
      (b : Binfmt) (name filename : Bytes) (quiet : Bool) (m : Machine os.State T)
      → FilesWork os filename
      → IsOneLine b
      → (binfmt_write os program_name b filename m).0 ≡ done true
      → binfmt_load os program_name name filename quiet
          (binfmt_write os program_name b filename m).1
        ≡ (done (some (stored name b)), (binfmt_write os program_name b filename m).1)
  binfmt_load-binfmt_write b name filename quiet m files lines h =
      binfmt_load-read name filename (file_text b) quiet (stored name b) _
        (read-binfmt_write b filename m files h) (read_fields-file_text name b lines)
