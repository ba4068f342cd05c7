-- ===== src/Os/Memory.antt =====
-- A system in memory: files, directories, programs by their exit status. It shows that what is
-- asked of an `Os` can be met, and it is the system of the tests.
use debian_binfmt_support.Prelude.{
  ℕ, Bool, true, false, Option, none, some, List, [], ◌∷◌, ◌≡◌, refl, ◌≢◌, arith, Bytes, text,
  str_eq, str_eq_iff, str_eq_refl, if◌then◌else◌,
}
use debian_binfmt_support.Os.{
  Os, FileKind, missing, regular, directory, Written, written, Unlinked, unlinked, no_entry,
  FilesWork, ReplacingWorks,
}

pub record Disk : Type 0 where
  pub files : List (Bytes × Bytes)
  pub dirs : List (Bytes × List Bytes)
  -- The commands that exit with status 0, by their program.
  pub passing : List Bytes
  -- The commands that were run.
  pub ran : List (List Bytes)

unfoldable pub lookup {ℓ} : {V : Type ℓ} → Bytes → List (Bytes × V) → Option V
lookup k [] = none
lookup k ((j, v) ∷ d) = if str_eq j k then some v else lookup k d

unfoldable pub erase : Bytes → List (Bytes × Bytes) → List (Bytes × Bytes)
erase k [] = []
erase k ((j, v) ∷ d) = let rest = erase k d in if str_eq j k then rest else (j, v) ∷ rest

unfoldable pub contains : Bytes → List Bytes → Bool
contains k [] = false
contains k (j ∷ d) = if str_eq j k then true else contains k d

kind_of : Option Bytes → Option (List Bytes) → FileKind
kind_of (some _) d = regular
kind_of none (some _) = directory
kind_of none none = missing

first_word : List Bytes → Bytes
first_word [] = []
first_word (w ∷ ws) = w

put_file : Bytes → Bytes → Disk → Written × Disk
put_file path t s = (written, record s { files = (path, t) ∷ erase path s.files })

unlink_file : Bytes → Disk → Unlinked × Disk
unlink_file path s = elim (lookup path s.files) [
  | none ↦ (no_entry, s)
  | some _ ↦ (unlinked, record s { files = erase path s.files })
]

rename_file : Bytes → Bytes → Disk → Bool × Disk
rename_file from to s = elim (lookup from s.files) [
  | none ↦ (false, s)
  | some t ↦ (true, record s { files = (to, t) ∷ erase to (erase from s.files) })
]

status_of : Bool × Disk → ℕ × Disk
status_of (true, s) = (0, s)
status_of (false, s) = (1, s)

-- A program that is there exits with status 0; `mv` moves a file.
passed : List Bytes → Disk → ℕ × Disk
passed (w ∷ from ∷ to ∷ []) s =
    if str_eq w (text "mv") then status_of (rename_file from to s) else (0, s)
passed argv s = (0, s)

run_command : List Bytes → Disk → ℕ × Disk
run_command argv s =
    let s' : Disk = record s { ran = argv ∷ s.ran } in
    if contains (first_word argv) s.passing then passed argv s' else (1, s')

unfoldable pub memory : Os
unfolding lookup erase contains kind_of first_word put_file unlink_file rename_file passed status_of
    run_command str_eq
memory = record {
  State = Disk;
  stat = λ s path. kind_of (lookup path s.files) (lookup path s.dirs);
  read = λ s path. lookup path s.files;
  write = put_file;
  unlink = unlink_file;
  rename = rename_file;
  run = run_command;
  executable = λ s path. contains path s.passing;
  list = λ s path. lookup path s.dirs;
  on_fuse = λ s path. false;
  exec = λ path argv s. (contains path s.passing, s);
  sysname = λ s. text "Linux";
  stderr_tty = λ s. false;
  strerror = λ s. text "Input/output error";
}

lookup_here : (path t : Bytes) (d : List (Bytes × Bytes)) → lookup path ((path, t) ∷ d) ≡ some t
unfolding lookup
lookup_here path t d = rw (str_eq_refl path) refl

lookup-erase :
    (path other' : Bytes) (d : List (Bytes × Bytes))
    → path ≢ other'
    → lookup other' (erase path d) ≡ lookup other' d
unfolding lookup erase
lookup-erase path other' [] ne = refl
lookup-erase path other' ((j, v) ∷ d) ne =
    ground (arith, lookup-erase path other' d ne, str_eq_iff j path, str_eq_iff j other')

lookup_elsewhere :
    (path other' t : Bytes) (d : List (Bytes × Bytes))
    → path ≢ other'
    → lookup other' ((path, t) ∷ erase path d) ≡ lookup other' d
unfolding lookup
lookup_elsewhere path other' t d ne =
    ground (arith, lookup-erase path other' d ne, str_eq_iff path other')

pub memory-FilesWork : (path : Bytes) → FilesWork memory path
unfolding memory
memory-FilesWork path = record { read-write = λ t s h. lookup_here path t (erase path s.files) }

rename_file-moves :
    (from to t : Bytes) (s : Disk)
    → lookup from s.files ≡ some t
    → lookup to (rename_file from to s).1.files ≡ some t
unfolding rename_file lookup
rename_file-moves from to t s there =
    rw (rename_file, there) (lookup_here to t (erase to (erase from s.files)))

rename_file-fails :
    (from to : Bytes) (s : Disk)
    → (rename_file from to s).0 ≡ false
    → lookup from (rename_file from to s).1.files ≡ lookup from s.files
unfolding rename_file
rename_file-fails from to s h = ground arith

unlink_file-elsewhere :
    (path other' : Bytes) (s : Disk)
    → path ≢ other'
    → lookup other' (unlink_file path s).1.files ≡ lookup other' s.files
unfolding unlink_file
unlink_file-elsewhere path other' s ne = ground (arith, lookup-erase path other' s.files ne)

status_of-moved :
    (r : Bool × Disk) (to t : Bytes)
    → lookup to r.1.files ≡ some t
    → lookup to (status_of r).1.files ≡ some t
unfolding status_of
status_of-moved (true, s) to t h = h
status_of-moved (false, s) to t h = h

run_command-mv :
    (from to t : Bytes) (s : Disk)
    → lookup from s.files ≡ some t
    → (run_command (text "mv" ∷ from ∷ to ∷ []) s).0 ≡ 0
    → lookup to (run_command (text "mv" ∷ from ∷ to ∷ []) s).1.files ≡ some t
unfolding run_command first_word passed
run_command-mv from to t s there h =
    let s' : Disk = record s { ran = (text "mv" ∷ from ∷ to ∷ []) ∷ s.ran } in
    ground (
      arith,
      status_of-moved (rename_file from to s') to t (rename_file-moves from to t s' there),
      str_eq_refl (text "mv"),
    )

pub memory-ReplacingWorks : (from to : Bytes) → from ≢ to → ReplacingWorks memory from to
unfolding memory
memory-ReplacingWorks from to ne = record {
  files = memory-FilesWork from;
  write-elsewhere = λ t s. lookup_elsewhere from to t s.files ne;
  unlink-elsewhere = λ s. unlink_file-elsewhere from to s ne;
  rename-moves = λ t s there h. rename_file-moves from to t s there;
  rename-fails = λ s h. rename_file-fails from to s h;
  mv-moves = λ t s there h. run_command-mv from to t s there h;
}
