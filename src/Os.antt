-- ===== src/Os.antt =====
-- The operating system that the programs call: files, directories, the kernel behind
-- /proc/sys/fs/binfmt_misc, other programs. None of it is in the repository, so it is a
-- parameter; a state type stands for all that a call can see and change.
pub mod Memory
use debian_binfmt_support.Prelude.{
  ℕ, Bool, true, false, Option, some, List, [], ◌∷◌, Bytes, text, ◌≡◌, ◌≢◌,
}

-- What `stat` finds at a path.
pub data FileKind : Type 0 where
  missing regular directory other : FileKind

-- `fopen (path, "w")`, buffered output, `fclose`: where it failed, if it did.
pub data Written : Type 0 where
  written not_opened not_closed : Written

-- `unlink`, with the one error that the program tells from the others.
pub data Unlinked : Type 0 where
  unlinked no_entry refused : Unlinked

pub record Os : Type 1 where
  pub State : Type 0
  pub stat : State → Bytes → FileKind
  -- `fopen (path, "r")` and all that can be read from it; `none` if it does not open.
  pub read : State → Bytes → Option Bytes
  pub write : Bytes → Bytes → State → Written × State
  pub unlink : Bytes → State → Unlinked × State
  -- `rename` succeeds?
  pub rename : Bytes → Bytes → State → Bool × State
  -- A pipeline of one command is run: its exit status.
  pub run : List Bytes → State → ℕ × State
  -- `!access (path, X_OK)`
  pub executable : State → Bytes → Bool
  -- `opendir`, and the names that `readdir` gives.
  pub list : State → Bytes → Option (List Bytes)
  -- `statfs` succeeds and finds `FUSE_SUPER_MAGIC`.
  pub on_fuse : State → Bytes → Bool
  -- `execvp` replaces the process?
  pub exec : Bytes → List Bytes → State → Bool × State
  -- `uname`'s `sysname`, and `isatty (STDERR_FILENO)`.
  pub sysname : State → Bytes
  pub stderr_tty : State → Bool
  -- `strerror (errno)`
  pub strerror : State → Bytes

-- What a process works on: the system, the table of formats, and what it has printed.
pub record Machine (S T : Type 0) : Type 0 where
  pub sys : S
  pub table : T
  pub out : Bytes
  pub err : Bytes

-- `path` is a file on a disk: what was written to it, as far as the program is told, is found and
-- read as it was written. The files of binfmt_misc are no such files.
pub record FilesWork (os : Os) (path : Bytes) : Type 0 where
  pub read-write :
      (t : Bytes) (s : os.State)
      → (os.write path t s).0 ≡ written
      → os.read (os.write path t s).1 path ≡ some t

-- What is relied on where the file at `from` takes the place of the one at `to`, both on a disk.
pub record ReplacingWorks (os : Os) (from to : Bytes) : Type 0 where
  pub files : FilesWork os from
  pub write-elsewhere : (t : Bytes) (s : os.State) → os.read (os.write from t s).1 to ≡ os.read s to
  pub unlink-elsewhere : (s : os.State) → os.read (os.unlink from s).1 to ≡ os.read s to
  pub rename-moves :
      (t : Bytes) (s : os.State)
      → os.read s from ≡ some t
      → (os.rename from to s).0 ≡ true
      → os.read (os.rename from to s).1 to ≡ some t
  pub rename-fails :
      (s : os.State)
      → (os.rename from to s).0 ≡ false
      → os.read (os.rename from to s).1 from ≡ os.read s from
  -- The program `mv`.
  pub mv-moves :
      (t : Bytes) (s : os.State)
      → os.read s from ≡ some t
      → (os.run (text "mv" ∷ from ∷ to ∷ []) s).0 ≡ 0
      → os.read (os.run (text "mv" ∷ from ∷ to ∷ []) s).1 to ≡ some t
