-- ===== src/Error.antt =====
-- src/error.c: messages on stderr, and the exits with status 2. The two programs differ in
-- `program_name` alone. The calls of `Os` that need the whole state are lifted here too.
pub mod Laws
pub mod Tables
use debian_binfmt_support.Prelude.{
  ℕ, Bool, true, false, Option, none, some, List, [], ◌∷◌, ◌++◌, Bytes, text,
}
use debian_binfmt_support.Action.{Outcome, done, Action, pure, exit, gets, call, ◌>>=◌, ◌>>◌}
use debian_binfmt_support.Os.{Os, FileKind, missing, regular, directory, other, Machine}

module _ {S T : Type 0} where
  -- `printf`
  unfoldable pub print : Bytes → Action (Machine S T) (Unit {0})
  print s = call λ m. (tt, record m { out = m.out ++ s })

  -- `fprintf (stderr, ...)`
  unfoldable pub complain : Bytes → Action (Machine S T) (Unit {0})
  complain s = call λ m. (tt, record m { err = m.err ++ s })

  -- A call that changes the system alone.
  unfoldable pub system : {A : Type 0} → (S → A × S) → Action (Machine S T) A
  system f = call λ m. let (a, s) = f m.sys in (a, record m { sys = s })

  -- A call that reads the system alone.
  unfoldable pub observe : {A : Type 0} → (S → A) → Action (Machine S T) A
  observe f = gets λ m. f m.sys

-- What `exists`, `is_file` and `is_directory` of update-binfmts.c ask of `stat`.
abbrev pub kind_exists : FileKind → Bool
kind_exists missing = false
kind_exists _ = true

abbrev pub kind_is_file : FileKind → Bool
kind_is_file regular = true
kind_is_file _ = false

abbrev pub kind_is_directory : FileKind → Bool
kind_is_directory directory = true
kind_is_directory _ = false

module _ (os : Os) (program_name : Bytes) {T : Type 0} where
  unfoldable pub warning : Bytes → Action (Machine os.State T) (Unit {0})
  unfolding complain
  warning message = complain (program_name ++ text ": warning: " ++ message ++ text "\n")

  unfoldable pub warning_err : Bytes → Action (Machine os.State T) (Unit {0})
  unfolding complain observe
  warning_err message = do
    e ← observe os.strerror
    complain (program_name ++ text ": warning: " ++ message ++ text ": " ++ e ++ text "\n")

  unfoldable pub quit : {A : Type 0} → Bytes → Action (Machine os.State T) A
  unfolding complain
  quit message = do complain (program_name ++ text ": " ++ message ++ text "\n"); exit 2

  unfoldable pub quit_err : {A : Type 0} → Bytes → Action (Machine os.State T) A
  unfolding complain observe
  quit_err message = do
    e ← observe os.strerror
    complain (program_name ++ text ": " ++ message ++ text ": " ++ e ++ text "\n")
    exit 2
