-- ===== src/Update/Remove/Removal.antt =====
-- What an `act_remove` of src/update-binfmts.c that answers 1 can have done.
use debian_binfmt_support.Prelude.{
  false, ◌≡◌, ◌≢◌, ◌⊎◌, Option, none, some, Bytes, str_eq, if◌then◌else◌,
}
use debian_binfmt_support.Os.{unlinked}
use debian_binfmt_support.Error.{kind_is_file, kind_exists, kind_is_directory}
use debian_binfmt_support.KvHash.Laws.{view}
use debian_binfmt_support.Format.{Binfmt}
use debian_binfmt_support.Update.Base.{Env, Config, State}
use debian_binfmt_support.Update.Database.{admindir_name, procdir_name}
use debian_binfmt_support.Update.Database.Directory.{known_of}
use debian_binfmt_support.Update.Disable.Gone.{TellsAtMost}

-- The package may remove what is known of the name: nothing, or a format of its own.
abbrev pub Owns : Bytes → Option (Option Binfmt) → Type 0
Owns p known = (known ≡ none) ⊎ ((old : Binfmt) × (known ≡ some (some old)) × (old.pkg ≡ some p))

-- What is known of the name is a format of another package.
abbrev pub OwnedByOther : Bytes → Option (Option Binfmt) → Type 0
OwnedByOther p known =
    (old : Binfmt) × ((q : Bytes) × (known ≡ some (some old)) × (old.pkg ≡ some q) × (p ≢ q))

module _ (E : Env) (c : Config) (name p : Bytes) where
  -- What the call has done, from the first state to the last.
  pub data Removal (m m' : State E) : Type 0 where
    not_installed :
        kind_is_file (E.os.stat m.sys (admindir_name E c name)) ≡ false
        → m'.sys ≡ m.sys
        → m'.table ≡ m.table
        → Removal m m'
    left_alone :
        OwnedByOther p (known_of E c name m)
        → m'.sys ≡ m.sys
        → ((j : Bytes) → j ≢ name → view E.formats m'.table j ≡ view E.formats m.table j)
        → Removal m m'
    -- `s` is the system as the file is unlinked: at most, the kernel was told to drop the entry.
    removed :
        (s : E.os.State)
        → TellsAtMost E c name m.sys s
        → Owns p (known_of E c name m)
        → (kind_is_directory (E.os.stat m.sys c.paths.procdir) ≡ false)
          ⊎ (kind_exists (E.os.stat s (procdir_name E c name)) ≡ false)
        → E.os.unlink (admindir_name E c name) s ≡ (unlinked, m'.sys)
        → ((j : Bytes)
            → view E.formats m'.table j
              ≡ (if str_eq j name then none else view E.formats m.table j))
        → Removal m m'
