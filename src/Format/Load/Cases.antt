-- ===== src/Format/Load/Cases.antt =====
-- The three ways in which `binfmt_load` of src/format.c ends.
use debian_binfmt_support.Prelude.{◌≡◌, refl, Bool, true, false, Option, none, some, Bytes}
use debian_binfmt_support.Action.{Outcome, done, exited, ◌>>=◌}
use debian_binfmt_support.Os.{Os, Machine}
use debian_binfmt_support.Error.{quit, quit_err}
use debian_binfmt_support.Format.{Binfmt}
use debian_binfmt_support.Format.Fields.{Read, got, missing_field, read_fields}
use debian_binfmt_support.Format.Load.{binfmt_load, loaded, opened}

-- The description that a text holds, if no line of it is missing.
abbrev pub got_one : Read Binfmt → Option Binfmt
got_one (got b) = some b
got_one (missing_field field) = none

-- The description in a file, if it opens.
abbrev pub held_in : Bytes → Option Bytes → Option Binfmt
held_in name none = none
held_in name (some file) = got_one (read_fields name file)

-- A run of `binfmt_load` that finds `held`.
pub data Loading {S : Type 0} (held : Option Binfmt) (quiet : Bool) (m : S)
    (r : Outcome (Option Binfmt) × S) : Type 0 where
  gives : (b : Binfmt) → held ≡ some b → r ≡ (done (some b), m) → Loading held quiet m r
  skips : held ≡ none → quiet ≡ true → r ≡ (done none, m) → Loading held quiet m r
  fails : held ≡ none → r.0 ≡ exited 2 → Loading held quiet m r

module _ (os : Os) (program_name : Bytes) {T : Type 0} (m : Machine os.State T) where
  loaded-Loading :
      (filename : Bytes) (quiet : Bool) (r : Read Binfmt)
      → Loading (got_one r) quiet m (loaded os program_name filename quiet r m)
  unfolding loaded quit ◌>>=◌
  loaded-Loading filename quiet (got b) = gives b refl refl
  loaded-Loading filename true (missing_field field) = skips refl refl refl
  loaded-Loading filename false (missing_field field) = fails refl refl

  opened-Loading :
      (name filename : Bytes) (quiet : Bool) (file : Option Bytes)
      → Loading (held_in name file) quiet m (opened os program_name name filename quiet file m)
  unfolding opened quit_err ◌>>=◌
  opened-Loading name filename quiet none = fails refl refl
  opened-Loading name filename quiet (some file) = loaded-Loading filename quiet _

  pub binfmt_load-Loading :
      (name filename : Bytes) (quiet : Bool)
      → Loading
          (held_in name (os.read m.sys filename))
          quiet
          m
          (binfmt_load os program_name name filename quiet m)
  unfolding binfmt_load ◌>>=◌
  binfmt_load-Loading name filename quiet = opened-Loading name filename quiet _
