-- ===== src/Update/Disable/Gone.antt =====
-- The entry of the kernel behind `act_disable` of src/update-binfmts.c.
use debian_binfmt_support.Prelude.{
  true, false, ◌≡◌, refl, ◌⊎◌, inl, inr, Bool-cases, text, arith, Bytes,
}
use debian_binfmt_support.Action.{done, ◌>>=◌}
use debian_binfmt_support.Os.{Written, written, not_opened, not_closed}
use debian_binfmt_support.Error.{
  observe, system, print, warning, warning_err, kind_exists, kind_is_directory,
}
use debian_binfmt_support.Update.Base.{Env, Config, State, exists, is_directory}
use debian_binfmt_support.Update.Database.{procdir_name}
use debian_binfmt_support.Update.Disable.{told, disable_present, disable_name}

module _ (E : Env) (c : Config) (name : Bytes) where
  abbrev pub Gone : State E → Type 0
  Gone m = kind_exists (E.os.stat m.sys (procdir_name E c name)) ≡ false

  told-Gone :
      (w : Written) (m : State E)
      → (told E c (procdir_name E c name) w m).0 ≡ done true
      → Gone (told E c (procdir_name E c name) w m).1
  unfolding told ◌>>=◌ exists observe warning warning_err
  told-Gone not_opened m h = cc
  told-Gone not_closed m h = cc
  told-Gone written m h = ground arith

  present-Gone :
      (m : State E)
      → c.test ≡ false
      → (disable_present E c name m).0 ≡ done true
      → Gone (disable_present E c name m).1
  unfolding disable_present ◌>>=◌ system
  present-Gone m real h =
      rw (real, disable_present) (told-Gone _ _ (rw (real, disable_present) at h))

  -- Without `--test`, if `act_disable` returns 1 for a name then either the directory of
  -- binfmt_misc was not there, or there is no entry of the name in it when the call ends.
  pub disable_name-Gone :
      (m : State E)
      → c.test ≡ false
      → (disable_name E c name m).0 ≡ done true
      → (kind_is_directory (E.os.stat m.sys c.paths.procdir) ≡ false)
        ⊎ Gone (disable_name E c name m).1
  unfolding disable_name ◌>>=◌ exists is_directory observe system
  disable_name-Gone m real h = ground (arith, present-Gone m real)

  -- What it does to the system, if anything, is to write -1 to the entry.
  abbrev pub TellsAtMost : E.os.State → E.os.State → Type 0
  TellsAtMost s s' = (s' ≡ s) ⊎ (s' ≡ (E.os.write (procdir_name E c name) (text "-1") s).1)

  told-sys : (w : Written) (m : State E) → (told E c (procdir_name E c name) w m).1.sys ≡ m.sys
  unfolding told ◌>>=◌ exists observe warning warning_err
  told-sys not_opened m = refl
  told-sys not_closed m = refl
  told-sys written m = ground arith

  present-TellsAtMost : (m : State E) → TellsAtMost m.sys (disable_present E c name m).1.sys
  unfolding disable_present ◌>>=◌ system print
  present-TellsAtMost m = elim (Bool-cases c.test) [
    | inl test ↦ inl (rw (test, disable_present) refl)
    | inr real ↦ inr (rw (real, disable_present) (told-sys _ _))
  ]

  pub disable_name-TellsAtMost : (m : State E) → TellsAtMost m.sys (disable_name E c name m).1.sys
  unfolding disable_name ◌>>=◌ exists is_directory observe
  disable_name-TellsAtMost m =
      elim (Bool-cases (kind_is_directory (E.os.stat m.sys c.paths.procdir))) [
        | inr away ↦ inl (rw away refl)
        | inl mounted ↦ elim (Bool-cases (kind_exists (E.os.stat m.sys (procdir_name E c name)))) [
          | inr absent ↦ inl (rw (mounted, absent) refl)
          | inl there ↦ rw (mounted, there) (present-TellsAtMost m)
        ]
      ]
