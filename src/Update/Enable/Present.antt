-- ===== src/Update/Enable/Present.antt =====
-- The entry of the kernel behind `act_enable` of src/update-binfmts.c.
use debian_binfmt_support.Prelude.{
  ◌≡◌, refl, ◌⊎◌, inl, inr, Bool, true, false, Option, none, some, Bytes, text, ◌++◌, ap, NoByte,
  Bool-cases, if◌then◌else◌,
}
use debian_binfmt_support.Action.{Outcome, done, pure, ◌>>=◌, ◌>>◌}
use debian_binfmt_support.Action.Inversion.{bind-Returned}
use debian_binfmt_support.Action.Grants.{Grants, grants_rules, Grants-crash, Grants-then}
use debian_binfmt_support.Os.{Written, written, not_opened, not_closed}
use debian_binfmt_support.Error.{system, observe, warning, warning_err, kind_exists}
use debian_binfmt_support.Paths.{Paths}
use debian_binfmt_support.Format.{Binfmt}
use debian_binfmt_support.Update.Base.{Env, State, path_register, warn, exists}
use debian_binfmt_support.Update.Base.Tables.{wet}
use debian_binfmt_support.Update.Kernel.{load_binfmt_misc}
use debian_binfmt_support.Update.Database.{procdir_name}
use debian_binfmt_support.Update.Enable.{
  regstring, registered, send, with_type, register, enable_absent, enable_name,
}

-- The kernel has an entry of the name.
abbrev pub HasEntry : (E : Env) → Paths → Bytes → State E → Type 0
HasEntry E paths name m = kind_exists (E.os.stat m.sys (procdir_name E (wet paths) name)) ≡ true

-- A line that the kernel takes, for a name with no colon, makes an entry of that name.
pub record Registers (E : Env) (paths : Paths) : Type 0 where
  pub registers :
      (name : Bytes) (b : Binfmt) (type interpreter : Bytes) (s : E.os.State)
      → NoByte b':' name
      → (E.os.write (path_register (wet paths)) (regstring name b type interpreter) s).0 ≡ written
      → kind_exists (
          E.os.stat
            (E.os.write (path_register (wet paths)) (regstring name b type interpreter) s).1
            (procdir_name E (wet paths) name))
        ≡ true

module _ (E : Env) (paths : Paths) (R : Registers E paths) (name : Bytes)
    (plain : NoByte b':' name) where
  registered-HasEntry :
      (w : Written) (m : State E)
      → (w ≡ written → HasEntry E paths name m)
      → (registered E (wet paths) w m).0 ≡ done true
      → HasEntry E paths name (registered E (wet paths) w m).1
  unfolding registered ◌>>=◌ warning_err
  registered-HasEntry written m h e = h refl
  registered-HasEntry not_opened m h e = cc
  registered-HasEntry not_closed m h e = cc

  send-HasEntry :
      (b : Binfmt) (type interpreter : Bytes)
      → Grants (HasEntry E paths name) (send E (wet paths) name (regstring name b type interpreter))
  unfolding send ◌>>=◌ system
  send-HasEntry b type interpreter = record {
    at = λ m e. registered-HasEntry _ _ (R.registers name b type interpreter m.sys plain) e;
  }

  with_type-HasEntry :
      (b : Binfmt) (type : Option Bytes)
      → Grants (HasEntry E paths name) (with_type E (wet paths) name b type)
  unfolding with_type
  with_type-HasEntry b none = Grants-crash
  with_type-HasEntry b (some type) = Grants-then _ _ (λ need. send-HasEntry b type _)

  register-HasEntry :
      (b : Option Binfmt) → Grants (HasEntry E paths name) (register E (wet paths) name b)
  unfolding register
  register-HasEntry none = Grants-crash
  register-HasEntry (some b) = with_type-HasEntry b b.type

  enable_absent-HasEntry : Grants (HasEntry E paths name) (enable_absent E (wet paths) name)
  unfolding enable_absent
  enable_absent-HasEntry = search (grants_rules, register-HasEntry)

  -- From the test for an entry on.
  absent_or_there : Grants (HasEntry E paths name) (
      exists E (procdir_name E (wet paths) name) >>= λ there.
      if there
      then warn E (name ++ text " already enabled in kernel.") >> pure true
      else enable_absent E (wet paths) name)
  unfolding ◌>>=◌ exists observe warning
  absent_or_there = record {
    at = λ m e.
        elim (Bool-cases (kind_exists (E.os.stat m.sys (procdir_name E (wet paths) name)))) [
          | inl there ↦ rw there there
          | inr absent ↦ rw absent (enable_absent-HasEntry.at m (rw absent at e))
        ];
  }

  -- Without --test, if act_enable answers 1 for a name with no colon, then either binfmt_misc could
  -- not be loaded, or the kernel has an entry of the name when the call ends.
  pub enable_name-HasEntry :
      (m : State E)
      → (enable_name E (wet paths) name m).0 ≡ done true
      → ((load_binfmt_misc E (wet paths) m).0 ≡ done false)
        ⊎ HasEntry E paths name (enable_name E (wet paths) name m).1
  unfolding enable_name ◌>>=◌
  enable_name-HasEntry m h =
      let r = bind-Returned _ (load_binfmt_misc E (wet paths)) m h in
      by_answer r.value r.state r.ran
    where
      by_answer :
          (loaded : Bool) (m1 : State E)
          → load_binfmt_misc E (wet paths) m ≡ (done loaded, m1)
          → ((load_binfmt_misc E (wet paths) m).0 ≡ done false)
            ⊎ HasEntry E paths name (enable_name E (wet paths) name m).1
      by_answer false m1 ran = inl (ap (λ (x : Outcome Bool × State E). x.0) ran)
      by_answer true m1 ran = inr (rw ran (absent_or_there.at m1 (rw ran at h)))
