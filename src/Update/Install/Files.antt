-- ===== src/Update/Install/Files.antt =====
-- The administrative file behind the whole of `act_install` of src/update-binfmts.c.
use debian_binfmt_support.Prelude.{
  text, ◌++◌, Bool, true, false, ◌≡◌, refl, ◌⊎◌, inl, inr, Bool-cases, some, Bytes, if◌then◌else◌,
}
use debian_binfmt_support.Action.{Outcome, done, exited, crashed, pure, continue, ◌>>=◌}
use debian_binfmt_support.Action.Keeps.{Keeps}
use debian_binfmt_support.Action.Grants.{Grants, grants_rules}
use debian_binfmt_support.Error.{observe, warning, kind_exists}
use debian_binfmt_support.Paths.{Paths}
use debian_binfmt_support.Format.{Binfmt}
use debian_binfmt_support.Format.Load.{binfmt_load}
use debian_binfmt_support.Format.Write.{file_text}
use debian_binfmt_support.Format.RoundTrip.{
  IsOneLine, stored, binfmt_load-read, read_fields-file_text,
}
use debian_binfmt_support.Update.Base.{Env, State, program_name, exists}
use debian_binfmt_support.Update.Base.Files.{FileIs, IsApart, file_rules}
use debian_binfmt_support.Update.Base.Tables.{wet}
use debian_binfmt_support.Update.Enable.Files.{enable_name-FileIs}
use debian_binfmt_support.Update.Database.{admindir_name, procdir_name}
use debian_binfmt_support.Update.Install.{record_format, enable_new, install_disabled, act_install}
use debian_binfmt_support.Update.Install.Foreign.{warned}
use debian_binfmt_support.Update.Install.Save.{DiskWorks, save-moves}

abbrev pub manual_entry : Bytes → Paths → Bytes
manual_entry name paths =
    text "found manually created entry for "
    ++ name
    ++ text " in "
    ++ paths.procdir
    ++ text "; leaving it alone"

-- `act_install` has ended with this warning, where the kernel has an entry of the name.
abbrev pub LeftAlone : (E : Env) → Paths → Bytes → State E → Type 0
LeftAlone E paths name m =
    (before : State E) × (kind_exists (E.os.stat before.sys (procdir_name E (wet paths) name))
      ≡ true)
    × (m ≡ warned E (manual_entry name paths) before)

module _ (E : Env) (paths : Paths) (name : Bytes) (W : DiskWorks E (wet paths) name) (b : Binfmt)
    (A : IsApart E (wet paths) (admindir_name E (wet paths) name)) where
  -- An entry of the kernel was left alone, which was the last that happened, or the administrative
  -- file holds the description.
  abbrev Recorded : State E → Type 0
  Recorded m =
      LeftAlone E paths name m ⊎ FileIs E (admindir_name E (wet paths) name) (some (file_text b)) m

  enable_new-FileIs :
      Keeps
        (FileIs E (admindir_name E (wet paths) name) (some (file_text b)))
        (enable_new E (wet paths) name (some b))
  unfolding enable_new
  enable_new-FileIs = search (file_rules, enable_name-FileIs E (wet paths) A) depth 12

  saved_then :
      (r : Outcome Bool) (m : State E)
      → (r ≡ done true → FileIs E (admindir_name E (wet paths) name) (some (file_text b)) m)
      → (continue r
          (λ recorded. if recorded then enable_new E (wet paths) name (some b) else pure false)
          m).0
        ≡ done true
      → Recorded
          (continue r
            (λ recorded. if recorded then enable_new E (wet paths) name (some b) else pure false)
            m).1
  unfolding pure
  saved_then (done true) m h e = inr (enable_new-FileIs.at m (h refl))
  saved_then (done false) m h e = cc
  saved_then (exited n) m h e = cc
  saved_then crashed m h e = cc

  install_disabled-Recorded : Grants Recorded (install_disabled E (wet paths) name (some b))
  unfolding install_disabled record_format ◌>>=◌ exists observe warning
  install_disabled-Recorded = record {
    at = λ m e.
        elim (Bool-cases (kind_exists (E.os.stat m.sys (procdir_name E (wet paths) name)))) [
          | inl there ↦ rw there (inl (m, there, refl))
          | inr absent ↦ rw absent (
              saved_then _ _ (λ w. record { reads = save-moves E (wet paths) name W b m w })
                (rw absent at e))
        ];
  }

  act_install-Recorded : Grants Recorded (act_install E (wet paths) name (some b))
  unfolding act_install
  act_install-Recorded = search (grants_rules, install_disabled-Recorded) depth 14

-- Without --test, if act_install answers 1 for a description with no newline in a field, then
-- binfmt_load of the administrative file gives that description, stored, when the call ends; the
-- one other way to answer 1 is that the kernel still had an entry of the name, made by hand, and
-- the call ended with the warning that it is left alone. The administrative file and the one
-- beside it have to be on a disk, and the former is not changed by writes to the register and the
-- status file of binfmt_misc, by modprobe or by mount.
pub act_install_loads :
    (E : Env)
    → (paths : Paths) (name : Bytes) (b : Binfmt) (quiet : Bool) (m : State E)
    → DiskWorks E (wet paths) name
    → IsApart E (wet paths) (admindir_name E (wet paths) name)
    → IsOneLine b
    → (act_install E (wet paths) name (some b) m).0 ≡ done true
    → LeftAlone E paths name (act_install E (wet paths) name (some b) m).1
      ⊎ (binfmt_load E.os program_name name
            (admindir_name E (wet paths) name)
            quiet
            (act_install E (wet paths) name (some b) m).1
          ≡ (done (some (stored name b)), (act_install E (wet paths) name (some b) m).1))
act_install_loads E paths name b quiet m W A lines h =
    elim ((act_install-Recorded E paths name W b A).at m h) [
      | inl left ↦ inl left
      | inr file ↦ inr (
          binfmt_load-read E.os program_name name _ (file_text b) quiet (stored name b) _ file.reads
            (read_fields-file_text name b lines))
    ]
