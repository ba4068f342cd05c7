-- ===== src/Update/Base/Files.antt =====
-- The shared helpers of src/update-binfmts.c, and what one file holds.
use debian_binfmt_support.Prelude.{◌≡◌, refl, ap, ◌∙◌, Option, List, [], ◌∷◌, Bytes, text}
use debian_binfmt_support.Action.{◌>>=◌}
use debian_binfmt_support.Action.Keeps.{Keeps, keeps_rules, Keeps-call}
use debian_binfmt_support.Error.{system, print, observe, warning, warning_err}
use debian_binfmt_support.Error.Laws.{print-SysIs, observe-SysIs, warning-SysIs, warning_err-SysIs}
use debian_binfmt_support.Format.{Binfmt}
use debian_binfmt_support.Update.Base.{
  Env, Config, State, Act, program_name, path_register, path_status, exists, is_file, is_directory,
  access_x, runs, formats_exists, formats_lookup, formats_entries, formats_insert,
}
use debian_binfmt_support.Update.Base.Reads.{
  Still, exists-Still, is_file-Still, is_directory-Still, access_x-Still, formats_exists-Still,
  formats_lookup-Still, formats_entries-Still, formats_insert-Still,
}

-- The file at `path` opens and holds this text, or it does not open.
pub record FileIs (E : Env) (path : Bytes) (held : Option Bytes) (m : State E) : Type 0 where
  pub reads : E.os.read m.sys path ≡ held

-- `path` is none of the files that the kernel changes when it is told of a format: what is written
-- to the register and the status file of binfmt_misc is not found there, and the commands that
-- load the module and mount its file system leave it alone.
pub record IsApart (E : Env) (c : Config) (path : Bytes) : Type 0 where
  pub read-register :
      (t : Bytes) (s : E.os.State)
      → E.os.read (E.os.write (path_register c) t s).1 path ≡ E.os.read s path
  pub read-status :
      (t : Bytes) (s : E.os.State)
      → E.os.read (E.os.write (path_status c) t s).1 path ≡ E.os.read s path
  pub read-modprobe :
      (s : E.os.State)
      → E.os.read (E.os.run (text "/sbin/modprobe" ∷ text "-q" ∷ text "binfmt_misc" ∷ []) s).1 path
        ≡ E.os.read s path
  pub read-mount :
      (s : E.os.State)
      → E.os.read
          (E.os.run
            (text "/bin/mount"
              ∷ text "-t"
              ∷ text "binfmt_misc"
              ∷ text "-o"
              ∷ text "nodev,noexec,nosuid"
              ∷ text "binfmt_misc"
              ∷ c.paths.procdir
              ∷ [])
            s).1
          path
        ≡ E.os.read s path

module _ (E : Env) {path : Bytes} {held : Option Bytes} where
  -- An action that leaves the system alone leaves the file alone.
  pub Still-FileIs :
      {A : Type 0} (m : Act E A)
      → ((s : E.os.State) → Keeps (Still E s) m)
      → Keeps (FileIs E path held) m
  Still-FileIs m still = record {
    at = λ before h. record {
      reads =
          ap (λ (s : E.os.State). E.os.read s path) ((still before.sys).at before refl) ∙ h.reads;
    };
  }

  pub exists-FileIs : (name : Bytes) → Keeps (FileIs E path held) (exists E name)
  exists-FileIs name = Still-FileIs _ (λ s. exists-Still E name)

  pub is_file-FileIs : (name : Bytes) → Keeps (FileIs E path held) (is_file E name)
  is_file-FileIs name = Still-FileIs _ (λ s. is_file-Still E name)

  pub is_directory-FileIs : (name : Bytes) → Keeps (FileIs E path held) (is_directory E name)
  is_directory-FileIs name = Still-FileIs _ (λ s. is_directory-Still E name)

  pub access_x-FileIs : (name : Bytes) → Keeps (FileIs E path held) (access_x E name)
  access_x-FileIs name = Still-FileIs _ (λ s. access_x-Still E name)

  pub formats_exists-FileIs : (name : Bytes) → Keeps (FileIs E path held) (formats_exists E name)
  formats_exists-FileIs name = Still-FileIs _ (λ s. formats_exists-Still E name)

  pub formats_lookup-FileIs : (name : Bytes) → Keeps (FileIs E path held) (formats_lookup E name)
  formats_lookup-FileIs name = Still-FileIs _ (λ s. formats_lookup-Still E name)

  pub formats_entries-FileIs : Keeps (FileIs E path held) (formats_entries E)
  formats_entries-FileIs = Still-FileIs _ (λ s. formats_entries-Still E)

  pub formats_insert-FileIs :
      (name : Bytes) (b : Option Binfmt) → Keeps (FileIs E path held) (formats_insert E name b)
  formats_insert-FileIs name b = Still-FileIs _ (λ s. formats_insert-Still E name b)

  pub print-FileIs : (t : Bytes) → Keeps (FileIs E path held) (print t)
  print-FileIs t = Still-FileIs _ (λ s. print-SysIs t)

  pub observe-FileIs : {A : Type 0} (f : E.os.State → A) → Keeps (FileIs E path held) (observe f)
  observe-FileIs f = Still-FileIs _ (λ s. observe-SysIs f)

  pub warning-FileIs : (t : Bytes) → Keeps (FileIs E path held) (warning E.os program_name t)
  warning-FileIs t = Still-FileIs _ (λ s. warning-SysIs E.os program_name t)

  pub warning_err-FileIs :
      (t : Bytes) → Keeps (FileIs E path held) (warning_err E.os program_name t)
  warning_err-FileIs t = Still-FileIs _ (λ s. warning_err-SysIs E.os program_name t)

  pub write-FileIs :
      (to t : Bytes)
      → ((s : E.os.State) → E.os.read (E.os.write to t s).1 path ≡ E.os.read s path)
      → Keeps (FileIs E path held) (system (E.os.write to t))
  unfolding system
  write-FileIs to t apart = Keeps-call _ λ m h. record { reads = apart m.sys ∙ h.reads }

  pub runs-FileIs :
      (argv : List Bytes)
      → ((s : E.os.State) → E.os.read (E.os.run argv s).1 path ≡ E.os.read s path)
      → Keeps (FileIs E path held) (runs E argv)
  unfolding runs ◌>>=◌ system
  runs-FileIs argv apart = record { at = λ m h. record { reads = apart m.sys ∙ h.reads } }

pub ruleset file_rules = (
  keeps_rules, exists-FileIs, is_file-FileIs, is_directory-FileIs, access_x-FileIs,
  formats_exists-FileIs, formats_lookup-FileIs, formats_entries-FileIs, formats_insert-FileIs,
  print-FileIs, observe-FileIs, warning-FileIs, warning_err-FileIs,
)
