-- ===== src/Update/Enable/Files.antt =====
-- `act_enable` of src/update-binfmts.c, and the files that it leaves alone.
use debian_binfmt_support.Prelude.{Bool, ◌≡◌, refl, Option, none, some, Bytes}
use debian_binfmt_support.Action.Keeps.{Keeps, Keeps-pure, Keeps-crash, Keeps-each_worked}
use debian_binfmt_support.Os.{Written, written, not_opened, not_closed}
use debian_binfmt_support.Format.{Binfmt}
use debian_binfmt_support.Update.Base.{Env, Config, State}
use debian_binfmt_support.Update.Base.Files.{
  FileIs, IsApart, Still-FileIs, write-FileIs, file_rules,
}
use debian_binfmt_support.Update.Kernel.Files.{load_binfmt_misc-FileIs}
use debian_binfmt_support.Update.Database.{load_format, load_all_formats}
use debian_binfmt_support.Update.Database.Reads.{load_format-Still, load_all_formats-Still}
use debian_binfmt_support.Update.Enable.{
  known_answer, needs_detector, registered, send, with_type, register, enable_absent, enable_name,
  enable_if_absent, enable_all, act_enable,
}

module _ (E : Env) (c : Config) {path : Bytes} {held : Option Bytes} where
  load_format-FileIs :
      (name : Bytes) (quiet : Bool) → Keeps (FileIs E path held) (load_format E c name quiet)
  load_format-FileIs name quiet = Still-FileIs E _ (λ s. load_format-Still E c name quiet)

  load_all_formats-FileIs : (quiet : Bool) → Keeps (FileIs E path held) (load_all_formats E c quiet)
  load_all_formats-FileIs quiet = Still-FileIs E _ (λ s. load_all_formats-Still E c quiet)

  known_answer-FileIs : (o : Option Bool) → Keeps (FileIs E path held) (known_answer E c o)
  unfolding known_answer
  known_answer-FileIs none = Keeps-crash
  known_answer-FileIs (some b) = Keeps-pure _

  needs_detector-FileIs :
      (name : Bytes) (b : Binfmt) → Keeps (FileIs E path held) (needs_detector E c name b)
  unfolding needs_detector
  needs_detector-FileIs name b = search (file_rules, load_all_formats-FileIs, known_answer-FileIs)

  registered-FileIs : (w : Written) → Keeps (FileIs E path held) (registered E c w)
  unfolding registered
  registered-FileIs written = Keeps-pure _
  registered-FileIs not_opened = search file_rules
  registered-FileIs not_closed = search file_rules

module _ (E : Env) (c : Config) {path : Bytes} (A : IsApart E c path) {held : Option Bytes} where
  send-FileIs : (name string : Bytes) → Keeps (FileIs E path held) (send E c name string)
  unfolding send
  send-FileIs name string =
      search (file_rules, registered-FileIs, write-FileIs E _ _ (A.read-register string))

  with_type-FileIs :
      (name : Bytes) (b : Binfmt) (type : Option Bytes)
      → Keeps (FileIs E path held) (with_type E c name b type)
  unfolding with_type
  with_type-FileIs name b none = Keeps-crash
  with_type-FileIs name b (some type) = search (file_rules, needs_detector-FileIs, send-FileIs)

  register-FileIs :
      (name : Bytes) (b : Option Binfmt) → Keeps (FileIs E path held) (register E c name b)
  unfolding register
  register-FileIs name none = Keeps-crash
  register-FileIs name (some b) = with_type-FileIs name b b.type

  enable_absent-FileIs : (name : Bytes) → Keeps (FileIs E path held) (enable_absent E c name)
  unfolding enable_absent
  enable_absent-FileIs name = search (file_rules, load_format-FileIs, register-FileIs)

  pub enable_name-FileIs : (name : Bytes) → Keeps (FileIs E path held) (enable_name E c name)
  unfolding enable_name
  enable_name-FileIs name =
      search (file_rules, load_binfmt_misc-FileIs E c A, enable_absent-FileIs) depth 12

  enable_if_absent-FileIs : (name : Bytes) → Keeps (FileIs E path held) (enable_if_absent E c name)
  unfolding enable_if_absent
  enable_if_absent-FileIs name = search (file_rules, enable_name-FileIs)

  enable_all-FileIs : Keeps (FileIs E path held) (enable_all E c)
  unfolding enable_all
  enable_all-FileIs =
      search
        (
          file_rules,
          load_binfmt_misc-FileIs E c A,
          load_all_formats-FileIs,
          Keeps-each_worked,
          enable_if_absent-FileIs,
        )
        depth 12

  act_enable-FileIs : (name : Option Bytes) → Keeps (FileIs E path held) (act_enable E c name)
  unfolding act_enable
  act_enable-FileIs none = enable_all-FileIs
  act_enable-FileIs (some name) = enable_name-FileIs name

-- However act_enable ends, with a name or without, a file holds what it held if writes to the
-- register and the status file of binfmt_misc, modprobe and mount leave it alone, as they do the
-- administrative files: it does nothing else to files.
pub read-act_enable :
    (E : Env)
    → (c : Config) (path : Bytes) → IsApart E c path
    → (name : Option Bytes) (m : State E)
    → E.os.read (act_enable E c name m).1.sys path ≡ E.os.read m.sys path
read-act_enable E c path A name m =
    ((act_enable-FileIs E c A {held = E.os.read m.sys path} name).at m
      (record { reads = refl })).reads
