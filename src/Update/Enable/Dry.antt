-- ===== src/Update/Enable/Dry.antt =====
-- `act_enable` of src/update-binfmts.c with `--test`.
use debian_binfmt_support.Prelude.{Bool, Option, none, some, Bytes}
use debian_binfmt_support.Action.Keeps.{Keeps, Keeps-pure, Keeps-crash, Keeps-each_worked}
use debian_binfmt_support.Paths.{Paths}
use debian_binfmt_support.Format.{Binfmt}
use debian_binfmt_support.Update.Base.{Env}
use debian_binfmt_support.Update.Base.Reads.{Still, dry, still_rules}
use debian_binfmt_support.Update.Kernel.Dry.{load_binfmt_misc-Still}
use debian_binfmt_support.Update.Database.Reads.{load_format-Still, load_all_formats-Still}
use debian_binfmt_support.Update.Enable.{
  known_answer, needs_detector, send, with_type, register, enable_absent, enable_name,
  enable_if_absent, enable_all, act_enable,
}

module _ (E : Env) (paths : Paths) {s : E.os.State} where
  known_answer-Still : (o : Option Bool) → Keeps (Still E s) (known_answer E (dry paths) o)
  unfolding known_answer
  known_answer-Still none = Keeps-crash
  known_answer-Still (some b) = Keeps-pure _

  needs_detector-Still :
      (name : Bytes) (b : Binfmt) → Keeps (Still E s) (needs_detector E (dry paths) name b)
  unfolding needs_detector
  needs_detector-Still name b = search (still_rules, known_answer-Still, load_all_formats-Still)

  send-Still : (name string : Bytes) → Keeps (Still E s) (send E (dry paths) name string)
  unfolding send
  send-Still name string = search still_rules

  with_type-Still :
      (name : Bytes) (b : Binfmt) (type : Option Bytes)
      → Keeps (Still E s) (with_type E (dry paths) name b type)
  unfolding with_type
  with_type-Still name b none = Keeps-crash
  with_type-Still name b (some type) = search (still_rules, needs_detector-Still, send-Still)

  register-Still :
      (name : Bytes) (b : Option Binfmt) → Keeps (Still E s) (register E (dry paths) name b)
  unfolding register
  register-Still name none = Keeps-crash
  register-Still name (some b) = with_type-Still name b b.type

  enable_absent-Still : (name : Bytes) → Keeps (Still E s) (enable_absent E (dry paths) name)
  unfolding enable_absent
  enable_absent-Still name = search (still_rules, load_format-Still, register-Still)

  pub enable_name-Still : (name : Bytes) → Keeps (Still E s) (enable_name E (dry paths) name)
  unfolding enable_name
  enable_name-Still name =
      search (still_rules, load_binfmt_misc-Still, enable_absent-Still) depth 12

  enable_if_absent-Still : (name : Bytes) → Keeps (Still E s) (enable_if_absent E (dry paths) name)
  unfolding enable_if_absent
  enable_if_absent-Still name = search (still_rules, enable_name-Still)

  enable_all-Still : Keeps (Still E s) (enable_all E (dry paths))
  unfolding enable_all
  enable_all-Still =
      search
        (
          still_rules, load_binfmt_misc-Still, load_all_formats-Still, Keeps-each_worked,
          enable_if_absent-Still,
        )
        depth 12

  pub act_enable-Still : (name : Option Bytes) → Keeps (Still E s) (act_enable E (dry paths) name)
  unfolding act_enable
  act_enable-Still none = enable_all-Still
  act_enable-Still (some name) = enable_name-Still name
