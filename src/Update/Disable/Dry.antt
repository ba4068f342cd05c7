-- ===== src/Update/Disable/Dry.antt =====
-- `act_disable` of src/update-binfmts.c with `--test`.
use debian_binfmt_support.Prelude.{Option, none, some, Bytes}
use debian_binfmt_support.Action.Keeps.{Keeps, Keeps-each_worked}
use debian_binfmt_support.Paths.{Paths}
use debian_binfmt_support.Update.Base.{Env}
use debian_binfmt_support.Update.Base.Reads.{Still, dry, still_rules}
use debian_binfmt_support.Update.Kernel.Dry.{unload_binfmt_misc-Still}
use debian_binfmt_support.Update.Database.Reads.{load_all_formats-Still}
use debian_binfmt_support.Update.Disable.{
  disable_present, disable_name, disable_if_there, disable_all, act_disable,
}

module _ (E : Env) (paths : Paths) {s : E.os.State} where
  disable_present-Still : (name : Bytes) → Keeps (Still E s) (disable_present E (dry paths) name)
  unfolding disable_present
  disable_present-Still name = search still_rules

  pub disable_name-Still : (name : Bytes) → Keeps (Still E s) (disable_name E (dry paths) name)
  unfolding disable_name
  disable_name-Still name = search (still_rules, disable_present-Still) depth 12

  disable_if_there-Still : (name : Bytes) → Keeps (Still E s) (disable_if_there E (dry paths) name)
  unfolding disable_if_there
  disable_if_there-Still name = search (still_rules, disable_name-Still)

  disable_all-Still : Keeps (Still E s) (disable_all E (dry paths))
  unfolding disable_all
  disable_all-Still =
      search
        (
          still_rules, load_all_formats-Still, Keeps-each_worked, disable_if_there-Still,
          unload_binfmt_misc-Still,
        )
        depth 14

  pub act_disable-Still : (name : Option Bytes) → Keeps (Still E s) (act_disable E (dry paths) name)
  unfolding act_disable
  act_disable-Still none = disable_all-Still
  act_disable-Still (some name) = disable_name-Still name
