-- ===== src/Update/Remove/Dry.antt =====
-- `act_remove` of src/update-binfmts.c with `--test`.
use debian_binfmt_support.Prelude.{Bytes}
use debian_binfmt_support.Action.Keeps.{Keeps}
use debian_binfmt_support.Paths.{Paths}
use debian_binfmt_support.Update.Base.{Env}
use debian_binfmt_support.Update.Base.Reads.{Still, dry, still_rules}
use debian_binfmt_support.Update.Database.Reads.{load_format-Still}
use debian_binfmt_support.Update.Disable.Dry.{disable_name-Still}
use debian_binfmt_support.Update.Install.Dry.{same_package-Still}
use debian_binfmt_support.Update.Remove.{may_remove, delete_format, remove_owned, act_remove}

module _ (E : Env) (paths : Paths) {s : E.os.State} where
  may_remove-Still : (name p : Bytes) → Keeps (Still E s) (may_remove E (dry paths) name p)
  unfolding may_remove
  may_remove-Still name p = search (still_rules, same_package-Still)

  delete_format-Still : (name : Bytes) → Keeps (Still E s) (delete_format E (dry paths) name)
  unfolding delete_format
  delete_format-Still name = search still_rules

  remove_owned-Still : (name : Bytes) → Keeps (Still E s) (remove_owned E (dry paths) name)
  unfolding remove_owned
  remove_owned-Still name = search (still_rules, disable_name-Still, delete_format-Still)

  pub act_remove-Still : (name p : Bytes) → Keeps (Still E s) (act_remove E (dry paths) name p)
  unfolding act_remove
  act_remove-Still name p =
      search (still_rules, load_format-Still, may_remove-Still, remove_owned-Still) depth 12
