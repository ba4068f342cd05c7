-- ===== src/Update/Install/Dry.antt =====
-- `act_install` of src/update-binfmts.c with `--test`.
use debian_binfmt_support.Prelude.{Option, none, some, Bytes}
use debian_binfmt_support.Action.Keeps.{Keeps, Keeps-crash}
use debian_binfmt_support.Paths.{Paths}
use debian_binfmt_support.Format.{Binfmt}
use debian_binfmt_support.Update.Base.{Env, Config}
use debian_binfmt_support.Update.Base.Reads.{Still, dry, still_rules}
use debian_binfmt_support.Update.Database.Reads.{load_format-Still}
use debian_binfmt_support.Update.Enable.Dry.{enable_name-Still}
use debian_binfmt_support.Update.Disable.Dry.{disable_name-Still}
use debian_binfmt_support.Update.Install.{
  same_package, may_replace, disable_old, print_pointer, record_format, enable_new,
  install_disabled, act_install,
}

module _ (E : Env) (c : Config) {s : E.os.State} where
  pub same_package-Still :
      (last : Bytes) (p : Option (Bytes × Bytes)) → Keeps (Still E s) (same_package E c last p)
  unfolding same_package
  same_package-Still last none = Keeps-crash
  same_package-Still last (some (p, q)) = search still_rules

  pub may_replace-Still :
      (name : Bytes) (b : Option Binfmt) → Keeps (Still E s) (may_replace E c name b)
  unfolding may_replace
  may_replace-Still name b = search (still_rules, same_package-Still)

module _ (E : Env) (paths : Paths) {s : E.os.State} where
  disable_old-Still : (name : Bytes) → Keeps (Still E s) (disable_old E (dry paths) name)
  unfolding disable_old
  disable_old-Still name = search (still_rules, disable_name-Still) depth 12

  print_pointer-Still : (b : Option Binfmt) → Keeps (Still E s) (print_pointer E (dry paths) b)
  unfolding print_pointer
  print_pointer-Still none = search still_rules
  print_pointer-Still (some b) = search still_rules

  record_format-Still :
      (name : Bytes) (b : Option Binfmt) → Keeps (Still E s) (record_format E (dry paths) name b)
  unfolding record_format
  record_format-Still name b = search (still_rules, print_pointer-Still)

  enable_new-Still :
      (name : Bytes) (b : Option Binfmt) → Keeps (Still E s) (enable_new E (dry paths) name b)
  unfolding enable_new
  enable_new-Still name b = search (still_rules, enable_name-Still) depth 12

  install_disabled-Still :
      (name : Bytes) (b : Option Binfmt) → Keeps (Still E s) (install_disabled E (dry paths) name b)
  unfolding install_disabled
  install_disabled-Still name b =
      search (still_rules, record_format-Still, enable_new-Still) depth 12

  pub act_install-Still :
      (name : Bytes) (b : Option Binfmt) → Keeps (Still E s) (act_install E (dry paths) name b)
  unfolding act_install
  act_install-Still name b =
      search
        (
          still_rules, load_format-Still, may_replace-Still, disable_old-Still,
          install_disabled-Still,
        )
        depth 12
