-- ===== src/Update/Packaged/Reads.antt =====
-- `get_import` of src/update-binfmts.c, and the state of the system.
use debian_binfmt_support.Prelude.{Option, none, some, Bytes}
use debian_binfmt_support.Action.Keeps.{Keeps, Keeps-pure}
use debian_binfmt_support.Update.Base.{Env}
use debian_binfmt_support.Update.Base.Reads.{Still, still_rules}
use debian_binfmt_support.Update.Packaged.{imported, get_import}

module _ (E : Env) {s : E.os.State} where
  imported-Still : (name : Bytes) (file : Option Bytes) → Keeps (Still E s) (imported E name file)
  unfolding imported
  imported-Still name none = search still_rules
  imported-Still name (some file) = Keeps-pure _

  pub get_import-Still : (name : Bytes) → Keeps (Still E s) (get_import E name)
  unfolding get_import
  get_import-Still name = search (still_rules, imported-Still)
