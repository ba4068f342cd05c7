-- ===== src/Update/Import/Dry.antt =====
-- `act_import` of src/update-binfmts.c with `--test`.
use debian_binfmt_support.Prelude.{Bool, true, Option, none, some, List, Bytes}
use debian_binfmt_support.Action.Keeps.{Keeps, Keeps-pure, Keeps-crash, Keeps-each_worked}
use debian_binfmt_support.Paths.{Paths}
use debian_binfmt_support.Update.Base.{Env}
use debian_binfmt_support.Update.Base.Reads.{Still, dry, still_rules}
use debian_binfmt_support.Format.New.Reads.{binfmt_new-SysIs}
use debian_binfmt_support.Update.Packaged.Reads.{get_import-Still}
use debian_binfmt_support.Update.Database.Reads.{load_format-Still}
use debian_binfmt_support.Update.Install.Dry.{act_install-Still}
use debian_binfmt_support.Update.Import.{
  check_interpreter, install_import, local_answer, is_local_change, import_found, import_name,
  import_entry, import_all, act_import,
}

module _ (E : Env) (paths : Paths) {s : E.os.State} where
  check_interpreter-Still :
      (path : Bytes) (i : Option Bytes) → Keeps (Still E s) (check_interpreter E (dry paths) path i)
  unfolding check_interpreter
  check_interpreter-Still path none = search still_rules
  check_interpreter-Still path (some i) = search still_rules

  install_import-Still :
      (path id : Bytes) (import : E.args.Table)
      → Keeps (Still E s) (install_import E (dry paths) path id import)
  unfolding install_import
  install_import-Still path id import =
      search (still_rules, check_interpreter-Still, binfmt_new-SysIs, act_install-Still) depth 12

  local_answer-Still : (o : Option Bool) → Keeps (Still E s) (local_answer E (dry paths) o)
  unfolding local_answer
  local_answer-Still none = Keeps-crash
  local_answer-Still (some b) = Keeps-pure _

  is_local_change-Still : (id : Bytes) → Keeps (Still E s) (is_local_change E (dry paths) id)
  unfolding is_local_change
  is_local_change-Still id = search (still_rules, local_answer-Still)

  import_found-Still :
      (path id : Bytes) (import : Option E.args.Table)
      → Keeps (Still E s) (import_found E (dry paths) path id import)
  unfolding import_found
  import_found-Still path id none = Keeps-pure _
  import_found-Still path id (some import) =
      search (still_rules, load_format-Still, is_local_change-Still, install_import-Still) depth 12

  import_name-Still : (name : Bytes) → Keeps (Still E s) (import_name E (dry paths) name)
  unfolding import_name
  import_name-Still name = search (still_rules, get_import-Still, import_found-Still) depth 12

  import_entry-Still : (entry : Bytes) → Keeps (Still E s) (import_entry E (dry paths) entry)
  unfolding import_entry
  import_entry-Still entry = search (still_rules, import_name-Still) depth 12

  import_all-Still : (dir : Option (List Bytes)) → Keeps (Still E s) (import_all E (dry paths) dir)
  unfolding import_all
  import_all-Still none = search still_rules
  import_all-Still (some entries) = Keeps-each_worked _ entries true import_entry-Still

  pub act_import-Still : (name : Option Bytes) → Keeps (Still E s) (act_import E (dry paths) name)
  unfolding act_import
  act_import-Still none = search (still_rules, import_all-Still)
  act_import-Still (some name) = import_name-Still name
