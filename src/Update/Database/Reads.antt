-- ===== src/Update/Database/Reads.antt =====
-- `load_format` and `load_all_formats` of src/update-binfmts.c, and the state of the system.
use debian_binfmt_support.Prelude.{Bool, Option, none, some, List, [], ◌∷◌, Bytes}
use debian_binfmt_support.Action.Keeps.{Keeps, Keeps-pure, Keeps-bind}
use debian_binfmt_support.Format.{Binfmt}
use debian_binfmt_support.Format.Load.Reads.{binfmt_load-SysIs}
use debian_binfmt_support.Update.Base.{Env, Config}
use debian_binfmt_support.Update.Base.Reads.{Still, still_rules}
use debian_binfmt_support.Update.Database.{
  keep_format, load_format, load_entries, opened_dir, load_all_formats,
}

module _ (E : Env) (c : Config) {s : E.os.State} where
  keep_format-Still :
      (name : Bytes) (format : Option Binfmt) → Keeps (Still E s) (keep_format E c name format)
  unfolding keep_format
  keep_format-Still name none = Keeps-pure _
  keep_format-Still name (some format) = search still_rules

  pub load_format-Still :
      (name : Bytes) (quiet : Bool) → Keeps (Still E s) (load_format E c name quiet)
  unfolding load_format
  load_format-Still name quiet = search (still_rules, keep_format-Still, binfmt_load-SysIs)

  load_entries-Still :
      (quiet : Bool) (entries : List Bytes) → Keeps (Still E s) (load_entries E c quiet entries)
  unfolding load_entries
  load_entries-Still quiet [] = Keeps-pure _
  load_entries-Still quiet (entry ∷ entries) =
      Keeps-bind _ _ (search (still_rules, load_format-Still))
        (λ _. load_entries-Still quiet entries)

  opened_dir-Still :
      (quiet : Bool) (dir : Option (List Bytes)) → Keeps (Still E s) (opened_dir E c quiet dir)
  unfolding opened_dir
  opened_dir-Still quiet none = search still_rules
  opened_dir-Still quiet (some entries) = load_entries-Still quiet entries

  pub load_all_formats-Still : (quiet : Bool) → Keeps (Still E s) (load_all_formats E c quiet)
  unfolding load_all_formats
  load_all_formats-Still quiet = search (still_rules, opened_dir-Still)
