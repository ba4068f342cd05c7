-- ===== src/Update/Kernel/Dry.antt =====
-- `load_binfmt_misc` and `unload_binfmt_misc` of src/update-binfmts.c with `--test`.
use debian_binfmt_support.Prelude.{Option, none, some, Bytes}
use debian_binfmt_support.Action.Keeps.{Keeps, Keeps-pure}
use debian_binfmt_support.Paths.{Paths}
use debian_binfmt_support.Update.Base.{Env}
use debian_binfmt_support.Update.Base.Reads.{Still, dry, still_rules}
use debian_binfmt_support.Update.Kernel.{
  style_in, get_binfmt_style, load_binfmt_misc, unload_binfmt_misc,
}

module _ (E : Env) {s : E.os.State} where
  style_in-Still : (file : Option Bytes) → Keeps (Still E s) (style_in E file)
  unfolding style_in
  style_in-Still none = search still_rules
  style_in-Still (some file) = Keeps-pure _

  pub get_binfmt_style-Still : Keeps (Still E s) (get_binfmt_style E)
  unfolding get_binfmt_style
  get_binfmt_style-Still = search (still_rules, style_in-Still)

module _ (E : Env) (paths : Paths) {s : E.os.State} where
  pub load_binfmt_misc-Still : Keeps (Still E s) (load_binfmt_misc E (dry paths))
  unfolding load_binfmt_misc
  load_binfmt_misc-Still = search still_rules

  pub unload_binfmt_misc-Still : Keeps (Still E s) (unload_binfmt_misc E (dry paths))
  unfolding unload_binfmt_misc
  unload_binfmt_misc-Still = search (still_rules, get_binfmt_style-Still)
