-- ===== src/Update/Main/Dry.antt =====
-- `main` of src/update-binfmts.c with `--test`.
use debian_binfmt_support.Prelude.{true, Option, none, some, Bytes, ◌≡◌, refl, ◌≢◌, sym, subst}
use debian_binfmt_support.Action.Keeps.{Keeps, Keeps-pure, Keeps-bind, Keeps-crash}
use debian_binfmt_support.Paths.{Paths}
use debian_binfmt_support.Format.New.Reads.{binfmt_new-SysIs}
use debian_binfmt_support.Update.Base.{Env, State}
use debian_binfmt_support.Update.Base.Reads.{Still, dry, still_rules}
use debian_binfmt_support.Update.Enable.Dry.{act_enable-Still}
use debian_binfmt_support.Update.Disable.Dry.{act_disable-Still}
use debian_binfmt_support.Update.Install.Dry.{act_install-Still}
use debian_binfmt_support.Update.Remove.Dry.{act_remove-Still}
use debian_binfmt_support.Update.Import.Dry.{act_import-Still}
use debian_binfmt_support.Update.Display.Reads.{act_display-Still}
use debian_binfmt_support.Update.Options.{
  Mode, install, remove, import, display, enable, disable, find, Options,
}
use debian_binfmt_support.Update.Main.{install_name, remove_name, dispatch, run_mode}

abbrev dry_with : Paths → Options → Options
dry_with paths o = record o { config = dry paths }

module _ (E : Env) (paths : Paths) {s : E.os.State} where
  install_name-Still :
      (o : Options) (name : Option Bytes)
      → Keeps (Still E s) (install_name E (dry_with paths o) name)
  unfolding install_name
  install_name-Still o none = Keeps-crash
  install_name-Still o (some name) = search (still_rules, binfmt_new-SysIs, act_install-Still)

  remove_name-Still :
      (o : Options) (name : Option Bytes)
      → Keeps (Still E s) (remove_name E (dry_with paths o) name)
  unfolding remove_name
  remove_name-Still o none = Keeps-crash
  remove_name-Still o (some name) = act_remove-Still E paths name _

  dispatch-Still :
      (o : Options) (mode : Option Mode)
      → mode ≢ some find
      → Keeps (Still E s) (dispatch E (dry_with paths o) mode)
  unfolding dispatch
  dispatch-Still o none h = Keeps-pure _
  dispatch-Still o (some install) h = install_name-Still o o.name
  dispatch-Still o (some remove) h = remove_name-Still o o.name
  dispatch-Still o (some import) h = act_import-Still E paths o.name
  dispatch-Still o (some display) h = act_display-Still E (dry paths) o.name
  dispatch-Still o (some enable) h = act_enable-Still E paths o.name
  dispatch-Still o (some disable) h = act_disable-Still E paths o.name
  dispatch-Still o (some find) h = absurd (h refl)

  run_mode-Still :
      (o : Options) → o.mode ≢ some find → Keeps (Still E s) (run_mode E (dry_with paths o))
  unfolding run_mode
  run_mode-Still o h = Keeps-bind _ _ (dispatch-Still o o.mode h) (λ status. search still_rules)

-- With `--test`, and any mode but `--find`, whatever the options, the directories, the table and
-- the system: no call that could change the system is made, so the system ends as it began.
-- This holds too where the program exits early or crashes.
pub run_mode_dry :
    (E : Env) (o : Options) (m : State E)
    → o.config.test ≡ true
    → o.mode ≢ some find
    → (run_mode E o m).1.sys ≡ m.sys
run_mode_dry E o m t h =
    let same : record o { config = dry o.config.paths } ≡ o =
      λ i. record o { config = record (o.config) { test = sym t i } } in
    subst (λ p. (run_mode E p m).1.sys ≡ m.sys) same
      ((run_mode-Still E o.config.paths {s = m.sys} o h).at m refl)
