-- ===== src/Update/Kernel/Files.antt =====
-- `load_binfmt_misc` of src/update-binfmts.c, and what one file holds.
use debian_binfmt_support.Prelude.{Bool, true, false, Option, Bytes}
use debian_binfmt_support.Action.Keeps.{Keeps, Keeps-pure}
use debian_binfmt_support.Os.{Written, written, not_opened, not_closed}
use debian_binfmt_support.Update.Base.{Env, Config}
use debian_binfmt_support.Update.Base.Files.{
  FileIs, IsApart, Still-FileIs, runs-FileIs, write-FileIs, file_rules,
}
use debian_binfmt_support.Update.Kernel.{
  BinfmtStyle, get_binfmt_style, module_loads, lacks_register, load_module, mount_misc,
  status_written, switch_on, mount_and_switch_on, load_binfmt_misc,
}
use debian_binfmt_support.Update.Kernel.Dry.{get_binfmt_style-Still}

module _ (E : Env) (c : Config) {path : Bytes} (A : IsApart E c path) {held : Option Bytes} where
  get_binfmt_style-FileIs : Keeps (FileIs E path held) (get_binfmt_style E)
  get_binfmt_style-FileIs = Still-FileIs E _ (λ s. get_binfmt_style-Still E)

  modprobe-FileIs : Keeps (FileIs E path held) (module_loads E)
  unfolding module_loads
  modprobe-FileIs = search (file_rules, runs-FileIs E _ A.read-modprobe)

  lacks_register-FileIs : (b : Bool) → Keeps (FileIs E path held) (lacks_register E c b)
  unfolding lacks_register
  lacks_register-FileIs true = search file_rules
  lacks_register-FileIs false = Keeps-pure _

  load_module-FileIs : (style : BinfmtStyle) → Keeps (FileIs E path held) (load_module E c style)
  unfolding load_module
  load_module-FileIs style = search (file_rules, lacks_register-FileIs, modprobe-FileIs) depth 12

  mount_misc-FileIs : (style : BinfmtStyle) → Keeps (FileIs E path held) (mount_misc E c style)
  unfolding mount_misc
  mount_misc-FileIs style =
      search (file_rules, lacks_register-FileIs, runs-FileIs E _ A.read-mount) depth 12

  status_written-FileIs : (w : Written) → Keeps (FileIs E path held) (status_written E c w)
  unfolding status_written
  status_written-FileIs not_opened = search file_rules
  status_written-FileIs written = Keeps-pure _
  status_written-FileIs not_closed = Keeps-pure _

  switch_on-FileIs : Keeps (FileIs E path held) (switch_on E c)
  unfolding switch_on
  switch_on-FileIs =
      search (file_rules, status_written-FileIs, write-FileIs E _ _ (A.read-status _)) depth 12

  mount_and_switch_on-FileIs : Keeps (FileIs E path held) (mount_and_switch_on E c)
  unfolding mount_and_switch_on
  mount_and_switch_on-FileIs =
      search (file_rules, get_binfmt_style-FileIs, mount_misc-FileIs, switch_on-FileIs) depth 12

  pub load_binfmt_misc-FileIs : Keeps (FileIs E path held) (load_binfmt_misc E c)
  unfolding load_binfmt_misc
  load_binfmt_misc-FileIs =
      search (file_rules, get_binfmt_style-FileIs, load_module-FileIs, mount_and_switch_on-FileIs)
        depth 12
