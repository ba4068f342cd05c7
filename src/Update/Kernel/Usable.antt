-- ===== src/Update/Kernel/Usable.antt =====
-- `load_binfmt_misc` and `unload_binfmt_misc` of src/update-binfmts.c, and the table of formats.
use debian_binfmt_support.Prelude.{ℕ, Bool, true, false, Option, none, some, Bytes}
use debian_binfmt_support.Action.Safe.{Safe, Safe-pure}
use debian_binfmt_support.Os.{Written, written, not_opened, not_closed}
use debian_binfmt_support.Error.Tables.{Tabled}
use debian_binfmt_support.Update.Base.{Env, Config}
use debian_binfmt_support.Update.Base.Tables.{usable_rules}
use debian_binfmt_support.Update.Kernel.{
  BinfmtStyle, style_in, get_binfmt_style, module_loads, lacks_register, load_module, mount_misc,
  status_written, switch_on, mount_and_switch_on, load_binfmt_misc, umount_fails, umount,
  unmount_any, unload_binfmt_misc,
}

module _ (E : Env) {X : ℕ → Type 0} {K : E.formats.Table → Type 0} where
  style_in-Safe : (file : Option Bytes) → Safe X (Tabled K) (style_in E file)
  unfolding style_in
  style_in-Safe none = search usable_rules
  style_in-Safe (some file) = Safe-pure _

  get_binfmt_style-Safe : Safe X (Tabled K) (get_binfmt_style E)
  unfolding get_binfmt_style
  get_binfmt_style-Safe = search (usable_rules, style_in-Safe)

  module_loads-Safe : Safe X (Tabled K) (module_loads E)
  unfolding module_loads
  module_loads-Safe = search usable_rules

  module _ (c : Config) where
    lacks_register-Safe : (b : Bool) → Safe X (Tabled K) (lacks_register E c b)
    unfolding lacks_register
    lacks_register-Safe true = search usable_rules
    lacks_register-Safe false = Safe-pure _

    load_module-Safe : (style : BinfmtStyle) → Safe X (Tabled K) (load_module E c style)
    unfolding load_module
    load_module-Safe style = search (usable_rules, lacks_register-Safe, module_loads-Safe) depth 12

    mount_misc-Safe : (style : BinfmtStyle) → Safe X (Tabled K) (mount_misc E c style)
    unfolding mount_misc
    mount_misc-Safe style = search (usable_rules, lacks_register-Safe) depth 12

    status_written-Safe : (w : Written) → Safe X (Tabled K) (status_written E c w)
    unfolding status_written
    status_written-Safe not_opened = search usable_rules
    status_written-Safe written = Safe-pure _
    status_written-Safe not_closed = Safe-pure _

    switch_on-Safe : Safe X (Tabled K) (switch_on E c)
    unfolding switch_on
    switch_on-Safe = search (usable_rules, status_written-Safe) depth 12

    mount_and_switch_on-Safe : Safe X (Tabled K) (mount_and_switch_on E c)
    unfolding mount_and_switch_on
    mount_and_switch_on-Safe =
        search (usable_rules, get_binfmt_style-Safe, mount_misc-Safe, switch_on-Safe) depth 12

    pub load_binfmt_misc-Safe : Safe X (Tabled K) (load_binfmt_misc E c)
    unfolding load_binfmt_misc
    load_binfmt_misc-Safe =
        search (usable_rules, get_binfmt_style-Safe, load_module-Safe, mount_and_switch_on-Safe)
          depth 12

    umount_fails-Safe : Safe X (Tabled K) (umount_fails E c)
    unfolding umount_fails
    umount_fails-Safe = search usable_rules

    umount-Safe : Safe X (Tabled K) (umount E c)
    unfolding umount
    umount-Safe = search (usable_rules, umount_fails-Safe)

    unmount_any-Safe : Safe X (Tabled K) (unmount_any E c)
    unfolding unmount_any
    unmount_any-Safe = search (usable_rules, umount-Safe) depth 12

    pub unload_binfmt_misc-Safe : Safe X (Tabled K) (unload_binfmt_misc E c)
    unfolding unload_binfmt_misc
    unload_binfmt_misc-Safe =
        search (usable_rules, get_binfmt_style-Safe, unmount_any-Safe) depth 12
