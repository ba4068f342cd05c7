-- ===== src/Update/Disable/Usable.antt =====
-- `act_disable` of src/update-binfmts.c, and the table of formats.
use debian_binfmt_support.Prelude.{ℕ, Option, none, some, Bytes}
use debian_binfmt_support.Action.Safe.{Fails, Safe, Safe-each_worked}
use debian_binfmt_support.Os.{Written, written, not_opened, not_closed}
use debian_binfmt_support.Error.Tables.{Tabled}
use debian_binfmt_support.KvHash.{IsLawful}
use debian_binfmt_support.Update.Base.{Env, Config}
use debian_binfmt_support.Update.Base.Tables.{AllUsable, usable_rules}
use debian_binfmt_support.Update.Kernel.Usable.{unload_binfmt_misc-Safe}
use debian_binfmt_support.Update.Database.Usable.{load_all_formats-Usable}
use debian_binfmt_support.Update.Disable.{
  told, disable_present, disable_name, disable_if_there, disable_all, act_disable,
}

module _ (E : Env) (c : Config) {X : ℕ → Type 0} {K : E.formats.Table → Type 0} where
  told-Safe : (entry : Bytes) (w : Written) → Safe X (Tabled K) (told E c entry w)
  unfolding told
  told-Safe entry not_opened = search usable_rules
  told-Safe entry not_closed = search usable_rules
  told-Safe entry written = search usable_rules

  disable_present-Safe : (name : Bytes) → Safe X (Tabled K) (disable_present E c name)
  unfolding disable_present
  disable_present-Safe name = search (usable_rules, told-Safe)

  pub disable_name-Safe : (name : Bytes) → Safe X (Tabled K) (disable_name E c name)
  unfolding disable_name
  disable_name-Safe name = search (usable_rules, disable_present-Safe) depth 12

  disable_if_there-Safe : (name : Bytes) → Safe X (Tabled K) (disable_if_there E c name)
  unfolding disable_if_there
  disable_if_there-Safe name = search (usable_rules, disable_name-Safe)

module _ (E : Env) (L : IsLawful E.formats) (c : Config) where
  disable_all-Usable : Safe Fails (Tabled (AllUsable E)) (disable_all E c)
  unfolding disable_all
  disable_all-Usable =
      search
        (
          usable_rules, load_all_formats-Usable, Safe-each_worked, disable_if_there-Safe,
          unload_binfmt_misc-Safe,
        )
        depth 14

  pub act_disable-Usable :
      (name : Option Bytes) → Safe Fails (Tabled (AllUsable E)) (act_disable E c name)
  unfolding act_disable
  act_disable-Usable none = disable_all-Usable
  act_disable-Usable (some name) = disable_name-Safe E c name
