-- ===== src/Update/Remove/Usable.antt =====
-- `act_remove` of src/update-binfmts.c on a table of descriptions that can be used.
use debian_binfmt_support.Prelude.{text, ◌≡◌, refl, ◌≢◌, Option, none, some, Bytes}
use debian_binfmt_support.Action.Safe.{Fails, Safe, Safe-pure}
use debian_binfmt_support.Os.{Unlinked, unlinked, no_entry, refused}
use debian_binfmt_support.Error.Tables.{Tabled}
use debian_binfmt_support.KvHash.{IsLawful}
use debian_binfmt_support.Format.{Binfmt}
use debian_binfmt_support.Update.Base.{Env, Config}
use debian_binfmt_support.Update.Base.Tables.{AllUsable, usable_rules, formats_delete-Usable}
use debian_binfmt_support.Update.Disable.Usable.{disable_name-Safe}
use debian_binfmt_support.Update.Database.Usable.{load_format-Usable, Safe-known}
use debian_binfmt_support.Update.Install.{same_package}
use debian_binfmt_support.Update.Install.Usable.{same_package-Safe}
use debian_binfmt_support.Update.Remove.{
  owners, may_remove, unlinked_from, delete_format, remove_owned, act_remove,
}

module _ (E : Env) (L : IsLawful E.formats) (c : Config) where
  owned-Usable :
      (p : Bytes) (b : Binfmt) (q : Option Bytes)
      → b.pkg ≡ q
      → q ≢ none
      → Safe Fails
          (Tabled (AllUsable E))
          (same_package E c (text "; not removing.") (owners E c p (some b)))
  unfolding owners
  owned-Usable p b none e h = absurd (h refl)
  owned-Usable p b (some q) e h = rw e (same_package-Safe E c _ p q)

  may_remove-Usable : (name p : Bytes) → Safe Fails (Tabled (AllUsable E)) (may_remove E c name p)
  unfolding may_remove
  may_remove-Usable name p =
      Safe-known E L name _ (λ old. same_package E c (text "; not removing.") (owners E c p old))
        refl (λ b u. owned-Usable p b b.pkg refl u.pkg_set) (Safe-pure _)

  unlinked_from-Usable :
      (name : Bytes) (u : Unlinked) → Safe Fails (Tabled (AllUsable E)) (unlinked_from E c name u)
  unfolding unlinked_from
  unlinked_from-Usable name unlinked = search (usable_rules, formats_delete-Usable)
  unlinked_from-Usable name no_entry = search usable_rules
  unlinked_from-Usable name refused = search usable_rules

  delete_format-Usable : (name : Bytes) → Safe Fails (Tabled (AllUsable E)) (delete_format E c name)
  unfolding delete_format
  delete_format-Usable name = search (usable_rules, unlinked_from-Usable)

  remove_owned-Usable : (name : Bytes) → Safe Fails (Tabled (AllUsable E)) (remove_owned E c name)
  unfolding remove_owned
  remove_owned-Usable name = search (usable_rules, disable_name-Safe, delete_format-Usable)

  pub act_remove-Usable :
      (name p : Bytes) → Safe Fails (Tabled (AllUsable E)) (act_remove E c name p)
  unfolding act_remove
  act_remove-Usable name p =
      search (usable_rules, load_format-Usable, may_remove-Usable, remove_owned-Usable) depth 12
