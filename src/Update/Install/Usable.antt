-- ===== src/Update/Install/Usable.antt =====
-- `act_install` of src/update-binfmts.c on a table of descriptions that can be used.
use debian_binfmt_support.Prelude.{ℕ, ◌≡◌, refl, ◌≢◌, Option, none, some, Bytes, text}
use debian_binfmt_support.Action.Safe.{Fails, Ends, Holds-Ends, Safe, Safe-pure, Yields-then}
use debian_binfmt_support.Paths.{Paths}
use debian_binfmt_support.Error.Tables.{Tabled}
use debian_binfmt_support.KvHash.{IsLawful}
use debian_binfmt_support.Format.{Binfmt}
use debian_binfmt_support.Format.Fields.Full.{IsUsable}
use debian_binfmt_support.Format.Write.Tables.{binfmt_write-Safe}
use debian_binfmt_support.Update.Base.{State, Env, Config}
use debian_binfmt_support.Update.Base.Tables.{AllUsable, usable_rules, formats_insert-Usable, wet}
use debian_binfmt_support.Update.Enable.Usable.{enable_name-Usable}
use debian_binfmt_support.Update.Disable.Usable.{disable_name-Safe}
use debian_binfmt_support.Update.Database.Usable.{load_format-Usable, Safe-known}
use debian_binfmt_support.Update.Install.{
  packages, same_package, may_replace, disable_old, write_pointer, put_in_place, save,
  record_format, enable_new, install_disabled, act_install,
}

module _ (E : Env) (c : Config) {X : ℕ → Type 0} {K : E.formats.Table → Type 0} where
  pub same_package-Safe :
      (last p q : Bytes) → Safe X (Tabled K) (same_package E c last (some (p, q)))
  unfolding same_package
  same_package-Safe last p q = search usable_rules

  disable_old-Safe : (name : Bytes) → Safe X (Tabled K) (disable_old E c name)
  unfolding disable_old
  disable_old-Safe name = search (usable_rules, disable_name-Safe) depth 12

  put_in_place-Safe : (tmp target : Bytes) → Safe X (Tabled K) (put_in_place E c tmp target)
  unfolding put_in_place
  put_in_place-Safe tmp target = search usable_rules

  save-Safe : (name : Bytes) (b : Binfmt) → Safe X (Tabled K) (save E c name (some b))
  unfolding save write_pointer
  save-Safe name b = search (usable_rules, binfmt_write-Safe, put_in_place-Safe) depth 12

module _ (E : Env) (L : IsLawful E.formats) (c : Config) where
  packages-Usable :
      (b old : Binfmt) (p q : Option Bytes)
      → b.pkg ≡ p
      → old.pkg ≡ q
      → p ≢ none
      → q ≢ none
      → Safe Fails
          (Tabled (AllUsable E))
          (same_package E c (text "") (packages (some b) (some old)))
  packages-Usable b old none q eb eo hb ho = absurd (hb refl)
  packages-Usable b old (some p) none eb eo hb ho = absurd (ho refl)
  packages-Usable b old (some p) (some q) eb eo hb ho = rw eb (rw eo (same_package-Safe E c _ p q))

  may_replace-Usable :
      (name : Bytes) (b : Binfmt)
      → IsUsable b
      → Safe Fails (Tabled (AllUsable E)) (may_replace E c name (some b))
  unfolding may_replace
  may_replace-Usable name b u =
      Safe-known E L name _ (λ old. same_package E c (text "") (packages (some b) old)) refl
        (λ old o. packages-Usable b old b.pkg old.pkg refl refl u.pkg_set o.pkg_set) (Safe-pure _)

module _ (E : Env) (L : IsLawful E.formats) (paths : Paths) (name : Bytes) (b : Binfmt)
    (u : IsUsable b) where
  enable_new-Usable : Safe Fails (Tabled (AllUsable E)) (enable_new E (wet paths) name (some b))
  unfolding enable_new
  enable_new-Usable =
      Yields-then _ _ (formats_insert-Usable E L name b u)
        (search (usable_rules, enable_name-Usable) depth 12)

  install_disabled-Usable :
      Safe Fails (Tabled (AllUsable E)) (install_disabled E (wet paths) name (some b))
  unfolding install_disabled record_format
  install_disabled-Usable = search (usable_rules, save-Safe, enable_new-Usable) depth 12

  pub act_install-Usable :
      Safe Fails (Tabled (AllUsable E)) (act_install E (wet paths) name (some b))
  unfolding act_install
  act_install-Usable =
      search
        (
          usable_rules, load_format-Usable, may_replace-Usable, disable_old-Safe,
          install_disabled-Usable,
        )
        depth 12

-- Without --test, act_install on a description whose package, type, offset, magic and mask are set
-- returns or exits with status 2, whatever the system answers, if these fields are set in each
-- description of the table too; and that is so of the table when it ends.
pub act_install_usable :
    (E : Env)
    → IsLawful E.formats
    → (paths : Paths) (name : Bytes) (b : Binfmt) (m : State E) → IsUsable b
    → AllUsable E m.table
    → Ends (act_install E (wet paths) name (some b) m).0
      × AllUsable E (act_install E (wet paths) name (some b) m).1.table
act_install_usable E L paths name b m u all =
    let (h, k) = (act_install-Usable E L paths name b u).at m (record { held = all }) in
    (Holds-Ends _ h, k.held)
