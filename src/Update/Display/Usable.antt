-- ===== src/Update/Display/Usable.antt =====
-- `act_display` of src/update-binfmts.c on a table of descriptions that can be used.
use debian_binfmt_support.Prelude.{false, refl, ◌≢◌, Option, none, some, List, [], ◌∷◌, Bytes}
use debian_binfmt_support.Action.{◌>>=◌}
use debian_binfmt_support.Action.Safe.{Fails, Safe, Safe-pure, Yields-then}
use debian_binfmt_support.Error.Tables.{Tabled}
use debian_binfmt_support.KvHash.{IsLawful}
use debian_binfmt_support.Format.{Binfmt}
use debian_binfmt_support.Update.Base.{Env, Config, formats_lookup}
use debian_binfmt_support.Update.Base.Tables.{AllUsable, usable_rules, exists-Safe}
use debian_binfmt_support.Update.Database.Usable.{
  known, unknown, lookups, load_format-Usable, load_all_formats-Usable,
}
use debian_binfmt_support.Update.Display.{
  print_description, display_found, display_name, display_each, act_display,
}

module _ (E : Env) (L : IsLawful E.formats) (c : Config) where
  print_description-Safe :
      (b : Binfmt) (pkg : Option Bytes)
      → pkg ≢ none
      → Safe Fails (Tabled (AllUsable E)) (print_description E c b pkg)
  unfolding print_description
  print_description-Safe b none h = absurd (h refl)
  print_description-Safe b (some pkg) h = search usable_rules

  shown :
      (name : Bytes) (b : Binfmt)
      → b.pkg ≢ none
      → Safe Fails (Tabled (AllUsable E)) (display_found E c name (some b))
  unfolding display_found
  shown name b h =
      Yields-then _ _ (exists-Safe E _)
        λ enabled. Yields-then _ _ (search usable_rules) λ u. print_description-Safe b b.pkg h

  not_shown : (name : Bytes) → Safe Fails (Tabled (AllUsable E)) (display_found E c name none)
  unfolding display_found
  not_shown name = search usable_rules

  looked_up-Usable :
      (name : Bytes)
      → Safe Fails (Tabled (AllUsable E)) (formats_lookup E name >>= display_found E c name)
  unfolding ◌>>=◌
  looked_up-Usable name = record {
    at = λ m k. elim (lookups E L name m k.held) [
      | known b u ex lk ↦ rw lk ((shown name b u.pkg_set).at m k)
      | unknown ex lk ↦ rw lk ((not_shown name).at m k)
    ];
  }

  display_name-Usable : (name : Bytes) → Safe Fails (Tabled (AllUsable E)) (display_name E c name)
  unfolding display_name
  display_name-Usable name =
      Yields-then _ _ (load_format-Usable E L c name false) (λ u. looked_up-Usable name)

  display_each-Usable :
      (names : List Bytes) → Safe Fails (Tabled (AllUsable E)) (display_each E c names)
  unfolding display_each
  display_each-Usable [] = Safe-pure _
  display_each-Usable (name ∷ names) =
      Yields-then _ _ (display_name-Usable name) (λ _. display_each-Usable names)

  pub act_display-Usable :
      (name : Option Bytes) → Safe Fails (Tabled (AllUsable E)) (act_display E c name)
  unfolding act_display
  act_display-Usable (some name) = display_name-Usable name
  act_display-Usable none =
      search (usable_rules, load_all_formats-Usable, display_each-Usable) depth 12
