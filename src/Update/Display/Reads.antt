-- ===== src/Update/Display/Reads.antt =====
-- `act_display` of src/update-binfmts.c, and the state of the system.
use debian_binfmt_support.Prelude.{Option, none, some, List, [], ◌∷◌, Bytes}
use debian_binfmt_support.Action.Keeps.{Keeps, Keeps-pure, Keeps-bind, Keeps-crash}
use debian_binfmt_support.Format.{Binfmt}
use debian_binfmt_support.Update.Base.{Env, Config}
use debian_binfmt_support.Update.Base.Reads.{Still, still_rules}
use debian_binfmt_support.Update.Database.Reads.{load_format-Still, load_all_formats-Still}
use debian_binfmt_support.Update.Display.{
  print_description, display_found, display_name, display_each, act_display,
}

module _ (E : Env) (c : Config) {s : E.os.State} where
  print_description-Still :
      (b : Binfmt) (p : Option Bytes) → Keeps (Still E s) (print_description E c b p)
  unfolding print_description
  print_description-Still b none = Keeps-crash
  print_description-Still b (some p) = search still_rules

  display_found-Still :
      (name : Bytes) (b : Option Binfmt) → Keeps (Still E s) (display_found E c name b)
  unfolding display_found
  display_found-Still name none = search still_rules
  display_found-Still name (some b) = search (still_rules, print_description-Still)

  display_name-Still : (name : Bytes) → Keeps (Still E s) (display_name E c name)
  unfolding display_name
  display_name-Still name = search (still_rules, load_format-Still, display_found-Still)

  display_each-Still : (names : List Bytes) → Keeps (Still E s) (display_each E c names)
  unfolding display_each
  display_each-Still [] = Keeps-pure _
  display_each-Still (name ∷ names) =
      Keeps-bind _ _ (display_name-Still name) (λ _. display_each-Still names)

  pub act_display-Still : (name : Option Bytes) → Keeps (Still E s) (act_display E c name)
  unfolding act_display
  act_display-Still none = search (still_rules, load_all_formats-Still, display_each-Still) depth 12
  act_display-Still (some name) = display_name-Still name
