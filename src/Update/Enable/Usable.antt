-- ===== src/Update/Enable/Usable.antt =====
-- `act_enable` of src/update-binfmts.c on a table of descriptions that can be used.
use debian_binfmt_support.Prelude.{
  ℕ, All, refl, ◌≢◌, true, false, Option, none, some, List, [], ◌∷◌, Bytes,
}
use debian_binfmt_support.Action.Safe.{
  Fails, Safe, Safe-pure, Yields-if, Yields-then, Yields-bind, Safe-each_worked,
}
use debian_binfmt_support.Paths.{Paths}
use debian_binfmt_support.Os.{Written, written, not_opened, not_closed}
use debian_binfmt_support.Error.Tables.{Tabled}
use debian_binfmt_support.KvHash.{KvElem, IsLawful}
use debian_binfmt_support.Format.{Binfmt}
use debian_binfmt_support.Format.Equality.{HasSpec}
use debian_binfmt_support.Format.Fields.Full.{IsUsable}
use debian_binfmt_support.Update.Base.{Env, Config}
use debian_binfmt_support.Update.Base.Tables.{
  AllUsable, HoldsUsable, usable_rules, formats_entries-Usable, wet,
}
use debian_binfmt_support.Update.Kernel.Usable.{load_binfmt_misc-Safe}
use debian_binfmt_support.Update.Database.Usable.{
  load_format-Usable, load_all_formats-Usable, Safe-known,
}
use debian_binfmt_support.Update.Enable.{
  is_set, same_spec_among, known_answer, needs_detector, registered, send, with_type, register,
  enable_absent, enable_name, enable_if_absent, enable_all, act_enable,
}
use debian_binfmt_support.Update.Enable.Shared.{HoldsSpec, same_spec_among-Any}

pub All-HoldsSpec : (es : List (KvElem Binfmt)) → All HoldsUsable es → All HoldsSpec es
All-HoldsSpec [] h = tt
All-HoldsSpec (e ∷ es) ((b, v, u), h) = ((b, v, u.spec), All-HoldsSpec es h)

module _ (E : Env) (c : Config) {X : ℕ → Type 0} {K : E.formats.Table → Type 0} where
  registered-Safe : (w : Written) → Safe X (Tabled K) (registered E c w)
  unfolding registered
  registered-Safe written = search usable_rules
  registered-Safe not_opened = search usable_rules
  registered-Safe not_closed = search usable_rules

  send-Safe : (name string : Bytes) → Safe X (Tabled K) (send E c name string)
  unfolding send
  send-Safe name string = search (usable_rules, registered-Safe)

module _ (E : Env) (L : IsLawful E.formats) (c : Config) where
  known_answer-Usable :
      (name : Bytes) (b : Binfmt) (es : List (KvElem Binfmt))
      → HasSpec b
      → All HoldsUsable es
      → Safe Fails (Tabled (AllUsable E)) (known_answer E c (same_spec_among name b es))
  unfolding known_answer
  known_answer-Usable name b es hb h =
      let (x, found, same) = same_spec_among-Any name b es hb (All-HoldsSpec es h) in
      rw found (Safe-pure x)

  needs_detector-Usable :
      (name : Bytes) (b : Binfmt)
      → HasSpec b
      → Safe Fails (Tabled (AllUsable E)) (needs_detector E c name b)
  unfolding needs_detector
  needs_detector-Usable name b hb = Yields-if (is_set b.detector) _ _ (Safe-pure true) (
      Yields-then _ _ (load_all_formats-Usable E L c true) λ u.
        Yields-bind _ _ (formats_entries-Usable E L) λ es h. known_answer-Usable name b es hb h)

  with_type-Usable :
      (name : Bytes) (b : Binfmt) (type : Option Bytes)
      → HasSpec b
      → type ≢ none
      → Safe Fails (Tabled (AllUsable E)) (with_type E c name b type)
  unfolding with_type
  with_type-Usable name b none hb t = absurd (t refl)
  with_type-Usable name b (some type) hb t =
      Yields-then _ _ (needs_detector-Usable name b hb) λ need. send-Safe E c name _

  pub register-Usable :
      (name : Bytes) (b : Binfmt)
      → IsUsable b
      → Safe Fails (Tabled (AllUsable E)) (register E c name (some b))
  unfolding register
  register-Usable name b u = with_type-Usable name b b.type u.spec u.spec.type_set

module _ (E : Env) (L : IsLawful E.formats) (paths : Paths) where
  enable_absent-Usable :
      (name : Bytes) → Safe Fails (Tabled (AllUsable E)) (enable_absent E (wet paths) name)
  unfolding enable_absent
  enable_absent-Usable name = Yields-then _ _ (load_format-Usable E L (wet paths) name false) λ u.
      Safe-known E L name _ (register E (wet paths) name) refl
        (register-Usable E L (wet paths) name) (search usable_rules)

  pub enable_name-Usable :
      (name : Bytes) → Safe Fails (Tabled (AllUsable E)) (enable_name E (wet paths) name)
  unfolding enable_name
  enable_name-Usable name =
      search (usable_rules, load_binfmt_misc-Safe, enable_absent-Usable) depth 12

  enable_if_absent-Usable :
      (name : Bytes) → Safe Fails (Tabled (AllUsable E)) (enable_if_absent E (wet paths) name)
  unfolding enable_if_absent
  enable_if_absent-Usable name = search (usable_rules, enable_name-Usable)

  enable_all-Usable : Safe Fails (Tabled (AllUsable E)) (enable_all E (wet paths))
  unfolding enable_all
  enable_all-Usable =
      search
        (
          usable_rules, load_binfmt_misc-Safe, load_all_formats-Usable, Safe-each_worked,
          enable_if_absent-Usable,
        )
        depth 12

  pub act_enable-Usable :
      (name : Option Bytes) → Safe Fails (Tabled (AllUsable E)) (act_enable E (wet paths) name)
  unfolding act_enable
  act_enable-Usable none = enable_all-Usable
  act_enable-Usable (some name) = enable_name-Usable name
