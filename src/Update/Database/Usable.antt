-- ===== src/Update/Database/Usable.antt =====
-- `load_format` and `load_all_formats` of src/update-binfmts.c, and the formats in the table.
use mathlib.Core.Option.{some-injective}
use debian_binfmt_support.Prelude.{
  subst, if◌then◌else◌, All, ◌≡◌, refl, ◌∙◌, sym, Bool, true, false, Option, none, some, List, [],
  ◌∷◌, Bytes,
}
use debian_binfmt_support.Action.{done, gets, ◌>>=◌}
use debian_binfmt_support.Action.Safe.{Fails, Safe, Safe-pure, Yields-bind, Yields-then, Yields-if}
use debian_binfmt_support.Error.Tables.{Tabled}
use debian_binfmt_support.KvHash.{KvElem, IsLawful, find_first, kvhash_exists, kvhash_lookup}
use debian_binfmt_support.Format.{Binfmt}
use debian_binfmt_support.Format.Fields.Full.{IsUsable}
use debian_binfmt_support.Format.Load.Full.{Loads, binfmt_load-Loads}
use debian_binfmt_support.Update.Base.{
  Env, Config, State, Act, program_name, formats_exists, formats_lookup,
}
use debian_binfmt_support.Update.Base.Tables.{
  AllUsable, HoldsUsable, usable_rules, is_file-Safe, formats_insert-Usable,
}
use debian_binfmt_support.Update.Database.{
  admindir_name, keep_format, load_format, load_entries, opened_dir, load_all_formats,
}

module _ (E : Env) (L : IsLawful E.formats) (c : Config) where
  keep_format-Usable :
      (name : Bytes) (quiet : Bool) (b : Option Binfmt)
      → Loads quiet b
      → Safe Fails (Tabled (AllUsable E)) (keep_format E c name b)
  unfolding keep_format
  keep_format-Usable name quiet none u = Safe-pure _
  keep_format-Usable name quiet (some b) full = formats_insert-Usable E L name b full.usable

  pub load_format-Usable :
      (name : Bytes) (quiet : Bool) → Safe Fails (Tabled (AllUsable E)) (load_format E c name quiet)
  unfolding load_format
  load_format-Usable name quiet = Yields-then _ _ (is_file-Safe E _) λ there.
      Yields-if there _ _
        (Yields-bind _ _ (binfmt_load-Loads E.os program_name name (admindir_name E c name) quiet)
          (keep_format-Usable name quiet))
        (Safe-pure _)

  load_entries-Usable :
      (quiet : Bool) (entries : List Bytes)
      → Safe Fails (Tabled (AllUsable E)) (load_entries E c quiet entries)
  unfolding load_entries
  load_entries-Usable quiet [] = Safe-pure _
  load_entries-Usable quiet (entry ∷ entries) =
      Yields-then _ _ (search (usable_rules, load_format-Usable))
        (λ _. load_entries-Usable quiet entries)

  opened_dir-Usable :
      (quiet : Bool) (dir : Option (List Bytes))
      → Safe Fails (Tabled (AllUsable E)) (opened_dir E c quiet dir)
  unfolding opened_dir
  opened_dir-Usable quiet none = search usable_rules
  opened_dir-Usable quiet (some entries) = load_entries-Usable quiet entries

  pub load_all_formats-Usable :
      (quiet : Bool) → Safe Fails (Tabled (AllUsable E)) (load_all_formats E c quiet)
  unfolding load_all_formats
  load_all_formats-Usable quiet = search (usable_rules, opened_dir-Usable)

-- What `kvhash_exists` and then `kvhash_lookup` say of a name.
pub data Lookups (E : Env) (name : Bytes) (m : State E) : Type 0 where
  known :
      (b : Binfmt)
      → IsUsable b
      → formats_exists E name m ≡ (done true, m)
      → formats_lookup E name m ≡ (done (some b), m)
      → Lookups E name m
  unknown :
      formats_exists E name m ≡ (done false, m)
      → formats_lookup E name m ≡ (done none, m)
      → Lookups E name m

found_usable :
    (p : KvElem Binfmt → Bool) (es : List (KvElem Binfmt)) (e : KvElem Binfmt)
    → All HoldsUsable es
    → find_first p es ≡ some e
    → HoldsUsable e
found_usable p [] e h f = cc
found_usable p (x ∷ xs) e h f = by_test (p x) (found_usable p xs e h.1) f
  where
    by_test :
        (fits : Bool)
        → (find_first p xs ≡ some e → HoldsUsable e)
        → (if fits then some x else find_first p xs) ≡ some e
        → HoldsUsable e
    by_test true later g = subst HoldsUsable (some-injective _ _ g) h.0
    by_test false later g = later g

pub lookups :
    (E : Env) (L : IsLawful E.formats) (name : Bytes) (m : State E)
    → AllUsable E m.table
    → Lookups E name m
unfolding formats_exists formats_lookup kvhash_exists kvhash_lookup gets
lookups E L name m ok = by_entry _ refl
  where
    by_entry :
        (o : Option (KvElem Binfmt))
        → E.formats.hash_lookup m.table (record { key = name; value = none }) ≡ o
        → Lookups E name m
    by_entry none h = unknown (rw h refl) (rw h refl)
    by_entry (some e) h =
        let (b, v, u) =
          found_usable _ (E.formats.entries m.table) e ok (sym (L.finds m.table _) ∙ h) in
        known b u (rw h refl) (rw (h, v) refl)

-- A test of `kvhash_exists` in front of a lookup that it guards.
pub Safe-known :
    (E : Env) (L : IsLawful E.formats) (name : Bytes) {A : Type 0} (f : Bool → Act E A)
    (g : Option Binfmt → Act E A)
    → f true ≡ (formats_lookup E name >>= g)
    → ((b : Binfmt) → IsUsable b → Safe Fails (Tabled (AllUsable E)) (g (some b)))
    → Safe Fails (Tabled (AllUsable E)) (f false)
    → Safe Fails (Tabled (AllUsable E)) (formats_exists E name >>= f)
unfolding ◌>>=◌
Safe-known E L name f g guarded there absent = record {
  at = λ m k. elim (lookups E L name m k.held) [
    | known b u ex lk ↦ rw ex (rw guarded (rw lk ((there b u).at m k)))
    | unknown ex lk ↦ rw ex (absent.at m k)
  ];
}
