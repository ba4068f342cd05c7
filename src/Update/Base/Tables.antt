-- ===== src/Update/Base/Tables.antt =====
-- The shared helpers of src/update-binfmts.c, and the formats in the table.
use debian_binfmt_support.Prelude.{
  ℕ, arith, Any, All, ◌≡◌, refl, ◌≢◌, text, str_eq, str_eq_iff, Bool-cases, ◌⊎◌, inl, inr, sym,
  subst, false, some, List, [], ◌∷◌, Bytes,
}
use debian_binfmt_support.Action.{Outcome, done, exited, exit, gets, pure, call, ◌>>=◌}
use debian_binfmt_support.Error.{observe, complain}
use debian_binfmt_support.Action.Safe.{Fails, Yields, Safe, Yields-call, Yields-gets, Safe-gets}
use debian_binfmt_support.Error.Tables.{Tabled, table_rules, observe-Safe}
use debian_binfmt_support.KvHash.{KvElem, IsLawful, kvhash_insert, kvhash_delete}
use debian_binfmt_support.Paths.{Paths}
use debian_binfmt_support.Format.{Binfmt}
use debian_binfmt_support.Format.Fields.Full.{IsUsable}
use debian_binfmt_support.Update.Base.{
  State, Env, Config, exists, is_file, is_directory, access_x, runs, formats_exists, formats_lookup,
  formats_insert, formats_delete, formats_entries, rename_mv, hurd_note, check_supported_os,
}

-- The entry holds a description that can be used.
abbrev pub HoldsUsable : KvElem Binfmt → Type 0
HoldsUsable e = (b : Binfmt) × (e.value ≡ some b) × IsUsable b

abbrev pub AllUsable : (E : Env) → E.formats.Table → Type 0
AllUsable E t = All HoldsUsable (E.formats.entries t)

All-intro :
    {A : Type 0} (Q : A → Type 0) (xs : List A) → ((a : A) → Any (λ x. a ≡ x) xs → Q a) → All Q xs
All-intro Q [] k = tt
All-intro Q (x ∷ xs) k = (k x (inl refl), All-intro Q xs (λ a h. k a (inr h)))

All-elim :
    {A : Type 0} (Q : A → Type 0) (xs : List A) (a : A) → All Q xs → Any (λ x. a ≡ x) xs → Q a
All-elim Q [] a h m = elim m [ ]
All-elim Q (x ∷ xs) a (q, h) m = elim m [
  | inl same ↦ subst Q (sym same) q
  | inr later ↦ All-elim Q xs a h later
]

module _ (E : Env) {X : ℕ → Type 0} {K : E.formats.Table → Type 0} where
  pub exists-Safe : (name : Bytes) → Safe X (Tabled K) (exists E name)
  unfolding exists
  exists-Safe name = observe-Safe _

  pub is_file-Safe : (name : Bytes) → Safe X (Tabled K) (is_file E name)
  unfolding is_file
  is_file-Safe name = observe-Safe _

  pub is_directory-Safe : (name : Bytes) → Safe X (Tabled K) (is_directory E name)
  unfolding is_directory
  is_directory-Safe name = observe-Safe _

  pub access_x-Safe : (name : Bytes) → Safe X (Tabled K) (access_x E name)
  unfolding access_x
  access_x-Safe name = observe-Safe _

  pub runs-Safe : (argv : List Bytes) → Safe X (Tabled K) (runs E argv)
  unfolding runs
  runs-Safe argv = search table_rules

  pub rename_mv-Safe : (source dest : Bytes) → Safe X (Tabled K) (rename_mv E source dest)
  unfolding rename_mv
  rename_mv-Safe source dest = search (table_rules, runs-Safe)

  pub formats_exists-Safe : (name : Bytes) → Safe X (Tabled K) (formats_exists E name)
  unfolding formats_exists
  formats_exists-Safe name = Safe-gets _

  pub formats_lookup-Safe : (name : Bytes) → Safe X (Tabled K) (formats_lookup E name)
  unfolding formats_lookup
  formats_lookup-Safe name = Safe-gets _

  pub formats_entries-Safe : Safe X (Tabled K) (formats_entries E)
  unfolding formats_entries
  formats_entries-Safe = Safe-gets _

-- The system is not Linux, and the program has ended with status 0 and only printed.
abbrev pub EndsForeign : {A : Type 0} → (E : Env) → State E → Outcome A × State E → Type 0
EndsForeign E m r =
    (E.os.sysname m.sys ≢ text "Linux")
    × (r.0 ≡ exited 0)
    × (r.1.sys ≡ m.sys)
    × (r.1.table ≡ m.table)

-- On Linux it does nothing; elsewhere it exits with status 0.
pub check_supported_os_cases :
    (E : Env) (m : State E)
    → ((E.os.sysname m.sys ≡ text "Linux") × (check_supported_os E m ≡ (done tt, m)))
      ⊎ EndsForeign E m (check_supported_os E m)
unfolding check_supported_os hurd_note ◌>>=◌ observe gets exit pure complain call
check_supported_os_cases E m = elim (Bool-cases (str_eq (E.os.sysname m.sys) (text "Linux"))) [
  | inl linux ↦ inl ((str_eq_iff (E.os.sysname m.sys) (text "Linux")).0 linux, rw linux refl)
  | inr foreign ↦ inr (
    λ same. absurd (ground (arith, (str_eq_iff (E.os.sysname m.sys) (text "Linux")).1 same)),
    ground arith,
    ground arith,
    ground arith,
  )
]

module _ (E : Env) (L : IsLawful E.formats) where
  pub formats_entries-Usable :
      Yields Fails (Tabled (AllUsable E)) (All HoldsUsable) (formats_entries E)
  unfolding formats_entries
  formats_entries-Usable = Yields-gets _ (λ m k. k.held)

  pub formats_insert-Usable :
      (name : Bytes) (b : Binfmt)
      → IsUsable b
      → Safe Fails (Tabled (AllUsable E)) (formats_insert E name (some b))
  unfolding formats_insert kvhash_insert
  formats_insert-Usable name b u = Yields-call _ λ m k. (
    tt,
    record {
      held = All-intro HoldsUsable _ λ e h.
          elim (L.insert_only m.table (record { key = name; value = some b }) e h) [
            | inl old ↦ All-elim HoldsUsable _ e k.held old
            | inr new ↦ subst HoldsUsable (sym new) (b, refl, u)
          ];
    },
  )

  pub formats_delete-Usable :
      (name : Bytes) → Safe Fails (Tabled (AllUsable E)) (formats_delete E name)
  unfolding formats_delete kvhash_delete
  formats_delete-Usable name = Yields-call _ λ m k. (
    tt,
    record {
      held =
          All-intro HoldsUsable _
            λ e h. All-elim HoldsUsable _ e k.held (L.delete_only m.table _ e h);
    },
  )

pub ruleset usable_rules = (
  table_rules, exists-Safe, is_file-Safe, is_directory-Safe, access_x-Safe, runs-Safe,
  rename_mv-Safe, formats_exists-Safe, formats_lookup-Safe, formats_entries-Safe,
)

-- The configuration without `--test`.
abbrev pub wet : Paths → Config
wet paths = record { test = false; paths = paths }
