-- ===== src/Find/Candidates/Asserts.antt =====
-- The assertions of `load_all_formats` in src/find.c.
use debian_binfmt_support.Prelude.{
  false, ◌≡◌, refl, ◌≢◌, Option, none, some, List, [], ◌∷◌, Bytes, path_in,
}
use debian_binfmt_support.Action.Safe.{
  Fails, Ends, Holds-Ends, Safe, Safe-pure, Yields-then, Yields-bind, Yields-if,
}
use debian_binfmt_support.Os.{Os, Machine}
use debian_binfmt_support.Error.Tables.{Tabled, table_rules, observe-Safe}
use debian_binfmt_support.Paths.{Paths}
use debian_binfmt_support.Format.{Binfmt}
use debian_binfmt_support.Format.Load.Full.{Loads, binfmt_load-Loads}
use debian_binfmt_support.Find.Candidates.{
  is_dot, asserted, loaded_candidate, load_entry, load_entries, opened_dir, load_all_formats,
}

module _ (os : Os) (pn : Bytes) (paths : Paths) {T : Type 0} {K : T → Type 0} where
  asserted-Safe :
      (field : Option Bytes) → field ≢ none → Safe Fails (Tabled K) (asserted os pn paths field)
  unfolding asserted
  asserted-Safe none h = absurd (h refl)
  asserted-Safe (some s) h = Safe-pure s

  loaded_candidate-Safe :
      (b : Option Binfmt) → Loads false b → Safe Fails (Tabled K) (loaded_candidate os pn paths b)
  unfolding loaded_candidate
  loaded_candidate-Safe none h = elim h [ ]
  loaded_candidate-Safe (some b) f =
      let spec = f.usable.spec in
      Yields-then _ _ (asserted-Safe b.type spec.type_set) λ type.
        Yields-then _ _ (asserted-Safe b.magic spec.magic_set) λ magic.
          Yields-then _ _ (asserted-Safe b.mask spec.mask_set) λ mask.
            Yields-then _ _ (asserted-Safe b.offset spec.offset_set) λ offset.
              Yields-then _ _ (asserted-Safe b.interpreter f.interpreter_set) λ interpreter.
                Yields-then _ _ (asserted-Safe b.detector f.detector_set) λ detector. Safe-pure _

  load_entry-Safe : (entry : Bytes) → Safe Fails (Tabled K) (load_entry os pn paths entry)
  unfolding load_entry
  load_entry-Safe entry = Yields-if (is_dot entry) _ _ (Safe-pure _) (
      Yields-then _ _ (observe-Safe _) λ enabled.
        Yields-if enabled _ _
          (Yields-bind _ _ (binfmt_load-Loads os pn entry (path_in paths.admindir entry) false)
            loaded_candidate-Safe)
          (Safe-pure _))

  load_entries-Safe :
      (entries : List Bytes) → Safe Fails (Tabled K) (load_entries os pn paths entries)
  unfolding load_entries
  load_entries-Safe [] = Safe-pure _
  load_entries-Safe (entry ∷ entries) =
      Yields-then _ _ (load_entry-Safe entry)
        λ c. Yields-then _ _ (load_entries-Safe entries) λ rest. Safe-pure _

  opened_dir-Safe : (dir : Option (List Bytes)) → Safe Fails (Tabled K) (opened_dir os pn paths dir)
  unfolding opened_dir
  opened_dir-Safe none = search table_rules
  opened_dir-Safe (some entries) = load_entries-Safe entries

  load_all_formats-Safe : Safe Fails (Tabled K) (load_all_formats os pn paths)
  unfolding load_all_formats
  load_all_formats-Safe = search (table_rules, opened_dir-Safe)

-- Whatever is in the two directories, the assertions of `load_all_formats` in find.c never fail:
-- the call returns or exits with status 2, and leaves the table of formats alone.
pub load_all_formats_asserts :
    (os : Os) (program_name : Bytes) (paths : Paths) {T : Type 0} (m : Machine os.State T)
    → Ends (load_all_formats os program_name paths m).0
      × ((load_all_formats os program_name paths m).1.table ≡ m.table)
load_all_formats_asserts os program_name paths m =
    let (h, t) =
      (load_all_formats-Safe os program_name paths {K = λ t. t ≡ m.table}).at m
        (record { held = refl }) in
    (Holds-Ends _ h, t.held)
