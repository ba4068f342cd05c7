-- ===== src/Update/Packaged/Keys.antt =====
-- The table that `get_import` of src/update-binfmts.c makes of a file.
use debian_binfmt_support.Prelude.{
  ◌≡◌, refl, ◌∙◌, arith, Option, none, some, List, [], ◌∷◌, map, Bytes, str_eq, if◌then◌else◌,
}
use debian_binfmt_support.Action.{done, ◌>>=◌}
use debian_binfmt_support.Error.{observe}
use debian_binfmt_support.KvHash.{KvLib, IsLawful, or_new, kvhash_initialize, kvhash_insert}
use debian_binfmt_support.KvHash.Laws.{view, view-initialize_lem, view-kvhash_insert}
use debian_binfmt_support.Format.Lines.{getline}
use debian_binfmt_support.Update.Base.{Env, State}
use debian_binfmt_support.Update.Packaged.{all_lines, key_value, import_lines, get_import}

abbrev next_lines : Option (Bytes × Bytes) → List Bytes
next_lines none = []
next_lines (some (line, rest)) = line ∷ all_lines rest

-- The lines of a text are what `getline` returns, one call after the other.
pub all_lines-getline : (s : Bytes) → all_lines s ≡ next_lines (getline s)
unfolding all_lines getline
all_lines-getline [] = refl
all_lines-getline (c ∷ s) = ground (arith, all_lines-getline s)

-- The value on the first line with this key.
abbrev pub first_value : Bytes → List (Bytes × Option Bytes) → Option (Option Bytes)
first_value k [] = none
first_value k ((j, v) ∷ kvs) = if str_eq k j then some v else first_value k kvs

module _ (H : KvLib Bytes) (L : IsLawful H) where
  view-import_lines :
      (lines : List Bytes) (t : H.Table) (k : Bytes)
      → view H (import_lines H t lines) k
        ≡ or_new (view H t k) (first_value k (map key_value lines))
  unfolding import_lines
  view-import_lines [] t k = ground arith
  view-import_lines (line ∷ lines) t k =
      view-import_lines lines (kvhash_insert H t (key_value line).0 (key_value line).1).1 k
      ∙ rw (view-kvhash_insert H L t (key_value line).0 (key_value line).1 k) (ground arith)

-- If the file opens, `get_import` returns a table in which a key is present exactly if it stands
-- on a line of the file, and has the value of the first such line: the text behind its first
-- space, or the null pointer if it has none. Later lines of the same key do not count. Keys are
-- those of the file in lower case. The call changes nothing.
pub get_import-first_value :
    (E : Env) (L : IsLawful E.args) (name file : Bytes) (m : State E)
    → E.os.read m.sys name ≡ some file
    → (t : E.args.Table) × (get_import E name m ≡ (done (some t), m))
      × ((k : Bytes) → view E.args t k ≡ first_value k (map key_value (all_lines file)))
unfolding get_import ◌>>=◌ observe
get_import-first_value E L name file m opened =
    let t : E.args.Table = import_lines E.args (kvhash_initialize E.args) (all_lines file) in
    (
      t,
      rw opened refl,
      λ k.
          view-import_lines E.args L (all_lines file) (kvhash_initialize E.args) k
          ∙ rw (view-initialize_lem E.args L k) refl,
    )
