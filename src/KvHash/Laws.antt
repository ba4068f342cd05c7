-- ===== src/KvHash/Laws.antt =====
-- The table of src/kvhash.c as a partial map from keys to pointers.
use debian_binfmt_support.Prelude.{
  Bool, true, false, Option, none, some, ◌≡◌, refl, ◌∙◌, arith, Bytes, str_eq, if◌then◌else◌,
}
use debian_binfmt_support.KvHash.{
  IsLawful, KvElem, KvLib, or_new, value_or, kvhash_initialize, kvhash_exists, kvhash_lookup,
  kvhash_insert, kvhash_delete,
}

-- A map that tells a key with a null pointer from a key that is absent.
abbrev pub View : Type 0 → Type 0
View V = Bytes → Option (Option V)

abbrev pub view_of : {V : Type 0} → Option (KvElem V) → Option (Option V)
view_of (some e) = some e.value
view_of none = none

abbrev pub present {ℓ} : {A : Type ℓ} → Option A → Bool
present (some a) = true
present none = false

abbrev pub flat {ℓ} : {A : Type ℓ} → Option (Option A) → Option A
flat (some a) = a
flat none = none

module _ {V : Type 0} (H : KvLib V) where
  unfoldable pub view : H.Table → View V
  view t key = view_of (H.hash_lookup t (record { key = key; value = none }))

view_of-some :
    {V : Type 0} (o : Option (KvElem V)) {w : Option V}
    → view_of o ≡ some w
    → (e : KvElem V) × (o ≡ some e)
view_of-some none h = cc
view_of-some (some e) h = (e, refl)

module _ {V : Type 0} (H : KvLib V) (L : IsLawful H) where
  -- A lookup sees the key alone.
  hash_lookup-key :
      (t : H.Table) (key : Bytes) (v : Option V)
      → H.hash_lookup t (record { key = key; value = v })
        ≡ H.hash_lookup t (record { key = key; value = none })
  hash_lookup-key t key v =
      rw (L.finds t (record { key = key; value = v }))
        (rw (L.finds t (record { key = key; value = none })) refl)

  -- Every operation of kvhash.c as one on the map: insertion adds a key that is absent and leaves
  -- one that is there, null pointer or not, with its old value, which it returns; deletion removes
  -- one key and returns its value; the new table is empty.
  pub record Refines : Type 0 where
    pub view-initialize : (key : Bytes) → view H (kvhash_initialize H) key ≡ none
    pub exists-view : (t : H.Table) (key : Bytes) → kvhash_exists H t key ≡ present (view H t key)
    pub lookup-view : (t : H.Table) (key : Bytes) → kvhash_lookup H t key ≡ flat (view H t key)
    pub insert_returns_view :
        (t : H.Table) (key : Bytes) (v : Option V)
        → (kvhash_insert H t key v).0 ≡ value_or (view H t key) v
    pub view-insert :
        (t : H.Table) (key : Bytes) (v : Option V) (j : Bytes)
        → view H (kvhash_insert H t key v).1 j
          ≡ or_new (view H t j) (if str_eq j key then some v else none)
    pub delete_returns_view :
        (t : H.Table) (key : Bytes) → (kvhash_delete H t key).0 ≡ flat (view H t key)
    pub view-delete :
        (t : H.Table) (key j : Bytes)
        → view H (kvhash_delete H t key).1 j ≡ (if str_eq j key then none else view H t j)

  pub view-initialize_lem : (key : Bytes) → view H (kvhash_initialize H) key ≡ none
  unfolding view
  view-initialize_lem key = rw L.finds (rw L.initially_empty refl)

  pub kvhash_exists-view :
      (t : H.Table) (key : Bytes) → kvhash_exists H t key ≡ present (view H t key)
  unfolding view kvhash_exists
  kvhash_exists-view t key = ground arith

  pub kvhash_lookup-view : (t : H.Table) (key : Bytes) → kvhash_lookup H t key ≡ flat (view H t key)
  unfolding view kvhash_lookup
  kvhash_lookup-view t key = ground arith

  kvhash_insert_returns :
      (t : H.Table) (key : Bytes) (v : Option V)
      → (kvhash_insert H t key v).0 ≡ value_or (view H t key) v
  unfolding view kvhash_insert
  kvhash_insert_returns t key v = rw (L.insert_returns, hash_lookup-key t key v) (ground arith)

  pub view-kvhash_insert :
      (t : H.Table) (key : Bytes) (v : Option V) (j : Bytes)
      → view H (kvhash_insert H t key v).1 j
        ≡ or_new (view H t j) (if str_eq j key then some v else none)
  unfolding view kvhash_insert
  view-kvhash_insert t key v j = rw L.insert_adds (ground arith)

  kvhash_delete_returns :
      (t : H.Table) (key : Bytes) → (kvhash_delete H t key).0 ≡ flat (view H t key)
  unfolding view kvhash_delete
  kvhash_delete_returns t key = rw L.delete_returns (ground arith)

  pub view-kvhash_delete :
      (t : H.Table) (key j : Bytes)
      → view H (kvhash_delete H t key).1 j ≡ (if str_eq j key then none else view H t j)
  unfolding view kvhash_delete
  view-kvhash_delete t key j = rw L.delete_removes (ground arith)

  -- Over a hash table that keeps its documented promises, the operations of kvhash.c act on the
  -- map from keys to pointers as `Refines` says: in particular an insertion never replaces.
  pub kvhash-Refines : Refines
  kvhash-Refines = record {
    view-initialize = view-initialize_lem;
    exists-view = kvhash_exists-view;
    lookup-view = kvhash_lookup-view;
    insert_returns_view = kvhash_insert_returns;
    view-insert = view-kvhash_insert;
    delete_returns_view = kvhash_delete_returns;
    view-delete = view-kvhash_delete;
  }

  -- A key that is there keeps the whole table as it is.
  pub kvhash_insert-existing :
      (t : H.Table) (key : Bytes) (v w : Option V)
      → view H t key ≡ some w
      → (kvhash_insert H t key v).1 ≡ t
  unfolding view kvhash_insert
  kvhash_insert-existing t key v w h =
      let (e, found) = view_of-some (H.hash_lookup t (record { key = key; value = none })) h in
      L.insert_existing t (record { key = key; value = v }) (hash_lookup-key t key v ∙ found)
