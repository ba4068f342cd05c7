-- ===== src/KvHash/Assoc.antt =====
-- An association list in insertion order in place of gnulib's hash table.
use debian_binfmt_support.Prelude.{
  Any, ◌⊎◌, none, some, List, [], ◌∷◌, ◌≡◌, refl, arith, str_eq, str_eq_iff, length, if◌then◌else◌,
}
use debian_binfmt_support.KvHash.{
  IsLawful, KvElem, KvLib, find_first, or_new, value_or, kvhash_comparator,
}

module _ {V : Type 0} where
  insert_last : List (KvElem V) → KvElem V → KvElem V × List (KvElem V)
  insert_last [] a = (a, a ∷ [])
  insert_last (x ∷ xs) a =
      let (r, xs') = insert_last xs a in if kvhash_comparator a x then (x, x ∷ xs) else (r, x ∷ xs')

  remove : List (KvElem V) → KvElem V → List (KvElem V)
  remove [] a = []
  remove (x ∷ xs) a = let rest = remove xs a in if kvhash_comparator a x then rest else x ∷ rest

  unfoldable pub assoc_lib : KvLib V
  unfolding insert_last remove str_eq
  assoc_lib = record {
    Table = List (KvElem V);
    hash_initialize = [];
    hash_lookup = λ t a. find_first (kvhash_comparator a) t;
    hash_insert = insert_last;
    hash_delete = λ t a. (find_first (kvhash_comparator a) t, remove t a);
    hash_get_n_entries = length;
    entries = λ t. t;
  }

  insert_last_returns :
      (t : List (KvElem V)) (a : KvElem V)
      → (insert_last t a).0 ≡ value_or (find_first (kvhash_comparator a) t) a
  unfolding insert_last
  insert_last_returns [] a = refl
  insert_last_returns (x ∷ t) a = ground (arith, insert_last_returns t a)

  find_first-insert_last :
      (t : List (KvElem V)) (a b : KvElem V)
      → find_first (kvhash_comparator b) (insert_last t a).1
        ≡ or_new
            (find_first (kvhash_comparator b) t)
            (if kvhash_comparator b a then some a else none)
  unfolding insert_last
  find_first-insert_last [] a b = refl
  find_first-insert_last (x ∷ t) a b = ground (
    arith,
    find_first-insert_last t a b,
    str_eq_iff a.key x.key,
    str_eq_iff b.key x.key,
    str_eq_iff b.key a.key,
  )

  insert_last-existing :
      (t : List (KvElem V)) (a : KvElem V) {x : KvElem V}
      → find_first (kvhash_comparator a) t ≡ some x
      → (insert_last t a).1 ≡ t
  unfolding insert_last
  insert_last-existing [] a h = cc
  insert_last-existing (y ∷ t) a {x} h = ground (arith, insert_last-existing t a {x = x})

  find_first-remove :
      (t : List (KvElem V)) (a b : KvElem V)
      → find_first (kvhash_comparator b) (remove t a)
        ≡ (if kvhash_comparator b a then none else find_first (kvhash_comparator b) t)
  unfolding remove
  find_first-remove [] a b = ground arith
  find_first-remove (x ∷ t) a b = ground (
    arith,
    find_first-remove t a b,
    str_eq_iff a.key x.key,
    str_eq_iff b.key x.key,
    str_eq_iff b.key a.key,
  )

  abbrev IsIn : KvElem V → List (KvElem V) → Type 0
  IsIn e xs = Any (λ x. e ≡ x) xs

  insert_last_only :
      (t : List (KvElem V)) (a e : KvElem V) → IsIn e (insert_last t a).1 → IsIn e t ⊎ (e ≡ a)
  unfolding insert_last
  insert_last_only [] a e h = ground arith
  insert_last_only (x ∷ t) a e h = ground (arith, insert_last_only t a e)

  remove_only : (t : List (KvElem V)) (a e : KvElem V) → IsIn e (remove t a) → IsIn e t
  unfolding remove
  remove_only [] a e h = h
  remove_only (x ∷ t) a e h = ground (arith, remove_only t a e)

  pub assoc_lib-IsLawful : IsLawful assoc_lib
  unfolding assoc_lib
  assoc_lib-IsLawful = record {
    initially_empty = refl;
    counts = λ t. refl;
    finds = λ t a. refl;
    insert_returns = insert_last_returns;
    insert_existing = insert_last-existing;
    insert_adds = find_first-insert_last;
    insert_only = insert_last_only;
    delete_only = remove_only;
    delete_returns = λ t a. refl;
    delete_removes = find_first-remove;
  }
