-- ===== src/KvHash.antt =====
-- src/kvhash.c and src/kvhash.h: string keys to pointers, over gnulib's hash table. The table is
-- a parameter, `HashLib`; the values are pointers, so each is nullable. Storage is not modelled:
-- the copies of keys and the release of entries that lost to an older one.
pub mod Laws
pub mod Assoc
use debian_binfmt_support.Prelude.{
  Any, ◌⊎◌, ℕ, Bool, true, false, Option, none, some, List, [], ◌∷◌, ◌≡◌, Bytes, str_eq, length,
  if◌then◌else◌,
}

-- The calls of gnulib's hash.c that the program makes, for entries `A` compared by `same`.
pub record HashLib (A : Type 0) (same : A → A → Bool) : Type 1 where
  pub Table : Type 0
  pub hash_initialize : Table
  pub hash_lookup : Table → A → Option A
  pub hash_insert : Table → A → A × Table
  pub hash_delete : Table → A → Option A × Table
  pub hash_get_n_entries : Table → ℕ
  -- The entries in the order of `hash_get_first` and `hash_get_next`.
  pub entries : Table → List A

-- The first entry that fits.
abbrev pub find_first {ℓ} : {A : Type ℓ} → (A → Bool) → List A → Option A
find_first p [] = none
find_first p (x ∷ xs) = if p x then some x else find_first p xs

abbrev pub or_new {ℓ} : {A : Type ℓ} → Option A → Option A → Option A
or_new (some a) b = some a
or_new none b = b

abbrev pub value_or {ℓ} : {A : Type ℓ} → Option A → A → A
value_or (some a) b = a
value_or none b = b

-- What the comments of hash.c promise of these calls.
pub record IsLawful {A : Type 0} {same : A → A → Bool} (H : HashLib A same) : Type 0 where
  pub initially_empty : H.entries H.hash_initialize ≡ []
  pub counts : (t : H.Table) → H.hash_get_n_entries t ≡ length (H.entries t)
  pub finds : (t : H.Table) (a : A) → H.hash_lookup t a ≡ find_first (same a) (H.entries t)
  -- "If ENTRY matches an entry already in the hash table, return the pointer to the entry from
  -- the table. Otherwise, insert ENTRY and return ENTRY."
  pub insert_returns :
      (t : H.Table) (a : A) → (H.hash_insert t a).0 ≡ value_or (H.hash_lookup t a) a
  pub insert_adds :
      (t : H.Table) (a b : A)
      → H.hash_lookup (H.hash_insert t a).1 b
        ≡ or_new (H.hash_lookup t b) (if same b a then some a else none)
  pub insert_existing :
      (t : H.Table) (a : A) {x : A} → H.hash_lookup t a ≡ some x → (H.hash_insert t a).1 ≡ t
  -- The entries are those that were inserted and not deleted.
  pub insert_only :
      (t : H.Table) (a e : A)
      → Any (λ x. e ≡ x) (H.entries (H.hash_insert t a).1)
      → Any (λ x. e ≡ x) (H.entries t) ⊎ (e ≡ a)
  pub delete_only :
      (t : H.Table) (a e : A)
      → Any (λ x. e ≡ x) (H.entries (H.hash_delete t a).1)
      → Any (λ x. e ≡ x) (H.entries t)
  -- "If ENTRY is already in the table, remove it and return the just-deleted data."
  pub delete_returns : (t : H.Table) (a : A) → (H.hash_delete t a).0 ≡ H.hash_lookup t a
  pub delete_removes :
      (t : H.Table) (a b : A)
      → H.hash_lookup (H.hash_delete t a).1 b ≡ (if same b a then none else H.hash_lookup t b)

-- `struct kvelem`
pub record KvElem (V : Type 0) : Type 0 where
  pub key : Bytes
  pub value : Option V

-- `kvhash_comparator`
abbrev pub kvhash_comparator : {V : Type 0} → KvElem V → KvElem V → Bool
kvhash_comparator a b = str_eq a.key b.key

abbrev pub KvLib : Type 0 → Type 1
KvLib V = HashLib (KvElem V) kvhash_comparator

module _ {V : Type 0} (H : KvLib V) where
  -- The entry with which a key is looked up, `entry.value = NULL`.
  abbrev probe : Bytes → KvElem V
  probe key = record { key = key; value = none }

  abbrev entry_exists : Option (KvElem V) → Bool
  entry_exists (some e) = true
  entry_exists none = false

  abbrev entry_value : Option (KvElem V) → Option V
  entry_value (some e) = e.value
  entry_value none = none

  abbrev pub kvhash_initialize : H.Table
  kvhash_initialize = H.hash_initialize

  unfoldable pub kvhash_exists : H.Table → Bytes → Bool
  kvhash_exists table key = entry_exists (H.hash_lookup table (probe key))

  unfoldable pub kvhash_lookup : H.Table → Bytes → Option V
  kvhash_lookup table key = entry_value (H.hash_lookup table (probe key))

  unfoldable pub kvhash_insert : H.Table → Bytes → Option V → Option V × H.Table
  kvhash_insert table key value =
      let (ret, table') = H.hash_insert table (record { key = key; value = value }) in
      (ret.value, table')

  unfoldable pub kvhash_delete : H.Table → Bytes → Option V × H.Table
  kvhash_delete table key =
      let (deleted, table') = H.hash_delete table (probe key) in (entry_value deleted, table')
