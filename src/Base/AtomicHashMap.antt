-- ===== src/Base/AtomicHashMap.antt =====
-- base/atmoic_hash_map.h, each call on its own: a table of buckets, each a list of entries in the order of
-- their keys. The table's size is a power of two, so that the mask of a key is its remainder. An
-- exchange that another thread disturbs is left out.
pub mod Buckets
pub mod Updates
use cmw.Prelude.{
  ℕ, ◌%◌, Bool, true, false, List, [], ◌∷◌, Option, none, some, ◌==◌, ltb, if◌then◌else◌, get_elem?,
  set, replicate,
}

-- The entries after the head of a bucket
abbrev pub Bucket : Type 0 → Type 0
Bucket V = List (ℕ × V)

pub record AtomicHashMap (V : Type 0) : Type 0 where
  pub table : List (Bucket V)
  pub capacity : ℕ

module _ {V : Type 0} where
  -- `Bucket::Has`
  unfoldable pub bucket_has : ℕ → Bucket V → Bool
  bucket_has key [] = false
  bucket_has key ((k, v) ∷ es) = if ltb k key then bucket_has key es else k == key

  -- `Bucket::Get`, over the loop of `Find`
  unfoldable pub bucket_get : ℕ → Bucket V → Option V
  bucket_get key [] = none
  bucket_get key ((k, v) ∷ es) =
      if k == key then some v else if ltb key k then none else bucket_get key es

  -- `Bucket::Insert`, over the loop of `Find`
  unfoldable pub bucket_insert : ℕ → V → Bucket V → Bucket V
  bucket_insert key value [] = (key, value) ∷ []
  bucket_insert key value ((k, v) ∷ es) =
      if k == key
      then (k, value) ∷ es
      else if ltb key k
      then (key, value) ∷ (k, v) ∷ es
      else (k, v) ∷ bucket_insert key value es

  unfoldable pub new : ℕ → AtomicHashMap V
  new table_size = record { table = replicate table_size []; capacity = table_size }

  unfoldable pub index : AtomicHashMap V → ℕ → ℕ
  index m key = key % m.capacity

  -- The bucket of a key; `none` is a read outside the table.
  unfoldable pub bucket_of : AtomicHashMap V → ℕ → Option (Bucket V)
  unfolding index
  bucket_of m key = get_elem? m.table (index m key)

  -- `Has`, `Get` and `Set`
  unfoldable pub has : AtomicHashMap V → ℕ → Option Bool
  unfolding bucket_of bucket_has
  has m key = elim (bucket_of m key) [ none ↦ none | some b ↦ some (bucket_has key b) ]

  unfoldable pub get : AtomicHashMap V → ℕ → Option (Option V)
  unfolding bucket_of bucket_get
  get m key = elim (bucket_of m key) [ none ↦ none | some b ↦ some (bucket_get key b) ]

  unfoldable pub put : AtomicHashMap V → ℕ → V → Option (AtomicHashMap V)
  unfolding bucket_of bucket_insert
  put m key value = elim (bucket_of m key) [
    | none ↦ none
    | some b ↦ some (record m { table = set m.table (index m key) (bucket_insert key value b) })
  ]
