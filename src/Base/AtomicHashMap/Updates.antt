-- ===== src/Base/AtomicHashMap/Updates.antt =====
-- The map after any sequence of updates.
use native.Mathlib.Nat.{mod-lt}
use mathlib.Core.Bool.{false≢true}
use cmw.Prelude.{
  ℕ, ◌%◌, ◌<◌, ◌≡◌, ◌≢◌, refl, sym, ap, ◌∙◌, Bool, true, false, List, [], ◌∷◌, Option, none, some,
  ◌>>=◌, ◌==◌, ==_iff, if◌then◌else◌, arith, length, length-set, length-replicate, get_elem?, set,
  replicate, get_elem?-set_self, get_elem?-set_ne, All, All-at, All-set, zero, suc, Bool-cases, inl,
  inr,
}
use cmw.Base.AtomicHashMap.{
  Bucket, AtomicHashMap, bucket_has, bucket_get, bucket_insert, new, index, bucket_of, has, get,
  put,
}
use cmw.Base.AtomicHashMap.Buckets.{Sorted, is_some, has-get, get-insert, Sorted-insert}

pub record IsMap {V : Type 0} (m : AtomicHashMap V) : Type 0 where
  pub positive : 0 < m.capacity
  pub filled : length m.table ≡ m.capacity
  pub sorted : All Sorted m.table

-- The updates of a map; `none` is a read or a write outside the table.
unfoldable pub put_all : {V : Type 0} → List (ℕ × V) → AtomicHashMap V → Option (AtomicHashMap V)
put_all [] m = some m
put_all ((k, v) ∷ us) m = put m k v >>= put_all us

-- The value that the last update of a key gives it
unfoldable pub latest_of : {V : Type 0} → ℕ → List (ℕ × V) → Option V → Option V
latest_of key [] old = old
latest_of key ((k, v) ∷ us) old = latest_of key us (if k == key then some v else old)

in_table :
    {V : Type 0} (t : List (Bucket V)) (i : ℕ)
    → i < length t
    → (b : Bucket V) × (get_elem? t i ≡ some b)
in_table [] i lt = absurd (omega arith)
in_table (b ∷ t) zero lt = (b, refl)
in_table (b ∷ t) (suc i) lt = in_table t i (omega arith)

module _ {V : Type 0} (m : AtomicHashMap V) (key : ℕ) (b : Bucket V)
    (e : bucket_of m key ≡ some b) where
  get-some : get m key ≡ some (bucket_get key b)
  unfolding get
  get-some = rw (e, get)

  has-some : has m key ≡ some (bucket_has key b)
  unfolding has
  has-some = rw (e, has)

  -- The map with another bucket for the key
  changed : V → AtomicHashMap V
  changed value = record m { table = set m.table (index m key) (bucket_insert key value b) }

  put-some : (value : V) → put m key value ≡ some (changed value)
  unfolding put changed
  put-some value = rw (e, put)

module _ {V : Type 0} (m : AtomicHashMap V) (w : IsMap m) where
  open w use {positive, filled, sorted}

  bucket_found : (key : ℕ) → (b : Bucket V) × (bucket_of m key ≡ some b) × Sorted b
  unfolding bucket_of index
  bucket_found key =
      let (b, e) =
        in_table m.table (key % m.capacity) (omega (arith, mod-lt key {m = m.capacity} positive)) in
      (b, e, All-at Sorted m.table (key % m.capacity) b e sorted)

  pub has_lem : (key : ℕ) → (v : Option V) × (get m key ≡ some v) × (has m key ≡ some (is_some v))
  has_lem key =
      let (b, e, s) = bucket_found key in
      (bucket_get key b, get-some m key b e, has-some m key b e ∙ ap some (has-get key b none s))

  module _ (k : ℕ) (b : Bucket V) (e : bucket_of m k ≡ some b) (s : Sorted b) (value : V) where
    changed-IsMap : IsMap (changed m k b e value)
    unfolding changed
    changed-IsMap = record {
      positive = positive;
      filled = length-set m.table (index m k) (bucket_insert k value b) ∙ filled;
      sorted =
          All-set Sorted m.table (index m k) (bucket_insert k value b) (Sorted-insert k value b s)
            sorted;
    }

    same_bucket :
        (key : ℕ)
        → key % m.capacity ≡ k % m.capacity
        → bucket_of (changed m k b e value) key ≡ some (bucket_insert k value b)
    unfolding changed bucket_of index
    same_bucket key same =
        ap (get_elem? (set m.table (k % m.capacity) (bucket_insert k value b))) same
        ∙ get_elem?-set_self m.table (k % m.capacity) (bucket_insert k value b)
            (omega (arith, mod-lt k {m = m.capacity} positive))

    other_bucket :
        (key : ℕ)
        → key % m.capacity ≢ k % m.capacity
        → bucket_of (changed m k b e value) key ≡ bucket_of m key
    unfolding changed bucket_of index
    other_bucket key other =
        get_elem?-set_ne m.table (bucket_insert k value b) (λ same. other (sym same))

    get-changed :
        (key : ℕ)
        → get (changed m k b e value) key ≡ (if k == key then some (some value) else get m key)
    get-changed key = elim (Bool-cases (key % m.capacity == k % m.capacity)) [
      | inl hit ↦
          let same : key % m.capacity ≡ k % m.capacity = (==_iff _ _).0 hit in
          let found : bucket_of m key ≡ some b =
            unfold bucket_of index in ap (get_elem? m.table) same ∙ e in
          get-some _ key _ (same_bucket key same)
          ∙ ap some (get-insert key k value b none s)
          ∙ ground (arith, get-some m key b found)
      | inr miss ↦
          let other : key % m.capacity ≢ k % m.capacity =
            λ same. false≢true (sym miss ∙ (==_iff _ _).1 same) in
          let (b', e', s') = bucket_found key in
          get-some _ key b' (other_bucket key other ∙ e')
          ∙ sym (get-some m key b' e')
          ∙ elim (Bool-cases (k == key)) [
            | inl hit ↦ absurd (other (ap (λ n. n % m.capacity) (sym ((==_iff k key).0 hit))))
            | inr apart ↦ rw apart refl
          ]
    ]

-- An update returns, and changes what its key has.
pub put_lem :
    {V : Type 0} (m : AtomicHashMap V) (k : ℕ) (value : V)
    → IsMap m
    → (m' : AtomicHashMap V) × (put m k value ≡ some m')
      × IsMap m'
      × ((key : ℕ) → get m' key ≡ (if k == key then some (some value) else get m key))
put_lem m k value w =
    let (b, e, s) = bucket_found m w k in
    (
      changed m k b e value,
      put-some m k b e value,
      changed-IsMap m w k b e s value,
      get-changed m w k b e s value,
    )

if_some :
    {A : Type 0} (c : Bool) (x : A) {y : A} {o : Option A}
    → o ≡ some y
    → (if c then some x else o) ≡ some (if c then x else y)
if_some true x e = refl
if_some false x e = e

All-replicate : (V : Type 0) (n : ℕ) → All (Sorted {V = V}) (replicate n [])
All-replicate V zero = tt
All-replicate V (suc n) = (tt, All-replicate V n)

get_elem?-replicate : {A : Type 0} (n i : ℕ) (x : A) → i < n → get_elem? (replicate n x) i ≡ some x
get_elem?-replicate zero i x lt = absurd (omega arith)
get_elem?-replicate (suc n) zero x lt = refl
get_elem?-replicate (suc n) (suc i) x lt = get_elem?-replicate n i x (omega arith)

pub get-new : {V : Type 0} (size key : ℕ) → 0 < size → get (new {V = V} size) key ≡ some none
unfolding new bucket_of index bucket_get
get-new size key positive =
    get-some (new size) key []
      (get_elem?-replicate size (key % size) [] (omega (arith, mod-lt key {m = size} positive)))

both :
    {V : Type 0} (m : AtomicHashMap V) (w : IsMap m) (key : ℕ) (v : Option V)
    → get m key ≡ some v
    → (get m key ≡ some v) × (has m key ≡ some (is_some v))
both m w key v e =
    let (v', e', h) = has_lem m w key in
    let same : v' ≡ v = cc in (e, h ∙ ap (λ o. some (is_some o)) same)

-- The updates from a map on: what a key had, and what it has then
put_all_lem :
    {V : Type 0} (us : List (ℕ × V)) (m : AtomicHashMap V)
    → IsMap m
    → (m' : AtomicHashMap V) × (put_all us m ≡ some m')
      × IsMap m'
      × ((key : ℕ) (old : Option V)
          → get m key ≡ some old
          → get m' key ≡ some (latest_of key us old))
unfolding put_all latest_of
put_all_lem [] m w = (m, refl, w, λ key old e. e)
put_all_lem ((k, v) ∷ us) m w =
    let (b, e, s) = bucket_found m w k in
    let next = changed m k b e v in
    let (m', run, w', all) = put_all_lem us next (changed-IsMap m w k b e s v) in
    (
      m',
      ap (λ o. o >>= put_all us) (put-some m k b e v) ∙ run,
      w',
      λ key old before.
          all key (if k == key then some v else old)
            (get-changed m w k b e s v key ∙ if_some (k == key) (some v) before),
    )

pub new-IsMap : {V : Type 0} (size : ℕ) → 0 < size → IsMap (new {V = V} size)
unfolding new
new-IsMap {V} size positive = record {
  positive = positive;
  filled = length-replicate size [];
  sorted = All-replicate V size;
}

-- In a new map with some buckets, after any sequence of updates, none of which fails: `Get` of any key gives the value of
-- the key's last update, or nothing if there is none, and `Has` tells which.
pub updates_lem :
    {V : Type 0} (table_size : ℕ) (us : List (ℕ × V))
    → 0 < table_size
    → (m : AtomicHashMap V) × (put_all us (new table_size) ≡ some m)
      × ((key : ℕ)
          → (get m key ≡ some (latest_of key us none))
            × (has m key ≡ some (is_some (latest_of key us none))))
updates_lem table_size us positive =
    let w = new-IsMap table_size positive in
    let (m, run, w', all) = put_all_lem us (new table_size) w in
    (
      m,
      run,
      λ key. both m w' key (latest_of key us none) (all key none (get-new table_size key positive)),
    )
