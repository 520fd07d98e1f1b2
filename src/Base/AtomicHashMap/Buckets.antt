-- ===== src/Base/AtomicHashMap/Buckets.antt =====
-- A bucket whose entries stand in the order of their keys.
use cmw.Prelude.{
  ℕ, ◌<◌, ◌≡◌, refl, Bool, true, false, [], ◌∷◌, Option, none, some, ◌==◌, ltb, ltb→lt,
  if◌then◌else◌, arith, Bool-cases, inl, inr,
}
use cmw.Base.AtomicHashMap.{Bucket, bucket_has, bucket_get, bucket_insert}

abbrev pub is_some : {A : Type 0} → Option A → Bool
is_some none = false
is_some (some a) = true

module _ {V : Type 0} where
  -- Every key is above a bound, and below those of the entries after it.
  abbrev pub Above : Option ℕ → Bucket V → Type 0
  Above low [] = Unit
  Above none ((k, v) ∷ es) = Above (some k) es
  Above (some low) ((k, v) ∷ es) = (low < k) × Above (some k) es

  abbrev pub Sorted : Bucket V → Type 0
  Sorted b = Above none b

  get-below :
      (key low : ℕ) (b : Bucket V) → Above (some low) b → key < low → bucket_get key b ≡ none
  unfolding bucket_get
  get-below key low [] s lt = refl
  get-below key low ((k, v) ∷ es) s lt = ground (arith, s.0)

  pub has-get :
      (key : ℕ) (b : Bucket V) (low : Option ℕ)
      → Above low b
      → bucket_has key b ≡ is_some (bucket_get key b)
  unfolding bucket_has bucket_get
  has-get key [] low s = refl
  has-get key ((k, v) ∷ es) none s = ground (arith, has-get key es (some k) s)
  has-get key ((k, v) ∷ es) (some low) s = ground (arith, has-get key es (some k) s.1)

  pub get-insert :
      (key j : ℕ) (value : V) (b : Bucket V) (low : Option ℕ)
      → Above low b
      → bucket_get key (bucket_insert j value b)
        ≡ (if j == key then some value else bucket_get key b)
  unfolding bucket_get bucket_insert
  get-insert key j value [] low s = ground arith
  get-insert key j value ((k, v) ∷ es) none s =
      ground (arith, get-insert key j value es (some k) s, get-below key k es s)
  get-insert key j value ((k, v) ∷ es) (some low) s =
      ground (arith, get-insert key j value es (some k) s.1, get-below key k es s.1)

  Above-insert :
      (j low : ℕ) (value : V) (b : Bucket V)
      → Above (some low) b
      → low < j
      → Above (some low) (bucket_insert j value b)
  unfolding bucket_insert
  Above-insert j low value [] s lt = (lt, tt)
  Above-insert j low value ((k, v) ∷ es) s lt = elim (Bool-cases (k == j)) [
    | inl same ↦ rw same (s.0, s.1)
    | inr other ↦ elim (Bool-cases (ltb j k)) [
      | inl less ↦ rw (other, less) (lt, (ltb→lt j k less, s.1))
      | inr more ↦ rw (other, more) (s.0, Above-insert j k value es s.1 (ground arith))
    ]
  ]

  pub Sorted-insert :
      (j : ℕ) (value : V) (b : Bucket V) → Sorted b → Sorted (bucket_insert j value b)
  unfolding bucket_insert
  Sorted-insert j value [] s = tt
  Sorted-insert j value ((k, v) ∷ es) s = elim (Bool-cases (k == j)) [
    | inl same ↦ rw same s
    | inr other ↦ elim (Bool-cases (ltb j k)) [
      | inl less ↦ rw (other, less) (ltb→lt j k less, s)
      | inr more ↦ rw (other, more) (Above-insert j k value es s (ground arith))
    ]
  ]
