-- ===== src/Data/CacheBuffer/History.antt =====
-- The ring against the list of all values that were ever stored in it.
use cmw.Prelude.{
  ℕ, ◌+◌, ◌-◌, ◌%◌, ◌^◌, ◌≤◌, ◌<◌, ◌≡◌, refl, sym, ap, ◌∙◌, ◌↔◌, inl, inr, true, List, [], ◌∷◌,
  ◌++◌, none, some, arith, ◌==◌, get_elem?, set, length, length-append, length-set,
  length-replicate, min, get_elem?-set_self, get_elem?-set_ne, get_elem?-append_left,
  get_elem?-append_end, mod-ne, Bool-cases, add64,
}
use native.Mathlib.Nat.{mod-lt, mod-eq-sub-mod, mod-eq_of_lt}
use native.Mathlib.Decide.{dec_lt}
use cmw.Data.CacheBuffer.{CacheBuffer, init, at, size, front, back, is_empty, is_full, store, fill}

-- The ring holds the last `capacity - 1` values of the history `h`, each at its position.
pub record Holds {A S : Type 0} (b : CacheBuffer A S) (h : List A) : Type 0 where
  pub positive : 0 < b.capacity
  pub small : b.capacity < 2 ^ 64
  pub storage : length b.buffer ≡ b.capacity
  pub newest : b.tail ≡ length h
  pub in_range : b.tail < 2 ^ 64
  pub dropped : b.head ≡ length h - (b.capacity - 1)
  pub cells :
      (pos : ℕ)
      → b.head < pos
      → pos ≤ b.tail
      → get_elem? b.buffer (pos % b.capacity) ≡ get_elem? h (pos - 1)

module _ {A S : Type 0} (b : CacheBuffer A S) (h : List A) (w : Holds b h) (v : A) where
  open w use {positive, small, storage, newest, in_range, dropped, cells}

  -- Both branches of `store` write the cell of the next position.
  slot : ℕ
  slot = (b.tail + 1) % b.capacity

  kept :
      (pos : ℕ)
      → b.head < pos
      → pos ≤ b.tail
      → b.tail + 1 < pos + b.capacity
      → get_elem? (set b.buffer slot v) (pos % b.capacity) ≡ get_elem? (h ++ v ∷ []) (pos - 1)
  unfolding slot
  kept pos lo hi near =
      get_elem?-set_ne b.buffer v
        (λ e. mod-ne pos (b.tail + 1) b.capacity (omega arith) near (sym e))
      ∙ cells pos lo hi
      ∙ sym (get_elem?-append_left h (v ∷ []) (pos - 1) (omega arith))

  written : get_elem? (set b.buffer slot v) slot ≡ get_elem? (h ++ v ∷ []) b.tail
  unfolding slot
  written =
      get_elem?-set_self b.buffer slot v
        (omega (arith, mod-lt (b.tail + 1) {m = b.capacity} positive))
      ∙ sym (get_elem?-append_end h v)
      ∙ ap (get_elem? (h ++ v ∷ [])) (sym newest)

  newest_cell :
      (pos : ℕ)
      → pos ≡ b.tail + 1
      → get_elem? (set b.buffer slot v) (pos % b.capacity) ≡ get_elem? (h ++ v ∷ []) (pos - 1)
  unfolding slot
  newest_cell pos e =
      ap (λ p. get_elem? (set b.buffer slot v) (p % b.capacity)) e
      ∙ written
      ∙ ap (get_elem? (h ++ v ∷ [])) (omega arith)

  cells' :
      (head pos : ℕ)
      → head ≡ length h + 1 - (b.capacity - 1)
      → head < pos
      → pos ≤ b.tail + 1
      → get_elem? (set b.buffer slot v) (pos % b.capacity) ≡ get_elem? (h ++ v ∷ []) (pos - 1)
  unfolding slot
  cells' head pos e lo hi = elim (dec_lt b.tail pos) [
    | yes last ↦ newest_cell pos (omega arith)
    | no old ↦ kept pos (omega arith) (omega arith) (omega arith)
  ]

  -- When the ring is full, the slot of the head is the slot of the next position.
  full_slot : is_full b ≡ true → b.head % b.capacity ≡ slot
  unfolding slot is_full
  full_slot full =
      let apart : b.tail + 1 ≡ b.head + b.capacity = ground arith in
      sym (
        mod-eq-sub-mod {n = b.tail + 1} {m = b.capacity} (omega arith)
        ∙ ap (λ n. n % b.capacity) (omega arith))

  next : CacheBuffer A S
  unfolding slot
  next = record b {
    buffer = set b.buffer slot v;
    head = length h + 1 - (b.capacity - 1);
    tail = b.tail + 1;
  }

  store-eq-next : length h + 1 < 2 ^ 64 → store b v ≡ next
  unfolding store next slot is_full
  store-eq-next lt = elim (Bool-cases (is_full b)) [
    | inl full ↦ ground (arith, full_slot full)
    | inr part ↦ ground (arith, mod-eq_of_lt {n = b.tail + 1} {m = 2 ^ 64})
  ]

  next-Holds : length h + 1 < 2 ^ 64 → Holds next (h ++ v ∷ [])
  unfolding next
  next-Holds lt = record {
    positive = positive;
    small = small;
    storage = length-set b.buffer slot v ∙ storage;
    newest = omega (arith, length-append h (v ∷ []));
    in_range = omega arith;
    dropped = omega (arith, length-append h (v ∷ []));
    cells = λ pos. cells' (length h + 1 - (b.capacity - 1)) pos refl;
  }

  -- `Fill` without a callback on a ring that holds the history h gives one that holds h and then the new
  -- value, full or not, as long as the positions stay below 2^64.
  pub store-Holds : length h + 1 < 2 ^ 64 → Holds (store b v) (h ++ v ∷ [])
  store-Holds lt = rw (store-eq-next lt) (next-Holds lt)

module _ {A S : Type 0} where
  -- A fresh ring for n values holds the empty history, where n + 1 is below 2^64.
  pub init-Holds : (n : ℕ) (null : A) → n + 1 < 2 ^ 64 → Holds (init {S = S} n null) []
  unfolding init
  init-Holds n null lt =
      let e : (n + 1) % 2 ^ 64 ≡ n + 1 = omega arith in
      record {
        positive = omega arith;
        small = omega arith;
        storage = length-replicate _ null;
        newest = omega arith;
        in_range = omega arith;
        dropped = omega arith;
        cells = λ pos lo hi. absurd (omega arith);
      }

module _ {A S : Type 0} {b : CacheBuffer A S} {h : List A} (w : Holds b h) where
  open w use {positive, small, storage, newest, in_range, dropped, cells}

  -- A position that is kept reads the value of the history there.
  pub at_lem :
      (i : ℕ) → length h - (b.capacity - 1) ≤ i → i < length h → at b (i + 1) ≡ get_elem? h i
  unfolding at
  at_lem i lo hi = cells (i + 1) (omega arith) (omega arith) ∙ ap (get_elem? h) (omega arith)

  -- The size of a ring that holds a history is the history's length, or the ring's number of values where
  -- the history is longer.
  pub size_lem : size b ≡ min (length h) (b.capacity - 1)
  unfolding size
  size_lem = omega arith

  -- A ring that holds a history is full exactly when the history is at least as long as the ring's number
  -- of values.
  pub is_full_iff : (is_full b ≡ true) ↔ (b.capacity - 1 ≤ length h)
  unfolding is_full
  is_full_iff = ground arith

  pub is_empty_lem : is_empty b ≡ (length h == 0)
  unfolding is_empty
  is_empty_lem = rw newest

  pub front_lem :
      2 ≤ b.capacity → 0 < length h → front b ≡ get_elem? h (length h - (b.capacity - 1))
  unfolding front
  front_lem two some_left =
      ap (at b) (omega arith) ∙ at_lem (length h - (b.capacity - 1)) (omega arith) (omega arith)

  pub back_lem : 2 ≤ b.capacity → 0 < length h → back b ≡ get_elem? h (length h - 1)
  unfolding back
  back_lem two some_left =
      ap (at b) (omega arith) ∙ at_lem (length h - 1) (omega arith) (omega arith)

module _ {A S : Type 0} (b : CacheBuffer A S) (v : A) where
  pub fill_plain : (s : S) → b.fusion_callback ≡ none → fill b v s ≡ (store b v, s)
  unfolding fill
  fill_plain s e = rw e

  pub fill_armed : {f : A → S → S} (s : S) → b.fusion_callback ≡ some f → fill b v s ≡ (b, f v s)
  unfolding fill
  fill_armed s e = rw e

  pub store_keeps :
      ((store b v).fusion_callback ≡ b.fusion_callback) × ((store b v).capacity ≡ b.capacity)
  unfolding store
  store_keeps = elim (Bool-cases (is_full b)) [
    | inl e ↦ unfold is_full in rw e (refl, refl)
    | inr e ↦ unfold is_full in rw e (refl, refl)
  ]

module _ {A S : Type 0} where
  pub init_fields :
      (n : ℕ) (null : A)
      → ((init {S = S} n null).fusion_callback ≡ none)
        × ((init {S = S} n null).capacity ≡ add64 n 1)
  unfolding init
  init_fields n null = (refl, refl)
