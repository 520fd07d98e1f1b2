-- ===== src/Base/BoundedQueue/Fifo.antt =====
-- The ring against a first-in-first-out list with a bound.
use native.Mathlib.Nat.{mod-lt, mod-eq-sub-mod, mod-eq_of_lt, mod-eq-sub-div-mul}
use native.Mathlib.Decide.{dec_lt}
use cmw.Prelude.{
  ℕ, ◌+◌, ◌%◌, ◌^◌, ◌≤◌, ◌<◌, ◌≡◌, refl, sym, ap, ◌∙◌, true, false, not, List, [], ◌∷◌, ◌++◌, some,
  add64, ◌==◌, ==_iff, ltb, if◌then◌else◌, get_elem?, set, arith, length, length-append, length-set,
  length-replicate, get_elem?-set_self, get_elem?-set_ne, get_elem?-append_left,
  get_elem?-append_end, mod-ne, Bool-cases, inl, inr, suc, get_elem?-some-lt,
}
use cmw.Base.BoundedQueue.{BoundedQueue, empty, taken, init, get_index, enqueue, dequeue, size}

-- The ring holds the values of a list, the oldest first.
pub record Holds {T : Type 0} (b : BoundedQueue T) (bound : ℕ) (q : List T) : Type 0 where
  pub pooled : b.pool_size ≡ bound + 2
  pub storage : length b.pool ≡ b.pool_size
  pub ends : b.tail ≡ b.head + 1 + length q
  pub committed : b.commit ≡ b.tail
  pub bounded : length q ≤ bound
  pub in_range : b.tail < 2 ^ 64
  pub cells :
      (i : ℕ) (x : T)
      → get_elem? q i ≡ some x
      → get_elem? b.pool ((b.head + 1 + i) % b.pool_size) ≡ some x

get_index_lem : {T : Type 0} (b : BoundedQueue T) (n : ℕ) → get_index b n ≡ n % b.pool_size
unfolding get_index
get_index_lem b n = sym (mod-eq-sub-div-mul n b.pool_size)

module _ {T : Type 0} (b : BoundedQueue T) (bound : ℕ) (q : List T) (w : Holds b bound q) where
  open w use {pooled, storage, ends, committed, bounded, in_range, cells}

  full : length q ≡ bound → (b.tail + 1) % b.pool_size ≡ b.head % b.pool_size
  full e =
      mod-eq-sub-mod {n = b.tail + 1} {m = b.pool_size} (omega arith)
      ∙ ap (λ n. n % b.pool_size) (omega arith)

  apart : length q < bound → ((b.tail + 1) % b.pool_size == b.head % b.pool_size) ≡ false
  apart lt = ground (arith, mod-ne b.head (b.tail + 1) b.pool_size (omega arith) (omega arith))

  -- The test for a full ring
  is_full :
      b.tail + 1 < 2 ^ 64
      → (get_index b (add64 b.tail 1) == get_index b b.head) ≡ not (ltb (length q) bound)
  is_full room =
      let next : add64 b.tail 1 ≡ b.tail + 1 = mod-eq_of_lt {n = b.tail + 1} {m = 2 ^ 64} room in
      rw (next, get_index_lem b (b.tail + 1), get_index_lem b b.head)
        (elim (Bool-cases (ltb (length q) bound)) [
          | inl part ↦ apart (ground arith) ∙ ap not (sym part)
          | inr all ↦
              let same : (b.tail + 1) % b.pool_size ≡ b.head % b.pool_size = full (ground arith) in
              (==_iff _ _).1 same ∙ ap not (sym all)
        ])

  module _ (v : T) (room : b.tail + 1 < 2 ^ 64) where
    unfoldable pub pushed : BoundedQueue T
    pushed = record b {
      tail = b.tail + 1;
      pool = set b.pool (b.tail % b.pool_size) v;
      commit = b.tail + 1;
    }

    pub enqueue-eq :
        enqueue b v ≡ (if ltb (length q) bound then some (true, pushed) else some (false, b))
    unfolding enqueue pushed
    enqueue-eq = ground (
      arith,
      is_full room,
      mod-eq_of_lt {n = b.tail + 1} {m = 2 ^ 64} room,
      get_index_lem b b.tail,
      committed,
    )

    pub pushed-Holds : length q < bound → Holds pushed bound (q ++ v ∷ [])
    unfolding pushed
    pushed-Holds lt = record {
      pooled = pooled;
      storage = length-set b.pool (b.tail % b.pool_size) v ∙ storage;
      ends = omega (arith, length-append q (v ∷ []));
      committed = refl;
      bounded = omega (arith, length-append q (v ∷ []));
      in_range = room;
      cells = cells';
    }
      where
        last : get_elem? (set b.pool (b.tail % b.pool_size) v) (b.tail % b.pool_size) ≡ some v
        last =
            get_elem?-set_self b.pool (b.tail % b.pool_size) v
              (omega (arith, mod-lt b.tail {m = b.pool_size} (omega arith)))

        cells' :
            (i : ℕ) (x : T)
            → get_elem? (q ++ v ∷ []) i ≡ some x
            → get_elem? (set b.pool (b.tail % b.pool_size) v) ((b.head + 1 + i) % b.pool_size)
              ≡ some x
        cells' i x e = elim (dec_lt i (length q)) [
          | yes old ↦
              get_elem?-set_ne b.pool v (λ s.
                mod-ne (b.head + 1 + i) b.tail b.pool_size (omega arith) (omega arith) (sym s))
              ∙ cells i x (sym (get_elem?-append_left q (v ∷ []) i old) ∙ e)
          | no new ↦
              let here : i ≡ length q =
                omega (arith, get_elem?-some-lt (q ++ v ∷ []) i x e, length-append q (v ∷ [])) in
              ap (λ n. get_elem? (set b.pool (b.tail % b.pool_size) v) (n % b.pool_size))
                (omega arith)
              ∙ last
              ∙ sym (get_elem?-append_end q v)
              ∙ ap (get_elem? (q ++ v ∷ [])) (sym here)
              ∙ e
        ]

module _ {T : Type 0} (b : BoundedQueue T) (bound : ℕ) where
  pub dequeue-nil : Holds b bound [] → dequeue b ≡ (empty, b)
  unfolding dequeue
  dequeue-nil w =
      ground (arith, mod-eq_of_lt {n = b.head + 1} {m = 2 ^ 64}, w.ends, w.committed, w.in_range)

  pub dequeue-cons :
      (x : T) (q : List T)
      → Holds b bound (x ∷ q)
      → dequeue b ≡ (taken x, record b { head = b.head + 1 })
  unfolding dequeue
  dequeue-cons x q w =
      let next : add64 b.head 1 ≡ b.head + 1 =
        mod-eq_of_lt {n = b.head + 1} {m = 2 ^ 64} (omega (arith, w.ends, w.in_range)) in
      let first : get_elem? b.pool (get_index b (b.head + 1)) ≡ some x =
        ap (get_elem? b.pool) (get_index_lem b (b.head + 1))
        ∙ ap (λ n. get_elem? b.pool (n % b.pool_size)) (omega arith)
        ∙ w.cells 0 x refl in
      let more : (b.head + 1 == b.commit) ≡ false = ground (arith, w.ends, w.committed) in
      rw (next, more, first)

  pub popped-Holds :
      (x : T) (q : List T) → Holds b bound (x ∷ q) → Holds (record b { head = b.head + 1 }) bound q
  popped-Holds x q w = record {
    pooled = w.pooled;
    storage = w.storage;
    ends = omega (arith, w.ends);
    committed = w.committed;
    bounded = omega (arith, w.bounded);
    in_range = w.in_range;
    cells =
        λ i y e. ap (λ n. get_elem? b.pool (n % b.pool_size)) (omega arith) ∙ w.cells (suc i) y e;
  }

  pub size_lem : (q : List T) → Holds b bound q → size b ≡ length q
  unfolding size
  size_lem q w = omega (arith, w.ends, w.in_range)

pub init-Holds :
    {T : Type 0} (bound : ℕ) (null : T) → bound + 2 < 2 ^ 64 → Holds (init bound null) bound []
unfolding init
init-Holds bound null small = record {
  pooled = mod-eq_of_lt {n = bound + 2} {m = 2 ^ 64} small;
  storage = length-replicate (add64 bound 2) null;
  ends = refl;
  committed = refl;
  bounded = omega arith;
  in_range = omega arith;
  cells = λ i x e. cc;
}
