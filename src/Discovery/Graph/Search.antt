-- ===== src/Discovery/Graph/Search.antt =====
-- The loop of `LevelTraverse`: what it keeps on its way, and that its fuel is enough.
use cmw.Prelude.{
  ℕ, zero, suc, ◌+◌, ◌<◌, ◌≡◌, refl, sym, ap, subst, ◌∙◌, ◌⊎◌, true, false, List, [], ◌∷◌, ◌++◌,
  some, arith, In, In-left, In-right, In-split, length, length-append, length-map, Bool-cases, inl,
  inr,
}
use cmw.Prelude.Assoc.{Text, text_beq, text_beq_iff, text_eq}
use cmw.Discovery.Graph.{Vertice, AdjacencyList, set_of, successors, touch, contains, level_loop}
use cmw.Discovery.Graph.Adjacency.{set_of-touch}
use cmw.Discovery.Graph.Walks.{Walk, contains_lem, unseen, unseen-cons, unseen-touch}

-- What a finished search leaves: the same successors, every visited vertex at the end of a walk, and
-- `end` among them, or else nothing beyond them.
pub record Searched (l : AdjacencyList) (start end : Vertice) (visited : List Text)
    (l' : AdjacencyList) : Type 0 where
  pub same : (u : Text) → set_of l' u ≡ set_of l u
  pub walked : (v : Vertice) → In v visited → Walk l start v
  pub closed :
      In end visited
      ⊎ (In start visited × ((u v : Vertice) → In u visited → In v (successors l u) → In v visited))

-- The search on its way
pub record Searching (l : AdjacencyList) (start end : Vertice) (visited : List Text)
    (queue : List Vertice) (l' : AdjacencyList) : Type 0 where
  pub same : (u : Text) → set_of l' u ≡ set_of l u
  pub walked : (v : Vertice) → In v visited → Walk l start v
  pub queued : (v : Vertice) → In v queue → Walk l start v
  pub begun : In start visited ⊎ In start queue
  pub open_ends : (u v : Vertice) → In u visited → In v (successors l u) → In v visited ⊎ In v queue

module _ {l l' : AdjacencyList} {start end curr : Vertice} {visited : List Text}
    {queue : List Vertice} (s : Searching l start end visited (curr ∷ queue) l') where
  -- A vertex that was visited before leaves the queue.
  skip-Searching : contains curr visited ≡ true → Searching l start end visited queue l'
  skip-Searching old = record {
    same = s.same;
    walked = s.walked;
    queued = λ v h. s.queued v (inr h);
    begun = elim s.begun [ inl h ↦ inl h | inr h ↦ drop_curr start h ];
    open_ends = λ u v hu hv. elim (s.open_ends u v hu hv) [ inl h ↦ inl h | inr h ↦ drop_curr v h ];
  }
    where
      drop_curr : (v : Vertice) → In v (curr ∷ queue) → In v visited ⊎ In v queue
      drop_curr v (inl e) = inl (subst (λ x. In x visited) (sym e) (contains_lem curr visited old))
      drop_curr v (inr h) = inr h

  found-Searched : curr ≡ end → Searched l start end (curr ∷ visited) l'
  found-Searched e = record { same = s.same; walked = walked'; closed = inl (inl (sym e)) }
    where
      walked' : (v : Vertice) → In v (curr ∷ visited) → Walk l start v
      walked' v (inl e) = s.queued v (inl e)
      walked' v (inr h) = s.walked v h

  -- A new vertex is visited, and its successors join the queue.
  expand-Searching :
      Searching l start end
        (curr ∷ visited)
        (queue ++ successors (touch curr l') curr)
        (touch curr l')
  expand-Searching = record {
    same = same';
    walked = walked';
    queued = queued';
    begun = elim s.begun [ inl h ↦ inl (inr h) | inr h ↦ visit_curr start h ];
    open_ends = open_ends';
  }
    where
      same' : (u : Text) → set_of (touch curr l') u ≡ set_of l u
      same' u = set_of-touch curr u l' ∙ s.same u

      after : successors (touch curr l') curr ≡ successors l curr
      after = rw (same' curr)

      walked' : (v : Vertice) → In v (curr ∷ visited) → Walk l start v
      walked' v (inl e) = s.queued v (inl e)
      walked' v (inr h) = s.walked v h

      queued' : (v : Vertice) → In v (queue ++ successors (touch curr l') curr) → Walk l start v
      queued' v h = elim (In-split v queue _ h) [
        | inl h ↦ s.queued v (inr h)
        | inr h ↦ Walk.step (s.queued curr (inl refl)) (rw after at h)
      ]

      visit_curr :
          (v : Vertice)
          → In v (curr ∷ queue)
          → In v (curr ∷ visited) ⊎ In v (queue ++ successors (touch curr l') curr)
      visit_curr v (inl e) = inl (inl e)
      visit_curr v (inr h) = inr (In-left v queue _ h)

      open_ends' :
          (u v : Vertice)
          → In u (curr ∷ visited)
          → In v (successors l u)
          → In v (curr ∷ visited) ⊎ In v (queue ++ successors (touch curr l') curr)
      open_ends' u v (inl e) hv =
          let hv' : In v (successors l curr) = rw e at hv in inr (In-right v queue _ (rw after hv'))
      open_ends' u v (inr hu) hv = elim (s.open_ends u v hu hv) [
        | inl h ↦ inl (inr h)
        | inr h ↦ visit_curr v h
      ]

module _ (end curr : Vertice) (f : ℕ) (visited : List Text) (queue : List Vertice)
    (l' : AdjacencyList) where
  level_loop-skip :
      contains curr visited ≡ true
      → level_loop (suc f) end visited (curr ∷ queue) l' ≡ level_loop f end visited queue l'
  unfolding level_loop
  level_loop-skip old = rw old

  level_loop-found :
      contains curr visited ≡ false
      → text_beq curr end ≡ true
      → level_loop (suc f) end visited (curr ∷ queue) l' ≡ some (curr ∷ visited, l')
  unfolding level_loop
  level_loop-found new last = rw (new, last)

  level_loop-expand :
      contains curr visited ≡ false
      → text_beq curr end ≡ false
      → level_loop (suc f) end visited (curr ∷ queue) l'
        ≡ level_loop f end
            (curr ∷ visited)
            (queue ++ successors (touch curr l') curr)
            (touch curr l')
  unfolding level_loop
  level_loop-expand new more = rw (new, more)

length-successors : (l : AdjacencyList) (u : Text) → length (successors l u) ≡ length (set_of l u)
length-successors l u = length-map (set_of l u) (λ e. e.1)

pub level_loop_lem :
    {l : AdjacencyList} {start end : Vertice} (f : ℕ) (visited : List Text) (queue : List Vertice)
    (l' : AdjacencyList)
    → Searching l start end visited queue l'
    → unseen visited l' + length queue < f
    → (vs : List Text) × (l'' : AdjacencyList) × (level_loop f end visited queue l'
        ≡ some (vs, l''))
      × Searched l start end vs l''
level_loop_lem zero visited queue l' s lt = absurd (omega arith)
level_loop_lem (suc f) visited [] l' s lt = (
  visited,
  l',
  unfold level_loop in refl,
  record {
    same = s.same;
    walked = s.walked;
    closed = inr (
      elim s.begun [ inl h ↦ h | inr h ↦ absurd h ],
      λ u v hu hv. elim (s.open_ends u v hu hv) [ inl h ↦ h | inr h ↦ absurd h ],
    );
  },
)
level_loop_lem {end = end} (suc f) visited (curr ∷ queue) l' s lt =
    elim (Bool-cases (contains curr visited)) [
      | inl old ↦
          let (vs, l'', e, d) =
            level_loop_lem f visited queue l' (skip-Searching s old) (omega arith) in
          (vs, l'', level_loop-skip end curr f visited queue l' old ∙ e, d)
      | inr new ↦ elim (Bool-cases (text_beq curr end)) [
        | inl last ↦ (
          curr ∷ visited,
          l',
          level_loop-found end curr f visited queue l' new last,
          found-Searched s ((text_beq_iff curr end).0 last),
        )
        | inr more ↦
            let less : unseen (curr ∷ visited) (touch curr l')
                  + length (queue ++ successors (touch curr l') curr)
                < f =
              omega (
                arith,
                unseen-touch (curr ∷ visited) curr l',
                unseen-cons curr visited l' new,
                length-append queue (successors (touch curr l') curr),
                length-successors (touch curr l') curr,
                ap (length {A = Text × Vertice}) (set_of-touch curr curr l'),
              ) in
            let (vs, l'', e, d) =
              level_loop_lem f (curr ∷ visited) (queue ++ successors (touch curr l') curr)
                (touch curr l') (expand-Searching s) less in
            (vs, l'', level_loop-expand end curr f visited queue l' new more ∙ e, d)
      ]
    ]
