-- ===== src/Discovery/Graph/Adjacency.antt =====
-- What the adjacency list has under a key after edges were put in or taken out.
use cmw.Prelude.{
  ◌≡◌, ◌∙◌, ◌&&◌, [], ◌∷◌, Option, none, some, arith, All, Bool-cases, inl, inr, if◌then◌else◌,
}
use cmw.Prelude.Assoc.{
  Text, text_beq, text_beq_iff, text_eq, lookup, insert, erase, lookup-insert, lookup-erase,
}
use cmw.Discovery.Graph.{
  Vertice, Edge, VerticeSet, AdjacencyList, key, get_key, has, set_of, touch, insert_complete_edge,
  delete_complete_edge, for_items,
}
use cmw.Discovery.Graph.Keys.{Plain, text_beq-key}

-- The vertex that `u` has under a key.
abbrev pub entry : AdjacencyList → Text → Text → Option Vertice
entry l u k = lookup k (set_of l u)

pub set_of-insert :
    (v u : Text) (s : VerticeSet) (l : AdjacencyList)
    → set_of (insert v s l) u ≡ (if text_beq v u then s else set_of l u)
set_of-insert v u s l =
    rw (lookup-insert v u s l) (elim (Bool-cases (text_beq v u)) [ inl e ↦ rw e | inr e ↦ rw e ])

pub set_of-touch : (v u : Text) (l : AdjacencyList) → set_of (touch v l) u ≡ set_of l u
unfolding touch
set_of-touch v u l = ground (arith, lookup-insert v u [] l, text_beq_iff v u)

-- `f` of an edge changes one place, that of the edge's key, to what `val` says of the edge's end.
abbrev pub Writes : (Edge → AdjacencyList → AdjacencyList) → (Vertice → Option Vertice) → Type 0
Writes f val =
    (e : Edge) (l : AdjacencyList) (u k : Text)
    → entry (f e l) u k
      ≡ (if text_beq e.src u && text_beq (get_key e) k then val e.dst else entry l u k)

pub insert-Writes : Writes insert_complete_edge some
unfolding insert_complete_edge
insert-Writes e l u k =
    let l' = touch e.dst (touch e.src l) in
    let same : set_of l' u ≡ set_of l u =
      set_of-touch e.dst u (touch e.src l) ∙ set_of-touch e.src u l in
    rw (set_of-insert e.src u (insert (get_key e) e.dst (set_of l' e.src)) l', same)
      (ground
        (arith, text_beq_iff e.src u, same, lookup-insert (get_key e) k e.dst (set_of l' e.src)))

pub delete-Writes : Writes delete_complete_edge (λ _. none)
unfolding delete_complete_edge
delete-Writes e l u k =
    let l' = touch e.src l in
    let same : set_of l' u ≡ set_of l u = set_of-touch e.src u l in
    rw (set_of-insert e.src u (erase (get_key e) (set_of l' e.src)) l', same)
      (ground (arith, text_beq_iff e.src u, same, lookup-erase (get_key e) k (set_of l' e.src)))

-- A set of plain vertices, each under its own name
abbrev pub IsNamed : VerticeSet → Type 0
IsNamed s = All (λ e. (e.0 ≡ e.1) × Plain e.1) s

module _ (f : Edge → AdjacencyList → AdjacencyList) (val : Vertice → Option Vertice)
    (writes : Writes f val) (e : Edge) (u c v : Text) where
  -- The edges to all vertices of a set
  pub for_items-dst :
      (s : VerticeSet) (l : AdjacencyList)
      → IsNamed s
      → Plain v
      → entry (for_items f (λ d. record e { dst = d }) s l) u (key c v) ≡ (
          if text_beq e.src u && (text_beq e.value c && has v s)
          then val v
          else entry l u (key c v))
  unfolding for_items lookup
  for_items-dst [] l named plain = ground arith
  for_items-dst ((k, w) ∷ s) l named plain = ground (
    arith,
    for_items-dst s (f (record e { dst = w }) l) named.1 plain,
    writes (record e { dst = w }) l u (key c v),
    text_beq-key e.value c w v named.0.1 plain,
    text_beq_iff w v,
    named.0.0,
  )

  -- The edges from all vertices of a set
  pub for_items-src :
      (s : VerticeSet) (l : AdjacencyList)
      → IsNamed s
      → Plain e.dst
      → Plain v
      → entry (for_items f (λ s. record e { src = s }) s l) u (key c v) ≡ (
          if (text_beq e.dst v && text_beq e.value c) && has u s
          then val v
          else entry l u (key c v))
  unfolding for_items lookup
  for_items-src [] l named pd plain = ground arith
  for_items-src ((k, w) ∷ s) l named pd plain = ground (
    arith,
    for_items-src s (f (record e { src = w }) l) named.1 pd plain,
    writes (record e { src = w }) l u (key c v),
    text_beq-key e.value c e.dst v pd plain,
    text_beq_iff w u,
    text_beq_iff e.dst v,
    named.0.0,
  )
