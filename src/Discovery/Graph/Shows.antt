-- ===== src/Discovery/Graph/Shows.antt =====
-- The invariant of a graph: its sets of sources and targets are given ones, and its adjacency list
-- has exactly the edges between them.
use cmw.Prelude.{
  ◌≡◌, refl, sym, ap, ◌∙◌, Bool, true, false, ◌&&◌, [], ◌∷◌, none, some, arith, Bool-cases, inl,
  inr, if◌then◌else◌,
}
use cmw.Prelude.Assoc.{
  Text, text_beq, text_beq_iff, text_eq, lookup, insert, erase, lookup-insert, lookup-erase, Unique,
  Unique-insert, Unique-erase,
}
use cmw.Discovery.Graph.{
  Vertice, Edge, VerticeSet, AdjacencyList, EdgeInfo, RelatedVertices, Graph, key, get_key, has,
  set_of, related, touch, insert_complete_edge, delete_complete_edge, for_items,
}
use cmw.Discovery.Graph.Keys.{Plain}
use cmw.Discovery.Graph.Adjacency.{
  entry, set_of-insert, set_of-touch, IsNamed, insert-Writes, delete-Writes,
}

-- Whether a vertex is a source, or a target, of a channel
abbrev pub Peers : Type 0
Peers = Text → Vertice → Bool

-- Each key is that of an edge to a plain vertex, and stands once in its set.
pub record IsKeyed (l : AdjacencyList) : Type 0 where
  pub keyed :
      (u k : Text) (w : Vertice) → entry l u k ≡ some w → (c : Text) × (k ≡ key c w) × Plain w
  pub unique : (u : Text) → Unique (set_of l u)

pub record Shows (srcs dsts : Peers) (g : Graph) : Type 0 where
  pub sources : (c : Text) (u : Vertice) → has u (related g.edges c).src ≡ srcs c u
  pub targets : (c : Text) (v : Vertice) → has v (related g.edges c).dst ≡ dsts c v
  pub named_src : (c : Text) → IsNamed (related g.edges c).src
  pub named_dst : (c : Text) → IsNamed (related g.edges c).dst
  pub entries :
      (u c v : Text)
      → Plain v
      → entry g.list u (key c v) ≡ (if srcs c u && dsts c v then some v else none)
  pub keys : IsKeyed g.list

-- How sets change
pub has-insert :
    (k j : Text) (v : Vertice) (s : VerticeSet)
    → has j (insert k v s) ≡ (if text_beq k j then true else has j s)
has-insert k j v s = ground (arith, lookup-insert k j v s)

pub has-erase :
    (k j : Text) (s : VerticeSet) → has j (erase k s) ≡ (if text_beq k j then false else has j s)
has-erase k j s = ground (arith, lookup-erase k j s)

pub IsNamed-insert : (v : Vertice) (s : VerticeSet) → Plain v → IsNamed s → IsNamed (insert v v s)
unfolding insert
IsNamed-insert v [] p named = ((refl, p), tt)
IsNamed-insert v ((k, w) ∷ s) p named = elim (Bool-cases (text_beq k v)) [
  | inl same ↦ rw same (((text_beq_iff k v).0 same, p), named.1)
  | inr other ↦ rw other (named.0, IsNamed-insert v s p named.1)
]

pub IsNamed-erase : (v : Vertice) (s : VerticeSet) → IsNamed s → IsNamed (erase v s)
unfolding erase
IsNamed-erase v [] named = tt
IsNamed-erase v ((k, w) ∷ s) named = elim (Bool-cases (text_beq k v)) [
  | inl same ↦ rw same (IsNamed-erase v s named.1)
  | inr other ↦ rw other (named.0, IsNamed-erase v s named.1)
]

pub has-Plain : (v : Vertice) (s : VerticeSet) → IsNamed s → has v s ≡ true → Plain v
unfolding lookup
has-Plain v [] named h = cc
has-Plain v ((k, w) ∷ s) named h = elim (Bool-cases (text_beq k v)) [
  | inl same ↦ let it : w ≡ v = ground (arith, named.0.0, text_beq_iff k v) in rw it at named.0.1
  | inr other ↦ has-Plain v s named.1 (ground (arith, h))
]

pub related-insert :
    (c d : Text) (r : RelatedVertices) (m : EdgeInfo)
    → related (insert c r m) d ≡ (if text_beq c d then r else related m d)
related-insert c d r m = ground (arith, lookup-insert c d r m)

-- Both operations on complete edges keep the keys.
pub insert-IsKeyed :
    (e : Edge) (l : AdjacencyList) → Plain e.dst → IsKeyed l → IsKeyed (insert_complete_edge e l)
insert-IsKeyed e l plain i = record { keyed = found; unique = once }
  where
    found :
        (u k : Text) (w : Vertice)
        → entry (insert_complete_edge e l) u k ≡ some w
        → (c : Text) × (k ≡ key c w) × Plain w
    found u k w at = elim (Bool-cases (text_beq e.src u && text_beq (get_key e) k)) [
      | inl here ↦
          let it : e.dst ≡ w = ground (arith, insert-Writes e l u k) in
          let same : get_key e ≡ k = ground (arith, text_beq_iff (get_key e) k) in
          (e.value, sym same ∙ ap (key e.value) it, rw it at plain)
      | inr away ↦ i.keyed u k w (ground (arith, insert-Writes e l u k))
    ]

    once : (u : Text) → Unique (set_of (insert_complete_edge e l) u)
    once u =
        let l' = touch e.dst (touch e.src l) in
        let same : (v : Text) → set_of l' v ≡ set_of l v =
          λ v. set_of-touch e.dst v (touch e.src l) ∙ set_of-touch e.src v l in
        unfold insert_complete_edge in
        rw (set_of-insert e.src u (insert (get_key e) e.dst (set_of l' e.src)) l')
          (elim (Bool-cases (text_beq e.src u)) [
            | inl here ↦ rw here (
                Unique-insert (get_key e) e.dst (set_of l' e.src)
                  (rw (same e.src) (i.unique e.src)))
            | inr away ↦ rw (away, same u) (i.unique u)
          ])

pub delete-IsKeyed : (e : Edge) (l : AdjacencyList) → IsKeyed l → IsKeyed (delete_complete_edge e l)
delete-IsKeyed e l i = record { keyed = found; unique = once }
  where
    found :
        (u k : Text) (w : Vertice)
        → entry (delete_complete_edge e l) u k ≡ some w
        → (c : Text) × (k ≡ key c w) × Plain w
    found u k w at = i.keyed u k w (ground (arith, delete-Writes e l u k))

    once : (u : Text) → Unique (set_of (delete_complete_edge e l) u)
    once u =
        let l' = touch e.src l in
        let same : (v : Text) → set_of l' v ≡ set_of l v = λ v. set_of-touch e.src v l in
        unfold delete_complete_edge in
        rw (set_of-insert e.src u (erase (get_key e) (set_of l' e.src)) l')
          (elim (Bool-cases (text_beq e.src u)) [
            | inl here ↦
                rw here
                  (Unique-erase (get_key e) (set_of l' e.src) (rw (same e.src) (i.unique e.src)))
            | inr away ↦ rw (away, same u) (i.unique u)
          ])

-- What each edge to or from a set keeps, all keep.
pub for_items_keep :
    (P : AdjacencyList → Type 0) (f : Edge → AdjacencyList → AdjacencyList) (edge : Vertice → Edge)
    → ((w : Vertice) (l : AdjacencyList) → Plain w → P l → P (f (edge w) l))
    → (s : VerticeSet) (l : AdjacencyList) → IsNamed s
    → P l
    → P (for_items f edge s l)
unfolding for_items
for_items_keep P f edge keep [] l named p = p
for_items_keep P f edge keep ((k, w) ∷ s) l named p =
    for_items_keep P f edge keep s (f (edge w) l) named.1 (keep w l named.0.1 p)
