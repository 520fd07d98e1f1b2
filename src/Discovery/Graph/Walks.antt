-- ===== src/Discovery/Graph/Walks.antt =====
-- Walks, visited vertices, and the edges that a search has not seen yet.
use cmw.Prelude.{
  ℕ, ◌+◌, ◌≤◌, ◌≡◌, refl, sym, true, false, List, [], ◌∷◌, arith, In, length, Bool-cases, inl, inr,
  if◌then◌else◌,
}
use cmw.Prelude.Assoc.{Text, text_beq, text_beq_iff, text_eq, lookup, insert}
use cmw.Discovery.Graph.{
  Vertice, AdjacencyList, has, set_of, successors, touch, num_edges, contains,
}

-- The walks along the edges
pub data Walk (l : AdjacencyList) (start : Vertice) : Vertice → Type 0 where
  here : Walk l start start
  step : {u v : Vertice} → Walk l start u → In v (successors l u) → Walk l start v

pub contains_lem : (a : Text) (xs : List Text) → contains a xs ≡ true → In a xs
unfolding contains
contains_lem a [] e = cc
contains_lem a (x ∷ xs) e = elim (Bool-cases (text_beq x a)) [
  | inl same ↦ inl (sym ((text_beq_iff x a).0 same))
  | inr other ↦ inr (contains_lem a xs (rw other at e))
]

pub contains-In : (a : Text) (xs : List Text) → In a xs → contains a xs ≡ true
unfolding contains
contains-In a [] h = absurd h
contains-In a (x ∷ xs) (inl e) =
    let same : text_beq x a ≡ true = (text_beq_iff x a).1 (sym e) in rw same
contains-In a (x ∷ xs) (inr h) = let later = contains-In a xs h in ground arith

-- The edges out of the vertices that are not yet visited
pub unseen : List Text → AdjacencyList → ℕ
unseen visited [] = 0
unseen visited ((u, s) ∷ l) = (if contains u visited then 0 else length s) + unseen visited l

pub unseen-nil : (l : AdjacencyList) → unseen [] l ≡ num_edges l
unfolding unseen contains num_edges
unseen-nil [] = refl
unseen-nil ((u, s) ∷ l) = omega (arith, unseen-nil l)

unseen-cons-le :
    (a : Text) (visited : List Text) (l : AdjacencyList) → unseen (a ∷ visited) l ≤ unseen visited l
unfolding unseen contains
unseen-cons-le a visited [] = omega arith
unseen-cons-le a visited ((u, s) ∷ l) = ground (arith, unseen-cons-le a visited l)

-- Visiting a vertex takes its edges out.
pub unseen-cons :
    (a : Text) (visited : List Text) (l : AdjacencyList)
    → contains a visited ≡ false
    → unseen (a ∷ visited) l + length (set_of l a) ≤ unseen visited l
unfolding unseen contains lookup
unseen-cons a visited [] new = omega arith
unseen-cons a visited ((u, s) ∷ l) new = ground (
  arith,
  unseen-cons a visited l new,
  unseen-cons-le a visited l,
  text_beq_iff u a,
  text_beq_iff a u,
)

unseen-insert :
    (visited : List Text) (a : Text) (l : AdjacencyList)
    → has a l ≡ false
    → unseen visited (insert a [] l) ≡ unseen visited l
unfolding unseen insert lookup
unseen-insert visited a [] new = ground arith
unseen-insert visited a ((u, s) ∷ l) new = ground (arith, unseen-insert visited a l)

pub unseen-touch :
    (visited : List Text) (a : Text) (l : AdjacencyList)
    → unseen visited (touch a l) ≡ unseen visited l
unfolding touch
unseen-touch visited a l = elim (Bool-cases (has a l)) [
  | inl old ↦ rw old
  | inr new ↦ rw new (unseen-insert visited a l new)
]
