-- ===== src/Discovery/Graph/Traverse.antt =====
-- `LevelTraverse` ends, and finds exactly the vertices to which a walk leads.
use cmw.Prelude.{◌+◌, ◌≡◌, refl, ◌↔◌, Bool, true, List, [], ◌∷◌, some, arith, In, inl, inr}
use cmw.Prelude.Assoc.{Text, text_eq}
use cmw.Discovery.Graph.{
  Vertice, AdjacencyList, set_of, successors, num_edges, contains, level_loop, level_traverse,
}
use cmw.Discovery.Graph.Walks.{Walk, here, step, contains_lem, contains-In, unseen-nil}
use cmw.Discovery.Graph.Search.{Searching, level_loop_lem}

-- A walk from a visited vertex stays among the visited ones.
stays :
    {l : AdjacencyList} {start v : Vertice} (visited : List Text)
    → In start visited
    → ((u w : Vertice) → In u visited → In w (successors l u) → In w visited)
    → Walk l start v
    → In v visited
stays visited begun closed here = begun
stays visited begun closed (step {u} {v} w h) = closed u v (stays visited begun closed w) h

begin-Searching :
    (start end : Vertice) (l : AdjacencyList) → Searching l start end [] (start ∷ []) l
begin-Searching start end l = record {
  same = λ u. refl;
  walked = λ v h. absurd h;
  queued = λ v h. elim h [ inl e ↦ rw e here | inr h ↦ absurd h ];
  begun = inr (inl refl);
  open_ends = λ u v hu hv. absurd hu;
}

level_traverse-some :
    (start end : Vertice) (l : AdjacencyList) {l' : AdjacencyList} {vs : List Text}
    → level_loop (num_edges l + 2) end [] (start ∷ []) l ≡ some (vs, l')
    → level_traverse start end l ≡ some (contains end vs, l')
unfolding level_traverse
level_traverse-some start end l e = rw (e, level_traverse)

-- `LevelTraverse` ends, with enough fuel, whatever cycles the graph has. Its answer is true exactly when
-- a walk leads from the first vertex to the second, and it changes no set of successors.
pub level_traverse_lem :
    (start end : Vertice) (l : AdjacencyList)
    → (b : Bool) × (l' : AdjacencyList) × (level_traverse start end l ≡ some (b, l'))
      × ((b ≡ true) ↔ Walk l start end)
      × ((u : Text) → set_of l' u ≡ set_of l u)
level_traverse_lem start end l =
    let (vs, l', e, d) =
      level_loop_lem (num_edges l + 2) [] (start ∷ []) l (begin-Searching start end l)
        (omega (arith, unseen-nil l)) in
    (
      contains end vs,
      l',
      level_traverse-some start end l e,
      (
        λ found. d.walked end (contains_lem end vs found),
        λ w.
            contains-In end vs
              (elim d.closed [ inl h ↦ h | inr (begun, closed) ↦ stays vs begun closed w ]),
      ),
      d.same,
    )
