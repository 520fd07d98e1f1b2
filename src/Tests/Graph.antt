-- ===== src/Tests/Graph.antt =====
-- The graph of the nodes at a concrete history: two nodes that write to each other, the second no longer.
use cmw.Prelude.{ℕ, ◌≡◌, ◌≢◌, arith, ◌↔◌, true, List, [], ◌∷◌, In}
use cmw.Prelude.Assoc.{Text}
use cmw.Discovery.Graph.{Vertice, Edge, AdjacencyList, empty, successors}
use cmw.Discovery.Graph.History.{
  Change, put, PlainNames, sources, targets, nobody, run, successors-run,
}

abbrev alpha : Vertice
alpha = b'a' ∷ []

abbrev beta : Vertice
beta = b'b' ∷ []

abbrev writes : Vertice → Text → Edge
writes v c = record { src = v; dst = []; value = c }

abbrev reads : Vertice → Text → Edge
reads v c = record { src = []; dst = v; value = c }

abbrev history : List Change
history =
    put (writes alpha (b'x' ∷ []))
    ∷ put (reads beta (b'x' ∷ []))
    ∷ put (writes beta (b'y' ∷ []))
    ∷ put (reads alpha (b'y' ∷ []))
    ∷ []

abbrev list : AdjacencyList
list = (run history empty).list

history-Plain : PlainNames history
history-Plain = (((a, tt), tt), ((tt, (b, tt)), (((b, tt), tt), ((tt, (a, tt)), tt))))
  where
    a : ◌≢◌ {A = ℕ} b'a' b'_'
    a e = omega arith

    b : ◌≢◌ {A = ℕ} b'b' b'_'
    b e = omega arith

successors-run_example : In beta (successors (run history empty).list alpha) ↔ (
    (c : Text) × (sources history nobody c alpha ≡ true) × (targets history nobody c beta ≡ true))
successors-run_example = successors-run history alpha beta history-Plain
