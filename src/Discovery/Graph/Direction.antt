-- ===== src/Discovery/Graph/Direction.antt =====
-- `GetDirectionOf`: what it answers, on every branch.
use cmw.Prelude.{◌≡◌, refl, sym, ◌∙◌, ◌↔◌, ◌⊎◌, Bool, true, false, some, Bool-cases, inl, inr}
use mathlib.Core.Bool.{false≢true}
use cmw.Prelude.Assoc.{Text}
use cmw.Discovery.Graph.{
  Vertice, AdjacencyList, has, is_dummy, set_of, FlowDirection, unreachable, upstream, downstream,
  level_traverse, searched, get_direction_of,
}
use cmw.Discovery.Graph.Walks.{Walk, here, step}
use cmw.Discovery.Graph.Traverse.{level_traverse_lem}

-- The same successors give the same walks.
Walk-same :
    {l l' : AdjacencyList} {u v : Vertice}
    → ((x : Text) → set_of l' x ≡ set_of l x)
    → Walk l u v
    → Walk l' u v
Walk-same same here = here
Walk-same same (step {u} w h) = step (Walk-same same w) (rw (same u) h)

-- What a direction says of two vertices: a walk leads from the first to the second, or only from the
-- second to the first, or neither.
abbrev pub Describes : AdjacencyList → Vertice → Vertice → FlowDirection → Type 0
Describes l lhs rhs upstream = Walk l lhs rhs
Describes l lhs rhs downstream = ¬ (Walk l lhs rhs) × Walk l rhs lhs
Describes l lhs rhs unreachable = ¬ (Walk l lhs rhs) × (¬ (Walk l rhs lhs))

-- The second search, when no walk leads from the first vertex to the second
searched-false :
    (lhs rhs : Vertice) {l l' : AdjacencyList}
    → level_traverse lhs rhs l ≡ some (false, l')
    → ((x : Text) → set_of l' x ≡ set_of l x)
    → (¬ (Walk l lhs rhs))
    → (d : FlowDirection) × (l'' : AdjacencyList) × (searched lhs rhs l ≡ some (d, l''))
      × Describes l lhs rhs d
unfolding searched
searched-false lhs rhs {l} {l'} e same away =
    let (b, l'', e', means, same') = level_traverse_lem rhs lhs l' in answer b l'' e' means
  where
    answer :
        (b : Bool) (l'' : AdjacencyList)
        → level_traverse rhs lhs l' ≡ some (b, l'')
        → ((b ≡ true) ↔ Walk l' rhs lhs)
        → (d : FlowDirection) × (l'' : AdjacencyList) × (searched lhs rhs l ≡ some (d, l''))
          × Describes l lhs rhs d
    answer true l'' e' means = (
      downstream,
      l'',
      rw (e, e', searched),
      (away, Walk-same (λ x. sym (same x)) (means.0 refl)),
    )
    answer false l'' e' means = (
      unreachable,
      l'',
      rw (e, e', searched),
      (away, λ w. false≢true (means.1 (Walk-same same w))),
    )

searched_lem :
    (lhs rhs : Vertice) (l : AdjacencyList)
    → (d : FlowDirection) × (l' : AdjacencyList) × (searched lhs rhs l ≡ some (d, l'))
      × Describes l lhs rhs d
unfolding searched
searched_lem lhs rhs l =
    let (b, l', e, means, same) = level_traverse_lem lhs rhs l in answer b l' e means same
  where
    answer :
        (b : Bool) (l' : AdjacencyList)
        → level_traverse lhs rhs l ≡ some (b, l')
        → ((b ≡ true) ↔ Walk l lhs rhs)
        → ((u : Text) → set_of l' u ≡ set_of l u)
        → (d : FlowDirection) × (l' : AdjacencyList) × (searched lhs rhs l ≡ some (d, l'))
          × Describes l lhs rhs d
    answer true l' e means same = (upstream, l', rw (e, searched), means.0 refl)
    answer false l' e means same = searched-false lhs rhs e same (λ w. false≢true (means.1 w))

-- `GetDirectionOf` asks for two vertices with a name and a place in the list.
abbrev pub Comparable : AdjacencyList → Vertice → Vertice → Type 0
Comparable l lhs rhs =
    (is_dummy lhs ≡ false) × (is_dummy rhs ≡ false) × (has lhs l ≡ true) × (has rhs l ≡ true)

-- `GetDirectionOf` always answers, whatever cycles the graph has. If one of the two vertices has no name or
-- is not in the list, the answer is "unreachable" and the list is not changed. Otherwise the answer
-- tells which vertex a walk leads to: "upstream" if one leads from the first to the second, "downstream"
-- if one leads only back, "unreachable" if there is neither.
pub get_direction_of_lem :
    (lhs rhs : Vertice) (l : AdjacencyList)
    → ((get_direction_of lhs rhs l ≡ some (unreachable, l)) × (¬ (Comparable l lhs rhs)))
      ⊎ (Comparable l lhs rhs
          × ((d : FlowDirection) × (l' : AdjacencyList) × (get_direction_of lhs rhs l
                ≡ some (d, l'))
              × Describes l lhs rhs d))
unfolding get_direction_of
get_direction_of_lem lhs rhs l =
    let (d, l', e, h) = searched_lem lhs rhs l in
    elim (Bool-cases (is_dummy lhs)) [
      | inl a ↦ inl (rw (a, get_direction_of), λ c. false≢true (sym c.0 ∙ a))
      | inr a ↦ elim (Bool-cases (is_dummy rhs)) [
        | inl b ↦ inl (rw (a, b, get_direction_of), λ c. false≢true (sym c.1 ∙ b))
        | inr b ↦ elim (Bool-cases (has lhs l)) [
          | inr p ↦ inl (rw (a, b, p, get_direction_of), λ c. false≢true (sym p ∙ c.2))
          | inl p ↦ elim (Bool-cases (has rhs l)) [
            | inr q ↦ inl (rw (a, b, p, q, get_direction_of), λ c. false≢true (sym q ∙ c.3))
            | inl q ↦ inr ((a, b, p, q), (d, l', rw (a, b, p, q, get_direction_of) e, h))
          ]
        ]
      ]
    ]
