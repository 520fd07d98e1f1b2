-- ===== src/Discovery/ChannelManager/Flow.antt =====
-- `GetFlowDirection` after any sequence of joins and leaves.
use cmw.Prelude.{◌≡◌, refl, ap, subst, ◌∙◌, ◌⊎◌, true, List, [], ◌∷◌, some, inl, inr, map, arith}
use cmw.Prelude.Assoc.{Text}
use cmw.Discovery.Change.{ChangeMsg, opt_join, opt_leave}
use cmw.Discovery.Graph.{
  Vertice, AdjacencyList, FlowDirection, unreachable, upstream, downstream, get_direction_of,
}
use cmw.Discovery.Graph
use cmw.Discovery.Graph.History.{
  Change, put, drop, PlainNames, sources, targets, nobody, run, apply, successors-run,
}
use cmw.Discovery.Graph.Walks.{Walk}
use cmw.Discovery.Graph.Walks
use cmw.Discovery.Graph.Direction.{Comparable, Describes, get_direction_of_lem}
use cmw.Discovery.ChannelManager.{
  ChannelManager, new, edge_of, dispose, dispose_join, dispose_leave, dispose_all,
  get_flow_direction,
}

-- What a message does to the graph.
abbrev pub change_of : ChangeMsg → Change
change_of msg = elim msg.operate_type [
  | opt_join ↦ put (edge_of msg)
  | opt_leave ↦ drop (edge_of msg)
]

dispose-node_graph :
    (msg : ChangeMsg) (m : ChannelManager)
    → (dispose msg m).node_graph ≡ apply (change_of msg) m.node_graph
unfolding dispose dispose_join dispose_leave apply
dispose-node_graph msg m = elim msg.operate_type [
  | opt_join ↦ ground arith
  | opt_leave ↦ ground arith
]

dispose_all-node_graph :
    (msgs : List ChangeMsg) (m : ChannelManager)
    → (dispose_all msgs m).node_graph ≡ run (map change_of msgs) m.node_graph
unfolding dispose_all run
dispose_all-node_graph [] m = refl
dispose_all-node_graph (msg ∷ msgs) m =
    dispose_all-node_graph msgs (dispose msg m)
    ∙ ap (run (map change_of msgs)) (dispose-node_graph msg m)

-- For some channel, the last message of a writer of the node u on it is a join, and so is the last message
-- of a reader of the node w on it. A node that has two writers on a channel, one of which has left, does
-- not count: the graph drops the node with the first that leaves.
abbrev pub Feeds : List ChangeMsg → Vertice → Vertice → Type 0
Feeds msgs u w =
    (c : Text) × (sources (map change_of msgs) nobody c u ≡ true)
    × (targets (map change_of msgs) nobody c w ≡ true)

-- From u to w over any number of nodes, each of which feeds the next
pub data Reaches (msgs : List ChangeMsg) : Vertice → Vertice → Type 0 where
  here : {u : Vertice} → Reaches msgs u u
  step : {u v w : Vertice} → Reaches msgs u v → Feeds msgs v w → Reaches msgs u w

-- What a direction says of two nodes.
abbrev pub Flows : List ChangeMsg → Vertice → Vertice → FlowDirection → Type 0
Flows msgs lhs rhs upstream = Reaches msgs lhs rhs
Flows msgs lhs rhs downstream = ¬ (Reaches msgs lhs rhs) × Reaches msgs rhs lhs
Flows msgs lhs rhs unreachable = ¬ (Reaches msgs lhs rhs) × (¬ (Reaches msgs rhs lhs))

abbrev pub list_of : List ChangeMsg → AdjacencyList
list_of msgs = (run (map change_of msgs) Graph.empty).list

module _ (msgs : List ChangeMsg) (plain : PlainNames (map change_of msgs)) where
  Walk-Reaches : {u w : Vertice} → Walk (list_of msgs) u w → Reaches msgs u w
  Walk-Reaches Walks.here = Reaches.here
  Walk-Reaches (Walks.step {u} {v} walk h) =
      Reaches.step (Walk-Reaches walk) ((successors-run (map change_of msgs) u v plain).0 h)

  Reaches-Walk : {u w : Vertice} → Reaches msgs u w → Walk (list_of msgs) u w
  Reaches-Walk Reaches.here = Walks.here
  Reaches-Walk (Reaches.step {u} {v} {w} r h) =
      Walks.step (Reaches-Walk r) ((successors-run (map change_of msgs) v w plain).1 h)

  Describes-Flows :
      (lhs rhs : Vertice) (d : FlowDirection)
      → Describes (list_of msgs) lhs rhs d
      → Flows msgs lhs rhs d
  Describes-Flows lhs rhs upstream h = Walk-Reaches h
  Describes-Flows lhs rhs downstream h = (λ r. h.0 (Reaches-Walk r), Walk-Reaches h.1)
  Describes-Flows lhs rhs unreachable h = (λ r. h.0 (Reaches-Walk r), λ r. h.1 (Reaches-Walk r))

get_flow_direction-some :
    (lhs rhs : Vertice) (m : ChannelManager) (d : FlowDirection) (l : AdjacencyList)
    → get_direction_of lhs rhs m.node_graph.list ≡ some (d, l)
    → get_flow_direction lhs rhs m
      ≡ some (d, record m { node_graph = record m.node_graph { list = l } })
unfolding get_flow_direction
get_flow_direction-some lhs rhs m d l e = rw (e, get_flow_direction)

-- After any sequence of joins and leaves in which no node's name has an underscore, `GetFlowDirection`
-- always answers. If one of the two names is empty or not in the graph, the answer is "unreachable" and
-- the manager is not changed. Otherwise it is "upstream" if a chain of nodes leads from the first to
-- the second, "downstream" if one only leads from the second to the first, and "unreachable" if neither. A
-- link of a chain is two nodes and a channel such that the last message of a writer of the one on the
-- channel is a join, and so is the last message of a reader of the other; so a node is out of a channel's
-- links with the first of its writers that leaves, though others of its writers stay.
pub flow_direction_lem :
    (msgs : List ChangeMsg) (lhs rhs : Vertice)
    → PlainNames (map change_of msgs)
    → ((get_flow_direction lhs rhs (dispose_all msgs new)
          ≡ some (unreachable, dispose_all msgs new))
        × (¬ (Comparable (dispose_all msgs new).node_graph.list lhs rhs)))
      ⊎ (Comparable (dispose_all msgs new).node_graph.list lhs rhs
          × ((d : FlowDirection) × (m : ChannelManager) × (get_flow_direction lhs rhs
                  (dispose_all msgs new)
                ≡ some (d, m))
              × Flows msgs lhs rhs d))
flow_direction_lem msgs lhs rhs plain =
    let m = dispose_all msgs new in
    let same : m.node_graph.list ≡ list_of msgs =
      ap (λ g. g.list) (dispose_all-node_graph msgs new) in
    elim (get_direction_of_lem lhs rhs m.node_graph.list) [
      | inl (e, away) ↦
          inl (get_flow_direction-some lhs rhs m unreachable m.node_graph.list e, away)
      | inr (ok, (d, l, e, h)) ↦ inr (
        ok,
        (
          d,
          record m { node_graph = record m.node_graph { list = l } },
          get_flow_direction-some lhs rhs m d l e,
          Describes-Flows msgs plain lhs rhs d (subst (λ l. Describes l lhs rhs d) same h),
        ),
      )
    ]
