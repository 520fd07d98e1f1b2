-- ===== src/Discovery/ChannelManager/Neighbours.antt =====
-- `GetUpstreamOfNode` and `GetDownstreamOfNode`: the nodes that write the channels which a node reads, and
-- the nodes that read the channels which it writes.
pub mod Channels
pub mod Names
use cmw.Prelude.{
  ℕ, ◌≡◌, refl, sym, ap, ◌∙◌, ◌↔◌, ◌⊎◌, Bool, true, false, List, [], ◌∷◌, ◌++◌, Option, none, some,
  inl, inr, map, if◌then◌else◌, In, In-left, In-right, In-split, Bool-cases, append_assoc,
  append-nil,
}
use cmw.Prelude.Assoc.{Text, text_beq, text_beq_iff, text_eq, insert}
use cmw.Discovery.Role.{Role, RoleAttributes}
use cmw.Discovery.Warehouse.{RoleMap, found_all, filter_if, has_key, multi_search_key_all}
use cmw.Discovery.Graph.{contains}
use cmw.Discovery.Graph.Walks.{contains_lem}
use cmw.Discovery.ChannelManager.{
  ChannelManager, attributes_of, get_writers_of_channel, get_readers_of_channel,
  get_writers_of_node, get_readers_of_node,
}

-- `channels.emplace(reader.channel_name)` for every one
unfoldable pub emplace_names : List RoleAttributes → List Text → List Text
unfolding contains
emplace_names [] names = names
emplace_names (a ∷ rs) names =
    emplace_names rs (if contains a.channel_name names then names else names ++ a.channel_name ∷ [])

-- The search for every channel; `reg` gives the registered id of a name.
unfoldable pub search_each :
    (ℕ → List RoleAttributes → List RoleAttributes)
    → (Text → ℕ)
    → List Text
    → List RoleAttributes
    → List RoleAttributes
search_each of_channel reg [] out = out
search_each of_channel reg (c ∷ cs) out = search_each of_channel reg cs (of_channel (reg c) out)

-- The attributes of a role's node; `unset` is what stands in the others.
abbrev pub node_attr : RoleAttributes → RoleAttributes → RoleAttributes
node_attr unset a = record unset {
  host_name = a.host_name;
  process_id = a.process_id;
  node_name = a.node_name;
  node_id = a.node_id;
}

-- `nodes[attr.node_name] = attr` for every one
unfoldable pub nodes_of :
    RoleAttributes
    → List RoleAttributes
    → List (Text × RoleAttributes)
    → List (Text × RoleAttributes)
nodes_of unset [] nodes = nodes
nodes_of unset (a ∷ rs) nodes = nodes_of unset rs (insert a.node_name (node_attr unset a) nodes)

-- The body that both functions share, from the roles of the node on
unfoldable pub neighbours :
    (ℕ → List RoleAttributes → List RoleAttributes)
    → (Text → ℕ)
    → RoleAttributes
    → List RoleAttributes
    → List RoleAttributes
    → List RoleAttributes
unfolding emplace_names search_each nodes_of
neighbours of_channel reg unset [] out = out
neighbours of_channel reg unset (a ∷ rs) out =
    out
    ++ map (λ e. e.1)
        (nodes_of unset (search_each of_channel reg (emplace_names (a ∷ rs) []) []) [])

unfoldable pub get_upstream_of_node :
    (Text → ℕ) → RoleAttributes → ChannelManager → ℕ → List RoleAttributes → List RoleAttributes
unfolding neighbours get_readers_of_node get_writers_of_channel
get_upstream_of_node reg unset m key out =
    neighbours (get_writers_of_channel m) reg unset (get_readers_of_node m key []) out

unfoldable pub get_downstream_of_node :
    (Text → ℕ) → RoleAttributes → ChannelManager → ℕ → List RoleAttributes → List RoleAttributes
unfolding neighbours get_writers_of_node get_readers_of_channel
get_downstream_of_node reg unset m key out =
    neighbours (get_readers_of_channel m) reg unset (get_writers_of_node m key []) out
