-- ===== src/Discovery/ChannelManager.antt =====
-- discovery/specific_manager/channel_manager.cpp: the writers and readers of the channels, by node and by
-- channel, and the graph of the nodes. `ScanMessageType` only prints, and stands in Lookups. A name's
-- registered id is an argument (`reg` or the key).
pub mod Flow
pub mod Registry
pub mod Leaving
pub mod Neighbours
pub mod Lookups
use cmw.Prelude.{
  ℕ, Bool, true, false, not, List, [], ◌∷◌, ◌++◌, Option, none, some, ◌==◌, if◌then◌else◌, map,
}
use cmw.Prelude.Assoc.{Text, text_beq, text_eq, insert}
use cmw.Discovery.Role.{Role, RoleAttributes, writer}
use cmw.Discovery.Warehouse.{
  RoleMap, multi_add, multi_remove_role, multi_search_key_all, get_all_roles, search_attr_all,
}
use cmw.Discovery.Graph.{
  Graph, Edge, AdjacencyList, FlowDirection, is_dummy, insert_edge, delete_edge, get_direction_of,
}
use cmw.Discovery.Graph
use cmw.Discovery.Change.{
  ChangeMsg, OperateType, opt_join, opt_leave, RoleType, role_node, role_writer, role_reader,
  role_server, role_client, role_participant,
}

pub record ChannelManager : Type 0 where
  pub node_graph : Graph
  pub node_writers : RoleMap
  pub node_readers : RoleMap
  pub channel_writers : RoleMap
  pub channel_readers : RoleMap

abbrev pub new : ChannelManager
new = record {
  node_graph = Graph.empty;
  node_writers = [];
  node_readers = [];
  channel_writers = [];
  channel_readers = [];
}

-- `Check`
unfoldable pub check : RoleAttributes → Bool
check attr =
    if is_dummy attr.channel_name
    then false
    else if attr.channel_id == 0
    then false
    else if attr.id == 0
    then false
    else true

-- The role of a message: `RoleWriter` and `RoleReader` match alike.
abbrev pub role_of : ChangeMsg → Role
role_of msg = record { class = writer; attributes = msg.role_attr; timestamp_ns = msg.timestamp }

-- The test `role_type == ROLE_WRITER`
abbrev pub is_writer : RoleType → Bool
is_writer role_writer = true
is_writer _ = false

-- The edge of a message: the channel, with the writer's node as source or the reader's as target.
abbrev pub edge_of : ChangeMsg → Edge
edge_of msg =
    if is_writer msg.role_type
    then record { src = msg.role_attr.node_name; dst = []; value = msg.role_attr.channel_name }
    else record { src = []; dst = msg.role_attr.node_name; value = msg.role_attr.channel_name }

unfoldable pub dispose_join : ChangeMsg → ChannelManager → ChannelManager
unfolding insert_edge multi_add
dispose_join msg m =
    let a = msg.role_attr in
    let graph = insert_edge (edge_of msg) m.node_graph in
    if is_writer msg.role_type
    then record m {
      node_writers = (multi_add m.node_writers a.node_id (role_of msg) true).1;
      channel_writers = (multi_add m.channel_writers a.channel_id (role_of msg) true).1;
      node_graph = graph;
    }
    else record m {
      node_readers = (multi_add m.node_readers a.node_id (role_of msg) true).1;
      channel_readers = (multi_add m.channel_readers a.channel_id (role_of msg) true).1;
      node_graph = graph;
    }

unfoldable pub dispose_leave : ChangeMsg → ChannelManager → ChannelManager
unfolding delete_edge multi_remove_role
dispose_leave msg m =
    let a = msg.role_attr in
    let graph = delete_edge (edge_of msg) m.node_graph in
    if is_writer msg.role_type
    then record m {
      node_writers = multi_remove_role m.node_writers a.node_id (role_of msg);
      channel_writers = multi_remove_role m.channel_writers a.channel_id (role_of msg);
      node_graph = graph;
    }
    else record m {
      node_readers = multi_remove_role m.node_readers a.channel_id (role_of msg);
      channel_readers = multi_remove_role m.channel_readers a.channel_id (role_of msg);
      node_graph = graph;
    }

-- `Dispose`, but for the notice to the listeners
unfoldable pub dispose : ChangeMsg → ChannelManager → ChannelManager
unfolding dispose_join dispose_leave
dispose msg m = elim msg.operate_type [
  | opt_join ↦ dispose_join msg m
  | opt_leave ↦ dispose_leave msg m
]

abbrev pub attributes_of : Role → RoleAttributes
attributes_of r = r.attributes

unfoldable pub get_writers_of_channel :
    ChannelManager → ℕ → List RoleAttributes → List RoleAttributes
unfolding multi_search_key_all
get_writers_of_channel m key out = (multi_search_key_all attributes_of m.channel_writers key out).1

unfoldable pub get_readers_of_channel :
    ChannelManager → ℕ → List RoleAttributes → List RoleAttributes
unfolding multi_search_key_all
get_readers_of_channel m key out = (multi_search_key_all attributes_of m.channel_readers key out).1

unfoldable pub get_writers_of_node : ChannelManager → ℕ → List RoleAttributes → List RoleAttributes
unfolding multi_search_key_all
get_writers_of_node m key out = (multi_search_key_all attributes_of m.node_writers key out).1

unfoldable pub get_readers_of_node : ChannelManager → ℕ → List RoleAttributes → List RoleAttributes
unfolding multi_search_key_all
get_readers_of_node m key out = (multi_search_key_all attributes_of m.node_readers key out).1

-- `GetFlowDirection`, whose search may add vertices to the list of the graph. `none` is the end of the
-- search's fuel.
unfoldable pub get_flow_direction :
    Text → Text → ChannelManager → Option (FlowDirection × ChannelManager)
get_flow_direction lhs rhs m = elim (get_direction_of lhs rhs m.node_graph.list) [
  | none ↦ none
  | some (d, list) ↦ some (d, record m { node_graph = record m.node_graph { list = list } })
]

-- Every message in turn
unfoldable pub dispose_all : List ChangeMsg → ChannelManager → ChannelManager
unfolding dispose
dispose_all [] m = m
dispose_all (msg ∷ msgs) m = dispose_all msgs (dispose msg m)
