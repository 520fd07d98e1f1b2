-- ===== src/Tests/Managers.antt =====
-- The managers of channels and nodes at concrete messages: a node "a" writes a channel that "b" reads.
use cmw.Prelude.{
  length, ◌≤◌, ◌>>=◌, ℕ, ◌≡◌, refl, ◌≢◌, ◌⊎◌, ◌↔◌, In, true, false, List, [], ◌∷◌, some, map, arith,
}
use cmw.Prelude.Assoc.{Text}
use cmw.Discovery.Role.{RoleAttributes, QosProfile}
use cmw.Discovery.Role
use cmw.Discovery.Change.{
  ChangeMsg, RoleType, role_writer, role_reader, OperateType, opt_join, opt_leave, change_channel,
  change_node, role_node,
}
use cmw.Discovery.Change.Wire.{msg_codec, attr_codec, qos_codec, receive, payload}
use cmw.Discovery.Change.Arrival.{send, with_channel_id, receive-send}
use cmw.Serialize.Bytes.{big_endian, little_endian, to_memory, little, byteorder}
use cmw.Serialize.Stream.{write_word, write_string, empty}
use cmw.Serialize.Containers.{serializable, args_pair, args_end}
use cmw.Discovery.Graph.{is_valid, FlowDirection, unreachable}
use cmw.Discovery.Graph.History.{PlainNames, sources, nobody}
use cmw.Discovery.Graph.Direction.{Comparable}
use cmw.Discovery.ChannelManager.{
  ChannelManager, new, attributes_of, dispose_all, dispose_leave, get_flow_direction,
  get_writers_of_channel, get_readers_of_channel, get_writers_of_node, get_readers_of_node,
  is_writer,
}
use cmw.Discovery.ChannelManager.Flow.{change_of, Flows, flow_direction_lem}
use cmw.Discovery.ChannelManager.Registry.{
  registered, is_reader, registry_lem, readers_of_node-leave,
}
use cmw.Discovery.ChannelManager.Leaving.{channel_virtual, on_topo_module_leave, topo_leave_keeps}
use cmw.Discovery.ChannelManager.Neighbours.{get_upstream_of_node, get_downstream_of_node}
use cmw.Discovery.ChannelManager.Neighbours.Names.{Across, neighbours_lem}
use cmw.Discovery.Manager.{Manager}
use cmw.Discovery.Manager.Events.{Event, joins, hears, shuts_down, process_leaves, Told, handle_all}
use cmw.Discovery.Notices.{channel_topo, node_topo, managers_tell}
use cmw.Discovery.NodeManager.{node_virtual}
use cmw.Discovery.Warehouse.{RoleMap}
use cmw.Discovery.NodeManager
use cmw.Discovery.NodeManager.Elected.{Earliest, present, kept, elected_lem}

abbrev attributes : Text → ℕ → ℕ → RoleAttributes
attributes node node_id id = record {
  host_name = b'h' ∷ [];
  host_ip = [];
  process_id = 4;
  channel_name = b'x' ∷ [];
  channel_id = 12;
  qos_profile = record {
    history = 1;
    depth = 1;
    mps = 0;
    msg_size = 0;
    reliability = 1;
    durability = 2;
  };
  id = id;
  node_name = node;
  node_id = node_id;
  message_type = [];
}

abbrev message : ℕ → OperateType → RoleType → RoleAttributes → ChangeMsg
message time opt role attr = record {
  timestamp = time;
  change_type = change_channel;
  operate_type = opt;
  role_type = role;
  role_attr = attr;
}

abbrev a_writes : RoleAttributes
a_writes = attributes (b'a' ∷ []) 3 21

abbrev b_reads : RoleAttributes
b_reads = attributes (b'b' ∷ []) 5 22

abbrev messages : List ChangeMsg
messages = message 100 opt_join role_writer a_writes ∷ message 90 opt_join role_reader b_reads ∷ []

messages-Plain : PlainNames (map change_of messages)
messages-Plain = (((a, tt), tt), ((tt, (b, tt)), tt))
  where
    a : ◌≢◌ {A = ℕ} b'a' b'_'
    a e = omega arith

    b : ◌≢◌ {A = ℕ} b'b' b'_'
    b e = omega arith

abbrev after : ChannelManager
after = dispose_all messages new

flow_direction_lem_example :
    ((get_flow_direction (b'a' ∷ []) (b'b' ∷ []) after ≡ some (unreachable, after))
      × (¬ (Comparable after.node_graph.list (b'a' ∷ []) (b'b' ∷ []))))
    ⊎ (Comparable after.node_graph.list (b'a' ∷ []) (b'b' ∷ [])
        × ((d : FlowDirection) × (m : ChannelManager) × (get_flow_direction
                (b'a' ∷ [])
                (b'b' ∷ [])
                after
              ≡ some (d, m))
            × Flows messages (b'a' ∷ []) (b'b' ∷ []) d))
flow_direction_lem_example = flow_direction_lem messages (b'a' ∷ []) (b'b' ∷ []) messages-Plain

registry_lem_example :
    (get_writers_of_channel after 12 []
      ≡ map attributes_of (registered is_writer (λ a. a.channel_id) 12 messages []))
    × (get_readers_of_channel after 12 []
        ≡ map attributes_of (registered is_reader (λ a. a.channel_id) 12 messages []))
    × (get_writers_of_node after 12 []
        ≡ map attributes_of (registered is_writer (λ a. a.node_id) 12 messages []))
registry_lem_example = registry_lem messages 12

neighbours_lem_example :
    (In (b'b' ∷ []) (map (λ r. r.node_name) (get_upstream_of_node (λ c. 12) a_writes after 5 []))
      ↔ Across
          (get_writers_of_channel after)
          (λ c. 12)
          (get_readers_of_node after 5 [])
          (b'b' ∷ []))
    × (In
          (b'b' ∷ [])
          (map (λ r. r.node_name) (get_downstream_of_node (λ c. 12) a_writes after 5 []))
        ↔ Across
            (get_readers_of_channel after)
            (λ c. 12)
            (get_writers_of_node after 5 [])
            (b'b' ∷ []))
neighbours_lem_example = neighbours_lem (λ c. 12) a_writes after 5 (b'b' ∷ [])

abbrev b_leaves : ChangeMsg
b_leaves = message 110 opt_leave role_reader b_reads

abbrev blank : ChangeMsg
blank = message 0 opt_join role_writer (record a_writes { channel_id = 77 })

leave_small : length (send 0 little_endian b_leaves) ≤ 255
unfolding msg_codec attr_codec qos_codec serializable args_pair args_end write_word write_string
    empty to_memory little byteorder
leave_small = omega arith

receive-send_example :
    (payload (send 0 little_endian b_leaves) >>= receive 0 big_endian blank)
    ≡ some (with_channel_id blank b_leaves)
receive-send_example =
    receive-send 0 little_endian big_endian blank b_leaves (omega arith)
      (
        omega arith,
        omega arith,
        omega arith,
        omega arith,
        omega arith,
        omega arith,
        omega arith,
        omega arith,
      )
      (omega arith, omega arith, omega arith, omega arith, omega arith, omega arith) leave_small

other_id : ◌≢◌ {A = ℕ} 12 5
other_id e = omega arith

readers_of_node-leave_example :
    get_readers_of_node (dispose_leave b_leaves after) 5 [] ≡ get_readers_of_node after 5 []
readers_of_node-leave_example = readers_of_node-leave b_leaves after 5 [] refl other_id

abbrev manager : Manager ChannelManager
manager = record {
  is_shutdown = false;
  is_discovery_started = true;
  allowed_role = 12;
  change_type = change_channel;
  host_name = b'h' ∷ [];
  process_id = 4;
  has_writer = true;
  own = new;
  notified = [];
  sent = [];
}

abbrev node_manager : Manager RoleMap
node_manager = record {
  is_shutdown = false;
  is_discovery_started = true;
  allowed_role = 63;
  change_type = change_node;
  host_name = b'h' ∷ [];
  process_id = 4;
  has_writer = true;
  own = [];
  notified = [];
  sent = [];
}

abbrev node_calls : List Event
node_calls =
    joins 100 a_writes role_node false
    ∷ process_leaves (λ a. 200) a_writes (b'h' ∷ []) 4
    ∷ shuts_down
    ∷ []

managers_tell_example :
    Told channel_virtual manager (
      handle_all channel_virtual channel_topo
        (joins 100 a_writes role_writer true ∷ hears b_leaves ∷ shuts_down ∷ [])
        manager)
    × Told node_virtual node_manager (handle_all node_virtual node_topo node_calls node_manager)
managers_tell_example =
    managers_tell (joins 100 a_writes role_writer true ∷ hears b_leaves ∷ shuts_down ∷ []) manager
      node_calls node_manager

abbrev busy : Manager ChannelManager
busy = record manager {
  own = record new {
    channel_writers =
        (12, record { class = Role.writer; attributes = a_writes; timestamp_ns = 100 }) ∷ [];
  };
}

no_id : ◌≢◌ {A = ℕ} 3 0
no_id e = omega arith

topo_leave_keeps_example :
    on_topo_module_leave (λ a. 200) (attributes [] 0 0) (b'h' ∷ []) 4 busy ≡ busy
topo_leave_keeps_example =
    topo_leave_keeps (λ a. 200) (attributes [] 0 0) (b'h' ∷ []) 4 busy (no_id, tt) tt

elected_lem_example :
    Earliest (present 3 messages []) (kept 3 (NodeManager.dispose_all messages []))
elected_lem_example = elected_lem messages 3

-- The node "a" has two writers on the channel, and one leaves: it is out of the graph, while the other
-- writer is still found.
abbrev two_writers : List ChangeMsg
two_writers =
    message 100 opt_join role_writer a_writes
    ∷ message 101 opt_join role_writer (attributes (b'a' ∷ []) 3 23)
    ∷ message 90 opt_join role_reader b_reads
    ∷ message 120 opt_leave role_writer a_writes
    ∷ []

abbrev one_left : ChannelManager
one_left = dispose_all two_writers new

one_left-found : map (λ r. r.id) (get_writers_of_channel one_left 12 []) ≡ 23 ∷ []
unfolding get_writers_of_channel dispose_all Role.matches
one_left-found = refl

one_left-out : sources (map change_of two_writers) nobody (b'x' ∷ []) (b'a' ∷ []) ≡ false
unfolding sources is_valid
one_left-out = refl
