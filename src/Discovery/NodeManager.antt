-- ===== src/Discovery/NodeManager.antt =====
-- discovery/specific_manager/node_manager.cpp: the nodes by their id, one to an id. What a duplicate
-- prints is left out.
pub mod Elected
use cmw.Prelude.{
  ℕ, ◌≡◌, refl, Bool, true, false, not, List, [], ◌∷◌, none, some, ◌==◌, if◌then◌else◌,
}
use cmw.Prelude.Assoc.{Text, nat_eq}
use cmw.Discovery.Role.{Role, RoleAttributes, base, is_earlier_than}
use cmw.Discovery.Warehouse.{
  RoleMap, is_some, single_add, single_remove_key, single_search_key, search_attr_all,
  get_all_roles,
}
use cmw.Discovery.Graph.{is_dummy}
use cmw.Discovery.Change.{ChangeMsg, OperateType, opt_join, opt_leave, role_node}
use cmw.Discovery.Manager.{Virtual, Manager, filled, convert, notify}

unfoldable pub check : RoleAttributes → Bool
check attr = if is_dummy attr.node_name then false else if attr.node_id == 0 then false else true

abbrev pub node_of : ChangeMsg → Role
node_of msg = record { class = base; attributes = msg.role_attr; timestamp_ns = msg.timestamp }

unfoldable pub dispose_join : ChangeMsg → RoleMap → RoleMap
unfolding single_add single_search_key is_earlier_than
dispose_join msg nodes =
    let node = node_of msg in
    let key = node.attributes.node_id in
    let added = single_add nodes key node false in
    if added.0 then added.1 else elim (single_search_key (λ r. r) added.1 key) [
      | none ↦ (single_add added.1 key node true).1
      | some existing_node ↦
          if is_earlier_than node existing_node
          then (single_add added.1 key node true).1
          else added.1
    ]

unfoldable pub dispose_leave : ChangeMsg → RoleMap → RoleMap
unfolding single_remove_key
dispose_leave msg nodes = single_remove_key nodes (node_of msg).attributes.node_id

unfoldable pub dispose : ChangeMsg → RoleMap → RoleMap
unfolding dispose_join dispose_leave
dispose msg nodes = elim msg.operate_type [
  | opt_join ↦ dispose_join msg nodes
  | opt_leave ↦ dispose_leave msg nodes
]

unfoldable pub dispose_all : List ChangeMsg → RoleMap → RoleMap
unfolding dispose
dispose_all [] nodes = nodes
dispose_all (msg ∷ msgs) nodes = dispose_all msgs (dispose msg nodes)

-- `HasNode`, of a name's registered id
unfoldable pub has_node : ℕ → RoleMap → Bool
unfolding single_search_key
has_node key nodes = is_some (single_search_key (λ r. r) nodes key)

abbrev pub get_nodes : RoleMap → List RoleAttributes → List RoleAttributes
get_nodes nodes out = get_all_roles (λ r. r.attributes) nodes out

pub check-filled : (h : Text) (p : ℕ) (a : RoleAttributes) → check (filled h p a) ≡ check a
unfolding check
check-filled h p a = refl

-- What the node manager gives the manager.
abbrev pub node_virtual : Virtual RoleMap
node_virtual = record { check = check; dispose = dispose; check_filled = check-filled }

-- `OnTopoModuleLeave`: the loop that removes the nodes, and the one that tells the listeners.
unfoldable pub remove_each : List Role → RoleMap → RoleMap
unfolding single_remove_key
remove_each [] nodes = nodes
remove_each (r ∷ rs) nodes = remove_each rs (single_remove_key nodes r.attributes.node_id)

unfoldable pub notify_each : (RoleAttributes → ℕ) → List Role → Manager RoleMap → Manager RoleMap
unfolding convert notify
notify_each clock [] m = m
notify_each clock (r ∷ rs) m =
    notify_each clock rs
      (notify (convert (clock r.attributes) r.attributes role_node opt_leave m) m)

-- `unset` is what stands in the attributes that the code leaves out.
unfoldable pub on_topo_module_leave :
    (RoleAttributes → ℕ) → RoleAttributes → Text → ℕ → Manager RoleMap → Manager RoleMap
unfolding search_attr_all remove_each notify_each
on_topo_module_leave clock unset host process m =
    let attr = record unset { host_name = host; process_id = process } in
    let nodes_to_remove = (search_attr_all (λ r. r) m.own attr []).1 in
    if not m.is_discovery_started
    then m
    else notify_each clock nodes_to_remove (record m { own = remove_each nodes_to_remove m.own })
