-- ===== src/Discovery/Notices.antt =====
-- What the listeners of the channel manager and of the node manager are told, `OnTopoModuleLeave` of each
-- (channel_manager.cpp and node_manager.cpp in discovery/specific_manager/) among the calls.
use cmw.Prelude.{
  ℕ, ◌≡◌, refl, sym, ◌∙◌, not, List, [], ◌∷◌, ◌++◌, All, inr, append-nil, append_assoc, map,
}
use cmw.Prelude.Assoc.{Text}
use cmw.Discovery.Role.{Role, RoleAttributes}
use cmw.Discovery.Change.{ChangeMsg, RoleType, role_node, role_writer, role_reader, opt_leave}
use cmw.Discovery.Warehouse.{RoleMap, single_remove_key, search_attr_all}
use cmw.Discovery.Manager.{Manager, convert, notify}
use cmw.Discovery.Manager.Events.{
  Event, TopoLeave, handle_all, Told, IsSound, replay, Told-trans, quiet-Told, dispose-Told,
  if-Told, handle_all-Told,
}
use cmw.Discovery.ChannelManager.{ChannelManager}
use cmw.Discovery.ChannelManager.Leaving.{channel_virtual, leave_each}
use cmw.Discovery.ChannelManager.Leaving
use cmw.Discovery.NodeManager.{node_virtual, remove_each, notify_each, dispose, dispose_leave}
use cmw.Discovery.NodeManager

abbrev pub channel_topo : TopoLeave ChannelManager
channel_topo = Leaving.on_topo_module_leave

abbrev pub node_topo : TopoLeave RoleMap
node_topo = NodeManager.on_topo_module_leave

leave_each-Told :
    (clock : RoleAttributes → ℕ) (role : RoleType) (rs : List Role) (m : Manager ChannelManager)
    → Told channel_virtual m (leave_each clock role rs m)
unfolding leave_each convert
leave_each-Told clock role [] m = quiet-Told channel_virtual refl refl
leave_each-Told clock role (r ∷ rs) m =
    Told-trans channel_virtual (dispose-Told channel_virtual _ m (inr refl))
      (leave_each-Told clock role rs _)

channel-Told :
    (clock : RoleAttributes → ℕ) (unset : RoleAttributes) (host : Text) (process : ℕ)
    (m : Manager ChannelManager)
    → Told channel_virtual m (channel_topo clock unset host process m)
unfolding Leaving.on_topo_module_leave
channel-Told clock unset host process m =
    let gone = Leaving.gone unset host process in
    let writers = (search_attr_all (λ r. r) m.own.channel_writers gone []).1 in
    let readers = (search_attr_all (λ r. r) m.own.channel_readers gone []).1 in
    if-Told channel_virtual (not m.is_discovery_started) (λ _. quiet-Told channel_virtual refl refl)
      (λ _.
        Told-trans channel_virtual (leave_each-Told clock role_writer writers m)
          (leave_each-Told clock role_reader readers _))

-- The messages that the node manager tells of the nodes that it has removed
abbrev farewells : (RoleAttributes → ℕ) → List Role → Manager RoleMap → List ChangeMsg
farewells clock rs m = map (λ r. convert (clock r.attributes) r.attributes role_node opt_leave m) rs

farewells-IsSound :
    (clock : RoleAttributes → ℕ) (rs : List Role) (m : Manager RoleMap)
    → All (IsSound node_virtual) (farewells clock rs m)
unfolding convert
farewells-IsSound clock [] m = tt
farewells-IsSound clock (r ∷ rs) m = (inr refl, farewells-IsSound clock rs m)

remove_each-replay :
    (clock : RoleAttributes → ℕ) (rs : List Role) (m : Manager RoleMap) (nodes : RoleMap)
    → remove_each rs nodes ≡ replay node_virtual (farewells clock rs m) nodes
unfolding remove_each convert dispose dispose_leave
remove_each-replay clock [] m nodes = refl
remove_each-replay clock (r ∷ rs) m nodes =
    remove_each-replay clock rs m (single_remove_key nodes r.attributes.node_id)

notify_each-notified :
    (clock : RoleAttributes → ℕ) (rs : List Role) (m : Manager RoleMap)
    → (notify_each clock rs m).notified ≡ m.notified ++ farewells clock rs m
unfolding notify_each notify convert
notify_each-notified clock [] m = sym (append-nil m.notified)
notify_each-notified clock (r ∷ rs) m =
    let msg = convert (clock r.attributes) r.attributes role_node opt_leave m in
    notify_each-notified clock rs (notify msg m)
    ∙ append_assoc m.notified (msg ∷ []) (farewells clock rs m)

notify_each-own :
    (clock : RoleAttributes → ℕ) (rs : List Role) (m : Manager RoleMap)
    → (notify_each clock rs m).own ≡ m.own
unfolding notify_each notify
notify_each-own clock [] m = refl
notify_each-own clock (r ∷ rs) m = notify_each-own clock rs (notify _ m)

node-Told :
    (clock : RoleAttributes → ℕ) (unset : RoleAttributes) (host : Text) (process : ℕ)
    (m : Manager RoleMap)
    → Told node_virtual m (node_topo clock unset host process m)
unfolding NodeManager.on_topo_module_leave convert
node-Told clock unset host process m =
    let attr = record unset { host_name = host; process_id = process } in
    let gone = (search_attr_all (λ r. r) m.own attr []).1 in
    if-Told node_virtual (not m.is_discovery_started) (λ _. quiet-Told node_virtual refl refl)
      (λ _. record {
        told = farewells clock gone m;
        notices = notify_each-notified clock gone (record m { own = remove_each gone m.own });
        state =
            notify_each-own clock gone (record m { own = remove_each gone m.own })
            ∙ remove_each-replay clock gone m m.own;
        checked = farewells-IsSound clock gone m;
      })

-- After any sequence of calls of `Join`, `Leave`, `OnRemoteChange`, `OnTopoModuleLeave` and `Shutdown` on a
-- channel manager, and any on a node manager, the listeners of each have been told, in order, messages such
-- that to dispose them one after the other gives its state from the one before; and each join among them
-- has passed the test of the manager.
pub managers_tell :
    (es : List Event) (m : Manager ChannelManager) (es' : List Event) (m' : Manager RoleMap)
    → Told channel_virtual m (handle_all channel_virtual channel_topo es m)
      × Told node_virtual m' (handle_all node_virtual node_topo es' m')
managers_tell es m es' m' = (
  handle_all-Told channel_virtual channel_topo channel-Told es m,
  handle_all-Told node_virtual node_topo node-Told es' m',
)
