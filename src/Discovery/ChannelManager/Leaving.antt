-- ===== src/Discovery/ChannelManager/Leaving.antt =====
-- `OnTopoModuleLeave` of the channel manager, when a process is gone.
use cmw.Prelude.{ℕ, ◌≡◌, ◌≢◌, refl, false, not, List, [], ◌∷◌, ==_iff, if◌then◌else◌, arith, All}
use cmw.Prelude.Assoc.{Text}
use cmw.Discovery.Role.{Role, RoleAttributes, base_match, writer_match, matches}
use cmw.Discovery.Change.{opt_leave, RoleType, role_writer, role_reader}
use cmw.Discovery.Warehouse.{RoleMap, filter_if, is_match, search_attr_all}
use cmw.Discovery.Manager.{Virtual, Manager, convert, dispose_msg, filled}
use cmw.Discovery.ChannelManager.{ChannelManager, check, dispose}

pub check-filled : (h : Text) (p : ℕ) (a : RoleAttributes) → check (filled h p a) ≡ check a
unfolding check
check-filled h p a = refl

-- What the channel manager gives the manager.
abbrev pub channel_virtual : Virtual ChannelManager
channel_virtual = record { check = check; dispose = dispose; check_filled = check-filled }

-- The loop over the roles to remove; `clock` is the time when a role's turn comes.
unfoldable pub leave_each :
    (RoleAttributes → ℕ) → RoleType → List Role → Manager ChannelManager → Manager ChannelManager
unfolding convert dispose_msg
leave_each clock role [] m = m
leave_each clock role (r ∷ rs) m =
    leave_each clock role rs
      (dispose_msg channel_virtual (convert (clock r.attributes) r.attributes role opt_leave m) m)

-- The attributes searched for: only the host and the process are set, and `unset` is what stands in the
-- others.
abbrev pub gone : RoleAttributes → Text → ℕ → RoleAttributes
gone unset host process = record unset { host_name = host; process_id = process }

unfoldable pub on_topo_module_leave :
    (RoleAttributes → ℕ)
    → RoleAttributes
    → Text
    → ℕ
    → Manager ChannelManager
    → Manager ChannelManager
unfolding search_attr_all leave_each
on_topo_module_leave clock unset host process m =
    let writers_to_remove =
      (search_attr_all (λ r. r) m.own.channel_writers (gone unset host process) []).1 in
    let readers_to_remove =
      (search_attr_all (λ r. r) m.own.channel_readers (gone unset host process) []).1 in
    if not m.is_discovery_started
    then m
    else leave_each clock role_reader readers_to_remove
        (leave_each clock role_writer writers_to_remove m)

-- No role of the map is of the node.
abbrev pub Without : ℕ → RoleMap → Type 0
Without node_id roles = All (λ e. e.1.attributes.node_id ≢ node_id) roles

matches-other :
    (r : Role) (target : RoleAttributes)
    → r.attributes.node_id ≢ target.node_id
    → matches r target ≡ false
unfolding matches writer_match base_match
matches-other r target other = ground (arith, ==_iff target.node_id r.attributes.node_id, other)

none_found :
    (target : RoleAttributes) (roles : RoleMap)
    → Without target.node_id roles
    → filter_if (is_match target) roles ≡ []
unfolding filter_if
none_found target [] none = refl
none_found target (e ∷ roles) none =
    ground (arith, matches-other e.1 target none.0, none_found target roles none.1)

-- `OnTopoModuleLeave` changes nothing and tells the listeners nothing, whichever process is gone, if no
-- role's node has the id that stands in the attributes it searches for and that it does not set.
pub topo_leave_keeps :
    (clock : RoleAttributes → ℕ) (unset : RoleAttributes) (host : Text) (process : ℕ)
    (m : Manager ChannelManager)
    → Without unset.node_id m.own.channel_writers
    → Without unset.node_id m.own.channel_readers
    → on_topo_module_leave clock unset host process m ≡ m
unfolding on_topo_module_leave search_attr_all leave_each
topo_leave_keeps clock unset host process m writers readers =
    let w = none_found (gone unset host process) m.own.channel_writers writers in
    let r = none_found (gone unset host process) m.own.channel_readers readers in
    rw (w, r) (ground arith)
