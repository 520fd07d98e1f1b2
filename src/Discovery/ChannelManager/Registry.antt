-- ===== src/Discovery/ChannelManager/Registry.antt =====
-- Who is found to write and read after any sequence of joins and leaves.
use cmw.Prelude.{
  ℕ, ◌≡◌, ◌≢◌, refl, ap, ◌∙◌, Bool, true, not, ◌&&◌, List, [], ◌∷◌, ◌==◌, ==_iff, map, arith,
  if◌then◌else◌,
}
use cmw.Discovery.Role.{Role, RoleAttributes, matches}
use cmw.Discovery.Change.{ChangeMsg, opt_join, opt_leave, RoleType, role_reader}
use cmw.Discovery.Warehouse.{
  RoleMap, erase_if, filter_if, has_key, found_all, multi_add, multi_remove_role,
  multi_search_key_all,
}
use cmw.Discovery.Warehouse.Multi.{search_key_all-remove}
use cmw.Discovery.ChannelManager.{
  ChannelManager, new, role_of, is_writer, attributes_of, dispose, dispose_join, dispose_leave,
  dispose_all, get_writers_of_channel, get_readers_of_channel, get_writers_of_node,
  get_readers_of_node,
}

-- The roles that do not match the attributes
unfoldable pub unmatched : RoleAttributes → List Role → List Role
unmatched a [] = []
unmatched a (r ∷ rs) = if matches r a then unmatched a rs else r ∷ unmatched a rs

-- The roles that one kind of message leaves under a key: a join puts one before the others, and a leave
-- takes out all that match.
module _ (mine : RoleType → Bool) (key_of : RoleAttributes → ℕ) (k : ℕ) where
  abbrev pub registered_by : ChangeMsg → List Role → List Role
  registered_by msg rs =
      if mine msg.role_type && (key_of msg.role_attr == k)
      then (elim msg.operate_type [
        | opt_join ↦ role_of msg ∷ rs
        | opt_leave ↦ unmatched msg.role_attr rs
      ])
      else rs

  unfoldable pub registered : List ChangeMsg → List Role → List Role
  registered [] rs = rs
  registered (msg ∷ msgs) rs = registered msgs (registered_by msg rs)

under : ℕ → RoleMap → List Role
under k m = filter_if (has_key k) m

under-add :
    (k j : ℕ) (r : Role) (m : RoleMap)
    → under k (multi_add m j r true).1 ≡ (if j == k then r ∷ under k m else under k m)
unfolding under multi_add filter_if
under-add k j r m = refl

under-remove :
    (k j : ℕ) (r : Role) (m : RoleMap)
    → under k (multi_remove_role m j r)
      ≡ (if j == k then unmatched r.attributes (under k m) else under k m)
unfolding under multi_remove_role erase_if filter_if unmatched
under-remove k j r [] = ground arith
under-remove k j r (e ∷ m) =
    ground (arith, under-remove k j r m, ==_iff e.0 k, ==_iff e.0 j, ==_iff j k)

module _ (field : ChannelManager → RoleMap) (mine : RoleType → Bool) (key_of : RoleAttributes → ℕ)
    (k : ℕ)
    (one : (msg : ChangeMsg) (m : ChannelManager)
      → under k (field (dispose msg m)) ≡ registered_by mine key_of k msg (under k (field m))) where
  under-dispose_all :
      (msgs : List ChangeMsg) (m : ChannelManager)
      → under k (field (dispose_all msgs m)) ≡ registered mine key_of k msgs (under k (field m))
  unfolding dispose_all registered
  under-dispose_all [] m = refl
  under-dispose_all (msg ∷ msgs) m =
      under-dispose_all msgs (dispose msg m) ∙ ap (registered mine key_of k msgs) (one msg m)

abbrev pub is_reader : RoleType → Bool
is_reader r = not (is_writer r)

module _ (k : ℕ) (msg : ChangeMsg) (m : ChannelManager) where
  channel_writers-dispose :
      under k (dispose msg m).channel_writers
      ≡ registered_by is_writer (λ a. a.channel_id) k msg (under k m.channel_writers)
  unfolding dispose dispose_join dispose_leave
  channel_writers-dispose = ground (
    arith,
    under-add k msg.role_attr.channel_id (role_of msg) m.channel_writers,
    under-remove k msg.role_attr.channel_id (role_of msg) m.channel_writers,
  )

  channel_readers-dispose :
      under k (dispose msg m).channel_readers
      ≡ registered_by is_reader (λ a. a.channel_id) k msg (under k m.channel_readers)
  unfolding dispose dispose_join dispose_leave
  channel_readers-dispose = ground (
    arith,
    under-add k msg.role_attr.channel_id (role_of msg) m.channel_readers,
    under-remove k msg.role_attr.channel_id (role_of msg) m.channel_readers,
  )

  node_writers-dispose :
      under k (dispose msg m).node_writers
      ≡ registered_by is_writer (λ a. a.node_id) k msg (under k m.node_writers)
  unfolding dispose dispose_join dispose_leave
  node_writers-dispose = ground (
    arith,
    under-add k msg.role_attr.node_id (role_of msg) m.node_writers,
    under-remove k msg.role_attr.node_id (role_of msg) m.node_writers,
  )

attributes_found : (rs : List Role) → (found_all attributes_of [] rs).1 ≡ map attributes_of rs
attributes_found [] = refl
attributes_found (r ∷ rs) = refl

-- After any sequence of joins and leaves, the writers of a channel, the readers of a channel and the
-- writers of a node are found: those that joined and that no leave has matched since, the last one first.
pub registry_lem :
    (msgs : List ChangeMsg) (k : ℕ)
    → (get_writers_of_channel (dispose_all msgs new) k []
        ≡ map attributes_of (registered is_writer (λ a. a.channel_id) k msgs []))
      × (get_readers_of_channel (dispose_all msgs new) k []
          ≡ map attributes_of (registered is_reader (λ a. a.channel_id) k msgs []))
      × (get_writers_of_node (dispose_all msgs new) k []
          ≡ map attributes_of (registered is_writer (λ a. a.node_id) k msgs []))
unfolding get_writers_of_channel get_readers_of_channel get_writers_of_node multi_search_key_all
    under filter_if
registry_lem msgs k = (
  attributes_found _
      ∙ ap (map attributes_of) (
          under-dispose_all (λ m. m.channel_writers) is_writer (λ a. a.channel_id) k
            (channel_writers-dispose k) msgs new),
  attributes_found _
      ∙ ap (map attributes_of) (
          under-dispose_all (λ m. m.channel_readers) is_reader (λ a. a.channel_id) k
            (channel_readers-dispose k) msgs new),
  attributes_found _
      ∙ ap (map attributes_of) (
          under-dispose_all (λ m. m.node_writers) is_writer (λ a. a.node_id) k
            (node_writers-dispose k) msgs new),
)

-- When a reader leaves, the readers of a node that are found are those of before, for every node whose
-- id is not that of the reader's channel.
pub readers_of_node-leave :
    (msg : ChangeMsg) (m : ChannelManager) (k : ℕ) (out : List RoleAttributes)
    → msg.role_type ≡ role_reader
    → msg.role_attr.channel_id ≢ k
    → get_readers_of_node (dispose_leave msg m) k out ≡ get_readers_of_node m k out
unfolding get_readers_of_node dispose_leave
readers_of_node-leave msg m k out reader other =
    let same =
      search_key_all-remove attributes_of m.node_readers msg.role_attr.channel_id k (role_of msg)
        out in
    ground (arith, same, ==_iff msg.role_attr.channel_id k)
