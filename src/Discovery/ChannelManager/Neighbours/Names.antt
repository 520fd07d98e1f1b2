-- ===== src/Discovery/ChannelManager/Neighbours/Names.antt =====
-- Which nodes are upstream and downstream.
use cmw.Prelude.{
  ℕ, ◌≡◌, refl, sym, ap, subst, ◌∙◌, ◌↔◌, ◌⊎◌, List, [], ◌∷◌, ◌++◌, inl, inr, map, In, Bool-cases,
  append-nil, All,
}
use cmw.Prelude.Assoc.{Text, text_beq, text_beq_iff, text_eq, insert}
use cmw.Discovery.Role.{Role, RoleAttributes}
use cmw.Discovery.Warehouse.{found_all, multi_search_key_all}
use cmw.Discovery.ChannelManager.{
  ChannelManager, attributes_of, get_writers_of_channel, get_readers_of_channel,
  get_writers_of_node, get_readers_of_node,
}
use cmw.Discovery.ChannelManager.Neighbours.{
  emplace_names, search_each, node_attr, nodes_of, neighbours, get_upstream_of_node,
  get_downstream_of_node,
}
use cmw.Discovery.ChannelManager.Neighbours.Channels.{
  emplace_there, emplace_back, search_there, search_back,
}

-- A node's name is among those kept.
abbrev Kept : Text → List (Text × RoleAttributes) → Type 0
Kept n nodes = In n (map (λ e. e.1.node_name) nodes)

-- Every node is kept under its name.
abbrev Keyed : List (Text × RoleAttributes) → Type 0
Keyed nodes = All (λ e. e.1.node_name ≡ e.0) nodes

module _ (k : Text) (v : RoleAttributes) (named : v.node_name ≡ k) where
  Keyed-insert : (nodes : List (Text × RoleAttributes)) → Keyed nodes → Keyed (insert k v nodes)
  unfolding insert
  Keyed-insert [] keyed = (named, tt)
  Keyed-insert ((j, w) ∷ nodes) keyed = elim (Bool-cases (text_beq j k)) [
    | inl same ↦ rw same (named ∙ sym ((text_beq_iff j k).0 same), keyed.1)
    | inr other ↦ rw other (keyed.0, Keyed-insert nodes keyed.1)
  ]

  insert_there :
      (n : Text) (nodes : List (Text × RoleAttributes))
      → Kept n (insert k v nodes)
      → Kept n nodes ⊎ (n ≡ k)
  unfolding insert
  insert_there n [] (inl same) = inr (same ∙ named)
  insert_there n [] (inr nothing) = absurd nothing
  insert_there n ((j, w) ∷ nodes) h = elim (Bool-cases (text_beq j k)) [
    | inl same ↦
        let h' : (n ≡ v.node_name) ⊎ Kept n nodes = rw same at h in
        elim h' [ inl first ↦ inr (first ∙ named) | inr later ↦ inl (inr later) ]
    | inr other ↦
        let h' : (n ≡ w.node_name) ⊎ Kept n (insert k v nodes) = rw other at h in
        elim h' [
          | inl first ↦ inl (inl first)
          | inr later ↦ elim (insert_there n nodes later) [
            | inl old ↦ inl (inr old)
            | inr new ↦ inr new
          ]
        ]
  ]

  insert_back :
      (n : Text) (nodes : List (Text × RoleAttributes))
      → Keyed nodes
      → Kept n nodes ⊎ (n ≡ k)
      → Kept n (insert k v nodes)
  unfolding insert
  insert_back n [] keyed (inl nothing) = absurd nothing
  insert_back n [] keyed (inr new) = inl (new ∙ sym named)
  insert_back n ((j, w) ∷ nodes) keyed h = elim (Bool-cases (text_beq j k)) [
    | inl same ↦
        let here : (n ≡ w.node_name) → n ≡ v.node_name =
          λ first. first ∙ keyed.0 ∙ (text_beq_iff j k).0 same ∙ sym named in
        rw same (elim h [
          | inl (inl first) ↦ inl (here first)
          | inl (inr later) ↦ inr later
          | inr new ↦ inl (new ∙ sym named)
        ])
    | inr other ↦ rw other (elim h [
      | inl (inl first) ↦ inl first
      | inl (inr later) ↦ inr (insert_back n nodes keyed.1 (inl later))
      | inr new ↦ inr (insert_back n nodes keyed.1 (inr new))
    ])
  ]

-- A name is a node's of some role.
abbrev Owned : Text → List RoleAttributes → Type 0
Owned n rs = (w : RoleAttributes) × In w rs × (n ≡ w.node_name)

nodes_there :
    (unset : RoleAttributes) (n : Text) (rs : List RoleAttributes)
    (nodes : List (Text × RoleAttributes))
    → Kept n (nodes_of unset rs nodes)
    → Kept n nodes ⊎ Owned n rs
unfolding nodes_of
nodes_there unset n [] nodes h = inl h
nodes_there unset n (a ∷ rs) nodes h =
    elim (nodes_there unset n rs (insert a.node_name (node_attr unset a) nodes) h) [
      | inl found ↦ elim (insert_there a.node_name (node_attr unset a) refl n nodes found) [
        | inl old ↦ inl old
        | inr new ↦ inr (a, inl refl, new)
      ]
      | inr later ↦ inr (later.0, inr later.1, later.2)
    ]

nodes_back :
    (unset : RoleAttributes) (n : Text) (rs : List RoleAttributes)
    (nodes : List (Text × RoleAttributes))
    → Keyed nodes
    → Kept n nodes ⊎ Owned n rs
    → Kept n (nodes_of unset rs nodes)
unfolding nodes_of
nodes_back unset n [] nodes keyed (inl h) = h
nodes_back unset n [] nodes keyed (inr (w, h, e)) = absurd h
nodes_back unset n (a ∷ rs) nodes keyed h =
    nodes_back unset n rs (insert a.node_name (node_attr unset a) nodes)
      (Keyed-insert a.node_name (node_attr unset a) refl nodes keyed)
      (elim h [
        | inl old ↦ inl (insert_back a.node_name (node_attr unset a) refl n nodes keyed (inl old))
        | inr (w, inl same, e) ↦ inl (
            insert_back a.node_name (node_attr unset a) refl n nodes keyed
              (inr (e ∙ ap (λ r. r.node_name) same)))
        | inr (w, inr later, e) ↦ inr (w, later, e)
      ])

names_kept :
    (nodes : List (Text × RoleAttributes))
    → map (λ r. r.node_name) (map (λ e. e.1) nodes) ≡ map (λ e. e.1.node_name) nodes
names_kept [] = refl
names_kept (e ∷ nodes) = ap (λ l. e.1.node_name ∷ l) (names_kept nodes)

-- Some role of the first kind has a channel with a role of the second kind, whose node has the name.
abbrev pub Across :
    (ℕ → List RoleAttributes → List RoleAttributes)
    → (Text → ℕ)
    → List RoleAttributes
    → Text
    → Type 0
Across of_channel reg firsts n =
    (a w : RoleAttributes) × In a firsts
    × In w (of_channel (reg a.channel_name) [])
    × (n ≡ w.node_name)

module _ (of_channel : ℕ → List RoleAttributes → List RoleAttributes) (reg : Text → ℕ)
    (appends : (k : ℕ) (out : List RoleAttributes) → of_channel k out ≡ out ++ of_channel k [])
    (unset : RoleAttributes) (n : Text) where
  neighbours_there :
      (firsts : List RoleAttributes)
      → In n (map (λ r. r.node_name) (neighbours of_channel reg unset firsts []))
      → Across of_channel reg firsts n
  unfolding neighbours
  neighbours_there [] h = absurd h
  neighbours_there (a ∷ rs) h =
      let names = emplace_names (a ∷ rs) [] in
      let found = search_each of_channel reg names [] in
      elim (nodes_there unset n found [] (subst (In n) (names_kept _) h)) [
        | inl nothing ↦ absurd nothing
        | inr (w, hw, e) ↦ elim (search_there of_channel reg appends w names [] hw) [
          | inl nothing ↦ absurd nothing
          | inr (c, hc, here) ↦ elim (emplace_there c (a ∷ rs) [] hc) [
            | inl nothing ↦ absurd nothing
            | inr (b, hb, same) ↦ (b, w, hb, subst (λ x. In w (of_channel (reg x) [])) same here, e)
          ]
        ]
      ]

  neighbours_back :
      (firsts : List RoleAttributes)
      → Across of_channel reg firsts n
      → In n (map (λ r. r.node_name) (neighbours of_channel reg unset firsts []))
  unfolding neighbours
  neighbours_back [] (a, w, h, hw, e) = absurd h
  neighbours_back (a ∷ rs) (b, w, hb, hw, e) =
      let names = emplace_names (a ∷ rs) [] in
      let named : In b.channel_name names =
        emplace_back b.channel_name (a ∷ rs) [] (inr (b, hb, refl)) in
      let found = search_back of_channel reg appends w names [] (inr (b.channel_name, named, hw)) in
      subst (In n) (sym (names_kept _)) (nodes_back unset n _ [] tt (inr (w, found, e)))

found_all-append :
    (out : List RoleAttributes) (rs : List Role)
    → (found_all attributes_of out rs).1 ≡ out ++ (found_all attributes_of [] rs).1
found_all-append out [] = sym (append-nil out)
found_all-append out (r ∷ rs) = refl

-- For any way to register the names of channels: the nodes that `GetUpstreamOfNode` gives are, by name,
-- those of the writers found for the channels of the readers found for the node, and the nodes that
-- `GetDownstreamOfNode` gives are those of the readers found for the channels of the writers found for
-- the node.
pub neighbours_lem :
    (reg : Text → ℕ) (unset : RoleAttributes) (m : ChannelManager) (key : ℕ) (n : Text)
    → (In n (map (λ r. r.node_name) (get_upstream_of_node reg unset m key []))
        ↔ Across (get_writers_of_channel m) reg (get_readers_of_node m key []) n)
      × (In n (map (λ r. r.node_name) (get_downstream_of_node reg unset m key []))
          ↔ Across (get_readers_of_channel m) reg (get_writers_of_node m key []) n)
unfolding get_upstream_of_node neighbours get_downstream_of_node get_writers_of_node
neighbours_lem reg unset m key n =
    let up : (k : ℕ) (out : List RoleAttributes)
        → get_writers_of_channel m k out ≡ out ++ get_writers_of_channel m k [] =
      λ k out. unfold get_writers_of_channel multi_search_key_all in found_all-append out _ in
    let down : (k : ℕ) (out : List RoleAttributes)
        → get_readers_of_channel m k out ≡ out ++ get_readers_of_channel m k [] =
      λ k out. unfold get_readers_of_channel multi_search_key_all in found_all-append out _ in
    (
      (
        neighbours_there (get_writers_of_channel m) reg up unset n (get_readers_of_node m key []),
        neighbours_back (get_writers_of_channel m) reg up unset n (get_readers_of_node m key []),
      ),
      (
        neighbours_there (get_readers_of_channel m) reg down unset n (get_writers_of_node m key []),
        neighbours_back (get_readers_of_channel m) reg down unset n (get_writers_of_node m key []),
      ),
    )
