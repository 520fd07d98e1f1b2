-- ===== src/Discovery/ChannelManager/Neighbours/Channels.antt =====
-- The names of some roles' channels, and the roles found under them.
use cmw.Prelude.{
  ℕ, ◌≡◌, refl, sym, ap, subst, ◌∙◌, ◌⊎◌, List, [], ◌∷◌, ◌++◌, inl, inr, if◌then◌else◌, In, In-left,
  In-right, In-split, Bool-cases,
}
use cmw.Prelude.Assoc.{Text, text_eq}
use cmw.Discovery.Role.{RoleAttributes}
use cmw.Discovery.Graph.{contains}
use cmw.Discovery.Graph.Walks.{contains_lem}
use cmw.Discovery.ChannelManager.Neighbours.{emplace_names, search_each}

-- A set of names with one more
abbrev added : Text → List Text → List Text
added n names = if contains n names then names else names ++ n ∷ []

added_there : (c n : Text) (names : List Text) → In c (added n names) → In c names ⊎ (c ≡ n)
added_there c n names h = elim (Bool-cases (contains n names)) [
  | inl old ↦ inl (rw old at h)
  | inr new ↦ elim (In-split c names (n ∷ []) (rw new at h)) [
    | inl before ↦ inl before
    | inr last ↦ elim last [ inl same ↦ inr same | inr nothing ↦ absurd nothing ]
  ]
]

added_back : (c n : Text) (names : List Text) → In c names ⊎ (c ≡ n) → In c (added n names)
added_back c n names h = elim (Bool-cases (contains n names)) [
  | inl old ↦ rw old (elim h [
    | inl before ↦ before
    | inr same ↦ subst (λ x. In x names) (sym same) (contains_lem n names old)
  ])
  | inr new ↦ rw new (elim h [
    | inl before ↦ In-left c names (n ∷ []) before
    | inr same ↦ In-right c names (n ∷ []) (inl same)
  ])
]

-- A name is the channel's of some role.
abbrev pub Named : Text → List RoleAttributes → Type 0
Named c rs = (a : RoleAttributes) × In a rs × (c ≡ a.channel_name)

pub emplace_there :
    (c : Text) (rs : List RoleAttributes) (names : List Text)
    → In c (emplace_names rs names)
    → In c names ⊎ Named c rs
unfolding emplace_names
emplace_there c [] names h = inl h
emplace_there c (a ∷ rs) names h = elim (emplace_there c rs (added a.channel_name names) h) [
  | inl found ↦ elim (added_there c a.channel_name names found) [
    | inl before ↦ inl before
    | inr same ↦ inr (a, inl refl, same)
  ]
  | inr later ↦ inr (later.0, inr later.1, later.2)
]

pub emplace_back :
    (c : Text) (rs : List RoleAttributes) (names : List Text)
    → In c names ⊎ Named c rs
    → In c (emplace_names rs names)
unfolding emplace_names
emplace_back c [] names (inl h) = h
emplace_back c [] names (inr (a, h, e)) = absurd h
emplace_back c (a ∷ rs) names (inl h) =
    emplace_back c rs _ (inl (added_back c a.channel_name names (inl h)))
emplace_back c (a ∷ rs) names (inr (b, inl same, e)) =
    emplace_back c rs _
      (inl (added_back c a.channel_name names (inr (e ∙ ap (λ r. r.channel_name) same))))
emplace_back c (a ∷ rs) names (inr (b, inr later, e)) = emplace_back c rs _ (inr (b, later, e))

-- A search that appends to the caller's vector
module _ (of_channel : ℕ → List RoleAttributes → List RoleAttributes) (reg : Text → ℕ)
    (appends : (k : ℕ) (out : List RoleAttributes)
      → of_channel k out ≡ out ++ of_channel k []) where
  -- A role is found under one of the names.
  abbrev pub Found : RoleAttributes → List Text → Type 0
  Found w cs = (c : Text) × In c cs × In w (of_channel (reg c) [])

  pub search_there :
      (w : RoleAttributes) (cs : List Text) (out : List RoleAttributes)
      → In w (search_each of_channel reg cs out)
      → In w out ⊎ Found w cs
  unfolding search_each
  search_there w [] out h = inl h
  search_there w (c ∷ cs) out h = elim (search_there w cs (of_channel (reg c) out) h) [
    | inl found ↦
        elim (In-split w out (of_channel (reg c) []) (subst (In w) (appends (reg c) out) found)) [
          | inl before ↦ inl before
          | inr here ↦ inr (c, inl refl, here)
        ]
    | inr later ↦ inr (later.0, inr later.1, later.2)
  ]

  pub search_back :
      (w : RoleAttributes) (cs : List Text) (out : List RoleAttributes)
      → In w out ⊎ Found w cs
      → In w (search_each of_channel reg cs out)
  unfolding search_each
  search_back w [] out (inl h) = h
  search_back w [] out (inr (c, h, f)) = absurd h
  search_back w (c ∷ cs) out (inl h) =
      search_back w cs _ (inl (subst (In w) (sym (appends (reg c) out)) (In-left w out _ h)))
  search_back w (c ∷ cs) out (inr (d, inl same, f)) =
      let here : In w (of_channel (reg c) []) = subst (λ x. In w (of_channel (reg x) [])) same f in
      search_back w cs _ (inl (subst (In w) (sym (appends (reg c) out)) (In-right w out _ here)))
  search_back w (c ∷ cs) out (inr (d, inr later, f)) = search_back w cs _ (inr (d, later, f))
