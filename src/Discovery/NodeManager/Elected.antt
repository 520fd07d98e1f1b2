-- ===== src/Discovery/NodeManager/Elected.antt =====
-- Which of the nodes with an id is kept.
use cmw.Prelude.{
  ℕ, ◌≤◌, ◌≡◌, refl, sym, subst, Bool, true, false, List, Bool-cases, ltb→lt, [], ◌∷◌, ◌==◌, ==_iff,
  Option, none, some, All, In, arith, inl, inr, if◌then◌else◌, ltb,
}
use cmw.Prelude.Assoc.{nat_eq, lookup, lookup-insert, lookup-erase}
use cmw.Discovery.Role.{Role, is_earlier_than}
use cmw.Discovery.Warehouse.{RoleMap, single_add, single_remove_key, single_search_key}
use cmw.Discovery.Change.{ChangeMsg, OperateType, opt_join, opt_leave}
use cmw.Discovery.NodeManager.{node_of, dispose, dispose_join, dispose_leave, dispose_all}

-- The nodes with an id that have joined since the last leave of the id
unfoldable pub present : ℕ → List ChangeMsg → List Role → List Role
present k [] rs = rs
present k (msg ∷ msgs) rs = present k msgs (
    if msg.role_attr.node_id == k
    then (elim msg.operate_type [ opt_join ↦ node_of msg ∷ rs | opt_leave ↦ [] ])
    else rs)

-- One of some nodes than which no other is earlier, or none of none.
abbrev pub Earliest : List Role → Option Role → Type 0
Earliest rs none = rs ≡ []
Earliest rs (some r) = In r rs × All (λ q. r.timestamp_ns ≤ q.timestamp_ns) rs

-- What the manager keeps under an id
abbrev pub kept : ℕ → RoleMap → Option Role
kept k nodes = single_search_key (λ r. r) nodes k

abbrev chosen : Role → Option Role → Role
chosen new none = new
chosen new (some old) = if ltb new.timestamp_ns old.timestamp_ns then new else old

kept-join :
    (msg : ChangeMsg) (k : ℕ) (nodes : RoleMap)
    → kept k (dispose_join msg nodes) ≡ (
        if msg.role_attr.node_id == k
        then some (chosen (node_of msg) (kept k nodes))
        else kept k nodes)
unfolding dispose_join single_add single_search_key is_earlier_than
kept-join msg k nodes = ground (
  arith,
  lookup-insert msg.role_attr.node_id k (node_of msg) nodes,
  ==_iff msg.role_attr.node_id k,
)

kept-leave :
    (msg : ChangeMsg) (k : ℕ) (nodes : RoleMap)
    → kept k (dispose_leave msg nodes) ≡ (if msg.role_attr.node_id == k then none else kept k nodes)
unfolding dispose_leave single_remove_key single_search_key
kept-leave msg k nodes = ground (arith, lookup-erase msg.role_attr.node_id k nodes)

none_earlier :
    (t s : ℕ) (rs : List Role)
    → t ≤ s
    → All (λ q. s ≤ q.timestamp_ns) rs
    → All (λ q. t ≤ q.timestamp_ns) rs
none_earlier t s [] le all = tt
none_earlier t s (q ∷ rs) le all = (omega (arith, all.0), none_earlier t s rs le all.1)

Earliest-chosen :
    (new : Role) (rs : List Role) (o : Option Role)
    → Earliest rs o
    → Earliest (new ∷ rs) (some (chosen new o))
Earliest-chosen new rs none e = (inl refl, (omega arith, rw e tt))
Earliest-chosen new rs (some old) (h, first) =
    elim (Bool-cases (ltb new.timestamp_ns old.timestamp_ns)) [
      | inl less ↦
          let same : new ≡ chosen new (some old) = rw less in
          let later : All (λ q. new.timestamp_ns ≤ q.timestamp_ns) rs =
            none_earlier new.timestamp_ns old.timestamp_ns rs
              (omega (arith, ltb→lt new.timestamp_ns old.timestamp_ns less)) first in
          subst (λ r. Earliest (new ∷ rs) (some r)) same (inl refl, (omega arith, later))
      | inr more ↦
          let same : old ≡ chosen new (some old) = rw more in
          subst (λ r. Earliest (new ∷ rs) (some r)) same (inr h, (ground arith, first))
    ]

-- One message, by the test of its id and its operation
abbrev after : Bool → OperateType → Role → List Role → List Role
after b o new rs = if b then (elim o [ opt_join ↦ new ∷ rs | opt_leave ↦ [] ]) else rs

abbrev kept_after : Bool → OperateType → Role → Option Role → Option Role
kept_after b o new old =
    if b then (elim o [ opt_join ↦ some (chosen new old) | opt_leave ↦ none ]) else old

Earliest-after :
    (b : Bool) (o : OperateType) (new : Role) (rs : List Role) (old : Option Role)
    → Earliest rs old
    → Earliest (after b o new rs) (kept_after b o new old)
Earliest-after false o new rs old e = e
Earliest-after true opt_join new rs old e = Earliest-chosen new rs old e
Earliest-after true opt_leave new rs old e = refl

kept-dispose :
    (msg : ChangeMsg) (k : ℕ) (nodes : RoleMap)
    → kept k (dispose msg nodes)
      ≡ kept_after (msg.role_attr.node_id == k) msg.operate_type (node_of msg) (kept k nodes)
unfolding dispose
kept-dispose msg k nodes = ground (arith, kept-join msg k nodes, kept-leave msg k nodes)

Earliest-dispose_all :
    (msgs : List ChangeMsg) (k : ℕ) (nodes : RoleMap) (rs : List Role)
    → Earliest rs (kept k nodes)
    → Earliest (present k msgs rs) (kept k (dispose_all msgs nodes))
unfolding present dispose_all
Earliest-dispose_all [] k nodes rs e = e
Earliest-dispose_all (msg ∷ msgs) k nodes rs e = Earliest-dispose_all msgs k (dispose msg nodes) _ (
    subst (Earliest _) (sym (kept-dispose msg k nodes)) (
      Earliest-after (msg.role_attr.node_id == k) msg.operate_type (node_of msg) rs (kept k nodes)
        e))

-- After any sequence of joins and leaves, the node kept under an id is one that has joined since the
-- last leave of the id and than which no other such node is earlier; none is kept if there is none.
pub elected_lem :
    (msgs : List ChangeMsg) (k : ℕ) → Earliest (present k msgs []) (kept k (dispose_all msgs []))
elected_lem msgs k = Earliest-dispose_all msgs k [] [] (unfold single_search_key lookup in refl)
