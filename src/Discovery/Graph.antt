-- ===== src/Discovery/Graph.antt =====
-- discovery/container/graph.cpp: which nodes write to which, by channel. A vertex is its value, and a
-- set of vertices is keyed by the values. Each call holds the graph's lock throughout.
pub mod Keys
pub mod Adjacency
pub mod Shows
pub mod Steps
pub mod History
pub mod Walks
pub mod Search
pub mod Traverse
pub mod Direction
use cmw.Prelude.{
  ℕ, zero, suc, ◌+◌, ◌%◌, ◌^◌, Bool, true, false, not, ◌&&◌, List, [], ◌∷◌, ◌++◌, Option, none,
  some, map, if◌then◌else◌, length,
}
use cmw.Prelude.Assoc.{Text, text_beq, text_eq, lookup, insert, erase}

abbrev pub Vertice : Type 0
Vertice = Text

-- `IsDummy`
abbrev pub is_dummy : Vertice → Bool
is_dummy [] = true
is_dummy (x ∷ xs) = false

pub record Edge : Type 0 where
  pub src : Vertice
  pub dst : Vertice
  pub value : Text

unfoldable pub is_valid : Edge → Bool
is_valid e =
    if is_dummy e.value then false else if is_dummy e.src && is_dummy e.dst then false else true

-- The key of an edge into `dst` with a value: `value_ + "_" + dst_.GetKey()`.
unfoldable pub key : Text → Vertice → Text
key value dst = value ++ b'_' ∷ dst

abbrev pub get_key : Edge → Text
get_key e = key e.value e.dst

abbrev pub VerticeSet : Type 0
VerticeSet = List (Text × Vertice)

abbrev pub AdjacencyList : Type 0
AdjacencyList = List (Text × VerticeSet)

pub record RelatedVertices : Type 0 where
  pub src : VerticeSet
  pub dst : VerticeSet

abbrev pub EdgeInfo : Type 0
EdgeInfo = List (Text × RelatedVertices)

pub record Graph : Type 0 where
  pub edges : EdgeInfo
  pub list : AdjacencyList

abbrev pub empty : Graph
empty = record { edges = []; list = [] }

abbrev pub is_some : {A : Type 0} → Option A → Bool
is_some none = false
is_some (some a) = true

-- What `m[k]` reads: the value, or a new one.
abbrev pub or_new : {A : Type 0} → A → Option A → A
or_new new none = new
or_new new (some a) = a

abbrev pub has : {A : Type 0} → Text → List (Text × A) → Bool
has k m = is_some (lookup k m)

abbrev pub set_of : AdjacencyList → Text → VerticeSet
set_of l u = or_new [] (lookup u l)

abbrev pub no_vertices : RelatedVertices
no_vertices = record { src = []; dst = [] }

abbrev pub related : EdgeInfo → Text → RelatedVertices
related m c = or_new no_vertices (lookup c m)

-- `list_[u]`, for its effect: a missing set is added.
unfoldable pub touch : Text → AdjacencyList → AdjacencyList
touch u l = if has u l then l else insert u [] l

unfoldable pub insert_complete_edge : Edge → AdjacencyList → AdjacencyList
unfolding touch
insert_complete_edge e l =
    let l' = touch e.dst (touch e.src l) in
    insert e.src (insert (get_key e) e.dst (set_of l' e.src)) l'

unfoldable pub delete_complete_edge : Edge → AdjacencyList → AdjacencyList
unfolding touch
delete_complete_edge e l =
    let l' = touch e.src l in insert e.src (erase (get_key e) (set_of l' e.src)) l'

-- `for(auto& item : set)`, with the edge made from `item.second`
unfoldable pub for_items :
    (Edge → AdjacencyList → AdjacencyList)
    → (Vertice → Edge)
    → VerticeSet
    → AdjacencyList
    → AdjacencyList
for_items f edge [] l = l
for_items f edge ((k, v) ∷ s) l = for_items f edge s (f (edge v) l)

unfoldable pub insert_incoming_edge : Edge → Graph → Graph
unfolding insert_complete_edge for_items
insert_incoming_edge e g =
    let r = related g.edges e.value in
    if has e.dst r.dst then g else record {
      edges = insert e.value (record r { dst = insert e.dst e.dst r.dst }) g.edges;
      list = for_items insert_complete_edge (λ s. record e { src = s }) r.src g.list;
    }

unfoldable pub insert_outgoing_edge : Edge → Graph → Graph
unfolding insert_complete_edge for_items
insert_outgoing_edge e g =
    let r = related g.edges e.value in
    if has e.src r.src then g else record {
      edges = insert e.value (record r { src = insert e.src e.src r.src }) g.edges;
      list = for_items insert_complete_edge (λ d. record e { dst = d }) r.dst g.list;
    }

unfoldable pub delete_outgoing_edge : Edge → Graph → Graph
unfolding delete_complete_edge for_items
delete_outgoing_edge e g =
    let r = related g.edges e.value in
    if not (has e.src r.src) then g else record {
      edges = insert e.value (record r { src = erase e.src r.src }) g.edges;
      list = for_items delete_complete_edge (λ d. record e { dst = d }) r.dst g.list;
    }

unfoldable pub delete_incoming_edge : Edge → Graph → Graph
unfolding delete_complete_edge for_items
delete_incoming_edge e g =
    let r = related g.edges e.value in
    if not (has e.dst r.dst) then g else record {
      edges = insert e.value (record r { dst = erase e.dst r.dst }) g.edges;
      list = for_items delete_complete_edge (λ s. record e { src = s }) r.src g.list;
    }

-- The vertices of the edge are put in, or taken out, one after the other.
abbrev pub with_src : (Edge → Graph → Graph) → Edge → Graph → Graph
with_src f e g = if not (is_dummy e.src) then f e g else g

abbrev pub with_dst : (Edge → Graph → Graph) → Edge → Graph → Graph
with_dst f e g = if not (is_dummy e.dst) then f e g else g

-- `Insert`
unfoldable pub insert_edge : Edge → Graph → Graph
unfolding is_valid insert_incoming_edge insert_outgoing_edge
insert_edge e g =
    let known : Graph =
      (if has e.value g.edges
        then g
        else record g { edges = insert e.value no_vertices g.edges }) in
    if not (is_valid e)
    then g
    else with_dst insert_incoming_edge e (with_src insert_outgoing_edge e known)

-- `Delete`
unfoldable pub delete_edge : Edge → Graph → Graph
unfolding is_valid delete_incoming_edge delete_outgoing_edge
delete_edge e g =
    if not (is_valid e)
    then g
    else if not (has e.value g.edges)
    then g
    else with_dst delete_incoming_edge e (with_src delete_outgoing_edge e g)

-- The number of edges
unfoldable pub num_edges : AdjacencyList → ℕ
num_edges [] = 0
num_edges ((u, s) ∷ l) = length s + num_edges l

-- `GetNumOfEdge`, which adds up in a `uint32_t`
unfoldable pub get_num_of_edge : Graph → ℕ
unfolding num_edges
get_num_of_edge g = num_edges g.list % 2 ^ 32

-- The vertices after `u`, in the order of its set
abbrev pub successors : AdjacencyList → Text → List Vertice
successors l u = map (λ e. e.1) (set_of l u)

unfoldable pub contains : Text → List Text → Bool
contains a [] = false
contains a (x ∷ xs) = if text_beq x a then true else contains a xs

-- The loop of `LevelTraverse`, on fuel: `visited` has the vertices whose entry is true. `list_[curr]`
-- adds a missing set. `none` is the end of the fuel.
pub level_loop :
    ℕ → Vertice → List Text → List Vertice → AdjacencyList → Option (List Text × AdjacencyList)
level_loop zero end visited queue l = none
level_loop (suc f) end visited [] l = some (visited, l)
level_loop (suc f) end visited (curr ∷ queue) l =
    let skip = level_loop f end visited queue l in
    let grown = touch curr l in
    let expand = level_loop f end (curr ∷ visited) (queue ++ successors grown curr) grown in
    if contains curr visited
    then skip
    else if text_beq curr end
    then some (curr ∷ visited, l)
    else expand

-- `LevelTraverse`, with fuel for every edge and vertex of the queue
pub level_traverse : Vertice → Vertice → AdjacencyList → Option (Bool × AdjacencyList)
unfolding level_loop touch contains
level_traverse start end l = elim (level_loop (num_edges l + 2) end [] (start ∷ []) l) [
  | none ↦ none
  | some (visited, l') ↦ some (contains end visited, l')
]

pub data FlowDirection : Type 0 where
  unreachable upstream downstream : FlowDirection

-- The search behind the tests of `GetDirectionOf`
pub searched : Vertice → Vertice → AdjacencyList → Option (FlowDirection × AdjacencyList)
unfolding level_traverse
searched lhs rhs l = elim (level_traverse lhs rhs l) [
  | none ↦ none
  | some (true, l') ↦ some (upstream, l')
  | some (false, l') ↦ elim (level_traverse rhs lhs l') [
    | none ↦ none
    | some (found, l'') ↦ some ((if found then downstream else unreachable), l'')
  ]
]

pub get_direction_of : Vertice → Vertice → AdjacencyList → Option (FlowDirection × AdjacencyList)
unfolding searched
get_direction_of lhs rhs l =
    let found = searched lhs rhs l in
    if is_dummy lhs
    then some (unreachable, l)
    else if is_dummy rhs
    then some (unreachable, l)
    else if not (has lhs l)
    then some (unreachable, l)
    else if not (has rhs l)
    then some (unreachable, l)
    else found
