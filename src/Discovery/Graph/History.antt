-- ===== src/Discovery/Graph/History.antt =====
-- The graph after any history of insertions and deletions.
use cmw.Prelude.{
  ◌≡◌, refl, ◌∙◌, ◌↔◌, Bool, true, false, not, ◌&&◌, List, [], ◌∷◌, some, arith, All, In,
  Bool-cases, inl, inr, if◌then◌else◌,
}
use cmw.Prelude.Assoc.{
  Text, text_beq_iff, text_eq, lookup, insert, lookup-insert, value_found, found_value,
}
use cmw.Discovery.Graph.{
  Vertice, Edge, Graph, key, has, is_dummy, is_valid, related, no_vertices, empty, set_of,
  successors, insert_edge, delete_edge, with_src, with_dst, insert_incoming_edge,
  insert_outgoing_edge, delete_incoming_edge, delete_outgoing_edge,
}
use cmw.Discovery.Graph.Keys.{Plain}
use cmw.Discovery.Graph.Adjacency.{entry}
use cmw.Discovery.Graph.Shows.{Peers, Shows, has-Plain}
use cmw.Discovery.Graph.Steps.{
  marked, marked_same, Shows-eq, insert_outgoing-Shows, insert_incoming-Shows,
  delete_outgoing-Shows, delete_incoming-Shows,
}

pub data Change : Type 0 where
  put drop : Edge → Change

unfoldable pub apply : Change → Graph → Graph
unfolding insert_edge delete_edge
apply (put e) g = insert_edge e g
apply (drop e) g = delete_edge e g

unfoldable pub run : List Change → Graph → Graph
unfolding apply
run [] g = g
run (c ∷ cs) g = run cs (apply c g)

-- What a change makes of the peers on one side: a valid edge's vertex there, if it is named, is one
-- afterwards, or is none.
abbrev pub made : Bool → Bool → Text → Vertice → Peers → Peers
made valid b c u p = if valid && not (is_dummy u) then marked b c u p else p

unfoldable pub sources : List Change → Peers → Peers
sources [] p = p
sources (put e ∷ cs) p = sources cs (made (is_valid e) true e.value e.src p)
sources (drop e ∷ cs) p = sources cs (made (is_valid e) false e.value e.src p)

unfoldable pub targets : List Change → Peers → Peers
targets [] p = p
targets (put e ∷ cs) p = targets cs (made (is_valid e) true e.value e.dst p)
targets (drop e ∷ cs) p = targets cs (made (is_valid e) false e.value e.dst p)

abbrev pub edge_of : Change → Edge
edge_of (put e) = e
edge_of (drop e) = e

-- No name of a node has an underscore.
abbrev pub PlainNames : List Change → Type 0
PlainNames cs = All (λ c. Plain (edge_of c).src × Plain (edge_of c).dst) cs

abbrev pub nobody : Peers
nobody _ _ = false

pub empty-Shows : Shows nobody nobody empty
unfolding lookup
empty-Shows = record {
  sources = λ c u. refl;
  targets = λ c v. refl;
  named_src = λ c. tt;
  named_dst = λ c. tt;
  entries = λ u c v plain. refl;
  keys = record { keyed = λ u k w e. cc; unique = λ u. tt };
}

module _ {p q : Peers} {g : Graph} (e : Edge) (plain : Plain e.src × Plain e.dst) where
  put_src :
      Shows p q g → Shows (made true true e.value e.src p) q (with_src insert_outgoing_edge e g)
  put_src s = elim (Bool-cases (is_dummy e.src)) [
    | inl dummy ↦ rw dummy s
    | inr named ↦ rw named (insert_outgoing-Shows e s plain.0 plain.1)
  ]

  put_dst :
      Shows p q g → Shows p (made true true e.value e.dst q) (with_dst insert_incoming_edge e g)
  put_dst s = elim (Bool-cases (is_dummy e.dst)) [
    | inl dummy ↦ rw dummy s
    | inr named ↦ rw named (insert_incoming-Shows e s plain.0 plain.1)
  ]

  drop_src :
      Shows p q g → Shows (made true false e.value e.src p) q (with_src delete_outgoing_edge e g)
  drop_src s = elim (Bool-cases (is_dummy e.src)) [
    | inl dummy ↦ rw dummy s
    | inr named ↦ rw named (delete_outgoing-Shows e s plain.0 plain.1)
  ]

  drop_dst :
      Shows p q g → Shows p (made true false e.value e.dst q) (with_dst delete_incoming_edge e g)
  drop_dst s = elim (Bool-cases (is_dummy e.dst)) [
    | inl dummy ↦ rw dummy s
    | inr named ↦ rw named (delete_incoming-Shows e s plain.0 plain.1)
  ]

-- Nobody is dropped who was no peer.
drop_same :
    (c : Text) (u : Vertice) (p : Peers)
    → p c u ≡ false
    → (d : Text) (w : Vertice) → p d w ≡ (if not (is_dummy u) then marked false c u p else p) d w
drop_same c u p at d w = elim (Bool-cases (is_dummy u)) [
  | inl dummy ↦ rw dummy
  | inr named ↦ rw named (marked_same false c u p at d w)
]

-- An entry without vertices shows nothing.
known-Shows :
    {p q : Peers} {g : Graph} (c : Text)
    → Shows p q g
    → Shows p q (if has c g.edges then g else record g { edges = insert c no_vertices g.edges })
known-Shows {g = g} c s = elim (Bool-cases (has c g.edges)) [
  | inl old ↦ rw old s
  | inr new ↦
      let same : (d : Text) → related (insert c no_vertices g.edges) d ≡ related g.edges d =
        λ d. ground (arith, lookup-insert c d no_vertices g.edges, text_beq_iff c d, new) in
      rw new (record {
        sources = λ d u. rw (same d) (s.sources d u);
        targets = λ d v. rw (same d) (s.targets d v);
        named_src = λ d. rw (same d) (s.named_src d);
        named_dst = λ d. rw (same d) (s.named_dst d);
        entries = s.entries;
        keys = s.keys;
      })
]

module _ {p q : Peers} {g : Graph} (e : Edge) (plain : Plain e.src × Plain e.dst)
    (s : Shows p q g) where
  insert-Shows :
      Shows
        (made (is_valid e) true e.value e.src p)
        (made (is_valid e) true e.value e.dst q)
        (insert_edge e g)
  insert-Shows = elim (Bool-cases (is_valid e)) [
    | inl valid ↦
        unfold insert_edge in rw valid (put_dst e plain (put_src e plain (known-Shows e.value s)))
    | inr bad ↦ unfold insert_edge in rw bad s
  ]

  missing : has e.value g.edges ≡ false → (p e.value e.src ≡ false) × (q e.value e.dst ≡ false)
  unfolding lookup
  missing none_yet =
      (ground (arith, s.sources e.value e.src), ground (arith, s.targets e.value e.dst))

  delete-Shows :
      Shows
        (made (is_valid e) false e.value e.src p)
        (made (is_valid e) false e.value e.dst q)
        (delete_edge e g)
  delete-Shows = elim (Bool-cases (is_valid e)) [
    | inl valid ↦
        unfold delete_edge in
        rw valid (elim (Bool-cases (has e.value g.edges)) [
          | inl old ↦ rw old (drop_dst e plain (drop_src e plain s))
          | inr new ↦ rw new (
              Shows-eq _ _ s (drop_same e.value e.src p (missing new).0)
                (drop_same e.value e.dst q (missing new).1))
        ])
    | inr bad ↦ unfold delete_edge in rw bad s
  ]

-- After any history in which no node's name has an underscore, the graph shows the peers that the
-- history makes.
pub run-Shows :
    (cs : List Change) {p q : Peers} {g : Graph}
    → PlainNames cs
    → Shows p q g
    → Shows (sources cs p) (targets cs q) (run cs g)
unfolding run sources targets
run-Shows [] plain s = s
run-Shows (put e ∷ cs) plain s = run-Shows cs plain.1 (unfold apply in insert-Shows e plain.0 s)
run-Shows (drop e ∷ cs) plain s = run-Shows cs plain.1 (unfold apply in delete-Shows e plain.0 s)

-- In a graph that shows some peers, the successors of a vertex are the targets of the channels of which
-- it is a source.
pub successors-Shows :
    {p q : Peers} {g : Graph} (u w : Vertice)
    → Shows p q g
    → In w (successors g.list u) ↔ ((c : Text) × (p c u ≡ true) × (q c w ≡ true))
successors-Shows {p} {q} {g} u w s = (there, back)
  where
    there : In w (successors g.list u) → (c : Text) × (p c u ≡ true) × (q c w ≡ true)
    there h =
        let (k, found) = value_found (set_of g.list u) w (s.keys.unique u) h in
        let (c, same, plain) = s.keys.keyed u k w found in
        let here : entry g.list u (key c w) ≡ some w = rw same at found in
        (c, ground (arith, s.entries u c w plain), ground (arith, s.entries u c w plain))

    back : ((c : Text) × (p c u ≡ true) × (q c w ≡ true)) → In w (successors g.list u)
    back (c, from, to) =
        let plain : Plain w =
          has-Plain w (related g.edges c).dst (s.named_dst c) (s.targets c w ∙ to) in
        found_value (set_of g.list u) (key c w) w (ground (arith, s.entries u c w plain))

-- After any history of insertions and deletions of edges, if no node's name has an underscore: a vertex
-- w is a successor of a vertex u exactly when the history leaves, for some channel, u as a source and w
-- as a target of it.
pub successors-run :
    (cs : List Change) (u w : Vertice)
    → PlainNames cs
    → In w (successors (run cs empty).list u)
      ↔ ((c : Text) × (sources cs nobody c u ≡ true) × (targets cs nobody c w ≡ true))
successors-run cs u w plain = successors-Shows u w (run-Shows cs plain empty-Shows)
