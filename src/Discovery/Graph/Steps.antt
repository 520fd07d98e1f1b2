-- ===== src/Discovery/Graph/Steps.antt =====
-- Each operation on the graph keeps the invariant, for the sources and targets that it makes.
use cmw.Prelude.{
  ◌≡◌, refl, sym, ◌∙◌, Bool, true, false, ◌&&◌, none, some, arith, Bool-cases, inl, inr,
  if◌then◌else◌,
}
use cmw.Prelude.Assoc.{Text, text_beq, text_beq_iff, text_eq, insert, erase}
use cmw.Discovery.Graph.{
  Vertice, Edge, EdgeInfo, RelatedVertices, Graph, has, related, insert_complete_edge,
  delete_complete_edge, insert_incoming_edge, insert_outgoing_edge, delete_incoming_edge,
  delete_outgoing_edge,
}
use cmw.Discovery.Graph.Keys.{Plain}
use cmw.Discovery.Graph.Adjacency.{
  IsNamed, insert-Writes, delete-Writes, for_items-dst, for_items-src,
}
use cmw.Discovery.Graph.Shows.{
  Peers, Shows, IsKeyed, has-insert, has-erase, IsNamed-insert, IsNamed-erase, related-insert,
  insert-IsKeyed, delete-IsKeyed, for_items_keep,
}

-- The vertex `u` becomes, or is no longer, a peer of channel `c`.
abbrev pub marked : Bool → Text → Vertice → Peers → Peers
marked b c u p d w = if text_beq c d && text_beq u w then b else p d w

pub marked_same :
    (b : Bool) (c : Text) (u : Vertice) (p : Peers)
    → p c u ≡ b
    → (d : Text) (w : Vertice) → p d w ≡ marked b c u p d w
marked_same b c u p at d w = elim (Bool-cases (text_beq c d && text_beq u w)) [
  | inl here ↦
      let same_c : c ≡ d = ground (arith, text_beq_iff c d) in
      let same_u : u ≡ w = ground (arith, text_beq_iff u w) in rw (here, ← same_c, ← same_u) at
  | inr away ↦ rw away
]

-- What holds of the new sets of a channel and of all the old ones holds of all.
all_related :
    (P : RelatedVertices → Type 0) (c d : Text) (new : RelatedVertices) (m : EdgeInfo)
    → P new
    → P (related m d)
    → P (related (insert c new m) d)
all_related P c d new m here there =
    rw (related-insert c d new m)
      (elim (Bool-cases (text_beq c d)) [ inl same ↦ rw same here | inr other ↦ rw other there ])

module _ {p q : Peers} {g : Graph} where
  -- A graph shows what equals what it shows.
  pub Shows-eq :
      (p' q' : Peers)
      → Shows p q g
      → ((c : Text) (u : Vertice) → p c u ≡ p' c u)
      → ((c : Text) (u : Vertice) → q c u ≡ q' c u)
      → Shows p' q' g
  Shows-eq p' q' s ep eq = record {
    sources = λ c u. s.sources c u ∙ ep c u;
    targets = λ c u. s.targets c u ∙ eq c u;
    named_src = s.named_src;
    named_dst = s.named_dst;
    entries = λ u c v plain. ground (arith, s.entries u c v plain, ep c u, eq c v);
    keys = s.keys;
  }

  module _ (e : Edge) (s : Shows p q g) (plain_src : Plain e.src) (plain_dst : Plain e.dst) where
    abbrev r : RelatedVertices
    r = related g.edges e.value

    pub insert_outgoing-Shows : Shows (marked true e.value e.src p) q (insert_outgoing_edge e g)
    unfolding insert_outgoing_edge
    insert_outgoing-Shows = elim (Bool-cases (has e.src r.src)) [
      | inl unchanged ↦ rw unchanged (
          Shows-eq _ _ s
            (marked_same true e.value e.src p (sym (s.sources e.value e.src) ∙ unchanged))
            (λ _ _. refl))
      | inr changed ↦ rw changed (record {
        sources = λ c x. ground (
          arith,
          related-insert e.value c (record r { src = insert e.src e.src r.src }) g.edges,
          has-insert e.src x e.src r.src,
          s.sources c x,
          text_beq_iff e.value c,
        );
        targets = λ c x. ground (
          arith,
          related-insert e.value c (record r { src = insert e.src e.src r.src }) g.edges,
          s.targets c x,
          text_beq_iff e.value c,
        );
        named_src = λ c.
            all_related (λ t. IsNamed t.src) e.value c (record r { src = insert e.src e.src r.src })
              g.edges (IsNamed-insert e.src r.src plain_src (s.named_src e.value)) (s.named_src c);
        named_dst = λ c.
            all_related (λ t. IsNamed t.dst) e.value c (record r { src = insert e.src e.src r.src })
              g.edges (s.named_dst e.value) (s.named_dst c);
        entries = λ u c v plain. ground (
          arith,
          for_items-dst insert_complete_edge some insert-Writes e u c v r.dst g.list
              (s.named_dst e.value) plain,
          s.entries u c v plain,
          s.targets e.value v,
          text_beq_iff e.value c,
        );
        keys =
            for_items_keep IsKeyed insert_complete_edge (λ x. record e { dst = x })
              (λ w l pl. insert-IsKeyed (record e { dst = w }) l pl) r.dst g.list
              (s.named_dst e.value) s.keys;
      })
    ]

    pub insert_incoming-Shows : Shows p (marked true e.value e.dst q) (insert_incoming_edge e g)
    unfolding insert_incoming_edge
    insert_incoming-Shows = elim (Bool-cases (has e.dst r.dst)) [
      | inl unchanged ↦ rw unchanged (
          Shows-eq _ _ s (λ _ _. refl)
            (marked_same true e.value e.dst q (sym (s.targets e.value e.dst) ∙ unchanged)))
      | inr changed ↦ rw changed (record {
        targets = λ c x. ground (
          arith,
          related-insert e.value c (record r { dst = insert e.dst e.dst r.dst }) g.edges,
          has-insert e.dst x e.dst r.dst,
          s.targets c x,
          text_beq_iff e.value c,
        );
        sources = λ c x. ground (
          arith,
          related-insert e.value c (record r { dst = insert e.dst e.dst r.dst }) g.edges,
          s.sources c x,
          text_beq_iff e.value c,
        );
        named_dst = λ c.
            all_related (λ t. IsNamed t.dst) e.value c (record r { dst = insert e.dst e.dst r.dst })
              g.edges (IsNamed-insert e.dst r.dst plain_dst (s.named_dst e.value)) (s.named_dst c);
        named_src = λ c.
            all_related (λ t. IsNamed t.src) e.value c (record r { dst = insert e.dst e.dst r.dst })
              g.edges (s.named_src e.value) (s.named_src c);
        entries = λ u c v plain. ground (
          arith,
          for_items-src insert_complete_edge some insert-Writes e u c v r.src g.list
              (s.named_src e.value) plain_dst plain,
          s.entries u c v plain,
          s.sources e.value u,
          text_beq_iff e.value c,
        );
        keys =
            for_items_keep IsKeyed insert_complete_edge (λ x. record e { src = x })
              (λ w l pl. insert-IsKeyed (record e { src = w }) l plain_dst) r.src g.list
              (s.named_src e.value) s.keys;
      })
    ]

    pub delete_outgoing-Shows : Shows (marked false e.value e.src p) q (delete_outgoing_edge e g)
    unfolding delete_outgoing_edge
    delete_outgoing-Shows = elim (Bool-cases (has e.src r.src)) [
      | inl changed ↦ rw changed (record {
        sources = λ c x. ground (
          arith,
          related-insert e.value c (record r { src = erase e.src r.src }) g.edges,
          has-erase e.src x r.src,
          s.sources c x,
          text_beq_iff e.value c,
        );
        targets = λ c x. ground (
          arith,
          related-insert e.value c (record r { src = erase e.src r.src }) g.edges,
          s.targets c x,
          text_beq_iff e.value c,
        );
        named_src = λ c.
            all_related (λ t. IsNamed t.src) e.value c (record r { src = erase e.src r.src })
              g.edges (IsNamed-erase e.src r.src (s.named_src e.value)) (s.named_src c);
        named_dst = λ c.
            all_related (λ t. IsNamed t.dst) e.value c (record r { src = erase e.src r.src })
              g.edges (s.named_dst e.value) (s.named_dst c);
        entries = λ u c v plain. ground (
          arith,
          for_items-dst delete_complete_edge (λ _. none) delete-Writes e u c v r.dst g.list
              (s.named_dst e.value) plain,
          s.entries u c v plain,
          s.targets e.value v,
          text_beq_iff e.value c,
        );
        keys =
            for_items_keep IsKeyed delete_complete_edge (λ x. record e { dst = x })
              (λ w l pl. delete-IsKeyed (record e { dst = w }) l) r.dst g.list (s.named_dst e.value)
              s.keys;
      })
      | inr unchanged ↦ rw unchanged (
          Shows-eq _ _ s
            (marked_same false e.value e.src p (sym (s.sources e.value e.src) ∙ unchanged))
            (λ _ _. refl))
    ]

    pub delete_incoming-Shows : Shows p (marked false e.value e.dst q) (delete_incoming_edge e g)
    unfolding delete_incoming_edge
    delete_incoming-Shows = elim (Bool-cases (has e.dst r.dst)) [
      | inl changed ↦ rw changed (record {
        targets = λ c x. ground (
          arith,
          related-insert e.value c (record r { dst = erase e.dst r.dst }) g.edges,
          has-erase e.dst x r.dst,
          s.targets c x,
          text_beq_iff e.value c,
        );
        sources = λ c x. ground (
          arith,
          related-insert e.value c (record r { dst = erase e.dst r.dst }) g.edges,
          s.sources c x,
          text_beq_iff e.value c,
        );
        named_dst = λ c.
            all_related (λ t. IsNamed t.dst) e.value c (record r { dst = erase e.dst r.dst })
              g.edges (IsNamed-erase e.dst r.dst (s.named_dst e.value)) (s.named_dst c);
        named_src = λ c.
            all_related (λ t. IsNamed t.src) e.value c (record r { dst = erase e.dst r.dst })
              g.edges (s.named_src e.value) (s.named_src c);
        entries = λ u c v plain. ground (
          arith,
          for_items-src delete_complete_edge (λ _. none) delete-Writes e u c v r.src g.list
              (s.named_src e.value) plain_dst plain,
          s.entries u c v plain,
          s.sources e.value u,
          text_beq_iff e.value c,
        );
        keys =
            for_items_keep IsKeyed delete_complete_edge (λ x. record e { src = x })
              (λ w l pl. delete-IsKeyed (record e { src = w }) l) r.src g.list (s.named_src e.value)
              s.keys;
      })
      | inr unchanged ↦ rw unchanged (
          Shows-eq _ _ s (λ _ _. refl)
            (marked_same false e.value e.dst q (sym (s.targets e.value e.dst) ∙ unchanged)))
    ]
