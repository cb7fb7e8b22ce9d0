-- ===== src/Dataset/Ground/RoundTrip.antt =====
-- The way of a dataset to its ground form and back, in src/dataset.rs.
use quadpod.Prelude.{
  ℕ, ◌≡◌, refl, ap, Bool, true, not, ◌&&◌, none, some, [], ◌∷◌, map, all, is_some, nat_eq, list_eq,
  Text, get, strip_prefix, arith,
}
use quadpod.Terms.{Term, NamedOrBlankNode, GraphName}
use quadpod.Dataset.Versions.{Quad, Dataset}
use quadpod.Dataset.Ground.{
  Minted, nothing_minted, skolem_prefix, minted_iri, blank_for, iri_for, ground_node, ground_term,
  ground_graph, ground_quad, ground_quads, skolemize, node_for, term_for, graph_for, quad_for,
  deskolemize,
}
use quadpod.Dataset.Ground.Minting.{
  FreshNames, IsMinted, start, Extends, Extends-refl, Extends-trans, iri_for-Asked,
  ground_node-Step, ground_term-Step, ground_graph-Step, ground_quad-Step, ground_quads-Step,
  find_label, find_label-get, get-minted, blank_for-minted,
}

-- An IRI that is no skolem IRI, and the terms, at every depth, of such IRIs.
unfoldable pub is_plain : Text → Bool
is_plain n = not (is_some (strip_prefix skolem_prefix n))

unfoldable pub plain_node : NamedOrBlankNode → Bool
plain_node (NamedOrBlankNode.named_node n) = is_plain n
plain_node (NamedOrBlankNode.blank_node b) = true

unfoldable pub plain_term : Term → Bool
plain_term (Term.named_node n) = is_plain n
plain_term (Term.triple s p o) = plain_node s && plain_term o
plain_term _ = true

unfoldable pub plain_graph : GraphName → Bool
plain_graph (GraphName.named_node n) = is_plain n
plain_graph _ = true

unfoldable pub plain_quad : Quad → Bool
plain_quad q = plain_node q.subject && (plain_term q.object && plain_graph q.graph_name)

-- Blank nodes renamed.
module _ (f : Text → Text) where
  unfoldable pub rename_node : NamedOrBlankNode → NamedOrBlankNode
  rename_node (NamedOrBlankNode.named_node n) = NamedOrBlankNode.named_node n
  rename_node (NamedOrBlankNode.blank_node b) = NamedOrBlankNode.blank_node (f b)

  unfoldable pub rename_term : Term → Term
  rename_term (Term.blank_node b) = Term.blank_node (f b)
  rename_term (Term.triple s p o) = Term.triple (rename_node s) p (rename_term o)
  rename_term (Term.named_node n) = Term.named_node n
  rename_term (Term.literal l) = Term.literal l

  unfoldable pub rename_graph : GraphName → GraphName
  rename_graph (GraphName.blank_node b) = GraphName.blank_node (f b)
  rename_graph (GraphName.named_node n) = GraphName.named_node n
  rename_graph GraphName.default_graph = GraphName.default_graph

  unfoldable pub rename_quad : Quad → Quad
  rename_quad q = record {
    subject = rename_node q.subject;
    predicate = q.predicate;
    object = rename_term q.object;
    graph_name = rename_graph q.graph_name;
  }

module _ (fresh : ℕ → Text) (valid_label : Text → Bool) (names : FreshNames fresh valid_label)
    (last : Minted) (last_minted : IsMinted fresh valid_label names last) where
  -- The label that a blank node comes back with, and the blank node that a label stands for.
  forth : Text → Text
  forth b = elim (get b last.table) [
    | none ↦ b
    | some iri ↦ elim (blank_for valid_label iri) [ none ↦ b | some l ↦ l ]
  ]

  back : Text → Text
  back l = elim (find_label fresh valid_label names last.table l) [ none ↦ l | some b ↦ b ]

  record Returns (b iri : Text) : Type 0 where
    blank : blank_for valid_label iri ≡ some (forth b)
    again : back (forth b) ≡ b

  blank_Returns : (b : Text) {iri : Text} → get b last.table ≡ some iri → Returns b iri
  unfolding forth back
  blank_Returns b {iri} h =
      let (k, _, e) = get-minted fresh valid_label names b last_minted h in
      let label = blank_for-minted fresh valid_label names k in
      let at : get b last.table ≡ some (minted_iri fresh k) = rw e at h in
      let found = find_label-get fresh valid_label names b k last_minted at in
      record { blank = ground (arith, e, label); again = ground (arith, e, label, found) }

  plain_back : (n : Text) → is_plain n ≡ true → blank_for valid_label n ≡ none
  unfolding is_plain blank_for
  plain_back n h = ground arith

  blank_trip :
      (b : Text) (m : Minted)
      → IsMinted fresh valid_label names m
      → Extends fresh valid_label names (iri_for fresh b m).1 last
      → Returns b (iri_for fresh b m).0
  blank_trip b m h e =
      blank_Returns b (e.keeps b (iri_for-Asked fresh valid_label names b m h).held)

  node_trip :
      (n : NamedOrBlankNode) (m : Minted)
      → IsMinted fresh valid_label names m
      → Extends fresh valid_label names (ground_node fresh n m).1 last
      → plain_node n ≡ true
      → (node_for valid_label (ground_node fresh n m).0 ≡ rename_node forth n)
        × (rename_node back (rename_node forth n) ≡ n)
  unfolding node_for ground_node rename_node plain_node
  node_trip (NamedOrBlankNode.named_node n) m h e plain = (ground (arith, plain_back n plain), refl)
  node_trip (NamedOrBlankNode.blank_node b) m h e plain =
      let trip = blank_trip b m h e in
      (ground (arith, trip.blank), ap NamedOrBlankNode.blank_node trip.again)

  graph_trip :
      (g : GraphName) (m : Minted)
      → IsMinted fresh valid_label names m
      → Extends fresh valid_label names (ground_graph fresh g m).1 last
      → plain_graph g ≡ true
      → (graph_for valid_label (ground_graph fresh g m).0 ≡ rename_graph forth g)
        × (rename_graph back (rename_graph forth g) ≡ g)
  unfolding graph_for ground_graph rename_graph plain_graph
  graph_trip GraphName.default_graph m h e plain = (refl, refl)
  graph_trip (GraphName.named_node n) m h e plain = (ground (arith, plain_back n plain), refl)
  graph_trip (GraphName.blank_node b) m h e plain =
      let trip = blank_trip b m h e in
      (ground (arith, trip.blank), ap GraphName.blank_node trip.again)

  term_trip :
      (t : Term) (m : Minted)
      → IsMinted fresh valid_label names m
      → Extends fresh valid_label names (ground_term fresh t m).1 last
      → plain_term t ≡ true
      → (term_for valid_label (ground_term fresh t m).0 ≡ rename_term forth t)
        × (rename_term back (rename_term forth t) ≡ t)
  unfolding term_for ground_term rename_term plain_term
  term_trip (Term.literal l) m h e plain = (refl, refl)
  term_trip (Term.named_node n) m h e plain = (ground (arith, plain_back n plain), refl)
  term_trip (Term.blank_node b) m h e plain =
      let trip = blank_trip b m h e in (ground (arith, trip.blank), ap Term.blank_node trip.again)
  term_trip (Term.triple s p o) m h e plain =
      let s1 = ground_node-Step fresh valid_label names s h in
      let s2 = ground_term-Step fresh valid_label names o s1.minted in
      let node =
        node_trip s m h (Extends-trans fresh valid_label names s2.extends e) (ground arith) in
      let object = term_trip o (ground_node fresh s m).1 s1.minted e (ground arith) in
      (rw (node.0, object.0) refl, rw (node.1, object.1) refl)

  quad_trip :
      (q : Quad) (m : Minted)
      → IsMinted fresh valid_label names m
      → Extends fresh valid_label names (ground_quad fresh q m).1 last
      → plain_quad q ≡ true
      → (quad_for valid_label (ground_quad fresh q m).0 ≡ rename_quad forth q)
        × (rename_quad back (rename_quad forth q) ≡ q)
  unfolding quad_for ground_quad rename_quad plain_quad
  quad_trip q m h e plain =
      let s1 = ground_node-Step fresh valid_label names q.subject h in
      let s2 = ground_term-Step fresh valid_label names q.object s1.minted in
      let s3 = ground_graph-Step fresh valid_label names q.graph_name s2.minted in
      let late = Extends-trans fresh valid_label names s3.extends e in
      let node =
        node_trip q.subject m h (Extends-trans fresh valid_label names s2.extends late)
          (ground arith) in
      let object = term_trip q.object _ s1.minted late (ground arith) in
      let graph = graph_trip q.graph_name _ s2.minted e (ground arith) in
      (rw (node.0, object.0, graph.0) refl, rw (node.1, object.1, graph.1) refl)

  quads_trip :
      (d : Dataset) (m : Minted)
      → IsMinted fresh valid_label names m
      → Extends fresh valid_label names (ground_quads fresh d m).1 last
      → all plain_quad d ≡ true
      → (deskolemize valid_label (ground_quads fresh d m).0 ≡ map (rename_quad forth) d)
        × (map (rename_quad back) (map (rename_quad forth) d) ≡ d)
  unfolding deskolemize ground_quads
  quads_trip [] m h e plain = (refl, refl)
  quads_trip (q ∷ d) m h e plain =
      let s1 = ground_quad-Step fresh valid_label names q h in
      let s2 = ground_quads-Step fresh valid_label names d s1.minted in
      let first =
        quad_trip q m h (Extends-trans fresh valid_label names s2.extends e) (ground arith) in
      let rest = quads_trip d (ground_quad fresh q m).1 s1.minted e (ground arith) in
      (rw (first.0, rest.0) refl, rw (first.1, rest.1) refl)

module _ (fresh : ℕ → Text) (valid_label : Text → Bool) where
  -- A dataset without skolem IRIs of its own, at any depth, comes back from its ground form as the
  -- same dataset with its blank nodes renamed, and the renaming can be undone: blank nodes that
  -- were one stay one and others stay apart, in terms, in triple terms and as graph names.
  pub deskolemize-skolemize :
      FreshNames fresh valid_label
      → (d : Dataset) → all plain_quad d ≡ true
      → (f : Text → Text) × (g : Text → Text) × (deskolemize valid_label (skolemize fresh d)
          ≡ map (rename_quad f) d)
        × (map (rename_quad g) (deskolemize valid_label (skolemize fresh d)) ≡ d)
  unfolding skolemize
  deskolemize-skolemize names d plain =
      let last = (ground_quads fresh d nothing_minted).1 in
      let step = ground_quads-Step fresh valid_label names d start in
      let trip =
        quads_trip fresh valid_label names last step.minted d nothing_minted start
          (Extends-refl fresh valid_label names last) plain in
      (
        forth fresh valid_label names last step.minted,
        back fresh valid_label names last step.minted,
        trip.0,
        rw (trip.0) (trip.1),
      )
