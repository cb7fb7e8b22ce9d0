-- ===== src/Dataset/Ground.antt =====
-- src/dataset.rs: ground datasets, as the store holds them, and the way there and back.
-- `new_v4` of the uuid crate is the parameter `fresh`: the texts that its calls answer, in their
-- order. `BlankNode::new` accepts the labels of `valid_label`.
pub mod Graphs
pub mod Stored
pub mod Minting
pub mod RoundTrip
mod Tests
use quadpod.Prelude.{
  ℕ, suc, Bool, true, false, not, ◌&&◌, ◌||◌, Option, none, some, List, [], ◌∷◌, ◌++◌, map, any,
  retain, strip_prefix, if◌then◌else◌, ◌==◌, nat_eq, list_eq, Text, codes, Map, get, insert, member,
}
use quadpod.Terms.{Literal, Term, NamedOrBlankNode, GraphName, graph_eq}
use quadpod.Rdf.{is_ascii_alphanumeric}
use quadpod.Dataset.{is_reserved_iri}
use quadpod.Dataset.Versions.{Quad, Dataset}

-- `GroundTerm`, with the three fields of `GroundTriple` in its last constructor.
pub data GroundTerm : Type 0 where
  named_node : Text → GroundTerm
  literal : Literal → GroundTerm
  triple : Text → Text → GroundTerm → GroundTerm

pub data GroundGraphName : Type 0 where
  default_graph : GroundGraphName
  named_node : Text → GroundGraphName

pub record GroundQuad : Type 0 where
  pub subject : Text
  pub predicate : Text
  pub object : GroundTerm
  pub graph_name : GroundGraphName

abbrev pub Skolemized : Type 0
Skolemized = List GroundQuad

-- The widenings `From<&GroundTerm>`, `From<GroundGraphName>` and `From<&GroundQuad>`.
unfoldable pub term_of : GroundTerm → Term
term_of (GroundTerm.named_node n) = Term.named_node n
term_of (GroundTerm.literal l) = Term.literal l
term_of (GroundTerm.triple s p o) = Term.triple (NamedOrBlankNode.named_node s) p (term_of o)

unfoldable pub graph_of : GroundGraphName → GraphName
graph_of GroundGraphName.default_graph = GraphName.default_graph
graph_of (GroundGraphName.named_node n) = GraphName.named_node n

unfoldable pub quad_of : GroundQuad → Quad
quad_of q = record {
  subject = NamedOrBlankNode.named_node q.subject;
  predicate = q.predicate;
  object = term_of q.object;
  graph_name = graph_of q.graph_name;
}

abbrev pub skolem_prefix : Text
skolem_prefix = codes "urn:quadpod:bnode:"

-- `minted`, and how many IRIs were minted.
pub record Minted : Type 0 where
  pub table : Map Text
  pub count : ℕ

abbrev pub nothing_minted : Minted
nothing_minted = record { table = []; count = 0 }

module _ (fresh : ℕ → Text) where
  abbrev pub minted_iri : ℕ → Text
  minted_iri n = skolem_prefix ++ fresh n

  unfoldable pub iri_for : Text → Minted → Text × Minted
  iri_for b m = elim (get b m.table) [
    | some iri ↦ (iri, m)
    | none ↦ (
      minted_iri m.count,
      record { table = insert b (minted_iri m.count) m.table; count = suc m.count },
    )
  ]

  unfoldable pub ground_node : NamedOrBlankNode → Minted → Text × Minted
  ground_node (NamedOrBlankNode.named_node n) m = (n, m)
  ground_node (NamedOrBlankNode.blank_node b) m = iri_for b m

  unfoldable pub ground_term : Term → Minted → GroundTerm × Minted
  ground_term (Term.named_node n) m = (GroundTerm.named_node n, m)
  ground_term (Term.blank_node b) m = let (iri, m1) = iri_for b m in (GroundTerm.named_node iri, m1)
  ground_term (Term.literal l) m = (GroundTerm.literal l, m)
  ground_term (Term.triple s p o) m =
      let (s', m1) = ground_node s m in
      let (o', m2) = ground_term o m1 in (GroundTerm.triple s' p o', m2)

  unfoldable pub ground_graph : GraphName → Minted → GroundGraphName × Minted
  ground_graph GraphName.default_graph m = (GroundGraphName.default_graph, m)
  ground_graph (GraphName.named_node n) m = (GroundGraphName.named_node n, m)
  ground_graph (GraphName.blank_node b) m =
      let (iri, m1) = iri_for b m in (GroundGraphName.named_node iri, m1)

  -- The fields are computed in the order in which the source writes them.
  unfoldable pub ground_quad : Quad → Minted → GroundQuad × Minted
  ground_quad q m =
      let (s, m1) = ground_node q.subject m in
      let (o, m2) = ground_term q.object m1 in
      let (g, m3) = ground_graph q.graph_name m2 in
      (record { subject = s; predicate = q.predicate; object = o; graph_name = g }, m3)

  unfoldable pub ground_quads : Dataset → Minted → Skolemized × Minted
  ground_quads [] m = ([], m)
  ground_quads (q ∷ qs) m =
      let (q', m1) = ground_quad q m in let (qs', m2) = ground_quads qs m1 in (q' ∷ qs', m2)

  unfoldable pub skolemize : Dataset → Skolemized
  skolemize d = (ground_quads d nothing_minted).0

-- `ground` of `from_store`
unfoldable pub read_node : NamedOrBlankNode → Option Text
read_node (NamedOrBlankNode.named_node n) = some n
read_node (NamedOrBlankNode.blank_node b) = none

unfoldable pub read_term : Term → Option GroundTerm
read_term (Term.named_node n) = some (GroundTerm.named_node n)
read_term (Term.literal l) = some (GroundTerm.literal l)
read_term (Term.blank_node b) = none
read_term (Term.triple s p o) = elim (read_node s) [
  | none ↦ none
  | some s' ↦ elim (read_term o) [ none ↦ none | some o' ↦ some (GroundTerm.triple s' p o') ]
]

unfoldable pub read_graph : GraphName → Option GroundGraphName
read_graph GraphName.default_graph = some GroundGraphName.default_graph
read_graph (GraphName.named_node n) = some (GroundGraphName.named_node n)
read_graph (GraphName.blank_node b) = none

unfoldable pub read_quad : Quad → Option GroundQuad
read_quad q = elim (read_node q.subject) [
  | none ↦ none
  | some s ↦ elim (read_term q.object) [
    | none ↦ none
    | some o ↦ elim (read_graph q.graph_name) [
      | none ↦ none
      | some g ↦ some (record { subject = s; predicate = q.predicate; object = o; graph_name = g })
    ]
  ]
]

unfoldable pub from_store : List Quad → Option Skolemized
from_store [] = some []
from_store (q ∷ qs) = elim (read_quad q) [
  | none ↦ none
  | some q' ↦ elim (from_store qs) [ none ↦ none | some qs' ↦ some (q' ∷ qs') ]
]

module _ (valid_label : Text → Bool) where
  abbrev pub label_of : Text → Text
  label_of suffix = b'b' ∷ retain is_ascii_alphanumeric suffix

  unfoldable pub blank_for : Text → Option Text
  blank_for n = elim (strip_prefix skolem_prefix n) [
    | none ↦ none
    | some suffix ↦ if valid_label (label_of suffix) then some (label_of suffix) else none
  ]

  unfoldable pub node_for : Text → NamedOrBlankNode
  node_for n = elim (blank_for n) [
    | some b ↦ NamedOrBlankNode.blank_node b
    | none ↦ NamedOrBlankNode.named_node n
  ]

  unfoldable pub term_for : GroundTerm → Term
  term_for (GroundTerm.named_node n) = elim (blank_for n) [
    | some b ↦ Term.blank_node b
    | none ↦ Term.named_node n
  ]
  term_for (GroundTerm.literal l) = Term.literal l
  term_for (GroundTerm.triple s p o) = Term.triple (node_for s) p (term_for o)

  unfoldable pub graph_for : GroundGraphName → GraphName
  graph_for GroundGraphName.default_graph = GraphName.default_graph
  graph_for (GroundGraphName.named_node n) = elim (blank_for n) [
    | some b ↦ GraphName.blank_node b
    | none ↦ GraphName.named_node n
  ]

  unfoldable pub quad_for : GroundQuad → Quad
  quad_for q = record {
    subject = node_for q.subject;
    predicate = q.predicate;
    object = term_for q.object;
    graph_name = graph_for q.graph_name;
  }

  unfoldable pub deskolemize : Skolemized → Dataset
  deskolemize s = map quad_for s

-- `Dataset::named_graphs`, and the same of a ground dataset.
unfoldable pub collect_graphs : List Text → Dataset → List Text
collect_graphs seen [] = seen
collect_graphs seen (q ∷ qs) = elim q.graph_name [
  | GraphName.named_node n ↦ collect_graphs (if member n seen then seen else seen ++ n ∷ []) qs
  | _ ↦ collect_graphs seen qs
]

unfoldable pub visible_named_graphs : Dataset → List Text
visible_named_graphs d = collect_graphs [] d

unfoldable pub collect_ground_graphs : List Text → Skolemized → List Text
collect_ground_graphs seen [] = seen
collect_ground_graphs seen (q ∷ qs) = elim q.graph_name [
  | GroundGraphName.named_node n ↦
      collect_ground_graphs (if member n seen then seen else seen ++ n ∷ []) qs
  | GroundGraphName.default_graph ↦ collect_ground_graphs seen qs
]

unfoldable pub stored_named_graphs : Skolemized → List Text
stored_named_graphs s = collect_ground_graphs [] s

abbrev is_named : GroundGraphName → Bool
is_named (GroundGraphName.named_node n) = true
is_named GroundGraphName.default_graph = false

-- `Skolemized::has_named_graphs`
unfoldable pub stored_has_named_graphs : Skolemized → Bool
stored_has_named_graphs s = any (λ q. is_named q.graph_name) s

-- The three matches of `uses_reserved_namespace`.
abbrev reserved_node : NamedOrBlankNode → Bool
reserved_node (NamedOrBlankNode.named_node n) = is_reserved_iri n
reserved_node _ = false

abbrev reserved_object : Term → Bool
reserved_object (Term.named_node n) = is_reserved_iri n
reserved_object _ = false

abbrev reserved_graph : GraphName → Bool
reserved_graph (GraphName.named_node n) = is_reserved_iri n
reserved_graph _ = false

unfoldable pub uses_reserved_namespace : Dataset → Bool
uses_reserved_namespace d =
    any
      (λ q.
        reserved_node q.subject
        || (reserved_object q.object
            || (reserved_graph q.graph_name || is_reserved_iri q.predicate)))
      d

unfoldable pub default_graph_only : Dataset → Dataset
default_graph_only d = retain (λ q. q.graph_name == GraphName.default_graph) d
