-- ===== src/Dataset/Ground/Stored.antt =====
-- `Skolemized::from_store` of src/dataset.rs: what it reads.
use quadpod.Prelude.{◌≡◌, ◌↔◌, refl, some, List, [], ◌∷◌, map, Text, arith, Option-cases, inl, inr}
use quadpod.Terms.{Term, NamedOrBlankNode, GraphName}
use quadpod.Dataset.Versions.{Quad}
use quadpod.Dataset.Ground.{
  GroundTerm, GroundGraphName, GroundQuad, Skolemized, term_of, graph_of, quad_of, read_node,
  read_term, read_graph, read_quad, from_store,
}

read_term-term_of : (t : GroundTerm) → read_term (term_of t) ≡ some t
unfolding term_of read_term read_node
read_term-term_of (GroundTerm.named_node n) = refl
read_term-term_of (GroundTerm.literal l) = refl
read_term-term_of (GroundTerm.triple s p o) = rw (read_term-term_of o) refl

term_of-read_term : (t : Term) {g : GroundTerm} → read_term t ≡ some g → t ≡ term_of g
unfolding term_of read_term read_node
term_of-read_term (Term.named_node n) h = ground arith
term_of-read_term (Term.literal l) h = ground arith
term_of-read_term (Term.blank_node b) h = cc
term_of-read_term (Term.triple (NamedOrBlankNode.blank_node b) p o) h = cc
term_of-read_term (Term.triple (NamedOrBlankNode.named_node s) p o) h =
    elim (Option-cases (read_term o)) [
      | inl e ↦ absurd (ground arith)
      | inr (o', e) ↦ ground (arith, term_of-read_term o e)
    ]

read_graph-graph_of : (g : GroundGraphName) → read_graph (graph_of g) ≡ some g
unfolding graph_of read_graph
read_graph-graph_of GroundGraphName.default_graph = refl
read_graph-graph_of (GroundGraphName.named_node n) = refl

read_quad-quad_of : (q : GroundQuad) → read_quad (quad_of q) ≡ some q
unfolding quad_of read_quad read_node
read_quad-quad_of q = ground (arith, read_term-term_of q.object, read_graph-graph_of q.graph_name)

pub from_store-quads : (s : Skolemized) → from_store (map quad_of s) ≡ some s
unfolding from_store
from_store-quads [] = refl
from_store-quads (q ∷ s) = ground (arith, read_quad-quad_of q, from_store-quads s)

node_of_read :
    (n : NamedOrBlankNode) {t : Text} → read_node n ≡ some t → n ≡ NamedOrBlankNode.named_node t
unfolding read_node
node_of_read (NamedOrBlankNode.named_node n) h = ground arith
node_of_read (NamedOrBlankNode.blank_node n) h = cc

graph_of-read_graph : (n : GraphName) {g : GroundGraphName} → read_graph n ≡ some g → n ≡ graph_of g
unfolding read_graph graph_of
graph_of-read_graph GraphName.default_graph h = ground arith
graph_of-read_graph (GraphName.named_node n) h = ground arith
graph_of-read_graph (GraphName.blank_node n) h = cc

quad_of-read_quad : (q : Quad) {g : GroundQuad} → read_quad q ≡ some g → q ≡ quad_of g
unfolding read_quad quad_of
quad_of-read_quad q {g} h = elim (Option-cases (read_node q.subject)) [
  | inl e ↦ absurd (ground arith)
  | inr (s, e) ↦ elim (Option-cases (read_term q.object)) [
    | inl f ↦ absurd (ground arith)
    | inr (o, f) ↦ elim (Option-cases (read_graph q.graph_name)) [
      | inl k ↦ absurd (ground arith)
      | inr (n, k) ↦ ground (
        arith,
        node_of_read q.subject e,
        term_of-read_term q.object f,
        graph_of-read_graph q.graph_name k,
      )
    ]
  ]
]

quads-from_store : (qs : List Quad) (s : Skolemized) → from_store qs ≡ some s → qs ≡ map quad_of s
unfolding from_store
quads-from_store [] s h = ground arith
quads-from_store (q ∷ qs) s h = elim (Option-cases (read_quad q)) [
  | inl e ↦ absurd (ground arith)
  | inr (q', e) ↦ elim (Option-cases (from_store qs)) [
    | inl f ↦ absurd (ground arith)
    | inr (qs', f) ↦ ground (arith, quad_of-read_quad q e, quads-from_store qs qs' f)
  ]
]

-- What is read back from the store is exactly the ground dataset whose quads they are: every such
-- list of quads is read, at whatever depth its triple terms are, and no other.
pub from_store_iff :
    (qs : List Quad) (s : Skolemized) → (from_store qs ≡ some s) ↔ (qs ≡ map quad_of s)
from_store_iff qs s = (quads-from_store qs s, λ e. rw e (from_store-quads s))
