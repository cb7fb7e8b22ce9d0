-- ===== src/Dataset/Ground/Tests.antt =====
-- Runs of the ground datasets of src/dataset.rs, and their theorems at concrete inputs.

use quadpod.Prelude.{
  ℕ, zero, suc, ◌≡◌, ◌↔◌, refl, ap, Bool, true, false, none, some, [], ◌∷◌, map, all, length,
  retain, Text, codes, get, insert, member, list_beq, strip_prefix, arith,
}
use quadpod.Terms.{Term, NamedOrBlankNode, GraphName}
use quadpod.Rdf.{is_ascii_alphanumeric}
use quadpod.Dataset.{is_reserved_iri, get_prefix, eq_ignore_ascii_case, to_ascii_lowercase}
use quadpod.Dataset.Versions.{Quad, Dataset}
use quadpod.Dataset.Ground.{
  iri_for, ground_node, ground_term, ground_graph, ground_quad, ground_quads, skolemize, term_of,
  graph_of, quad_of, read_node, read_term, read_graph, read_quad, from_store, blank_for, node_for,
  term_for, graph_for, quad_for, deskolemize, uses_reserved_namespace,
}
use quadpod.Dataset.Ground.Stored.{from_store_iff}
use quadpod.Dataset.Ground.Minting.{FreshNames}
use quadpod.Dataset.Ground.RoundTrip.{
  is_plain, plain_node, plain_term, plain_graph, plain_quad, rename_quad, deskolemize-skolemize,
}

-- What the definitions call, for runs.
ground_runs : Unit {0}
unfolding iri_for ground_node ground_term ground_graph ground_quad ground_quads skolemize term_of
    graph_of quad_of read_node read_term read_graph read_quad from_store blank_for node_for term_for
    graph_for quad_for deskolemize uses_reserved_namespace is_reserved_iri get_prefix
    eq_ignore_ascii_case to_ascii_lowercase is_plain plain_node plain_term plain_graph plain_quad
    is_ascii_alphanumeric get insert member list_beq strip_prefix
ground_runs = tt

-- Names of ever more letters.
abbrev letters : ℕ → Text
letters zero = []
letters (suc n) = b'a' ∷ letters n

abbrev every_label : Text → Bool
every_label l = true

length-letters : (n : ℕ) → length (retain is_ascii_alphanumeric (letters n)) ≡ n
unfolding is_ascii_alphanumeric
length-letters zero = refl
length-letters (suc n) = ap suc (length-letters n)

letters-FreshNames : FreshNames letters every_label
letters-FreshNames = record {
  valid = λ n. refl;
  distinct = λ j k e. omega (arith, ap (length {0}) e, length-letters j, length-letters k);
}

-- One blank node as a subject, inside a triple term and as a graph name.
abbrev proof : Quad
proof = record {
  subject = NamedOrBlankNode.blank_node (codes "x");
  predicate = codes "p";
  object =
      Term.triple (NamedOrBlankNode.blank_node (codes "y")) (codes "q")
        (Term.blank_node (codes "x"));
  graph_name = GraphName.blank_node (codes "x");
}

abbrev document : Dataset
document = proof ∷ []

round_trip_tests :
    (deskolemize every_label (skolemize letters document)
      ≡ record {
        subject = NamedOrBlankNode.blank_node (codes "b");
        predicate = codes "p";
        object =
            Term.triple
              (NamedOrBlankNode.blank_node (codes "ba"))
              (codes "q")
              (Term.blank_node (codes "b"));
        graph_name = GraphName.blank_node (codes "b");
      }
        ∷ [])
    × (from_store document ≡ none)
    × (all plain_quad document ≡ true)
unfolding ground_runs
round_trip_tests = (refl, refl, refl)

deskolemize-skolemize_example :
    (f : Text → Text) × (g : Text → Text) × (deskolemize every_label (skolemize letters document)
      ≡ map (rename_quad f) document)
    × (map (rename_quad g) (deskolemize every_label (skolemize letters document)) ≡ document)
deskolemize-skolemize_example =
    deskolemize-skolemize letters every_label letters-FreshNames document round_trip_tests.2

from_store_iff_example :
    (from_store document ≡ some (skolemize letters document))
    ↔ (document ≡ map quad_of (skolemize letters document))
from_store_iff_example = from_store_iff document (skolemize letters document)

-- A skolem IRI of someone else's, inside a triple term.
abbrev smuggled : Dataset
smuggled =
    record {
      subject = NamedOrBlankNode.named_node (codes "s");
      predicate = codes "p";
      object =
          Term.triple (NamedOrBlankNode.named_node (codes "urn:quadpod:bnode:1")) (codes "q")
            (Term.named_node (codes "o"));
      graph_name = GraphName.default_graph;
    }
    ∷ []

smuggled_tests :
    (uses_reserved_namespace smuggled ≡ false)
    × (deskolemize every_label (skolemize letters smuggled)
        ≡ record {
          subject = NamedOrBlankNode.named_node (codes "s");
          predicate = codes "p";
          object =
              Term.triple
                (NamedOrBlankNode.blank_node (codes "b1"))
                (codes "q")
                (Term.named_node (codes "o"));
          graph_name = GraphName.default_graph;
        }
          ∷ [])
unfolding ground_runs
smuggled_tests = (refl, refl)
