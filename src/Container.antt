-- ===== src/Container.antt =====
-- src/container.rs: server-managed containment, the provision of the root and child names.
-- `insert_marked` of src/resource.rs, which sends one update to the SPARQL store, is a parameter
-- over the store's state; so are the IRI check and the random name.
pub mod Children
pub mod Members
pub mod Link
mod Tests
use quadpod.Prelude.{
  ℕ, Bool, false, not, ◌&&◌, ◌||◌, Option, none, some, List, [], ◌∷◌, any, retain, is_empty,
  if◌then◌else◌, leb, ◌==◌, nat_eq, list_eq, Text, codes, Result, err,
}
use quadpod.Terms.{NamedOrBlankNode, Term, Triple}
use quadpod.Space.{ContainerUrl, container_iri}
use quadpod.Resource.{ResourceError, invalid_iri}

abbrev pub ldp_container : Text
ldp_container = codes "http://www.w3.org/ns/ldp#Container"

abbrev pub ldp_basic_container : Text
ldp_basic_container = codes "http://www.w3.org/ns/ldp#BasicContainer"

abbrev pub ldp_contains : Text
ldp_contains = codes "http://www.w3.org/ns/ldp#contains"

abbrev pub rdf_type : Text
rdf_type = codes "http://www.w3.org/1999/02/22-rdf-syntax-ns#type"

unfoldable pub body_sets_containment : List Triple → Bool
body_sets_containment triples = any (λ t. t.predicate == ldp_contains) triples

abbrev is_node : NamedOrBlankNode → Text → Bool
is_node (NamedOrBlankNode.named_node n) iri = n == iri
is_node _ iri = false

abbrev is_container_type : Term → Bool
is_container_type (Term.named_node n) = n == ldp_container || n == ldp_basic_container
is_container_type _ = false

-- The server's own triple about the container, which the filter drops.
unfoldable pub is_server_managed : Text → Triple → Bool
is_server_managed container_iri t =
    t.predicate == ldp_contains
    || (t.predicate == rdf_type && is_node t.subject container_iri && is_container_type t.object)

unfoldable pub without_server_managed : List Triple → Text → List Triple
unfolding is_server_managed
without_server_managed triples container_iri =
    retain (λ t. not (is_server_managed container_iri t)) triples

-- One write to a store whose state is `S`: what it answers, and the state after it.
abbrev pub Write : Type 0 → Type 0
Write S = S → Result ResourceError (Unit {0}) × S

module _ {S : Type 0} (valid_iri : Text → Bool)
    (insert_marked : ContainerUrl → List Triple → Write S) where
  -- The triples that `ensure_container` asserts about a container.
  abbrev type_triples : Text → List Triple
  type_triples iri =
      record {
        subject = NamedOrBlankNode.named_node iri;
        predicate = rdf_type;
        object = Term.named_node ldp_container;
      }
      ∷ record {
        subject = NamedOrBlankNode.named_node iri;
        predicate = rdf_type;
        object = Term.named_node ldp_basic_container;
      }
      ∷ []

  unfoldable pub ensure_container : ContainerUrl → Write S
  ensure_container c s =
      if valid_iri (container_iri c)
      then insert_marked c (type_triples (container_iri c)) s
      else (err invalid_iri, s)

  unfoldable pub provision_root : ContainerUrl → Write S
  provision_root root = ensure_container root

  unfoldable pub add_containment : ContainerUrl → Text → Write S
  add_containment parent child_iri s =
      if valid_iri (container_iri parent) && valid_iri child_iri
      then insert_marked parent
          (record {
            subject = NamedOrBlankNode.named_node (container_iri parent);
            predicate = ldp_contains;
            object = Term.named_node child_iri;
          }
            ∷ [])
          s
      else (err invalid_iri, s)

unfoldable pub is_slug_char : ℕ → Bool
is_slug_char c =
    (leb b'0' c && leb c b'9')
    || (leb b'A' c && leb c b'Z')
    || (leb b'a' c && leb c b'z')
    || (c == b'.' || c == b'_' || c == b'-')

-- `fresh` is the random name that `Uuid::new_v4` gives.
unfoldable pub child_name : Option Text → Text → Text
unfolding is_slug_char
child_name slug fresh =
    let cleaned = retain is_slug_char (elim slug [ some s ↦ s | none ↦ [] ]) in
    if is_empty cleaned || (cleaned == codes "." || cleaned == codes "..") then fresh else cleaned
