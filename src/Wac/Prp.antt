-- ===== src/Wac/Prp.antt =====
-- src/wac/prp.rs: the access control lists of a chain, loaded with one query. The SPARQL store is
-- the parameter `query_solutions`, which answers a query with its solutions.
pub mod Table
pub mod Loaded
pub mod Selected
pub mod OneGraph
mod Tests
use quadpod.Prelude.{
  Option, none, some, List, [], ◌∷◌, ◌++◌, is_empty, if◌then◌else◌, Text, codes, Map, get, insert,
  member, Result, ok, err, ◌>>=◌,
}
use quadpod.Terms.{NamedOrBlankNode, Term, Triple}
use quadpod.Space.{acl, ResourceUrl, AuxUrl, aux_of}
use quadpod.Resource.{ResourceError}

-- `QuerySolution`, by the four variables that the query binds.
pub record Row : Type 0 where
  pub g : Option Term
  pub s : Option Term
  pub p : Option Term
  pub o : Option Term

abbrev pub acl_iri : ResourceUrl → Text
acl_iri r = (aux_of r acl).iri

-- The loop over the chain: which resource each existing ACL governs, and the query's values.
unfoldable pub govern : List ResourceUrl → List Text → Map Text × Text → Map Text × Text
govern [] present table = table
govern (element ∷ chain) present (governed, values) =
    let taken = govern chain present (
      insert (acl_iri element) element.iri governed,
      values ++ (codes "<" ++ (acl_iri element ++ codes "> ")),
    ) in
    let skipped = govern chain present (governed, values) in
    if member (acl_iri element) present then taken else skipped

-- One empty list for each existing ACL.
unfoldable pub seed : Map Text → Map (List Triple)
seed [] = []
seed ((a, g) ∷ governed) = insert g [] (seed governed)

unfoldable pub node_of : Term → Option NamedOrBlankNode
node_of (Term.named_node n) = some (NamedOrBlankNode.named_node n)
node_of (Term.blank_node b) = some (NamedOrBlankNode.blank_node b)
node_of _ = none

abbrev named : Option Term → Option Text
named (some (Term.named_node n)) = some n
named _ = none

abbrev node_at : Option Term → Option NamedOrBlankNode
node_at none = none
node_at (some s) = node_of s

-- The graph and the triple of a row; `none` where the loop continues.
unfoldable pub read_row : Row → Option (Text × Triple)
unfolding node_of
read_row row = elim (named row.g) [
  | none ↦ none
  | some g ↦ elim (node_at row.s) [
    | none ↦ none
    | some subject ↦ elim (named row.p) [
      | none ↦ none
      | some p ↦ elim row.o [
        | none ↦ none
        | some o ↦ some (g, record { subject = subject; predicate = p; object = o })
      ]
    ]
  ]
]

-- `out.entry(key).or_default().push(triple)`
unfoldable pub push_entry : Text → Triple → Map (List Triple) → Map (List Triple)
push_entry key t out = elim (get key out) [
  | none ↦ insert key (t ∷ []) out
  | some ts ↦ insert key (ts ++ t ∷ []) out
]

unfoldable pub add_row : Map Text → Map (List Triple) → Row → Map (List Triple)
add_row governed out row = elim (read_row row) [
  | none ↦ out
  | some (g, t) ↦ elim (get g governed) [ none ↦ out | some key ↦ push_entry key t out ]
]

unfoldable pub add_rows : Map Text → Map (List Triple) → List Row → Map (List Triple)
add_rows governed out [] = out
add_rows governed out (row ∷ rows) = add_rows governed (add_row governed out row) rows

abbrev pub acl_query : Text → Text
acl_query values =
    codes "SELECT ?g ?s ?p ?o WHERE { VALUES ?g { "
    ++ (values ++ codes " } GRAPH ?g { ?s ?p ?o } }")

module _ (query_solutions : Text → Result ResourceError (List Row)) where
  unfoldable pub load_chain_acls :
      List ResourceUrl → List Text → Result ResourceError (Map (List Triple))
  load_chain_acls chain present =
      let (governed, values) = govern chain present ([], []) in
      if is_empty governed
      then ok (seed governed)
      else query_solutions (acl_query values) >>= λ rows.
          ok (add_rows governed (seed governed) rows)
