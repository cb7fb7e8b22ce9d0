-- ===== src/Wac/Prp/Tests.antt =====
-- Runs of the definitions of src/wac/prp.rs, and its theorem at concrete inputs.
use quadpod.Prelude.{
  any, true, ◌==◌, nat_eq, list_eq, ◌≡◌, ◌⊎◌, false, refl, none, some, List, [], ◌∷◌, ◌++◌, Text,
  codes, Map, get, insert, member, list_beq, strip_suffix, strip_prefix, Result, ok,
}
use quadpod.Terms.{Term, Triple, NamedOrBlankNode}
use quadpod.Space.{ResourceUrl, aux_of, base_of, suffix, kind_name}
use quadpod.Resource.{ResourceError}
use quadpod.Wac.Prp.{
  Row, acl_iri, govern, seed, node_of, read_row, push_entry, add_row, add_rows, load_chain_acls,
}
use quadpod.Wac.Prp.Loaded.{graph_triples}
use quadpod.Wac.Prp.Selected.{AreTriples, load_chain_acls_lem}
use quadpod.Wac.Prp.OneGraph.{one_graph, one_graph_holds, one_graph_laws}

-- What the definitions call, for runs.
prp_runs : Unit {0}
unfolding govern seed node_of read_row push_entry add_row add_rows load_chain_acls graph_triples
    aux_of base_of suffix kind_name get insert member list_beq strip_suffix strip_prefix
prp_runs = tt

abbrev stem : Text
stem = codes "https://pod"

abbrev url : Text → ResourceUrl
url p = record { path = p; iri = stem ++ p }

abbrev root_acl : Text
root_acl = codes "https://pod/.aux/.acl"

abbrev row : Text → Row
row o = record {
  g = some (Term.named_node root_acl);
  s = some (Term.blank_node (codes "r"));
  p = some (Term.named_node (codes "p"));
  o = some (Term.named_node o);
}

abbrev triple_of : Text → Triple
triple_of o = record {
  subject = NamedOrBlankNode.blank_node (codes "r");
  predicate = codes "p";
  object = Term.named_node o;
}

-- A store that answers every query with two rows.
abbrev two_rows : Text → Result ResourceError (List Row)
two_rows q = ok (row (codes "a") ∷ row (codes "b") ∷ [])

abbrev chain : List ResourceUrl
chain = url (codes "/x") ∷ url (codes "/") ∷ []

load_tests :
    (load_chain_acls two_rows chain (root_acl ∷ [])
      ≡ ok ((codes "https://pod/", triple_of (codes "a") ∷ triple_of (codes "b") ∷ []) ∷ []))
    × (load_chain_acls two_rows chain [] ≡ ok [])
unfolding prp_runs
load_tests = (refl, refl)

in_chain : any (λ c. c.iri == codes "https://pod/") chain ≡ true
unfolding prp_runs
in_chain = refl

abbrev root_triples : List Triple
root_triples = triple_of (codes "a") ∷ triple_of (codes "b") ∷ []

abbrev root_graph : Text → Result ResourceError (List Row)
root_graph = one_graph root_acl root_triples

load_chain_acls_lem_example :
    (acls : Map (List Triple)) × (load_chain_acls root_graph chain (root_acl ∷ []) ≡ ok acls)
    × (((member (acl_iri (url (codes "/"))) (root_acl ∷ []) ≡ true)
          × ((ts : List Triple) × (get (codes "https://pod/") acls ≡ some ts)
              × AreTriples (one_graph_holds root_acl root_triples) (acl_iri (url (codes "/"))) ts))
        ⊎ ((member (acl_iri (url (codes "/"))) (root_acl ∷ []) ≡ false)
            × (get (codes "https://pod/") acls ≡ none)))
load_chain_acls_lem_example =
    load_chain_acls_lem root_graph (one_graph_holds root_acl root_triples)
      (one_graph_laws root_acl root_triples) stem chain (root_acl ∷ []) (refl, (refl, tt)) refl
      (url (codes "/")) refl in_chain
