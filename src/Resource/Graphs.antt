-- ===== src/Resource/Graphs.antt =====
-- src/resource.rs: presence, and what replaces, extends, reads and deletes one graph.
use quadpod.Prelude.{
  ℕ, Bool, Option, none, some, List, [], ◌∷◌, ◌++◌, map, if◌then◌else◌, Text, codes,
}
use quadpod.Terms.{Triple, GraphName}
use quadpod.Dataset.Versions.{Dataset}
use quadpod.Dataset.Ground.{GroundTerm, GroundQuad, Skolemized, skolemize}
use quadpod.Store.{
  Fact, Operation, drop_silent, insert_data, everything, Backend, Action, ◌>>=◌, ◌>>◌, pure,
  wrap_write, wrap_read,
}
use quadpod.Resource.{ResourceError, store}

abbrev pub sys_present : Text
sys_present = codes "urn:quadpod:sys#present"

abbrev pub sys_binary_resource : Text
sys_binary_resource = codes "urn:quadpod:sys#BinaryResource"

abbrev pub sys_prefix : Text
sys_prefix = codes "urn:quadpod:sys:"

-- The graph argument of each function is its IRI, `g.graph_iri()`.
unfoldable pub sys_graph_iri : Text → Text
sys_graph_iri iri = sys_prefix ++ iri

-- The object of `<iri> <present> true`.
abbrev pub true_literal : GroundTerm
true_literal = GroundTerm.literal (record {
  value = codes "true";
  datatype = codes "http://www.w3.org/2001/XMLSchema#boolean";
  language = none;
  direction = none;
})

abbrev pub present_fact : Text → Fact
present_fact iri = record { subject = iri; predicate = sys_present; object = true_literal }

-- `serialize_for_insert`: a ground dataset's triples, whatever their graph.
abbrev pub fact_of : GroundQuad → Fact
fact_of q = record { subject = q.subject; predicate = q.predicate; object = q.object }

unfoldable pub serialize_for_insert : Skolemized → List Fact
serialize_for_insert quads = map fact_of quads

unfoldable pub as_quads : List Triple → Dataset
as_quads triples =
    map
      (λ (t : Triple). record {
        subject = t.subject;
        predicate = t.predicate;
        object = t.object;
        graph_name = GraphName.default_graph;
      })
      triples

-- The updates of `put_rdf`, `insert_marked` and `delete_rdf`.
abbrev pub marked : Text → List Fact → List Operation
marked iri body =
    insert_data ((iri, body) ∷ [])
    ∷ insert_data ((sys_graph_iri iri, present_fact iri ∷ []) ∷ [])
    ∷ []

abbrev pub dropped : Text → List Operation
dropped iri = drop_silent iri ∷ drop_silent (sys_graph_iri iri) ∷ []

module _ {W : Type 0} (b : Backend W) where
  abbrev pub Task : Type 0 → Type 0
  Task A = Action W ResourceError A

  unfoldable pub exists : Text → Task Bool
  exists iri = wrap_read store (b.ask (sys_graph_iri iri) (present_fact iri ∷ []))

  unfoldable pub insert_marked : Text → Skolemized → Task (Unit {0})
  insert_marked iri quads = wrap_write store (b.update (marked iri (serialize_for_insert quads)))

  unfoldable pub put_rdf : (ℕ → Text) → Text → List Triple → Task (Unit {0})
  put_rdf fresh iri triples = wrap_write store (
      b.update
        (drop_silent iri ∷ marked iri (serialize_for_insert (skolemize fresh (as_quads triples)))))

  unfoldable pub get_rdf : Text → Task (Option (List Triple))
  get_rdf iri = do
    present ← exists iri
    if present
        then (do ts ← wrap_read store (b.construct iri everything); pure (some ts))
        else pure none

  unfoldable pub delete_rdf : Text → Task Bool
  delete_rdf iri = do existed ← exists iri; wrap_write store (b.update (dropped iri)); pure existed
