-- ===== src/Http/Tests.antt =====
-- Runs of src/http.rs over a store in memory, and its theorems at concrete inputs: Alice deletes
-- /a of a pod whose root ACL lets her write everywhere.
use native.Mathlib.Decide.{ℕ_discrete}
use quadpod.Prelude.{
  ◌≡◌, ◌↔◌, refl, Bool, true, not, some, List, [], ◌∷◌, ◌++◌, retain, Text, codes, Result, ok,
  list_beq, get, insert, member, ◌==◌, nat_eq, inl, inr, Bool-cases, split, contains, starts_with,
  ends_with, strip_prefix, strip_suffix, through_last,
}
use quadpod.Terms.{Term, NamedOrBlankNode-discrete}
use quadpod.Dataset.Ground.{GroundTerm, GroundQuad, GroundGraphName, Skolemized}
use quadpod.Space.{
  ResourceUrl, resource, acl, aux_of, base_of, suffix, kind_name, ancestors, parent,
  slash_counterpart, as_container, is_normalization_stable, segments_stable, split_suffix,
  segment_remainder, reserved_segment,
}
use quadpod.Store.{Fact, Fact-discrete, ◌>>=◌, lift, wrap_read, wrap_write}
use quadpod.Store.Memory.{Memory, memory, memory_has, memory_object, memory_laws}
use quadpod.Resource.{ResourceError}
use quadpod.Resource.Graphs.{sys_graph_iri, present_fact, exists}
use quadpod.Resource.Datasets.{Crates, registered_shelves, discard_blob, named_objects}
use quadpod.Blob.{blob_key, trim_start_slashes}
use quadpod.Container.Members.{containment_removal}
use quadpod.Aux.{delete_subject, delete_update, drop_auxiliaries, unlink_from}
use quadpod.Wac.{allows}
use quadpod.Wac.Pdp.{
  web_id, acl_agent, acl_access_to, acl_default, acl_mode, acl_write, recognized_mode, push,
  push_all, by_subject, has_object, matches_agent, grant, grant_modes, decide_groups, decide,
}
use quadpod.Wac.Prp.{
  Row, govern, seed, read_row, node_of, push_entry, add_row, add_rows, load_chain_acls,
}
use quadpod.Wac.Guard.{
  chain_of, subject_of, chain_head, candidates, probe, find_acl, decide_on, decide_from,
  required_mode, authorize, authorize_parent, authorize_aux, required_mode_for_aux,
}
use quadpod.Http.{of_status}
use quadpod.Http.Delete.{present_auxes, delete_last, delete_authorized, delete_write}
use quadpod.Rdf.{turtle, tri_g, rdf11}
use quadpod.Dataset.Etag.{etag}
use quadpod.Dataset.Etag.Strong.{IsLine, IsSameState, etag_iff}
use quadpod.Http.Deleted.{Answered, delete_write-Answered}

abbrev crates : Crates Text
crates = record {
  digest = λ t. t;
  fresh = λ n. n ∷ [];
  valid_iri = λ t. true;
  encode = λ t. t;
  from_str = λ t. some t;
}

abbrev url : Text → ResourceUrl
url p = record { path = p; iri = codes "https://p" ++ p }

abbrev page : ResourceUrl
page = url (codes "/a")

abbrev root : ResourceUrl
root = url (codes "/")

abbrev alice : Text
alice = codes "https://alice/#me"

abbrev rule : Text → Text → Row
rule p o = record {
  g = some (Term.named_node (aux_of root acl).iri);
  s = some (Term.named_node (codes "#r"));
  p = some (Term.named_node p);
  o = some (Term.named_node o);
}

abbrev rows : List Row
rows =
    rule acl_access_to root.iri
    ∷ rule acl_default root.iri
    ∷ rule acl_agent alice
    ∷ rule acl_mode acl_write
    ∷ []

abbrev mark : Text → Text × Fact
mark iri = (sys_graph_iri iri, present_fact iri)

abbrev pod : Memory
pod = record {
  facts =
      mark root.iri
      ∷ mark (aux_of root acl).iri
      ∷ mark page.iri
      ∷ (
        page.iri,
        record { subject = page.iri; predicate = codes "p"; object = GroundTerm.named_node alice },
      )
      ∷ [];
  objects = [];
}

abbrev exists_many : List Text → Memory → Result ResourceError (List Text)
exists_many gs m = ok (retain (λ g. memory_has m (sys_graph_iri g) (present_fact g)) gs)

abbrev query_solutions : Text → Memory → Result ResourceError (List Row)
query_solutions q m = ok rows

abbrev gone : Memory
gone = (delete_subject crates memory page pod).1

delete_write-Answered_example :
    Answered crates memory exists_many query_solutions memory_has memory_object memory_laws
      (web_id alice)
      pod
      (resource page)
      (of_status 204)
      (some [])
      gone
unfolding delete_write delete_authorized delete_last present_auxes probe candidates chain_of
    subject_of chain_head find_acl decide_on decide_from required_mode authorize authorize_parent
    authorize_aux required_mode_for_aux govern seed read_row node_of push_entry add_row add_rows
    load_chain_acls decide decide_groups by_subject push_all push has_object matches_agent
    grant_modes grant recognized_mode allows aux_of base_of suffix kind_name slash_counterpart
    parent ancestors as_container is_normalization_stable segments_stable split_suffix
    segment_remainder reserved_segment get member split contains starts_with ends_with strip_prefix
    strip_suffix through_last list_beq NamedOrBlankNode-discrete ℕ_discrete Fact-discrete ◌>>=◌ lift
    wrap_read wrap_write sys_graph_iri exists registered_shelves discard_blob named_objects blob_key
    insert trim_start_slashes containment_removal delete_subject delete_update drop_auxiliaries
    unlink_from
delete_write-Answered_example =
    delete_write-Answered crates memory exists_many query_solutions memory_has memory_object
      memory_laws (web_id alice) pod (resource page) refl

-- The text of a quad as one line.
abbrev text_of : GroundQuad → Text
text_of q = retain (λ c. not (c == 10)) (q.subject ++ q.predicate)

text_of-IsLine : (q : GroundQuad) → IsLine (text_of q)
unfolding contains
text_of-IsLine q = one_line (q.subject ++ q.predicate)
  where
    one_line : (t : Text) → IsLine (retain (λ c. not (c == 10)) t)
    one_line [] = refl
    one_line (c ∷ t) = elim (Bool-cases (c == 10)) [
      | inl e ↦ rw e (one_line t)
      | inr e ↦ rw e (rw e (one_line t))
    ]

abbrev stored : Skolemized
stored =
    record {
      subject = page.iri;
      predicate = codes "p";
      object = GroundTerm.named_node alice;
      graph_name = GroundGraphName.default_graph;
    }
    ∷ []

abbrev any_label : Text → Bool
any_label t = true

etag_iff_example :
    (etag (λ t. t) text_of stored turtle rdf11
      ≡ etag (λ t. t) text_of (stored ++ stored) tri_g rdf11)
    ↔ IsSameState text_of stored turtle rdf11 (stored ++ stored) tri_g rdf11
etag_iff_example =
    etag_iff (λ t. t) text_of text_of-IsLine stored turtle rdf11 (stored ++ stored) tri_g rdf11
      (λ e. e)
