-- ===== src/Aux/Tests.antt =====
-- Runs of src/aux.rs over a store in memory, and its theorems at concrete inputs.
use quadpod.Prelude.{
  refl, true, some, [], ◌∷◌, Text, codes, ok, arith, strip_prefix, strip_suffix, ends_with, split,
  through_last, list_beq, get, insert,
}
use quadpod.Terms.{NamedOrBlankNode, Term, Triple}
use quadpod.Dataset.Ground.{
  GroundTerm, GroundGraphName, Skolemized, skolemize, ground_quads, ground_quad, ground_graph,
  ground_node, ground_term, iri_for,
}
use quadpod.Space.{ResourceUrl, segment_remainder, parent, base_of, kind_name, suffix, acl, aux_of}
use quadpod.Rdf.{tri_g, format_media_type}
use native.Mathlib.Decide.{ℕ_discrete}
use quadpod.Blob.{blob_key, trim_start_slashes}
use quadpod.Container.Members.{containment_removal}
use quadpod.Shelf.{shelf_key}
use quadpod.Resource.Graphs.{exists, serialize_for_insert, as_quads, sys_graph_iri}
use quadpod.Store.{Fact-discrete, ◌>>=◌, lift, wrap_read, wrap_write}
use quadpod.Store.Memory.{
  Memory, run_all, run_one, located, listed, memory, memory_has, memory_object, memory_laws,
}
use quadpod.Resource.Names.{IsData}
use quadpod.Resource.Datasets.{
  Crates, put_dataset, registered_shelves, split_graphs, place, discard_blob, named_objects,
  dataset_update, shelf_facts,
}
use quadpod.Aux.{
  put, delete_subject, delete_update, drop_auxiliaries, unlink_from, conditional_put_update,
  subject_present_guard,
}
use quadpod.Aux.Subjects.{WellFormed}
use quadpod.Aux.Runs.{Reachable, Reachable-trans, Reachable-WellFormed}
use quadpod.Aux.Calls.{Call, state_after, state_after-Reachable}
use quadpod.Aux.Planted.{Answers, put-Answers}
use quadpod.Aux.Deleted.{IsGone, delete_subject-IsGone}

abbrev crates : Crates Text
crates = record {
  digest = λ t. t;
  fresh = λ n. n ∷ [];
  valid_iri = λ t. true;
  encode = λ t. t;
  from_str = λ t. some t;
}

abbrev stem : Text
stem = codes "https://p"

abbrev page : ResourceUrl
page = record { path = codes "/a"; iri = codes "https://p/a" }

page-IsData : IsData stem page
unfolding segment_remainder strip_prefix
page-IsData = record {
  in_space = refl;
  is_http = (codes "ttps://p", refl);
  rooted = (codes "a", refl);
  not_aux = refl;
}

abbrev dataset : Skolemized
dataset =
    record {
      subject = codes "s";
      predicate = codes "p";
      object = GroundTerm.named_node (codes "n");
      graph_name = GroundGraphName.named_node (codes "urn:g");
    }
    ∷ []

abbrev blank : Memory
blank = record { facts = []; objects = [] }

blank-WellFormed : WellFormed stem (memory_has blank)
blank-WellFormed = record {
  guarded = λ u k d h. absurd (ground (arith, h));
  registered = λ x f h p. absurd (ground (arith, h));
}

abbrev after : Call Text → Memory → Memory
after c m = state_after crates (codes "syntax") memory page c m

after-Reachable :
    (c : Call Text) (m : Memory)
    → WellFormed stem (memory_has m)
    → Reachable memory stem m (after c m)
after-Reachable c m wf =
    state_after-Reachable crates memory memory_has memory_object memory_laws stem (codes "syntax")
      page c m page-IsData wf

after-WellFormed :
    (c : Call Text) (m : Memory)
    → WellFormed stem (memory_has m)
    → WellFormed stem (memory_has (after c m))
after-WellFormed c m wf =
    Reachable-WellFormed memory memory_has memory_object memory_laws stem wf
      (after-Reachable c m wf)

abbrev rule : Triple
rule = record {
  subject = NamedOrBlankNode.blank_node (codes "r");
  predicate = codes "p";
  object = Term.named_node (codes "n");
}

abbrev write_page : Call Text
write_page = Call.put_dataset dataset tri_g

abbrev write_acl : Call Text
write_acl = Call.put_aux acl (rule ∷ [])

abbrev written : Memory
written = after write_page blank

abbrev full : Memory
full = after write_acl written

written-WellFormed : WellFormed stem (memory_has written)
written-WellFormed = after-WellFormed write_page blank blank-WellFormed

full-Reachable : Reachable memory stem blank full
full-Reachable =
    Reachable-trans memory stem (after-Reachable write_page blank blank-WellFormed)
      (after-Reachable write_acl written written-WellFormed)

Reachable-WellFormed_example : WellFormed stem (memory_has full)
Reachable-WellFormed_example =
    Reachable-WellFormed memory memory_has memory_object memory_laws stem blank-WellFormed
      full-Reachable

state_after-Reachable_example : Reachable memory stem written full
state_after-Reachable_example =
    state_after-Reachable crates memory memory_has memory_object memory_laws stem (codes "syntax")
      page write_acl written page-IsData written-WellFormed

put-Answers_example :
    Answers crates memory memory_has memory_object memory_laws stem page acl
      (rule ∷ [])
      written
      full
      (ok tt)
unfolding put ◌>>=◌ wrap_write exists wrap_read run_all conditional_put_update run_one
    subject_present_guard state_after put_dataset registered_shelves lift split_graphs place
    discard_blob blob_key ℕ_discrete trim_start_slashes skolemize ground_graph ground_node
    ground_quad ground_quads ground_term iri_for ends_with split strip_prefix strip_suffix list_beq
    get insert format_media_type dataset_update named_objects shelf_facts as_quads
    serialize_for_insert sys_graph_iri shelf_key aux_of base_of kind_name suffix Fact-discrete
    located listed
put-Answers_example =
    put-Answers crates memory memory_has memory_object memory_laws stem page acl (rule ∷ []) written
      full page-IsData written-WellFormed refl

abbrev gone : Memory
gone = (delete_subject crates memory page full).1

delete_subject-IsGone_example :
    IsGone crates memory memory_has memory_object memory_laws page full gone true
unfolding put ◌>>=◌ wrap_write exists wrap_read run_all conditional_put_update run_one
    subject_present_guard state_after put_dataset registered_shelves lift split_graphs place
    discard_blob blob_key ℕ_discrete trim_start_slashes skolemize ground_graph ground_node
    ground_quad ground_quads ground_term iri_for ends_with split strip_prefix strip_suffix list_beq
    get insert format_media_type dataset_update named_objects shelf_facts as_quads
    serialize_for_insert sys_graph_iri shelf_key aux_of base_of kind_name suffix Fact-discrete
    located listed delete_subject delete_update drop_auxiliaries unlink_from containment_removal
    parent through_last
delete_subject-IsGone_example =
    delete_subject-IsGone crates memory memory_has memory_object memory_laws page full gone refl
