-- ===== src/Aux/Calls.antt =====
-- The calls of src/resource.rs and src/aux.rs that write, and the runs of updates that they are.
use quadpod.Prelude.{Bool, Option, List, nat_eq, list_eq, Text}
use quadpod.Terms.{Triple}
use quadpod.Dataset.Ground.{Skolemized}
use quadpod.Space.{AuxKind, ResourceUrl, aux_of}
use quadpod.Rdf.{Format, MediaType}
use quadpod.Patch.{Patch}
use quadpod.Store.{Fact, Backend}
use quadpod.Store.Laws.{BackendLaws}
use quadpod.Resource.Graphs.{Task, fact_of, serialize_for_insert, as_quads, exists}
use quadpod.Resource.Names.{IsData}
use quadpod.Resource.Graphs
use quadpod.Resource.Patches
use quadpod.Aux
use quadpod.Resource.Datasets
use quadpod.Resource.Datasets.{Crates, Shelf, split_graphs, place, registered_shelves, discard_blob}
use quadpod.Resource.Patches.{
  PatchResult, no_mapping, several_mappings, Written, patch_guarded, apply_mapping, write_patch,
  read_facts, substitute,
}
use quadpod.Aux.{put, patch, unlink_from, delete_update, subject_present_guard}
use quadpod.Aux.Subjects.{WellFormed}
use quadpod.Aux.Runs.{Reachable}
use quadpod.Aux.Writes.{
  delete_aux-Leads, delete_subject-Leads, insert_marked-Leads, patch_aux-Leads, patch_dataset-Leads,
  put_aux-Leads, put_blob-Leads, put_dataset-Leads, put_rdf-Leads,
}

-- The calls that write a document or a container of the space, or its auxiliary of a kind.
pub data Call (HeaderValue : Type 0) : Type 0 where
  put_dataset : Skolemized → Format → Call HeaderValue
  put_blob : Text → MediaType HeaderValue → Call HeaderValue
  insert_marked : Skolemized → Call HeaderValue
  put_rdf : List Triple → Call HeaderValue
  patch_dataset : Patch → Call HeaderValue
  put_aux : AuxKind → List Triple → Call HeaderValue
  patch_aux : AuxKind → Patch → Call HeaderValue
  delete_aux : AuxKind → Call HeaderValue
  delete_subject : Call HeaderValue

-- The state after a call, whatever it answers.
unfoldable pub state_after :
    {HeaderValue W : Type 0}
    → Crates HeaderValue
    → Text
    → Backend W
    → ResourceUrl
    → Call HeaderValue
    → W
    → W
state_after crates syntax_error b r (Call.put_dataset d f) w =
    (Datasets.put_dataset crates b r d f w).1
state_after crates syntax_error b r (Call.put_blob bytes mt) w =
    (Datasets.put_blob crates b r bytes mt w).1
state_after crates syntax_error b r (Call.insert_marked quads) w =
    (Graphs.insert_marked b r.iri quads w).1
state_after crates syntax_error b r (Call.put_rdf triples) w =
    (Graphs.put_rdf b crates.fresh r.iri triples w).1
state_after crates syntax_error b r (Call.patch_dataset p) w =
    (Patches.patch_dataset syntax_error b r.iri p w).1
state_after crates syntax_error b r (Call.put_aux k triples) w =
    (put crates b (aux_of r k) triples w).1
state_after crates syntax_error b r (Call.patch_aux k p) w =
    (patch crates b syntax_error (aux_of r k) p w).1
state_after crates syntax_error b r (Call.delete_aux k) w =
    (Graphs.delete_rdf b (aux_of r k).iri w).1
state_after crates syntax_error b r Call.delete_subject w = (Aux.delete_subject crates b r w).1

module _ {HeaderValue W : Type 0} (crates : Crates HeaderValue) (b : Backend W)
    (holds : W → Text → Fact → Bool) (object : W → Text → Option Text)
    (laws : BackendLaws b holds object) (stem : Text) where
  -- Each call that writes a document or container of the space, or its auxiliary, does nothing to a
  -- well-formed store, whatever it answers, but a sequence of the updates that the code sends and of
  -- bytes that are put or deleted.
  pub state_after-Reachable :
      (syntax_error : Text) (r : ResourceUrl) (c : Call HeaderValue) (w : W)
      → IsData stem r
      → WellFormed stem (holds w)
      → Reachable b stem w (state_after crates syntax_error b r c w)
  unfolding state_after
  state_after-Reachable x r (Call.put_dataset d f) w own wf =
      (put_dataset-Leads crates b holds object laws stem r d f own).at w wf
  state_after-Reachable x r (Call.put_blob bytes mt) w own wf =
      (put_blob-Leads crates b holds object laws stem r bytes mt own).at w wf
  state_after-Reachable x r (Call.insert_marked q) w own wf =
      (insert_marked-Leads crates b holds object laws stem r q own).at w wf
  state_after-Reachable x r (Call.put_rdf ts) w own wf =
      (put_rdf-Leads crates b holds object laws stem r ts own).at w wf
  state_after-Reachable x r (Call.patch_dataset p) w own wf =
      (patch_dataset-Leads crates b holds object laws stem x r p own).at w wf
  state_after-Reachable x r (Call.put_aux k ts) w own wf =
      (put_aux-Leads crates b holds object laws stem r k ts own).at w wf
  state_after-Reachable x r (Call.patch_aux k p) w own wf =
      (patch_aux-Leads crates b holds object laws stem x r k p own).at w wf
  state_after-Reachable x r (Call.delete_aux k) w own wf =
      (delete_aux-Leads crates b holds object laws stem r k own).at w wf
  state_after-Reachable x r Call.delete_subject w own wf =
      (delete_subject-Leads crates b holds object laws stem r own).at w wf
