-- ===== src/Aux/Writes.antt =====
-- The writes of src/resource.rs and src/aux.rs, each by the updates that it sends.
use quadpod.Prelude.{
  ◌≡◌, inl, inr, Bool, Option, some, List, [], ◌∷◌, All, is_empty, if◌then◌else◌, nat_eq, list_eq,
  Text, ok, Option-cases, arith,
}
use quadpod.Terms.{Triple}
use quadpod.Dataset.Ground.{Skolemized, skolemize}
use quadpod.Space.{AuxKind, ResourceUrl, aux_of, parent, container_iri}
use quadpod.Shelf.{ShelfKey, shelf_key}
use quadpod.Rdf.{Format, format_media_type, MediaType}
use quadpod.Patch.{Patch}
use quadpod.Blob.{blob_key}
use quadpod.Container.Members.{containment_removal, member_fact}
use quadpod.Store.{Fact, Located, Operation, modify, Solution, delete_data, Backend, lift, pure}
use quadpod.Store.Laws.{BackendLaws}
use quadpod.Resource.{ResourceError}
use quadpod.Resource.Graphs.{Task, fact_of, serialize_for_insert, as_quads, exists}
use quadpod.Resource.Names.{IsData, IsShelf, shelf_key-IsShelf}
use quadpod.Resource.Graphs
use quadpod.Resource.Patches
use quadpod.Aux
use quadpod.Resource.Datasets
use quadpod.Resource.Datasets.{Crates, Shelf, split_graphs, place, registered_shelves, discard_blob}
use quadpod.Resource.Patches.{
  PatchResult, no_mapping, several_mappings, Written, patch_guarded, apply_mapping, write_patch,
  read_facts, substitute,
}
use quadpod.Aux.{put, patch, unlink_from, delete_update, subject_present_guard}
use quadpod.Aux.Subjects.{Sent}
use quadpod.Aux.Runs.{
  Leads, leads_rules, Leads-wrap, Leads-update, Leads-lift, Leads-bind, Leads-bind_ok, Leads-if,
  registered_shelves-IsShelf,
}
use quadpod.Resource.Split.{split_graphs-IsShelf}

module _ {HeaderValue W : Type 0} (crates : Crates HeaderValue) (b : Backend W)
    (holds : W → Text → Fact → Bool) (object : W → Text → Option Text)
    (laws : BackendLaws b holds object) (stem : Text) where
  exists-Leads : (iri : Text) → Leads b holds object laws stem (exists b iri)
  unfolding exists
  exists-Leads iri = search leads_rules

  pub registered_shelves-Leads :
      (r : ResourceUrl) → Leads b holds object laws stem (registered_shelves crates b r)
  unfolding registered_shelves
  registered_shelves-Leads r = search leads_rules

  discard_blob-Leads : (r : ResourceUrl) → Leads b holds object laws stem (discard_blob crates b r)
  unfolding discard_blob
  discard_blob-Leads r = elim (Option-cases (blob_key crates.encode r)) [
    | inl e ↦ rw (e, discard_blob) (search leads_rules)
    | inr (k, e) ↦ rw (e, discard_blob) (search leads_rules)
  ]

  pub put_dataset-Leads :
      (r : ResourceUrl) (d : Skolemized) (f : Format)
      → IsData stem r
      → Leads b holds object laws stem (Datasets.put_dataset crates b r d f)
  unfolding Datasets.put_dataset
  put_dataset-Leads r d f own =
      Leads-bind_ok (registered_shelves crates b r) _ (registered_shelves-Leads r) (λ old w wf e.
        let olds = registered_shelves-IsShelf crates b holds object laws stem r w wf e in
        let news =
          split_graphs-IsShelf (shelf_key crates.digest r) [] [] d
            (shelf_key-IsShelf crates.digest r) tt in
        let split = split_graphs (shelf_key crates.digest r) [] [] d in
        let sent = Sent.put_dataset r old split.0 split.1 (format_media_type f) own olds news in
        search (leads_rules, Leads-update _ sent, discard_blob-Leads))

  pub put_blob-Leads :
      (r : ResourceUrl) (bytes : Text) (mt : MediaType HeaderValue)
      → IsData stem r
      → Leads b holds object laws stem (Datasets.put_blob crates b r bytes mt)
  unfolding Datasets.put_blob
  put_blob-Leads r bytes mt own = elim (Option-cases (blob_key crates.encode r)) [
    | inl e ↦ rw (e, Datasets.put_blob) (search leads_rules)
    | inr (k, e) ↦
        rw (e, Datasets.put_blob)
          (Leads-bind_ok (registered_shelves crates b r) _ (registered_shelves-Leads r)
            (λ old w wf e'.
              let olds = registered_shelves-IsShelf crates b holds object laws stem r w wf e' in
              search (leads_rules, Leads-update _ (Sent.put_blob r old mt.raw own olds))))
  ]

  pub insert_marked-Leads :
      (r : ResourceUrl) (quads : Skolemized)
      → IsData stem r
      → Leads b holds object laws stem (Graphs.insert_marked b r.iri quads)
  unfolding Graphs.insert_marked
  insert_marked-Leads r quads own =
      search (leads_rules, Leads-update _ (Sent.insert_marked r (serialize_for_insert quads) own))

  pub put_rdf-Leads :
      (r : ResourceUrl) (triples : List Triple)
      → IsData stem r
      → Leads b holds object laws stem (Graphs.put_rdf b crates.fresh r.iri triples)
  unfolding Graphs.put_rdf
  put_rdf-Leads r triples own = search (
    leads_rules,
    Leads-update _
        (Sent.put_rdf r (serialize_for_insert (skolemize crates.fresh (as_quads triples))) own),
  )

  pub delete_aux-Leads :
      (r : ResourceUrl) (k : AuxKind)
      → IsData stem r
      → Leads b holds object laws stem (Graphs.delete_rdf b (aux_of r k).iri)
  unfolding Graphs.delete_rdf
  delete_aux-Leads r k own =
      search (leads_rules, exists-Leads, Leads-update _ (Sent.delete_aux r k own))

  pub put_aux-Leads :
      (r : ResourceUrl) (k : AuxKind) (triples : List Triple)
      → IsData stem r
      → Leads b holds object laws stem (put crates b (aux_of r k) triples)
  unfolding put
  put_aux-Leads r k triples own = search (
    leads_rules,
    exists-Leads,
    Leads-update _
        (Sent.put_aux r k (serialize_for_insert (skolemize crates.fresh (as_quads triples))) own),
  )

  -- A patch of a graph is one update of the form `modify`, if it comes to write at all.
  module _ (syntax_error : Text) (iri : Text) (guard : List Located)
      (sent : (ds is : List Fact) → Sent stem (modify iri ds is guard ∷ [])) where
    modify-Leads :
        (ds is : List Fact)
        → Leads b holds object laws stem (b.update (modify iri ds is guard ∷ []))
    modify-Leads ds is = Leads-update _ (sent ds is)

    write_patch-Leads :
        (ds is : List Written)
        → Leads b holds object laws stem (write_patch syntax_error b iri ds is guard)
    unfolding write_patch
    write_patch-Leads ds is = search (leads_rules, modify-Leads) depth 12

    apply_mapping-Leads :
        (p : Patch) (o : Option Solution)
        → Leads b holds object laws stem (apply_mapping syntax_error b iri p guard o)
    unfolding apply_mapping
    apply_mapping-Leads p o = search (leads_rules, write_patch-Leads)

    chosen-Leads :
        (p : Patch) (solutions : List Solution)
        → Leads b holds object laws stem {E = ResourceError} {A = PatchResult} (elim solutions [
          | [] ↦ pure no_mapping
          | s ∷ more ↦
              if is_empty more
              then apply_mapping syntax_error b iri p guard (some s)
              else pure several_mappings
        ])
    chosen-Leads p [] = search leads_rules
    chosen-Leads p (s ∷ more) = search (leads_rules, apply_mapping-Leads)

    patch_guarded-Leads :
        (p : Patch) → Leads b holds object laws stem (patch_guarded syntax_error b iri p guard)
    unfolding patch_guarded
    patch_guarded-Leads p = search (leads_rules, apply_mapping-Leads, chosen-Leads)

  pub patch_aux-Leads :
      (syntax_error : Text) (r : ResourceUrl) (k : AuxKind) (p : Patch)
      → IsData stem r
      → Leads b holds object laws stem (patch crates b syntax_error (aux_of r k) p)
  unfolding patch
  patch_aux-Leads syntax_error r k p own =
      let guarded =
        patch_guarded-Leads syntax_error (aux_of r k).iri (subject_present_guard (aux_of r k))
          (λ ds is. Sent.patch_aux r k ds is own) p in
      Leads-bind _ _ (search (leads_rules, exists-Leads)) (λ present.
        Leads-if present _ _
          (Leads-bind _ _ (Leads-wrap _ _ guarded) (λ result. search (leads_rules, exists-Leads)))
          (search (leads_rules, exists-Leads)))

  unlinked :
      (r : ResourceUrl) (old : List ShelfKey) (unlink : List Operation)
      → IsData stem r
      → All IsShelf old
      → unlink_from crates.valid_iri r ≡ ok unlink
      → Sent stem (delete_update r old unlink)
  unfolding unlink_from containment_removal
  unlinked r old unlink own olds h = elim (Option-cases (parent r)) [
    | inl e ↦
        let none_there : unlink ≡ [] = ground (arith, e) in
        rw none_there (Sent.delete_root r old own olds)
    | inr (p, e) ↦
        let one : unlink ≡ delete_data (container_iri p) (member_fact p r.iri ∷ []) ∷ [] =
          ground (arith, e) in
        rw one (Sent.delete_member r p old (member_fact p r.iri ∷ []) own e olds)
  ]

  pub delete_subject-Leads :
      (r : ResourceUrl)
      → IsData stem r
      → Leads b holds object laws stem (Aux.delete_subject crates b r)
  unfolding Aux.delete_subject
  delete_subject-Leads r own = Leads-bind (exists b r.iri) _ (exists-Leads r.iri) (λ existed.
      Leads-bind_ok (registered_shelves crates b r) _ (registered_shelves-Leads r) (λ old w wf e.
        let olds = registered_shelves-IsShelf crates b holds object laws stem r w wf e in
        Leads-bind_ok (lift (unlink_from crates.valid_iri r)) _ (Leads-lift _) (λ unlink w' wf' e'.
          let sent = unlinked r old unlink own olds (unfold lift in e') in
          search (leads_rules, Leads-update _ sent, discard_blob-Leads))))

  pub patch_dataset-Leads :
      (syntax_error : Text) (r : ResourceUrl) (p : Patch)
      → IsData stem r
      → Leads b holds object laws stem (Patches.patch_dataset syntax_error b r.iri p)
  unfolding Patches.patch_dataset
  patch_dataset-Leads syntax_error r p own =
      patch_guarded-Leads syntax_error r.iri [] (λ ds is. Sent.patch_dataset r ds is own) p
