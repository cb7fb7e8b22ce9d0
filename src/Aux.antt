-- ===== src/Aux.antt =====
-- src/aux.rs: auxiliaries, which exist only for an existing subject and die with it.
pub mod System
pub mod Subjects
pub mod Kept
pub mod Runs
pub mod Writes
pub mod Calls
pub mod Planted
pub mod Dropping
pub mod Deleted
mod Tests
use quadpod.Prelude.{
  ℕ, Bool, Option, none, some, List, [], ◌∷◌, ◌++◌, map, length, ltb, if◌then◌else◌, Text, Result,
  ok, err,
}
use quadpod.Terms.{Triple}
use quadpod.Dataset.Ground.{skolemize}
use quadpod.Space.{AuxKind, ResourceUrl, AuxUrl, all_kinds, aux_of, parent}
use quadpod.Store.{
  Fact, Located, Operation, drop_silent, clear_where, insert_where, Backend, Action, ◌>>=◌, ◌>>◌,
  lift, pure, raise, wrap_write,
}
use quadpod.Shelf.{ShelfKey}
use quadpod.Patch.{Patch}
use quadpod.Container.Members.{containment_removal}
use quadpod.Resource.{ResourceError, store}
use quadpod.Resource.Graphs.{
  Task, sys_graph_iri, present_fact, as_quads, serialize_for_insert, exists,
}
use quadpod.Resource.Datasets.{Crates, registered_shelves, discard_blob}
use quadpod.Resource.Patches.{PatchResult, patch_guarded}

pub data AuxError : Type 0 where
  subject_missing missing : AuxError
  too_large : ℕ → AuxError
  resource : ResourceError → AuxError

abbrev pub max_aux_triples : ℕ
max_aux_triples = 1000

unfoldable pub subject_present_guard : AuxUrl → List Located
subject_present_guard a = (sys_graph_iri a.subject.iri, present_fact a.subject.iri) ∷ []

-- The update of `put`, for a body that is ground already.
unfoldable pub conditional_put_update : AuxUrl → List Fact → List Operation
conditional_put_update a body =
    clear_where a.iri (subject_present_guard a)
    ∷ insert_where ((a.iri, body) ∷ (sys_graph_iri a.iri, present_fact a.iri ∷ []) ∷ [])
        (subject_present_guard a)
    ∷ []

-- The drops of an auxiliary of each kind.
unfoldable pub drop_auxiliaries : ResourceUrl → List AuxKind → List Operation
drop_auxiliaries subject [] = []
drop_auxiliaries subject (k ∷ ks) =
    drop_silent (aux_of subject k).iri
    ∷ drop_silent (sys_graph_iri (aux_of subject k).iri)
    ∷ drop_auxiliaries subject ks

-- The update of `delete_subject`: `old` are the shelves that the registry lists, `unlink` takes the
-- subject out of its parent.
unfoldable pub delete_update : ResourceUrl → List ShelfKey → List Operation → List Operation
delete_update subject old unlink =
    map drop_silent (old ++ subject.iri ∷ sys_graph_iri subject.iri ∷ [])
    ++ (drop_auxiliaries subject all_kinds ++ unlink)

unfoldable pub unlink_from : (Text → Bool) → ResourceUrl → Result ResourceError (List Operation)
unlink_from valid_iri subject = elim (parent subject) [
  | none ↦ ok []
  | some p ↦ elim (containment_removal valid_iri p subject.iri) [
    | ok o ↦ ok (o ∷ [])
    | err e ↦ err e
  ]
]

module _ {HeaderValue W : Type 0} (crates : Crates HeaderValue) (b : Backend W) where
  -- A call of src/resource.rs, with `?` into `AuxError`.
  abbrev resource_call : {A : Type 0} → Task b A → Action W AuxError A
  resource_call m = wrap_write resource m

  unfoldable pub put : AuxUrl → List Triple → Action W AuxError (Unit {0})
  put a triples =
      if ltb max_aux_triples (length triples) then raise (too_large (length triples)) else (do
        let body = serialize_for_insert (skolemize crates.fresh (as_quads triples))
        resource_call (wrap_write store (b.update (conditional_put_update a body)))
        landed ← resource_call (exists b a.iri)
        if landed then pure tt else raise subject_missing)

  unfoldable pub patch : Text → AuxUrl → Patch → Action W AuxError PatchResult
  patch syntax_error a p = do
    present ← resource_call (exists b a.iri)
    if present
        then (do
          result ← resource_call (patch_guarded syntax_error b a.iri p (subject_present_guard a))
          still ← resource_call (exists b a.iri)
          if still then pure result else raise subject_missing)
        else (do
          subject ← resource_call (exists b a.subject.iri)
          if subject then raise missing else raise subject_missing)

  unfoldable pub delete_subject : ResourceUrl → Task b Bool
  delete_subject subject = do
    existed ← exists b subject.iri
    old ← registered_shelves crates b subject
    unlink ← lift (unlink_from crates.valid_iri subject)
    wrap_write store (b.update (delete_update subject old unlink))
    discard_blob crates b subject
    pure existed
