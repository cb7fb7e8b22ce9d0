-- ===== src/Aux/Subjects.antt =====
-- The updates that src/resource.rs, src/container.rs and src/aux.rs send, and what makes a store
-- well formed: the changes of its system graphs that keep it so.

use quadpod.Prelude.{
  ◌≡◌, ◌≢◌, sym, ◌∙◌, ap, inl, inr, Bool, true, false, ◌&&◌, ◌||◌, List, [], ◌∷◌, ◌++◌, All, some,
  if◌then◌else◌, ◌==◌, nat_eq, list_eq, text_eq, Text, Bool-cases, arith,
}
use quadpod.Dataset.Ground.{GroundTerm}
use quadpod.Space.{AuxKind, acl, ResourceUrl, ContainerUrl, container_iri, aux_of, parent}
use quadpod.Shelf.{ShelfKey, shelf_prefix, sys_has_subgraph}
use quadpod.Store.{Fact, fact_eq, Operation, drop_silent, delete_data, modify}
use quadpod.Store.Laws.{View, has}
use quadpod.Store.Effects.{fact_eq_iff}
use quadpod.Resource.Graphs.{present_fact, marked, dropped}
use quadpod.Resource.Names.{IsData, IsShelf, ne_test, aux-ne-data, aux-injective, aux-congruent}
use quadpod.Resource.Datasets.{Shelf, dataset_update, blob_update}
use quadpod.Aux.{subject_present_guard, conditional_put_update, delete_update}
use quadpod.Aux.System.{sys_of, present}

-- The updates that the code sends, by the function that sends them.
pub data Sent (stem : Text) : List Operation → Type 0 where
  put_dataset :
      (u : ResourceUrl) (old : List ShelfKey) (default : List Fact) (shelves : List Shelf)
      (mt : Text)
      → IsData stem u
      → All IsShelf old
      → All (λ (s : Shelf). IsShelf s.key) shelves
      → Sent stem (dataset_update u.iri old default shelves mt)
  put_blob :
      (u : ResourceUrl) (old : List ShelfKey) (mt : Text)
      → IsData stem u
      → All IsShelf old
      → Sent stem (blob_update u.iri old mt)
  insert_marked :
      (u : ResourceUrl) (body : List Fact) → IsData stem u → Sent stem (marked u.iri body)
  put_rdf :
      (u : ResourceUrl) (body : List Fact)
      → IsData stem u
      → Sent stem (drop_silent u.iri ∷ marked u.iri body)
  patch_dataset :
      (u : ResourceUrl) (deleted inserted : List Fact)
      → IsData stem u
      → Sent stem (modify u.iri deleted inserted [] ∷ [])
  put_aux :
      (u : ResourceUrl) (k : AuxKind) (body : List Fact)
      → IsData stem u
      → Sent stem (conditional_put_update (aux_of u k) body)
  patch_aux :
      (u : ResourceUrl) (k : AuxKind) (deleted inserted : List Fact)
      → IsData stem u
      → Sent stem
          (modify (aux_of u k).iri deleted inserted (subject_present_guard (aux_of u k)) ∷ [])
  delete_aux :
      (u : ResourceUrl) (k : AuxKind) → IsData stem u → Sent stem (dropped (aux_of u k).iri)
  delete_root :
      (u : ResourceUrl) (old : List ShelfKey)
      → IsData stem u
      → All IsShelf old
      → Sent stem (delete_update u old [])
  delete_member :
      (u : ResourceUrl) (p : ContainerUrl) (old : List ShelfKey) (links : List Fact)
      → IsData stem u
      → parent u ≡ some p
      → All IsShelf old
      → Sent stem (delete_update u old (delete_data (container_iri p) links ∷ []))

abbrev pub IsShelfLink : Fact → Type 0
IsShelfLink f = (n : Text) × (f.object ≡ GroundTerm.named_node (shelf_prefix ++ n))

-- An auxiliary that is present has a subject that is present, and the registry lists only shelves.
pub record WellFormed (stem : Text) (v : View) : Type 0 where
  pub guarded :
      (u : ResourceUrl) (k : AuxKind)
      → IsData stem u
      → present v (aux_of u k).iri ≡ true
      → present v u.iri ≡ true
  pub registered :
      (x : Text) (f : Fact) → sys_of v x f ≡ true → f.predicate ≡ sys_has_subgraph → IsShelfLink f

no_link : (x : Text) (f : Fact) → (present_fact x == f) ≡ true → f.predicate ≢ sys_has_subgraph
no_link x f h p =
    let e : present_fact x ≡ f = (fact_eq_iff (present_fact x) f).0 h in
    absurd (ground (arith, ap (λ (g : Fact). g.predicate) e, p))

module _ (stem : Text) (v v' : View) (wf : WellFormed stem v) where
  -- The facts about one resource are replaced by those of `registry`.
  pub replaced :
      (u : ResourceUrl) (registry : List Fact)
      → IsData stem u
      → has (present_fact u.iri) registry ≡ true
      → ((f : Fact) → has f registry ≡ true → f.predicate ≡ sys_has_subgraph → IsShelfLink f)
      → ((x : Text) (f : Fact)
          → sys_of v' x f ≡ (if u.iri == x then has f registry else sys_of v x f))
      → WellFormed stem v'
  replaced u registry d marks links change = record {
    guarded = λ w k dw h. elim (Bool-cases (u.iri == w.iri)) [
      | inl same ↦
          let e : u.iri ≡ w.iri = (text_eq u.iri w.iri).0 same in
          change w.iri (present_fact w.iri) ∙ rw (← e) (ground (arith, text_eq u.iri u.iri))
      | inr other ↦
          let apart = ne_test u.iri (aux_of w k).iri (λ e. aux-ne-data stem w u k dw d (sym e)) in
          let before : present v (aux_of w k).iri ≡ true =
            rw apart at (sym (change (aux_of w k).iri (present_fact (aux_of w k).iri)) ∙ h) in
          change w.iri (present_fact w.iri) ∙ rw other (wf.guarded w k dw before)
    ];
    registered = λ x f h p. elim (Bool-cases (u.iri == x)) [
      | inl same ↦ links f (rw same at (sym (change x f) ∙ h)) p
      | inr other ↦ wf.registered x f (rw other at (sym (change x f) ∙ h)) p
    ];
  }

  -- One resource is marked, or nothing changes.
  pub marked_too :
      (u : ResourceUrl)
      → IsData stem u
      → ((x : Text) (f : Fact)
          → sys_of v' x f ≡ (sys_of v x f || (u.iri == x && present_fact u.iri == f)))
      → WellFormed stem v'
  marked_too u d change = record {
    guarded = λ w k dw h.
        let before = wf.guarded w k dw (
          ground (
            arith,
            change (aux_of w k).iri (present_fact (aux_of w k).iri),
            h,
            ne_test u.iri (aux_of w k).iri (λ e. aux-ne-data stem w u k dw d (sym e)),
          )) in
        change w.iri (present_fact w.iri) ∙ rw before;
    registered = λ x f h p. elim (Bool-cases (sys_of v x f)) [
      | inl old ↦ wf.registered x f old p
      | inr new ↦ absurd (no_link u.iri f (ground (arith, change x f, h, new)) p)
    ];
  }

  pub unchanged : ((x : Text) (f : Fact) → sys_of v' x f ≡ sys_of v x f) → WellFormed stem v'
  unchanged change = record {
    guarded = λ w k dw h.
        change w.iri (present_fact w.iri)
        ∙ wf.guarded w k dw (sym (change (aux_of w k).iri (present_fact (aux_of w k).iri)) ∙ h);
    registered = λ x f h p. wf.registered x f (sym (change x f) ∙ h) p;
  }

  -- An auxiliary is marked if its subject is.
  pub aux_marked :
      (u : ResourceUrl) (j : AuxKind)
      → IsData stem u
      → ((x : Text) (f : Fact)
          → sys_of v' x f ≡ (
              sys_of v x f
              || (present v u.iri
                  && ((aux_of u j).iri == x && present_fact (aux_of u j).iri == f))))
      → WellFormed stem v'
  aux_marked u j d change = record {
    guarded = λ w k dw h.
        let before : present v w.iri ≡ true = elim (Bool-cases (present v (aux_of w k).iri)) [
          | inl old ↦ wf.guarded w k dw old
          | inr new ↦
              let c = change (aux_of w k).iri (present_fact (aux_of w k).iri) in
              let same : (aux_of u j).iri ≡ (aux_of w k).iri =
                (text_eq (aux_of u j).iri (aux_of w k).iri).0 (ground (arith, c, h, new)) in
              let guard : present v u.iri ≡ true = ground (arith, c, h, new) in
              ap (present v) (sym (aux-injective stem u w j k d dw same)) ∙ guard
        ] in
        change w.iri (present_fact w.iri) ∙ rw before;
    registered = λ x f h p. elim (Bool-cases (sys_of v x f)) [
      | inl old ↦ wf.registered x f old p
      | inr new ↦ absurd (no_link (aux_of u j).iri f (ground (arith, change x f, h, new)) p)
    ];
  }

  -- An auxiliary goes, with its subject or alone.
  pub aux_gone :
      (u : ResourceUrl) (j : AuxKind) (both : Bool)
      → IsData stem u
      → ((x : Text) (f : Fact)
          → sys_of v' x f
            ≡ (if (both && u.iri == x) || (aux_of u j).iri == x then false else sys_of v x f))
      → WellFormed stem v'
  aux_gone u acl both d change = record {
    guarded = λ w acl dw h.
        let c = change (aux_of w acl).iri (present_fact (aux_of w acl).iri) in
        let before : present v w.iri ≡ true = wf.guarded w acl dw (ground (arith, c, h)) in
        let kept : ((aux_of u acl).iri == (aux_of w acl).iri) ≡ false = ground (arith, c, h) in
        let apart : (u.iri == w.iri) ≡ false = ne_test u.iri w.iri (λ e. cc (
          kept,
          (text_eq (aux_of u acl).iri (aux_of w acl).iri).1 (aux-congruent stem u w acl d dw e),
        )) in
        change w.iri (present_fact w.iri)
        ∙ ground (
          arith,
          apart,
          before,
          ne_test (aux_of u acl).iri w.iri (aux-ne-data stem u w acl d dw),
        );
    registered = λ x f h p. wf.registered x f (ground (arith, change x f, h)) p;
  }
