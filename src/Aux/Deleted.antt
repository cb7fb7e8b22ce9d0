-- ===== src/Aux/Deleted.antt =====
-- What `delete_subject` of src/aux.rs leaves of a resource.
use mathlib.Core.Path.{fun_ext, subst}
use quadpod.Prelude.{
  ◌≡◌, ◌≢◌, refl, sym, ◌∙◌, ap, inl, inr, Bool, true, false, Option, none, some, List, [], ◌∷◌,
  ◌++◌, map, nat_eq, list_eq, text_eq, Text, Result, ok, member, Bool-cases, arith,
}
use quadpod.Space.{AuxKind, acl, ResourceUrl, ContainerUrl, container_iri, aux_of, parent}
use quadpod.Shelf.{ShelfKey, sys_has_subgraph}
use quadpod.Blob.{blob_key}
use quadpod.Store.{
  Fact, fact_eq, triple_of, Operation, objects, Backend, ◌>>◌, lift, pure, wrap_read, wrap_write,
}
use quadpod.Store.Laws.{Lists, effects, BackendLaws}
use quadpod.Store.Effects.{without, member-append}
use quadpod.Store.Actions.{bind_ok, wrap_write_ok, wrap_read_ok}
use quadpod.Container.Members.{member_fact}
use quadpod.Resource.{ResourceError, store, blob}
use quadpod.Resource.Graphs.{sys_graph_iri, present_fact, exists}
use quadpod.Resource.RoundTrip.{discard_blob-holds}
use quadpod.Resource.Reads.{
  Outcome, Reads, Reads-read, Reads-pure, Reads-bind, named_objects-Mem, Mem-named_objects,
}
use quadpod.Resource.Datasets.{
  Crates, named_objects, registered_shelves, discard_blob, subgraph_fact,
}
use quadpod.Aux.{delete_update, unlink_from, delete_subject}
use quadpod.Aux.System.{present}
use quadpod.Aux.Dropping.{
  own_graphs, member_unlinked, unlink_keeps, Unlinks, unlink_from-Unlinks, deleted_view, drops,
  stays_gone, Mem_of_member, member_of_Mem,
}

module _ {HeaderValue W : Type 0} (crates : Crates HeaderValue) (b : Backend W)
    (holds : W → Text → Fact → Bool) (object : W → Text → Option Text)
    (laws : BackendLaws b holds object) (u : ResourceUrl) (w w' : W) where
  abbrev pub Registered : Text → Type 0
  Registered g = holds w (sys_graph_iri u.iri) (subgraph_fact u.iri g) ≡ true

  pub record IsGone (existed : Bool) : Type 0 where
    pub told : existed ≡ present (holds w) u.iri
    pub own : (f : Fact) → holds w' u.iri f ≡ false
    pub system : (f : Fact) → holds w' (sys_graph_iri u.iri) f ≡ false
    pub auxiliary : (k : AuxKind) (f : Fact) → holds w' (aux_of u k).iri f ≡ false
    pub aux_system : (k : AuxKind) (f : Fact) → holds w' (sys_graph_iri (aux_of u k).iri) f ≡ false
    pub shelves : (g : Text) (f : Fact) → Registered g → holds w' g f ≡ false
    pub unlinked :
        (p : ContainerUrl)
        → parent u ≡ some p
        → holds w' (container_iri p) (member_fact p u.iri) ≡ false
    pub others :
        (g : Text) (f : Fact)
        → member g (own_graphs u) ≡ false
        → (Registered g → ⊥)
        → ((p : ContainerUrl) → parent u ≡ some p → (g ≡ container_iri p) → f ≢ member_fact p u.iri)
        → holds w' g f ≡ holds w g f
    pub bytes : (k : Text) → blob_key crates.encode u ≡ some k → object w' k ≡ none

  -- The keys that the registry lists, and the state that reading them leaves.
  record Listed (old : List ShelfKey) : Type 0 where
    only : (g : Text) → member g old ≡ true → Registered g
    every : (g : Text) → Registered g → member g old ≡ true

  registered_shelves-Listed : Reads w (registered_shelves crates b u) Listed
  unfolding registered_shelves
  registered_shelves-Listed =
      Reads-bind w _ _
        (λ ts.
          (fs : List Fact) × (ts ≡ map triple_of fs)
          × Lists (holds w) (sys_graph_iri u.iri) (objects u.iri sys_has_subgraph) fs)
        _ (Reads-read w _ _ (λ ts e. laws.constructed _ _ w ts e))
        (λ ts listed.
          let (fs, e, lists) = listed in
          Reads-pure w (named_objects ts) Listed (
            rw e (record {
              only = λ g m.
                  let (f, mf, o) = named_objects-Mem fs g (Mem_of_member g _ m) in
                  let (held, matched) = lists.sound f mf in
                  let same : subgraph_fact u.iri g ≡ f = cc (matched.0, matched.1, o) in
                  ap (holds w (sys_graph_iri u.iri)) same ∙ held;
              every = λ g held. member_of_Mem g _ (
                  Mem-named_objects fs (subgraph_fact u.iri g) g
                    (lists.complete (subgraph_fact u.iri g) held (refl, refl)) refl);
            })))

  record Deletion (existed : Bool) : Type 0 where
    old : List ShelfKey
    unlink : List Operation
    told : existed ≡ present (holds w) u.iri
    listed : Listed old
    unlinks : Unlinks u unlink
    view : holds w' ≡ effects unlink (without (old ++ own_graphs u) (holds w))
    bytes : (k : Text) → blob_key crates.encode u ≡ some k → object w' k ≡ none

  -- What the last three calls of a deletion leave.
  record Dropped (os : List Operation) (there existed : Bool) (w1 : W) : Type 0 where
    same : there ≡ existed
    view : holds w' ≡ effects os (holds w1)
    bytes : (k : Text) → blob_key crates.encode u ≡ some k → object w' k ≡ none

  discard_blob-bytes :
      (w1 w2 : W) (done : Unit {0})
      → discard_blob crates b u w1 ≡ (ok done, w2)
      → (k : Text) → blob_key crates.encode u ≡ some k
      → object w2 k ≡ none
  unfolding discard_blob wrap_write
  discard_blob-bytes w1 w2 done h k e =
      let runs : discard_blob crates b u w1 ≡ wrap_write blob (b.delete_blob k) w1 =
        rw (e, discard_blob) refl in
      let run : wrap_write blob (b.delete_blob k) w1 ≡ (ok done, w2) = sym runs ∙ h in
      let fine =
        wrap_write_ok blob (b.delete_blob k) w1
          (ap (λ (o : Result ResourceError (Unit {0}) × W). o.0) run) in
      let after : (b.delete_blob k w1).1 ≡ w2 =
        ap (λ (o : Result ResourceError (Unit {0}) × W). o.1) run in
      ap (λ x. object x k) (sym after)
      ∙ laws.deleted k k w1 fine
      ∙ ground (arith, (text_eq k k).1 refl)

  delete-Dropped :
      (os : List Operation) (there existed : Bool) (w1 : W)
      → (wrap_write store (b.update os) >> (discard_blob crates b u >> pure there)) w1
        ≡ (ok existed, w')
      → Dropped os there existed w1
  unfolding lift wrap_write
  delete-Dropped os there existed w1 h =
      let (sent, e4, h4) = bind_ok (wrap_write store (b.update os)) _ w1 w' h in
      let w2 : W = (b.update os w1).1 in
      let (done, e5, h5) = bind_ok (discard_blob crates b u) _ w2 w' h4 in
      let kept = discard_blob-holds crates b holds object laws u w2 in
      let last : (discard_blob crates b u w2).1 ≡ w' =
        ap (λ (o : Result ResourceError Bool × W). o.1) h5 in
      record {
        same = ground (arith, ap (λ (o : Result ResourceError Bool × W). o.0) h5);
        view =
            ap holds (sym last)
            ∙ kept
            ∙ fun_ext
                λ g. fun_ext λ f. laws.updated os w1 g f (wrap_write_ok store (b.update os) w1 e4);
        bytes = λ k e.
            ap (λ x. object x k) (sym last)
            ∙ discard_blob-bytes w2 (discard_blob crates b u w2).1 done
                (ap (λ r. (r, (discard_blob crates b u w2).1)) e5) k e;
      }

  delete_subject-Deletion :
      {existed : Bool} → delete_subject crates b u w ≡ (ok existed, w') → Deletion existed
  unfolding delete_subject exists lift wrap_read
  delete_subject-Deletion {existed} h =
      let (there, e1, h1) = bind_ok (exists b u.iri) _ w w' h in
      let asked =
        laws.asked (sys_graph_iri u.iri) (present_fact u.iri ∷ []) w there
          (wrap_read_ok store (b.ask (sys_graph_iri u.iri) (present_fact u.iri ∷ [])) w e1) in
      let (old, e2, h2) = bind_ok (registered_shelves crates b u) _ w w' h1 in
      let reads = registered_shelves-Listed in
      let w1 : W = (registered_shelves crates b u w).1 in
      let (unlink, e3, h3) = bind_ok (lift (unlink_from crates.valid_iri u)) _ w1 w' h2 in
      let rest = delete-Dropped (delete_update u old unlink) there existed w1 h3 in
      record {
        old = old;
        unlink = unlink;
        told = sym rest.same ∙ asked ∙ ground arith;
        listed = subst (Outcome Listed) e2 reads.answers;
        unlinks = unlink_from-Unlinks crates.valid_iri u unlink e3;
        view =
            rest.view
            ∙ deleted_view u old unlink (holds w1)
            ∙ ap (λ x. effects unlink (without (old ++ own_graphs u) (holds x))) reads.still;
        bytes = rest.bytes;
      }

  -- A deletion that answers `Ok` leaves nothing of the resource: neither its graph nor its system
  -- graph, nor those of its auxiliaries, no shelf that its registry listed, no membership in its
  -- parent and no bytes; every other fact stays, and the answer is whether it was present.
  pub delete_subject-IsGone :
      {existed : Bool} → delete_subject crates b u w ≡ (ok existed, w') → IsGone existed
  unfolding member
  delete_subject-IsGone h =
      let d = delete_subject-Deletion h in
      let at : (g : Text)
          → (f : Fact)
          → holds w' g f ≡ effects d.unlink (without (d.old ++ own_graphs u) (holds w)) g f =
        λ g f. ap (λ v. v g f) d.view in
      let gone : (g : Text) → (f : Fact) → drops u d.old g ≡ true → holds w' g f ≡ false = λ g f m.
        at g f
        ∙ stays_gone u d.unlink (without (d.old ++ own_graphs u) (holds w)) g f d.unlinks
            (ground (arith, m)) in
      let own : (g : Text) → member g (own_graphs u) ≡ true → drops u d.old g ≡ true =
        λ g m. ground (arith, member-append g d.old (own_graphs u), m) in
      record {
        told = d.told;
        own = λ f. gone u.iri f (own u.iri (ground (arith, (text_eq u.iri u.iri).1 refl)));
        system = λ f.
            gone _ f (
              own _ (ground (arith, (text_eq (sys_graph_iri u.iri) (sys_graph_iri u.iri)).1 refl)));
        auxiliary = λ k f. elim k [
          | acl ↦
              gone _ f
                (own _ (ground (arith, (text_eq (aux_of u acl).iri (aux_of u acl).iri).1 refl)))
        ];
        aux_system = λ k f. elim k [
          | acl ↦ gone _ f (
              own _ (
                ground (
                  arith,
                  (text_eq (sys_graph_iri (aux_of u acl).iri) (sys_graph_iri (aux_of u acl).iri)).1
                      refl,
                )))
        ];
        shelves = λ g f r.
            gone g f (ground (arith, member-append g d.old (own_graphs u), d.listed.every g r));
        unlinked = λ p e. at _ _ ∙ member_unlinked u d.unlink _ p d.unlinks e;
        others = λ g f m unlisted free.
            let not_old : member g d.old ≡ false = elim (Bool-cases (member g d.old)) [
              | inr e ↦ e
              | inl e ↦ absurd (unlisted (d.listed.only g e))
            ] in
            at g f
            ∙ unlink_keeps u d.unlink _ g f d.unlinks free
            ∙ ground (arith, member-append g d.old (own_graphs u), m, not_old);
        bytes = d.bytes;
      }
