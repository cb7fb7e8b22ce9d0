-- ===== src/Http/Gone.antt =====
-- The parts of a `DELETE` of src/http.rs: refusals, a graph that is dropped, and the test of a
-- container.

use quadpod.Prelude.{
  ◌≡◌, ◌≢◌, refl, sym, ◌∙◌, ap, inl, inr, Bool, true, false, Option, List, [], ◌∷◌, map, is_empty,
  nat_eq, list_eq, text_eq, Text, Result, ok, Bool-cases, Option-cases, arith,
}
use quadpod.Dataset.Ground.{GroundTerm}
use quadpod.Space.{ContainerUrl, Target, container_iri}
use quadpod.Store.{Fact, triple_of, objects, Backend, lift, wrap_read, wrap_write}
use quadpod.Store.Laws.{effect, effects, Lists, BackendLaws}
use quadpod.Store.Actions.{bind_ok, wrap_write_ok, wrap_read_ok}
use quadpod.Resource.{ResourceError, store}
use quadpod.Resource.Graphs.{exists, delete_rdf, dropped, present_fact, sys_graph_iri}
use quadpod.Resource.Names.{ne_test}
use quadpod.Resource.Reads.{Reads, Reads-read, Reads-pure, Reads-bind}
use quadpod.Container.{ldp_contains}
use quadpod.Container.Members.{container_is_empty}
use quadpod.Aux.System.{present}
use quadpod.Wac.Guard.{Denial, unauthenticated, forbidden, aux_subject_missing, slash_pair}
use quadpod.Notify.Emit.{is_success}
use quadpod.Http.{Response, aux_links, with_aux_links, denial_response}
use quadpod.Http.Delete.{refused}

pub with_aux_links-status :
    (res : Response) (t : Target) → (with_aux_links res t).status ≡ res.status
unfolding with_aux_links
with_aux_links-status res t = elim (Option-cases (aux_links t)) [
  | inl e ↦ rw (e, with_aux_links) refl
  | inr (v, e) ↦ rw (e, with_aux_links) refl
]

pub refused_not_success : (d : Denial) (t : Target) → is_success (refused d t).status ≡ false
unfolding denial_response
refused_not_success unauthenticated t =
    rw (with_aux_links-status (denial_response unauthenticated) t) refl
refused_not_success forbidden t = rw (with_aux_links-status (denial_response forbidden) t) refl
refused_not_success aux_subject_missing t =
    rw (with_aux_links-status (denial_response aux_subject_missing) t) refl
refused_not_success slash_pair t = rw (with_aux_links-status (denial_response slash_pair) t) refl
refused_not_success (Denial.store e) t =
    rw (with_aux_links-status (denial_response (Denial.store e)) t) refl

module _ {W : Type 0} (b : Backend W) (holds : W → Text → Fact → Bool)
    (object : W → Text → Option Text) (laws : BackendLaws b holds object) (w : W) where
  pub record GraphGone (iri : Text) (existed : Bool) (w' : W) : Type 0 where
    pub told : existed ≡ present (holds w) iri
    pub own : (f : Fact) → holds w' iri f ≡ false
    pub system : (f : Fact) → holds w' (sys_graph_iri iri) f ≡ false
    pub others :
        (g : Text) (f : Fact) → g ≢ iri → g ≢ sys_graph_iri iri → holds w' g f ≡ holds w g f

  pub delete_rdf-GraphGone :
      (iri : Text) (existed : Bool) (w' : W)
      → delete_rdf b iri w ≡ (ok existed, w')
      → GraphGone iri existed w'
  unfolding delete_rdf exists lift wrap_read wrap_write effects effect
  delete_rdf-GraphGone iri existed w' h =
      let (there, e1, h1) = bind_ok (exists b iri) _ w w' h in
      let asked =
        laws.asked (sys_graph_iri iri) (present_fact iri ∷ []) w there
          (wrap_read_ok store (b.ask (sys_graph_iri iri) (present_fact iri ∷ [])) w e1) in
      let (sent, e2, h2) = bind_ok (wrap_write store (b.update (dropped iri))) _ w w' h1 in
      let last : (b.update (dropped iri) w).1 ≡ w' =
        ap (λ (o : Result ResourceError Bool × W). o.1) h2 in
      let same : there ≡ existed =
        ground (arith, ap (λ (o : Result ResourceError Bool × W). o.0) h2) in
      let view : (g : Text) → (f : Fact) → holds w' g f ≡ effects (dropped iri) (holds w) g f =
        λ g f.
          ap (λ x. holds x g f) (sym last)
          ∙ laws.updated (dropped iri) w g f (wrap_write_ok store (b.update (dropped iri)) w e2) in
      record {
        told = sym same ∙ asked ∙ ground arith;
        own = λ f. view iri f ∙ ground (arith, (text_eq iri iri).1 refl);
        system = λ f.
            view (sys_graph_iri iri) f
            ∙ ground (arith, (text_eq (sys_graph_iri iri) (sys_graph_iri iri)).1 refl);
        others = λ g f m n.
            view g f
            ∙ ground (
              arith,
              ne_test iri g (λ e. m (sym e)),
              ne_test (sys_graph_iri iri) g (λ e. n (sym e)),
            );
      }

  abbrev pub HasNoMember : ContainerUrl → Type 0
  HasNoMember c =
      (o : GroundTerm)
      → holds w (container_iri c)
          (record { subject = container_iri c; predicate = ldp_contains; object = o })
        ≡ false

  pub container_is_empty-HasNoMember :
      (c : ContainerUrl) → Reads w (container_is_empty b c) (λ empty. empty ≡ true → HasNoMember c)
  unfolding container_is_empty
  container_is_empty-HasNoMember c =
      Reads-bind w _ _
        (λ ts.
          (fs : List Fact) × (ts ≡ map triple_of fs)
          × Lists (holds w) (container_iri c) (objects (container_iri c) ldp_contains) fs)
        _ (Reads-read w _ _ (λ ts e. laws.constructed _ _ w ts e))
        (λ ts listed.
          let (fs, e, lists) = listed in
          Reads-pure w _ _ (λ empty o. no_member fs lists (ap (λ x. is_empty x) (sym e) ∙ empty) o))
    where
      no_member :
          (fs : List Fact)
          → Lists (holds w) (container_iri c) (objects (container_iri c) ldp_contains) fs
          → is_empty (map triple_of fs) ≡ true
          → HasNoMember c
      no_member (f ∷ fs) lists empty o = absurd (ground (arith, empty))
      no_member [] lists empty o =
          let member : Fact = record {
            subject = container_iri c;
            predicate = ldp_contains;
            object = o;
          } in
          elim (Bool-cases (holds w (container_iri c) member)) [
            | inr e ↦ e
            | inl e ↦ elim (lists.complete member e (refl, refl)) [ ]
          ]
