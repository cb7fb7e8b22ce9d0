-- ===== src/Aux/Planted.antt =====
-- What `put` of src/aux.rs did, by its answer.
use mathlib.Core.Path.{subst}
use quadpod.Prelude.{
  ◌≡◌, ◌≢◌, ◌<◌, ◌≤◌, refl, sym, ◌∙◌, ap, inl, inr, Bool, true, false, List, [], ◌∷◌, Option, all,
  length, ltb, if◌then◌else◌, nat_eq, list_eq, text_eq, Text, Result, ok, err, Bool-cases,
  Result-cases, arith,
}
use quadpod.Terms.{Triple}
use quadpod.Dataset.Ground.{skolemize}
use quadpod.Space.{AuxKind, ResourceUrl, aux_of}
use quadpod.Store.{Fact, fact_eq, Operation, Backend, ◌>>=◌, lift, wrap_read, wrap_write}
use quadpod.Store.Laws.{has, effect, effects, BackendLaws}
use quadpod.Store.Effects.{fact_eq_iff}
use quadpod.Resource.{store}
use quadpod.Resource.Graphs.{sys_graph_iri, present_fact, as_quads, serialize_for_insert, exists}
use quadpod.Resource.Names.{IsData, ne_test, aux-ne-sys}
use quadpod.Resource.Datasets.{Crates}
use quadpod.Aux.{
  AuxError, subject_missing, missing, too_large, resource, max_aux_triples, put,
  conditional_put_update, subject_present_guard,
}
use quadpod.Aux.System.{present, conditional_put_update-sys}
use quadpod.Aux.Subjects.{WellFormed}

module _ {HeaderValue W : Type 0} (crates : Crates HeaderValue) (b : Backend W)
    (holds : W → Text → Fact → Bool) (object : W → Text → Option Text)
    (laws : BackendLaws b holds object) (stem : Text) (u : ResourceUrl) (k : AuxKind)
    (triples : List Triple) (w w' : W) where
  -- The body as it is stored.
  abbrev pub body : List Fact
  body = serialize_for_insert (skolemize crates.fresh (as_quads triples))

  abbrev aux_iri : Text
  aux_iri = (aux_of u k).iri

  pub record Planted : Type 0 where
    pub small : length triples ≤ max_aux_triples
    pub subject : present (holds w) u.iri ≡ true
    pub marked : present (holds w') aux_iri ≡ true
    pub content : (f : Fact) → holds w' aux_iri f ≡ has f body
    pub others :
        (g : Text) (f : Fact) → g ≢ aux_iri → g ≢ sys_graph_iri aux_iri → holds w' g f ≡ holds w g f

  pub record Refused : Type 0 where
    pub no_subject : present (holds w) u.iri ≡ false
    pub unchanged : (g : Text) (f : Fact) → holds w' g f ≡ holds w g f

  abbrev pub Answers : Result AuxError (Unit {0}) → Type 0
  Answers (ok _) = Planted
  Answers (err subject_missing) = Refused
  Answers (err missing) = ⊥
  Answers (err (too_large n)) = (n ≡ length triples) × (max_aux_triples < n) × (w' ≡ w)
  Answers (err (resource e)) = (t : Text) × (e ≡ store t)

  abbrev sent : List Operation
  sent = conditional_put_update (aux_of u k) body

  module _ (own : IsData stem u) (wf : WellFormed stem (holds w)) where
    planted :
        length triples ≤ max_aux_triples
        → present (holds w) u.iri ≡ true
        → ((g : Text) (f : Fact) → holds w' g f ≡ effects sent (holds w) g f)
        → Planted
    unfolding conditional_put_update effects effect subject_present_guard aux_of
    planted small subject view = record {
      small = small;
      subject = subject;
      marked =
          view (sys_graph_iri aux_iri) (present_fact aux_iri)
          ∙ conditional_put_update-sys stem u own (holds w) aux_iri (present_fact aux_iri) k body
          ∙ ground (
            arith,
            subject,
            text_eq aux_iri aux_iri,
            (fact_eq_iff (present_fact aux_iri) (present_fact aux_iri)).1 refl,
          );
      content = λ f.
          view aux_iri f
          ∙ ground (
            arith,
            subject,
            text_eq aux_iri aux_iri,
            ne_test aux_iri (sys_graph_iri u.iri) (aux-ne-sys stem u k own u.iri),
            ne_test (sys_graph_iri aux_iri) aux_iri (λ e. aux-ne-sys stem u k own aux_iri (sym e)),
          );
      others = λ g f d e.
          view g f
          ∙ ground (
            arith,
            ne_test aux_iri g (λ x. d (sym x)),
            ne_test (sys_graph_iri aux_iri) g (λ x. e (sym x)),
          );
    }

    refused :
        present (holds w) u.iri ≡ false
        → ((g : Text) (f : Fact) → holds w' g f ≡ effects sent (holds w) g f)
        → Refused
    unfolding conditional_put_update effects effect subject_present_guard aux_of
    refused none_there view = record {
      no_subject = none_there;
      unchanged = λ g f. view g f ∙ ground (arith, none_there);
    }

    -- The `ASK` after the update tells whether the subject was there.
    landing :
        (landed : Bool)
        → length triples ≤ max_aux_triples
        → landed
          ≡ all (holds (b.update sent w).1 (sys_graph_iri aux_iri)) (present_fact aux_iri ∷ [])
        → ((g : Text) (f : Fact) → holds (b.update sent w).1 g f ≡ effects sent (holds w) g f)
        → w' ≡ (b.update sent w).1
        → Answers (if landed then ok tt else err subject_missing)
    landing landed small seen view e = elim (Bool-cases (present (holds w) u.iri)) [
      | inl there ↦
          let p = planted small there (
            subst (λ x. (g : Text) (f : Fact) → holds x g f ≡ effects sent (holds w) g f) (sym e)
              view) in
          let yes_landed : landed ≡ true =
            seen ∙ ground (arith, p.marked, ap (λ (x : W). present (holds x) aux_iri) e) in
          rw yes_landed p
      | inr absent ↦
          let q = refused absent (
            subst (λ x. (g : Text) (f : Fact) → holds x g f ≡ effects sent (holds w) g f) (sym e)
              view) in
          let before : present (holds w) aux_iri ≡ false =
            elim (Bool-cases (present (holds w) aux_iri)) [
              | inl marked ↦ absurd (ground (arith, wf.guarded u k own marked, absent))
              | inr unmarked ↦ unmarked
            ] in
          let not_landed : landed ≡ false =
            seen
            ∙ ground (
              arith,
              ap (λ (x : W). present (holds x) aux_iri) e,
              q.unchanged (sys_graph_iri aux_iri) (present_fact aux_iri),
              before,
            ) in
          rw not_landed q
    ]

    -- In a well-formed store, what `put` of an auxiliary of a document or container of the space
    -- answers says what it did: on `Ok` the subject was there, the auxiliary is marked as present and
    -- holds the body and nothing else, and no other graph changed; without a subject, or with too
    -- many triples, nothing changed; any other failure is the store's.
    pub put-Answers :
        {answer : Result AuxError (Unit {0})}
        → put crates b (aux_of u k) triples w ≡ (answer, w')
        → Answers answer
    unfolding put ◌>>=◌ lift wrap_write wrap_read exists
    put-Answers {answer} h = elim (Bool-cases (ltb max_aux_triples (length triples))) [
      | inl large ↦
          let run : put crates b (aux_of u k) triples w ≡ (err (too_large (length triples)), w) =
            ground (arith, large) in
          subst Answers (ap (λ (o : Result AuxError (Unit {0}) × W). o.0) (sym run ∙ h)) (
            refl,
            ground (arith, large),
            ap (λ (o : Result AuxError (Unit {0}) × W). o.1) (sym h ∙ run),
          )
      | inr small ↦ elim (Result-cases (b.update sent w).0) [
        | inr (t, e) ↦
            let run : put crates b (aux_of u k) triples w
                ≡ (err (resource (store t)), (b.update sent w).1) =
              ground (arith, small, e) in
            subst Answers (ap (λ (o : Result AuxError (Unit {0}) × W). o.0) (sym run ∙ h))
              ((t, refl))
        | inl (done, e) ↦
            elim (Result-cases
              (b.ask (sys_graph_iri aux_iri) (present_fact aux_iri ∷ []) (b.update sent w).1)) [
                | inr (t, a) ↦
                    let run : put crates b (aux_of u k) triples w
                        ≡ (err (resource (store t)), (b.update sent w).1) =
                      ground (arith, small, e, a) in
                    subst Answers (ap (λ (o : Result AuxError (Unit {0}) × W). o.0) (sym run ∙ h))
                      ((t, refl))
                | inl (landed, a) ↦
                    let run : put crates b (aux_of u k) triples w
                        ≡ (if landed then ok tt else err subject_missing, (b.update sent w).1) =
                      ground (arith, small, e, a) in
                    subst Answers (ap (λ (o : Result AuxError (Unit {0}) × W). o.0) (sym run ∙ h)) (
                      landing landed (ground (arith, small))
                        (laws.asked _ _ (b.update sent w).1 landed a)
                        (λ g f. laws.updated sent w g f e)
                        (ap (λ (o : Result AuxError (Unit {0}) × W). o.1) (sym h ∙ run)))
              ]
      ]
    ]
