-- ===== src/Notify/Events.antt =====
-- Which events a write publishes, in src/notify.rs: the calls of an emit as one list of events.
use quadpod.Prelude.{
  ℕ, ◌≡◌, refl, ap, sym, ◌∙◌, true, false, not, Option, none, some, List, [], ◌∷◌, ◌++◌, map, All,
  retain, is_some, if◌then◌else◌, ◌==◌, nat_eq, list_eq, Text, arith, Bool-cases, Result-cases, inl,
  inr, ok,
}
use quadpod.Space.{
  ResourceUrl, ContainerUrl, AuxUrl, Target, container, aux, as_container, graph_iri,
}
use quadpod.Container.{Write}
use quadpod.Wac.Guard.{Guard}
use quadpod.Wac.Guard.Materialize.{plan, Materialized, materialize}
use quadpod.Wac.Guard.Plans.{IsProbed}
use quadpod.Wac.Guard.Created.{is_announced, plan-creations}
use quadpod.Notify.{create, delete, Event, Broadcast, World}
use quadpod.Notify.Emit.{
  Existence, is_success, activity_of, gated, own_event, add_event, remove_event, publish_own,
  publish_created, publish_linked, publish_containment, emit_put, publish_deleted, parent_of,
  emit_delete,
}

module _ {Channels : Type 0} (b : Broadcast Channels) (state_of : Target → Option Text) where
  -- Events sent through the gate one after the other.
  unfoldable pub announce : List Event → World Channels → World Channels
  announce [] w = w
  announce (e ∷ es) w = announce es (gated b state_of e w)

  abbrev created_event : ResourceUrl → Event
  created_event r = own_event b state_of (container (record { as_resource = r })) create

  -- A create for each new container, and an add for each link.
  abbrev pub containment_events : Text → Materialized → List Event
  containment_events target_iri m =
      map created_event (retain (λ r. not (r.iri == target_iri)) m.created)
      ++ map (add_event b state_of) m.linked

  announce-append :
      (es fs : List Event) (w : World Channels)
      → announce (es ++ fs) w ≡ announce fs (announce es w)
  unfolding announce
  announce-append [] fs w = refl
  announce-append (e ∷ es) fs w = announce-append es fs (gated b state_of e w)

  as_container-some :
      (r : ResourceUrl)
      → is_some (as_container r) ≡ true
      → as_container r ≡ some (record { as_resource = r })
  unfolding as_container
  as_container-some r h = ground arith

  publish_created_next :
      (target_iri : Text) (r : ResourceUrl) (created : List ResourceUrl) (w : World Channels)
      → (r.iri == target_iri) ≡ false
      → is_announced target_iri r ≡ true
      → publish_created b state_of target_iri (r ∷ created) w
        ≡ publish_created b state_of target_iri created (gated b state_of (created_event r) w)
  unfolding publish_created publish_own
  publish_created_next target_iri r created w other h =
      let made : as_container r ≡ some (record { as_resource = r }) =
        as_container-some r (ground arith) in
      rw (other, made) refl

  publish_created-announce :
      (target_iri : Text) (created : List ResourceUrl) (w : World Channels)
      → All (λ r. is_announced target_iri r ≡ true) created
      → publish_created b state_of target_iri created w
        ≡ announce (map created_event (retain (λ r. not (r.iri == target_iri)) created)) w
  unfolding publish_created announce
  publish_created-announce target_iri [] w h = refl
  publish_created-announce target_iri (r ∷ created) w h = elim (Bool-cases (r.iri == target_iri)) [
    | inl own ↦ rw own (publish_created-announce target_iri created w (h.1))
    | inr other ↦
        publish_created_next target_iri r created w other (h.0)
        ∙ publish_created-announce target_iri created (gated b state_of (created_event r) w) (h.1)
        ∙ rw other refl
  ]

  publish_linked-announce :
      (linked : List (ContainerUrl × Text)) (w : World Channels)
      → publish_linked b state_of linked w ≡ announce (map (add_event b state_of) linked) w
  unfolding publish_linked announce
  publish_linked-announce [] w = refl
  publish_linked-announce (l ∷ linked) w =
      publish_linked-announce linked (gated b state_of (add_event b state_of l) w)

  publish_containment-announce :
      (target_iri : Text) (m : Materialized) (w : World Channels)
      → All (λ r. is_announced target_iri r ≡ true) m.created
      → publish_containment b state_of target_iri m w ≡ announce (containment_events target_iri m) w
  unfolding publish_containment
  publish_containment-announce target_iri m w h =
      let made = map created_event (retain (λ r. not (r.iri == target_iri)) m.created) in
      publish_linked-announce m.linked (publish_created b state_of target_iri m.created w)
      ∙ ap (announce (map (add_event b state_of) m.linked))
          (publish_created-announce target_iri m.created w h)
      ∙ sym (announce-append made (map (add_event b state_of) m.linked) w)

  -- The events of a PUT: none unless it succeeds.
  abbrev pub put_events : Target → Existence → Materialized → ℕ → List Event
  put_events target existence m status =
      if is_success status
      then own_event b state_of target (activity_of existence)
        ∷ containment_events (graph_iri target) m
      else []

  abbrev pub parent_events : Target → Option ContainerUrl → List Event
  parent_events target none = []
  parent_events target (some c) = remove_event b state_of target c ∷ []

  -- The events of a DELETE: none unless it succeeds.
  abbrev pub delete_events : Target → List AuxUrl → ℕ → List Event
  delete_events target auxiliaries status =
      if is_success status
      then own_event b state_of target delete
        ∷ (map (λ a. own_event b state_of (aux a) delete) auxiliaries
            ++ parent_events target (parent_of target))
      else []

  module _ {S : Type 0} (ensure_container : ContainerUrl → Write S)
      (add_containment : ContainerUrl → Text → Write S) where
    created_of_materialize :
        (g : Guard) (s : S) {m : Materialized} {s' : S}
        → IsProbed g
        → materialize ensure_container add_containment g s ≡ (ok m, s')
        → All (λ r. is_announced (graph_iri g.target) r ≡ true) m.created
    unfolding materialize
    created_of_materialize g s {m} probed h = elim (Result-cases (plan g)) [
      | inr (e, refused) ↦ absurd (ground arith)
      | inl (p, planned) ↦
          let same : m.created ≡ p.creations = ground arith in
          rw same (plan-creations g probed planned)
    ]

    -- What a PUT publishes after a probed guard was materialized: nothing unless it succeeded, else
    -- the target's own event, then one create for each other resource that was created, every one
    -- of which is a container, and one add for each link, each through the gate of its topic.
    pub emit_put-materialize :
        (g : Guard) (s : S) {m : Materialized} {s' : S}
        → IsProbed g
        → materialize ensure_container add_containment g s ≡ (ok m, s')
        → (existence : Existence) (status : ℕ) (w : World Channels)
        → emit_put b state_of g.target existence m status w
          ≡ announce (put_events g.target existence m status) w
    unfolding emit_put announce publish_own
    emit_put-materialize g s {m} probed h existence status w =
        elim (Bool-cases (is_success status)) [
          | inr failed ↦ rw failed refl
          | inl success ↦ rw success (
              publish_containment-announce (graph_iri g.target) m
                (gated b state_of (own_event b state_of g.target (activity_of existence)) w)
                (created_of_materialize g s probed h))
        ]

  publish_deleted-announce :
      (auxiliaries : List AuxUrl) (w : World Channels)
      → publish_deleted b state_of auxiliaries w
        ≡ announce (map (λ a. own_event b state_of (aux a) delete) auxiliaries) w
  unfolding publish_deleted announce publish_own
  publish_deleted-announce [] w = refl
  publish_deleted-announce (a ∷ auxiliaries) w =
      publish_deleted-announce auxiliaries
        (gated b state_of (own_event b state_of (aux a) delete) w)

  announced :
      (target : Target) (auxiliaries : List AuxUrl) (up : Option ContainerUrl) (w : World Channels)
      → announce
          (own_event b state_of target delete
            ∷ (map (λ a. own_event b state_of (aux a) delete) auxiliaries
                ++ parent_events target up))
          w
        ≡ announce
            (parent_events target up)
            (publish_deleted b state_of auxiliaries (publish_own b state_of target delete w))
  unfolding publish_own announce
  announced target auxiliaries up w =
      let w1 = gated b state_of (own_event b state_of target delete) w in
      let gone = map (λ a. own_event b state_of (aux a) delete) auxiliaries in
      announce-append gone (parent_events target up) w1
      ∙ ap (announce (parent_events target up)) (sym (publish_deleted-announce auxiliaries w1))

  -- What a DELETE publishes: nothing unless it succeeded, else the target's own event, one for each
  -- auxiliary that went with it, and then one on the parent, if the target has one and is no
  -- auxiliary.
  pub emit_delete_lem :
      (target : Target) (auxiliaries : List AuxUrl) (status : ℕ) (w : World Channels)
      → emit_delete b state_of target auxiliaries status w
        ≡ announce (delete_events target auxiliaries status) w
  unfolding emit_delete
  emit_delete_lem target auxiliaries status w = elim (Bool-cases (is_success status)) [
    | inr failed ↦ unfold announce in rw failed refl
    | inl success ↦
        rw (success, announced target auxiliaries (parent_of target) w)
          (unfold announce in ground arith)
  ]
