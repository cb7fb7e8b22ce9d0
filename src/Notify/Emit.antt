-- ===== src/Notify/Emit.antt =====
-- The events that a write publishes: `emit_put` and its kin of src/notify.rs. `state_of` is the
-- validator that the read-back of a target gives, and a status is its number.
use quadpod.Prelude.{
  ℕ, Bool, not, ◌&&◌, Option, none, some, List, [], ◌∷◌, is_empty, leb, if◌then◌else◌, ◌==◌, nat_eq,
  list_eq, Text,
}
use quadpod.Space.{
  ResourceUrl, ContainerUrl, AuxUrl, Target, resource, container, aux, as_container, parent,
  graph_iri, container_iri,
}
use quadpod.Wac.Guard.Materialize.{Materialized}
use quadpod.Notify.{
  Activity, create, update, delete, add, Topic, topic_of, Event, Broadcast, World, live, publish,
}
use quadpod.Notify

pub data Existence : Type 0 where
  existed absent : Existence

-- `StatusCode::is_success`
abbrev pub is_success : ℕ → Bool
is_success status = leb 200 status && leb status 299

abbrev pub activity_of : Existence → Activity
activity_of existed = update
activity_of absent = create

unfoldable pub parent_of : Target → Option ContainerUrl
parent_of (resource r) = parent r
parent_of (container c) = parent c.as_resource
parent_of (aux a) = none

module _ {Channels : Type 0} (b : Broadcast Channels) (state_of : Target → Option Text) where
  -- The gate in front of each event: nothing is sent on a topic that is not live.
  abbrev pub gated : Event → World Channels → World Channels
  gated event w =
      let (alive, w1) = live b (event.topic ∷ []) w in
      if is_empty alive then w1 else publish b event w1

  abbrev pub own_state : Target → Activity → Option Text
  own_state target delete = none
  own_state target _ = state_of target

  abbrev pub own_event : Target → Activity → Event
  own_event target activity = record {
    topic = topic_of target;
    activity = activity;
    object = topic_of target;
    target = none;
    state = own_state target activity;
  }

  abbrev pub add_event : ContainerUrl × Text → Event
  add_event (c, child) = record {
    topic = topic_of (container c);
    activity = add;
    object = child;
    target = some (container_iri c);
    state = state_of (container c);
  }

  abbrev pub remove_event : Target → ContainerUrl → Event
  remove_event target c = record {
    topic = topic_of (container c);
    activity = Notify.remove;
    object = graph_iri target;
    target = some (container_iri c);
    state = state_of (container c);
  }

  unfoldable pub publish_own : Target → Activity → World Channels → World Channels
  publish_own target activity w = gated (own_event target activity) w

  -- The loop over what was created.
  unfoldable pub publish_created : Text → List ResourceUrl → World Channels → World Channels
  publish_created target_iri [] w = w
  publish_created target_iri (created ∷ rest) w = publish_created target_iri rest (
      if created.iri == target_iri
      then w
      else elim (as_container created) [ none ↦ w | some c ↦ publish_own (container c) create w ])

  -- The loop over what was linked.
  unfoldable pub publish_linked : List (ContainerUrl × Text) → World Channels → World Channels
  publish_linked [] w = w
  publish_linked (link ∷ rest) w = publish_linked rest (gated (add_event link) w)

  unfoldable pub publish_containment : Text → Materialized → World Channels → World Channels
  publish_containment target_iri m w =
      publish_linked m.linked (publish_created target_iri m.created w)

  unfoldable pub emit_put : Target → Existence → Materialized → ℕ → World Channels → World Channels
  emit_put target existence m status w =
      if not (is_success status)
      then w
      else publish_containment (graph_iri target) m (publish_own target (activity_of existence) w)

  unfoldable pub emit_post : Target → Materialized → ℕ → World Channels → World Channels
  emit_post child m status w =
      if not (is_success status)
      then w
      else publish_containment (graph_iri child) m (publish_own child create w)

  unfoldable pub emit_patch :
      Target → Existence → Materialized → ℕ → World Channels → World Channels
  emit_patch target existence m status w =
      if not (is_success status)
      then w
      else publish_containment (graph_iri target) m (publish_own target (activity_of existence) w)

  unfoldable pub publish_deleted : List AuxUrl → World Channels → World Channels
  publish_deleted [] w = w
  publish_deleted (a ∷ rest) w = publish_deleted rest (publish_own (aux a) delete w)

  unfoldable pub emit_delete : Target → List AuxUrl → ℕ → World Channels → World Channels
  emit_delete target auxiliaries status w =
      let deleted = publish_deleted auxiliaries (publish_own target delete w) in
      if not (is_success status) then w else elim (parent_of target) [
        | none ↦ deleted
        | some c ↦ gated (remove_event target c) deleted
      ]
