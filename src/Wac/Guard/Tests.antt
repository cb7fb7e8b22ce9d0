-- ===== src/Wac/Guard/Tests.antt =====
-- A request of src/wac/guard.rs at a concrete store: Alice writes /a/b to a pod that holds only its
-- root, whose ACL lets her write everywhere.
use native.Mathlib.Decide.{ℕ_discrete}
use quadpod.Prelude.{
  ◌≡◌, Bool, Result, map, refl, none, true, false, some, List, [], ◌∷◌, ◌++◌, any, Text, codes, ok,
  err, list_beq, get, member, split, contains, starts_with, ends_with, strip_prefix, strip_suffix,
  through_last,
}
use quadpod.Terms.{Term, Triple, NamedOrBlankNode, NamedOrBlankNode-discrete}
use quadpod.Space.{
  ResourceUrl, ContainerUrl, Target, resource, aux_of, base_of, suffix, kind_name, ancestors,
  slash_counterpart, graph_iri, parent, as_container, is_normalization_stable, segments_stable,
  split_suffix, segment_remainder, reserved_segment, container_iri,
}
use quadpod.Resource.{ResourceError}
use quadpod.Container.{Write}
use quadpod.Wac.{append, AccessModes, allows, Decision}
use quadpod.Wac.Pdp.{
  Agent, web_id, acl_agent, acl_access_to, acl_default, acl_mode, acl_write, recognized_mode, push,
  push_all, by_subject, has_object, matches_agent, grant, grant_modes, decide_groups, decide,
  no_modes,
}
use quadpod.Wac.Guard.{
  probe, chain_head, chain_of, slash_pair, Guard, deny_agent, subject_of, chain_of, find_acl,
  decide_on, decide_from, required_mode, authorize, required_mode_for_aux,
}
use quadpod.Wac.Guard.Decisions.{IsGranted, authorize-IsGranted}
use quadpod.Wac.Guard.Probe.{governing, ExistsLaws, IsDecisionOn, authorize-probe}
use quadpod.Wac.Prp.{Row, read_row, node_of}
use quadpod.Wac.Prp.Loaded.{graph_triples}
use quadpod.Wac.Prp.OneGraph.{one_graph, one_graph_holds, one_graph_laws}
use quadpod.Space.Minted.{InSpace}
use quadpod.Notify.{Activity, create, Event, Broadcast, World, live, live_read, live_evict, publish}
use quadpod.Notify.Emit.{
  absent, emit_put, publish_own, publish_containment, publish_created, publish_linked,
}
use quadpod.Notify.Events.{announce, put_events, emit_put-materialize}
use quadpod.Wac.Guard.Materialize.{Materialized, Plan, walk, plan, materialize, write_steps}
use quadpod.Wac.Guard.Plans.{IsProbed, children, iris}
use quadpod.Wac.Guard.Creations.{
  IsAllowed, Refused, plan-IsAllowed, plan_links, plan-Refused, materialize_refusal,
}

guard_runs : Unit {0}
unfolding governing graph_triples read_row node_of authorize decide_from decide_on find_acl
    required_mode required_mode_for_aux deny_agent walk plan subject_of chain_of chain_head
    materialize write_steps decide decide_groups by_subject push_all push has_object matches_agent
    grant_modes grant recognized_mode allows aux_of base_of suffix kind_name slash_counterpart
    parent ancestors graph_iri as_container is_normalization_stable segments_stable split_suffix
    segment_remainder reserved_segment get member split contains starts_with ends_with strip_prefix
    strip_suffix through_last list_beq NamedOrBlankNode-discrete ℕ_discrete
guard_runs = tt

abbrev stem : Text
stem = codes "https://pod"

abbrev url : Text → ResourceUrl
url p = record { path = p; iri = stem ++ p }

abbrev box : Text → ContainerUrl
box p = record { as_resource = url p }

abbrev alice : Text
alice = codes "https://alice/#me"

abbrev rule : Text → Text → Triple
rule p o = record {
  subject = NamedOrBlankNode.named_node (codes "#r");
  predicate = p;
  object = Term.named_node o;
}

abbrev root_acl : List Triple
root_acl =
    rule acl_access_to (stem ++ codes "/")
    ∷ rule acl_default (stem ++ codes "/")
    ∷ rule acl_agent alice
    ∷ rule acl_mode acl_write
    ∷ []

abbrev target : Target
target = resource (url (codes "/a/b"))

abbrev request : Agent → List Text → Guard
request agent present = record {
  agent = agent;
  target = target;
  chain = url (codes "/a/b") ∷ url (codes "/a/") ∷ url (codes "/") ∷ [];
  present = present;
  acls = (stem ++ codes "/", root_acl) ∷ [];
}

abbrev root_only : List Text
root_only = (stem ++ codes "/") ∷ []

abbrev writer : AccessModes
writer = record no_modes { write = true }

abbrev granted : Decision
granted = record { user = writer; public = no_modes }

authorized : authorize (request (web_id alice) root_only) append ≡ ok granted
unfolding guard_runs
authorized = refl

authorize-IsGranted_example : IsGranted (request (web_id alice) root_only) append granted
authorize-IsGranted_example =
    authorize-IsGranted (request (web_id alice) root_only) append authorized

root_nearest :
    find_acl (request (web_id alice) root_only).acls (request (web_id alice) root_only).chain false
    ≡ some (url (codes "/"), root_acl, true)
unfolding guard_runs
root_nearest = refl

request-IsProbed : IsProbed (request (web_id alice) root_only)
unfolding guard_runs
request-IsProbed = refl

abbrev planned : Plan
planned = record {
  steps =
      (box (codes "/a/"), some (stem ++ codes "/a/b"))
      ∷ (box (codes "/"), some (stem ++ codes "/a/"))
      ∷ [];
  creations = url (codes "/a/b") ∷ url (codes "/a/") ∷ [];
}

plan_run : plan (request (web_id alice) root_only) ≡ ok planned
unfolding guard_runs
plan_run = refl

plan-IsAllowed_example : IsAllowed (request (web_id alice) root_only) planned
plan-IsAllowed_example = plan-IsAllowed (request (web_id alice) root_only) request-IsProbed plan_run

root_present : any (λ a. member (container_iri a) root_only) (ancestors (subject_of target)) ≡ true
unfolding guard_runs
root_present = refl

plan_links_example : children planned.steps ≡ iris planned.creations
plan_links_example =
    plan_links (request (web_id alice) root_only) request-IsProbed root_present plan_run

-- The container /a/ of the request exists as the resource /a.
abbrev paired : Guard
paired = request (web_id alice) ((stem ++ codes "/a") ∷ root_only)

paired_run : plan paired ≡ err slash_pair
unfolding guard_runs
paired_run = refl

plan-Refused_example : Refused paired slash_pair
plan-Refused_example = plan-Refused paired paired_run

-- A store that counts its writes.
abbrev ensure : ContainerUrl → Write (List Text)
ensure c s = (ok tt, container_iri c ∷ s)

abbrev add : ContainerUrl → Text → Write (List Text)
add c child s = (ok tt, child ∷ s)

materialize_tests :
    (materialize ensure add (request (web_id alice) root_only) [] ≡ (
      ok (record {
        created = planned.creations;
        linked =
            (box (codes "/a/"), stem ++ codes "/a/b") ∷ (box (codes "/"), stem ++ codes "/a/") ∷ [];
      }),
      (stem ++ codes "/a/")
          ∷ (stem ++ codes "/")
          ∷ (stem ++ codes "/a/b")
          ∷ (stem ++ codes "/a/")
          ∷ [],
    ))
    × (materialize ensure add paired [] ≡ (err slash_pair, []))
unfolding guard_runs
materialize_tests = (refl, refl)

materialize_refusal_example : ◌≡◌ {A = List Text} [] []
materialize_refusal_example =
    materialize_refusal ensure add paired [] materialize_tests.1 (λ r e. cc e)

-- A store that has the root container with its ACL.
abbrev root_acl_iri : Text
root_acl_iri = codes "https://pod/.aux/.acl"

abbrev present_graphs : List Text
present_graphs = (stem ++ codes "/") ∷ root_acl_iri ∷ []

abbrev stands : Text → Bool
stands g = member g present_graphs

abbrev exists_many : List Text → Result ResourceError (List Text)
exists_many asked = ok present_graphs

exists_many_laws : ExistsLaws exists_many stands
exists_many_laws = record { asked = λ gs e g m. cc e }

abbrev query_solutions : Text → Result ResourceError (List Row)
query_solutions = one_graph root_acl_iri root_acl

abbrev holds : Text → Triple → Bool
holds = one_graph_holds root_acl_iri root_acl

target-InSpace : InSpace stem (subject_of target)
unfolding guard_runs
target-InSpace = refl

authorize-probe_example :
    (g : Guard) × (probe exists_many query_solutions (web_id alice) target ≡ ok g)
    × (g.target ≡ target)
    × (g.present ≡ present_graphs)
    × IsProbed g
    × IsDecisionOn holds
        (web_id alice)
        (required_mode target append)
        (governing stands (chain_of target) false)
        (authorize g append)
authorize-probe_example =
    authorize-probe exists_many query_solutions stands holds exists_many_laws
      (one_graph_laws root_acl_iri root_acl) stem (web_id alice) target append target-InSpace refl
      refl

governed_run : governing stands (chain_of target) false ≡ some (url (codes "/"), true)
unfolding guard_runs
governed_run = refl

-- A channel that records what is sent, whoever listens.
abbrev recorder : Broadcast (List Event)
recorder = record {
  channel = λ c. (0, c);
  subscribe = λ tx c. (0, c);
  receiver_count = λ tx c. 1;
  send = λ tx e c. c ++ e ∷ [];
  release = λ rx c. c;
}

abbrev watched : World (List Event)
watched = record { bus = (stem ++ codes "/a/", 0) ∷ []; channels = []; readers = [] }

abbrev made : Materialized
made = record {
  created = planned.creations;
  linked = (box (codes "/a/"), stem ++ codes "/a/b") ∷ (box (codes "/"), stem ++ codes "/a/") ∷ [];
}

emit_put-materialize_example :
    emit_put recorder (λ t. none) target absent made 201 watched
    ≡ announce recorder (λ t. none) (put_events recorder (λ t. none) target absent made 201) watched
emit_put-materialize_example =
    emit_put-materialize recorder (λ t. none) ensure add (request (web_id alice) root_only) []
      request-IsProbed materialize_tests.0 absent 201 watched

-- Of the containers of a new resource, the one that is watched hears of its creation and its child.
emit_put_run :
    map (λ e. e.activity) (emit_put recorder (λ t. none) target absent made 201 watched).channels
    ≡ create ∷ Activity.add ∷ []
unfolding guard_runs live live_read live_evict publish emit_put publish_own publish_containment
    publish_created publish_linked
emit_put_run = refl
