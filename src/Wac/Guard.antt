-- ===== src/Wac/Guard.antt =====
-- src/wac/guard.rs: the enforcement point. A guard is probed once per request, decides from what
-- the probe found, and materializes the containers that a write implies.
-- The store is a parameter: `exists_many` answers which of the given graphs are present, and
-- `query_solutions` answers a query.
pub mod Decisions
pub mod Probe
pub mod Materialize
pub mod Plans
pub mod Creations
pub mod Created
mod Tests
use quadpod.Prelude.{
  ℕ, zero, suc, Bool, true, false, not, ◌&&◌, ◌||◌, Option, none, some, List, [], ◌∷◌, ◌++◌, map,
  if◌then◌else◌, is_some, Text, Map, get, member, Result, ok, err, ◌>>=◌,
}
use mathlib.Core.Option
use quadpod.Terms.{Triple}
use quadpod.Space.{
  AuxKind, acl, ResourceUrl, ContainerUrl, AuxUrl, Target, resource, container, aux, all_kinds,
  aux_of, ancestors, slash_counterpart, graph_iri, container_iri,
}
use quadpod.Resource.{ResourceError}
use quadpod.Wac.{Mode, append, control, AccessModes, allows, Decision}
use quadpod.Wac.Prp.{Row, load_chain_acls}
use quadpod.Wac.Pdp.{Agent, public, web_id, decide}

pub data Denial : Type 0 where
  unauthenticated forbidden aux_subject_missing slash_pair : Denial
  store : ResourceError → Denial

unfoldable pub deny_agent : Agent → Denial
deny_agent public = unauthenticated
deny_agent (web_id _) = forbidden

unfoldable pub required_mode_for_aux : AuxKind → Mode
required_mode_for_aux acl = control

pub record Guard : Type 0 where
  pub agent : Agent
  pub target : Target
  pub chain : List ResourceUrl
  pub present : List Text
  pub acls : Map (List Triple)

-- `chain[i]`, with a default in place of the panic. The chain of a probed guard is `chain_of` of its
-- target, so that `chain[0]` and each `chain[i + 1]` that is read are there.
abbrev pub element : List ResourceUrl → ℕ → ResourceUrl → ResourceUrl
element [] i d = d
element (r ∷ chain) zero d = r
element (r ∷ chain) (suc i) d = element chain i d

-- `match &target` of `probe`
unfoldable pub subject_of : Target → ResourceUrl
subject_of (resource r) = r
subject_of (container c) = c.as_resource
subject_of (aux a) = a.subject

unfoldable pub chain_of : Target → List ResourceUrl
unfolding subject_of
chain_of t = subject_of t ∷ map (λ c. c.as_resource) (ancestors (subject_of t))

unfoldable pub aux_iris : List ResourceUrl → List Text
aux_iris [] = []
aux_iris (r ∷ rs) = map (λ k. (aux_of r k).iri) all_kinds ++ aux_iris rs

counterpart_iris : List ResourceUrl → List Text
counterpart_iris [] = []
counterpart_iris (r ∷ rs) = elim (slash_counterpart r) [
  | some c ↦ c.iri ∷ counterpart_iris rs
  | none ↦ counterpart_iris rs
]

-- `self.chain[0]`
unfoldable pub chain_head : Guard → ResourceUrl
chain_head g = element g.chain 0 (subject_of g.target)

-- The graphs that one request's probe asks about.
unfoldable pub candidates : List ResourceUrl → List Text
unfolding aux_iris counterpart_iris
candidates chain = map (λ r. r.iri) chain ++ (aux_iris chain ++ counterpart_iris chain)

module _ (exists_many : List Text → Result ResourceError (List Text))
    (query_solutions : Text → Result ResourceError (List Row)) where
  unfoldable pub probe : Agent → Target → Result Denial Guard
  probe agent target = elim (exists_many (candidates (chain_of target))) [
    | err e ↦ err (store e)
    | ok present ↦ elim (load_chain_acls query_solutions (chain_of target) present) [
      | err e ↦ err (store e)
      | ok acls ↦ ok (record {
        agent = agent;
        target = target;
        chain = chain_of target;
        present = present;
        acls = acls;
      })
    ]
  ]

-- The nearest ACL at or above the head, with whether it lies above.
unfoldable pub find_acl :
    Map (List Triple) → List ResourceUrl → Bool → Option (ResourceUrl × List Triple × Bool)
find_acl acls [] inherited = none
find_acl acls (element ∷ above) inherited = elim (get element.iri acls) [
  | some triples ↦ some (element, triples, inherited)
  | none ↦ find_acl acls above true
]

abbrev pub from_start : List ResourceUrl → ℕ → List ResourceUrl
from_start chain zero = chain
from_start [] (suc n) = []
from_start (r ∷ chain) (suc n) = from_start chain n

-- `decide_from` once the nearest ACL is found.
unfoldable pub decide_on : Agent → Mode → ResourceUrl → List Triple → Bool → Result Denial Decision
decide_on agent required element triples inherited =
    let user = decide triples agent element.iri inherited in
    let everyone : AccessModes = elim agent [
      | public ↦ user
      | web_id _ ↦ decide triples public element.iri inherited
    ] in
    if allows user required
    then ok (record { user = user; public = everyone })
    else err (deny_agent agent)

unfoldable pub decide_from : Guard → ℕ → Mode → Result Denial Decision
decide_from g start required = elim (find_acl g.acls (from_start g.chain start) false) [
  | none ↦ err (deny_agent g.agent)
  | some (element, triples, inherited) ↦ decide_on g.agent required element triples inherited
]

unfoldable pub required_mode : Target → Mode → Mode
required_mode (aux a) mode = required_mode_for_aux a.kind
required_mode _ mode = mode

unfoldable pub authorize : Guard → Mode → Result Denial Decision
authorize g mode = decide_from g 0 (required_mode g.target mode)

abbrev pub optional : Result Denial Decision → Result Denial (Option Decision)
optional r = do d ← r; ok (some d)

unfoldable pub authorize_parent : Guard → Mode → Result Denial (Option Decision)
authorize_parent g mode = elim g.chain [
  | [] ↦ ok none
  | _ ∷ above ↦ elim above [ [] ↦ ok none | _ ∷ _ ↦ optional (decide_from g 1 mode) ]
]

unfoldable pub authorize_aux : Guard → AuxKind → Result Denial (Option Decision)
unfolding chain_head
authorize_aux g kind =
    if member (aux_of (chain_head g) kind).iri g.present
    then optional (decide_from g 0 (required_mode_for_aux kind))
    else ok none

unfoldable pub deny : Guard → Denial
deny g = deny_agent g.agent

unfoldable pub target_exists : Guard → Bool
target_exists g = member (graph_iri g.target) g.present

abbrev pub counterpart_present : List Text → ResourceUrl → Bool
counterpart_present present r = elim (slash_counterpart r) [
  | some c ↦ member c.iri present
  | none ↦ false
]

unfoldable pub is_taken : Guard → Bool
is_taken g = if member (graph_iri g.target) g.present then true else elim g.target [
  | resource r ↦ counterpart_present g.present r
  | container c ↦ counterpart_present g.present c.as_resource
  | aux a ↦ false
]
