-- ===== src/Wac/Guard/Probe.antt =====
-- `Guard::probe` of src/wac/guard.rs: what a guard knows, and what it then decides, in terms of
-- what the store holds.
use mathlib.Core.List.{Memᴰ}
use mathlib.Core.List.Memᴰ
use quadpod.Prelude.{
  ◌≡◌, refl, ap, ◌∙◌, Bool, true, false, Option, none, some, List, [], ◌∷◌, map, any, All,
  if◌then◌else◌, ◌==◌, nat_eq, list_eq, text_eq, Text, Map, get, member, Result, ok, err,
  Bool-cases, inl, inr, arith,
}
use quadpod.Terms.{Triple}
use quadpod.Space.{ResourceUrl, Target, all_kinds, aux_of, ancestors}
use quadpod.Space.Minted.{InSpace, parent-InSpace}
use quadpod.Space.Tree.{chain_induction, ancestors_top, ancestors_below}
use quadpod.Resource.{ResourceError}
use quadpod.Wac.{Mode, Decision}
use quadpod.Wac.Pdp.{Agent}
use quadpod.Wac.Prp.{Row, acl_iri, load_chain_acls}
use quadpod.Wac.Prp.Loaded.{graph_triples, load_chain_acls_rows}
use quadpod.Wac.Prp.Selected.{
  SelectLaws, AreTriples, select_text, present_acls, loads_answer, present-AreTriples,
}
use quadpod.Resource.Fetched.{All-Mem}
use quadpod.Wac.Guard.Plans.{IsProbed}
use quadpod.Wac.Guard.{
  Denial, Guard, subject_of, chain_of, candidates, probe, find_acl, decide_on, decide_from,
  required_mode, authorize, deny_agent, aux_iris,
}

ancestors-InSpace :
    (stem : Text) (u : ResourceUrl)
    → InSpace stem u
    → All (InSpace stem) (map (λ c. c.as_resource) (ancestors u))
ancestors-InSpace stem u =
    chain_induction
      (λ u. InSpace stem u → All (InSpace stem) (map (λ c. c.as_resource) (ancestors u)))
      (λ u top here. rw (ancestors_top u top) tt)
      (λ u c e ih here.
        let up = parent-InSpace stem u here e in rw (ancestors_below u c e) (up, ih up))
      u

chain_of-InSpace :
    (stem : Text) (t : Target) → InSpace stem (subject_of t) → All (InSpace stem) (chain_of t)
unfolding chain_of
chain_of-InSpace stem t here = (here, ancestors-InSpace stem (subject_of t) here)

-- The first element of a chain whose ACL stands, and whether it is above the chain's head.
unfoldable pub governing : (Text → Bool) → List ResourceUrl → Bool → Option (ResourceUrl × Bool)
governing stands [] inherited = none
governing stands (r ∷ chain) inherited =
    let above = governing stands chain true in
    if stands (acl_iri r) then some (r, inherited) else above

-- A store in which some graphs stand tells which of those asked for do.
pub record ExistsLaws (exists_many : List Text → Result ResourceError (List Text))
    (stands : Text → Bool) : Type 0 where
  pub asked :
      (gs : List Text) {found : List Text}
      → exists_many gs ≡ ok found
      → (g : Text) → Memᴰ g gs
      → member g found ≡ stands g

-- A decision on the triples of the ACL of the element that governs, or a refusal.
abbrev pub IsDecisionOn :
    (Text → Triple → Bool)
    → Agent
    → Mode
    → Option (ResourceUrl × Bool)
    → Result Denial Decision
    → Type 0
IsDecisionOn holds agent required none answer = answer ≡ err (deny_agent agent)
IsDecisionOn holds agent required (some (r, inherited)) answer =
    (ts : List Triple) × AreTriples holds (acl_iri r) ts
    × (answer ≡ decide_on agent required r ts inherited)

abbrev decided : Agent → Mode → Option (ResourceUrl × List Triple × Bool) → Result Denial Decision
decided agent required o = elim o [
  | none ↦ err (deny_agent agent)
  | some (element, triples, inherited) ↦ decide_on agent required element triples inherited
]

module _ (stands : Text → Bool) (holds : Text → Triple → Bool) (acls : Map (List Triple))
    (rows : List Row) where
  -- What the map of the ACLs has for one element.
  abbrev IsLoaded : ResourceUrl → Type 0
  IsLoaded r =
      (get r.iri acls
        ≡ (if stands (acl_iri r) then some (graph_triples (acl_iri r) rows) else none))
      × (stands (acl_iri r) ≡ true → AreTriples holds (acl_iri r) (graph_triples (acl_iri r) rows))

  decided-IsDecisionOn :
      (agent : Agent) (required : Mode) (chain : List ResourceUrl) (inherited : Bool)
      → All IsLoaded chain
      → IsDecisionOn holds agent required
          (governing stands chain inherited)
          (decided agent required (find_acl acls chain inherited))
  unfolding governing find_acl
  decided-IsDecisionOn agent required [] inherited h = refl
  decided-IsDecisionOn agent required (r ∷ chain) inherited ((found, triples), h) =
      elim (Bool-cases (stands (acl_iri r))) [
        | inl there ↦
            let loaded : get r.iri acls ≡ some (graph_triples (acl_iri r) rows) =
              rw there at found in
            rw (there, loaded, find_acl) (graph_triples (acl_iri r) rows, triples there, refl)
        | inr absent ↦
            let missing : get r.iri acls ≡ none = rw absent at found in
            rw (absent, missing, find_acl) (decided-IsDecisionOn agent required chain true h)
      ]

Mem-any :
    (chain : List ResourceUrl) (r : ResourceUrl)
    → Memᴰ r chain
    → any (λ c. c.iri == r.iri) chain ≡ true
Mem-any (x ∷ chain) r (Memᴰ.head e) =
    ground (arith, ap (λ (u : ResourceUrl). u.iri) e, text_eq x.iri r.iri)
Mem-any (x ∷ chain) r (Memᴰ.tail m) = ground (arith, Mem-any chain r m)
Mem-any [] r m = elim m [ ]

Mem-aux_iris :
    (chain : List ResourceUrl) (r : ResourceUrl) → Memᴰ r chain → Memᴰ (acl_iri r) (aux_iris chain)
unfolding aux_iris
Mem-aux_iris (x ∷ chain) r (Memᴰ.head e) = rw e (Memᴰ.head refl)
Mem-aux_iris (x ∷ chain) r (Memᴰ.tail m) =
    Memᴰ.append_right (map (λ k. (aux_of x k).iri) all_kinds) (Mem-aux_iris chain r m)
Mem-aux_iris [] r m = elim m [ ]

Mem-candidates :
    (chain : List ResourceUrl) (r : ResourceUrl)
    → Memᴰ r chain
    → Memᴰ (acl_iri r) (candidates chain)
unfolding candidates
Mem-candidates chain r m =
    Memᴰ.append_right (map (λ r. r.iri) chain) (Memᴰ.append_left _ (Mem-aux_iris chain r m))

All-of_Mem :
    (P : ResourceUrl → Type 0) (part : List ResourceUrl)
    → ((r : ResourceUrl) → Memᴰ r part → P r)
    → All P part
All-of_Mem P [] h = tt
All-of_Mem P (r ∷ part) h = (h r (Memᴰ.head refl), All-of_Mem P part (λ x m. h x (Memᴰ.tail m)))

head_listed : (t : Target) → any (λ c. c.iri == (subject_of t).iri) (chain_of t) ≡ true
unfolding chain_of
head_listed t = ground (arith, text_eq (subject_of t).iri (subject_of t).iri)

module _ (exists_many : List Text → Result ResourceError (List Text))
    (query_solutions : Text → Result ResourceError (List Row)) (stands : Text → Bool)
    (holds : Text → Triple → Bool) (existence : ExistsLaws exists_many stands)
    (selection : SelectLaws query_solutions holds) where
  module _ (stem : Text) (chain : List ResourceUrl) {present : List Text} {rows : List Row}
      {acls : Map (List Triple)} (here : All (InSpace stem) chain)
      (found : exists_many (candidates chain) ≡ ok present)
      (answer : query_solutions (select_text (present_acls chain present)) ≡ ok rows)
      (loaded : load_chain_acls query_solutions chain present ≡ ok acls) where
    one-IsLoaded : (r : ResourceUrl) → Memᴰ r chain → IsLoaded stands holds acls rows r
    one-IsLoaded r m =
        let there = All-Mem (InSpace stem) chain r here m in
        let listed = Mem-any chain r m in
        let same =
          existence.asked (candidates chain) found (acl_iri r) (Mem-candidates chain r m) in
        let ask = loads_answer query_solutions holds selection stem chain present here answer in
        let (acls', loaded', entry) =
          load_chain_acls_rows query_solutions stem chain present here ask r there listed in
        let one : acls' ≡ acls = cc (loaded, loaded') in
        (
          rw (one, same) at entry,
          λ s.
              present-AreTriples query_solutions holds selection stem chain present here answer r
                there listed (same ∙ s),
        )

  probed :
      {agent : Agent} (target : Target) {present : List Text} {acls : Map (List Triple)}
      → exists_many (candidates (chain_of target)) ≡ ok present
      → load_chain_acls query_solutions (chain_of target) present ≡ ok acls
      → probe exists_many query_solutions agent target
        ≡ ok (record {
          agent = agent;
          target = target;
          chain = chain_of target;
          present = present;
          acls = acls;
        })
  unfolding probe
  probed target {present} {acls} found loaded = ground arith

  -- For a store that tells which graphs stand, and that answers queries as SPARQL says: once it
  -- answers both of a probe's requests, a guard is probed, for the agent and the target given; and
  -- what it authorizes is decided on the first element from the target's subject upwards whose ACL
  -- stands, from a list of exactly the triples that the store holds in that ACL's graph, and refused
  -- where no ACL stands.
  pub authorize-probe :
      (stem : Text) (agent : Agent) (target : Target) (mode : Mode) {present : List Text}
      {rows : List Row}
      → InSpace stem (subject_of target)
      → exists_many (candidates (chain_of target)) ≡ ok present
      → query_solutions (select_text (present_acls (chain_of target) present)) ≡ ok rows
      → (g : Guard) × (probe exists_many query_solutions agent target ≡ ok g)
        × (g.target ≡ target)
        × (g.present ≡ present)
        × IsProbed g
        × IsDecisionOn holds agent
            (required_mode target mode)
            (governing stands (chain_of target) false)
            (authorize g mode)
  unfolding authorize decide_from
  authorize-probe stem agent target mode {present} {rows} here found answer =
      let chain = chain_of target in
      let all_here = chain_of-InSpace stem target here in
      let ask = loads_answer query_solutions holds selection stem chain present all_here answer in
      let (acls, loaded, _) =
        load_chain_acls_rows query_solutions stem chain present all_here ask (subject_of target)
          here (head_listed target) in
      let loads =
        All-of_Mem (IsLoaded stands holds acls rows) chain
          (one-IsLoaded stem chain all_here found answer loaded) in
      (
        _,
        probed target found loaded,
        refl,
        refl,
        refl,
        decided-IsDecisionOn stands holds acls rows agent (required_mode target mode) chain false
            loads,
      )
