-- ===== src/Wac/Guard/Creations.antt =====
-- What `Guard::materialize` promises: a plan that is returned is authorized as a whole, and a
-- refusal is found before the first write.
use quadpod.Prelude.{
  ◌+◌, ◌<◌, ◌≤◌, length, ◌⊎◌, ℕ, suc, ◌≡◌, ◌≢◌, Bool, true, false, not, ◌&&◌, none, some, List, [],
  ◌∷◌, any, if◌then◌else◌, Text, member, ok, err, arith, Bool-cases, Result-cases, inl, inr,
  >>=-eq-ok,
}
use quadpod.Space.{ContainerUrl, ancestors, graph_iri, container_iri}
use quadpod.Resource.{ResourceError}
use quadpod.Wac.{append}
use quadpod.Container.{Write}
use quadpod.Wac.Guard.{
  chain_head, Denial, aux_subject_missing, slash_pair, store, Guard, decide_from,
  counterpart_present, subject_of, deny_agent,
}
use quadpod.Wac.Guard.Decisions.{decide_from_refusal}
use quadpod.Wac.Guard.Materialize.{
  Step, Plan, walk, is_aux, is_member, plan, write_steps, materialize,
}
use quadpod.Wac.Guard.Plans.{
  IsProbed, IsProbed-Aligned, chain_head-IsProbed, AppendsGranted, children, iris, Absent,
  walk-AppendsGranted, walk-Absent, walk_links,
}

-- The parts of a plan that is returned.
pub record FromWalk (g : Guard) (p : Plan) : Type 0 where
  pub walked : Plan
  pub is_walk : walk g 0 (ancestors (chain_head g)) (graph_iri g.target) (is_member g) ≡ ok walked
  pub same_steps : p.steps ≡ walked.steps
  pub creations :
      p.creations ≡ (if is_member g then chain_head g ∷ walked.creations else walked.creations)
  unpaired : any (counterpart_present g.present) p.creations ≡ false
  has_subject : (is_aux g.target && not (member (chain_head g).iri g.present)) ≡ false

pub plan-FromWalk : (g : Guard) {p : Plan} → plan g ≡ ok p → FromWalk g p
unfolding plan
plan-FromWalk g {p} h =
    let (walked, w, rest) =
      >>=-eq-ok (walk g 0 (ancestors (chain_head g)) (graph_iri g.target) (is_member g)) _ h in
    record {
      walked = walked;
      is_walk = w;
      same_steps = ground arith;
      creations = ground arith;
      unpaired = ground arith;
      has_subject = ground arith;
    }

pub member_graph : (g : Guard) → is_member g ≡ true → graph_iri g.target ≡ (subject_of g.target).iri
unfolding subject_of graph_iri
member_graph g h = ground arith

-- A plan that may be written.
pub record IsAllowed (g : Guard) (p : Plan) : Type 0 where
  -- the agent may append to each container that a step ensures or links into
  pub granted : AppendsGranted g 0 p.steps
  -- what it creates did not exist
  pub absent : Absent g p.creations
  -- and has no existing counterpart under the slash rule
  pub unpaired : any (counterpart_present g.present) p.creations ≡ false
  -- an auxiliary has its subject
  pub has_subject : (is_aux g.target ≡ false) ⊎ (member (subject_of g.target).iri g.present ≡ true)

-- A plan that a probed guard returns may be written: the agent may append to the container of each
-- step, nothing that it creates exists or has an existing counterpart under the slash rule, and the
-- subject of an auxiliary exists.
pub plan-IsAllowed : (g : Guard) {p : Plan} → IsProbed g → plan g ≡ ok p → IsAllowed g p
plan-IsAllowed g {p} probed h =
    let from = plan-FromWalk g h in
    let head = chain_head-IsProbed g probed in
    let above = ancestors (chain_head g) in
    let child = graph_iri g.target in
    let kept = walk-AppendsGranted g 0 above child (is_member g) {p = from.walked} from.is_walk in
    let new =
      walk-Absent g 0 above child (is_member g) {p = from.walked} (IsProbed-Aligned g probed)
        from.is_walk in
    record {
      granted = rw (from.same_steps) kept;
      absent = elim (Bool-cases (is_member g)) [
        | inl on ↦
            let at : p.creations ≡ subject_of g.target ∷ from.walked.creations =
              ground (arith, from.creations, head) in
            rw at (ground (arith, member_graph g on), new)
        | inr off ↦
            let at : p.creations ≡ from.walked.creations = ground (arith, from.creations) in
            rw at new
      ];
      unpaired = from.unpaired;
      has_subject = ground (arith, from.has_subject, head);
    }

-- When some container above the target of a probed guard exists, the plan links what it creates and
-- nothing else: its links are, in order, the created resources.
pub plan_links :
    (g : Guard) {p : Plan}
    → IsProbed g
    → any (λ a. member (container_iri a) g.present) (ancestors (subject_of g.target)) ≡ true
    → plan g ≡ ok p
    → children p.steps ≡ iris p.creations
plan_links g {p} probed there h =
    let from = plan-FromWalk g h in
    let head = chain_head-IsProbed g probed in
    let linked =
      walk_links g 0 (ancestors (chain_head g)) (graph_iri g.target) (is_member g) {p = from.walked}
        (IsProbed-Aligned g probed) (rw head there) from.is_walk in
    elim (Bool-cases (is_member g)) [
      | inl on ↦
          let at : p.creations ≡ subject_of g.target ∷ from.walked.creations =
            ground (arith, from.creations, head) in
          rw (from.same_steps, at) (ground (arith, linked, member_graph g on))
      | inr off ↦
          let at : p.creations ≡ from.walked.creations = ground (arith, from.creations) in
          rw (from.same_steps, at) (ground (arith, linked))
    ]

-- A walk from level `i` that fails reached a level whose container refuses the append mode.
record Stopped (g : Guard) (i : ℕ) (above : List ContainerUrl) (e : Denial) : Type 0 where
  level : ℕ
  from : i ≤ level
  within : level < i + length above
  refused : decide_from g (suc level) append ≡ err e

walk-Stopped :
    (g : Guard) (i : ℕ) (above : List ContainerUrl) (child : Text) (record_child : Bool)
    {e : Denial}
    → walk g i above child record_child ≡ err e
    → Stopped g i above e
unfolding walk
walk-Stopped g i [] child record_child h = absurd (ground arith)
walk-Stopped g i (a ∷ above) child record_child {e} h =
    elim (Result-cases (decide_from g (suc i) append)) [
      | inr (e', refused) ↦ record {
        level = i;
        from = omega arith;
        within = omega arith;
        refused = ground arith;
      }
      | inl (d, granted) ↦ elim (Result-cases (walk g (suc i) above (container_iri a) true)) [
        | inl (p, walked) ↦ absurd (ground arith)
        | inr (e', refused) ↦
            let deeper : Stopped g (suc i) above e' =
              walk-Stopped g (suc i) above (container_iri a) true refused in
            record {
              level = deeper.level;
              from = omega (arith, deeper.from);
              within = omega (arith, deeper.within);
              refused = ground (arith, deeper.refused);
            }
      ]
    ]

-- The refusals of a plan, with what was found before each.
pub data Refused (g : Guard) : Denial → Type 0 where
  not_allowed :
      (level : ℕ)
      → level < length (ancestors (chain_head g))
      → decide_from g (suc level) append ≡ err (deny_agent g.agent)
      → Refused g (deny_agent g.agent)
  subject_missing :
      {p : Plan}
      → walk g 0 (ancestors (chain_head g)) (graph_iri g.target) (is_member g) ≡ ok p
      → is_aux g.target ≡ true
      → member (chain_head g).iri g.present ≡ false
      → Refused g aux_subject_missing
  pair_exists :
      {p : Plan}
      → walk g 0 (ancestors (chain_head g)) (graph_iri g.target) (is_member g) ≡ ok p
      → any
          (counterpart_present g.present)
          (if is_member g then chain_head g ∷ p.creations else p.creations)
        ≡ true
      → Refused g slash_pair

-- A plan is refused because some container above the target refuses the append mode, or else because
-- the walk succeeds and an auxiliary's subject is missing, or because it succeeds and something that
-- it would create has an existing counterpart.
pub plan-Refused : (g : Guard) {e : Denial} → plan g ≡ err e → Refused g e
unfolding plan
plan-Refused g {e} h =
    let above = ancestors (chain_head g) in
    elim (Result-cases (walk g 0 above (graph_iri g.target) (is_member g))) [
      | inr (e', refused) ↦
          let stop : Stopped g 0 above e' = walk-Stopped g 0 above _ _ refused in
          let same : e' ≡ deny_agent g.agent =
            decide_from_refusal g (suc stop.level) append stop.refused in
          let this : e ≡ deny_agent g.agent = ground (arith, same) in
          rw this (not_allowed stop.level (omega (arith, stop.within)) (rw same at stop.refused))
      | inl (p, w) ↦
          elim (Bool-cases (is_aux g.target && not (member (chain_head g).iri g.present))) [
            | inl missing ↦
                let same : e ≡ aux_subject_missing = ground arith in
                rw same (subject_missing w (ground arith) (ground arith))
            | inr there ↦
                let same : e ≡ slash_pair = ground arith in rw same (pair_exists w (ground arith))
          ]
    ]

-- Every operation that a result of `materialize` is made of, in order.
module _ {S : Type 0} (ensure_container : ContainerUrl → Write S)
    (add_containment : ContainerUrl → Text → Write S) where
  write_steps-store :
      (steps : List Step) (s : S) {e : Denial}
      → (write_steps ensure_container add_containment steps s).0 ≡ err e
      → (r : ResourceError) × (e ≡ store r)
  unfolding write_steps
  write_steps-store [] s h = absurd (ground arith)
  write_steps-store ((a, none) ∷ steps) s {e} h = elim (Result-cases (ensure_container a s).0) [
    | inr (r, failed) ↦ (r, ground arith)
    | inl (u, ensured) ↦ write_steps-store steps (ensure_container a s).1 (ground arith)
  ]
  write_steps-store ((a, some c) ∷ steps) s {e} h = elim (Result-cases (ensure_container a s).0) [
    | inr (r, failed) ↦ (r, ground arith)
    | inl (u, ensured) ↦ elim (Result-cases (add_containment a c (ensure_container a s).1).0) [
      | inr (r, failed) ↦ (r, ground arith)
      | inl (v, added) ↦
          elim (Result-cases
            (write_steps ensure_container add_containment steps
              (add_containment a c (ensure_container a s).1).1).0) [
                | inl (l, written) ↦ absurd (ground arith)
                | inr (r, failed) ↦
                    let (r', is_store) =
                      write_steps-store steps (add_containment a c (ensure_container a s).1).1
                        {e = r} failed in
                    (r', ground arith)
              ]
    ]
  ]

  -- A refusal that is not a failure of the store leaves the store as it was: every check stands
  -- before the first write.
  pub materialize_refusal :
      (g : Guard) (s : S) {e : Denial} {s' : S}
      → materialize ensure_container add_containment g s ≡ (err e, s')
      → ((r : ResourceError) → e ≢ store r)
      → s' ≡ s
  unfolding materialize
  materialize_refusal g s {e} {s'} h not_store = elim (Result-cases (plan g)) [
    | inr (r, refused) ↦ ground arith
    | inl (p, planned) ↦
        elim (Result-cases (write_steps ensure_container add_containment p.steps s).0) [
          | inl (l, written) ↦ absurd (ground arith)
          | inr (r, failed) ↦
              let (r', is_store) = write_steps-store p.steps s {e = r} failed in
              absurd (not_store r' (ground arith))
        ]
  ]
