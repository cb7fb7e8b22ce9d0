-- ===== src/Wac/Guard/Materialize.antt =====
-- `Guard::materialize` of src/wac/guard.rs, with the container writes of src/container.rs as
-- operations that a store performs one after the other.
use quadpod.Prelude.{
  ℕ, suc, Bool, true, false, not, ◌&&◌, Option, none, some, List, [], ◌∷◌, any, if◌then◌else◌, Text,
  member, Result, ok, err, ◌>>=◌,
}
use quadpod.Space.{ResourceUrl, ContainerUrl, Target, aux, ancestors, graph_iri, container_iri}
use quadpod.Wac.{append}
use quadpod.Container.{Write}
use quadpod.Wac.Guard.{
  Denial, aux_subject_missing, slash_pair, store, Guard, decide_from, counterpart_present, element,
  chain_head,
}

-- One entry of the plan: the container to ensure, and the child to link into it, if any.
abbrev pub Step : Type 0
Step = ContainerUrl × Option Text

pub record Plan : Type 0 where
  pub steps : List Step
  pub creations : List ResourceUrl

abbrev pub link : Bool → Text → Option Text
link record_child child = if record_child then some child else none

-- The loop over the ancestors: `i` counts the levels passed.
unfoldable pub walk : Guard → ℕ → List ContainerUrl → Text → Bool → Result Denial Plan
walk g i [] child record_child = ok (record { steps = []; creations = [] })
walk g i (ancestor ∷ above) child record_child =
    let existed = member (container_iri ancestor) g.present in
    let this : Step = (ancestor, link record_child child) in
    let rest = walk g (suc i) above (container_iri ancestor) true in
    if existed && not record_child
    then ok (record { steps = []; creations = [] })
    else decide_from g (suc i) append >>= λ _.
        if existed
        then ok (record { steps = this ∷ []; creations = [] })
        else rest >>= λ p. ok (record {
          steps = this ∷ p.steps;
          creations = element g.chain (suc i) ancestor.as_resource ∷ p.creations;
        })

abbrev pub is_aux : Target → Bool
is_aux (aux a) = true
is_aux _ = false

-- An auxiliary is never a member of a container, and neither is a target that already exists.
abbrev pub is_member : Guard → Bool
is_member g = not (is_aux g.target) && not (member (graph_iri g.target) g.present)

-- Everything that `materialize` decides before it writes.
unfoldable pub plan : Guard → Result Denial Plan
plan g = do
  p ← walk g 0 (ancestors (chain_head g)) (graph_iri g.target) (is_member g)
  if is_aux g.target && not (member (chain_head g).iri g.present)
      then err aux_subject_missing
      else (let creations = if is_member g then chain_head g ∷ p.creations else p.creations in
          if any (counterpart_present g.present) creations
          then err slash_pair
          else ok (record p { creations = creations }))

pub record Materialized : Type 0 where
  pub created : List ResourceUrl
  pub linked : List (ContainerUrl × Text)

abbrev add_link :
    ContainerUrl
    → Text
    → Result Denial (List (ContainerUrl × Text))
    → Result Denial (List (ContainerUrl × Text))
add_link a child r = do l ← r; ok ((a, child) ∷ l)

-- The two writes of src/container.rs, over the store's state.
module _ {S : Type 0} (ensure_container : ContainerUrl → Write S)
    (add_containment : ContainerUrl → Text → Write S) where
  -- The loop that writes the plan; a failure keeps what was written before it.
  unfoldable pub write_steps : List Step → S → Result Denial (List (ContainerUrl × Text)) × S
  write_steps [] s = (ok [], s)
  write_steps ((a, child) ∷ steps) s =
      let (ensured, s1) = ensure_container a s in
      elim ensured [
        | err e ↦ (err (store e), s1)
        | ok _ ↦ elim child [
          | none ↦ write_steps steps s1
          | some c ↦
              let (added, s2) = add_containment a c s1 in
              elim added [
                | err e ↦ (err (store e), s2)
                | ok _ ↦ let (linked, s3) = write_steps steps s2 in (add_link a c linked, s3)
              ]
        ]
      ]

  unfoldable pub materialize : Guard → S → Result Denial Materialized × S
  materialize g s = elim (plan g) [
    | err e ↦ (err e, s)
    | ok p ↦
        let (written, s') = write_steps p.steps s in
        (written >>= λ linked. ok (record { created = p.creations; linked = linked }), s')
  ]
