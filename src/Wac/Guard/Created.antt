-- ===== src/Wac/Guard/Created.antt =====
-- What `Guard::materialize` of src/wac/guard.rs records as created: the request's own target, and
-- containers above it.
use quadpod.Prelude.{
  ℕ, suc, ◌≡◌, Bool, true, ◌||◌, List, [], ◌∷◌, ◌++◌, All, is_some, ◌==◌, nat_eq, list_eq, text_eq,
  Text, codes, ends_with, strip_suffix-append, ok, arith, Bool-cases, inl, inr,
}
use quadpod.Space.{ResourceUrl, ContainerUrl, ancestors, as_container, graph_iri, container_iri}
use quadpod.Space.Tree.{IsAbove, ancestors-IsAbove}
use quadpod.Wac.Guard.{Guard, chain_head, subject_of}
use quadpod.Wac.Guard.Materialize.{Plan, walk, is_member, plan}
use quadpod.Wac.Guard.Plans.{
  IsProbed, Aligned, IsProbed-Aligned, chain_head-IsProbed, Walked, nothing, last, more, walk_cases,
  next-Aligned, created_element,
}
use quadpod.Wac.Guard.Creations.{plan-FromWalk, member_graph}

-- A resource that is the request's target or a container.
abbrev pub is_announced : Text → ResourceUrl → Bool
is_announced target_iri r = r.iri == target_iri || is_some (as_container r)

walk_created :
    (P : ResourceUrl → Type 0) (g : Guard) (i : ℕ) (above : List ContainerUrl) (child : Text)
    (record_child : Bool) {p : Plan}
    → Aligned g i above
    → All (λ c. P c.as_resource) above
    → walk g i above child record_child ≡ ok p
    → All P p.creations
walk_created P g i [] child record_child {p} aligned each h =
    let none_left : p.creations ≡ [] = unfold walk in ground arith in rw none_left tt
walk_created P g i (a ∷ above) child record_child {p} aligned each h =
    go (walk_cases g i a above child record_child h) λ rest.
      walk_created P g (suc i) above (container_iri a) true {p = rest}
        (next-Aligned g i a above aligned) (each.1)
  where
    go :
        Walked g i a above child record_child h
        → ((rest : Plan)
            → walk g (suc i) above (container_iri a) true ≡ ok rest
            → All P rest.creations)
        → All P p.creations
    go (nothing _ _ e) ih = let s : p.creations ≡ [] = ground arith in rw s tt
    go (last d granted _ _ e) ih = let s : p.creations ≡ [] = ground arith in rw s tt
    go (more d rest _ new w e) ih =
        let s : p.creations ≡ a.as_resource ∷ rest.creations =
          ground (arith, created_element g i a above aligned) in
        rw s (each.0, ih rest w)

above_announced :
    (target_iri path : Text) (cs : List ContainerUrl)
    → All (IsAbove path) cs
    → All (λ c. is_announced target_iri c.as_resource ≡ true) cs
unfolding as_container ends_with
above_announced target_iri path [] h = tt
above_announced target_iri path (c ∷ cs) h =
    let at : c.as_resource.path ≡ (h.0).front ++ codes "/" = (h.0).is_container in
    (
      ground (arith, at, strip_suffix-append (codes "/") (h.0).front),
      above_announced target_iri path cs (h.1),
    )

-- Each creation of a probed guard's plan is the request's own target or a container.
pub plan-creations :
    (g : Guard) {p : Plan}
    → IsProbed g
    → plan g ≡ ok p
    → All (λ r. is_announced (graph_iri g.target) r ≡ true) p.creations
plan-creations g {p} probed h =
    let from = plan-FromWalk g h in
    let head = chain_head-IsProbed g probed in
    let above = ancestors (chain_head g) in
    let own = graph_iri g.target in
    let up =
      walk_created (λ r. is_announced own r ≡ true) g 0 above own (is_member g) {p = from.walked}
        (IsProbed-Aligned g probed)
        (above_announced own (chain_head g).path above (ancestors-IsAbove (chain_head g)))
        from.is_walk in
    elim (Bool-cases (is_member g)) [
      | inl on ↦
          let at : p.creations ≡ subject_of g.target ∷ from.walked.creations =
            ground (arith, from.creations, head) in
          rw at (ground (arith, member_graph g on, text_eq (subject_of g.target).iri own), up)
      | inr off ↦
          let at : p.creations ≡ from.walked.creations = ground (arith, from.creations) in rw at up
    ]
