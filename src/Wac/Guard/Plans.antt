-- ===== src/Wac/Guard/Plans.antt =====
-- What a write's plan promises: authorization before everything else, and no creation that the
-- slash rule or the containment rule forbids.
use quadpod.Prelude.{
  refl, ◌∙◌, ℕ, zero, suc, ◌≡◌, Bool, true, false, none, some, List, [], ◌∷◌, ◌++◌, any,
  if◌then◌else◌, map, Text, member, ok, All, arith, Bool-cases, Result-cases, inl, inr,
}
use quadpod.Space.{ResourceUrl, ContainerUrl, container_iri, ancestors}
use quadpod.Wac.{append, Decision}
use quadpod.Wac.Guard.{Guard, decide_from, element, from_start, chain_of, subject_of, chain_head}
use quadpod.Wac.Guard.Materialize.{Step, Plan, link, walk}

-- The agent may append at the level of each step, the first of which lies `i` levels up.
abbrev pub AppendsGranted : Guard → ℕ → List Step → Type 0
AppendsGranted g i [] = Unit
AppendsGranted g i (s ∷ steps) =
    ((d : Decision) × (decide_from g (suc i) append ≡ ok d)) × AppendsGranted g (suc i) steps

-- The children that the steps link.
abbrev pub children : List Step → List Text
children [] = []
children ((a, some c) ∷ steps) = c ∷ children steps
children ((a, none) ∷ steps) = children steps

abbrev pub iris : List ResourceUrl → List Text
iris rs = map (λ r. r.iri) rs

abbrev pub Absent : Guard → List ResourceUrl → Type 0
Absent g rs = All (λ r. member r.iri g.present ≡ false) rs

-- A guard as `probe` makes it: the chain is the one of its target.
abbrev pub IsProbed : Guard → Type 0
IsProbed g = g.chain ≡ chain_of g.target

-- The containers still to be walked are those of the chain from `i + 1` on.
abbrev pub Aligned : Guard → ℕ → List ContainerUrl → Type 0
Aligned g i above = from_start g.chain (suc i) ≡ map (λ c. c.as_resource) above

element_of_start :
    (chain : List ResourceUrl) (n : ℕ) (r d : ResourceUrl) (rest : List ResourceUrl)
    → from_start chain n ≡ r ∷ rest
    → (element chain n d ≡ r) × (from_start chain (suc n) ≡ rest)
element_of_start [] zero r d rest h = cc
element_of_start [] (suc n) r d rest h = cc
element_of_start (x ∷ chain) zero r d rest h = (cc, cc)
element_of_start (x ∷ chain) (suc n) r d rest h = element_of_start chain n r d rest h

module _ (g : Guard) (i : ℕ) (a : ContainerUrl) (above : List ContainerUrl)
    (aligned : Aligned g i (a ∷ above)) where
  pub created_element : element g.chain (suc i) a.as_resource ≡ a.as_resource
  created_element = (element_of_start g.chain (suc i) a.as_resource a.as_resource _ aligned).0

  pub next-Aligned : Aligned g (suc i) above
  next-Aligned = (element_of_start g.chain (suc i) a.as_resource a.as_resource _ aligned).1

pub chain_head-IsProbed : (g : Guard) → IsProbed g → chain_head g ≡ subject_of g.target
unfolding chain_head chain_of
chain_head-IsProbed g h = rw h

pub IsProbed-Aligned : (g : Guard) → IsProbed g → Aligned g 0 (ancestors (chain_head g))
IsProbed-Aligned g h =
    let top = subject_of g.target in
    let rest = map (λ c. c.as_resource) (ancestors top) in
    let whole : g.chain ≡ top ∷ rest = h ∙ unfold chain_of in refl in
    rw (chain_head-IsProbed g h) ((element_of_start g.chain 0 top top rest whole).1)

-- The ways in which a step of the walk goes on.
module _ (g : Guard) (i : ℕ) (a : ContainerUrl) (above : List ContainerUrl) (child : Text)
    (record_child : Bool) {p : Plan} (walked : walk g i (a ∷ above) child record_child ≡ ok p) where
  pub data Walked : Type 0 where
    nothing :
        member (container_iri a) g.present ≡ true
        → record_child ≡ false
        → p ≡ record { steps = []; creations = [] }
        → Walked
    last :
        (d : Decision)
        → decide_from g (suc i) append ≡ ok d
        → member (container_iri a) g.present ≡ true
        → record_child ≡ true
        → p ≡ record { steps = (a, some child) ∷ []; creations = [] }
        → Walked
    more :
        (d : Decision) (rest : Plan)
        → decide_from g (suc i) append ≡ ok d
        → member (container_iri a) g.present ≡ false
        → walk g (suc i) above (container_iri a) true ≡ ok rest
        → p ≡ record {
          steps = (a, link record_child child) ∷ rest.steps;
          creations = element g.chain (suc i) a.as_resource ∷ rest.creations;
        }
        → Walked

  pub walk_cases : Walked
  unfolding walk
  walk_cases = elim (Bool-cases (member (container_iri a) g.present)) [
    | inl there ↦ elim (Bool-cases record_child) [
      | inr unlinked ↦ nothing there unlinked (ground arith)
      | inl linked ↦ elim (Result-cases (decide_from g (suc i) append)) [
        | inl (d, granted) ↦ last d granted there linked (ground arith)
        | inr (e, refused) ↦ absurd (ground arith)
      ]
    ]
    | inr new ↦ elim (Result-cases (decide_from g (suc i) append)) [
      | inr (e, refused) ↦ absurd (ground arith)
      | inl (d, granted) ↦ elim (Result-cases (walk g (suc i) above (container_iri a) true)) [
        | inr (e, refused) ↦ absurd (ground arith)
        | inl (rest, walked') ↦ more d rest granted new walked' (ground arith)
      ]
    ]
  ]

pub walk-AppendsGranted :
    (g : Guard) (i : ℕ) (above : List ContainerUrl) (child : Text) (record_child : Bool) {p : Plan}
    → walk g i above child record_child ≡ ok p
    → AppendsGranted g i p.steps
walk-AppendsGranted g i [] child record_child {p} h =
    let none_left : p.steps ≡ [] = unfold walk in ground arith in rw none_left tt
walk-AppendsGranted g i (a ∷ above) child record_child {p} h =
    go (walk_cases g i a above child record_child h)
      λ rest. walk-AppendsGranted g (suc i) above (container_iri a) true {p = rest}
  where
    go :
        Walked g i a above child record_child h
        → ((rest : Plan)
            → walk g (suc i) above (container_iri a) true ≡ ok rest
            → AppendsGranted g (suc i) rest.steps)
        → AppendsGranted g i p.steps
    go (nothing _ _ e) ih = let s : p.steps ≡ [] = ground arith in rw s tt
    go (last d granted _ _ e) ih =
        let s : p.steps ≡ (a, some child) ∷ [] = ground arith in rw s ((d, granted), tt)
    go (more d rest granted _ w e) ih =
        let s : p.steps ≡ (a, link record_child child) ∷ rest.steps = ground arith in
        rw s ((d, granted), ih rest w)

pub walk-Absent :
    (g : Guard) (i : ℕ) (above : List ContainerUrl) (child : Text) (record_child : Bool) {p : Plan}
    → Aligned g i above
    → walk g i above child record_child ≡ ok p
    → Absent g p.creations
walk-Absent g i [] child record_child {p} aligned h =
    let none_left : p.creations ≡ [] = unfold walk in ground arith in rw none_left tt
walk-Absent g i (a ∷ above) child record_child {p} aligned h =
    go (walk_cases g i a above child record_child h) λ rest.
      walk-Absent g (suc i) above (container_iri a) true {p = rest}
        (next-Aligned g i a above aligned)
  where
    go :
        Walked g i a above child record_child h
        → ((rest : Plan)
            → walk g (suc i) above (container_iri a) true ≡ ok rest
            → Absent g rest.creations)
        → Absent g p.creations
    go (nothing _ _ e) ih = let s : p.creations ≡ [] = ground arith in rw s tt
    go (last d granted _ _ e) ih = let s : p.creations ≡ [] = ground arith in rw s tt
    go (more d rest _ new w e) ih =
        let s : p.creations ≡ a.as_resource ∷ rest.creations =
          ground (arith, created_element g i a above aligned) in
        rw s (new, ih rest w)

abbrev pub recorded : Bool → Text → List Text
recorded record_child child = if record_child then child ∷ [] else []

-- Below a container that exists, each created container is linked into the one above it.
pub walk_links :
    (g : Guard) (i : ℕ) (above : List ContainerUrl) (child : Text) (record_child : Bool) {p : Plan}
    → Aligned g i above
    → any (λ a. member (container_iri a) g.present) above ≡ true
    → walk g i above child record_child ≡ ok p
    → children p.steps ≡ recorded record_child child ++ iris p.creations
walk_links g i [] child record_child aligned there h = cc
walk_links g i (a ∷ above) child record_child {p} aligned there h =
    go (walk_cases g i a above child record_child h) λ rest.
      walk_links g (suc i) above (container_iri a) true {p = rest}
        (next-Aligned g i a above aligned)
  where
    go :
        Walked g i a above child record_child h
        → ((rest : Plan)
            → any (λ a. member (container_iri a) g.present) above ≡ true
            → walk g (suc i) above (container_iri a) true ≡ ok rest
            → children rest.steps ≡ container_iri a ∷ iris rest.creations)
        → children p.steps ≡ recorded record_child child ++ iris p.creations
    go (nothing _ off e) ih = ground arith
    go (last d granted _ on e) ih = ground arith
    go (more d rest _ new w e) ih = elim (Bool-cases record_child) [
      | inl on ↦ ground (arith, ih rest (ground arith) w, created_element g i a above aligned)
      | inr off ↦ ground (arith, ih rest (ground arith) w, created_element g i a above aligned)
    ]
