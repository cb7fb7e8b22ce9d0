-- ===== src/Wac/Pdp/Grants.antt =====
-- `grants_anything` of src/wac/pdp.rs against `decide`.
use quadpod.Prelude.{
  ◌≡◌, ◌↔◌, refl, Bool, true, false, ◌&&◌, ◌||◌, Option, none, some, List, [], ◌∷◌, any, any_mono,
  is_some, ◌==◌, arith, Bool-cases, inl, inr, Text, nat_eq, list_eq, text_eq,
}
use quadpod.Terms.{NamedOrBlankNode, Term, Triple, node_eq}
use quadpod.Wac.{Mode, read, write, append, control}
use quadpod.Wac.Pdp.{
  Agent, public, web_id, by_subject, has_object, matches_agent, object_mode, decide, names_someone,
  has_recognized_mode, grants_anything, acl_mode, acl_default, acl_access_to, acl_agent, is_iri,
  is_named_node,
}
use quadpod.Wac.Pdp.Grouping.{of_subject, any-by_subject_iff}
use quadpod.Wac.Pdp.Decision.{has, names_mode, is_mode, scope_of, decide_iff}

iri_of_named : (o : Term) → is_named_node o ≡ true → (iri : Text) × (is_iri o iri ≡ true)
iri_of_named (Term.named_node n) h = (n, (text_eq n n).1 refl)
iri_of_named _ h = cc

named_of_iri : (o : Term) (iri : Text) → is_iri o iri ≡ true → is_named_node o ≡ true
named_of_iri (Term.named_node n) iri h = refl
named_of_iri _ iri h = cc

-- An agent triple names some WebID.
named_agent :
    (ts : List Triple)
    → any (λ t. t.predicate == acl_agent && is_named_node t.object) ts ≡ true
    → (webid : Text) × (has_object ts acl_agent webid ≡ true)
unfolding has_object
named_agent [] h = cc
named_agent (t ∷ ts) h = elim (Bool-cases (t.predicate == acl_agent && is_named_node t.object)) [
  | inl here ↦ let (iri, e) = iri_of_named t.object (ground arith) in (iri, ground (arith, e))
  | inr later ↦ let (iri, e) = named_agent ts (ground arith) in (iri, ground (arith, e))
]

agent_triple :
    (ts : List Triple) (webid : Text)
    → has_object ts acl_agent webid ≡ true
    → any (λ t. t.predicate == acl_agent && is_named_node t.object) ts ≡ true
unfolding has_object
agent_triple ts webid h =
    any_mono (λ t. t.predicate == acl_agent && is_iri t.object webid)
      (λ t. t.predicate == acl_agent && is_named_node t.object)
      (λ t e. ground (arith, named_of_iri t.object webid)) ts h

-- `names_someone` is `matches_agent` for some agent.
pub names_someone_iff :
    (ts : List Triple)
    → (names_someone ts ≡ true) ↔ ((agent : Agent) × (matches_agent ts agent ≡ true))
unfolding names_someone matches_agent
names_someone_iff ts = (
  λ h. elim (Bool-cases (any (λ t. t.predicate == acl_agent && is_named_node t.object) ts)) [
    | inl named ↦ let (webid, e) = named_agent ts named in (web_id webid, ground (arith, e))
    | inr others ↦ (web_id [], ground arith)
  ],
  λ s. from s.0 (s.1),
)
  where
    from : (agent : Agent) → matches_agent ts agent ≡ true → names_someone ts ≡ true
    from public h = ground arith
    from (web_id w) h = ground (arith, agent_triple ts w)

mode_of_some : (o : Option Mode) → is_some o ≡ true → (mode : Mode) × (is_mode mode o ≡ true)
mode_of_some none h = cc
mode_of_some (some read) h = (read, refl)
mode_of_some (some write) h = (write, refl)
mode_of_some (some append) h = (append, refl)
mode_of_some (some control) h = (control, refl)

some_of_mode : (mode : Mode) (o : Option Mode) → is_mode mode o ≡ true → is_some o ≡ true
some_of_mode mode none h = h
some_of_mode mode (some m) h = refl

mode_of_recognized :
    (ts : List Triple) → has_recognized_mode ts ≡ true → (mode : Mode) × (names_mode mode ts ≡ true)
unfolding has_recognized_mode
mode_of_recognized [] h = cc
mode_of_recognized (t ∷ ts) h =
    elim (Bool-cases (t.predicate == acl_mode && is_some (object_mode t.object))) [
      | inl here ↦
          let (mode, e) = mode_of_some (object_mode t.object) (ground arith) in
          (mode, ground (arith, e))
      | inr later ↦
          let (mode, e) = mode_of_recognized ts (ground arith) in (mode, ground (arith, e))
    ]

-- `has_recognized_mode` is a mode triple for some mode.
pub has_recognized_mode_iff :
    (ts : List Triple)
    → (has_recognized_mode ts ≡ true) ↔ ((mode : Mode) × (names_mode mode ts ≡ true))
unfolding has_recognized_mode
has_recognized_mode_iff ts = (
  mode_of_recognized ts,
  λ s.
      any_mono (λ t. t.predicate == acl_mode && is_mode s.0 (object_mode t.object))
        (λ t. t.predicate == acl_mode && is_some (object_mode t.object))
        (λ t e. ground (arith, some_of_mode s.0 (object_mode t.object))) ts (s.1),
)

-- A document grants something on a resource exactly when some agent holds some mode on it under
-- some scope.
pub grants_anything_iff :
    (acl : List Triple) (governed : Text)
    → (grants_anything acl governed ≡ true) ↔ (
        (agent : Agent) × (inherited : Bool) × (mode : Mode) × (has
            (decide acl agent governed inherited)
            mode
          ≡ true))
grants_anything_iff acl governed = (
  λ h.
      let (s, e) = some_subject.0 (unfold grants_anything in h) in
      let ts = of_subject s acl in
      let (agent, a) = (names_someone_iff ts).0 (ground arith) in
      let (mode, m) = (has_recognized_mode_iff ts).0 (ground arith) in
      elim (Bool-cases (has_object ts acl_access_to governed)) [
        | inl direct ↦ (
          agent,
          false,
          mode,
          (decide_iff acl agent governed false mode).1 (s, ground (arith, a, m)),
        )
        | inr other ↦ (
          agent,
          true,
          mode,
          (decide_iff acl agent governed true mode).1 (s, ground (arith, a, m)),
        )
      ],
  λ g.
      let (s, e) = (decide_iff acl g.0 governed g.1 g.2).0 (g.3) in
      let ts = of_subject s acl in
      let someone = (names_someone_iff ts).1 (g.0, ground arith) in
      let mode = (has_recognized_mode_iff ts).1 (g.2, ground arith) in
      unfold grants_anything in some_subject.1 (s, in_scope ts g.1 (ground arith) someone mode),
)
  where
    grants : List Triple → Bool
    grants ts =
        (has_object ts acl_access_to governed || has_object ts acl_default governed)
        && (names_someone ts && has_recognized_mode ts)

    some_subject :
        (any (λ g. grants g.1) (by_subject acl) ≡ true)
        ↔ ((s : NamedOrBlankNode) × (grants (of_subject s acl) ≡ true))
    some_subject = any-by_subject_iff grants acl (unfold has_object in refl)

    in_scope :
        (ts : List Triple) (inherited : Bool)
        → has_object ts (scope_of inherited) governed ≡ true
        → names_someone ts ≡ true
        → has_recognized_mode ts ≡ true
        → grants ts ≡ true
    in_scope ts true h k m = ground arith
    in_scope ts false h k m = ground arith
