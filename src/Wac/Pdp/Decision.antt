-- ===== src/Wac/Pdp/Decision.antt =====
-- What `decide` and `grants_anything` of src/wac/pdp.rs answer, without the grouping.
use quadpod.Prelude.{
  ◌≡◌, ◌↔◌, refl, Bool, true, false, ◌&&◌, ◌||◌, Option, none, some, List, [], ◌∷◌, any,
  if◌then◌else◌, ◌==◌, arith, Bool-cases, inl, inr, Text, nat_eq, list_eq,
}
use quadpod.Terms.{NamedOrBlankNode, Triple, node_eq}
use quadpod.Wac.{Mode, read, write, append, control, AccessModes}
use quadpod.Wac.Pdp.{
  Agent, public, web_id, Groups, by_subject, has_object, matches_agent, grant, object_mode,
  grant_modes, decide_groups, decide, no_modes, acl_mode, acl_default, acl_access_to,
}
use quadpod.Wac.Pdp.Grouping.{of_subject, any-by_subject_iff}

-- The mode itself, without the subsumption of `allows`.
abbrev pub has : AccessModes → Mode → Bool
has m read = m.read
has m write = m.write
has m append = m.append
has m control = m.control

abbrev pub same_mode : Mode → Mode → Bool
same_mode read read = true
same_mode write write = true
same_mode append append = true
same_mode control control = true
same_mode _ _ = false

abbrev pub is_mode : Mode → Option Mode → Bool
is_mode mode none = false
is_mode mode (some m) = same_mode mode m

-- The authorization has a mode triple for `mode`.
abbrev pub names_mode : Mode → List Triple → Bool
names_mode mode ts = any (λ t. t.predicate == acl_mode && is_mode mode (object_mode t.object)) ts

abbrev pub scope_of : Bool → Text
scope_of inherited = if inherited then acl_default else acl_access_to

-- One authorization grants `mode` on `governed` to the agent.
abbrev pub authorizes : Text → Agent → Text → Mode → List Triple → Bool
authorizes scope agent governed mode ts =
    (has_object ts scope governed && matches_agent ts agent) && names_mode mode ts

has-grant :
    (mode : Mode) (o : Option Mode) (m : AccessModes)
    → has (grant o m) mode ≡ (is_mode mode o || has m mode)
unfolding grant
has-grant mode none m = refl
has-grant read (some x) m = ground arith
has-grant write (some x) m = ground arith
has-grant append (some x) m = ground arith
has-grant control (some x) m = ground arith

or_move : (a b c : Bool) → (a || (b || c)) ≡ ((b || a) || c)
or_move true true c = refl
or_move true false c = refl
or_move false true c = refl
or_move false false c = refl

has-grant_modes :
    (mode : Mode) (ts : List Triple) (m : AccessModes)
    → has (grant_modes ts m) mode ≡ (names_mode mode ts || has m mode)
unfolding grant_modes
has-grant_modes mode [] m = refl
has-grant_modes mode (t ∷ ts) m = elim (Bool-cases (t.predicate == acl_mode)) [
  | inl e ↦
      rw
        (
          e,
          has-grant_modes mode ts (grant (object_mode t.object) m),
          has-grant mode (object_mode t.object) m,
        )
        (or_move (names_mode mode ts) (is_mode mode (object_mode t.object)) (has m mode))
  | inr e ↦ rw (e, has-grant_modes mode ts m)
]

has-decide_groups :
    (gs : Groups) (scope : Text) (agent : Agent) (governed : Text) (mode : Mode) (m : AccessModes)
    → has (decide_groups gs scope agent governed m) mode
      ≡ (any (λ g. authorizes scope agent governed mode g.1) gs || has m mode)
unfolding decide_groups
has-decide_groups [] scope agent governed mode m = refl
has-decide_groups ((s, ts) ∷ gs) scope agent governed mode m =
    elim (Bool-cases (has_object ts scope governed && matches_agent ts agent)) [
      | inl e ↦
          rw
            (
              e,
              has-decide_groups gs scope agent governed mode (grant_modes ts m),
              has-grant_modes mode ts m,
            )
            (or_move (any (λ g. authorizes scope agent governed mode g.1) gs) (names_mode mode ts)
              (has m mode))
      | inr e ↦ rw (e, has-decide_groups gs scope agent governed mode m)
    ]

-- An agent holds a mode exactly when some subject of the document has, among its own triples, the
-- scope triple for the governed resource, an agent clause that matches, and the mode.
pub decide_iff :
    (acl : List Triple) (agent : Agent) (governed : Text) (inherited : Bool) (mode : Mode)
    → (has (decide acl agent governed inherited) mode ≡ true) ↔ (
        (s : NamedOrBlankNode) × (authorizes
            (scope_of inherited)
            agent
            governed
            mode
            (of_subject s acl)
          ≡ true))
unfolding decide
decide_iff acl agent governed inherited mode =
    let groups =
      any-by_subject_iff (authorizes (scope_of inherited) agent governed mode) acl
        (unfold has_object in refl) in
    let total =
      has-decide_groups (by_subject acl) (scope_of inherited) agent governed mode no_modes in
    (λ h. groups.0 (or_no_modes mode _ (rw total at h)), λ s. rw total (or_true _ _ (groups.1 s)))
  where
    or_no_modes : (mode : Mode) (a : Bool) → (a || has no_modes mode) ≡ true → a ≡ true
    or_no_modes read a h = ground arith
    or_no_modes write a h = ground arith
    or_no_modes append a h = ground arith
    or_no_modes control a h = ground arith

    or_true : (a b : Bool) → a ≡ true → (a || b) ≡ true
    or_true a b h = ground arith

matches_agent_mono :
    (ts : List Triple) (webid : Text)
    → matches_agent ts public ≡ true
    → matches_agent ts (web_id webid) ≡ true
unfolding matches_agent
matches_agent_mono ts webid h = ground arith

-- Whatever the public holds, every authenticated agent holds.
pub decide_public_le :
    (acl : List Triple) (webid governed : Text) (inherited : Bool) (mode : Mode)
    → has (decide acl public governed inherited) mode ≡ true
    → has (decide acl (web_id webid) governed inherited) mode ≡ true
decide_public_le acl webid governed inherited mode h =
    let (s, e) = (decide_iff acl public governed inherited mode).0 h in
    let ts = of_subject s acl in
    (decide_iff acl (web_id webid) governed inherited mode).1
      (s, ground (arith, matches_agent_mono ts webid))
