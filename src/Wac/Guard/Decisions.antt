-- ===== src/Wac/Guard/Decisions.antt =====
-- What the decision methods of the guard answer.
use quadpod.Prelude.{
  ◌||◌, refl, ℕ, ◌≡◌, ap, Bool, true, false, not, ◌||◌, none, some, List, [], ◌∷◌, ◌++◌, is_empty,
  Map, get, ok, err, All, arith, Option-cases, inl, inr,
}
use quadpod.Terms.{Triple}
use quadpod.Space.{ResourceUrl}
use quadpod.Wac.{Mode, allows, Decision}
use quadpod.Wac.Pdp.{Agent, public, web_id, decide}
use quadpod.Wac.Pdp.Decision.{has, decide_public_le}
use quadpod.Wac.Guard.{
  Denial, deny_agent, Guard, find_acl, decide_on, decide_from, authorize, required_mode,
}

-- The nearest ACL of a chain: nothing nearer has one, and it counts as inherited where the search
-- began above the target or something is nearer.
pub record IsNearest (start : Bool) (acls : Map (List Triple)) (chain : List ResourceUrl)
    (element : ResourceUrl) (triples : List Triple) (inherited : Bool) : Type 0 where
  pub nearer : List ResourceUrl
  pub above : List ResourceUrl
  pub position : chain ≡ nearer ++ element ∷ above
  pub none_nearer : All (λ r. get r.iri acls ≡ none) nearer
  pub found : get element.iri acls ≡ some triples
  pub is_inherited : inherited ≡ (start || not (is_empty nearer))

pub find_acl-IsNearest :
    (acls : Map (List Triple)) (chain : List ResourceUrl) (start : Bool) {e : ResourceUrl}
    {ts : List Triple} {inh : Bool}
    → find_acl acls chain start ≡ some (e, ts, inh)
    → IsNearest start acls chain e ts inh
unfolding find_acl
find_acl-IsNearest acls [] start h = cc
find_acl-IsNearest acls (r ∷ rs) start {e} {ts} {inh} h = elim (Option-cases (get r.iri acls)) [
  | inr (t, found) ↦ record {
    nearer = [];
    above = rs;
    position = ground arith;
    none_nearer = tt;
    found = ground arith;
    is_inherited = ground arith;
  }
  | inl missing ↦
      let rest : IsNearest true acls rs e ts inh =
        find_acl-IsNearest acls rs true (rw (missing, find_acl) at h) in
      record {
        nearer = r ∷ rest.nearer;
        above = rest.above;
        position = ap (λ l. r ∷ l) rest.position;
        none_nearer = (missing, rest.none_nearer);
        found = rest.found;
        is_inherited = ground (arith, rest.is_inherited);
      }
]

find_acl_at :
    (acls : Map (List Triple)) (nearer above : List ResourceUrl) (e : ResourceUrl)
    (ts : List Triple) (start : Bool)
    → All (λ r. get r.iri acls ≡ none) nearer
    → get e.iri acls ≡ some ts
    → find_acl acls (nearer ++ e ∷ above) start ≡ some (e, ts, start || not (is_empty nearer))
unfolding find_acl
find_acl_at acls [] above e ts start h found = ground arith
find_acl_at acls (r ∷ nearer) above e ts start h found =
    ground (arith, h.0, find_acl_at acls nearer above e ts true (h.1) found)

pub find_acl_of_IsNearest :
    {acls : Map (List Triple)} {chain : List ResourceUrl} {start : Bool} {e : ResourceUrl}
    {ts : List Triple} {inh : Bool}
    → IsNearest start acls chain e ts inh
    → find_acl acls chain start ≡ some (e, ts, inh)
find_acl_of_IsNearest {acls} {start} {e} {ts} n =
    rw (n.position, n.is_inherited)
      (find_acl_at acls n.nearer n.above e ts start n.none_nearer n.found)

-- The nearest ACL decides alone: whatever ACLs lie further up, the answer is the decision on the
-- nearest one, through its default rules if it is inherited.
authorize_nearest :
    (g : Guard) (mode : Mode) {element : ResourceUrl} {triples : List Triple} {inherited : Bool}
    → IsNearest false g.acls g.chain element triples inherited
    → authorize g mode ≡ decide_on g.agent (required_mode g.target mode) element triples inherited
unfolding authorize decide_from
authorize_nearest g mode n = rw (find_acl_of_IsNearest n, decide_from)

-- A grant: some ACL of the chain is the nearest one, the modes reported are its decision, they
-- cover the mode required, and the public holds none that the agent does not hold.
pub record IsGranted (g : Guard) (mode : Mode) (d : Decision) : Type 0 where
  pub element : ResourceUrl
  pub triples : List Triple
  pub inherited : Bool
  pub nearest : IsNearest false g.acls g.chain element triples inherited
  pub user : d.user ≡ decide triples g.agent element.iri inherited
  pub covers : allows d.user (required_mode g.target mode) ≡ true
  pub public_le : (m : Mode) → (not (has d.public m) || has d.user m) ≡ true

pub record IsDecided (agent : Agent) (mode : Mode) (element : ResourceUrl) (triples : List Triple)
    (inherited : Bool) (d : Decision) : Type 0 where
  pub user : d.user ≡ decide triples agent element.iri inherited
  pub covers : allows d.user mode ≡ true
  pub public_le : (m : Mode) → (not (has d.public m) || has d.user m) ≡ true

or_not : (b : Bool) → (not b || b) ≡ true
or_not true = refl
or_not false = refl

pub decide_on-IsDecided :
    (agent : Agent) (mode : Mode) (element : ResourceUrl) (triples : List Triple) (inherited : Bool)
    {d : Decision}
    → decide_on agent mode element triples inherited ≡ ok d
    → IsDecided agent mode element triples inherited d
unfolding decide_on
decide_on-IsDecided public mode element triples inherited {d} h =
    let user : d.user ≡ decide triples public element.iri inherited = ground arith in
    let same : d.public ≡ d.user = ground arith in
    record { user = user; covers = ground arith; public_le = λ m. rw same (or_not (has d.user m)) }
decide_on-IsDecided (web_id w) mode element triples inherited {d} h =
    let user : d.user ≡ decide triples (web_id w) element.iri inherited = ground arith in
    let everyone : d.public ≡ decide triples public element.iri inherited = ground arith in
    record {
      user = user;
      covers = ground arith;
      public_le = λ m.
          rw (user, everyone) (ground (arith, decide_public_le triples w element.iri inherited m));
    }

-- A request is granted only if some ACL of the chain is the nearest one, the modes reported are its
-- decision for the agent and cover the mode required, and the public's are among them.
pub authorize-IsGranted :
    (g : Guard) (mode : Mode) {d : Decision} → authorize g mode ≡ ok d → IsGranted g mode d
unfolding authorize decide_from
authorize-IsGranted g mode {d} h = elim (Option-cases (find_acl g.acls g.chain false)) [
  | inl missing ↦ absurd (ground arith)
  | inr ((e, ts, inh), found) ↦
      let decided =
        decide_on-IsDecided g.agent (required_mode g.target mode) e ts inh
          (rw (found, decide_from) at h) in
      record {
        element = e;
        triples = ts;
        inherited = inh;
        nearest = find_acl-IsNearest g.acls g.chain false found;
        user = decided.user;
        covers = decided.covers;
        public_le = decided.public_le;
      }
]

-- A decision that refuses says only whether credentials were presented.
pub decide_from_refusal :
    (g : Guard) (start : ℕ) (mode : Mode) {e : Denial}
    → decide_from g start mode ≡ err e
    → e ≡ deny_agent g.agent
unfolding decide_from decide_on
decide_from_refusal g start mode h = ground arith
