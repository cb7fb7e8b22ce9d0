-- ===== src/Http/Allowed.antt =====
-- What the guard allowed, where the handler of `DELETE` of src/http.rs goes on.
use mathlib.Core.Path.{subst}
use mathlib.Core.List.{Memᴰ}
use mathlib.Core.List.Memᴰ
use quadpod.Prelude.{
  ◌≡◌, ◌⊎◌, inl, inr, refl, ap, sym, ◌∙◌, ℕ, Bool, true, false, Option, List, [], ◌∷◌, map, retain,
  nat_eq, list_eq, Text, Result, ok, member, Result-cases, Option-cases, Bool-cases, arith,
}
use quadpod.Terms.{Triple}
use quadpod.Space.{AuxKind, acl, ResourceUrl, AuxUrl, Target, all_kinds, aux_of, ancestors}
use quadpod.Resource.{ResourceError}
use quadpod.Wac.{Mode, write, control, allows, Decision}
use quadpod.Wac.Pdp.{Agent, decide}
use quadpod.Wac.Prp.{Row, load_chain_acls}
use quadpod.Wac.Guard.{
  Guard, element, subject_of, chain_of, chain_head, candidates, probe, find_acl, from_start,
  decide_from, authorize_parent, authorize_aux, required_mode_for_aux,
}
use quadpod.Wac.Guard.Decisions.{IsNearest, find_acl-IsNearest, decide_on-IsDecided}
use quadpod.Http.Delete.{present_auxes}

-- The agent holds a mode by the nearest ACL of a chain.
pub record Holds (g : Guard) (chain : List ResourceUrl) (mode : Mode) : Type 0 where
  pub element : ResourceUrl
  pub triples : List Triple
  pub inherited : Bool
  pub nearest : IsNearest false g.acls chain element triples inherited
  pub covers : allows (decide triples g.agent element.iri inherited) mode ≡ true

decide_from-Holds :
    (g : Guard) (start : ℕ) (mode : Mode) {d : Decision}
    → decide_from g start mode ≡ ok d
    → Holds g (from_start g.chain start) mode
unfolding decide_from
decide_from-Holds g start mode {d} h =
    elim (Option-cases (find_acl g.acls (from_start g.chain start) false)) [
      | inl missing ↦ absurd (ground arith)
      | inr ((e, ts, inh), found) ↦
          let decided = decide_on-IsDecided g.agent mode e ts inh (rw (found, decide_from) at h) in
          record {
            element = e;
            triples = ts;
            inherited = inh;
            nearest = find_acl-IsNearest g.acls (from_start g.chain start) false found;
            covers = ap (λ m. allows m mode) (sym decided.user) ∙ decided.covers;
          }
    ]

-- Above the target, if anything is.
pub authorize_parent-Holds :
    (g : Guard) (u : ResourceUrl) (above : List ResourceUrl) (mode : Mode) {o : Option Decision}
    → g.chain ≡ u ∷ above
    → authorize_parent g mode ≡ ok o
    → (above ≡ []) ⊎ Holds g above mode
unfolding authorize_parent
authorize_parent-Holds g u [] mode e h = inl refl
authorize_parent-Holds g u (p ∷ above) mode e h = elim (Result-cases (decide_from g 1 mode)) [
  | inl (d, hd) ↦
      inr (subst (λ c. Holds g c mode) (ap (λ c. from_start c 1) e) (decide_from-Holds g 1 mode hd))
  | inr (x, hx) ↦ absurd (ground (arith, h, e, hx))
]

-- The auxiliaries that are there, and that the agent may control them.
pub record MayTake (g : Guard) (u : ResourceUrl) (ks : List AuxKind) (named : List AuxUrl)
    : Type 0 where
  pub those_present : named ≡ map (aux_of u) (retain (λ k. member (aux_of u k).iri g.present) ks)
  pub controlled :
      (k : AuxKind) → Memᴰ k ks → member (aux_of u k).iri g.present ≡ true → Holds g g.chain control

pub present_auxes-MayTake :
    (g : Guard) (u : ResourceUrl) (ks : List AuxKind) {named : List AuxUrl}
    → chain_head g ≡ u
    → present_auxes g u ks ≡ ok named
    → MayTake g u ks named
unfolding present_auxes authorize_aux required_mode_for_aux
present_auxes-MayTake g u [] head h = record {
  those_present = ground (arith, h);
  controlled = λ k m. elim m [ ];
}
present_auxes-MayTake g u (acl ∷ ks) {named} head h = elim (Result-cases (present_auxes g u ks)) [
  | inr (x, hx) ↦ absurd (ground (arith, h, hx))
  | inl (rest, hr) ↦
      let taken = present_auxes-MayTake g u ks head hr in
      elim (Bool-cases (member (aux_of u acl).iri g.present)) [
        | inr absent ↦
            let same : named ≡ rest = ground (arith, h, hr, absent, head) in
            record {
              those_present = rw absent (same ∙ taken.those_present);
              controlled = λ k m there. elim (Memᴰ.cases_cons m) [
                | inl e ↦ absurd (ground (arith, there, absent, e))
                | inr later ↦ taken.controlled k later there
              ];
            }
        | inl there ↦ elim (Result-cases (decide_from g 0 control)) [
          | inr (x, hx) ↦ absurd (ground (arith, h, hr, there, head, hx))
          | inl (d, hd) ↦
              let same : named ≡ aux_of u acl ∷ rest = ground (arith, h, hr, there, head, hd) in
              record {
                those_present = rw there (same ∙ ap (λ l. aux_of u acl ∷ l) taken.those_present);
                controlled = λ k m present. decide_from-Holds g 0 control hd;
              }
        ]
      ]
]

pub probe-chain :
    (exists_many : List Text → Result ResourceError (List Text))
    (query_solutions : Text → Result ResourceError (List Row)) (agent : Agent) (target : Target)
    {g : Guard}
    → probe exists_many query_solutions agent target ≡ ok g
    → g.chain ≡ chain_of target
unfolding probe
probe-chain exists_many query_solutions agent target {g} h =
    elim (Result-cases (exists_many (candidates (chain_of target)))) [
      | inr (e, he) ↦ absurd (ground (arith, h, he))
      | inl (present, hp) ↦
          elim (Result-cases (load_chain_acls query_solutions (chain_of target) present)) [
            | inr (e, he) ↦ absurd (ground (arith, h, hp, he))
            | inl (acls, ha) ↦ ground (arith, h, hp, ha)
          ]
    ]

abbrev pub above : ResourceUrl → List ResourceUrl
above u = map (λ c. c.as_resource) (ancestors u)

-- What allows that a subject goes with its auxiliaries, which are then named.
pub record MayCascade (g : Guard) (u : ResourceUrl) (named : List AuxUrl) : Type 0 where
  pub by_parent : (above u ≡ []) ⊎ Holds g (above u) write
  pub taken : MayTake g u all_kinds named

pub allowed-MayCascade :
    (g : Guard) (u : ResourceUrl) {o : Option Decision} {named : List AuxUrl}
    → g.chain ≡ u ∷ above u
    → authorize_parent g write ≡ ok o
    → present_auxes g u all_kinds ≡ ok named
    → MayCascade g u named
unfolding chain_head
allowed-MayCascade g u chain by_parent by_auxes = record {
  by_parent = authorize_parent-Holds g u (above u) write chain by_parent;
  taken =
      present_auxes-MayTake g u all_kinds (ap (λ c. element c 0 (subject_of g.target)) chain)
        by_auxes;
}
