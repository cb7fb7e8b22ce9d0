-- ===== src/Space/Tree.antt =====
-- `parent` and `ancestors`: the container chain above a URL.
use quadpod.Prelude.{
  ℕ, zero, suc, ◌≤◌, ◌<◌, ◌≡◌, refl, ap, ◌∙◌, inl, inr, Option, none, some, List, [], ◌∷◌, ◌++◌,
  arith, nat_eq, list_eq, Text, codes, strip_suffix, strip_suffix-append, eq-append_of_strip_suffix,
  through_last, through_last_split, length-through_last, length, length-append, Option-cases,
  append_assoc, append-nil, All,
}
use quadpod.Space.{ResourceUrl, ContainerUrl, parent, ancestors, ancestors_from, trim_slash}

trim_slash_shorter : (p : Text) → length (trim_slash p) ≤ length p
trim_slash_shorter p = elim (Option-cases (strip_suffix (codes "/") p)) [
  | inl e ↦ ground arith
  | inr (t, e) ↦
      let f = eq-append_of_strip_suffix (codes "/") p e in
      ground (arith, ap length f, length-append t (codes "/"))
]

-- A text that does not end with a slash is longer than its front up to the last slash.
longer_than_front :
    (p front f rest : Text)
    → strip_suffix (codes "/") p ≡ none
    → front ≡ f ++ codes "/"
    → p ≡ front ++ rest
    → length front < length p
longer_than_front p front f [] open_end e d =
    let here : p ≡ f ++ codes "/" = d ∙ append-nil front ∙ e in
    absurd (ground (arith, strip_suffix-append (codes "/") f))
longer_than_front p front f (c ∷ r) open_end e d =
    omega (arith, ap length d, length-append front (c ∷ r))

-- What is cut off is not lost, and the front is shorter than the path.
shorter_front :
    (p : Text) {front : Text}
    → through_last b'/' (trim_slash p) ≡ some front
    → length front < length p
shorter_front p {front} h = elim (Option-cases (strip_suffix (codes "/") p)) [
  | inl e ↦
      let same : through_last b'/' p ≡ some front = ground arith in
      let (f, rest, q, d, _) = through_last_split b'/' p same in
      longer_than_front p front f rest e q d
  | inr (t, e) ↦
      let f = eq-append_of_strip_suffix (codes "/") p e in
      let g : through_last b'/' t ≡ some front = ground arith in
      omega (arith, ap length f, length-append t (codes "/"), length-through_last b'/' t g)
]

pub length-parent :
    (u : ResourceUrl) {c : ContainerUrl}
    → parent u ≡ some c
    → length c.as_resource.path < length u.path
unfolding parent
length-parent u {c} h = elim (Option-cases (through_last b'/' (trim_slash u.path))) [
  | inl e ↦ absurd (ground arith)
  | inr (front, e) ↦
      let same : c.as_resource.path ≡ front = ground arith in rw same (shorter_front u.path e)
]

-- With enough fuel the loop does not depend on it.
ancestors_from_fuel :
    (n m : ℕ) (u : ResourceUrl)
    → length u.path ≤ n
    → length u.path ≤ m
    → ancestors_from n u ≡ ancestors_from m u
unfolding ancestors_from
ancestors_from_fuel zero zero u h k = refl
ancestors_from_fuel zero (suc m) u h k = elim (Option-cases (parent u)) [
  | inl e ↦ ground arith
  | inr (c, e) ↦ absurd (omega (arith, length-parent u e))
]
ancestors_from_fuel (suc n) zero u h k = elim (Option-cases (parent u)) [
  | inl e ↦ ground arith
  | inr (c, e) ↦ absurd (omega (arith, length-parent u e))
]
ancestors_from_fuel (suc n) (suc m) u h k = elim (Option-cases (parent u)) [
  | inl e ↦ ground arith
  | inr (c, e) ↦
      let shorter = length-parent u e in
      ground (arith, ancestors_from_fuel n m c.as_resource (omega arith) (omega arith))
]

-- The loop of `ancestors` runs to its end: the chain of a URL is its parent, if it has one, and
-- then the parent's own chain.
pub ancestors_lem :
    (u : ResourceUrl)
    → ancestors u ≡ (elim (parent u) [ none ↦ [] | some c ↦ c ∷ ancestors c.as_resource ])
unfolding ancestors
ancestors_lem u =
    ancestors_from_fuel (length u.path) (suc (length u.path)) u (omega arith) (omega arith)
    ∙ unfold ancestors_from in one_round (parent u) refl
  where
    one_round :
        (o : Option ContainerUrl)
        → parent u ≡ o
        → (elim o [ none ↦ [] | some c ↦ c ∷ ancestors_from (length u.path) c.as_resource ])
          ≡ (elim o [ none ↦ [] | some c ↦ c ∷ ancestors c.as_resource ])
    one_round none e = refl
    one_round (some c) e =
        let shorter = length-parent u e in
        ap (λ r. c ∷ r)
          (ancestors_from_fuel (length u.path) (length c.as_resource.path) c.as_resource
            (omega arith) (omega arith))

-- `c` is a container whose path is a prefix of `path`.
pub record IsAbove (path : Text) (c : ContainerUrl) : Type 0 where
  pub front : Text
  pub rest : Text
  pub is_container : c.as_resource.path ≡ front ++ codes "/"
  pub is_prefix : path ≡ c.as_resource.path ++ rest

trim_slash_split : (p : Text) → (end : Text) × (p ≡ trim_slash p ++ end)
trim_slash_split p = elim (Option-cases (strip_suffix (codes "/") p)) [
  | inl e ↦ ([], ground (arith, append-nil p))
  | inr (t, e) ↦ (codes "/", ground (arith, eq-append_of_strip_suffix (codes "/") p e))
]

parent-IsAbove : (u : ResourceUrl) {c : ContainerUrl} → parent u ≡ some c → IsAbove u.path c
unfolding parent
parent-IsAbove u {c} h = elim (Option-cases (through_last b'/' (trim_slash u.path))) [
  | inl e ↦ absurd (ground arith)
  | inr (r, e) ↦
      let (front, rest, p, q, _) = through_last_split b'/' (trim_slash u.path) e in
      let (end, d) = trim_slash_split u.path in
      record {
        front = front;
        rest = rest ++ end;
        is_container = ground arith;
        is_prefix = ground (arith, append_assoc c.as_resource.path rest end);
      }
]

IsAbove-trans :
    {p q : Text} {c : ContainerUrl} (rest : Text) → p ≡ q ++ rest → IsAbove q c → IsAbove p c
IsAbove-trans {c} rest e a = record {
  front = a.front;
  rest = a.rest ++ rest;
  is_container = a.is_container;
  is_prefix = ground (arith, append_assoc c.as_resource.path a.rest rest);
}

All-IsAbove_trans :
    (p q rest : Text) (l : List ContainerUrl)
    → p ≡ q ++ rest
    → All (IsAbove q) l
    → All (IsAbove p) l
All-IsAbove_trans p q rest [] e h = tt
All-IsAbove_trans p q rest (c ∷ l) e h =
    (IsAbove-trans rest e h.0, All-IsAbove_trans p q rest l e h.1)

-- Induction along the chain of parents, which ends because paths become shorter.
module _ (P : ResourceUrl → Type 0) (top : (u : ResourceUrl) → parent u ≡ none → P u)
    (below : (u : ResourceUrl) (c : ContainerUrl) → parent u ≡ some c → P c.as_resource → P u) where
  chain_within : (n : ℕ) (u : ResourceUrl) → length u.path ≤ n → P u
  chain_within zero u h = elim (Option-cases (parent u)) [
    | inl e ↦ top u e
    | inr (c, e) ↦ absurd (omega (arith, length-parent u e))
  ]
  chain_within (suc n) u h = elim (Option-cases (parent u)) [
    | inl e ↦ top u e
    | inr (c, e) ↦
        let shorter = length-parent u e in below u c e (chain_within n c.as_resource (omega arith))
  ]

  pub chain_induction : (u : ResourceUrl) → P u
  chain_induction u = chain_within (length u.path) u (omega arith)

pub ancestors_top : (u : ResourceUrl) → parent u ≡ none → ancestors u ≡ []
ancestors_top u e = rw (ancestors_lem u, e)

pub ancestors_below :
    (u : ResourceUrl) (c : ContainerUrl)
    → parent u ≡ some c
    → ancestors u ≡ c ∷ ancestors c.as_resource
ancestors_below u c e = rw (ancestors_lem u, e)

-- Every ancestor of a URL is a container whose path is a prefix of the URL's.
pub ancestors-IsAbove : (u : ResourceUrl) → All (IsAbove u.path) (ancestors u)
ancestors-IsAbove =
    chain_induction (λ u. All (IsAbove u.path) (ancestors u)) (λ u e. rw (ancestors_top u e) tt)
      λ u c e ih.
        let a = parent-IsAbove u e in
        rw (ancestors_below u c e) (
          a,
          All-IsAbove_trans u.path c.as_resource.path a.rest (ancestors c.as_resource) a.is_prefix
              ih,
        )
