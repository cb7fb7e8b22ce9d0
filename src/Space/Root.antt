-- ===== src/Space/Root.antt =====
-- Where the chain of `ancestors` ends: the root container of the space.
use quadpod.Prelude.{
  ◌≡◌, ◌≢◌, refl, ap, ◌∙◌, inl, inr, true, Option, none, some, List, [], ◌∷◌, ◌++◌, arith, nat_eq,
  list_eq, text_eq, Text, codes, starts_with, strip_suffix, eq-append_of_strip_suffix, through_last,
  through_last_split, Option-cases,
}
use native.Mathlib.Decide.{ℕ_discrete}
use quadpod.Space.Minted.{starts_with_split}
use quadpod.Space.Tree.{chain_induction, ancestors_top, ancestors_below}
use quadpod.Space.{ResourceUrl, ContainerUrl, parent, ancestors, trim_slash, with_path}

dec_eq : Discrete Text
dec_eq = hlevel ℕ_discrete

rooted_trim_slash :
    (s : Text)
    → ◌≢◌ {A = Text} (b'/' ∷ s) (codes "/")
    → (t : Text) × (trim_slash (b'/' ∷ s) ≡ b'/' ∷ t)
rooted_trim_slash s d = go (strip_suffix (codes "/") (b'/' ∷ s)) refl
  where
    go :
        (o : Option Text)
        → strip_suffix (codes "/") (b'/' ∷ s) ≡ o
        → (t : Text) × ((elim o [ some t ↦ t | none ↦ b'/' ∷ s ]) ≡ b'/' ∷ t)
    go none e = (s, refl)
    go (some []) e = absurd (d (eq-append_of_strip_suffix (codes "/") (b'/' ∷ s) e))
    go (some (c ∷ t)) e =
        let f = eq-append_of_strip_suffix (codes "/") (b'/' ∷ s) e in (t, ground arith)

through_last_rooted : (s : Text) → (r : Text) × (through_last b'/' (b'/' ∷ s) ≡ some r)
unfolding through_last
through_last_rooted s = elim (Option-cases (through_last b'/' s)) [
  | inl e ↦ (codes "/", rw e)
  | inr (r, e) ↦ (b'/' ∷ r, rw e)
]

rooted_front :
    (front rest s : Text)
    → ◌≡◌ {A = Text} (b'/' ∷ s) ((front ++ codes "/") ++ rest)
    → (t : Text) × (front ++ codes "/" ≡ b'/' ∷ t)
rooted_front [] rest s e = ([], refl)
rooted_front (c ∷ front) rest s e = (front ++ codes "/", ground arith)

-- A rooted URL other than the root has a parent, which is rooted.
parent_of_rooted :
    (u : ResourceUrl) (s : Text)
    → u.path ≡ b'/' ∷ s
    → u.path ≢ codes "/"
    → (c : ContainerUrl) × (parent u ≡ some c) × (t : Text) × (c.as_resource.path ≡ b'/' ∷ t)
unfolding parent
parent_of_rooted u s e d =
    let (t, trimmed) = rooted_trim_slash s (λ f. d (e ∙ f)) in
    let trim : trim_slash u.path ≡ b'/' ∷ t = ap trim_slash e ∙ trimmed in
    let (r, last) = through_last_rooted t in
    let (front, rest, p, q, _) = through_last_split b'/' (b'/' ∷ t) last in
    let (tail, rooted) = rooted_front front rest t (ground arith) in
    (
      record { as_resource = with_path u r },
      ground (arith, text_eq u.path (codes "/")),
      tail,
      ground arith,
    )

pub record EndsAtRoot (u : ResourceUrl) : Type 0 where
  pub front : List ContainerUrl
  pub root : ContainerUrl
  pub chain : ancestors u ≡ front ++ root ∷ []
  pub at_root : root.as_resource.path ≡ codes "/"

rooted_chain : (u : ResourceUrl) (s : Text) → u.path ≡ b'/' ∷ s → u.path ≢ codes "/" → EndsAtRoot u
rooted_chain =
    chain_induction (λ u. (s : Text) → u.path ≡ b'/' ∷ s → u.path ≢ codes "/" → EndsAtRoot u)
      (λ u e s p d. let (c, f, t, q) = parent_of_rooted u s p d in cc)
      λ u c e ih s p d.
        let (c', f, t, q) = parent_of_rooted u s p d in
        let same : c' ≡ c = cc in
        elim (dec_eq c.as_resource.path (codes "/")) [
          | yes top ↦ record {
            front = [];
            root = c;
            chain =
                ancestors_below u c e
                ∙ ap (λ r. c ∷ r)
                    (ancestors_top c.as_resource
                      (unfold parent in ground (arith, text_eq c.as_resource.path (codes "/"))));
            at_root = top;
          }
          | no more ↦
              let rest = ih t (cc) more in
              record {
                front = c ∷ rest.front;
                root = rest.root;
                chain = ancestors_below u c e ∙ ap (λ r. c ∷ r) rest.chain;
                at_root = rest.at_root;
              }
        ]

-- The chain above every rooted URL but the root ends at the root container.
pub ancestors-EndsAtRoot :
    (u : ResourceUrl) → starts_with (codes "/") u.path ≡ true → u.path ≢ codes "/" → EndsAtRoot u
ancestors-EndsAtRoot u rooted other =
    let (s, e) = starts_with_split (codes "/") u.path rooted in rooted_chain u s e other
