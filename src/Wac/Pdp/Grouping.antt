-- ===== src/Wac/Pdp/Grouping.antt =====
-- `by_subject` of src/wac/pdp.rs: each group holds the triples of its subject, in order.
use quadpod.Prelude.{
  ◌≡◌, ◌↔◌, refl, sym, Bool, true, false, not, ◌&&◌, List, [], ◌∷◌, ◌++◌, append_assoc, append-nil,
  any, if◌then◌else◌, ◌==◌, arith, Bool-cases, inl, inr,
}
use quadpod.Terms.{NamedOrBlankNode, Triple, node_eq}
use quadpod.Wac.Pdp.{Groups, push, push_all, by_subject}

-- The triples of the document whose subject is `s`.
pub of_subject : NamedOrBlankNode → List Triple → List Triple
of_subject s [] = []
of_subject s (t ∷ ts) = let rest = of_subject s ts in if s == t.subject then t ∷ rest else rest

find : NamedOrBlankNode → Groups → List Triple
find s [] = []
find s ((k, ts) ∷ gs) = if k == s then ts else find s gs

abbrev same_iff : (a b : NamedOrBlankNode) → ((a == b) ≡ true) ↔ (a ≡ b)
same_iff = node_eq.equals_iff

find-push :
    (s : NamedOrBlankNode) (t : Triple) (gs : Groups)
    → find s (push t gs) ≡ (if s == t.subject then find s gs ++ t ∷ [] else find s gs)
unfolding find push
find-push s t [] = ground (arith, same_iff t.subject s, same_iff s t.subject)
find-push s t ((k, ts) ∷ gs) =
    ground (arith, same_iff k s, same_iff k t.subject, same_iff s t.subject, find-push s t gs)

find-push_all :
    (s : NamedOrBlankNode) (ts : List Triple) (gs : Groups)
    → find s (push_all gs ts) ≡ find s gs ++ of_subject s ts
unfolding push_all of_subject
find-push_all s [] gs = sym (append-nil (find s gs))
find-push_all s (t ∷ ts) gs = ground (
  arith,
  find-push_all s ts (push t gs),
  find-push s t gs,
  append_assoc (find s gs) (t ∷ []) (of_subject s ts),
)

find-by_subject :
    (s : NamedOrBlankNode) (acl : List Triple) → find s (by_subject acl) ≡ of_subject s acl
unfolding by_subject find
find-by_subject s acl = find-push_all s acl []

-- No subject has two groups.
abbrev absent : NamedOrBlankNode → Groups → Bool
absent s [] = true
absent s ((k, ts) ∷ gs) = not (k == s) && absent s gs

abbrev is_distinct : Groups → Bool
is_distinct [] = true
is_distinct ((k, ts) ∷ gs) = absent k gs && is_distinct gs

absent-push :
    (s : NamedOrBlankNode) (t : Triple) (gs : Groups)
    → absent s gs ≡ true
    → (s == t.subject) ≡ false
    → absent s (push t gs) ≡ true
unfolding push
absent-push s t [] h d = ground (arith, same_iff t.subject s, same_iff s t.subject)
absent-push s t ((k, ts) ∷ gs) h d = ground (arith, absent-push s t gs)

distinct-push : (t : Triple) (gs : Groups) → is_distinct gs ≡ true → is_distinct (push t gs) ≡ true
unfolding push
distinct-push t [] h = refl
distinct-push t ((k, ts) ∷ gs) h = ground (arith, distinct-push t gs, absent-push k t gs)

distinct-push_all :
    (gs : Groups) (ts : List Triple) → is_distinct gs ≡ true → is_distinct (push_all gs ts) ≡ true
unfolding push_all
distinct-push_all gs [] h = h
distinct-push_all gs (t ∷ ts) h = distinct-push_all (push t gs) ts (distinct-push t gs h)

module _ (p : List Triple → Bool) where
  any_of_find :
      (s : NamedOrBlankNode) (gs : Groups)
      → p [] ≡ false
      → p (find s gs) ≡ true
      → any (λ g. p g.1) gs ≡ true
  unfolding find
  any_of_find s [] e h = ground arith
  any_of_find s ((k, ts) ∷ gs) e h = ground (arith, any_of_find s gs)

  find_of_any :
      (gs : Groups)
      → is_distinct gs ≡ true
      → any (λ g. p g.1) gs ≡ true
      → (s : NamedOrBlankNode) × (p (find s gs) ≡ true) × (absent s gs ≡ false)
  unfolding find
  find_of_any [] d h = cc
  find_of_any ((k, ts) ∷ gs) d h = elim (Bool-cases (p ts)) [
    | inl here ↦ (k, ground (arith, same_iff k k), ground (arith, same_iff k k))
    | inr later ↦
        let (s, found, known) = find_of_any gs (ground arith) (ground arith) in
        let other : (k == s) ≡ false = ground (arith, same_iff k s) in
        (s, ground (arith, other), ground (arith, other))
  ]

  -- Some group satisfies `p` exactly when the triples of some subject do.
  pub any-by_subject_iff :
      (acl : List Triple)
      → p [] ≡ false
      → (any (λ g. p g.1) (by_subject acl) ≡ true)
        ↔ ((s : NamedOrBlankNode) × (p (of_subject s acl) ≡ true))
  any-by_subject_iff acl e = (
    λ h.
        let (s, found, _) =
          find_of_any (by_subject acl) (unfold by_subject in distinct-push_all [] acl refl) h in
        (s, rw (← find-by_subject s acl) found),
    λ h. any_of_find h.0 (by_subject acl) e (rw (find-by_subject h.0 acl) (h.1)),
  )
