-- ===== src/Container/Link.antt =====
-- src/container.rs: whether a `Link` header asks for a container.
use quadpod.Prelude.{
  ℕ, ◌≡◌, refl, ◌∙◌, ap, Bool, true, false, not, ◌&&◌, ◌||◌, none, some, List, [], ◌∷◌, ◌++◌, any,
  retain, is_empty, reverse, if◌then◌else◌, ◌==◌, nat_eq, list_eq, Text, codes, split, split_once,
  cons_first, strip_prefix, trim, white_1, white_2, white_3, arith, Bool-cases, inl, inr,
}
use quadpod.Dataset.{eq_ignore_ascii_case}
use quadpod.Container.{ldp_container, ldp_basic_container}

-- Every character of Unicode's `White_Space` as one space.
unfoldable pub spaced : Text → Text
spaced [] = []
spaced (a ∷ []) = (if white_1 a then b' ' else a) ∷ []
spaced (a ∷ b ∷ []) = elim (white_1 a) [
  | true ↦ b' ' ∷ spaced (b ∷ [])
  | false ↦ elim (white_2 a b) [ true ↦ b' ' ∷ [] | false ↦ a ∷ spaced (b ∷ []) ]
]
spaced (a ∷ b ∷ c ∷ s) = elim (white_1 a) [
  | true ↦ b' ' ∷ spaced (b ∷ c ∷ s)
  | false ↦ elim (white_2 a b) [
    | true ↦ b' ' ∷ spaced (c ∷ s)
    | false ↦ elim (white_3 a b c) [ true ↦ b' ' ∷ spaced s | false ↦ a ∷ spaced (b ∷ c ∷ s) ]
  ]
]

-- `s.split_whitespace()`
unfoldable pub split_whitespace : Text → List Text
split_whitespace s = retain (λ t. not (is_empty t)) (split b' ' (spaced s))

unfoldable pub drop_quotes : Text → Text
drop_quotes [] = []
drop_quotes (c ∷ s) = let rest = drop_quotes s in if c == b'"' then rest else c ∷ s

-- `s.trim_matches('"')`
unfoldable pub trim_quotes : Text → Text
trim_quotes s = reverse (drop_quotes (reverse (drop_quotes s)))

-- The test of one parameter of a link.
unfoldable pub is_type_relation : Text → Bool
is_type_relation p = elim (split_once b'=' p) [
  | none ↦ false
  | some (name, v) ↦
      eq_ignore_ascii_case (trim name) (codes "rel")
      && any (λ t. t == codes "type") (split_whitespace (trim_quotes (trim v)))
]

-- The test of one link of the header.
unfoldable pub value_requests_container : Text → Bool
value_requests_container value = elim (strip_prefix (codes "<") (trim value)) [
  | none ↦ false
  | some rest ↦ elim (split_once b'>' rest) [
    | none ↦ false
    | some (target, params) ↦
        (target == ldp_container || target == ldp_basic_container)
        && any is_type_relation (split b';' params)
  ]
]

unfoldable pub type_link_requests_container : Text → Bool
type_link_requests_container link = any value_requests_container (split b',' link)

cons_first-append :
    (x : ℕ) (r ys : List Text) → is_empty r ≡ false → cons_first x (r ++ ys) ≡ cons_first x r ++ ys
cons_first-append x [] ys h = absurd (ground (arith, h))
cons_first-append x (s ∷ r) ys h = refl

cons_first_not_empty : (x : ℕ) (r : List Text) → is_empty (cons_first x r) ≡ false
cons_first_not_empty x [] = refl
cons_first_not_empty x (s ∷ r) = refl

split_not_empty : (c : ℕ) (s : Text) → is_empty (split c s) ≡ false
unfolding split
split_not_empty c [] = refl
split_not_empty c (x ∷ s) = elim (Bool-cases (x == c)) [
  | inl e ↦ rw e refl
  | inr e ↦ rw e (cons_first_not_empty x (split c s))
]

split-separator : (c : ℕ) (s t : Text) → split c (s ++ c ∷ t) ≡ split c s ++ split c t
unfolding split
split-separator c [] t = ground arith
split-separator c (x ∷ s) t = elim (Bool-cases (x == c)) [
  | inl e ↦ rw e (ap (λ r. [] ∷ r) (split-separator c s t))
  | inr e ↦ rw e (
      ap (cons_first x) (split-separator c s t)
      ∙ cons_first-append x (split c s) (split c t) (split_not_empty c s))
]

any-append : (p : Text → Bool) (xs ys : List Text) → any p (xs ++ ys) ≡ (any p xs || any p ys)
any-append p [] ys = refl
any-append p (x ∷ xs) ys = ground (arith, any-append p xs ys)

-- Several headers that are joined by commas ask for a container if one of them does.
type_link_requests_container_joined :
    (s t : Text)
    → type_link_requests_container (s ++ b',' ∷ t)
      ≡ (type_link_requests_container s || type_link_requests_container t)
unfolding type_link_requests_container
type_link_requests_container_joined s t =
    ap (any value_requests_container) (split-separator b',' s t)
    ∙ any-append value_requests_container (split b',' s) (split b',' t)
