-- ===== src/Container/Children.antt =====
-- `child_name` of src/container.rs: where a child that a POST names stands.
use mathlib.Core.List.{append_cancel_left}
use quadpod.Prelude.{
  ◌≡◌, inl, inr, refl, sym, ap, ◌∙◌, Bool, true, false, ◌&&◌, ◌||◌, Option, none, some, [], ◌∷◌,
  ◌++◌, append_assoc, append-nil, all, retain, is_empty, length, length-append, if◌then◌else◌, ◌==◌,
  nat_eq, list_eq, text_eq, Text, codes, strip_suffix, strip_suffix-append,
  eq-append_of_strip_suffix, through_last, arith, Bool-cases, Option-cases,
}
use quadpod.Space.{ResourceUrl, ContainerUrl, parent, base_of}
use quadpod.Space.Minted.{InSpace, base_of-InSpace}
use quadpod.Container.{is_slug_char, child_name}

-- A segment of slug characters.
pub record IsSegment (name : Text) : Type 0 where
  pub chars : all is_slug_char name ≡ true
  pub not_empty : is_empty name ≡ false

all-retain : (s : Text) → all is_slug_char (retain is_slug_char s) ≡ true
all-retain [] = refl
all-retain (c ∷ s) = ground (arith, all-retain s)

child_name-IsSegment :
    (slug : Option Text) (fresh : Text) → IsSegment fresh → IsSegment (child_name slug fresh)
unfolding child_name
child_name-IsSegment slug fresh h =
    let cleaned = retain is_slug_char (elim slug [ some s ↦ s | none ↦ [] ]) in
    let kept = all-retain (elim slug [ some s ↦ s | none ↦ [] ]) in
    elim (Bool-cases (is_empty cleaned || (cleaned == codes "." || cleaned == codes ".."))) [
      | inl bare ↦ rw bare h
      | inr named ↦ rw named (record { chars = kept; not_empty = ground arith })
    ]

no_slash : (name : Text) → all is_slug_char name ≡ true → through_last b'/' name ≡ none
unfolding is_slug_char through_last
no_slash [] h = refl
no_slash (c ∷ name) h = ground (arith, no_slash name)

through_last_at :
    (p rest : Text)
    → through_last b'/' rest ≡ none
    → through_last b'/' (p ++ b'/' ∷ rest) ≡ some (p ++ b'/' ∷ [])
unfolding through_last
through_last_at [] rest h = ground arith
through_last_at (x ∷ p) rest h = ground (arith, through_last_at p rest h)

module _ (front name : Text) (segment : IsSegment name) where
  abbrev here : Text
  here = front ++ b'/' ∷ name

  cut : through_last b'/' here ≡ some (front ++ b'/' ∷ [])
  cut = through_last_at front name (no_slash name segment.chars)

  open_ended : strip_suffix (codes "/") here ≡ none
  open_ended = elim (Option-cases (strip_suffix (codes "/") here)) [
    | inl e ↦ e
    | inr (t, e) ↦
        let closed : here ≡ t ++ codes "/" = eq-append_of_strip_suffix (codes "/") here e in
        let whole : through_last b'/' here ≡ some here =
          rw closed (through_last_at t [] (unfold through_last in refl)) in
        let same : here ≡ front ++ b'/' ∷ [] = cc (cut, whole) in
        let bare : b'/' ∷ name ≡ b'/' ∷ [] = append_cancel_left front _ _ same in
        absurd (ground (arith, segment.not_empty))
  ]

-- The name that a POST gives to its child: on the second try with random characters after it.
abbrev pub allocated_name : Bool → Option Text → Text → Text → Text
allocated_name retried slug fresh again =
    if retried then child_name slug fresh ++ (b'-' ∷ again) else child_name slug fresh

all-append : (s t : Text) → all is_slug_char (s ++ t) ≡ (all is_slug_char s && all is_slug_char t)
all-append [] t = refl
all-append (c ∷ s) t = ground (arith, all-append s t)

not_empty-append : (s t : Text) → is_empty s ≡ false → is_empty (s ++ t) ≡ false
not_empty-append [] t h = cc
not_empty-append (c ∷ s) t h = refl

allocated_name-IsSegment :
    (retried : Bool) (slug : Option Text) (fresh again : Text)
    → IsSegment fresh
    → IsSegment again
    → IsSegment (allocated_name retried slug fresh again)
allocated_name-IsSegment false slug fresh again first second = child_name-IsSegment slug fresh first
allocated_name-IsSegment true slug fresh again first second =
    let name = child_name-IsSegment slug fresh first in
    record {
      chars = ground (
        arith,
        all-append (child_name slug fresh) (b'-' ∷ again),
        name.chars,
        second.chars,
        dash_is_slug_char,
      );
      not_empty = not_empty-append (child_name slug fresh) (b'-' ∷ again) name.not_empty;
    }
  where
    dash_is_slug_char : is_slug_char b'-' ≡ true
    dash_is_slug_char = unfold is_slug_char in refl

-- The suffix of a child that is to be a container.
abbrev pub slash_if : Bool → Text
slash_if wants_container = if wants_container then codes "/" else []

not_root :
    (front name : Text) (wants_container : Bool)
    → IsSegment name
    → ((front ++ b'/' ∷ name) ++ slash_if wants_container == codes "/") ≡ false
not_root front [] w segment = absurd (cc (segment.not_empty))
not_root front (x ∷ name) w segment =
    let whole = (front ++ b'/' ∷ x ∷ name) ++ slash_if w in
    elim (Bool-cases (whole == codes "/")) [
      | inr differ ↦ differ
      | inl same ↦
          let size = ap (length {0}) ((text_eq whole (codes "/")).0 same) in
          let parts = length-append (front ++ b'/' ∷ x ∷ name) (slash_if w) in
          let inner = length-append front (b'/' ∷ x ∷ name) in
          absurd (omega (arith, size, parts, inner))
    ]

module _ (stem front : Text) (c : ContainerUrl) (at_home : InSpace stem c.as_resource)
    (is_container : c.as_resource.path ≡ front ++ codes "/") where
  up :
      (u : ResourceUrl)
      → InSpace stem u
      → record {
        as_resource = record { path = front ++ codes "/"; iri = base_of u ++ (front ++ codes "/") };
      }
        ≡ c
  up u home = rw (base_of-InSpace stem u home, ← is_container, ← at_home) refl

  parent_of_path :
      (u : ResourceUrl) (name : Text) (wants_container : Bool)
      → InSpace stem u
      → IsSegment name
      → u.path ≡ (front ++ b'/' ∷ name) ++ slash_if wants_container
      → parent u ≡ some c
  unfolding parent
  parent_of_path u name true home segment e = ground (
    arith,
    not_root front name true segment,
    strip_suffix-append (codes "/") (front ++ b'/' ∷ name),
    cut front name segment,
    up u home,
  )
  parent_of_path u name false home segment e = ground (
    arith,
    not_root front name false segment,
    append-nil (front ++ b'/' ∷ name),
    open_ended front name segment,
    cut front name segment,
    up u home,
  )

  -- A POST's child, under the name that its slug gives or, on a second try, under that name with
  -- random characters, as a resource or as a container, stands directly in the container that the
  -- request names: its parent is that container, whatever the slug.
  pub parent-child_name :
      (slug : Option Text) (fresh again : Text) (retried wants_container : Bool) (u : ResourceUrl)
      → IsSegment fresh
      → IsSegment again
      → InSpace stem u
      → u.path
        ≡ c.as_resource.path
          ++ (allocated_name retried slug fresh again ++ slash_if wants_container)
      → parent u ≡ some c
  parent-child_name slug fresh again retried wants_container u first second home e =
      let name = allocated_name retried slug fresh again in
      let end = slash_if wants_container in
      parent_of_path u name wants_container home
        (allocated_name-IsSegment retried slug fresh again first second)
        (e
          ∙ ap (λ p. p ++ (name ++ end)) is_container
          ∙ append_assoc front (codes "/") (name ++ end)
          ∙ sym (append_assoc front (b'/' ∷ name) end))
