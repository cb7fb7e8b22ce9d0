-- ===== src/Space/Minted.antt =====
-- The IRI of every URL that src/space.rs mints: the space's stem (its base without the trailing
-- slash) followed by the URL's path. So `expect("iri ends with path")` is never refuted.
use quadpod.Prelude.{
  ◌≡◌, refl, inl, inr, Bool, true, Option, none, some, ◌∷◌, ◌++◌, arith, Option-cases, is_some,
  nat_eq, list_eq, Text, codes, starts_with, ends_with, strip_prefix, strip_suffix,
  eq-append_of_strip_prefix, eq-append_of_strip_suffix, strip_suffix-append, append_assoc, ok,
}
use quadpod.Space.{
  AuxKind, acl, ResourceUrl, ContainerUrl, StorageSpace, suffix, split_suffix, base_of,
  segment_remainder, mint, new_space, parent, slash_counterpart,
}

-- `u` belongs to the space whose base is `stem` and a slash.
abbrev pub InSpace : Text → ResourceUrl → Type 0
InSpace stem u = u.iri ≡ stem ++ u.path

pub base_of-InSpace : (stem : Text) (u : ResourceUrl) → InSpace stem u → base_of u ≡ stem
unfolding base_of
base_of-InSpace stem u h = ground (arith, strip_suffix-append u.path stem)

pub some_of_is_some : (o : Option Text) → is_some o ≡ true → (t : Text) × (o ≡ some t)
some_of_is_some none h = cc
some_of_is_some (some t) h = (t, refl)

pub starts_with_split : (p s : Text) → starts_with p s ≡ true → (r : Text) × (s ≡ p ++ r)
unfolding starts_with
starts_with_split p s h =
    let (r, e) = some_of_is_some (strip_prefix p s) h in (r, eq-append_of_strip_prefix p s e)

pub ends_with_split : (p s : Text) → ends_with p s ≡ true → (r : Text) × (s ≡ r ++ p)
unfolding ends_with
ends_with_split p s h =
    let (r, e) = some_of_is_some (strip_suffix p s) h in (r, eq-append_of_strip_suffix p s e)

-- A base that `new` accepts ends with a slash, and is kept as it is.
pub new_space_stem :
    (valid_iri : Text → Bool) (base : Text) {s : StorageSpace}
    → new_space valid_iri base ≡ ok s
    → (stem : Text) × (s.base ≡ stem ++ codes "/") × (s.base ≡ base)
unfolding new_space
new_space_stem valid_iri base {s} h =
    let (stem, e) = ends_with_split (codes "/") base (ground arith) in
    (stem, ground (arith, e), ground arith)

pub parent-InSpace :
    (stem : Text) (u : ResourceUrl) {c : ContainerUrl}
    → InSpace stem u
    → parent u ≡ some c
    → InSpace stem c.as_resource
unfolding parent
parent-InSpace stem u h e = ground (arith, base_of-InSpace stem u h)

pub slash_counterpart-InSpace :
    (stem : Text) (u : ResourceUrl) {v : ResourceUrl}
    → InSpace stem u
    → slash_counterpart u ≡ some v
    → InSpace stem v
unfolding slash_counterpart
slash_counterpart-InSpace stem u h e = ground (arith, base_of-InSpace stem u h)

pub segment_remainder_split :
    (path seg : Text) {rest : Text}
    → segment_remainder path seg ≡ some rest
    → path ≡ b'/' ∷ seg ++ rest
unfolding segment_remainder
segment_remainder_split path seg h = elim (Option-cases (strip_prefix (codes "/") path)) [
  | inl e ↦ absurd (ground arith)
  | inr (below, e) ↦ elim (Option-cases (strip_prefix seg below)) [
    | inl f ↦ absurd (ground arith)
    | inr (rest, f) ↦
        ground (
          arith,
          eq-append_of_strip_prefix (codes "/") path e,
          eq-append_of_strip_prefix seg below f,
        )
  ]
]

pub split_suffix_split :
    (rest : Text) {k : AuxKind} {subject : Text}
    → split_suffix rest ≡ some (k, subject)
    → rest ≡ subject ++ suffix k
unfolding split_suffix
split_suffix_split rest h = elim (Option-cases (strip_suffix (suffix acl) rest)) [
  | inl e ↦ absurd (ground arith)
  | inr (subject, e) ↦ ground (arith, eq-append_of_strip_suffix (suffix acl) rest e)
]

-- A URL under construction: the path is kept, and the IRI is the stem and the path.
pub mint-InSpace :
    (valid_iri : Text → Bool) (space : StorageSpace) (stem path : Text) {u : ResourceUrl}
    → space.base ≡ stem ++ codes "/"
    → starts_with (codes "/") path ≡ true
    → mint valid_iri space path ≡ ok u
    → (u.path ≡ path) × InSpace stem u
unfolding mint
mint-InSpace valid_iri space stem path {u} based rooted h =
    let (below, e) = starts_with_split (codes "/") path rooted in
    ground (arith, append_assoc stem (codes "/") below)
