-- ===== src/Space.antt =====
-- src/space.rs: which URLs exist, what they mean and how they relate.
-- A `str` is the list of its bytes. `NamedNode::new(iri).is_ok()`, the RDF library's IRI check,
-- is the parameter `valid_iri`. `expect("iri ends with path")` is a default that
-- `Space.Minted` shows to be never used on a URL that this module mints.
pub mod Inversion
pub mod Minted
pub mod SlashPair
pub mod Tree
pub mod Root
mod Tests
pub mod Stable
pub mod Auxiliary
pub mod Identity
use quadpod.Prelude.{
  ℕ, zero, suc, ◌≡◌, refl, Bool, true, false, not, ◌&&◌, ◌||◌, Option, none, some, List, [], ◌∷◌,
  ◌++◌, length, is_empty, all, if◌then◌else◌, is_some, ◌==◌, nat_eq, list_eq, list_beq, Text, codes,
  strip_prefix, strip_suffix, starts_with, ends_with, split, contains, through_last, Result, ok,
  err, ◌>>=◌,
}

pub data SpaceError : Type 0 where
  not_absolute no_trailing_slash invalid_base_iri invalid_resource_iri : SpaceError
  reserved not_rooted not_normalized : SpaceError

pub data AuxKind : Type 0 where
  acl : AuxKind

pub record ResourceUrl : Type 0 where
  pub path : Text
  pub iri : Text

pub record ContainerUrl : Type 0 where
  pub as_resource : ResourceUrl

pub record AuxUrl : Type 0 where
  pub kind : AuxKind
  pub subject : ResourceUrl
  pub iri : Text

pub data Target : Type 0 where
  resource : ResourceUrl → Target
  container : ContainerUrl → Target
  aux : AuxUrl → Target

pub record StorageSpace : Type 0 where
  pub base : Text

abbrev pub aux_segment : Text
aux_segment = codes ".aux"

abbrev pub well_known_segment : Text
well_known_segment = codes ".well-known"

abbrev pub reserved_segments : List Text
reserved_segments = aux_segment ∷ well_known_segment ∷ []

-- `AuxKind::ALL`
abbrev pub all_kinds : List AuxKind
all_kinds = acl ∷ []

unfoldable pub kind_name : AuxKind → Text
kind_name acl = codes "acl"

unfoldable pub suffix : AuxKind → Text
unfolding kind_name
suffix k = b'.' ∷ kind_name k

unfoldable pub split_suffix_in : List AuxKind → Text → Option (AuxKind × Text)
split_suffix_in [] rest = none
split_suffix_in (k ∷ ks) rest = elim (strip_suffix (suffix k) rest) [
  | some subject ↦ some (k, subject)
  | none ↦ split_suffix_in ks rest
]

unfoldable pub split_suffix : Text → Option (AuxKind × Text)
unfolding split_suffix_in suffix
split_suffix rest = split_suffix_in all_kinds rest

-- The trait method `GraphName::graph_iri`, for each of its implementors.
abbrev pub container_iri : ContainerUrl → Text
container_iri c = c.as_resource.iri

unfoldable pub graph_iri : Target → Text
graph_iri (resource r) = r.iri
graph_iri (container c) = container_iri c
graph_iri (aux a) = a.iri

-- `self.iri.strip_suffix(&self.path).expect("iri ends with path")`
unfoldable pub base_of : ResourceUrl → Text
base_of u = elim (strip_suffix u.path u.iri) [ some b ↦ b | none ↦ [] ]

-- `ResourceUrl::aux`
unfoldable pub aux_of : ResourceUrl → AuxKind → AuxUrl
aux_of u k = record {
  kind = k;
  subject = u;
  iri = base_of u ++ (b'/' ∷ aux_segment ++ (u.path ++ suffix k));
}

-- A URL of the same space with another path.
abbrev with_path : ResourceUrl → Text → ResourceUrl
with_path u p = record { path = p; iri = base_of u ++ p }

unfoldable pub slash_counterpart : ResourceUrl → Option ResourceUrl
slash_counterpart u = elim (strip_suffix (codes "/") u.path) [
  | some stripped ↦ if is_empty stripped then none else some (with_path u stripped)
  | none ↦ some (with_path u (u.path ++ codes "/"))
]

unfoldable pub as_container : ResourceUrl → Option ContainerUrl
as_container u = if ends_with (codes "/") u.path then some (record { as_resource = u }) else none

-- `self.path.strip_suffix('/').unwrap_or(&self.path)`
abbrev trim_slash : Text → Text
trim_slash p = elim (strip_suffix (codes "/") p) [ some t ↦ t | none ↦ p ]

unfoldable pub parent : ResourceUrl → Option ContainerUrl
parent u = if u.path == codes "/" then none else elim (through_last b'/' (trim_slash u.path)) [
  | some p ↦ some (record { as_resource = with_path u p })
  | none ↦ none
]

-- The `while let` loop of `ancestors`; every round's path is shorter than the one before.
unfoldable pub ancestors_from : ℕ → ResourceUrl → List ContainerUrl
ancestors_from zero u = []
ancestors_from (suc n) u = elim (parent u) [
  | none ↦ []
  | some c ↦ c ∷ ancestors_from n c.as_resource
]

unfoldable pub ancestors : ResourceUrl → List ContainerUrl
unfolding ancestors_from
ancestors u = ancestors_from (length u.path) u

-- What the path names once the reserved segment `segment` is taken off its front.
unfoldable pub segment_remainder : Text → Text → Option Text
segment_remainder path segment = elim (strip_prefix (codes "/") path) [
  | none ↦ none
  | some below ↦ elim (strip_prefix segment below) [
    | none ↦ none
    | some rest ↦ if is_empty rest || starts_with (codes "/") rest then some rest else none
  ]
]

unfoldable pub reserved_among : List Text → Text → Option Text
reserved_among [] path = none
reserved_among (s ∷ ss) path =
    if is_some (segment_remainder path s) then some s else reserved_among ss path

unfoldable pub reserved_segment : Text → Option Text
unfolding reserved_among segment_remainder
reserved_segment path = reserved_among reserved_segments path

abbrev is_dot : Text → Bool
is_dot seg = seg == codes "." || seg == codes ".."

-- Every segment but the last is neither empty nor a dot segment; the last may be empty.
unfoldable pub segments_stable : List Text → Bool
segments_stable [] = true
segments_stable (last ∷ []) = is_empty last || not (is_dot last)
segments_stable (seg ∷ segs) = (not (is_empty seg) && not (is_dot seg)) && segments_stable segs

-- `&request_path[1..]`
abbrev after_first : Text → Text
after_first [] = []
after_first (c ∷ s) = s

unfoldable pub is_normalization_stable : Text → Bool
is_normalization_stable path =
    if contains b'#' path
    then false
    else if is_empty (after_first path)
    then true
    else segments_stable (split b'/' (after_first path))

-- A URL with a trailing slash is a container.
abbrev data_target : ResourceUrl → Target
data_target r = elim (as_container r) [ some c ↦ container c | none ↦ resource r ]

module _ (valid_iri : Text → Bool) where
  pub new_space : Text → Result SpaceError StorageSpace
  new_space base =
      if not (starts_with (codes "http://") base || starts_with (codes "https://") base)
      then err not_absolute
      else if not (ends_with (codes "/") base)
      then err no_trailing_slash
      else if not (valid_iri base)
      then err invalid_base_iri
      else ok (record { base = base })

  -- `StorageSpace::resource`; its callers pass rooted paths only.
  pub mint : StorageSpace → Text → Result SpaceError ResourceUrl
  mint space path =
      let iri = space.base ++ after_first path in
      if valid_iri iri then ok (record { path = path; iri = iri }) else err invalid_resource_iri

  -- The branch of `resolve` for a path under the auxiliary segment.
  resolve_aux : StorageSpace → Text → Result SpaceError Target
  resolve_aux space rest = elim (split_suffix rest) [
    | none ↦ err reserved
    | some (kind, subject_path) ↦
        if is_some (reserved_segment subject_path)
        then err reserved
        else if not (is_normalization_stable subject_path)
        then err not_normalized
        else do
          subject ← mint space subject_path
          if valid_iri (aux_of subject kind).iri
              then ok (aux (aux_of subject kind))
              else err invalid_resource_iri
  ]

  -- The branch of `resolve` for the user's own data.
  resolve_data : StorageSpace → Text → Result SpaceError Target
  resolve_data space path = do r ← mint space path; ok (data_target r)

  pub resolve : StorageSpace → Text → Result SpaceError Target
  resolve space path =
      if not (starts_with (codes "/") path)
      then err not_rooted
      else if not (is_normalization_stable path)
      then err not_normalized
      else if is_some (segment_remainder path well_known_segment)
      then err reserved
      else elim (segment_remainder path aux_segment) [
        | some rest ↦ resolve_aux space rest
        | none ↦ resolve_data space path
      ]

  -- `root`: `resolve("/")` with its `expect`.
  pub root : StorageSpace → Option ContainerUrl
  root space = elim (resolve space (codes "/")) [
    | ok t ↦ elim t [ container c ↦ some c | _ ↦ none ]
    | err e ↦ none
  ]
