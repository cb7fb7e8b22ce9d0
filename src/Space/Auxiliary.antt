-- ===== src/Space/Auxiliary.antt =====
-- Auxiliary URLs: `ResourceUrl::aux` and the auxiliary branch of `resolve` are inverse.
use quadpod.Prelude.{
  ◌≡◌, refl, Bool, true, Option, none, some, ◌∷◌, ◌++◌, arith, nat_eq, list_eq, Text, codes,
  starts_with, strip_prefix, strip_suffix-append, ok,
}
use quadpod.Space.{
  AuxKind, acl, ResourceUrl, AuxUrl, Target, resource, container, aux, StorageSpace, aux_segment,
  well_known_segment, suffix, split_suffix, aux_of, as_container, segment_remainder,
  reserved_segment, is_normalization_stable, mint, resolve, resolve_aux, resolve_data, data_target,
}
use quadpod.Space.Inversion.{
  IsAccepted, Classified, as_data, as_aux, resolve-IsAccepted, resolve-Classified,
}
use quadpod.Space.Minted.{starts_with_split, segment_remainder_split, split_suffix_split}
use quadpod.Space.Identity.{subject_rooted}
use quadpod.Space.Stable.{aux_path, aux_path-stable}

-- The URL of a target in the resource space.
abbrev pub data_url : Target → Option ResourceUrl
data_url (resource r) = some r
data_url (container c) = some c.as_resource
data_url (aux a) = none

split_suffix-append : (s : Text) (k : AuxKind) → split_suffix (s ++ suffix k) ≡ some (k, s)
unfolding split_suffix
split_suffix-append s acl = ground (arith, strip_suffix-append (suffix acl) s)

aux_remainder :
    (below : Text) (k : AuxKind)
    → segment_remainder (aux_path (b'/' ∷ below) k) aux_segment ≡ some (b'/' ∷ (below ++ suffix k))
unfolding segment_remainder strip_prefix starts_with
aux_remainder below k = refl

aux_not_well_known :
    (below : Text) (k : AuxKind)
    → segment_remainder (aux_path (b'/' ∷ below) k) well_known_segment ≡ none
unfolding segment_remainder strip_prefix
aux_not_well_known below k = refl

aux_rooted :
    (below : Text) (k : AuxKind) → starts_with (codes "/") (aux_path (b'/' ∷ below) k) ≡ true
unfolding starts_with
aux_rooted below k = refl

module _ (valid_iri : Text → Bool) (space : StorageSpace) where
  minted_of_data :
      (path : Text) {t : Target} {r : ResourceUrl}
      → Classified valid_iri space path t
      → data_url t ≡ some r
      → (segment_remainder path aux_segment ≡ none) × (mint valid_iri space path ≡ ok r)
  unfolding as_container
  minted_of_data path (as_data u n minted e) d = (n, ground arith)
  minted_of_data path (as_aux _ _ _ _ _ _ _ _ _ _ e) d = absurd (ground arith)

  resolve_aux-at :
      (below : Text) (k : AuxKind) (r : ResourceUrl)
      → reserved_segment (b'/' ∷ below) ≡ none
      → is_normalization_stable (b'/' ∷ below) ≡ true
      → mint valid_iri space (b'/' ∷ below) ≡ ok r
      → valid_iri (aux_of r k).iri ≡ true
      → resolve_aux valid_iri space (b'/' ∷ (below ++ suffix k)) ≡ ok (aux (aux_of r k))
  unfolding resolve_aux
  resolve_aux-at below k r free stable minted valid =
      ground (arith, split_suffix-append (b'/' ∷ below) k)

  resolve-aux_below :
      (below : Text) (k : AuxKind) (r : ResourceUrl)
      → IsAccepted (b'/' ∷ below)
      → segment_remainder (b'/' ∷ below) aux_segment ≡ none
      → mint valid_iri space (b'/' ∷ below) ≡ ok r
      → valid_iri (aux_of r k).iri ≡ true
      → resolve valid_iri space (aux_path (b'/' ∷ below) k) ≡ ok (aux (aux_of r k))
  unfolding resolve
  resolve-aux_below below k r a n minted valid =
      let free : reserved_segment (b'/' ∷ below) ≡ none =
        unfold reserved_segment in ground (arith, a.not_well_known) in
      ground (
        arith,
        aux_rooted below k,
        aux_path-stable below k a.stable,
        aux_not_well_known below k,
        aux_remainder below k,
        resolve_aux-at below k r free a.stable minted valid,
      )

  -- If a path resolves to data at `r`, the path of each of its auxiliaries resolves to that
  -- auxiliary of `r`, provided that its IRI is a valid one.
  pub resolve-aux_path :
      (path : Text) (k : AuxKind) {t : Target} {r : ResourceUrl}
      → resolve valid_iri space path ≡ ok t
      → data_url t ≡ some r
      → valid_iri (aux_of r k).iri ≡ true
      → resolve valid_iri space (aux_path path k) ≡ ok (aux (aux_of r k))
  resolve-aux_path path k {r} h d valid =
      let a = resolve-IsAccepted valid_iri space path h in
      let (n, minted) = minted_of_data path (resolve-Classified valid_iri space path h) d in
      let (below, e) = starts_with_split (codes "/") path a.rooted in
      rw e (resolve-aux_below below k r (rw e at a) (rw e at n) (rw e at minted) valid)

  resolve_of_guards :
      (path : Text) (r : ResourceUrl)
      → starts_with (codes "/") path ≡ true
      → is_normalization_stable path ≡ true
      → reserved_segment path ≡ none
      → mint valid_iri space path ≡ ok r
      → resolve valid_iri space path ≡ ok (data_target r)
  unfolding resolve resolve_data reserved_segment
  resolve_of_guards path r rooted stable free minted = ground arith

  data_url-data_target : (r : ResourceUrl) → data_url (data_target r) ≡ some r
  unfolding as_container
  data_url-data_target r = ground arith

  path-mint : (path : Text) {u : ResourceUrl} → mint valid_iri space path ≡ ok u → u.path ≡ path
  unfolding mint
  path-mint path h = ground arith

  subject_of_Classified :
      (path : Text) {a : AuxUrl}
      → Classified valid_iri space path (aux a)
      → (path ≡ aux_path a.subject.path a.kind)
        × (resolve valid_iri space a.subject.path ≡ ok (data_target a.subject))
  unfolding aux_of
  subject_of_Classified path (as_data r n minted e) = absurd (unfold as_container in ground arith)
  subject_of_Classified path {a} (as_aux rest s k u n p free stable minted valid e) =
      let same : u.path ≡ s = path-mint s minted in
      let here : a.subject ≡ u = ground arith in
      let kind : a.kind ≡ k = ground arith in
      (
        ground (arith, segment_remainder_split path aux_segment n, split_suffix_split rest p),
        ground (arith, resolve_of_guards s u (subject_rooted path rest s k n p) stable free minted),
      )

  -- The subject of an auxiliary that a path resolves to is itself addressable as data, and the
  -- path is the one at which that subject's auxiliary is served.
  pub resolve-subject :
      (path : Text) {a : AuxUrl}
      → resolve valid_iri space path ≡ ok (aux a)
      → (path ≡ aux_path a.subject.path a.kind)
        × (t : Target) × (resolve valid_iri space a.subject.path ≡ ok t)
        × (data_url t ≡ some a.subject)
  resolve-subject path {a} h =
      let (here, there) = subject_of_Classified path (resolve-Classified valid_iri space path h) in
      (here, data_target a.subject, there, data_url-data_target a.subject)
