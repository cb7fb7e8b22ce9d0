-- ===== src/Space/Identity.antt =====
-- The graph IRI of a resolved request path, and what it says about aliasing.
use quadpod.Prelude.{
  ◌≡◌, sym, ◌∙◌, Bool, true, ◌||◌, some, [], ◌∷◌, ◌++◌, arith, is_empty, nat_eq, list_eq, Text,
  codes, starts_with, ok,
}
use mathlib.Core.List.{append_cancel_left}
use quadpod.Space.{
  AuxKind, acl, ResourceUrl, Target, StorageSpace, aux_segment, suffix, split_suffix, aux_of,
  as_container, segment_remainder, resolve, new_space, graph_iri,
}
use quadpod.Space.Inversion.{
  IsAccepted, Classified, as_data, as_aux, resolve-IsAccepted, resolve-Classified,
}
use quadpod.Space.Minted.{
  InSpace, base_of-InSpace, mint-InSpace, segment_remainder_split, split_suffix_split,
  new_space_stem,
}

-- A remainder is empty or begins with a slash.
pub remainder_rooted :
    (path seg : Text) {rest : Text}
    → segment_remainder path seg ≡ some rest
    → (is_empty rest || starts_with (codes "/") rest) ≡ true
unfolding segment_remainder
remainder_rooted path seg h = ground arith

-- What is left when a kind's suffix is cut off such a remainder is rooted.
rooted_of_suffix :
    (subject : Text) (k : AuxKind)
    → (is_empty (subject ++ suffix k) || starts_with (codes "/") (subject ++ suffix k)) ≡ true
    → starts_with (codes "/") subject ≡ true
unfolding starts_with suffix
rooted_of_suffix [] acl h = cc
rooted_of_suffix (c ∷ s) k h = ground arith

-- The subject of a path under the auxiliary segment is rooted.
pub subject_rooted :
    (path rest subject : Text) (k : AuxKind)
    → segment_remainder path aux_segment ≡ some rest
    → split_suffix rest ≡ some (k, subject)
    → starts_with (codes "/") subject ≡ true
subject_rooted path rest subject k n s =
    let e : rest ≡ subject ++ suffix k = split_suffix_split rest s in
    rooted_of_suffix subject k (rw e at (remainder_rooted path aux_segment n))

-- The IRI of an auxiliary of a URL in the space.
pub aux_of-iri :
    (stem : Text) (u : ResourceUrl) (k : AuxKind)
    → InSpace stem u
    → (aux_of u k).iri ≡ stem ++ (b'/' ∷ aux_segment ++ (u.path ++ suffix k))
unfolding aux_of
aux_of-iri stem u k h = rw (base_of-InSpace stem u h)

module _ (valid_iri : Text → Bool) (space : StorageSpace) where
  pub graph_iri-Classified :
      (stem path : Text) {t : Target}
      → space.base ≡ stem ++ codes "/"
      → IsAccepted path
      → Classified valid_iri space path t
      → graph_iri t ≡ stem ++ path
  unfolding graph_iri as_container
  graph_iri-Classified stem path based a (as_data r n minted e) =
      ground (arith, mint-InSpace valid_iri space stem path based a.rooted minted)
  graph_iri-Classified stem path based a (as_aux rest subject k u n s _ _ minted _ e) =
      let rooted = subject_rooted path rest subject k n s in
      ground (
        arith,
        mint-InSpace valid_iri space stem subject based rooted minted,
        aux_of-iri stem u k,
        segment_remainder_split path aux_segment n,
        split_suffix_split rest s,
      )

  -- The graph of an accepted request path is named by the space's base and that path, whichever
  -- kind of target the path is classified as.
  pub graph_iri-resolve :
      (stem path : Text) {t : Target}
      → space.base ≡ stem ++ codes "/"
      → resolve valid_iri space path ≡ ok t
      → graph_iri t ≡ stem ++ path
  graph_iri-resolve stem path based h =
      graph_iri-Classified stem path based (resolve-IsAccepted valid_iri space path h)
        (resolve-Classified valid_iri space path h)

-- Two request paths that a space of an accepted base resolves to one graph are the same path: no
-- graph, and so no access control list, is reachable under two names.
pub resolve_injective :
    (valid_iri : Text → Bool) (base : Text) {space : StorageSpace} (p q : Text) {t u : Target}
    → new_space valid_iri base ≡ ok space
    → resolve valid_iri space p ≡ ok t
    → resolve valid_iri space q ≡ ok u
    → graph_iri t ≡ graph_iri u
    → p ≡ q
resolve_injective valid_iri base {space} p q made h k e =
    let (stem, based, _) = new_space_stem valid_iri base made in
    append_cancel_left stem p q (
      sym (graph_iri-resolve valid_iri space stem p based h)
      ∙ e
      ∙ graph_iri-resolve valid_iri space stem q based k)
