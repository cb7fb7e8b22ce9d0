-- ===== src/Resource/Names.antt =====
-- The names of the graphs of src/resource.rs: those of data resources, of auxiliaries, of shelves and
-- of the system.
use mathlib.Core.List.{append_cancel_left, append_cancel_right}
use quadpod.Prelude.{
  ◌≡◌, ◌≢◌, sym, ◌∙◌, ap, inl, inr, refl, false, none, ◌∷◌, ◌++◌, ◌==◌, nat_eq, list_eq, text_eq,
  Text, codes, starts_with, Bool-cases, arith, strip_prefix-append,
}
use quadpod.Space.{AuxKind, acl, ResourceUrl, aux_segment, suffix, aux_of, segment_remainder}
use quadpod.Space.Minted.{InSpace}
use quadpod.Space.Identity.{aux_of-iri}
use quadpod.Shelf.{ShelfKey, shelf_prefix, shelf_key}
use quadpod.Resource.Graphs.{sys_graph_iri, sys_prefix}

-- A document or container of the space with the base `stem` and a slash, which is an HTTP IRI.
pub record IsData (stem : Text) (u : ResourceUrl) : Type 0 where
  pub in_space : InSpace stem u
  pub is_http : (t : Text) × (stem ≡ b'h' ∷ t)
  pub rooted : (t : Text) × (u.path ≡ b'/' ∷ t)
  pub not_aux : segment_remainder u.path aux_segment ≡ none

abbrev pub IsShelf : ShelfKey → Type 0
IsShelf k = (n : Text) × (k ≡ shelf_prefix ++ n)

pub shelf_key-IsShelf :
    (digest : Text → Text) (r : ResourceUrl) (name : Text) → IsShelf (shelf_key digest r name)
unfolding shelf_key
shelf_key-IsShelf digest r name = (digest (r.iri ++ 0 ∷ name), refl)

pub ne_test : (a c : Text) → a ≢ c → (a == c) ≡ false
ne_test a c d = elim (Bool-cases (a == c)) [ inl e ↦ absurd (d ((text_eq a c).0 e)) | inr e ↦ e ]

pub sys-injective : (a c : Text) → sys_graph_iri a ≡ sys_graph_iri c → a ≡ c
unfolding sys_graph_iri
sys-injective a c e = append_cancel_left sys_prefix a c e

pub sys-ne-shelf : (a k : Text) → IsShelf k → sys_graph_iri a ≢ k
unfolding sys_graph_iri
sys-ne-shelf a k (n, s) e = absurd (ground arith)

module _ (stem : Text) where
  pub data-ne-sys : (u : ResourceUrl) → IsData stem u → (a : Text) → u.iri ≢ sys_graph_iri a
  unfolding sys_graph_iri
  data-ne-sys u d a e =
      let (t, h) = d.is_http in let s = d.in_space in absurd (ground (arith, s, h, e))

  pub data-ne-shelf : (u : ResourceUrl) → IsData stem u → (k : Text) → IsShelf k → u.iri ≢ k
  data-ne-shelf u d k (n, s) e =
      let (t, h) = d.is_http in let i = d.in_space in absurd (ground (arith, s, h, i, e))

  aux_iri :
      (u : ResourceUrl) (k : AuxKind)
      → IsData stem u
      → (aux_of u k).iri ≡ stem ++ (b'/' ∷ aux_segment ++ (u.path ++ suffix k))
  aux_iri u k d = aux_of-iri stem u k d.in_space

  pub aux-ne-sys :
      (u : ResourceUrl) (k : AuxKind)
      → IsData stem u
      → (a : Text) → (aux_of u k).iri ≢ sys_graph_iri a
  unfolding sys_graph_iri
  aux-ne-sys u k d a e =
      let (t, h) = d.is_http in let i = aux_iri u k d in absurd (ground (arith, h, i, e))

  -- No document or container is the auxiliary of another.
  pub aux-ne-data :
      (u w : ResourceUrl) (k : AuxKind) → IsData stem u → IsData stem w → (aux_of u k).iri ≢ w.iri
  unfolding segment_remainder starts_with
  aux-ne-data u w k d dw e =
      let p : w.path ≡ b'/' ∷ aux_segment ++ (u.path ++ suffix k) =
        sym (append_cancel_left stem _ _ (sym (aux_iri u k d) ∙ e ∙ dw.in_space)) in
      let (t, r) = d.rooted in
      absurd (
        ground (
          arith,
          dw.not_aux,
          p,
          r,
          strip_prefix-append (codes "/") (aux_segment ++ (u.path ++ suffix k)),
          strip_prefix-append aux_segment (u.path ++ suffix k),
        ))

  -- An auxiliary has one subject.
  pub aux-injective :
      (u w : ResourceUrl) (k j : AuxKind)
      → IsData stem u
      → IsData stem w
      → (aux_of u k).iri ≡ (aux_of w j).iri
      → u.iri ≡ w.iri
  aux-injective u w acl acl d dw e =
      let p : u.path ++ suffix acl ≡ w.path ++ suffix acl =
        append_cancel_left (b'/' ∷ aux_segment) _ _
          (append_cancel_left stem _ _ (sym (aux_iri u acl d) ∙ e ∙ aux_iri w acl dw)) in
      let q : u.path ≡ w.path = append_cancel_right _ _ (suffix acl) p in
      d.in_space ∙ ap (λ s. stem ++ s) q ∙ sym dw.in_space

  pub aux-congruent :
      (u w : ResourceUrl) (k : AuxKind)
      → IsData stem u
      → IsData stem w
      → u.iri ≡ w.iri
      → (aux_of u k).iri ≡ (aux_of w k).iri
  aux-congruent u w k d dw e =
      let q : u.path ≡ w.path =
        append_cancel_left stem u.path w.path (sym d.in_space ∙ e ∙ dw.in_space) in
      aux_iri u k d
      ∙ ap (λ p. stem ++ (b'/' ∷ aux_segment ++ (p ++ suffix k))) q
      ∙ sym (aux_iri w k dw)
