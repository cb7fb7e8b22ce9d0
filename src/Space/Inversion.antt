-- ===== src/Space/Inversion.antt =====
-- What an accepted request path has passed: the guards of `StorageSpace::resolve` read backwards.
use quadpod.Prelude.{
  ◌≡◌, refl, inl, inr, Bool, true, false, Option, none, some, arith, Option-cases, is_some, nat_eq,
  list_eq, Text, codes, starts_with, ok, >>=-eq-ok, Result-cases,
}
use quadpod.Space.{
  AuxKind, ResourceUrl, Target, aux, StorageSpace, aux_segment, well_known_segment, split_suffix,
  aux_of, segment_remainder, reserved_segment, is_normalization_stable, mint, resolve, resolve_aux,
  resolve_data, data_target,
}

-- The guards that every accepted path has passed.
pub record IsAccepted (path : Text) : Type 0 where
  pub rooted : starts_with (codes "/") path ≡ true
  pub stable : is_normalization_stable path ≡ true
  pub not_well_known : segment_remainder path well_known_segment ≡ none

module _ (valid_iri : Text → Bool) (space : StorageSpace) where
  -- How a path was classified, with what the branch checked.
  pub data Classified (path : Text) (t : Target) : Type 0 where
    as_data :
        (r : ResourceUrl)
        → segment_remainder path aux_segment ≡ none
        → mint valid_iri space path ≡ ok r
        → t ≡ data_target r
        → Classified path t
    as_aux :
        (rest subject_path : Text) (kind : AuxKind) (u : ResourceUrl)
        → segment_remainder path aux_segment ≡ some rest
        → split_suffix rest ≡ some (kind, subject_path)
        → reserved_segment subject_path ≡ none
        → is_normalization_stable subject_path ≡ true
        → mint valid_iri space subject_path ≡ ok u
        → valid_iri (aux_of u kind).iri ≡ true
        → t ≡ aux (aux_of u kind)
        → Classified path t

  none_of_is_some : (o : Option Text) → is_some o ≡ false → o ≡ none
  none_of_is_some none h = refl
  none_of_is_some (some x) h = cc

  pub resolve-IsAccepted :
      (path : Text) {t : Target} → resolve valid_iri space path ≡ ok t → IsAccepted path
  unfolding resolve
  resolve-IsAccepted path h = ground arith

  resolve_data-Classified :
      (path : Text) {t : Target}
      → segment_remainder path aux_segment ≡ none
      → resolve_data valid_iri space path ≡ ok t
      → Classified path t
  unfolding resolve_data
  resolve_data-Classified path n h =
      let (r, minted, e) = >>=-eq-ok (mint valid_iri space path) _ h in
      as_data r n minted (ground arith)

  resolve_aux-Classified :
      (path rest : Text) {t : Target}
      → segment_remainder path aux_segment ≡ some rest
      → resolve_aux valid_iri space rest ≡ ok t
      → Classified path t
  unfolding resolve_aux
  resolve_aux-Classified path rest n h = elim (Option-cases (split_suffix rest)) [
    | inl e ↦ absurd (ground arith)
    | inr ((kind, subject), e) ↦ elim (Result-cases (mint valid_iri space subject)) [
      | inl (u, minted) ↦
          as_aux rest subject kind u n e (ground arith) (ground arith) minted (ground arith)
            (ground arith)
      | inr (why, refused) ↦ absurd (ground arith)
    ]
  ]

  pub resolve-Classified :
      (path : Text) {t : Target} → resolve valid_iri space path ≡ ok t → Classified path t
  unfolding resolve
  resolve-Classified path h = elim (Option-cases (segment_remainder path aux_segment)) [
    | inl n ↦ resolve_data-Classified path n (ground arith)
    | inr (rest, e) ↦ resolve_aux-Classified path rest e (ground arith)
  ]
