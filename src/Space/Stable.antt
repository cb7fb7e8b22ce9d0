-- ===== src/Space/Stable.antt =====
-- `is_normalization_stable`: paths that stay stable when a suffix is put behind them.
use quadpod.Prelude.{
  ℕ, ◌≡◌, refl, sym, inl, inr, true, false, ◌||◌, List, [], ◌∷◌, ◌++◌, arith, Bool-cases, ◌==◌,
  nat_eq, list_eq, list_beq, Text, split, contains, cons_first,
}
use quadpod.Space.{
  AuxKind, acl, aux_segment, suffix, kind_name, is_normalization_stable, segments_stable, is_dot,
}

abbrev extend_last : List Text → Text → List Text
extend_last [] w = []
extend_last (s ∷ []) w = (s ++ w) ∷ []
extend_last (s ∷ t ∷ r) w = s ∷ extend_last (t ∷ r) w

-- `split` never answers the empty list.
split_cons : (c : ℕ) (s : Text) → (head : Text) × (tail : List Text) × (split c s ≡ head ∷ tail)
unfolding split
split_cons c [] = ([], [], refl)
split_cons c (x ∷ s) = elim (Bool-cases (x == c)) [
  | inl e ↦ ([], split c s, rw e)
  | inr e ↦ let (h, t, f) = split_cons c s in (x ∷ h, t, rw (e, f))
]

extend_last-cons_first :
    (x : ℕ) (h : Text) (t : List Text) (w : Text)
    → extend_last (cons_first x (h ∷ t)) w ≡ cons_first x (extend_last (h ∷ t) w)
extend_last-cons_first x h [] w = refl
extend_last-cons_first x h (u ∷ t) w = refl

split-append :
    (c : ℕ) (s w : Text) → split c w ≡ w ∷ [] → split c (s ++ w) ≡ extend_last (split c s) w
unfolding split
split-append c [] w h = h
split-append c (x ∷ s) w h =
    let (head, tail, e) = split_cons c s in
    elim (Bool-cases (x == c)) [
      | inl same ↦ rw (same, split-append c s w h, e)
      | inr other ↦ rw (other, split-append c s w h, e) (sym (extend_last-cons_first x head tail w))
    ]

not_dot_suffix : (s : Text) (k : AuxKind) → is_dot (s ++ suffix k) ≡ false
unfolding list_beq suffix kind_name
not_dot_suffix [] acl = refl
not_dot_suffix (a ∷ []) acl = ground arith
not_dot_suffix (a ∷ b ∷ []) acl = ground arith
not_dot_suffix (a ∷ b ∷ c ∷ s) acl = ground arith

segments_stable-extend_last :
    (segs : List Text) (k : AuxKind)
    → segments_stable segs ≡ true
    → segments_stable (extend_last segs (suffix k)) ≡ true
unfolding segments_stable
segments_stable-extend_last [] k h = refl
segments_stable-extend_last (s ∷ []) k h = ground (arith, not_dot_suffix s k)
segments_stable-extend_last (s ∷ t ∷ []) k h =
    ground (arith, segments_stable-extend_last (t ∷ []) k)
segments_stable-extend_last (s ∷ t ∷ u ∷ r) k h =
    ground (arith, segments_stable-extend_last (t ∷ u ∷ r) k)

contains-append : (c : ℕ) (s w : Text) → contains c (s ++ w) ≡ (contains c s || contains c w)
unfolding contains
contains-append c [] w = refl
contains-append c (x ∷ s) w = ground (arith, contains-append c s w)

-- The path at which the auxiliary of kind `k` of `path` is served.
abbrev pub aux_path : Text → AuxKind → Text
aux_path path k = b'/' ∷ aux_segment ++ (path ++ suffix k)

split-suffix_plain : (k : AuxKind) → split b'/' (suffix k) ≡ suffix k ∷ []
unfolding split suffix kind_name
split-suffix_plain acl = refl

record IsStableBelow (below : Text) : Type 0 where
  no_fragment : contains b'#' below ≡ false
  segments : segments_stable (split b'/' below) ≡ true

stable_parts : (below : Text) → is_normalization_stable (b'/' ∷ below) ≡ true → IsStableBelow below
unfolding is_normalization_stable contains segments_stable split
stable_parts [] h = record { no_fragment = refl; segments = refl }
stable_parts (c ∷ s) h = record { no_fragment = ground arith; segments = ground arith }

segments_stable-aux_segment :
    (segs : List Text) → segments_stable segs ≡ true → segments_stable (aux_segment ∷ segs) ≡ true
unfolding segments_stable list_beq
segments_stable-aux_segment [] h = refl
segments_stable-aux_segment (s ∷ r) h = h

split-aux_segment : (s : Text) → split b'/' (aux_segment ++ (b'/' ∷ s)) ≡ aux_segment ∷ split b'/' s
unfolding split
split-aux_segment s = refl

suffix_no_fragment : (k : AuxKind) → contains b'#' (suffix k) ≡ false
unfolding contains suffix kind_name
suffix_no_fragment acl = refl

-- An auxiliary's path is stable where its subject's is.
pub aux_path-stable :
    (below : Text) (k : AuxKind)
    → is_normalization_stable (b'/' ∷ below) ≡ true
    → is_normalization_stable (aux_path (b'/' ∷ below) k) ≡ true
unfolding is_normalization_stable
aux_path-stable below k h =
    let parts = stable_parts below h in
    let segs : segments_stable (split b'/' (aux_segment ++ (b'/' ∷ (below ++ suffix k)))) ≡ true =
      rw (split-aux_segment (below ++ suffix k)) (
        segments_stable-aux_segment _ (
          rw (split-append b'/' below (suffix k) (split-suffix_plain k))
            (segments_stable-extend_last (split b'/' below) k parts.segments))) in
    let plain : contains b'#' (below ++ suffix k) ≡ false =
      rw (contains-append b'#' below (suffix k), parts.no_fragment) (suffix_no_fragment k) in
    unfold contains in ground arith
