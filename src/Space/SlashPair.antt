-- ===== src/Space/SlashPair.antt =====
-- `slash_counterpart`: the two URLs that differ only in a trailing slash.
use quadpod.Prelude.{
  ◌≡◌, ◌≢◌, ◌↔◌, refl, ap, ◌∙◌, inl, inr, true, false, none, some, List, [], ◌∷◌, ◌++◌, arith,
  Bool-cases, Option-cases, ◌==◌, nat_eq, list_eq, Text, codes, split, contains, strip_suffix,
  strip_suffix-append, eq-append_of_strip_suffix, append_assoc,
}
use quadpod.Space.{
  ResourceUrl, is_normalization_stable, segments_stable, slash_counterpart, with_path, base_of,
}
use quadpod.Space.Minted.{InSpace, base_of-InSpace}

record HasUnstableTail (s : Text) : Type 0 where
  head : Text
  next : Text
  tail : List Text
  cut : split b'/' s ≡ head ∷ next ∷ tail
  unstable : segments_stable (next ∷ tail) ≡ false

double_slash : (s : Text) → HasUnstableTail (s ++ codes "//")
unfolding split segments_stable
double_slash [] = record { head = []; next = []; tail = [] ∷ []; cut = refl; unstable = refl }
double_slash (x ∷ s) =
    let r = double_slash s in
    elim (Bool-cases (x == b'/')) [
      | inl e ↦ record {
        head = [];
        next = r.head;
        tail = r.next ∷ r.tail;
        cut = rw (e, r.cut);
        unstable = ground (arith, r.unstable);
      }
      | inr e ↦ record {
        head = x ∷ r.head;
        next = r.next;
        tail = r.tail;
        cut = rw (e, r.cut);
        unstable = r.unstable;
      }
    ]

-- A stable path does not end with two slashes.
stable_no_double : (r : Text) → is_normalization_stable (r ++ codes "//") ≡ true → ⊥
unfolding is_normalization_stable segments_stable
stable_no_double [] h = unfold contains split in cc
stable_no_double (c ∷ []) h = unfold contains split in ground arith
stable_no_double (c ∷ d ∷ r) h =
    let far = double_slash (d ∷ r) in ground (arith, far.cut, far.unstable)

-- A base stays the same under another path of the space.
base_of-with_path :
    (stem : Text) (u : ResourceUrl) (p : Text) → InSpace stem u → base_of (with_path u p) ≡ stem
base_of-with_path stem u p h =
    base_of-InSpace stem (with_path u p) (ap (λ b. b ++ p) (base_of-InSpace stem u h))

-- Taking the counterpart twice leads back, for a URL of the space with a stable, non-empty path.
slash_counterpart_symmetric :
    (stem : Text) (u : ResourceUrl) {v : ResourceUrl}
    → InSpace stem u
    → is_normalization_stable u.path ≡ true
    → u.path ≢ []
    → slash_counterpart u ≡ some v
    → slash_counterpart v ≡ some u
unfolding slash_counterpart
slash_counterpart_symmetric stem u {v} h stable rooted e =
    elim (Option-cases (strip_suffix (codes "/") u.path)) [
      | inl open_end ↦ ground (
        arith,
        strip_suffix-append (codes "/") u.path,
        base_of-InSpace stem u h,
        base_of-with_path stem u (u.path ++ codes "/") h,
      )
      | inr (t, closed) ↦
          let path : u.path ≡ t ++ codes "/" =
            eq-append_of_strip_suffix (codes "/") u.path closed in
          elim (Option-cases (strip_suffix (codes "/") t)) [
            | inl single ↦ ground (arith, base_of-InSpace stem u h, base_of-with_path stem u t h)
            | inr (t', double) ↦
                let twice : u.path ≡ t' ++ codes "//" =
                  path
                  ∙ ap (λ r. r ++ codes "/") (eq-append_of_strip_suffix (codes "/") t double)
                  ∙ append_assoc t' (codes "/") (codes "/") in
                absurd (stable_no_double t' (rw twice at stable))
          ]
    ]

-- The root alone has no counterpart.
pub slash_counterpart-eq-none_iff :
    (u : ResourceUrl) → (slash_counterpart u ≡ none) ↔ (u.path ≡ codes "/")
unfolding slash_counterpart
slash_counterpart-eq-none_iff u = (
  λ h. elim (Option-cases (strip_suffix (codes "/") u.path)) [
    | inl e ↦ absurd (ground arith)
    | inr (t, e) ↦ ground (arith, eq-append_of_strip_suffix (codes "/") u.path e)
  ],
  λ e. ground (arith, strip_suffix-append (codes "/") []),
)
