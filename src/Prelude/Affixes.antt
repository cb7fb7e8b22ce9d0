-- ===== src/Prelude/Affixes.antt =====
-- Laws of `strip_prefix`, `strip_suffix`, `through_last` and of lists that are cut.
use Prim.Native.Nat.{ℕ, ◌≤◌}
use mathlib.Core.Path.{◌≡◌, refl, sym, ap, ◌∙◌, ◌≡⟨◌⟩◌, ◌∎}
use mathlib.Core.Logic.{◌↔◌, inl, inr}
use mathlib.Core.Option
use mathlib.Core.Option.{Option, none, some}
use mathlib.Core.List.{[], ◌∷◌, ◌++◌, reverse, reverse-append, reverse-reverse}
use native.Mathlib.Omega.{arith}
use quadpod.Prelude.Tests.{Option-cases}
use quadpod.Prelude.Lists.{length, length-append}
use quadpod.Prelude.Equality.{nat_eq}
use quadpod.Prelude.Bytes.{Text, strip_prefix, strip_suffix, through_last}

pub strip_prefix-append : (p r : Text) → strip_prefix p (p ++ r) ≡ some r
unfolding strip_prefix
strip_prefix-append [] r = refl
strip_prefix-append (c ∷ p) r = ground (arith, strip_prefix-append p r)

pub eq-append_of_strip_prefix : (p s : Text) {r : Text} → strip_prefix p s ≡ some r → s ≡ p ++ r
unfolding strip_prefix
eq-append_of_strip_prefix [] s h = cc
eq-append_of_strip_prefix (c ∷ p) [] h = cc
eq-append_of_strip_prefix (c ∷ p) (d ∷ s) {r} h =
    ground (arith, eq-append_of_strip_prefix p s {r = r})

pub strip_suffix-append : (p r : Text) → strip_suffix p (r ++ p) ≡ some r
unfolding strip_suffix
strip_suffix-append p r =
    rw (reverse-append r p)
      (rw (strip_prefix-append (reverse p) (reverse r)) (ap some (reverse-reverse r)))

map-reverse-some :
    (o : Option Text) {r : Text} → Option.map reverse o ≡ some r → o ≡ some (reverse r)
map-reverse-some none h = cc
map-reverse-some (some s) {r} h =
    let e : reverse s ≡ r = cc h in ap some (sym (reverse-reverse s) ∙ ap reverse e)

pub eq-append_of_strip_suffix : (p s : Text) {r : Text} → strip_suffix p s ≡ some r → s ≡ r ++ p
unfolding strip_suffix
eq-append_of_strip_suffix p s {r} h =
    let e = eq-append_of_strip_prefix (reverse p) (reverse s) (map-reverse-some _ h) in
    s
    ≡⟨ sym (reverse-reverse s) ⟩ reverse (reverse s)
    ≡⟨ ap reverse (e ∙ sym (reverse-append r p)) ⟩ reverse (reverse (r ++ p))
    ≡⟨ reverse-reverse (r ++ p) ⟩ r ++ p ∎

-- `strip_suffix` answers `r` exactly when the text is `r` followed by the suffix.
pub strip_suffix_iff : (p s r : Text) → (strip_suffix p s ≡ some r) ↔ (s ≡ r ++ p)
strip_suffix_iff p s r = (eq-append_of_strip_suffix p s, λ e. rw e (strip_suffix-append p r))

pub strip_prefix_iff : (p s r : Text) → (strip_prefix p s ≡ some r) ↔ (s ≡ p ++ r)
strip_prefix_iff p s r = (eq-append_of_strip_prefix p s, λ e. rw e (strip_prefix-append p r))

-- The text up to the last `c`: what follows it holds no `c`, and nothing is lost.
pub through_last_split :
    (c : ℕ) (s : Text) {r : Text}
    → through_last c s ≡ some r
    → (front : Text) × (rest : Text) × (r ≡ front ++ c ∷ [])
      × (s ≡ r ++ rest)
      × (through_last c rest ≡ none)
unfolding through_last
through_last_split c [] h = cc
through_last_split c (x ∷ s) {r} h = elim (Option-cases (through_last c s)) [
  | inl last ↦ ([], s, ground arith, ground arith, last)
  | inr (t, e) ↦
      let (front, rest, p, q, n) = through_last_split c s e in
      (x ∷ front, rest, ground arith, ground arith, n)
]

pub length-through_last :
    (c : ℕ) (s : Text) {r : Text} → through_last c s ≡ some r → length r ≤ length s
length-through_last c s {r} h =
    let (front, rest, e, d, n) = through_last_split c s h in
    omega (arith, ap length d, length-append r rest)
