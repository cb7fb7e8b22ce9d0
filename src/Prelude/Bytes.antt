-- ===== src/Prelude/Bytes.antt =====
-- `str` as the list of its UTF-8 bytes, with the operations of `str` that the source calls.
use Prim.Native.Nat.{ℕ}
use Prim.Native.Char.{code}
use Prim.Native.String.{String}
use mathlib.Core.Bool.{Bool, true, false}
use mathlib.Core.Option
use mathlib.Core.Option.{Option, none, some}
use mathlib.Core.List.{List, [], ◌∷◌, reverse}
use quadpod.Prelude.Tests.{if◌then◌else◌, is_some}
use quadpod.Prelude.Equality.{◌==◌, nat_eq}

abbrev pub Text : Type 0
Text = List ℕ

-- An ASCII literal.
abbrev pub codes : String → Text
codes String.[] = []
codes (String.◌∷◌ c s) = code c ∷ codes s

unfoldable pub strip_prefix : Text → Text → Option Text
strip_prefix [] s = some s
strip_prefix (c ∷ p) [] = none
strip_prefix (c ∷ p) (d ∷ s) = if c == d then strip_prefix p s else none

unfoldable pub strip_suffix : Text → Text → Option Text
unfolding strip_prefix
strip_suffix p s = Option.map reverse (strip_prefix (reverse p) (reverse s))

unfoldable pub starts_with : Text → Text → Bool
unfolding strip_prefix
starts_with p s = is_some (strip_prefix p s)

unfoldable pub ends_with : Text → Text → Bool
unfolding strip_suffix
ends_with p s = is_some (strip_suffix p s)

abbrev pub cons_first : ℕ → List Text → List Text
cons_first x [] = (x ∷ []) ∷ []
cons_first x (s ∷ r) = (x ∷ s) ∷ r

-- `s.split(c)`: never empty.
unfoldable pub split : ℕ → Text → List Text
split c [] = [] ∷ []
split c (x ∷ s) = let r = split c s in if x == c then [] ∷ r else cons_first x r

-- `s.split_once(c)`
unfoldable pub split_once : ℕ → Text → Option (Text × Text)
split_once c [] = none
split_once c (x ∷ s) =
    let r = split_once c s in if x == c then some ([], s) else Option.map (λ p. (x ∷ p.0, p.1)) r

unfoldable pub contains : ℕ → Text → Bool
contains c [] = false
contains c (x ∷ s) = if x == c then true else contains c s

-- `&s[..=s.rfind(c)?]`
unfoldable pub through_last : ℕ → Text → Option Text
through_last c [] = none
through_last c (x ∷ s) = elim (through_last c s) [
  | some r ↦ some (x ∷ r)
  | none ↦ if x == c then some (x ∷ []) else none
]
