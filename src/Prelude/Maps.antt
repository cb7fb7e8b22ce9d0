-- ===== src/Prelude/Maps.antt =====
-- `HashMap<String, V>` and `HashSet<String>` as association lists; no code here depends on an
-- iteration order.
use mathlib.Core.Path.{◌≡◌, refl}
use mathlib.Core.Bool.{Bool, false, ◌||◌}
use mathlib.Core.Option.{Option, none, some}
use mathlib.Core.List.{List, [], ◌∷◌}
use native.Mathlib.Omega.{arith}
use quadpod.Prelude.Tests.{if◌then◌else◌}
use quadpod.Prelude.Equality.{◌==◌, nat_eq, list_eq, text_eq}
use quadpod.Prelude.Bytes.{Text}

abbrev pub Map {ℓ} : Type ℓ → Type ℓ
Map V = List (Text × V)

module _ {ℓ} {V : Type ℓ} where
  unfoldable pub get : Text → Map V → Option V
  get k [] = none
  get k ((j, v) ∷ m) = if j == k then some v else get k m

  unfoldable pub insert : Text → V → Map V → Map V
  insert k v [] = (k, v) ∷ []
  insert k v ((j, old) ∷ m) =
      let rest = insert k v m in if j == k then (k, v) ∷ m else (j, old) ∷ rest

  unfoldable pub remove : Text → Map V → Map V
  remove k [] = []
  remove k ((j, w) ∷ m) = let rest = remove k m in if j == k then rest else (j, w) ∷ rest

  pub get-insert :
      (k j : Text) (v : V) (m : Map V) → get j (insert k v m) ≡ (if k == j then some v else get j m)
  unfolding get insert
  get-insert k j v [] = refl
  get-insert k j v ((i, w) ∷ m) =
      ground (arith, text_eq k j, text_eq i k, text_eq i j, get-insert k j v m)

  pub get-remove :
      (k j : Text) (m : Map V) → get j (remove k m) ≡ (if k == j then none else get j m)
  unfolding get remove
  get-remove k j [] = ground arith
  get-remove k j ((i, w) ∷ m) =
      ground (arith, text_eq i k, text_eq i j, text_eq k j, get-remove k j m)

-- `set.contains(x)`
unfoldable pub member : Text → List Text → Bool
member x [] = false
member x (y ∷ l) = y == x || member x l
