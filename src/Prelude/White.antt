-- ===== src/Prelude/White.antt =====
-- `str::trim`, which removes the characters of Unicode's `White_Space` from both ends, over UTF-8
-- bytes.
use Prim.Native.Nat.{ℕ}
use mathlib.Core.Bool.{Bool, true, false, ◌&&◌, ◌||◌}
use mathlib.Core.List.{[], ◌∷◌, reverse}
use quadpod.Prelude.Tests.{leb}
use quadpod.Prelude.Equality.{◌==◌, nat_eq}
use quadpod.Prelude.Bytes.{Text}

-- U+0009 to U+000D and U+0020
abbrev pub white_1 : ℕ → Bool
white_1 a = (leb 9 a && leb a 13) || a == 32

-- U+0085 and U+00A0
abbrev pub white_2 : ℕ → ℕ → Bool
white_2 a b = a == 194 && (b == 133 || b == 160)

-- U+1680, U+2000 to U+200A, U+2028, U+2029, U+202F, U+205F and U+3000
abbrev pub white_3 : ℕ → ℕ → ℕ → Bool
white_3 a b c =
    (a == 225 && b == 154 && c == 128)
    || ((a == 226 && b == 128 && ((leb 128 c && leb c 138) || (c == 168 || (c == 169 || c == 175))))
        || ((a == 226 && b == 129 && c == 159) || (a == 227 && b == 128 && c == 128)))

abbrev pub white_2_at : Bool → ℕ → ℕ → Bool
white_2_at true a b = white_2 a b
white_2_at false a b = white_2 b a

abbrev pub white_3_at : Bool → ℕ → ℕ → ℕ → Bool
white_3_at true a b c = white_3 a b c
white_3_at false a b c = white_3 c b a

-- Removes characters from the front; `forward` is false for bytes in reverse order.
unfoldable pub drop_white : Bool → Text → Text
drop_white forward [] = []
drop_white forward (a ∷ []) = elim (white_1 a) [ true ↦ [] | false ↦ a ∷ [] ]
drop_white forward (a ∷ b ∷ []) = elim (white_1 a) [
  | true ↦ drop_white forward (b ∷ [])
  | false ↦ elim (white_2_at forward a b) [ true ↦ [] | false ↦ a ∷ b ∷ [] ]
]
drop_white forward (a ∷ b ∷ c ∷ s) = elim (white_1 a) [
  | true ↦ drop_white forward (b ∷ c ∷ s)
  | false ↦ elim (white_2_at forward a b) [
    | true ↦ drop_white forward (c ∷ s)
    | false ↦ elim (white_3_at forward a b c) [
      | true ↦ drop_white forward s
      | false ↦ a ∷ b ∷ c ∷ s
    ]
  ]
]

unfoldable pub trim : Text → Text
unfolding drop_white
trim s = reverse (drop_white false (reverse (drop_white true s)))
