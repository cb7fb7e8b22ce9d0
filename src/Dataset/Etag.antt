-- ===== src/Dataset/Etag.antt =====
-- src/dataset.rs: the validator of a stored dataset. `digest` is the SHA-256 of its argument in hex
-- and `text_of` is `Quad::to_string` of the RDF library.

pub mod Strong
use mathlib.Core.List.Permᴰ
use mathlib.Core.List.{Permᴰ}
use quadpod.Prelude.{
  ℕ, ◌≡◌, ◌↔◌, refl, sym, ◌∙◌, ap, inl, inr, Bool, true, false, ◌&&◌, ◌||◌, Option, none, some,
  List, [], ◌∷◌, ◌++◌, map, All, if◌then◌else◌, ltb, ◌==◌, nat_eq, Text, codes, contains,
  Bool-cases, arith,
}
use quadpod.Dataset.Ground.{GroundQuad, Skolemized}
use quadpod.Rdf.{
  RdfVersion, Format, all_formats, find_format, format_media_type, label, version_of_label,
}

-- The order of `str`, which is that of its bytes.
unfoldable pub text_le : Text → Text → Bool
text_le [] t = true
text_le (a ∷ s) [] = false
text_le (a ∷ s) (c ∷ t) = let rest = text_le s t in ltb a c || (a == c && rest)

unfoldable pub insert_line : Text → List Text → List Text
insert_line x [] = x ∷ []
insert_line x (y ∷ ys) = let rest = insert_line x ys in if text_le x y then x ∷ y ∷ ys else y ∷ rest

-- `lines.sort()`
unfoldable pub sort_lines : List Text → List Text
sort_lines [] = []
sort_lines (x ∷ xs) = insert_line x (sort_lines xs)

-- Each piece with the newline after it.
unfoldable pub ended : List Text → Text
ended [] = []
ended (l ∷ ls) = l ++ (10 ∷ ended ls)

module _ (digest : Text → Text) (text_of : GroundQuad → Text) where
  -- What is hashed.
  abbrev pub hashed : Skolemized → Format → RdfVersion → Text
  hashed s fmt served = ended (format_media_type fmt ∷ label served ∷ sort_lines (map text_of s))

  -- `Skolemized::etag`
  unfoldable pub etag : Skolemized → Format → RdfVersion → Text
  etag s fmt served = codes "\"" ++ (digest (hashed s fmt served) ++ codes "\"")

text_le_total : (s t : Text) → text_le s t ≡ false → text_le t s ≡ true
unfolding text_le
text_le_total [] t h = absurd (ground (arith, h))
text_le_total (a ∷ s) [] h = refl
text_le_total (a ∷ s) (c ∷ t) h = ground (arith, text_le_total s t, h)

text_le_antisym : (s t : Text) → text_le s t ≡ true → text_le t s ≡ true → s ≡ t
unfolding text_le
text_le_antisym [] [] h k = refl
text_le_antisym [] (c ∷ t) h k = absurd (ground (arith, k))
text_le_antisym (a ∷ s) [] h k = absurd (ground (arith, h))
text_le_antisym (a ∷ s) (c ∷ t) h k = ground (arith, text_le_antisym s t, h, k)

text_le_trans : (s t u : Text) → text_le s t ≡ true → text_le t u ≡ true → text_le s u ≡ true
unfolding text_le
text_le_trans [] t u h k = refl
text_le_trans (a ∷ s) [] u h k = absurd (ground (arith, h))
text_le_trans (a ∷ s) (c ∷ t) [] h k = absurd (ground (arith, k))
text_le_trans (a ∷ s) (c ∷ t) (e ∷ u) h k = ground (arith, text_le_trans s t u, h, k)

insert_line_comm :
    (x y : Text) (l : List Text) → insert_line x (insert_line y l) ≡ insert_line y (insert_line x l)
unfolding insert_line
insert_line_comm x y [] = ground (arith, text_le_total x y, text_le_antisym x y)
insert_line_comm x y (z ∷ l) = ground (
  arith,
  insert_line_comm x y l,
  text_le_total x y,
  text_le_antisym x y,
  text_le_trans x y z,
  text_le_trans y x z,
)

pub sort_lines-Perm : {ls ms : List Text} → Permᴰ ls ms → sort_lines ls ≡ sort_lines ms
unfolding sort_lines
sort_lines-Perm Permᴰ.nil = refl
sort_lines-Perm (Permᴰ.cons e p) = cc (e, sort_lines-Perm p)
sort_lines-Perm (Permᴰ.swap {l = l} d e) = rw d (rw e (insert_line_comm _ _ (sort_lines l)))
sort_lines-Perm (Permᴰ.trans p q) = sort_lines-Perm p ∙ sort_lines-Perm q

insert_line-Perm : (x : Text) (l : List Text) → Permᴰ (insert_line x l) (x ∷ l)
unfolding insert_line
insert_line-Perm x [] = Permᴰ.refl (x ∷ [])
insert_line-Perm x (y ∷ l) = elim (Bool-cases (text_le x y)) [
  | inl e ↦ rw e (Permᴰ.refl (x ∷ y ∷ l))
  | inr e ↦ rw e (Permᴰ.trans (Permᴰ.cons refl (insert_line-Perm x l)) (Permᴰ.swap refl refl))
]

pub Perm-sort_lines : (ls : List Text) → Permᴰ (sort_lines ls) ls
unfolding sort_lines
Perm-sort_lines [] = Permᴰ.nil
Perm-sort_lines (x ∷ xs) =
    Permᴰ.trans (insert_line-Perm x (sort_lines xs)) (Permᴰ.cons refl (Perm-sort_lines xs))
