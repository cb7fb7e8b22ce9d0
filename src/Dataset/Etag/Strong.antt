-- ===== src/Dataset/Etag/Strong.antt =====
-- What two equal validators of src/dataset.rs say of what they validate.
use mathlib.Core.List.{append_cancel_left, append_cancel_right}
use mathlib.Core.List.Permᴰ
use mathlib.Core.List.{Permᴰ}
use quadpod.Prelude.{
  ◌≡◌, ◌↔◌, refl, sym, ◌∙◌, ap, inl, inr, false, some, List, [], ◌∷◌, ◌++◌, map, All, nat_eq,
  list_eq, list_beq, Text, codes, contains, Bool-cases, arith,
}
use quadpod.Dataset.Ground.{GroundQuad, Skolemized}
use quadpod.Rdf.{
  RdfVersion, rdf11, rdf12_basic, rdf12, Format, turtle, n_triples, json_ld, tri_g, n_quads,
  all_formats, find_format, format_media_type, label, version_of_label,
}
use quadpod.Dataset.Etag.{
  text_le, insert_line, sort_lines, ended, hashed, etag, sort_lines-Perm, Perm-sort_lines,
}

-- A text of one line.
abbrev pub IsLine : Text → Type 0
IsLine s = contains 10 s ≡ false

insert_line-All :
    (x : Text) (l : List Text) → IsLine x → All IsLine l → All IsLine (insert_line x l)
unfolding insert_line
insert_line-All x [] h a = (h, tt)
insert_line-All x (y ∷ l) h (k, a) = elim (Bool-cases (text_le x y)) [
  | inl e ↦ rw e (h, (k, a))
  | inr e ↦ rw e (k, insert_line-All x l h a)
]

sort_lines-All : (l : List Text) → All IsLine l → All IsLine (sort_lines l)
unfolding sort_lines
sort_lines-All [] a = tt
sort_lines-All (x ∷ l) (h, a) = insert_line-All x (sort_lines l) h (sort_lines-All l a)

one_line : (a c r s : Text) → IsLine a → IsLine c → a ++ 10 ∷ r ≡ c ++ 10 ∷ s → (a ≡ c) × (r ≡ s)
unfolding contains
one_line [] [] r s h k e = (refl, ground (arith, e))
one_line [] (y ∷ c) r s h k e = absurd (ground (arith, e, k))
one_line (x ∷ a) [] r s h k e = absurd (ground (arith, e, h))
one_line (x ∷ a) (y ∷ c) r s h k e =
    let rest = one_line a c r s (ground (arith, h)) (ground (arith, k)) (ground (arith, e)) in
    (ground (arith, e, rest.0), rest.1)

ended-injective :
    (ls ms : List Text) → All IsLine ls → All IsLine ms → ended ls ≡ ended ms → ls ≡ ms
unfolding ended
ended-injective [] [] a c e = refl
ended-injective [] ([] ∷ ms) a c e = absurd (ground (arith, e))
ended-injective [] ((x ∷ m) ∷ ms) a c e = absurd (ground (arith, e))
ended-injective ([] ∷ ls) [] a c e = absurd (ground (arith, e))
ended-injective ((x ∷ l) ∷ ls) [] a c e = absurd (ground (arith, e))
ended-injective (l ∷ ls) (m ∷ ms) (h, a) (k, c) e =
    let (same, rest) = one_line l m (ended ls) (ended ms) h k e in
    cc (same, ended-injective ls ms a c rest)

find_format-media_type : (f : Format) → find_format all_formats (format_media_type f) ≡ some f
unfolding format_media_type list_beq
find_format-media_type turtle = refl
find_format-media_type n_triples = refl
find_format-media_type json_ld = refl
find_format-media_type tri_g = refl
find_format-media_type n_quads = refl

format_media_type_injective : (f g : Format) → format_media_type f ≡ format_media_type g → f ≡ g
format_media_type_injective f g e =
    let same =
      sym (find_format-media_type f) ∙ ap (find_format all_formats) e ∙ find_format-media_type g in
    ground (arith, same)

version_of_label-label : (v : RdfVersion) → version_of_label (label v) ≡ some v
unfolding label version_of_label list_beq
version_of_label-label rdf11 = refl
version_of_label-label rdf12_basic = refl
version_of_label-label rdf12 = refl

label_injective : (v u : RdfVersion) → label v ≡ label u → v ≡ u
label_injective v u e =
    let same = sym (version_of_label-label v) ∙ ap version_of_label e ∙ version_of_label-label u in
    ground (arith, same)

format_media_type-IsLine : (f : Format) → IsLine (format_media_type f)
unfolding format_media_type contains
format_media_type-IsLine turtle = refl
format_media_type-IsLine n_triples = refl
format_media_type-IsLine json_ld = refl
format_media_type-IsLine tri_g = refl
format_media_type-IsLine n_quads = refl

label-IsLine : (v : RdfVersion) → IsLine (label v)
unfolding label contains
label-IsLine rdf11 = refl
label-IsLine rdf12_basic = refl
label-IsLine rdf12 = refl

-- What a validator stands for.
abbrev pub IsSameState :
    (GroundQuad → Text)
    → Skolemized
    → Format
    → RdfVersion
    → Skolemized
    → Format
    → RdfVersion
    → Type 0
IsSameState text_of s f v t g u = (f ≡ g) × (v ≡ u) × Permᴰ (map text_of s) (map text_of t)

module _ (digest : Text → Text) (text_of : GroundQuad → Text)
    (lines : (q : GroundQuad) → IsLine (text_of q)) where
  texts-IsLine : (s : Skolemized) → All IsLine (map text_of s)
  texts-IsLine [] = tt
  texts-IsLine (q ∷ s) = (lines q, texts-IsLine s)

  hashed-IsLine :
      (s : Skolemized) (f : Format) (v : RdfVersion)
      → All IsLine (format_media_type f ∷ label v ∷ sort_lines (map text_of s))
  hashed-IsLine s f v = (
    format_media_type-IsLine f,
    (label-IsLine v, sort_lines-All (map text_of s) (texts-IsLine s)),
  )

  same_digest :
      (s : Skolemized) (f : Format) (v : RdfVersion) (t : Skolemized) (g : Format) (u : RdfVersion)
      → etag digest text_of s f v ≡ etag digest text_of t g u
      → digest (hashed digest text_of s f v) ≡ digest (hashed digest text_of t g u)
  unfolding etag
  same_digest s f v t g u e =
      append_cancel_right _ _ (codes "\"") (append_cancel_left (codes "\"") _ _ e)

  -- Where the text of a quad is one line, and the two texts that are hashed are not a collision of
  -- the digest, two validators are equal exactly if they are for the same format and the same
  -- version of the same quads, by their text, in any order and each as often.
  pub etag_iff :
      (s : Skolemized) (f : Format) (v : RdfVersion) (t : Skolemized) (g : Format) (u : RdfVersion)
      → (digest (hashed digest text_of s f v) ≡ digest (hashed digest text_of t g u)
          → hashed digest text_of s f v ≡ hashed digest text_of t g u)
      → (etag digest text_of s f v ≡ etag digest text_of t g u) ↔ IsSameState text_of s f v t g u
  unfolding etag
  etag_iff s f v t g u distinct = (to, from)
    where
      to : etag digest text_of s f v ≡ etag digest text_of t g u → IsSameState text_of s f v t g u
      to e =
          let same =
            ended-injective _ _ (hashed-IsLine s f v) (hashed-IsLine t g u)
              (distinct (same_digest s f v t g u e)) in
          let sorted : sort_lines (map text_of s) ≡ sort_lines (map text_of t) =
            ground (arith, same) in
          (
            format_media_type_injective f g (ground (arith, same)),
            label_injective v u (ground (arith, same)),
            Permᴰ.trans (Permᴰ.symm (Perm-sort_lines (map text_of s)))
                (rw sorted (Perm-sort_lines (map text_of t))),
          )

      from : IsSameState text_of s f v t g u → etag digest text_of s f v ≡ etag digest text_of t g u
      from (a, c, p) = rw a (rw c (rw (sort_lines-Perm p) refl))
