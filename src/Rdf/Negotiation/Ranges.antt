-- ===== src/Rdf/Negotiation/Ranges.antt =====
-- What a media range of an Accept header resolves to in `negotiate` of src/rdf.rs.
use quadpod.Prelude.{
  ◌≡◌, ◌⊎◌, refl, sym, ◌∙◌, ap, inl, inr, Bool, true, false, ◌||◌, Option, none, some, List, [],
  ◌∷◌, map, ◌==◌, nat_eq, list_eq, list_beq, text_eq, Text, codes, split, trim, arith, Bool-cases,
  Option-cases,
}
use quadpod.Dataset.{to_ascii_lowercase}
use quadpod.Rdf.{Format, from_content_type, media_type, format_media_type}
use quadpod.Rdf.Negotiation.{keep, or_else, find_type, fallback, candidate}

abbrev pub is_wildcard : Text → Bool
is_wildcard mt =
    let range = map to_ascii_lowercase mt in
    range == codes "*/*" || (range == codes "text/*" || range == codes "application/*")

-- A media range that is the type of a format.
abbrev pub Names : Text → Format → Type 0
Names mt f = from_content_type (map to_ascii_lowercase mt) ≡ some f

keep-some :
    (ok : Format → Bool) (o : Option Format) {f : Format}
    → keep ok o ≡ some f
    → (ok f ≡ true) × (o ≡ some f)
unfolding keep
keep-some ok none h = absurd (ground (arith, h))
keep-some ok (some g) {f} h = elim (Bool-cases (ok g)) [
  | inl e ↦ let same : g ≡ f = ground (arith, h, e) in (ap ok (sym same) ∙ e, ap some same)
  | inr e ↦ absurd (ground (arith, h, e))
]

find_type-some :
    (ok : Format → Bool) (cts : List Text) {f : Format} → find_type ok cts ≡ some f → ok f ≡ true
unfolding find_type or_else
find_type-some ok [] h = absurd (ground (arith, h))
find_type-some ok (ct ∷ cts) {f} h = elim (Option-cases (keep ok (from_content_type ct))) [
  | inl e ↦ find_type-some ok cts (ground (arith, h, e))
  | inr (g, e) ↦
      let same : g ≡ f = ground (arith, h, e) in
      (keep-some ok (from_content_type ct) (e ∙ ap some same)).0
]

module _ (ok ok_named p : Format → Bool) (of_ok : (f : Format) → ok f ≡ true → p f ≡ true)
    (of_named : (f : Format) → ok_named f ≡ true → p f ≡ true) (stored : Option Format) where
  pub candidate-some :
      (mt : Text) {f : Format}
      → candidate ok ok_named stored mt ≡ some f
      → (p f ≡ true) × ((is_wildcard mt ≡ true) ⊎ Names mt f)
  unfolding candidate fallback or_else
  candidate-some mt {f} h = elim (Bool-cases (map to_ascii_lowercase mt == codes "*/*")) [
    | inl a ↦ elim (Option-cases (keep ok stored)) [
      | inl e ↦
          let found = find_type-some ok _ (rw (a, e, candidate) at h) in
          (of_ok f found, inl (ground (arith, a)))
      | inr (g, e) ↦
          let same : g ≡ f = ground (arith, h, a, e) in
          (of_ok f (keep-some ok stored (e ∙ ap some same)).0, inl (ground (arith, a)))
    ]
    | inr a ↦ elim (Bool-cases (map to_ascii_lowercase mt == codes "text/*")) [
      | inl b ↦ (of_ok f (keep-some ok _ (rw (a, b, candidate) at h)).0, inl (ground (arith, b)))
      | inr b ↦ elim (Bool-cases (map to_ascii_lowercase mt == codes "application/*")) [
        | inl c ↦
            let found = find_type-some ok _ (rw (a, b, c, candidate) at h) in
            (of_ok f found, inl (ground (arith, c)))
        | inr c ↦
            let r = keep-some ok_named _ (rw (a, b, c, candidate) at h) in (of_named f r.0, inr r.1)
      ]
    ]
  ]

no_wildcard_type :
    (from_content_type (codes "*/*") ≡ none)
    × (from_content_type (codes "text/*") ≡ none)
    × (from_content_type (codes "application/*") ≡ none)
unfolding from_content_type media_type format_media_type to_ascii_lowercase split trim list_beq
no_wildcard_type = (refl, refl, refl)

differs :
    (range wild : Text) {g : Format}
    → from_content_type wild ≡ none
    → from_content_type range ≡ some g
    → (range == wild) ≡ false
differs range wild e h = elim (Bool-cases (range == wild)) [
  | inr other ↦ other
  | inl same ↦
      let one : range ≡ wild = (text_eq range wild).0 same in
      absurd (ground (arith, ap from_content_type one, e, h))
]

pub candidate-named :
    (ok ok_named : Format → Bool) (stored : Option Format) (mt : Text) {g : Format}
    → Names mt g
    → ok_named g ≡ true
    → candidate ok ok_named stored mt ≡ some g
unfolding candidate keep
candidate-named ok ok_named stored mt {g} named yes_g =
    let range = map to_ascii_lowercase mt in
    let a = differs range (codes "*/*") no_wildcard_type.0 named in
    let b = differs range (codes "text/*") no_wildcard_type.1 named in
    let c = differs range (codes "application/*") no_wildcard_type.2 named in
    rw (a, b, c, named, yes_g) refl
