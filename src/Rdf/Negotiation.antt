-- ===== src/Rdf/Negotiation.antt =====
-- Content negotiation of src/rdf.rs. A quality is an f32: its parser, its order and the test for
-- zero are the parameter `Quality`. Which formats carry named graphs is oxigraph's to say.
pub mod Ranking
pub mod Ranges
pub mod Preferred
mod Tests
use quadpod.Prelude.{
  ℕ, Bool, true, false, not, ◌&&◌, ◌||◌, Option, none, some, List, [], ◌∷◌, map, any, is_empty, suc,
  retain, leb, if◌then◌else◌, ◌==◌, nat_eq, list_eq, Text, codes, strip_prefix, ends_with, split,
  trim,
}
use quadpod.Dataset.{to_ascii_lowercase}
use quadpod.Rdf.{
  RdfVersion, rdf11, from_media_type, skip_1, media_type, Format, format_media_type,
  from_content_type,
}

pub data Shape : Type 0 where
  graph dataset : Shape

-- `v.parse::<f32>().ok()`, the literal 1.0, `==` with 0.0, and whether one value is greater.
pub record Quality (Q : Type 0) : Type 0 where
  pub parse : Text → Option Q
  pub one : Q
  pub is_zero : Q → Bool
  pub greater : Q → Q → Bool

pub record Ranked (Q : Type 0) : Type 0 where
  pub q : Q
  pub position : ℕ
  pub range : Text
  pub whole : Text

module _ {Q : Type 0} (quality : Quality Q) where
  -- The `filter_map` over the parameters, its first value, and what stands for none.
  unfoldable pub quality_of : List Text → Q
  quality_of [] = quality.one
  quality_of (p ∷ ps) =
      let rest = quality_of ps in
      elim (strip_prefix (codes "q=") (trim p)) [
        | none ↦ rest
        | some v ↦ elim (quality.parse v) [ none ↦ rest | some q ↦ q ]
      ]

  unfoldable pub entry_of : ℕ → Text → Ranked Q
  entry_of i part = record {
    q = quality_of (skip_1 (split b';' part));
    position = i;
    range = media_type part;
    whole = trim part;
  }

  unfoldable pub entries : ℕ → List Text → List (Ranked Q)
  entries i [] = []
  entries i (part ∷ parts) = entry_of i part ∷ entries (suc i) parts

  -- The closure of `sort_by`: whether `a` does not come after `b`.
  unfoldable pub comes_first : Ranked Q → Ranked Q → Bool
  comes_first a b =
      quality.greater a.q b.q || (not (quality.greater b.q a.q) && leb a.position b.position)

  -- `sort_by`, by insertion.
  unfoldable pub insert_ranked : Ranked Q → List (Ranked Q) → List (Ranked Q)
  insert_ranked a [] = a ∷ []
  insert_ranked a (b ∷ l) =
      let rest = insert_ranked a l in if comes_first a b then a ∷ b ∷ l else b ∷ rest

  unfoldable pub sort_ranked : List (Ranked Q) → List (Ranked Q)
  sort_ranked [] = []
  sort_ranked (a ∷ l) = insert_ranked a (sort_ranked l)

  unfoldable pub ranked_accept : Text → List (Ranked Q)
  ranked_accept accept = sort_ranked (entries 0 (split b',' accept))

  -- The media ranges with quality zero, but for a range of a type.
  unfoldable pub rejected : List (Ranked Q) → List Text
  rejected ranked =
      map (λ e. map to_ascii_lowercase e.range)
        (retain (λ e. quality.is_zero e.q && not (ends_with (codes "/*") e.range)) ranked)

  unfoldable pub not_rejected : List (Ranked Q) → Format → Bool
  not_rejected ranked f = not (any (λ r. r == format_media_type f) (rejected ranked))

  -- One pass over the list, with what a media range resolves to.
  unfoldable pub pass : (Text → Option Format) → List (Ranked Q) → Option (Format × RdfVersion)
  pass candidate [] = none
  pass candidate (e ∷ l) =
      let rest = pass candidate l in
      if quality.is_zero e.q then rest else elim (from_media_type e.whole) [
        | none ↦ rest
        | some version ↦ elim (candidate e.range) [ none ↦ rest | some f ↦ some (f, version) ]
      ]

unfoldable pub keep : (Format → Bool) → Option Format → Option Format
keep ok none = none
keep ok (some f) = if ok f then some f else none

unfoldable pub or_else : Option Format → Option Format → Option Format
or_else none g = g
or_else (some f) g = some f

-- `filter_map(from_content_type).find(ok)`
unfoldable pub find_type : (Format → Bool) → List Text → Option Format
find_type ok [] = none
find_type ok (ct ∷ cts) = or_else (keep ok (from_content_type ct)) (find_type ok cts)

unfoldable pub fallback : (Format → Bool) → Option Format
fallback ok = find_type ok (codes "text/turtle" ∷ codes "application/ld+json" ∷ [])

-- The arms of the match on a media range: `ok` filters what a wildcard resolves to, `ok_named` a
-- type that is named.
unfoldable pub candidate : (Format → Bool) → (Format → Bool) → Option Format → Text → Option Format
candidate ok ok_named stored mt =
    let range = map to_ascii_lowercase mt in
    if range == codes "*/*"
    then or_else (keep ok stored) (fallback ok)
    else if range == codes "text/*"
    then keep ok (from_content_type (codes "text/turtle"))
    else if range == codes "application/*"
    then fallback ok
    else keep ok_named (from_content_type range)

module _ {Q : Type 0} (quality : Quality Q) (carries_dataset : Format → Bool) where
  unfoldable pub usable : Shape → Format → Bool
  usable Shape.graph f = true
  usable Shape.dataset f = carries_dataset f

  unfoldable pub passes : Shape → Option Format → List (Ranked Q) → Option (Format × RdfVersion)
  passes shape stored ranked =
      let allowed = not_rejected quality ranked in
      let offered = λ (f : Format). usable shape f && allowed f in
      elim (pass quality (candidate offered (usable shape) stored) ranked) [
        | some answer ↦ some answer
        | none ↦ pass quality (candidate allowed allowed stored) ranked
      ]

  unfoldable pub negotiate : Text → Shape → Option Format → Option (Format × RdfVersion)
  negotiate accept shape stored =
      let trimmed = trim accept in
      if is_empty trimmed
      then elim (or_else (keep (usable shape) stored) (fallback (usable shape))) [
        | none ↦ none
        | some f ↦ some (f, rdf11)
      ]
      else passes shape stored (ranked_accept quality trimmed)
