-- ===== src/Rdf.antt =====
-- src/rdf.rs: the RDF versions and the media types.
pub mod Media
pub mod Negotiation
mod Tests
use quadpod.Prelude.{
  ℕ, ◌≤◌, Bool, true, false, not, ◌&&◌, ◌||◌, Option, none, some, List, [], ◌∷◌, map, all, is_empty,
  leb, if◌then◌else◌, ◌==◌, nat_eq, list_eq, Text, codes, split, split_once, trim, contains,
}
use quadpod.Dataset.{to_ascii_lowercase, eq_ignore_ascii_case}

pub data RdfVersion : Type 0 where
  rdf11 rdf12_basic rdf12 : RdfVersion

-- The derived order is that of the variants.
abbrev pub rank : RdfVersion → ℕ
rank rdf11 = 0
rank rdf12_basic = 1
rank rdf12 = 2

unfoldable pub label : RdfVersion → Text
label rdf11 = codes "1.1"
label rdf12_basic = codes "1.2-basic"
label rdf12 = codes "1.2"

-- The arms of the inner match.
unfoldable pub version_of_label : Text → Option RdfVersion
version_of_label value =
    if value == codes "1.1"
    then some rdf11
    else if value == codes "1.2-basic"
    then some rdf12_basic
    else if value == codes "1.2"
    then some rdf12
    else none

-- The loop over the parameters; `none` is also the answer to a parameter without `=`.
unfoldable pub from_parameters : Option RdfVersion → List Text → Option RdfVersion
from_parameters found [] = elim found [ some v ↦ some v | none ↦ some rdf11 ]
from_parameters found (p ∷ ps) = elim (split_once b'=' (trim p)) [
  | none ↦ none
  | some (name, value) ↦
      let skipped = from_parameters found ps in
      if not (eq_ignore_ascii_case (trim name) (codes "version"))
      then skipped
      else elim (version_of_label (trim value)) [
        | none ↦ none
        | some v ↦ from_parameters (some v) ps
      ]
]

abbrev pub skip_1 : List Text → List Text
skip_1 [] = []
skip_1 (t ∷ ts) = ts

unfoldable pub from_media_type : Text → Option RdfVersion
from_media_type mt = from_parameters none (skip_1 (split b';' mt))

unfoldable pub is_ascii_alphanumeric : ℕ → Bool
is_ascii_alphanumeric b =
    (leb b'0' b && leb b b'9') || ((leb b'A' b && leb b b'Z') || (leb b'a' b && leb b b'z'))

-- The punctuation of a tchar.
abbrev pub tchar_marks : Text
tchar_marks = codes "!#$%&'*+-.^_`|~"

unfoldable pub is_tchar : ℕ → Bool
unfolding is_ascii_alphanumeric
is_tchar b = is_ascii_alphanumeric b || contains b tchar_marks

unfoldable pub is_token : Text → Bool
is_token t = not (is_empty t) && all is_tchar t

unfoldable pub is_media_type_byte : ℕ → Bool
is_media_type_byte b = is_tchar b || (b == b'/' || (b == b';' || (b == b'=' || b == b' ')))

-- `http::HeaderValue`, with `from_str`, is a parameter.
pub record MediaType (HeaderValue : Type 0) : Type 0 where
  pub raw : Text
  pub header : HeaderValue

-- The loop over the parameters of `MediaType::parse`.
unfoldable pub are_parameters : List Text → Bool
are_parameters [] = true
are_parameters (p ∷ ps) = elim (split_once b'=' (trim p)) [
  | none ↦ false
  | some (name, value) ↦ is_token name && (is_token value && are_parameters ps)
]

unfoldable pub is_type : Text → Bool
is_type first = elim (split_once b'/' (trim first)) [
  | none ↦ false
  | some (ty, sub) ↦ is_token ty && is_token sub
]

-- The checks of `MediaType::parse` on the split text.
unfoldable pub is_media_range : List Text → Bool
is_media_range [] = false
is_media_range (first ∷ parts) = is_type first && are_parameters parts

module _ {HeaderValue : Type 0} (from_str : Text → Option HeaderValue) where
  unfoldable pub parse : Text → Option (MediaType HeaderValue)
  parse s =
      let trimmed = trim s in
      if not (all is_media_type_byte trimmed)
      then none
      else if not (is_media_range (split b';' trimmed))
      then none
      else elim (from_str trimmed) [
        | none ↦ none
        | some h ↦ some (record { raw = trimmed; header = h })
      ]

-- `media_type`: what stands before the parameters.
unfoldable pub media_type : Text → Text
media_type ct = elim (split b';' ct) [ [] ↦ [] | first ∷ rest ↦ trim first ]

unfoldable pub essence : {HeaderValue : Type 0} → MediaType HeaderValue → Text
essence m = map to_ascii_lowercase (media_type m.raw)

pub data Format : Type 0 where
  turtle n_triples json_ld tri_g n_quads : Format

abbrev pub all_formats : List Format
all_formats = turtle ∷ n_triples ∷ json_ld ∷ tri_g ∷ n_quads ∷ []

unfoldable pub format_media_type : Format → Text
format_media_type turtle = codes "text/turtle"
format_media_type n_triples = codes "application/n-triples"
format_media_type json_ld = codes "application/ld+json"
format_media_type tri_g = codes "application/trig"
format_media_type n_quads = codes "application/n-quads"

abbrev pub find_format : List Format → Text → Option Format
find_format [] mt = none
find_format (f ∷ fs) mt = if format_media_type f == mt then some f else find_format fs mt

unfoldable pub from_content_type : Text → Option Format
from_content_type ct = find_format all_formats (map to_ascii_lowercase (media_type ct))
