-- ===== src/Rdf/Tests.antt =====
-- Runs of the definitions of src/rdf.rs, and its theorems at concrete inputs.
use quadpod.Prelude.{
  ◌≡◌, refl, none, some, Option, list_beq, Text, codes, split, split_once, trim, contains,
}
use quadpod.Dataset.{to_ascii_lowercase, eq_ignore_ascii_case}
use quadpod.Rdf.{
  rdf12, label, version_of_label, from_parameters, from_media_type, is_ascii_alphanumeric, is_tchar,
  is_token, is_media_type_byte, MediaType, are_parameters, is_type, is_media_range, parse,
  media_type, essence, turtle, format_media_type, from_content_type,
}

-- What the definitions call, for runs.
rdf_runs : Unit {0}
unfolding label version_of_label from_parameters from_media_type is_ascii_alphanumeric is_tchar
    is_token is_media_type_byte are_parameters is_type is_media_range parse media_type essence
    format_media_type from_content_type to_ascii_lowercase eq_ignore_ascii_case list_beq split
    split_once trim contains
rdf_runs = tt

-- A header type that takes every text.
abbrev header : Text → Option Text
header t = some t

abbrev kept : MediaType Text
kept = record { raw = codes "text/turtle; version=1.2"; header = codes "text/turtle; version=1.2" }

parse_tests :
    (parse header (codes " text/turtle; version=1.2 ") ≡ some kept)
    × (parse header (codes "text/turtle; a=\"b\"") ≡ none)
    × (parse header (codes "text") ≡ none)
    × (from_media_type (codes "text/turtle; version=1.2") ≡ some rdf12)
    × (from_media_type (codes "text/turtle; version") ≡ none)
    × (from_content_type (codes "Text/Turtle ; charset=utf-8") ≡ some turtle)
unfolding rdf_runs
parse_tests = (refl, refl, refl, refl, refl, refl)
