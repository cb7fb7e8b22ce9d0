-- ===== src/Rdf/Negotiation/Tests.antt =====
-- Runs of the content negotiation of src/rdf.rs, and its theorem at a concrete header.
use mathlib.Core.Path.{subst}
use mathlib.Core.List.{Memᴰ}
use quadpod.Prelude.{
  ℕ, ◌≡◌, refl, sym, [], ◌∷◌, Bool, true, false, All, arith, not, Option, none, some, is_empty, leb,
  if◌then◌else◌, ◌==◌, nat_eq, list_eq, list_beq, Text, codes, strip_prefix, strip_suffix,
  ends_with, split, split_once, trim, contains,
}
use quadpod.Dataset.{to_ascii_lowercase, eq_ignore_ascii_case}
use quadpod.Rdf.{
  RdfVersion, rdf11, rdf12, label, version_of_label, from_parameters, from_media_type, Format,
  turtle, json_ld, media_type, format_media_type, from_content_type,
}
use quadpod.Rdf.Negotiation.{
  Shape, Quality, Ranked, quality_of, entry_of, entries, comes_first, insert_ranked, sort_ranked,
  ranked_accept, rejected, not_rejected, pass, keep, or_else, find_type, fallback, candidate,
  usable, passes, negotiate,
}
use quadpod.Rdf.Negotiation.Ranking.{Numbers, IsNumber}
use quadpod.Rdf.Negotiation.Ranges.{Names}
use quadpod.Rdf.Negotiation.Preferred.{IsPreferred, negotiate-IsPreferred}

-- Qualities as thousandths, of which a few are read.
abbrev thousandths : Quality ℕ
thousandths = record {
  parse = λ t. if t == codes "0" then some 0 else if t == codes "0.5" then some 500 else none;
  one = 1000;
  is_zero = λ q. q == 0;
  greater = λ a b. not (leb a b);
}

abbrev named_graphs : Format → Bool
named_graphs f = not (list_beq (format_media_type f) (codes "text/turtle"))

abbrev answer : Text → Shape → Option (Format × RdfVersion)
answer accept shape = negotiate thousandths named_graphs accept shape none

-- The higher quality wins, a type with quality zero is left out of a wildcard, a version is kept,
-- and a dataset falls back to a format of graphs where nothing else is named.
negotiate_runs :
    (answer (codes "text/turtle;q=0.5, application/ld+json") Shape.graph ≡ some (json_ld, rdf11))
    × (answer (codes "*/*, text/turtle;q=0") Shape.graph ≡ some (json_ld, rdf11))
    × (answer (codes "text/turtle;version=1.2") Shape.graph ≡ some (turtle, rdf12))
    × (answer (codes "text/*") Shape.dataset ≡ some (turtle, rdf11))
    × (answer (codes "image/png") Shape.graph ≡ none)
unfolding negotiate passes usable candidate fallback find_type or_else keep pass not_rejected
    rejected ranked_accept sort_ranked insert_ranked comes_first entries entry_of quality_of label
    version_of_label from_parameters from_media_type media_type format_media_type from_content_type
    to_ascii_lowercase eq_ignore_ascii_case list_beq strip_prefix strip_suffix ends_with split
    split_once trim contains
negotiate_runs = (refl, refl, refl, refl, refl)

-- A range of a type with quality zero rejects nothing, and every `application` type stands for
-- Turtle too.
range_runs :
    (answer (codes "*/*, text/*;q=0") Shape.graph ≡ some (turtle, rdf11))
    × (answer (codes "application/*") Shape.graph ≡ some (turtle, rdf11))
unfolding negotiate passes usable candidate fallback find_type or_else keep pass not_rejected
    rejected ranked_accept sort_ranked insert_ranked comes_first entries entry_of quality_of label
    version_of_label from_parameters from_media_type media_type format_media_type from_content_type
    to_ascii_lowercase eq_ignore_ascii_case list_beq strip_prefix strip_suffix ends_with split
    split_once trim contains
range_runs = (refl, refl)

abbrev header_text : Text
header_text = codes "text/turtle;q=0.5, application/ld+json"

abbrev turtle_entry : Ranked ℕ
turtle_entry = record {
  q = 500;
  position = 0;
  range = codes "text/turtle";
  whole = codes "text/turtle;q=0.5";
}

thousandths_numbers : Numbers thousandths
thousandths_numbers = record {
  is_number = λ q. true;
  rank = λ q. q;
  greater_rank = λ a b h k. ground arith;
}

header_text_named : is_empty (trim header_text) ≡ false
unfolding trim
header_text_named = refl

abbrev json_ld_entry : Ranked ℕ
json_ld_entry = record {
  q = 1000;
  position = 1;
  range = codes "application/ld+json";
  whole = codes "application/ld+json";
}

header_entries :
    entries thousandths 0 (split b',' (trim header_text)) ≡ turtle_entry ∷ json_ld_entry ∷ []
unfolding trim split entries entry_of quality_of media_type strip_prefix list_beq
header_entries = refl

header_numbers :
    All
      (IsNumber thousandths thousandths_numbers)
      (entries thousandths 0 (split b',' (trim header_text)))
unfolding thousandths_numbers
header_numbers =
    subst (All (IsNumber thousandths thousandths_numbers)) (sym header_entries) (refl, (refl, tt))

turtle_listed : Memᴰ turtle_entry (entries thousandths 0 (split b',' (trim header_text)))
turtle_listed = subst (Memᴰ turtle_entry) (sym header_entries) (Memᴰ.head refl)

turtle_in_version : from_media_type (codes "text/turtle;q=0.5") ≡ some rdf11
unfolding label version_of_label from_parameters from_media_type media_type to_ascii_lowercase
    eq_ignore_ascii_case list_beq strip_prefix strip_suffix split split_once trim contains
turtle_in_version = refl

turtle_named : Names (codes "text/turtle") turtle
unfolding from_content_type media_type format_media_type to_ascii_lowercase split trim list_beq
turtle_named = refl

negotiate-IsPreferred_example :
    IsPreferred thousandths thousandths_numbers named_graphs header_text Shape.graph none
      turtle_entry
negotiate-IsPreferred_example =
    negotiate-IsPreferred thousandths thousandths_numbers named_graphs header_text Shape.graph none
      turtle_entry header_text_named header_numbers turtle_listed refl turtle_in_version
      turtle_named refl
