-- ===== src/Dataset.antt =====
-- src/dataset.rs: the reserved namespace.
pub mod Versions
pub mod Ground
pub mod Etag
use quadpod.Prelude.{
  ℕ, zero, suc, ◌+◌, Bool, false, ◌&&◌, Option, none, some, List, [], ◌∷◌, map, leb, if◌then◌else◌,
  ◌==◌, nat_eq, list_eq, Text, codes, length,
}

-- `u8::to_ascii_lowercase`
unfoldable pub to_ascii_lowercase : ℕ → ℕ
to_ascii_lowercase c = if leb b'A' c && leb c b'Z' then c + 32 else c

-- `a.eq_ignore_ascii_case(b)`
unfoldable pub eq_ignore_ascii_case : Text → Text → Bool
unfolding to_ascii_lowercase
eq_ignore_ascii_case a b = map to_ascii_lowercase a == map to_ascii_lowercase b

-- `s.get(..n)`, which also answers `None` inside a character: such a piece ends with a byte that
-- is not ASCII and differs from every ASCII text of its length.
unfoldable pub get_prefix : ℕ → Text → Option Text
get_prefix zero s = some []
get_prefix (suc n) [] = none
get_prefix (suc n) (c ∷ s) = elim (get_prefix n s) [ none ↦ none | some p ↦ some (c ∷ p) ]

abbrev pub reserved_prefix : Text
reserved_prefix = codes "urn:quadpod:"

unfoldable pub is_reserved_iri : Text → Bool
unfolding get_prefix eq_ignore_ascii_case
is_reserved_iri iri = elim (get_prefix (length reserved_prefix) iri) [
  | none ↦ false
  | some p ↦ eq_ignore_ascii_case p reserved_prefix
]
