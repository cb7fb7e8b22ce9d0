-- ===== src/Rdf/Media.antt =====
-- What a media type that is kept consists of, and which texts are kept.
use quadpod.Prelude.{
  ℕ, ◌≡◌, ◌≢◌, ◌↔◌, ◌≤◌, refl, true, Option, some, [], ◌∷◌, all, All, nat_eq, list_eq, text_eq,
  Text, codes, split, trim, contains, arith,
}
use quadpod.Rdf.{
  RdfVersion, rdf11, rdf12_basic, rdf12, label, version_of_label, MediaType, parse,
  is_media_type_byte, is_media_range, is_tchar, is_ascii_alphanumeric,
}

-- A byte that can neither end nor escape a quoted literal, nor break a header line.
pub record IsInert (b : ℕ) : Type 0 where
  pub printable : (32 ≤ b) × (b ≤ 126)
  pub no_quote : b ≢ b'"'
  pub no_backslash : b ≢ b'\\'

media_byte-IsInert : (b : ℕ) → is_media_type_byte b ≡ true → IsInert b
unfolding is_media_type_byte is_tchar is_ascii_alphanumeric contains
media_byte-IsInert b h = record {
  printable = ground arith;
  no_quote = λ e. ground arith;
  no_backslash = λ e. ground arith;
}

all-IsInert : (s : Text) → all is_media_type_byte s ≡ true → All IsInert s
all-IsInert [] h = tt
all-IsInert (b ∷ s) h = (media_byte-IsInert b (ground arith), all-IsInert s (ground arith))

module _ {HeaderValue : Type 0} (from_str : Text → Option HeaderValue) where
  -- Every byte of a media type that is kept is printable ASCII other than the quotation mark and
  -- the backslash.
  parse-IsInert :
      (s : Text) {m : MediaType HeaderValue} → parse from_str s ≡ some m → All IsInert m.raw
  unfolding parse
  parse-IsInert s {m} h =
      let kept : m.raw ≡ trim s = ground arith in
      let valid : all is_media_type_byte (trim s) ≡ true = ground arith in
      rw kept (all-IsInert (trim s) valid)

  -- Where the header type takes every printable ASCII text, a text is kept exactly when what is
  -- left after trimming consists of the alphabet's bytes and has the grammar's parts; it is then
  -- kept as trimmed.
  parse_iff :
      ((t : Text) → All IsInert t → (v : HeaderValue) × (from_str t ≡ some v))
      → (s : Text)
      → ((m : MediaType HeaderValue) × (parse from_str s ≡ some m) × (m.raw ≡ trim s))
        ↔ ((all is_media_type_byte (trim s) ≡ true) × (is_media_range (split b';' (trim s)) ≡ true))
  unfolding parse
  parse_iff accepts s = (
    λ p. (ground (arith, p.1), ground (arith, p.1)),
    λ p.
        let (v, e) = accepts (trim s) (all-IsInert (trim s) (p.0)) in
        (record { raw = trim s; header = v }, ground (arith, e, p.0, p.1), refl),
  )

-- The labels are read back, and no other text is a label.
pub version_of_label_iff :
    (value : Text) (v : RdfVersion) → (version_of_label value ≡ some v) ↔ (value ≡ label v)
unfolding version_of_label label
version_of_label_iff value rdf11 = ground (
  arith,
  text_eq value (codes "1.1"),
  text_eq value (codes "1.2-basic"),
  text_eq value (codes "1.2"),
)
version_of_label_iff value rdf12_basic = ground (
  arith,
  text_eq value (codes "1.1"),
  text_eq value (codes "1.2-basic"),
  text_eq value (codes "1.2"),
)
version_of_label_iff value rdf12 = ground (
  arith,
  text_eq value (codes "1.1"),
  text_eq value (codes "1.2-basic"),
  text_eq value (codes "1.2"),
)
