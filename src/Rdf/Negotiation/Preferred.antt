-- ===== src/Rdf/Negotiation/Preferred.antt =====
-- Which entry of an Accept header `negotiate` in src/rdf.rs answers.
use mathlib.Core.List.{Memᴰ}
use mathlib.Core.List.Memᴰ
use quadpod.Prelude.{
  ◌≡◌, ◌⊎◌, refl, sym, ◌∙◌, ap, inl, inr, Bool, true, false, ◌&&◌, Option, some, List, [], ◌∷◌,
  is_empty, All, nat_eq, Text, split, trim, arith, Bool-cases, Option-cases,
}
use quadpod.Rdf.{RdfVersion, Format, from_media_type}
use quadpod.Resource.Fetched.{All-Mem}
use quadpod.Rdf.Negotiation.{
  Shape, Quality, Ranked, entries, sort_ranked, ranked_accept, not_rejected, pass, candidate,
  usable, passes, negotiate,
}
use quadpod.Rdf.Negotiation.Ranges.{is_wildcard, Names, candidate-some, candidate-named}
use quadpod.Rdf.Negotiation.Ranking.{
  Numbers, preferred, IsNumber, Sorted, sort_ranked-All, Mem-sort_ranked, sort_ranked-Sorted,
}

-- Whether a format has room for all of a representation.
abbrev pub carries : (Format → Bool) → Shape → Format → Bool
carries carries_dataset Shape.graph f = true
carries carries_dataset Shape.dataset f = carries_dataset f

All-at :
    {A : Type 0} (l part : List A) → ((x : A) → Memᴰ x part → Memᴰ x l) → All (λ x. Memᴰ x l) part
All-at l [] h = tt
All-at l (x ∷ part) h = (h x (Memᴰ.head refl), All-at l part (λ y m. h y (Memᴰ.tail m)))

All-of_own : {A : Type 0} (l : List A) → All (λ x. Memᴰ x l) l
All-of_own l = All-at l l (λ x m. m)

module _ {Q : Type 0} (quality : Quality Q) (numbers : Numbers quality) where
  -- The entry that a pass answers, where the entry `e` could be answered.
  record IsFirst (cand : Text → Option Format) (l : List (Ranked Q)) (e : Ranked Q) : Type 0 where
    format : Format
    version : RdfVersion
    entry : Ranked Q
    answered : pass quality cand l ≡ some (format, version)
    listed : Memᴰ entry l
    wanted : quality.is_zero entry.q ≡ false
    in_version : from_media_type entry.whole ≡ some version
    offered : cand entry.range ≡ some format
    first : preferred quality numbers entry e ≡ true

  later-IsFirst :
      (cand : Text → Option Format) (a : Ranked Q) (l : List (Ranked Q)) (e : Ranked Q)
      → pass quality cand (a ∷ l) ≡ pass quality cand l
      → IsFirst cand l e
      → IsFirst cand (a ∷ l) e
  later-IsFirst cand a l e same r = record {
    format = r.format;
    version = r.version;
    entry = r.entry;
    answered = same ∙ r.answered;
    listed = Memᴰ.tail r.listed;
    wanted = r.wanted;
    in_version = r.in_version;
    offered = r.offered;
    first = r.first;
  }

  pass-IsFirst :
      (cand : Text → Option Format) (l : List (Ranked Q)) (e : Ranked Q) {v : RdfVersion}
      {g : Format}
      → Sorted quality numbers l
      → Memᴰ e l
      → quality.is_zero e.q ≡ false
      → from_media_type e.whole ≡ some v
      → cand e.range ≡ some g
      → IsFirst cand l e
  unfolding pass
  pass-IsFirst cand [] e s m z hv hg = elim m [ ]
  pass-IsFirst cand (a ∷ l) e {v} {g} (s, ss) m z hv hg =
      let skipped : (e ≡ a → ⊥)
          → pass quality cand (a ∷ l) ≡ pass quality cand l
          → IsFirst cand (a ∷ l) e =
        λ other same. later-IsFirst cand a l e same (elim (Memᴰ.cases_cons m) [
          | inl one ↦ absurd (other one)
          | inr later ↦ pass-IsFirst cand l e ss later z hv hg
        ]) in
      elim (Bool-cases (quality.is_zero a.q)) [
        | inl zero ↦
            skipped
              (λ same. ground (arith, z, zero, ap (λ (x : Ranked Q). quality.is_zero x.q) same))
              (ground (arith, zero))
        | inr wanted ↦ elim (Option-cases (from_media_type a.whole)) [
          | inl unknown ↦
              skipped
                (λ same.
                  ground (arith, hv, unknown, ap (λ (x : Ranked Q). from_media_type x.whole) same))
                (ground (arith, wanted, unknown))
          | inr (u, known) ↦ elim (Option-cases (cand a.range)) [
            | inl nothing ↦
                skipped
                  (λ same. ground (arith, hg, nothing, ap (λ (x : Ranked Q). cand x.range) same))
                  (ground (arith, wanted, known, nothing))
            | inr (f, offered) ↦ record {
              format = f;
              version = u;
              entry = a;
              answered = ground (arith, wanted, known, offered);
              listed = Memᴰ.head refl;
              wanted = wanted;
              in_version = known;
              offered = offered;
              first = elim (Memᴰ.cases_cons m) [
                | inl same ↦ rw same (ground arith)
                | inr later ↦ All-Mem (λ b. preferred quality numbers a b ≡ true) l e s later
              ];
            }
          ]
        ]
      ]

  -- The answer for a header that has the entry `e`.
  pub record IsPreferred (carries_dataset : Format → Bool) (accept : Text) (shape : Shape)
      (stored : Option Format) (e : Ranked Q) : Type 0 where
    pub format : Format
    pub version : RdfVersion
    pub entry : Ranked Q
    pub answered : negotiate quality carries_dataset accept shape stored ≡ some (format, version)
    pub listed : Memᴰ entry (entries quality 0 (split b',' (trim accept)))
    pub first : preferred quality numbers entry e ≡ true
    pub wanted : quality.is_zero entry.q ≡ false
    pub in_version : from_media_type entry.whole ≡ some version
    pub room : carries carries_dataset shape format ≡ true
    pub range : (is_wildcard entry.range ≡ true) ⊎ Names entry.range format

  module _ (carries_dataset : Format → Bool) where
    usable-carries :
        (shape : Shape) (f : Format)
        → usable quality carries_dataset shape f ≡ carries carries_dataset shape f
    unfolding usable
    usable-carries Shape.graph f = refl
    usable-carries Shape.dataset f = refl

    to_answer :
        (accept : Text) (shape : Shape) (stored : Option Format) {x : Format × RdfVersion}
        → is_empty (trim accept) ≡ false
        → pass quality
            (candidate
              (λ f.
                usable quality carries_dataset shape f
                && not_rejected quality (ranked_accept quality (trim accept)) f)
              (usable quality carries_dataset shape)
              stored)
            (ranked_accept quality (trim accept))
          ≡ some x
        → negotiate quality carries_dataset accept shape stored ≡ some x
    unfolding negotiate passes
    to_answer accept shape stored written answer = rw (written, passes, answer) refl

    -- Where the qualities of a header are numbers, and one of its entries has a quality other than
    -- zero and a known version, and is the type of a format with room for the whole representation,
    -- a format with room for the whole is answered. It is for an entry of the header with a quality
    -- other than zero, in that entry's version, whose range is a wildcard or the type of the format,
    -- and that is of a higher quality than the first, or of the same and no later in the header.
    pub negotiate-IsPreferred :
        (accept : Text) (shape : Shape) (stored : Option Format) (e : Ranked Q) {v : RdfVersion}
        {g : Format}
        → is_empty (trim accept) ≡ false
        → All (IsNumber quality numbers) (entries quality 0 (split b',' (trim accept)))
        → Memᴰ e (entries quality 0 (split b',' (trim accept)))
        → quality.is_zero e.q ≡ false
        → from_media_type e.whole ≡ some v
        → Names e.range g
        → carries carries_dataset shape g ≡ true
        → IsPreferred carries_dataset accept shape stored e
    unfolding ranked_accept
    negotiate-IsPreferred accept shape stored e {v} {g} written are_numbers m z hv hg room =
        let l = entries quality 0 (split b',' (trim accept)) in
        let ranked = sort_ranked quality l in
        let may = usable quality carries_dataset shape in
        let allowed = not_rejected quality ranked in
        let offered = λ (f : Format). may f && allowed f in
        let named : may g ≡ true = usable-carries shape g ∙ room in
        let r =
          pass-IsFirst (candidate offered may stored) ranked e
            (sort_ranked-Sorted quality numbers l are_numbers)
            (Mem-sort_ranked quality numbers e l m) z hv
            (candidate-named offered may stored e.range hg named) in
        let c =
          candidate-some offered may may (λ f h. ground (arith, h)) (λ f h. h) stored r.entry.range
            r.offered in
        record {
          format = r.format;
          version = r.version;
          entry = r.entry;
          answered = to_answer accept shape stored written r.answered;
          listed =
              All-Mem (λ x. Memᴰ x l) ranked r.entry
                (sort_ranked-All quality numbers (λ x. Memᴰ x l) l (All-of_own l)) r.listed;
          first = r.first;
          wanted = r.wanted;
          in_version = r.in_version;
          room = sym (usable-carries shape r.format) ∙ c.0;
          range = c.1;
        }
