-- ===== src/Dataset/Versions/Projection.antt =====
-- What `project_to` of src/dataset.rs promises.
use quadpod.Prelude.{
  ◌≡◌, ◌↔◌, inl, inr, ◌≤◌, refl, Bool, true, false, not, ◌&&◌, Option, none, some, [], ◌∷◌, all,
  if◌then◌else◌, is_some, leb, ltb, Text, codes, arith, Bool-cases, Option-cases,
}
use quadpod.Terms.{NamedOrBlankNode, Literal, Term}
use quadpod.Rdf.{RdfVersion, rdf11, rdf12_basic, rdf12, rank}
use quadpod.Dataset.Versions.{
  Quad, Dataset, needed, max, is_rdf12, scan_version, rdf_version, undirected, project_object,
  is_triple_term, project_quads, project_to,
}

rank_le : (v : RdfVersion) → rank v ≤ 2
rank_le rdf11 = omega arith
rank_le rdf12_basic = omega arith
rank_le rdf12 = omega arith

top_of_is_rdf12 : (v : RdfVersion) → is_rdf12 v ≡ true → rank v ≡ 2
top_of_is_rdf12 rdf12 h = refl
top_of_is_rdf12 rdf11 h = cc
top_of_is_rdf12 rdf12_basic h = cc

rank-max :
    (a b t : RdfVersion)
    → leb (rank (max a b)) (rank t) ≡ (leb (rank a) (rank t) && leb (rank b) (rank t))
rank-max a b t = ground arith

-- What a version of RDF has: 1.1 neither triple terms nor directional literals, 1.2 basic no triple
-- terms, and 1.2 everything.
abbrev pub expressible : RdfVersion → Term → Bool
expressible rdf12 o = true
expressible rdf12_basic (Term.triple s p o) = false
expressible rdf12_basic _ = true
expressible rdf11 (Term.triple s p o) = false
expressible rdf11 (Term.literal l) = not (is_some l.direction)
expressible rdf11 _ = true

expressible-needed :
    (t : RdfVersion) (o : Term)
    → expressible t o ≡ (elim (needed o) [ none ↦ true | some v ↦ leb (rank v) (rank t) ])
expressible-needed rdf11 (Term.named_node n) = refl
expressible-needed rdf11 (Term.blank_node n) = refl
expressible-needed rdf11 (Term.triple s p o) = refl
expressible-needed rdf11 (Term.literal l) = ground arith
expressible-needed rdf12_basic (Term.named_node n) = refl
expressible-needed rdf12_basic (Term.blank_node n) = refl
expressible-needed rdf12_basic (Term.triple s p o) = refl
expressible-needed rdf12_basic (Term.literal l) = ground arith
expressible-needed rdf12 (Term.named_node n) = refl
expressible-needed rdf12 (Term.blank_node n) = refl
expressible-needed rdf12 (Term.triple s p o) = refl
expressible-needed rdf12 (Term.literal l) = ground arith

expressible_top : (t : RdfVersion) (o : Term) → rank t ≡ 2 → expressible t o ≡ true
expressible_top rdf12 o h = refl
expressible_top rdf11 o h = absurd (ground (arith, h))
expressible_top rdf12_basic o h = absurd (ground (arith, h))

all_fit_top :
    (t : RdfVersion) (d : Dataset) → rank t ≡ 2 → all (λ q. expressible t q.object) d ≡ true
all_fit_top t [] h = refl
all_fit_top t (q ∷ d) h = ground (arith, expressible_top t q.object h, all_fit_top t d h)

leb-scan_version :
    (t found : RdfVersion) (d : Dataset)
    → leb (rank (scan_version found d)) (rank t)
      ≡ (leb (rank found) (rank t) && all (λ q. expressible t q.object) d)
unfolding scan_version
leb-scan_version t found [] = ground arith
leb-scan_version t found (q ∷ qs) = elim (Option-cases (needed q.object)) [
  | inl e ↦ ground (arith, expressible-needed t q.object, leb-scan_version t found qs)
  | inr (here, e) ↦ elim (Bool-cases (is_rdf12 (max found here))) [
    | inr more ↦ ground (
      arith,
      expressible-needed t q.object,
      leb-scan_version t (max found here) qs,
      rank-max found here t,
    )
    | inl top ↦
        let at : rank (max found here) ≡ 2 = top_of_is_rdf12 (max found here) top in
        elim (Bool-cases (leb (rank (max found here)) (rank t))) [
          | inr above ↦ ground (arith, expressible-needed t q.object, rank-max found here t)
          | inl below ↦
              let is_top : rank t ≡ 2 = ground (arith, rank_le t) in
              let all_fit : all (λ q. expressible t q.object) qs ≡ true = all_fit_top t qs is_top in
              ground (arith, expressible-needed t q.object, rank-max found here t, all_fit)
        ]
  ]
]

-- The version of a dataset is the least one that has each of its objects: a triple term needs 1.2,
-- and a directional literal 1.2 basic.
pub rdf_version_iff :
    (d : Dataset) (t : RdfVersion)
    → (leb (rank (rdf_version d)) (rank t) ≡ true) ↔ (all (λ q. expressible t q.object) d ≡ true)
unfolding rdf_version
rdf_version_iff d t = ground (arith, leb-scan_version t rdf11 d)

abbrev pub lang_string : Text
lang_string = codes "http://www.w3.org/1999/02/22-rdf-syntax-ns#langString"

-- What an object becomes: itself if the version has it, and a directional literal that it has not is
-- the plain one of the same value and language.
pub data Becomes (t : RdfVersion) : Term → Term → Type 0 where
  as_is : (o : Term) → expressible t o ≡ true → Becomes t o o
  plain :
      (l l' : Literal)
      → is_some l.direction ≡ true
      → expressible t (Term.literal l) ≡ false
      → l'.value ≡ l.value
      → l'.language ≡ l.language
      → l'.datatype ≡ lang_string
      → l'.direction ≡ none
      → Becomes t (Term.literal l) (Term.literal l')

-- What a quad becomes: all but its object stays.
pub record IsProjected (t : RdfVersion) (q q' : Quad) : Type 0 where
  pub subject : q'.subject ≡ q.subject
  pub predicate : q'.predicate ≡ q.predicate
  pub graph_name : q'.graph_name ≡ q.graph_name
  pub object : Becomes t q.object q'.object

-- A triple term as object, in a version that has none.
pub record IsInexpressible (t : RdfVersion) (o : Term) : Type 0 where
  pub subject : NamedOrBlankNode
  pub predicate : Text
  pub object : Term
  pub is_triple : o ≡ Term.triple subject predicate object
  pub beyond : expressible t o ≡ false

-- The quads of the second dataset are what those of the first become, in their order and without
-- those whose object is a triple term that the version has not.
pub data IsProjection (t : RdfVersion) : Dataset → Dataset → Type 0 where
  end : IsProjection t [] []
  leave :
      {d d' : Dataset} (q : Quad)
      → IsInexpressible t q.object
      → IsProjection t d d'
      → IsProjection t (q ∷ d) d'
  keep :
      {d d' : Dataset} (q q' : Quad)
      → IsProjected t q q'
      → IsProjection t d d'
      → IsProjection t (q ∷ d) (q' ∷ d')

-- A directional literal has a language tag, as RDF requires.
abbrev pub is_tagged : (Text → Bool) → Term → Bool
is_tagged valid_tag (Term.literal l) =
    if is_some l.direction
    then elim l.language [ none ↦ false | some tag ↦ valid_tag tag ]
    else true
is_tagged valid_tag _ = true

-- The constructor of a tagged literal, for a tag that it takes as it is: one of a literal that the
-- library made has been put in lower case.
pub record TaggedLiterals (new_language_tagged_literal : Text → Text → Option Literal)
    (valid_tag : Text → Bool) : Type 0 where
  pub total :
      (value language : Text)
      → valid_tag language ≡ true
      → (l : Literal) × (new_language_tagged_literal value language ≡ some l)
  pub made :
      (value language : Text) {l : Literal}
      → valid_tag language ≡ true
      → new_language_tagged_literal value language ≡ some l
      → (l.value ≡ value)
        × (l.language ≡ some language)
        × (l.datatype ≡ lang_string)
        × (l.direction ≡ none)

module _ (new_tagged : Text → Text → Option Literal) (valid_tag : Text → Bool)
    (tagged : TaggedLiterals new_tagged valid_tag) (t : RdfVersion) where
  -- What becomes of an object that stays.
  record Kept (o : Term) : Type 0 where
    projected : Term
    made : project_object new_tagged t o ≡ some projected
    has : expressible t projected ≡ true
    same : Becomes t o projected

  object-Kept :
      (o : Term)
      → is_tagged valid_tag o ≡ true
      → (ltb (rank t) (rank rdf12) && is_triple_term o) ≡ false
      → Kept o
  unfolding project_object undirected
  object-Kept (Term.named_node n) h stays =
      let has : expressible t (Term.named_node n) ≡ true =
        rw (expressible-needed t (Term.named_node n)) refl in
      record { projected = _; made = refl; has = has; same = as_is _ has }
  object-Kept (Term.blank_node n) h stays =
      let has : expressible t (Term.blank_node n) ≡ true =
        rw (expressible-needed t (Term.blank_node n)) refl in
      record { projected = _; made = refl; has = has; same = as_is _ has }
  object-Kept (Term.triple s p o) h stays =
      let has : expressible t (Term.triple s p o) ≡ true =
        rw (expressible-needed t (Term.triple s p o)) (ground (arith, rank_le t)) in
      record { projected = _; made = refl; has = has; same = as_is _ has }
  object-Kept (Term.literal l) h stays =
      elim (Bool-cases (ltb (rank t) (rank rdf12_basic) && is_some l.direction)) [
        | inr unchanged ↦
            let has : expressible t (Term.literal l) ≡ true =
              rw (expressible-needed t (Term.literal l)) (ground arith) in
            record {
              projected = Term.literal l;
              made = ground arith;
              has = has;
              same = as_is (Term.literal l) has;
            }
        | inl stripped ↦ elim (Option-cases l.language) [
          | inl e ↦ absurd (ground arith)
          | inr (tag, e) ↦
              let (made, f) = tagged.total l.value tag (ground arith) in
              let (value, language, datatype, direction) =
                tagged.made l.value tag (ground arith) f in
              record {
                projected = Term.literal made;
                made = ground arith;
                has = rw (expressible-needed t (Term.literal made)) (ground arith);
                same =
                    plain l made (ground arith)
                      (rw (expressible-needed t (Term.literal l)) (ground arith)) value
                      (ground arith) datatype direction;
              }
        ]
      ]

  triple_gone :
      (o : Term) → is_triple_term o ≡ true → ltb (rank t) (rank rdf12) ≡ true → IsInexpressible t o
  triple_gone (Term.triple s p o) h low = record {
    subject = s;
    predicate = p;
    object = o;
    is_triple = refl;
    beyond = rw (expressible-needed t (Term.triple s p o)) (ground arith);
  }
  triple_gone (Term.named_node n) h low = cc
  triple_gone (Term.blank_node n) h low = cc
  triple_gone (Term.literal l) h low = cc

  record Projected (d d' : Dataset) : Type 0 where
    has : all (λ q. expressible t q.object) d' ≡ true
    is : IsProjection t d d'

  quads-Projected :
      (d : Dataset)
      → all (λ q. is_tagged valid_tag q.object) d ≡ true
      → (d' : Dataset) × (project_quads new_tagged t d ≡ some d') × Projected d d'
  unfolding project_quads
  quads-Projected [] h = ([], refl, record { has = refl; is = end })
  quads-Projected (q ∷ qs) h =
      let (rest, made, projected) = quads-Projected qs (ground arith) in
      elim (Bool-cases (ltb (rank t) (rank rdf12) && is_triple_term q.object)) [
        | inl gone ↦ (
          rest,
          ground arith,
          record {
            has = projected.has;
            is = leave q (triple_gone q.object (ground arith) (ground arith)) projected.is;
          },
        )
        | inr stays ↦
            let kept = object-Kept q.object (ground arith) stays in
            let q' : Quad = record q { object = kept.projected } in
            (
              q' ∷ rest,
              ground (arith, kept.made),
              record {
                has = ground (arith, kept.has, projected.has);
                is =
                    keep q q'
                      (record {
                        subject = refl;
                        predicate = refl;
                        graph_name = refl;
                        object = kept.same;
                      })
                      projected.is;
              },
            )
      ]

  all_as_is : (d : Dataset) → all (λ q. expressible t q.object) d ≡ true → IsProjection t d d
  all_as_is [] h = end
  all_as_is (q ∷ d) h =
      keep q q
        (record {
          subject = refl;
          predicate = refl;
          graph_name = refl;
          object = as_is q.object (ground arith);
        })
        (all_as_is d (ground arith))

  -- A dataset whose directional literals are tagged, in the form that the library keeps, has a
  -- projection to each version, which has the quads of the dataset in their order: without those
  -- whose object is a triple term, if the version has none; a directional literal as the plain one
  -- of its value and language, if the version has none; and all else as it is. The version has each
  -- object of the projection, and that projects to itself.
  pub project_to_lem :
      (d : Dataset)
      → all (λ q. is_tagged valid_tag q.object) d ≡ true
      → (d' : Dataset) × (project_to new_tagged d t ≡ some d')
        × (leb (rank (rdf_version d')) (rank t) ≡ true)
        × IsProjection t d d'
        × (project_to new_tagged d' t ≡ some d')
  unfolding project_to
  project_to_lem d h = elim (Bool-cases (leb (rank (rdf_version d)) (rank t))) [
    | inl below ↦
        let has = (rdf_version_iff d t).0 below in
        (d, ground arith, below, all_as_is d has, ground arith)
    | inr above ↦
        let (d', made, projected) = quads-Projected d h in
        let low = (rdf_version_iff d' t).1 projected.has in
        (d', ground arith, low, projected.is, ground arith)
  ]
