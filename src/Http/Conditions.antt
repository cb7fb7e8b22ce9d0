-- ===== src/Http/Conditions.antt =====
-- src/http.rs: the preconditions of a request. `text_of` is `Quad::to_string` of the RDF library and
-- `valid_label` its check of a blank node's label.
use quadpod.Prelude.{
  Bool, false, not, ◌&&◌, Option, none, some, List, [], ◌∷◌, ◌++◌, map, is_some, if◌then◌else◌,
  ◌==◌, nat_eq, list_eq, Text, codes, member, Result, ok, err,
}
use quadpod.Terms.{Triple}
use quadpod.Dataset.Versions.{rdf_version}
use quadpod.Dataset.Ground.{GroundQuad, Skolemized, from_store, deskolemize}
use quadpod.Dataset.Etag.{etag}
use quadpod.Rdf.{RdfVersion, rdf11, Format, from_content_type, rank}
use quadpod.Space.{Target, resource, container, aux, graph_iri}
use quadpod.Blob.{blob_key}
use quadpod.Store.{Backend, ◌>>=◌, pure, wrap_read}
use quadpod.Resource.{ResourceError, blob}
use quadpod.Resource.Graphs.{Task, get_rdf, as_quads}
use quadpod.Resource.Datasets.{Crates, binary, kind_of, get_dataset}
use quadpod.Http.{Response, of_status, put_error}

-- The values of `If-Match` and `If-None-Match`; the inner option is that of `to_str`.
pub record Conditions : Type 0 where
  pub if_match : Option (Option Text)
  pub if_none_match : Option (Option Text)

abbrev pub servable : List Text
servable =
    codes "text/turtle"
    ∷ codes "application/n-triples"
    ∷ codes "application/ld+json"
    ∷ codes "application/trig"
    ∷ codes "application/n-quads"
    ∷ []

unfoldable pub formats_of : List Text → List Format
formats_of [] = []
formats_of (ct ∷ cts) = elim (from_content_type ct) [
  | some f ↦ f ∷ formats_of cts
  | none ↦ formats_of cts
]

abbrev pub versions_of : RdfVersion → List RdfVersion
versions_of held = if rank held == rank rdf11 then rdf11 ∷ [] else rdf11 ∷ held ∷ []

-- `to_str().ok()` of a header that may not be there.
abbrev pub readable : Option (Option Text) → Option Text
readable (some (some t)) = some t
readable _ = none

abbrev pub is_star : Option Text → Bool
is_star (some t) = t == codes "*"
is_star none = false

abbrev pub lists_tag : Option (List Text) → Text → Bool
lists_tag (some tags) tag = member tag tags
lists_tag none tag = false

abbrev pub blob_etag : (Text → Text) → Text → Text
blob_etag digest bytes = codes "\"" ++ (digest bytes ++ codes "\"")

module _ (digest : Text → Text) (text_of : GroundQuad → Text) (valid_label : Text → Bool) where
  unfoldable pub tags_of : Skolemized → List RdfVersion → List Format → List Text
  tags_of stored versions [] = []
  tags_of stored versions (f ∷ fs) =
      map (etag digest text_of stored f) versions ++ tags_of stored versions fs

  unfoldable pub etag_candidates : Skolemized → List Text
  etag_candidates stored =
      tags_of stored (versions_of (rdf_version (deskolemize valid_label stored)))
        (formats_of servable)

-- The test of the headers, once the tags are known.
unfoldable pub test_conditions : Conditions → Option (List Text) → Result Response (Unit {0})
test_conditions headers tags =
    let last : Result Response (Unit {0}) =
      if is_star (readable headers.if_none_match) && is_some tags
      then err (of_status 412)
      else ok tt in
    elim (readable headers.if_match) [
      | some im ↦ if lists_tag tags im then last else err (of_status 412)
      | none ↦ last
    ]

module _ {HeaderValue W : Type 0} (crates : Crates HeaderValue) (b : Backend W)
    (text_of : GroundQuad → Text) (valid_label : Text → Bool) where
  abbrev pub candidates : Skolemized → List Text
  candidates stored = etag_candidates crates.digest text_of valid_label stored

  -- The outer option is that of an `expect`, as in `get_dataset`; the inner is of the target.
  abbrev pub Tags : Type 0
  Tags = Option (Option (List Text))

  abbrev pub dataset_tags : Option (Option Skolemized) → Tags
  dataset_tags none = some none
  dataset_tags (some none) = none
  dataset_tags (some (some stored)) = some (some (candidates stored))

  abbrev pub triple_tags : Option (List Triple) → Tags
  triple_tags none = some none
  triple_tags (some ts) = elim (from_store (as_quads ts)) [
    | none ↦ none
    | some ground ↦ some (some (candidates ground))
  ]

  abbrev pub blob_tags : Option Text → Tags
  blob_tags none = some none
  blob_tags (some bytes) = some (some (blob_etag crates.digest bytes ∷ []))

  unfoldable pub current_tags : Target → Task b Tags
  current_tags (resource r) = do
    kind ← kind_of crates b r
    elim kind [
      | some (binary mt) ↦ elim (blob_key crates.encode r) [
        | none ↦ pure (some none)
        | some key ↦ do bytes ← wrap_read blob (b.get_blob key); pure (blob_tags bytes)
      ]
      | _ ↦ do stored ← get_dataset crates b r; pure (dataset_tags stored)
    ]
  current_tags (container c) = do ts ← get_rdf b (graph_iri (container c)); pure (triple_tags ts)
  current_tags (aux a) = do ts ← get_rdf b (graph_iri (aux a)); pure (triple_tags ts)

  -- The match on the tags; `none` where an `expect` panics.
  unfoldable pub tested :
      Conditions → Result ResourceError Tags × W → Option (Result Response (Unit {0})) × W
  tested headers (err e, w) = (some (err (put_error e)), w)
  tested headers (ok none, w) = (none, w)
  tested headers (ok (some tags), w) = (some (test_conditions headers tags), w)

  unfoldable pub check_conditionals :
      Conditions → Target → W → Option (Result Response (Unit {0})) × W
  check_conditionals headers target w =
      if not (is_some headers.if_match) && not (is_some headers.if_none_match)
      then (some (ok tt), w)
      else tested headers (current_tags target w)
