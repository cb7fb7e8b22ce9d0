-- ===== src/Http.antt =====
-- src/http.rs: what a response says of a target and of a failure. A response is its status, its
-- headers in the order they were appended, and its body.
pub mod Delete
pub mod Allowed
pub mod Gone
pub mod Deleted
pub mod Conditions
pub mod Validated
mod Tests
use quadpod.Prelude.{
  ℕ, Bool, Option, none, some, List, [], ◌∷◌, ◌++◌, map, Text, codes, Result, ok, err, is_some,
  if◌then◌else◌,
}
use quadpod.Space.{
  AuxKind, acl, ResourceUrl, Target, resource, container, aux, all_kinds, aux_of, parent, graph_iri,
  SpaceError, reserved, StorageSpace, resolve,
}
use quadpod.Resource.{
  ResourceError, invalid_iri, key_too_long, binary_without_media_type, rdf, store, blob,
}
use quadpod.Wac.Guard.{Denial, unauthenticated, forbidden, aux_subject_missing, slash_pair}

pub record Response : Type 0 where
  pub status : ℕ
  pub headers : List (Text × Text)
  pub body : Text

-- `status.into_response()`
abbrev pub of_status : ℕ → Response
of_status status = record { status = status; headers = []; body = [] }

-- `(status, text).into_response()`, with the type that axum gives a text.
abbrev pub with_text : ℕ → Text → Response
with_text status text = record {
  status = status;
  headers = (codes "content-type", codes "text/plain; charset=utf-8") ∷ [];
  body = text;
}

-- `AuxKind::link_rel`
abbrev pub link_rel : AuxKind → Text
link_rel acl = codes "acl"

abbrev pub one_link : ResourceUrl → AuxKind → Text
one_link subject k =
    codes "<" ++ ((aux_of subject k).iri ++ (codes ">; rel=\"" ++ (link_rel k ++ codes "\"")))

-- `parts.join(", ")`
unfoldable pub joined : Text → List Text → Text
joined comma [] = []
joined comma (t ∷ []) = t
joined comma (t ∷ u ∷ ts) = t ++ (comma ++ joined comma (u ∷ ts))

unfoldable pub aux_links : Target → Option Text
aux_links (resource r) = some (joined (codes ", ") (map (one_link r) all_kinds))
aux_links (container c) = some (joined (codes ", ") (map (one_link c.as_resource) all_kinds))
aux_links (aux a) = none

unfoldable pub with_aux_links : Response → Target → Response
with_aux_links res target = elim (aux_links target) [
  | some value ↦ record res { headers = res.headers ++ (codes "link", value) ∷ [] }
  | none ↦ res
]

abbrev pub internal_error : Response
internal_error = with_text 500 (codes "internal server error")

abbrev pub dpop_challenge : Text
dpop_challenge = codes "DPoP algs=\"ES256 RS256\""

abbrev pub aux_subject_missing_message : Text
aux_subject_missing_message =
    codes "an auxiliary resource cannot be created for a resource that does not exist"

abbrev pub slash_pair_message : Text
slash_pair_message =
    codes
      "another resource already exists whose URI differs from this one only in the trailing slash"

-- `Denial::into_response`
unfoldable pub denial_response : Denial → Response
denial_response unauthenticated = record {
  status = 401;
  headers = (codes "www-authenticate", dpop_challenge) ∷ [];
  body = [];
}
denial_response forbidden = of_status 403
denial_response aux_subject_missing = with_text 404 aux_subject_missing_message
denial_response slash_pair = with_text 409 slash_pair_message
denial_response (Denial.store e) = internal_error

unfoldable pub put_status : ResourceError → ℕ
put_status (store t) = 500
put_status (blob t) = 500
put_status _ = 400

-- `ResourceError::to_string`
abbrev pub error_text : ResourceError → Text
error_text invalid_iri = codes "invalid resource IRI"
error_text key_too_long = codes "the storage key for this URL is too long"
error_text binary_without_media_type = codes "a binary resource has no stored media type"
error_text (rdf t) = t
error_text (store t) = t
error_text (blob t) = t

unfoldable pub put_error : ResourceError → Response
unfolding put_status
put_error e = elim e [
  | store t ↦ internal_error
  | blob t ↦ internal_error
  | other ↦ with_text (put_status other) (error_text other)
]

unfoldable pub created : Target → Response
created target =
    with_aux_links
      (record { status = 201; headers = (codes "location", graph_iri target) ∷ []; body = [] })
      target

unfoldable pub classify : (Text → Bool) → StorageSpace → Text → Result ℕ Target
classify valid_iri space request_path = elim (resolve valid_iri space request_path) [
  | ok target ↦ ok target
  | err reserved ↦ err 404
  | err _ ↦ err 400
]
