-- ===== src/Http/Validated.antt =====
-- `check_conditionals` of src/http.rs for a tag that a read once answered with.
use mathlib.Core.List.{Memᴰ}
use mathlib.Core.List.Memᴰ
use mathlib.Core.List.{Permᴰ}
use quadpod.Prelude.{Bool, Option, none, some, List, map, nat_eq, list_eq, Text, Result}
use quadpod.Dataset.Versions.{rdf_version}
use quadpod.Dataset.Ground.{GroundQuad, Skolemized, deskolemize}
use quadpod.Dataset.Etag.{etag}
use quadpod.Rdf.{RdfVersion, Format}
use quadpod.Space.{ResourceUrl, resource}
use quadpod.Store.{Backend}
use quadpod.Resource.Datasets.{Crates}
use quadpod.Http.{Response}
use quadpod.Http.Conditions.{Conditions, versions_of, check_conditionals}

module _ (digest : Text → Text) (text_of : GroundQuad → Text) (valid_label : Text → Bool)
    (stored : Skolemized) where
  abbrev pub held : RdfVersion
  held = rdf_version (deskolemize valid_label stored)

  -- The tags that match are those of the state that is stored, at a version that it is served in.
  abbrev pub StillStored : Skolemized → RdfVersion → Type 0
  StillStored s v = Memᴰ v (versions_of held) × Permᴰ (map text_of s) (map text_of stored)

-- A request with an `If-Match` that is one tag, and no other precondition.
abbrev pub if_matches : Text → Conditions
if_matches tag = record { if_match = some (some tag); if_none_match = none }

-- The test of a request whose `If-Match` is the tag of such a state.
module _ {HeaderValue W : Type 0} (crates : Crates HeaderValue) (b : Backend W)
    (text_of : GroundQuad → Text) (valid_label : Text → Bool) (r : ResourceUrl) (w : W)
    (s : Skolemized) (f : Format) (v : RdfVersion) where
  abbrev pub checked : Option (Result Response (Unit {0})) × W
  checked =
      check_conditionals crates b text_of valid_label
        (if_matches (etag crates.digest text_of s f v)) (resource r) w
