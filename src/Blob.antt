-- ===== src/Blob.antt =====
-- src/blob.rs: the key of a resource's bytes. `Path::from` of the object_store crate is the
-- parameter `encode`, the text of the path that it gives.
use quadpod.Prelude.{
  ℕ, Option, none, some, [], ◌∷◌, any, length, if◌then◌else◌, ltb, ◌==◌, nat_eq, Text, codes, split,
  ends_with,
}
use quadpod.Space.{ResourceUrl}

abbrev pub max_segment_bytes : ℕ
max_segment_bytes = 255

abbrev pub max_path_bytes : ℕ
max_path_bytes = 1024

-- `trim_start_matches('/')`
unfoldable pub trim_start_slashes : Text → Text
trim_start_slashes [] = []
trim_start_slashes (c ∷ s) = let rest = trim_start_slashes s in if c == b'/' then rest else c ∷ s

-- `BlobKey::of`
unfoldable pub blob_key : (Text → Text) → ResourceUrl → Option Text
blob_key encode r =
    let rel = trim_start_slashes r.path in
    let path = encode rel in
    if ends_with (codes "/") rel
    then none
    else if ltb max_path_bytes (length path)
    then none
    else if any (λ part. ltb max_segment_bytes (length part)) (split b'/' path)
    then none
    else some path
