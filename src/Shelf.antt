-- ===== src/Shelf.antt =====
-- src/shelf.rs: where one named graph of one resource is stored. `digest` is the SHA-256 of its
-- argument in lowercase hex.
use quadpod.Prelude.{◌∷◌, ◌++◌, Text, codes}
use quadpod.Space.{ResourceUrl}

abbrev pub sys_has_subgraph : Text
sys_has_subgraph = codes "urn:quadpod:sys#hasSubgraph"

abbrev pub sys_graph_name : Text
sys_graph_name = codes "urn:quadpod:sys#graphName"

abbrev pub sys_media_type : Text
sys_media_type = codes "urn:quadpod:sys#mediaType"

-- The IRI of the store's graph.
abbrev pub ShelfKey : Type 0
ShelfKey = Text

abbrev pub shelf_prefix : Text
shelf_prefix = codes "urn:quadpod:subgraph:"

-- `ShelfKey::of`
unfoldable pub shelf_key : (Text → Text) → ResourceUrl → Text → ShelfKey
shelf_key digest resource graph_name = shelf_prefix ++ digest (resource.iri ++ 0 ∷ graph_name)
