-- ===== src/Resource.antt =====
-- src/resource.rs: its errors. Those that it passes on carry their text.
pub mod Graphs
pub mod Names
pub mod Datasets
pub mod Patches
pub mod Split
pub mod Shelved
pub mod Written
pub mod Reads
pub mod Registry
pub mod Fetched
pub mod RoundTrip
pub mod Applied
pub mod Kinds
mod Tests
use quadpod.Prelude.{Text}

pub data ResourceError : Type 0 where
  invalid_iri key_too_long binary_without_media_type : ResourceError
  rdf store blob : Text → ResourceError
