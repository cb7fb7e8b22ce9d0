-- ===== src/Resource/Tests.antt =====
-- Runs of src/resource.rs over a store in memory, and its theorems at concrete inputs.
use quadpod.Prelude.{
  refl, true, some, [], ◌∷◌, Text, codes, strip_prefix, strip_suffix, drop_white, trim, contains,
  split_once, ends_with, split, list_beq,
}
use quadpod.Dataset.Ground.{GroundTerm, GroundQuad, GroundGraphName, Skolemized}
use quadpod.Space.{ResourceUrl, segment_remainder}
use native.Mathlib.Decide.{ℕ_discrete}
use quadpod.Blob.{blob_key, trim_start_slashes}
use quadpod.Rdf.{
  tri_g, MediaType, parse, is_media_type_byte, is_tchar, is_media_range, is_type, is_token,
  are_parameters, is_ascii_alphanumeric,
}
use quadpod.Resource.Kinds.{IsStored, put_blob-kind_of}
use quadpod.Patch.{Patch, Pattern, named}
use quadpod.Store.{◌>>=◌, lift, wrap_read, wrap_write, Fact-discrete}
use quadpod.Store.Memory.{Memory, memory, memory_has, memory_object, memory_laws}
use quadpod.Resource.Names.{IsData}
use quadpod.Resource.Datasets.{
  Crates, put_dataset, put_blob, get_dataset, registered_shelves, split_graphs, place, discard_blob,
}
use quadpod.Resource.Patches.{
  applied, patch_dataset, patch_guarded, apply_mapping, substitute, ground_term, write_patch,
  read_facts,
}
use quadpod.Resource.Reads.{Reads}
use quadpod.Resource.RoundTrip.{IsSameDataset, put_dataset-get_dataset}
use quadpod.Resource.Applied.{Did, patch_dataset-Did}

abbrev crates : Crates Text
crates = record {
  digest = λ t. t;
  fresh = λ n. n ∷ [];
  valid_iri = λ t. true;
  encode = λ t. t;
  from_str = λ t. some t;
}

abbrev stem : Text
stem = codes "https://p"

abbrev page : ResourceUrl
page = record { path = codes "/a"; iri = codes "https://p/a" }

page-IsData : IsData stem page
unfolding segment_remainder strip_prefix
page-IsData = record {
  in_space = refl;
  is_http = (codes "ttps://p", refl);
  rooted = (codes "a", refl);
  not_aux = refl;
}

abbrev quad : GroundGraphName → Text → GroundQuad
quad g o = record {
  subject = codes "s";
  predicate = codes "p";
  object = GroundTerm.named_node o;
  graph_name = g;
}

-- A triple, and one in a named graph.
abbrev dataset : Skolemized
dataset =
    quad GroundGraphName.default_graph (codes "o")
    ∷ quad (GroundGraphName.named_node (codes "urn:g")) (codes "n")
    ∷ []

abbrev blank : Memory
blank = record { facts = []; objects = [] }

abbrev written : Memory
written = (put_dataset crates memory page dataset tri_g blank).1

put_dataset-get_dataset_example :
    Reads written (get_dataset crates memory page) (IsSameDataset dataset)
unfolding put_dataset ◌>>=◌ registered_shelves wrap_read lift split_graphs place wrap_write
    discard_blob blob_key ends_with trim_start_slashes split
put_dataset-get_dataset_example =
    put_dataset-get_dataset crates memory memory_has memory_object memory_laws page stem page-IsData
      dataset tri_g blank written (λ m n p q e. e) refl

abbrev pattern : Text → Pattern
pattern o = record { subject = named (codes "s"); predicate = named (codes "p"); object = named o }

-- Deletes the triple of the page and inserts another.
abbrev change : Patch
change = record {
  conditions = [];
  deletions = pattern (codes "o") ∷ [];
  insertions = pattern (codes "q") ∷ [];
  variables = 0;
}

abbrev stocked : Memory
stocked = record {
  facts =
      (
        page.iri,
        record {
          subject = codes "s";
          predicate = codes "p";
          object = GroundTerm.named_node (codes "o");
        },
      )
      ∷ [];
  objects = [];
}

abbrev patched : Memory
patched = (patch_dataset (codes "syntax") memory page.iri change stocked).1

patch_dataset-Did_example :
    Did
      (codes "syntax")
      memory
      memory_has
      memory_object
      memory_laws
      page.iri
      change
      stocked
      patched
      applied
unfolding patch_dataset patch_guarded apply_mapping ◌>>=◌ lift substitute ground_term write_patch
    read_facts wrap_read wrap_write list_beq Fact-discrete ℕ_discrete
patch_dataset-Did_example =
    patch_dataset-Did (codes "syntax") memory memory_has memory_object memory_laws page.iri change
      stocked patched refl

abbrev png : MediaType Text
png = record { raw = codes "image/png"; header = codes "image/png" }

abbrev pictured : Memory
pictured = (put_blob crates memory page (codes "bytes") png written).1

put_blob-kind_of_example :
    IsStored crates memory memory_has memory_object memory_laws page
      (codes "bytes")
      png
      written
      pictured
unfolding parse trim is_media_type_byte is_tchar contains is_media_range split is_type split_once
    is_token are_parameters put_blob blob_key ends_with trim_start_slashes ◌>>=◌ registered_shelves
    strip_prefix strip_suffix drop_white is_ascii_alphanumeric lift wrap_read wrap_write
put_blob-kind_of_example =
    put_blob-kind_of crates memory memory_has memory_object memory_laws page (codes "bytes") png
      written pictured refl refl
