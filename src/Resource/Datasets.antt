-- ===== src/Resource/Datasets.antt =====
-- src/resource.rs: a resource as a dataset or as bytes, with the registry of its shelves.
-- The crates that it calls are the record `Crates`: the SHA-256 digest, fresh uuids, the IRI check,
-- `Path::from` and `HeaderValue::from_str`.
use quadpod.Prelude.{
  ℕ, Bool, Option, none, some, List, [], ◌∷◌, ◌++◌, map, all, if◌then◌else◌, ◌==◌, nat_eq, list_eq,
  Text, codes,
}
use quadpod.Terms.{Triple, Term, GraphName}
use quadpod.Dataset.Versions.{Quad}
use quadpod.Dataset.Ground.{GroundTerm, GroundGraphName, Skolemized, from_store}
use quadpod.Store.{
  Fact, Operation, drop_silent, insert_data, everything, objects, Backend, ◌>>=◌, ◌>>◌, pure, raise,
  wrap_write, wrap_read,
}
use quadpod.Space.{ResourceUrl}
use quadpod.Shelf.{ShelfKey, shelf_key, sys_has_subgraph, sys_graph_name, sys_media_type}
use quadpod.Blob.{blob_key}
use quadpod.Rdf.{MediaType, parse, Format, format_media_type}
use quadpod.Container.{rdf_type}
use quadpod.Resource.{invalid_iri, key_too_long, binary_without_media_type, store, blob}
use quadpod.Resource.Graphs.{
  Task, sys_graph_iri, present_fact, fact_of, exists, sys_binary_resource,
}

pub record Crates (HeaderValue : Type 0) : Type 0 where
  pub digest : Text → Text
  pub fresh : ℕ → Text
  pub valid_iri : Text → Bool
  pub encode : Text → Text
  pub from_str : Text → Option HeaderValue

pub data Kind (HeaderValue : Type 0) : Type 0 where
  rdf : Kind HeaderValue
  binary : MediaType HeaderValue → Kind HeaderValue

pub record Shelf : Type 0 where
  pub key : ShelfKey
  pub name : Text
  pub facts : List Fact

-- `shelves.iter_mut().find(..)`, and the push of a shelf where there is none.
unfoldable pub place : ShelfKey → Text → Fact → List Shelf → List Shelf
place key name t [] = record { key = key; name = name; facts = t ∷ [] } ∷ []
place key name t (s ∷ ss) =
    let rest = place key name t ss in
    if s.key == key then record s { facts = s.facts ++ t ∷ [] } ∷ ss else s ∷ rest

-- The loop that splits a dataset by graph name.
unfoldable pub split_graphs :
    (Text → ShelfKey) → List Fact → List Shelf → Skolemized → List Fact × List Shelf
split_graphs key_of default shelves [] = (default, shelves)
split_graphs key_of default shelves (q ∷ qs) = elim q.graph_name [
  | GroundGraphName.default_graph ↦ split_graphs key_of (default ++ fact_of q ∷ []) shelves qs
  | GroundGraphName.named_node n ↦
      split_graphs key_of default (place (key_of n) n (fact_of q) shelves) qs
]

abbrev pub simple_literal : Text → GroundTerm
simple_literal t = GroundTerm.literal (record {
  value = t;
  datatype = codes "http://www.w3.org/2001/XMLSchema#string";
  language = none;
  direction = none;
})

abbrev pub media_type_fact : Text → Text → Fact
media_type_fact iri mt = record {
  subject = iri;
  predicate = sys_media_type;
  object = simple_literal mt;
}

abbrev pub binary_fact : Text → Fact
binary_fact iri = record {
  subject = iri;
  predicate = rdf_type;
  object = GroundTerm.named_node sys_binary_resource;
}

abbrev pub subgraph_fact : Text → ShelfKey → Fact
subgraph_fact iri k = record {
  subject = iri;
  predicate = sys_has_subgraph;
  object = GroundTerm.named_node k;
}

abbrev pub name_fact : ShelfKey → Text → Fact
name_fact k name = record {
  subject = k;
  predicate = sys_graph_name;
  object = GroundTerm.named_node name;
}

-- What the registry says of the shelves.
unfoldable pub shelf_facts : Text → List Shelf → List Fact
shelf_facts iri [] = []
shelf_facts iri (s ∷ ss) = subgraph_fact iri s.key ∷ name_fact s.key s.name ∷ shelf_facts iri ss

-- The update of `put_dataset`: `old` are the shelves that the registry lists.
unfoldable pub dataset_update :
    Text → List ShelfKey → List Fact → List Shelf → Text → List Operation
dataset_update iri old default shelves mt =
    map drop_silent (old ++ (map (λ s. s.key) shelves ++ iri ∷ sys_graph_iri iri ∷ []))
    ++ insert_data ((iri, default) ∷ map (λ s. (s.key, s.facts)) shelves)
      ∷ insert_data (
          (sys_graph_iri iri, present_fact iri ∷ media_type_fact iri mt ∷ shelf_facts iri shelves)
          ∷ [])
      ∷ []

-- The update of `put_blob`.
unfoldable pub blob_update : Text → List ShelfKey → Text → List Operation
blob_update iri old mt =
    map drop_silent (old ++ iri ∷ sys_graph_iri iri ∷ [])
    ++ insert_data
        ((sys_graph_iri iri, present_fact iri ∷ binary_fact iri ∷ media_type_fact iri mt ∷ []) ∷ [])
      ∷ []

-- The objects that are IRIs, and the first of them.
unfoldable pub named_objects : List Triple → List Text
named_objects [] = []
named_objects (t ∷ ts) = elim t.object [
  | Term.named_node n ↦ n ∷ named_objects ts
  | _ ↦ named_objects ts
]

unfoldable pub first_valid : (Text → Bool) → List Text → Option Text
first_valid valid [] = none
first_valid valid (n ∷ ns) = let rest = first_valid valid ns in if valid n then some n else rest

abbrev pub as_quad : GraphName → Triple → Quad
as_quad g t = record {
  subject = t.subject;
  predicate = t.predicate;
  object = t.object;
  graph_name = g;
}

module _ {HeaderValue W : Type 0} (crates : Crates HeaderValue) (b : Backend W) where
  unfoldable pub registered_shelves : ResourceUrl → Task b (List ShelfKey)
  registered_shelves r = do
    ts ← wrap_read store (b.construct (sys_graph_iri r.iri) (objects r.iri sys_has_subgraph))
    pure (named_objects ts)

  -- The last lines of `put_dataset` and of `aux::delete_subject`.
  unfoldable pub discard_blob : ResourceUrl → Task b (Unit {0})
  discard_blob r = elim (blob_key crates.encode r) [
    | some key ↦ wrap_write blob (b.delete_blob key)
    | none ↦ pure tt
  ]

  unfoldable pub put_dataset : ResourceUrl → Skolemized → Format → Task b (Unit {0})
  put_dataset r dataset media_type =
      let (default, shelves) = split_graphs (shelf_key crates.digest r) [] [] dataset in
      do
        old ← registered_shelves r
        if all (λ (s : Shelf). crates.valid_iri s.name) shelves then pure tt else raise invalid_iri
        wrap_write store
            (b.update (dataset_update r.iri old default shelves (format_media_type media_type)))
        discard_blob r

  unfoldable pub put_blob : ResourceUrl → Text → MediaType HeaderValue → Task b (Unit {0})
  put_blob r bytes media_type = elim (blob_key crates.encode r) [
    | none ↦ raise key_too_long
    | some key ↦ do
      old ← registered_shelves r
      wrap_write blob (b.put_blob key bytes)
      wrap_write store (b.update (blob_update r.iri old media_type.raw))
  ]

  -- The first literal that is a media type.
  unfoldable pub first_media_type : List Triple → Option (MediaType HeaderValue)
  first_media_type [] = none
  first_media_type (t ∷ ts) =
      let rest = first_media_type ts in
      elim t.object [
        | Term.literal l ↦ elim (parse crates.from_str l.value) [ some m ↦ some m | none ↦ rest ]
        | _ ↦ rest
      ]

  unfoldable pub stored_media_type : ResourceUrl → Task b (Option (MediaType HeaderValue))
  stored_media_type r = do
    ts ← wrap_read store (b.construct (sys_graph_iri r.iri) (objects r.iri sys_media_type))
    pure (first_media_type ts)

  unfoldable pub kind_of : ResourceUrl → Task b (Option (Kind HeaderValue))
  kind_of r = do
    present ← exists b r.iri
    if present
        then (do
          is_binary ← wrap_read store (b.ask (sys_graph_iri r.iri) (binary_fact r.iri ∷ []))
          if is_binary
              then (do
                mt ← stored_media_type r
                elim mt [
                  | some m ↦ pure (some (binary m))
                  | none ↦ raise binary_without_media_type
                ])
              else pure (some rdf))
        else pure none

  -- The loop over the shelves: the quads of each under the name that the registry gives it.
  unfoldable pub read_shelves : Text → List ShelfKey → Task b (List Quad)
  read_shelves iri [] = pure []
  read_shelves iri (k ∷ ks) = do
    names ← wrap_read store (b.construct (sys_graph_iri iri) (objects k sys_graph_name))
    elim (first_valid crates.valid_iri (named_objects names)) [
      | none ↦ raise invalid_iri
      | some name ↦ do
        ts ← wrap_read store (b.construct k everything)
        rest ← read_shelves iri ks
        pure (map (as_quad (GraphName.named_node name)) ts ++ rest)
    ]

  -- The inner option is that of `expect("the store holds no blank node")`.
  unfoldable pub get_dataset : ResourceUrl → Task b (Option (Option Skolemized))
  get_dataset r = do
    present ← exists b r.iri
    if present
        then (do
          ts ← wrap_read store (b.construct r.iri everything)
          keys ← registered_shelves r
          shelved ← read_shelves r.iri keys
          pure (some (from_store (map (as_quad GraphName.default_graph) ts ++ shelved))))
        else pure none
