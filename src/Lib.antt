-- ===== src/Lib.antt =====
-- quadpod, a Solid server: the parts that name documents, that decide who may do what to them,
-- and that guard the server's own requests and state.
--
-- How the parts work together. A request's path becomes a target in `StorageSpace::resolve`
-- (src/space.rs); an agent and a target become a guard in `Guard::probe` (src/wac/guard.rs),
-- which reads the store once and from then on answers from what it read; the guard decides with
-- `pdp::decide` (src/wac/pdp.rs) on the nearest access control list, and `Guard::materialize`
-- plans and writes the containers that a write implies (src/container.rs). The resource itself is
-- written, read and patched as a dataset over shelves, one for each of its named graphs
-- (src/resource.rs, src/shelf.rs), or as bytes (src/blob.rs); its access control list is an
-- auxiliary, which lives and dies with it (src/aux.rs). The body of a PATCH is read by
-- `Patch::parse` (src/patch.rs), a stored dataset is projected to the RDF version that a client
-- asks for (src/dataset.rs, src/rdf.rs), and before a request has an agent, src/auth keeps its
-- caches bounded, its proofs unrepeated and its outgoing connections off the private network. The
-- handlers of src/http.rs compose these parts. A write that succeeded is announced to the readers
-- of its topics (src/notify.rs).
--
-- Files, in the order of use:
-- - Prelude: the shared names, texts as lists of bytes, association lists, results, Boolean tests
--   on native numbers and their laws.
-- - Terms: the data model of the RDF libraries, by its constructors.
-- - Space: src/space.rs. Minted, Stable and Inversion say what an accepted path looks like,
--   Identity that a graph has one path, Auxiliary how a document and its auxiliaries correspond,
--   SlashPair what the counterpart under the slash rule is, Tree what the chain of containers is
--   and Root where it ends.
-- - Wac: src/wac/mod.rs; Wac/Prp: src/wac/prp.rs, with Table, Loaded and Selected about the map it
--   answers, and OneGraph, a store for runs;
--   Wac/Pdp: src/wac/pdp.rs, with Grouping, Decision and Grants about it; Wac/Guard:
--   src/wac/guard.rs, with Probe and Decisions about its answers, Materialize for
--   `Guard::materialize`, and Plans, Creations and Created about that.
-- - Store: what src/store.rs and src/blob.rs ask of the stores, the record `Backend`, and the
--   calls that use it; Store/Laws: what is assumed of a store; Effects and Actions: what follows
--   for a sequence of operations and for a block of calls; Memory: a store that keeps the laws.
-- - Shelf: src/shelf.rs; Blob: the keys of src/blob.rs.
-- - Container: src/container.rs, with Children about the child of a POST, Members for what takes
--   a member out and Link for the `Link` header.
-- - Resource: src/resource.rs. Graphs has what works on one graph, Datasets a resource with its
--   shelves or its bytes, Patches the patch. Names is about the names of graphs; Split and
--   Shelved where the quads of a dataset go, Written what an update leaves, Reads what a call
--   that only reads answers, Registry and Fetched what the registry and the shelves give back,
--   RoundTrip, Kinds and Applied what comes of a write of triples, of a write of bytes and of a
--   patch.
-- - Aux: src/aux.rs. System says what each update does to the graphs that mark presence, Subjects
--   and Kept what makes a store well formed, Runs, Writes and Calls what interleaved calls do to
--   it, Planted what comes of `put`, Dropping and Deleted what comes of `delete_subject`.
-- - Patch: the terms and patterns of src/patch.rs; Patch/Names: its `Renumber`; Patch/Document:
--   its parser; Steps and Shape about every patch that is accepted, Ground about its insertions.
-- - Dataset: reserved IRIs of src/dataset.rs; Dataset/Versions: its RDF versions and projection;
--   Dataset/Ground: ground datasets and the way to them and back, with Stored about `from_store`,
--   Minting and RoundTrip about `skolemize` and `deskolemize`, Graphs about named graphs;
--   Dataset/Etag: the validator, with Strong about it.
-- - Http: the responses of src/http.rs; Http/Delete: its handler of DELETE, with Allowed, Gone and
--   Deleted about it; Http/Conditions: its preconditions, with Validated about them.
-- - Notify: the registry of src/notify.rs, with Served and Delivery about its readers;
--   Notify/Emit: the events of each write, with Events about them.
-- - Rdf: src/rdf.rs, with Media about its media types; Rdf/Negotiation: its `negotiate` and what
--   that calls, with Ranking, Ranges and Preferred about it. An f32 quality is a parameter with its
--   parser and order.
-- - Auth: the errors of src/auth/mod.rs; Auth/Cache: src/auth/cache.rs; Auth/Replay: the replay
--   store of src/auth/dpop.rs; Auth/Addresses: the address rules of src/auth/safe_fetch.rs.
-- A Tests file runs definitions of its part on concrete inputs and applies its theorems to them.
--
-- How code corresponds. A `str` is the list of its bytes. A `HashMap` or a `HashSet` is an
-- association list or a list, which no result here reads by position, except that the cache's
-- `min_by_key` breaks a tie by the list's order. An i64 of the replay store is its value plus
-- 2^63. `?` is the bind of `Result`; a `&mut` argument is threaded. A panic of an index is a
-- default that the hypothesis of a probed guard excludes, a panic of an `expect` is `none`. What
-- is done under one lock of the notification registry is one step, and a run is any sequence of
-- steps. An update or a query that the code writes as SPARQL text is here the syntax tree of that
-- text, and a call over the stores takes their state and gives a result and the next state. One
-- update takes effect whole or not at all, as src/store.rs demands, so that a run of interleaved
-- requests is a sequence of updates and of blob writes.
--
-- Parameters: the IRI check (`valid_iri`), the store's reads and writes, the N3 parser, the digest of
-- a shelf's key and of a validator, the text of a quad, `Path::from`, the header type, the
-- constructor of a tagged literal, random names, broadcast channels, the hash of a proof and the
-- clock are code of other crates or of the store; what is assumed of them is a hypothesis of the
-- theorem that uses it.
--
-- Fuel: `ancestors` runs on the length of the path plus one, since each round shortens the path.
--
-- Not modelled: the handlers of PUT, POST, PATCH and GET, CORS and the router (src/http.rs) but for
-- the name of a new child, how terms are escaped in the text of a query (src/sparql.rs), the stores
-- behind the interfaces, `exists_many` (src/resource.rs), configuration, the OpenID provider and the
-- verification of tokens by a library, and the shapes.
pub mod Auth
pub mod Aux
pub mod Blob
pub mod Container
pub mod Dataset
pub mod Http
pub mod Notify
pub mod Patch
pub mod Prelude
pub mod Rdf
pub mod Resource
pub mod Shelf
pub mod Space
pub mod Store
pub mod Terms
pub mod Wac
