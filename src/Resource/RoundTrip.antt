-- ===== src/Resource/RoundTrip.antt =====
-- `put_dataset` and then `get_dataset` of src/resource.rs.
use mathlib.Core.Path.{fun_ext, subst}
use mathlib.Core.List.{Memᴰ, map-append}
use mathlib.Core.List.Memᴰ
use quadpod.Prelude.{
  ◌≡◌, ◌↔◌, ◌⊎◌, refl, sym, ◌∙◌, ap, inl, inr, Bool, true, Option, some, List, [], ◌∷◌, ◌++◌, map,
  all, All, if◌then◌else◌, Text, Result, ok, Option-cases, arith,
}
use quadpod.Dataset.Versions.{Quad}
use quadpod.Dataset.Ground.{GroundQuad, GroundGraphName, Skolemized, quad_of, graph_of, from_store}
use quadpod.Dataset.Ground.Stored.{from_store-quads}
use quadpod.Space.{ResourceUrl}
use quadpod.Shelf.{ShelfKey, shelf_key}
use quadpod.Rdf.{Format, format_media_type}
use quadpod.Blob.{blob_key}
use quadpod.Store.{Fact, fact_eq, triple_of, everything, Backend, lift, pure, raise, wrap_write}
use quadpod.Store.Laws.{Lists, effects, BackendLaws}
use quadpod.Store.Effects.{has_iff, fact_eq_iff}
use quadpod.Store.Actions.{bind_ok, wrap_write_ok, checked_ok}
use quadpod.Resource.{ResourceError, store, invalid_iri}
use quadpod.Resource.Graphs.{exists, present_fact, sys_graph_iri, fact_of}
use quadpod.Resource.Names.{IsData, IsShelf, shelf_key-IsShelf}
use quadpod.Resource.Datasets.{
  Crates, Shelf, split_graphs, dataset_update, discard_blob, put_dataset, get_dataset, as_quad,
  registered_shelves,
}
use quadpod.Resource.Shelved.{
  Named, Occurs, Expected, Occurs-Expected, Kept, quad_at, split_graphs-Kept, split_graphs-only,
  split_graphs-Named,
}
use quadpod.Resource.Written.{IsWritten, dataset_update-IsWritten}
use quadpod.Resource.Reads.{Reads, Reads-read, Reads-pure, Reads-bind}
use quadpod.Resource.Fetched.{
  AreKeys, AreShelved, shelf_key-injective, OnShelf-Mem, quads_of_facts, registered_shelves-AreKeys,
  read_shelves-AreShelved,
}

-- A dataset comes back with the same quads, in some order and as often as may be.
abbrev pub IsSameDataset : Skolemized → Option (Option Skolemized) → Type 0
IsSameDataset dataset answer =
    (q : Skolemized) × (answer ≡ some (some q)) × ((x : GroundQuad) → Memᴰ x q ↔ Memᴰ x dataset)

All-of_all :
    (p : Text → Bool) (ss : List Shelf)
    → all (λ (s : Shelf). p s.name) ss ≡ true
    → All (λ (s : Shelf). p s.name ≡ true) ss
All-of_all p [] h = tt
All-of_all p (s ∷ ss) h = (ground (arith, h), All-of_all p ss (ground (arith, h)))

Named-IsShelf :
    (digest : Text → Text) (r : ResourceUrl) (P : Text → Type 0) (ss : List Shelf)
    → Named (shelf_key digest r) P ss
    → All (λ (s : Shelf). IsShelf s.key) ss
Named-IsShelf digest r P [] a = tt
Named-IsShelf digest r P (s ∷ ss) a = (
  subst IsShelf (sym (a.0.0)) (shelf_key-IsShelf digest r s.name),
  Named-IsShelf digest r P ss (a.1),
)

module _ {HeaderValue W : Type 0} (crates : Crates HeaderValue) (b : Backend W)
    (holds : W → Text → Fact → Bool) (object : W → Text → Option Text)
    (laws : BackendLaws b holds object) (r : ResourceUrl) where
  pub discard_blob-holds : (w : W) → holds (discard_blob crates b r w).1 ≡ holds w
  unfolding discard_blob
  discard_blob-holds w = elim (Option-cases (blob_key crates.encode r)) [
    | inl e ↦ rw (e, discard_blob) (unfold lift in refl)
    | inr (k, e) ↦
        rw (e, discard_blob)
          (unfold wrap_write in fun_ext λ g. fun_ext λ f. laws.deleting_keeps_facts k w g f)
  ]

  -- What a write that answered `Ok` checked and left.
  pub record IsPut (dataset : Skolemized) (format : Format) (w : W) : Type 0 where
    pub valid :
        All
          (λ (s : Shelf). crates.valid_iri s.name ≡ true)
          (split_graphs (shelf_key crates.digest r) [] [] dataset).1
    pub written :
        IsWritten
          (holds w)
          r.iri
          (split_graphs (shelf_key crates.digest r) [] [] dataset).0
          (split_graphs (shelf_key crates.digest r) [] [] dataset).1
          (format_media_type format)

  module _ (stem : Text) (own : IsData stem r) where
    shelves-Named :
        (dataset : Skolemized)
        → Named
            (shelf_key crates.digest r)
            (Occurs dataset)
            (split_graphs (shelf_key crates.digest r) [] [] dataset).1
    shelves-Named dataset =
        split_graphs-Named (shelf_key crates.digest r) (Occurs dataset) dataset [] []
          (λ x m. Occurs-Expected dataset x.graph_name (fact_of x) m) tt

    pub put_dataset-IsPut :
        (dataset : Skolemized) (format : Format) (w w' : W)
        → put_dataset crates b r dataset format w ≡ (ok tt, w')
        → IsPut dataset format w'
    unfolding put_dataset wrap_write
    put_dataset-IsPut dataset format w w' h =
        let d = (split_graphs (shelf_key crates.digest r) [] [] dataset).0 in
        let ss = (split_graphs (shelf_key crates.digest r) [] [] dataset).1 in
        let mt = format_media_type format in
        let (old, read, h1) = bind_ok (registered_shelves crates b r) _ w w' h in
        let w1 = (registered_shelves crates b r w).1 in
        let (checked, e2, h2) =
          bind_ok
            (if all (λ (s : Shelf). crates.valid_iri s.name) ss then pure tt else raise invalid_iri)
            _ w1 w' h1 in
        let good = checked_ok _ _ _ w1 e2 in
        let os = dataset_update r.iri old d ss mt in
        let w2 : W =
          ((if all (λ (s : Shelf). crates.valid_iri s.name) ss
              then pure {E = ResourceError} tt
              else raise invalid_iri)
            w1).1 in
        let (sent, e3, h3) = bind_ok (wrap_write store (b.update os)) _ w2 w' h2 in
        let w3 = (b.update os w2).1 in
        let view : holds w' ≡ effects os (holds w2) =
          ap (λ (o : Result ResourceError (Unit {0}) × W). holds (o.1)) (sym h3)
          ∙ discard_blob-holds w3
          ∙ fun_ext
              λ g. fun_ext λ f. laws.updated os w2 g f (wrap_write_ok store (b.update os) w2 e3) in
        record {
          valid = All-of_all crates.valid_iri ss good;
          written =
              subst (λ v. IsWritten v r.iri d ss mt) (sym view)
                (dataset_update-IsWritten stem r (holds w2) old d ss mt own
                  (Named-IsShelf crates.digest r (Occurs dataset) ss (shelves-Named dataset)));
        }

    -- What is hashed for two names of the dataset is no collision.
    abbrev Distinct : Skolemized → Type 0
    Distinct dataset =
        (m n : Text)
        → Occurs dataset m
        → Occurs dataset n
        → crates.digest (r.iri ++ (0 ∷ m)) ≡ crates.digest (r.iri ++ (0 ∷ n))
        → r.iri ++ (0 ∷ m) ≡ r.iri ++ (0 ∷ n)

    injective :
        (dataset : Skolemized)
        → Distinct dataset
        → (m n : Text) → Occurs dataset m
        → Occurs dataset n
        → shelf_key crates.digest r m ≡ shelf_key crates.digest r n
        → m ≡ n
    injective dataset distinct m n p q = shelf_key-injective crates.digest r m n (distinct m n p q)

    -- The default graph before the shelves is the whole dataset.
    whole_dataset :
        (dataset : Skolemized) (format : Format) (w : W) (fs : List Fact) (ks : List ShelfKey)
        (shelved : List Quad)
        → Distinct dataset
        → IsPut dataset format w
        → Lists (holds w) r.iri everything fs
        → AreKeys (split_graphs (shelf_key crates.digest r) [] [] dataset).1 ks
        → AreShelved
            (shelf_key crates.digest r)
            (Occurs dataset)
            (split_graphs (shelf_key crates.digest r) [] [] dataset).1
            ks
            shelved
        → IsSameDataset dataset (
            some (
              from_store (
                map (as_quad (graph_of GroundGraphName.default_graph)) (map triple_of fs)
                ++ shelved)))
    whole_dataset dataset format w fs ks shelved distinct put lists keys are = (
      all_quads,
      ap some (ap from_store quads ∙ from_store-quads all_quads),
      λ x. (out x, back x.graph_name (fact_of x)),
    )
      where
        key_of : Text → ShelfKey
        key_of = shelf_key crates.digest r

        d : List Fact
        d = (split_graphs key_of [] [] dataset).0

        ss : List Shelf
        ss = (split_graphs key_of [] [] dataset).1

        default : List GroundQuad
        default = map (quad_at GroundGraphName.default_graph) fs

        all_quads : Skolemized
        all_quads = default ++ are.read

        quads :
            map (as_quad (graph_of GroundGraphName.default_graph)) (map triple_of fs) ++ shelved
            ≡ map quad_of all_quads
        quads =
            ap (λ (x : List Quad). x ++ shelved) (quads_of_facts GroundGraphName.default_graph fs)
            ∙ ap (λ (y : List Quad). map quad_of default ++ y) are.same
            ∙ sym (map-append quad_of default are.read)

        nothing_before :
            (g : GroundGraphName) (f : Fact)
            → Kept key_of [] [] g f ⊎ Memᴰ (quad_at g f) dataset
            → Memᴰ (quad_at g f) dataset
        nothing_before g f (inr m) = m
        nothing_before GroundGraphName.default_graph f (inl m) = elim m [ ]
        nothing_before (GroundGraphName.named_node n) f (inl m) = absurd m

        kept :
            (g : GroundGraphName) (f : Fact)
            → Expected (Occurs dataset) g
            → Kept key_of d ss g f
            → Memᴰ (quad_at g f) dataset
        kept g f p k = nothing_before g f (
            split_graphs-only key_of (Occurs dataset) (injective dataset distinct) dataset [] [] g f
              (λ x m. Occurs-Expected dataset x.graph_name (fact_of x) m) p k)

        out : (x : GroundQuad) → Memᴰ x all_quads → Memᴰ x dataset
        out x m = elim (Memᴰ.append_cases default m) [
          | inl here ↦
              let (f, mf, e) = Memᴰ.of_map (quad_at GroundGraphName.default_graph) fs here in
              let held = sym (put.written.own f) ∙ (lists.sound f mf).0 in
              subst (λ x. Memᴰ x dataset) e
                (kept GroundGraphName.default_graph f tt ((has_iff f d).0 held))
          | inr there ↦
              let (n, e, p, on) = are.sound x.graph_name (fact_of x) there in
              subst (λ g. Memᴰ (quad_at g (fact_of x)) dataset) (sym e)
                (kept (GroundGraphName.named_node n) (fact_of x) p on)
        ]

        found :
            (g : GroundGraphName) (f : Fact)
            → Expected (Occurs dataset) g
            → Kept key_of d ss g f
            → Memᴰ (quad_at g f) all_quads
        found GroundGraphName.default_graph f p k =
            let held = put.written.own f ∙ (has_iff f d).1 k in
            Memᴰ.append_left are.read
              (Memᴰ.map (quad_at GroundGraphName.default_graph) (lists.complete f held tt))
        found (GroundGraphName.named_node n) f p k =
            let (s, ms, e) = OnShelf-Mem ss (key_of n) f k in
            let listed = subst (λ k. Memᴰ k ks) e (keys.every s ms) in
            Memᴰ.append_right default (are.complete n f p listed k)

        back :
            (g : GroundGraphName) (f : Fact)
            → Memᴰ (quad_at g f) dataset
            → Memᴰ (quad_at g f) all_quads
        back g f m =
            found g f (Occurs-Expected dataset g f m) (split_graphs-Kept key_of dataset [] [] g f m)

    -- Where no two texts hashed for the names of its graphs collide, a dataset that `put_dataset`
    -- wrote for a document or container of the space is what `get_dataset` reads in the state after
    -- it: the same quads, each in its graph, unless the store fails.
    pub put_dataset-get_dataset :
        (dataset : Skolemized) (format : Format) (w w' : W)
        → ((m n : Text)
            → Occurs dataset m
            → Occurs dataset n
            → crates.digest (r.iri ++ (0 ∷ m)) ≡ crates.digest (r.iri ++ (0 ∷ n))
            → r.iri ++ (0 ∷ m) ≡ r.iri ++ (0 ∷ n))
        → put_dataset crates b r dataset format w ≡ (ok tt, w')
        → Reads w' (get_dataset crates b r) (IsSameDataset dataset)
    unfolding get_dataset exists graph_of
    put_dataset-get_dataset dataset format w w' distinct h =
        let put = put_dataset-IsPut dataset format w w' h in
        let ss = (split_graphs (shelf_key crates.digest r) [] [] dataset).1 in
        let marked : holds w' (sys_graph_iri r.iri) (present_fact r.iri) ≡ true =
          put.written.system (present_fact r.iri)
          ∙ ground (arith, (fact_eq_iff (present_fact r.iri) (present_fact r.iri)).1 refl) in
        Reads-bind w' _ _ (λ present. present ≡ true) _
          (Reads-read w' _ _ (λ a e.
            ground
              (arith, laws.asked (sys_graph_iri r.iri) (present_fact r.iri ∷ []) w' a e, marked)))
          (λ present e. rw e (
            Reads-bind w' _ _
              (λ ts.
                (fs : List Fact) × (ts ≡ map triple_of fs) × Lists (holds w') r.iri everything fs)
              _ (Reads-read w' _ _ (λ ts e. laws.constructed _ _ w' ts e))
              (λ ts own_facts.
                let (fs, listed, lists) = own_facts in
                Reads-bind w' _ _ (AreKeys ss) _
                  (registered_shelves-AreKeys crates b holds object laws r _ ss _ w' put.written)
                  (λ keys are_keys.
                    Reads-bind w' _ _
                      (AreShelved (shelf_key crates.digest r) (Occurs dataset) ss keys) _
                      (read_shelves-AreShelved crates b holds object laws r _ ss _ w' put.written
                        (Occurs dataset) (injective dataset distinct) (shelves-Named dataset)
                        put.valid keys are_keys.only)
                      (λ shelved are. Reads-pure w' _ (IsSameDataset dataset) (
                        rw listed (
                          whole_dataset dataset format w' fs keys shelved distinct put lists
                            are_keys are)))))))
