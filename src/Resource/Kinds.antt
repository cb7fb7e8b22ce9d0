-- ===== src/Resource/Kinds.antt =====
-- `put_blob` and then `kind_of` of src/resource.rs.

use mathlib.Core.List.{Memᴰ}
use mathlib.Core.List.Memᴰ
use quadpod.Prelude.{
  ◌≡◌, refl, sym, ◌∙◌, ap, inl, inr, Bool, true, false, Option, some, List, [], ◌∷◌, ◌++◌, map,
  ◌==◌, nat_eq, list_eq, text_eq, Text, Result, ok, Option-cases, member, arith,
}
use quadpod.Dataset.Ground.{term_of}
use quadpod.Space.{ResourceUrl}
use quadpod.Shelf.{ShelfKey, sys_media_type}
use quadpod.Rdf.{MediaType, parse}
use quadpod.Blob.{blob_key}
use quadpod.Store.{Fact, fact_eq, triple_of, insert_data, objects, Backend, lift, wrap_write}
use quadpod.Store.Laws.{View, has, effect, effects, Lists, BackendLaws}
use quadpod.Store.Effects.{effects-drops, member-append, has_iff}
use quadpod.Store.Actions.{bind_ok, wrap_write_ok}
use quadpod.Resource.{ResourceError, store, blob}
use quadpod.Resource.Graphs.{exists, present_fact, sys_graph_iri}
use quadpod.Resource.Datasets.{
  Crates, binary, blob_update, put_blob, kind_of, stored_media_type, first_media_type,
  registered_shelves, media_type_fact, binary_fact,
}
use quadpod.Resource.Reads.{Reads, Reads-read, Reads-pure, Reads-bind}

abbrev registry : Text → Text → List Fact
registry iri mt = present_fact iri ∷ binary_fact iri ∷ media_type_fact iri mt ∷ []

blob_update-system :
    (iri : Text) (old : List ShelfKey) (mt : Text) (v : View) (f : Fact)
    → effects (blob_update iri old mt) v (sys_graph_iri iri) f ≡ has f (registry iri mt)
unfolding blob_update effects effect member
blob_update-system iri old mt v f =
    ap (λ (x : View). x (sys_graph_iri iri) f)
      (effects-drops (old ++ iri ∷ sys_graph_iri iri ∷ [])
        (insert_data ((sys_graph_iri iri, registry iri mt) ∷ []) ∷ []) v)
    ∙ ground (
      arith,
      member-append (sys_graph_iri iri) old (iri ∷ sys_graph_iri iri ∷ []),
      (text_eq (sys_graph_iri iri) (sys_graph_iri iri)).1 refl,
    )

-- The one media type in the registry.
only_media_type :
    (iri mt : Text) (f : Fact)
    → has f (registry iri mt) ≡ true
    → f.predicate ≡ sys_media_type
    → f ≡ media_type_fact iri mt
only_media_type iri mt f h p = elim (Memᴰ.cases_cons ((has_iff f (registry iri mt)).0 h)) [
  | inl e ↦ absurd (ground (arith, ap (λ (g : Fact). g.predicate) e, p))
  | inr m ↦ elim (Memᴰ.cases_cons m) [
    | inl e ↦ absurd (ground (arith, ap (λ (g : Fact). g.predicate) e, p))
    | inr m ↦ elim (Memᴰ.cases_cons m) [ inl e ↦ e | inr m ↦ elim m [ ] ]
  ]
]

module _ {HeaderValue W : Type 0} (crates : Crates HeaderValue) (b : Backend W) where
  first_media_type-some :
      (iri : Text) (mt : MediaType HeaderValue) (fs : List Fact)
      → parse crates.from_str mt.raw ≡ some mt
      → ((f : Fact) → Memᴰ f fs → f ≡ media_type_fact iri mt.raw)
      → Memᴰ (media_type_fact iri mt.raw) fs
      → first_media_type crates b (map triple_of fs) ≡ some mt
  unfolding first_media_type triple_of term_of
  first_media_type-some iri mt [] reads only m = elim m [ ]
  first_media_type-some iri mt (f ∷ fs) reads only m =
      let e = only f (Memᴰ.head refl) in rw e (rw (reads, first_media_type) refl)

module _ {HeaderValue W : Type 0} (crates : Crates HeaderValue) (b : Backend W)
    (holds : W → Text → Fact → Bool) (object : W → Text → Option Text)
    (laws : BackendLaws b holds object) (r : ResourceUrl) (bytes : Text)
    (mt : MediaType HeaderValue) (w w' : W) where
  pub record IsStored : Type 0 where
    pub key : Text
    pub keyed : blob_key crates.encode r ≡ some key
    pub content : object w' key ≡ some bytes
    pub others : (k : Text) → (k == key) ≡ false → object w' k ≡ object w k
    pub kind : Reads w' (kind_of crates b r) (λ k. k ≡ some (binary mt))

  record IsWritten (key : Text) : Type 0 where
    content : object w' key ≡ some bytes
    others : (k : Text) → (k == key) ≡ false → object w' k ≡ object w k
    system : (f : Fact) → holds w' (sys_graph_iri r.iri) f ≡ has f (registry r.iri mt.raw)

  kind_of-binary :
      parse crates.from_str mt.raw ≡ some mt
      → ((f : Fact) → holds w' (sys_graph_iri r.iri) f ≡ has f (registry r.iri mt.raw))
      → Reads w' (kind_of crates b r) (λ k. k ≡ some (binary mt))
  unfolding kind_of exists stored_media_type
  kind_of-binary reads system =
      let listed : (f : Fact)
          → Memᴰ f (registry r.iri mt.raw)
          → holds w' (sys_graph_iri r.iri) f ≡ true =
        λ f m. system f ∙ (has_iff f (registry r.iri mt.raw)).1 m in
      Reads-bind w' _ _ (λ present. present ≡ true) _
        (Reads-read w' _ _ (λ a e.
          laws.asked _ (present_fact r.iri ∷ []) w' a e
          ∙ ground (arith, listed (present_fact r.iri) (Memᴰ.head refl))))
        (λ present e. rw e (
          Reads-bind w' _ _ (λ is_binary. is_binary ≡ true) _
            (Reads-read w' _ _ (λ a e.
              laws.asked _ (binary_fact r.iri ∷ []) w' a e
              ∙ ground (arith, listed (binary_fact r.iri) (Memᴰ.tail (Memᴰ.head refl)))))
            (λ is_binary e. rw e (
              Reads-bind w' _ _ (λ m. m ≡ some mt) _
                (Reads-bind w' _ _
                  (λ ts.
                    (fs : List Fact) × (ts ≡ map triple_of fs)
                    × Lists (holds w') (sys_graph_iri r.iri) (objects r.iri sys_media_type) fs)
                  _ (Reads-read w' _ _ (λ ts e. laws.constructed _ _ w' ts e))
                  (λ ts answer.
                    let (fs, e, lists) = answer in
                    Reads-pure w' _ (λ m. m ≡ some mt)
                      (rw e (
                        first_media_type-some crates b r.iri mt fs reads
                          (λ f m.
                            let (held, matched) = lists.sound f m in
                            only_media_type r.iri mt.raw f (sym (system f) ∙ held) (matched.1))
                          (lists.complete (media_type_fact r.iri mt.raw)
                            (listed _ (Memᴰ.tail (Memᴰ.tail (Memᴰ.head refl)))) (refl, refl))))))
                (λ m e. rw e (Reads-pure w' _ (λ k. k ≡ some (binary mt)) refl))))))

  shelves_still : (registered_shelves crates b r w).1 ≡ w
  unfolding registered_shelves
  shelves_still =
      let all_answers : Reads w (registered_shelves crates b r) (λ ks. Unit {0}) =
        Reads-bind w _ _ (λ ts. Unit {0}) _ (Reads-read w _ _ (λ ts e. tt))
          (λ ts t. Reads-pure w _ _ tt) in
      all_answers.still

  put_blob-IsWritten :
      (key : Text)
      → blob_key crates.encode r ≡ some key
      → put_blob crates b r bytes mt w ≡ (ok tt, w')
      → IsWritten key
  unfolding put_blob wrap_write
  put_blob-IsWritten key keyed h =
      let run = rw (keyed, put_blob) at h in
      let (old, e1, h1) = bind_ok (registered_shelves crates b r) _ w w' run in
      let w1 : W = (registered_shelves crates b r w).1 in
      let (put, e2, h2) = bind_ok (wrap_write blob (b.put_blob key bytes)) _ w1 w' h1 in
      let w2 : W = (b.put_blob key bytes w1).1 in
      let os = blob_update r.iri old mt.raw in
      let sent =
        wrap_write_ok store (b.update os) w2
          (ap (λ (o : Result ResourceError (Unit {0}) × W). o.0) h2) in
      let last : (b.update os w2).1 ≡ w' =
        ap (λ (o : Result ResourceError (Unit {0}) × W). o.1) h2 in
      let stored = λ (k : Text).
        ap (λ x. object x k) (sym last)
        ∙ laws.update_keeps_objects os w2 k
        ∙ laws.stored key k bytes w1 (wrap_write_ok blob (b.put_blob key bytes) w1 e2) in
      record {
        content = stored key ∙ ground (arith, (text_eq key key).1 refl);
        others = λ k other.
            stored k
            ∙ ground
                (arith, other, text_eq key k, text_eq k key, ap (λ x. object x k) shelves_still);
        system = λ f.
            ap (λ x. holds x (sys_graph_iri r.iri) f) (sym last)
            ∙ laws.updated os w2 (sys_graph_iri r.iri) f sent
            ∙ blob_update-system r.iri old mt.raw (holds w2) f;
      }

  -- Bytes that `put_blob` stored under a media type that the parser reads back are under the
  -- resource's key, no other bytes changed, and `kind_of` answers in the state after it that the
  -- resource is binary, with that media type, unless the store fails.
  pub put_blob-kind_of :
      parse crates.from_str mt.raw ≡ some mt
      → put_blob crates b r bytes mt w ≡ (ok tt, w')
      → IsStored
  unfolding put_blob lift
  put_blob-kind_of reads h = elim (Option-cases (blob_key crates.encode r)) [
    | inl none_there ↦ absurd (
        ground (
          arith,
          ap (λ (o : Result ResourceError (Unit {0}) × W). o.0) (rw (none_there, put_blob) at h),
        ))
    | inr (key, keyed) ↦
        let written = put_blob-IsWritten key keyed h in
        record {
          key = key;
          keyed = keyed;
          content = written.content;
          others = written.others;
          kind = kind_of-binary reads written.system;
        }
  ]
