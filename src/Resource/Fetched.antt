-- ===== src/Resource/Fetched.antt =====
-- What `get_dataset` of src/resource.rs reads of a dataset that was written.
use mathlib.Core.Path.{subst}
use mathlib.Core.List.{Memᴰ, append_cancel_left, map-append}
use mathlib.Core.List.Memᴰ
use quadpod.Prelude.{
  ◌≡◌, refl, sym, ◌∙◌, ap, inl, inr, Bool, true, Option, some, List, [], ◌∷◌, ◌++◌, map, All,
  nat_eq, list_eq, text_eq, Text, member, Option-cases, arith,
}
use quadpod.Terms.{GraphName}
use quadpod.Dataset.Versions.{Quad}
use quadpod.Dataset.Ground.{GroundQuad, GroundGraphName, quad_of, graph_of}
use quadpod.Space.{ResourceUrl}
use quadpod.Shelf.{ShelfKey, shelf_key, shelf_prefix, sys_has_subgraph, sys_graph_name}
use quadpod.Store.{Fact, triple_of, everything, objects, Backend}
use quadpod.Store.Laws.{mentions, Lists, BackendLaws}
use quadpod.Resource.Graphs.{sys_graph_iri, fact_of}
use quadpod.Resource.Datasets.{
  Crates, Shelf, as_quad, named_objects, first_valid, registered_shelves, read_shelves,
  subgraph_fact, name_fact,
}
use quadpod.Resource.Split.{OnShelf, mentions_iff}
use quadpod.Resource.Shelved.{Named, quad_at}
use quadpod.Resource.Written.{IsWritten, group}
use quadpod.Resource.Reads.{
  Reads, Reads-read, Reads-pure, Reads-bind, named_objects-Mem, Mem-named_objects, first_valid-Mem,
  first_valid-none,
}
use quadpod.Resource.Registry.{registry-linked, registry-named, registry-has}

-- What is hashed for a name is no collision, so it has a shelf of its own.
pub shelf_key-injective :
    (digest : Text → Text) (r : ResourceUrl) (m n : Text)
    → (digest (r.iri ++ (0 ∷ m)) ≡ digest (r.iri ++ (0 ∷ n)) → r.iri ++ (0 ∷ m) ≡ r.iri ++ (0 ∷ n))
    → shelf_key digest r m ≡ shelf_key digest r n
    → m ≡ n
unfolding shelf_key
shelf_key-injective digest r m n distinct e =
    append_cancel_left (0 ∷ []) m n
      (append_cancel_left r.iri _ _ (distinct (append_cancel_left shelf_prefix _ _ e)))

Mem-member :
    (s : Shelf) (ss : List Shelf) → Memᴰ s ss → member s.key (map (λ (s : Shelf). s.key) ss) ≡ true
unfolding member
Mem-member s [] m = elim m [ ]
Mem-member s (t ∷ ss) (Memᴰ.head e) =
    ground (arith, (text_eq t.key s.key).1 (ap (λ (x : Shelf). x.key) (sym e)))
Mem-member s (t ∷ ss) (Memᴰ.tail m) = ground (arith, Mem-member s ss m)

pub OnShelf-Mem :
    (ss : List Shelf) (k : ShelfKey) (f : Fact)
    → OnShelf ss k f
    → (s : Shelf) × Memᴰ s ss × (s.key ≡ k)
OnShelf-Mem [] k f h = absurd h
OnShelf-Mem (s ∷ ss) k f (inl (e, m)) = (s, Memᴰ.head refl, e)
OnShelf-Mem (s ∷ ss) k f (inr h) = let (t, m, e) = OnShelf-Mem ss k f h in (t, Memᴰ.tail m, e)

pub All-Mem {ℓ} : {A : Type 0} (P : A → Type ℓ) (xs : List A) (x : A) → All P xs → Memᴰ x xs → P x
All-Mem P (y ∷ xs) x a (Memᴰ.head e) = subst P (sym e) (a.0)
All-Mem P (y ∷ xs) x a (Memᴰ.tail m) = All-Mem P xs x (a.1) m
All-Mem P [] x a m = elim m [ ]

-- The quads of a graph, from the triples of its facts.
pub quads_of_facts :
    (g : GroundGraphName) (fs : List Fact)
    → map (as_quad (graph_of g)) (map triple_of fs) ≡ map quad_of (map (quad_at g) fs)
unfolding quad_of triple_of
quads_of_facts g [] = refl
quads_of_facts g (f ∷ fs) = ground (arith, quads_of_facts g fs)

-- What the keys of a registry are: those of the shelves.
pub record AreKeys (ss : List Shelf) (ks : List ShelfKey) : Type 0 where
  pub only : (k : ShelfKey) → Memᴰ k ks → (s : Shelf) × Memᴰ s ss × (s.key ≡ k)
  pub every : (s : Shelf) → Memᴰ s ss → Memᴰ s.key ks

-- What the loop over keys reads: the facts of their shelves, each under the name of its shelf.
pub record AreShelved (key_of : Text → ShelfKey) (P : Text → Type 0) (ss : List Shelf)
    (ks : List ShelfKey) (quads : List Quad) : Type 0 where
  pub read : List GroundQuad
  pub same : quads ≡ map quad_of read
  pub sound :
      (g : GroundGraphName) (f : Fact)
      → Memᴰ (quad_at g f) read
      → (n : Text) × (g ≡ GroundGraphName.named_node n) × P n × OnShelf ss (key_of n) f
  pub complete :
      (n : Text) (f : Fact)
      → P n
      → Memᴰ (key_of n) ks
      → OnShelf ss (key_of n) f
      → Memᴰ (quad_at (GroundGraphName.named_node n) f) read

module _ {HeaderValue W : Type 0} (crates : Crates HeaderValue) (b : Backend W)
    (holds : W → Text → Fact → Bool) (object : W → Text → Option Text)
    (laws : BackendLaws b holds object) (r : ResourceUrl) (d : List Fact) (ss : List Shelf)
    (mt : Text) (w : W) (written : IsWritten (holds w) r.iri d ss mt) where
  abbrev pub key_of : Text → ShelfKey
  key_of = shelf_key crates.digest r

  pub registered_shelves-AreKeys : Reads w (registered_shelves crates b r) (AreKeys ss)
  unfolding registered_shelves
  registered_shelves-AreKeys =
      Reads-bind w _ _
        (λ ts.
          (fs : List Fact) × (ts ≡ map triple_of fs)
          × Lists (holds w) (sys_graph_iri r.iri) (objects r.iri sys_has_subgraph) fs)
        _ (Reads-read w _ _ (λ ts e. laws.constructed _ _ w ts e))
        (λ ts listed.
          let (fs, e, lists) = listed in
          Reads-pure w (named_objects ts) (AreKeys ss) (
            rw e (record {
              only = λ k m.
                  let (f, mf, o) = named_objects-Mem fs k m in
                  let (held, matched) = lists.sound f mf in
                  let (s, ms, q) =
                    registry-linked r.iri mt ss f (matched.1) (sym (written.system f) ∙ held) in
                  (s, ms, cc (ap (λ (x : Fact). x.object) q ∙ o));
              every = λ s m.
                  let held =
                    written.system (subgraph_fact r.iri s.key) ∙ (registry-has r.iri mt s ss m).0 in
                  Mem-named_objects fs (subgraph_fact r.iri s.key) s.key
                    (lists.complete (subgraph_fact r.iri s.key) held (refl, refl)) refl;
            })))

  module _ (P : Text → Type 0) (injective : (m n : Text) → P m → P n → key_of m ≡ key_of n → m ≡ n)
      (names : Named key_of P ss)
      (valid : All (λ (s : Shelf). crates.valid_iri s.name ≡ true) ss) where
    own : (s : Shelf) → Memᴰ s ss → (s.key ≡ key_of s.name) × P s.name
    own s m = All-Mem (λ (s : Shelf). (s.key ≡ key_of s.name) × P s.name) ss s names m

    same_name : (s t : Shelf) → Memᴰ s ss → Memᴰ t ss → s.key ≡ t.key → s.name ≡ t.name
    same_name s t ms mt' e =
        let (a, p) = own s ms in
        let (c, q) = own t mt' in injective s.name t.name p q (sym a ∙ e ∙ c)

    -- The name that the registry gives a shelf is that of the shelf.
    name_found :
        (s : Shelf) (fs : List Fact)
        → Memᴰ s ss
        → Lists (holds w) (sys_graph_iri r.iri) (objects s.key sys_graph_name) fs
        → first_valid crates.valid_iri (named_objects (map triple_of fs)) ≡ some s.name
    name_found s fs m lists =
        let held = written.system (name_fact s.key s.name) ∙ (registry-has r.iri mt s ss m).1 in
        let there =
          Mem-named_objects fs (name_fact s.key s.name) s.name
            (lists.complete (name_fact s.key s.name) held (refl, refl)) refl in
        let ok_name = All-Mem (λ (s : Shelf). crates.valid_iri s.name ≡ true) ss s valid m in
        elim (Option-cases (first_valid crates.valid_iri (named_objects (map triple_of fs)))) [
          | inl e ↦
              let bad = first_valid-none crates.valid_iri _ s.name e there in
              absurd (ground (arith, ok_name, bad))
          | inr (n, e) ↦
              let (f, mf, o) = named_objects-Mem fs n (first_valid-Mem crates.valid_iri _ e) in
              let (held', matched) = lists.sound f mf in
              let (t, mt', q) =
                registry-named r.iri mt ss f (matched.1) (sym (written.system f) ∙ held') in
              let key : t.key ≡ s.key = ap (λ (x : Fact). x.subject) q ∙ matched.0 in
              let name : t.name ≡ n = cc (ap (λ (x : Fact). x.object) q ∙ o) in
              e ∙ ap some (sym name ∙ same_name t s mt' m key)
        ]

    -- One shelf before the shelves of the other keys.
    one_more :
        (s : Shelf) (ks : List ShelfKey) (fs : List Fact) (rest : List Quad)
        → Memᴰ s ss
        → Lists (holds w) s.key everything fs
        → AreShelved key_of P ss ks rest
        → AreShelved key_of P ss
            (s.key ∷ ks)
            (map (as_quad (GraphName.named_node s.name)) (map triple_of fs) ++ rest)
    unfolding graph_of
    one_more s ks fs rest m lists others = record {
      read = map (quad_at g) fs ++ others.read;
      same =
          ap (λ (x : List Quad). x ++ rest) (quads_of_facts g fs)
          ∙ ap (λ (y : List Quad). map quad_of (map (quad_at g) fs) ++ y) others.same
          ∙ sym (map-append quad_of (map (quad_at g) fs) others.read);
      sound = λ h f k. elim (Memᴰ.append_cases (map (quad_at g) fs) k) [
        | inr later ↦ others.sound h f later
        | inl here ↦
            let (f', mf, e) = Memᴰ.of_map (quad_at g) fs here in
            let held = sym (shelf_view f') ∙ (lists.sound f' mf).0 in
            (
              s.name,
              sym (ap (λ (x : GroundQuad). x.graph_name) e),
              (own s m).1,
              subst (λ x. OnShelf ss (key_of s.name) (fact_of x)) e
                  (subst (λ k. OnShelf ss k f') own_key ((mentions_iff ss s.key f').0 held)),
            )
      ];
      complete = λ n f p k on. elim (Memᴰ.cases_cons k) [
        | inl e ↦
            let held =
              shelf_view f ∙ (mentions_iff ss s.key f).1 (subst (λ k. OnShelf ss k f) e on) in
            Memᴰ.append_left others.read (
              subst (λ m. Memᴰ (quad_at (GroundGraphName.named_node m) f) (map (quad_at g) fs))
                (sym (injective n s.name p ((own s m).1) (e ∙ own_key)))
                (Memᴰ.map (quad_at g) (lists.complete f held tt)))
        | inr later ↦ Memᴰ.append_right (map (quad_at g) fs) (others.complete n f p later on)
      ];
    }
      where
        g : GroundGraphName
        g = GroundGraphName.named_node s.name

        own_key : s.key ≡ key_of s.name
        own_key = (own s m).0

        shelf_view : (f : Fact) → holds w s.key f ≡ mentions (map group ss) s.key f
        shelf_view f = written.shelved s.key f (Mem-member s ss m)

    pub read_shelves-AreShelved :
        (ks : List ShelfKey)
        → ((k : ShelfKey) → Memᴰ k ks → (s : Shelf) × Memᴰ s ss × (s.key ≡ k))
        → Reads w (read_shelves crates b r.iri ks) (AreShelved key_of P ss ks)
    unfolding read_shelves
    read_shelves-AreShelved [] are = Reads-pure w [] (AreShelved key_of P ss []) (record {
      read = [];
      same = refl;
      sound = λ g f m. elim m [ ];
      complete = λ n f p m on. elim m [ ];
    })
    read_shelves-AreShelved (k ∷ ks) are =
        let (s, m, e) = are k (Memᴰ.head refl) in
        subst
          (λ k. Reads w (read_shelves crates b r.iri (k ∷ ks)) (AreShelved key_of P ss (k ∷ ks))) e
          (one_key s m (read_shelves-AreShelved ks (λ j mj. are j (Memᴰ.tail mj))))
      where
        one_key :
            (s : Shelf)
            → Memᴰ s ss
            → Reads w (read_shelves crates b r.iri ks) (AreShelved key_of P ss ks)
            → Reads w
                (read_shelves crates b r.iri (s.key ∷ ks))
                (AreShelved key_of P ss (s.key ∷ ks))
        one_key s m rest =
            Reads-bind w _ _ (λ ts. first_valid crates.valid_iri (named_objects ts) ≡ some s.name) _
              (Reads-read w _ _ (λ ts e.
                let (fs, listed, lists) = laws.constructed _ _ w ts e in
                rw listed (name_found s fs m lists)))
              (λ listed found. rw found (
                Reads-bind w _ _
                  (λ ts.
                    (fs : List Fact) × (ts ≡ map triple_of fs)
                    × Lists (holds w) s.key everything fs)
                  _ (Reads-read w _ _ (λ ts e. laws.constructed _ _ w ts e))
                  (λ ts of_shelf.
                    let (fs, e, lists) = of_shelf in
                    Reads-bind w _ _ (AreShelved key_of P ss ks) _ rest (λ others are_read.
                      Reads-pure w _ (AreShelved key_of P ss (s.key ∷ ks))
                        (rw e (one_more s ks fs others m lists are_read))))))
