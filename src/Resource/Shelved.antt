-- ===== src/Resource/Shelved.antt =====
-- Where `put_dataset` of src/resource.rs puts each quad of a dataset.
use mathlib.Core.Path.{subst}
use mathlib.Core.List.{Memᴰ}
use mathlib.Core.List.Memᴰ
use quadpod.Prelude.{
  ◌≡◌, ◌⊎◌, refl, sym, ap, inl, inr, List, [], ◌∷◌, ◌++◌, All, ◌==◌, nat_eq, list_eq, Text,
  Bool-cases,
}
use quadpod.Dataset.Ground.{GroundQuad, GroundGraphName, Skolemized}
use quadpod.Shelf.{ShelfKey}
use quadpod.Store.{Fact}
use quadpod.Resource.Graphs.{fact_of}
use quadpod.Resource.Datasets.{Shelf, place, split_graphs}
use quadpod.Resource.Split.{OnShelf, place_old, place_new, place_only}

abbrev pub quad_at : GroundGraphName → Fact → GroundQuad
quad_at g f = record {
  subject = f.subject;
  predicate = f.predicate;
  object = f.object;
  graph_name = g;
}

-- The shelf of a name bears it, and the name is one of those expected.
abbrev pub Named : (Text → ShelfKey) → (Text → Type 0) → List Shelf → Type 0
Named key_of P ss = All (λ (s : Shelf). (s.key ≡ key_of s.name) × P s.name) ss

-- A name of a graph of the dataset.
abbrev pub Occurs : Skolemized → Text → Type 0
Occurs dataset n = (f : Fact) × Memᴰ (quad_at (GroundGraphName.named_node n) f) dataset

place-Named :
    (key_of : Text → ShelfKey) (P : Text → Type 0) (n : Text) (t : Fact) (ss : List Shelf)
    → P n
    → Named key_of P ss
    → Named key_of P (place (key_of n) n t ss)
unfolding place
place-Named key_of P n t [] p a = ((refl, p), tt)
place-Named key_of P n t (s ∷ ss) p a = elim (Bool-cases (s.key == key_of n)) [
  | inl e ↦ rw e a
  | inr e ↦ rw e (a.0, place-Named key_of P n t ss p (a.1))
]

-- Of the graphs other than the default one, those with an expected name.
abbrev pub Expected : (Text → Type 0) → GroundGraphName → Type 0
Expected P GroundGraphName.default_graph = Unit {0}
Expected P (GroundGraphName.named_node n) = P n

pub Occurs-Expected :
    (dataset : Skolemized) (g : GroundGraphName) (f : Fact)
    → Memᴰ (quad_at g f) dataset
    → Expected (Occurs dataset) g
Occurs-Expected dataset GroundGraphName.default_graph f m = tt
Occurs-Expected dataset (GroundGraphName.named_node n) f m = (f, m)

module _ (key_of : Text → ShelfKey) where
  -- Where a fact of a graph is kept.
  abbrev pub Kept : List Fact → List Shelf → GroundGraphName → Fact → Type 0
  Kept d ss GroundGraphName.default_graph f = Memᴰ f d
  Kept d ss (GroundGraphName.named_node n) f = OnShelf ss (key_of n) f

  -- The state of the loop after one quad.
  abbrev next_default : GroundGraphName → List Fact → Fact → List Fact
  next_default GroundGraphName.default_graph d t = d ++ t ∷ []
  next_default (GroundGraphName.named_node n) d t = d

  abbrev next_shelves : GroundGraphName → List Shelf → Fact → List Shelf
  next_shelves GroundGraphName.default_graph ss t = ss
  next_shelves (GroundGraphName.named_node n) ss t = place (key_of n) n t ss

  one_round :
      (d : List Fact) (ss : List Shelf) (t : Fact) (g : GroundGraphName) (qs : Skolemized)
      → split_graphs key_of d ss (quad_at g t ∷ qs)
        ≡ split_graphs key_of (next_default g d t) (next_shelves g ss t) qs
  unfolding split_graphs
  one_round d ss t GroundGraphName.default_graph qs = refl
  one_round d ss t (GroundGraphName.named_node n) qs = refl

  round_old :
      (d : List Fact) (ss : List Shelf) (t : Fact) (h g : GroundGraphName) (f : Fact)
      → Kept d ss g f
      → Kept (next_default h d t) (next_shelves h ss t) g f
  round_old d ss t GroundGraphName.default_graph GroundGraphName.default_graph f k =
      Memᴰ.append_left (t ∷ []) k
  round_old d ss t GroundGraphName.default_graph (GroundGraphName.named_node n) f k = k
  round_old d ss t (GroundGraphName.named_node m) GroundGraphName.default_graph f k = k
  round_old d ss t (GroundGraphName.named_node m) (GroundGraphName.named_node n) f k =
      place_old (key_of m) m t ss (key_of n) f k

  round_new :
      (d : List Fact) (ss : List Shelf) (t : Fact) (g : GroundGraphName)
      → Kept (next_default g d t) (next_shelves g ss t) g t
  round_new d ss t GroundGraphName.default_graph = Memᴰ.append_right d (Memᴰ.head refl)
  round_new d ss t (GroundGraphName.named_node n) = place_new (key_of n) n t ss

  -- Everything that was kept before or stands in the dataset is kept.
  pub split_graphs-keeps :
      (qs : Skolemized) (d : List Fact) (ss : List Shelf) (g : GroundGraphName) (f : Fact)
      → Kept d ss g f
      → Kept (split_graphs key_of d ss qs).0 (split_graphs key_of d ss qs).1 g f
  split_graphs-keeps [] d ss g f k = unfold split_graphs in k
  split_graphs-keeps (q ∷ qs) d ss g f k =
      let h = q.graph_name in
      rw (one_round d ss (fact_of q) h qs) (
        split_graphs-keeps qs (next_default h d (fact_of q)) (next_shelves h ss (fact_of q)) g f
          (round_old d ss (fact_of q) h g f k))

  pub split_graphs-Kept :
      (qs : Skolemized) (d : List Fact) (ss : List Shelf) (g : GroundGraphName) (f : Fact)
      → Memᴰ (quad_at g f) qs
      → Kept (split_graphs key_of d ss qs).0 (split_graphs key_of d ss qs).1 g f
  split_graphs-Kept [] d ss g f m = elim m [ ]
  split_graphs-Kept (q ∷ qs) d ss g f m =
      let h = q.graph_name in
      let d' = next_default h d (fact_of q) in
      let ss' = next_shelves h ss (fact_of q) in
      rw (one_round d ss (fact_of q) h qs) (elim (Memᴰ.cases_cons m) [
        | inl e ↦ split_graphs-keeps qs d' ss' g f (
            subst (λ (x : GroundQuad). Kept d' ss' x.graph_name (fact_of x)) (sym e)
              (round_new d ss (fact_of q) h))
        | inr later ↦ split_graphs-Kept qs d' ss' g f later
      ])

  module _ (P : Text → Type 0) where
    next-Named :
        (h : GroundGraphName) (ss : List Shelf) (t : Fact)
        → Expected P h
        → Named key_of P ss
        → Named key_of P (next_shelves h ss t)
    next-Named GroundGraphName.default_graph ss t p a = a
    next-Named (GroundGraphName.named_node n) ss t p a = place-Named key_of P n t ss p a

    pub split_graphs-Named :
        (qs : Skolemized) (d : List Fact) (ss : List Shelf)
        → ((x : GroundQuad) → Memᴰ x qs → Expected P x.graph_name)
        → Named key_of P ss
        → Named key_of P (split_graphs key_of d ss qs).1
    split_graphs-Named [] d ss names a = unfold split_graphs in a
    split_graphs-Named (q ∷ qs) d ss names a =
        let h = q.graph_name in
        rw (one_round d ss (fact_of q) h qs) (
          split_graphs-Named qs (next_default h d (fact_of q)) (next_shelves h ss (fact_of q))
            (λ x m. names x (Memᴰ.tail m))
            (next-Named h ss (fact_of q) (names q (Memᴰ.head refl)) a))

    module _ (injective : (m n : Text) → P m → P n → key_of m ≡ key_of n → m ≡ n) where
      round_only :
          (d : List Fact) (ss : List Shelf) (t : Fact) (h g : GroundGraphName) (f : Fact)
          → Expected P h
          → Expected P g
          → Kept (next_default h d t) (next_shelves h ss t) g f
          → Kept d ss g f ⊎ (quad_at g f ≡ quad_at h t)
      round_only d ss t GroundGraphName.default_graph GroundGraphName.default_graph f p q k =
          last (Memᴰ.append_cases d k)
        where
          last :
              Memᴰ f d ⊎ Memᴰ f (t ∷ [])
              → Memᴰ f d
                ⊎ (quad_at GroundGraphName.default_graph f
                    ≡ quad_at GroundGraphName.default_graph t)
          last (inl m) = inl m
          last (inr m) = inr (ap (quad_at GroundGraphName.default_graph) (Memᴰ.eq_of_singleton m))
      round_only d ss t GroundGraphName.default_graph (GroundGraphName.named_node n) f p q k = inl k
      round_only d ss t (GroundGraphName.named_node m) GroundGraphName.default_graph f p q k = inl k
      round_only d ss t (GroundGraphName.named_node m) (GroundGraphName.named_node n) f p q k =
          last (place_only (key_of m) m t ss (key_of n) f k)
        where
          last :
              OnShelf ss (key_of n) f ⊎ ((key_of m ≡ key_of n) × (f ≡ t))
              → OnShelf ss (key_of n) f
                ⊎ (quad_at (GroundGraphName.named_node n) f
                    ≡ quad_at (GroundGraphName.named_node m) t)
          last (inl o) = inl o
          last (inr (e, e')) = let same = injective m n p q e in inr (cc)

      pub split_graphs-only :
          (qs : Skolemized) (d : List Fact) (ss : List Shelf) (g : GroundGraphName) (f : Fact)
          → ((x : GroundQuad) → Memᴰ x qs → Expected P x.graph_name)
          → Expected P g
          → Kept (split_graphs key_of d ss qs).0 (split_graphs key_of d ss qs).1 g f
          → Kept d ss g f ⊎ Memᴰ (quad_at g f) qs
      split_graphs-only [] d ss g f names p k = inl (unfold split_graphs in k)
      split_graphs-only (q ∷ qs) d ss g f names p k =
          let h = q.graph_name in
          let d' = next_default h d (fact_of q) in
          let ss' = next_shelves h ss (fact_of q) in
          let later_names = λ (x : GroundQuad) (m : Memᴰ x qs). names x (Memᴰ.tail m) in
          let k' = rw (one_round d ss (fact_of q) h qs) at k in
          elim (split_graphs-only qs d' ss' g f later_names p k') [
            | inr later ↦ inr (Memᴰ.tail later)
            | inl before ↦
                elim (round_only d ss (fact_of q) h g f (names q (Memᴰ.head refl)) p before) [
                  | inl old ↦ inl old
                  | inr e ↦ inr (Memᴰ.head e)
                ]
          ]
