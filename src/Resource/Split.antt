-- ===== src/Resource/Split.antt =====
-- What `put_dataset` of src/resource.rs makes of a dataset: the default graph and the shelves.
use mathlib.Core.List.{Memᴰ}
use mathlib.Core.List.Memᴰ
use quadpod.Prelude.{
  All, ◌≡◌, ◌↔◌, ◌⊎◌, refl, sym, ◌∙◌, inl, inr, true, ◌&&◌, List, [], ◌∷◌, ◌++◌, map, ◌==◌, nat_eq,
  list_eq, text_eq, Text, Bool-cases, arith,
}
use quadpod.Shelf.{ShelfKey}
use quadpod.Store.{Fact}
use quadpod.Store.Laws.{has, mentions}
use quadpod.Store.Effects.{has_iff}
use quadpod.Dataset.Ground.{GroundGraphName, Skolemized}
use quadpod.Resource.Graphs.{fact_of}
use quadpod.Resource.Names.{IsShelf}
use quadpod.Resource.Datasets.{Shelf, place, split_graphs}

-- A fact stands on a shelf of the key.
abbrev pub OnShelf : List Shelf → ShelfKey → Fact → Type 0
OnShelf [] k f = ⊥
OnShelf (s ∷ ss) k f = ((s.key ≡ k) × Memᴰ f s.facts) ⊎ OnShelf ss k f

pub mentions_iff :
    (ss : List Shelf) (k : ShelfKey) (f : Fact)
    → (mentions (map (λ (s : Shelf). (s.key, s.facts)) ss) k f ≡ true) ↔ OnShelf ss k f
mentions_iff ss k f = (to ss, from ss)
  where
    to :
        (ss : List Shelf)
        → mentions (map (λ (s : Shelf). (s.key, s.facts)) ss) k f ≡ true
        → OnShelf ss k f
    to [] h = cc
    to (s ∷ ss) h = elim (Bool-cases (s.key == k && has f s.facts)) [
      | inl e ↦
          inl ((text_eq s.key k).0 (ground (arith, e)), (has_iff f s.facts).0 (ground (arith, e)))
      | inr e ↦ inr (to ss (ground (arith, e, h)))
    ]

    from :
        (ss : List Shelf)
        → OnShelf ss k f
        → mentions (map (λ (s : Shelf). (s.key, s.facts)) ss) k f ≡ true
    from [] h = absurd h
    from (s ∷ ss) (inl (e, m)) = ground (arith, (text_eq s.key k).1 e, (has_iff f s.facts).1 m)
    from (s ∷ ss) (inr h) = ground (arith, from ss h)

pub place_old :
    (k : ShelfKey) (n : Text) (t : Fact) (ss : List Shelf) (j : ShelfKey) (f : Fact)
    → OnShelf ss j f
    → OnShelf (place k n t ss) j f
unfolding place
place_old k n t (s ∷ ss) j f h = elim (Bool-cases (s.key == k)) [
  | inl e ↦ rw e (grown h)
  | inr e ↦ rw e (later h (place_old k n t ss j f))
]
  where
    grown : OnShelf (s ∷ ss) j f → OnShelf (record s { facts = s.facts ++ t ∷ [] } ∷ ss) j f
    grown (inl (e, m)) = inl (e, Memᴰ.append_left (t ∷ []) m)
    grown (inr h) = inr h

    later :
        OnShelf (s ∷ ss) j f
        → (OnShelf ss j f → OnShelf (place k n t ss) j f)
        → OnShelf (s ∷ place k n t ss) j f
    later (inl h) ih = inl h
    later (inr h) ih = inr (ih h)
place_old k n t [] j f h = absurd h

pub place_new :
    (k : ShelfKey) (n : Text) (t : Fact) (ss : List Shelf) → OnShelf (place k n t ss) k t
unfolding place
place_new k n t [] = inl (refl, Memᴰ.head refl)
place_new k n t (s ∷ ss) = elim (Bool-cases (s.key == k)) [
  | inl e ↦ rw e (inl ((text_eq s.key k).0 e, Memᴰ.append_right s.facts (Memᴰ.head refl)))
  | inr e ↦ rw e (inr (place_new k n t ss))
]

pub place_only :
    (k : ShelfKey) (n : Text) (t : Fact) (ss : List Shelf) (j : ShelfKey) (f : Fact)
    → OnShelf (place k n t ss) j f
    → OnShelf ss j f ⊎ ((k ≡ j) × (f ≡ t))
unfolding place
place_only k n t [] j f (inl (e, m)) = inr (e, Memᴰ.eq_of_singleton m)
place_only k n t [] j f (inr h) = absurd h
place_only k n t (s ∷ ss) j f h = elim (Bool-cases (s.key == k)) [
  | inl e ↦ grown ((text_eq s.key k).0 e) (rw e at h)
  | inr e ↦ later (rw e at h) (place_only k n t ss j f)
]
  where
    added :
        s.key ≡ k
        → s.key ≡ j
        → Memᴰ f s.facts ⊎ Memᴰ f (t ∷ [])
        → OnShelf (s ∷ ss) j f ⊎ ((k ≡ j) × (f ≡ t))
    added e e' (inl m) = inl (inl (e', m))
    added e e' (inr m) = inr (sym e ∙ e', Memᴰ.eq_of_singleton m)

    grown :
        s.key ≡ k
        → OnShelf (record s { facts = s.facts ++ t ∷ [] } ∷ ss) j f
        → OnShelf (s ∷ ss) j f ⊎ ((k ≡ j) × (f ≡ t))
    grown e (inl (e', m)) = added e e' (Memᴰ.append_cases s.facts m)
    grown e (inr h) = inl (inr h)

    wrapped : OnShelf ss j f ⊎ ((k ≡ j) × (f ≡ t)) → OnShelf (s ∷ ss) j f ⊎ ((k ≡ j) × (f ≡ t))
    wrapped (inl h) = inl (inr h)
    wrapped (inr h) = inr h

    later :
        OnShelf (s ∷ place k n t ss) j f
        → (OnShelf (place k n t ss) j f → OnShelf ss j f ⊎ ((k ≡ j) × (f ≡ t)))
        → OnShelf (s ∷ ss) j f ⊎ ((k ≡ j) × (f ≡ t))
    later (inl h) ih = inl (inl h)
    later (inr h) ih = wrapped (ih h)

-- Every shelf of a split dataset has a key of a shelf.
place-IsShelf :
    (k : ShelfKey) (name : Text) (t : Fact) (ss : List Shelf)
    → IsShelf k
    → All (λ (s : Shelf). IsShelf s.key) ss
    → All (λ (s : Shelf). IsShelf s.key) (place k name t ss)
unfolding place
place-IsShelf k name t [] i a = (i, tt)
place-IsShelf k name t (s ∷ ss) i a = elim (Bool-cases (s.key == k)) [
  | inl e ↦ rw e a
  | inr e ↦ rw e (a.0, place-IsShelf k name t ss i (a.1))
]

pub split_graphs-IsShelf :
    (key_of : Text → ShelfKey) (default : List Fact) (ss : List Shelf) (qs : Skolemized)
    → ((n : Text) → IsShelf (key_of n))
    → All (λ (s : Shelf). IsShelf s.key) ss
    → All (λ (s : Shelf). IsShelf s.key) (split_graphs key_of default ss qs).1
unfolding split_graphs
split_graphs-IsShelf key_of default ss [] i a = a
split_graphs-IsShelf key_of default ss (q ∷ qs) i a =
    next_quad q.graph_name (split_graphs-IsShelf key_of (default ++ fact_of q ∷ []) ss qs i a) (λ n.
      split_graphs-IsShelf key_of default (place (key_of n) n (fact_of q) ss) qs i
        (place-IsShelf (key_of n) n (fact_of q) ss (i n) a))
  where
    next_quad :
        (g : GroundGraphName)
        → All
            (λ (s : Shelf). IsShelf s.key)
            (split_graphs key_of (default ++ fact_of q ∷ []) ss qs).1
        → ((n : Text)
            → All
                (λ (s : Shelf). IsShelf s.key)
                (split_graphs key_of default (place (key_of n) n (fact_of q) ss) qs).1)
        → All
            (λ (s : Shelf). IsShelf s.key)
            (split_graphs key_of default ss (record q { graph_name = g } ∷ qs)).1
    next_quad GroundGraphName.default_graph unnamed named = unnamed
    next_quad (GroundGraphName.named_node n) unnamed named = named n
