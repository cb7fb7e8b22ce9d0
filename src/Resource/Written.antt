-- ===== src/Resource/Written.antt =====
-- What the update of `put_dataset` in src/resource.rs leaves in the store.

use quadpod.Prelude.{
  ◌≡◌, ◌≢◌, refl, sym, ◌∙◌, inl, inr, true, false, ◌||◌, List, [], ◌∷◌, ◌++◌, map, All, ◌==◌,
  nat_eq, list_eq, text_eq, Text, member, Bool-cases, arith,
}
use quadpod.Space.{ResourceUrl}
use quadpod.Shelf.{ShelfKey}
use quadpod.Store.{Fact, fact_eq}
use quadpod.Store.Laws.{View, has, mentions, effects}
use quadpod.Store.Effects.{without, effects-replace, member-append}
use quadpod.Resource.Graphs.{sys_graph_iri, present_fact}
use quadpod.Resource.Names.{IsData, IsShelf, ne_test, sys-ne-shelf, data-ne-sys, data-ne-shelf}
use quadpod.Resource.Datasets.{Shelf, dataset_update, media_type_fact, shelf_facts}

abbrev pub group : Shelf → Text × List Fact
group s = (s.key, s.facts)

abbrev pub registry : Text → Text → List Shelf → List Fact
registry iri mt ss = present_fact iri ∷ media_type_fact iri mt ∷ shelf_facts iri ss

-- The graph of the resource, its shelves and its system graph hold exactly what was written.
pub record IsWritten (v : View) (iri : Text) (d : List Fact) (ss : List Shelf) (mt : Text)
    : Type 0 where
  pub own : (f : Fact) → v iri f ≡ has f d
  pub shelved :
      (k : ShelfKey) (f : Fact)
      → member k (map (λ (s : Shelf). s.key) ss) ≡ true
      → v k f ≡ mentions (map group ss) k f
  pub system : (f : Fact) → v (sys_graph_iri iri) f ≡ has f (registry iri mt ss)

no_group :
    (ss : List Shelf) (h : Text) (f : Fact)
    → ((k : ShelfKey) → IsShelf k → k ≢ h)
    → All (λ (s : Shelf). IsShelf s.key) ss
    → mentions (map group ss) h f ≡ false
no_group [] h f apart a = refl
no_group (s ∷ ss) h f apart a =
    ground (arith, ne_test s.key h (apart s.key (a.0)), no_group ss h f apart (a.1))

pub member-IsShelf :
    (k : ShelfKey) (ss : List Shelf)
    → All (λ (s : Shelf). IsShelf s.key) ss
    → member k (map (λ (s : Shelf). s.key) ss) ≡ true
    → IsShelf k
unfolding member
member-IsShelf k [] a h = cc
member-IsShelf k (s ∷ ss) a h = elim (Bool-cases (s.key == k)) [
  | inl e ↦ rw (← (text_eq s.key k).0 e) (a.0)
  | inr e ↦ member-IsShelf k ss (a.1) (ground (arith, e, h))
]

pub dataset_update-IsWritten :
    (stem : Text) (u : ResourceUrl) (v : View) (old : List ShelfKey) (d : List Fact)
    (ss : List Shelf) (mt : Text)
    → IsData stem u
    → All (λ (s : Shelf). IsShelf s.key) ss
    → IsWritten (effects (dataset_update u.iri old d ss mt) v) u.iri d ss mt
unfolding dataset_update member
dataset_update-IsWritten stem u v old d ss mt own news = record {
  own = λ f.
      view u.iri f
      ∙ ground (
        arith,
        dropped_own u.iri (ground (arith, text_eq u.iri u.iri)),
        text_eq u.iri u.iri,
        no_group ss u.iri f (λ k i e. data-ne-shelf stem u own k i (sym e)) news,
        ne_test (sys_graph_iri u.iri) u.iri (λ e. data-ne-sys stem u own u.iri (sym e)),
      );
  shelved = λ k f h.
      let i = member-IsShelf k ss news h in
      view k f
      ∙ ground (
        arith,
        member-append k old (keys ++ own_graphs),
        member-append k keys own_graphs,
        h,
        ne_test u.iri k (data-ne-shelf stem u own k i),
        ne_test (sys_graph_iri u.iri) k (sys-ne-shelf u.iri k i),
      );
  system = λ f.
      view (sys_graph_iri u.iri) f
      ∙ ground (
        arith,
        dropped_own (sys_graph_iri u.iri)
            (ground (arith, text_eq (sys_graph_iri u.iri) (sys_graph_iri u.iri))),
        text_eq (sys_graph_iri u.iri) (sys_graph_iri u.iri),
        ne_test u.iri (sys_graph_iri u.iri) (data-ne-sys stem u own u.iri),
        no_group ss (sys_graph_iri u.iri) f (λ k i e. sys-ne-shelf u.iri k i (sym e)) news,
      );
}
  where
    keys : List ShelfKey
    keys = map (λ (s : Shelf). s.key) ss

    own_graphs : List Text
    own_graphs = u.iri ∷ sys_graph_iri u.iri ∷ []

    dropped_own :
        (h : Text)
        → (u.iri == h || sys_graph_iri u.iri == h) ≡ true
        → member h (old ++ (keys ++ own_graphs)) ≡ true
    dropped_own h e =
        ground (arith, member-append h old (keys ++ own_graphs), member-append h keys own_graphs, e)

    view :
        (h : Text) (f : Fact)
        → effects (dataset_update u.iri old d ss mt) v h f ≡ (
            (without (old ++ (keys ++ own_graphs)) v h f
              || mentions ((u.iri, d) ∷ map group ss) h f)
            || mentions ((sys_graph_iri u.iri, registry u.iri mt ss) ∷ []) h f)
    view h f =
        effects-replace (old ++ (keys ++ own_graphs)) ((u.iri, d) ∷ map group ss)
          ((sys_graph_iri u.iri, registry u.iri mt ss) ∷ []) v h f
