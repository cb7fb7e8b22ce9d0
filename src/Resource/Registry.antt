-- ===== src/Resource/Registry.antt =====
-- The registry that `put_dataset` of src/resource.rs writes: what it says of the shelves.
use mathlib.Core.List.{Memᴰ}
use quadpod.Prelude.{
  ◌≡◌, refl, sym, ◌∙◌, ap, inl, inr, true, false, List, [], ◌∷◌, ◌==◌, nat_eq, list_eq, list_beq,
  text_eq, Text, Bool-cases, arith,
}
use quadpod.Shelf.{sys_has_subgraph, sys_graph_name}
use quadpod.Store.{Fact, fact_eq}
use quadpod.Store.Laws.{has}
use quadpod.Store.Effects.{fact_eq_iff}
use quadpod.Resource.Graphs.{present_fact}
use quadpod.Resource.Datasets.{Shelf, media_type_fact, shelf_facts, subgraph_fact, name_fact}
use quadpod.Resource.Written.{registry}

-- Facts of different predicates differ.
other_predicate :
    (g f : Fact) (p : Text) → f.predicate ≡ p → (g.predicate == p) ≡ false → (g == f) ≡ false
other_predicate g f p e d = elim (Bool-cases (g == f)) [
  | inl s ↦
      let same : g.predicate ≡ p = ap (λ (h : Fact). h.predicate) ((fact_eq_iff g f).0 s) ∙ e in
      absurd (ground (arith, d, (text_eq g.predicate p).1 same))
  | inr s ↦ s
]

linked :
    (iri : Text) (ss : List Shelf) (f : Fact)
    → f.predicate ≡ sys_has_subgraph
    → has f (shelf_facts iri ss) ≡ true
    → (s : Shelf) × Memᴰ s ss × (subgraph_fact iri s.key ≡ f)
unfolding shelf_facts list_beq
linked iri [] f p h = cc
linked iri (s ∷ ss) f p h =
    let other = other_predicate (name_fact s.key s.name) f sys_has_subgraph p refl in
    elim (Bool-cases (subgraph_fact iri s.key == f)) [
      | inl e ↦ (s, Memᴰ.head refl, (fact_eq_iff (subgraph_fact iri s.key) f).0 e)
      | inr e ↦ let (t, m, q) = linked iri ss f p (ground arith) in (t, Memᴰ.tail m, q)
    ]

named :
    (iri : Text) (ss : List Shelf) (f : Fact)
    → f.predicate ≡ sys_graph_name
    → has f (shelf_facts iri ss) ≡ true
    → (s : Shelf) × Memᴰ s ss × (name_fact s.key s.name ≡ f)
unfolding shelf_facts list_beq
named iri [] f p h = cc
named iri (s ∷ ss) f p h =
    let other = other_predicate (subgraph_fact iri s.key) f sys_graph_name p refl in
    elim (Bool-cases (name_fact s.key s.name == f)) [
      | inl e ↦ (s, Memᴰ.head refl, (fact_eq_iff (name_fact s.key s.name) f).0 e)
      | inr e ↦ let (t, m, q) = named iri ss f p (ground arith) in (t, Memᴰ.tail m, q)
    ]

-- The registry links exactly the shelves, and names each.
pub registry-linked :
    (iri mt : Text) (ss : List Shelf) (f : Fact)
    → f.predicate ≡ sys_has_subgraph
    → has f (registry iri mt ss) ≡ true
    → (s : Shelf) × Memᴰ s ss × (subgraph_fact iri s.key ≡ f)
unfolding list_beq
registry-linked iri mt ss f p h = linked iri ss f p (
    ground (
      arith,
      h,
      other_predicate (present_fact iri) f sys_has_subgraph p refl,
      other_predicate (media_type_fact iri mt) f sys_has_subgraph p refl,
    ))

pub registry-named :
    (iri mt : Text) (ss : List Shelf) (f : Fact)
    → f.predicate ≡ sys_graph_name
    → has f (registry iri mt ss) ≡ true
    → (s : Shelf) × Memᴰ s ss × (name_fact s.key s.name ≡ f)
unfolding list_beq
registry-named iri mt ss f p h = named iri ss f p (
    ground (
      arith,
      h,
      other_predicate (present_fact iri) f sys_graph_name p refl,
      other_predicate (media_type_fact iri mt) f sys_graph_name p refl,
    ))

has-shelf_facts :
    (iri : Text) (s : Shelf) (ss : List Shelf)
    → Memᴰ s ss
    → (has (subgraph_fact iri s.key) (shelf_facts iri ss) ≡ true)
      × (has (name_fact s.key s.name) (shelf_facts iri ss) ≡ true)
unfolding shelf_facts
has-shelf_facts iri s [] m = elim m [ ]
has-shelf_facts iri s (t ∷ ss) (Memᴰ.head e) =
    let a =
      (fact_eq_iff (subgraph_fact iri t.key) (subgraph_fact iri s.key)).1
        (ap (λ (x : Shelf). subgraph_fact iri x.key) (sym e)) in
    let c =
      (fact_eq_iff (name_fact t.key t.name) (name_fact s.key s.name)).1
        (ap (λ (x : Shelf). name_fact x.key x.name) (sym e)) in
    (ground (arith, a), ground (arith, c))
has-shelf_facts iri s (t ∷ ss) (Memᴰ.tail m) =
    let r = has-shelf_facts iri s ss m in (ground (arith, r.0), ground (arith, r.1))

pub registry-has :
    (iri mt : Text) (s : Shelf) (ss : List Shelf)
    → Memᴰ s ss
    → (has (subgraph_fact iri s.key) (registry iri mt ss) ≡ true)
      × (has (name_fact s.key s.name) (registry iri mt ss) ≡ true)
registry-has iri mt s ss m =
    let r = has-shelf_facts iri s ss m in (ground (arith, r.0), ground (arith, r.1))
