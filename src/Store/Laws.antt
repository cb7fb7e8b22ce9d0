-- ===== src/Store/Laws.antt =====
-- What SPARQL 1.1 documents of the updates and queries that the pod sends, what src/store.rs demands
-- of a store (a sequence of operations takes effect whole or not at all), and what src/blob.rs
-- demands of a blob store.
use mathlib.Core.List.{Memᴰ}
use quadpod.Prelude.{
  ◌≡◌, Bool, true, false, not, ◌&&◌, ◌||◌, Option, none, some, List, [], ◌∷◌, map, all, any,
  if◌then◌else◌, ◌==◌, nat_eq, list_eq, Text, ok, err,
}
use quadpod.Store.{
  Fact, fact_eq, triple_of, Located, Operation, drop_silent, insert_data, delete_data, clear_where,
  insert_where, modify, Query, everything, objects, Backend,
}

-- Which facts each graph holds.
abbrev pub View : Type 0
View = Text → Fact → Bool

abbrev pub has : Fact → List Fact → Bool
has f fs = any (λ g. g == f) fs

abbrev pub mentions : List (Text × List Fact) → View
mentions [] h f = false
mentions ((g, fs) ∷ gs) h f = (g == h && has f fs) || mentions gs h f

abbrev pub met : List Located → View → Bool
met guard v = all (λ (l : Located). v l.0 l.1) guard

unfoldable pub effect : Operation → View → View
effect (drop_silent g) v h f = if g == h then false else v h f
effect (insert_data gs) v h f = v h f || mentions gs h f
effect (delete_data g fs) v h f = v h f && not (g == h && has f fs)
effect (clear_where g guard) v h f = if g == h && met guard v then false else v h f
effect (insert_where gs guard) v h f = v h f || (met guard v && mentions gs h f)
effect (modify g deleted inserted guard) v h f =
    if g == h && (all (v g) deleted && met guard v)
    then (v h f && not (has f deleted)) || has f inserted
    else v h f

unfoldable pub effects : List Operation → View → View
effects [] v = v
effects (o ∷ os) v = effects os (effect o v)

abbrev pub Matches : Query → Fact → Type 0
Matches everything f = Unit {0}
Matches (objects s p) f = (f.subject ≡ s) × (f.predicate ≡ p)

-- What a query answers: the triples of facts, all those that are asked for and no other.
pub record Lists (v : Text → Fact → Bool) (g : Text) (q : Query) (fs : List Fact) : Type 0 where
  pub sound : (f : Fact) → Memᴰ f fs → (v g f ≡ true) × Matches q f
  pub complete : (f : Fact) → v g f ≡ true → Matches q f → Memᴰ f fs

pub record BackendLaws {W : Type 0} (b : Backend W) (holds : W → Text → Fact → Bool)
    (object : W → Text → Option Text) : Type 0 where
  pub updated :
      (os : List Operation) (w : W) (g : Text) (f : Fact)
      → (b.update os w).0 ≡ ok tt
      → holds (b.update os w).1 g f ≡ effects os (holds w) g f
  pub not_updated :
      (os : List Operation) (w : W) (e : Text) (g : Text) (f : Fact)
      → (b.update os w).0 ≡ err e
      → holds (b.update os w).1 g f ≡ holds w g f
  pub update_keeps_objects :
      (os : List Operation) (w : W) (k : Text) → object (b.update os w).1 k ≡ object w k
  pub asked :
      (g : Text) (fs : List Fact) (w : W) (a : Bool) → b.ask g fs w ≡ ok a → a ≡ all (holds w g) fs
  pub constructed :
      (g : Text) (q : Query) (w : W) (ts : List (quadpod.Terms.Triple))
      → b.construct g q w ≡ ok ts
      → (fs : List Fact) × (ts ≡ map triple_of fs) × Lists (holds w) g q fs
  pub blobs_keep_facts :
      (k bytes : Text) (w : W) (g : Text) (f : Fact)
      → holds (b.put_blob k bytes w).1 g f ≡ holds w g f
  pub deleting_keeps_facts :
      (k : Text) (w : W) (g : Text) (f : Fact) → holds (b.delete_blob k w).1 g f ≡ holds w g f
  pub stored :
      (k j bytes : Text) (w : W)
      → (b.put_blob k bytes w).0 ≡ ok tt
      → object (b.put_blob k bytes w).1 j ≡ (if k == j then some bytes else object w j)
  pub not_stored :
      (k j bytes e : Text) (w : W)
      → (b.put_blob k bytes w).0 ≡ err e
      → object (b.put_blob k bytes w).1 j ≡ object w j
  pub deleted :
      (k j : Text) (w : W)
      → (b.delete_blob k w).0 ≡ ok tt
      → object (b.delete_blob k w).1 j ≡ (if k == j then none else object w j)
  pub fetched : (k : Text) (w : W) (o : Option Text) → b.get_blob k w ≡ ok o → o ≡ object w k
