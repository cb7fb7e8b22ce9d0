-- ===== src/Aux/Runs.antt =====
-- The writes of src/resource.rs and src/aux.rs as runs of single updates, which other requests may
-- interleave with theirs.
use mathlib.Core.Path.{fun_ext, subst}
use mathlib.Core.List.{Memᴰ}
use quadpod.Prelude.{
  ◌≡◌, refl, sym, inl, inr, Bool, true, false, Option, List, [], ◌∷◌, map, All, if◌then◌else◌,
  nat_eq, list_eq, Text, Result, ok, Result-cases, arith,
}
use quadpod.Dataset.Ground.{term_of}
use quadpod.Space.{ResourceUrl}
use quadpod.Shelf.{ShelfKey, sys_has_subgraph}
use quadpod.Store.{
  Fact, triple_of, Operation, objects, Backend, Action, ◌>>=◌, lift, wrap_write, wrap_read,
}
use quadpod.Store.Laws.{View, effects, BackendLaws}
use quadpod.Resource.Graphs.{sys_graph_iri}
use quadpod.Resource.Names.{IsShelf}
use quadpod.Resource.Datasets.{Crates, named_objects, registered_shelves}
use quadpod.Aux.Subjects.{Sent, WellFormed, IsShelfLink}
use quadpod.Aux.Kept.{Sent-WellFormed}

module _ {W : Type 0} (b : Backend W) (stem : Text) where
  -- One critical section of a store: an update of the pod, or bytes that are put or deleted.
  pub data Step : W → W → Type 0 where
    sends : (os : List Operation) (w : W) → Sent stem os → Step w (b.update os w).1
    puts_bytes : (k bytes : Text) (w : W) → Step w (b.put_blob k bytes w).1
    deletes_bytes : (k : Text) (w : W) → Step w (b.delete_blob k w).1

  pub data Reachable (w : W) : W → Type 0 where
    here : Reachable w w
    next : {x y : W} → Reachable w x → Step x y → Reachable w y

  pub Reachable-trans : {w x y : W} → Reachable w x → Reachable x y → Reachable w y
  Reachable-trans r here = r
  Reachable-trans r (next s st) = next (Reachable-trans r s) st

module _ {W : Type 0} (b : Backend W) (holds : W → Text → Fact → Bool)
    (object : W → Text → Option Text) (laws : BackendLaws b holds object) (stem : Text) where
  same_view :
      (v v' : View)
      → ((g : Text) (f : Fact) → v' g f ≡ v g f)
      → WellFormed stem v
      → WellFormed stem v'
  same_view v v' e wf = subst (WellFormed stem) (sym (fun_ext λ g. fun_ext λ f. e g f)) wf

  Step-WellFormed :
      {w w' : W} → Step b stem w w' → WellFormed stem (holds w) → WellFormed stem (holds w')
  Step-WellFormed (sends os w s) wf = elim (Result-cases (b.update os w).0) [
    | inl (done, e) ↦
        same_view (effects os (holds w)) _ (λ g f. laws.updated os w g f (ground (arith, e)))
          (Sent-WellFormed (holds w) s wf)
    | inr (msg, e) ↦ same_view (holds w) _ (λ g f. laws.not_updated os w msg g f e) wf
  ]
  Step-WellFormed (puts_bytes k bytes w) wf =
      same_view (holds w) _ (λ g f. laws.blobs_keep_facts k bytes w g f) wf
  Step-WellFormed (deletes_bytes k w) wf =
      same_view (holds w) _ (λ g f. laws.deleting_keeps_facts k w g f) wf

  -- Whatever updates of the code, and bytes put or deleted, are interleaved, a well-formed store
  -- stays well formed: an auxiliary
  -- that is present has a subject that is present, and the registries list only shelves.
  pub Reachable-WellFormed :
      {w w' : W} → WellFormed stem (holds w) → Reachable b stem w w' → WellFormed stem (holds w')
  Reachable-WellFormed wf here = wf
  Reachable-WellFormed wf (next r s) = Step-WellFormed s (Reachable-WellFormed wf r)

  -- `m` does nothing but such updates, from a well-formed store on.
  pub record Leads {E A : Type 0} (m : Action W E A) : Type 0 where
    pub at : (w : W) → WellFormed stem (holds w) → Reachable b stem w (m w).1

module _ {W : Type 0} {b : Backend W} {holds : W → Text → Fact → Bool}
    {object : W → Text → Option Text} {laws : BackendLaws b holds object} {stem : Text} where
  pub Leads-read :
      {E E' A : Type 0} (wrap : E → E') (m : W → Result E A)
      → Leads b holds object laws stem (wrap_read wrap m)
  unfolding wrap_read
  Leads-read wrap m = record { at = λ w wf. here }

  pub Leads-wrap :
      {E E' A : Type 0} (wrap : E → E') (m : Action W E A)
      → Leads b holds object laws stem m
      → Leads b holds object laws stem (wrap_write wrap m)
  unfolding wrap_write
  Leads-wrap wrap m l = record { at = λ w wf. l.at w wf }

  pub Leads-lift : {E A : Type 0} (r : Result E A) → Leads b holds object laws stem (lift r)
  unfolding lift
  Leads-lift r = record { at = λ w wf. here }

  pub Leads-update :
      (os : List Operation) → Sent stem os → Leads b holds object laws stem (b.update os)
  Leads-update os s = record { at = λ w wf. next here (sends os w s) }

  pub Leads-put_blob : (k bytes : Text) → Leads b holds object laws stem (b.put_blob k bytes)
  Leads-put_blob k bytes = record { at = λ w wf. next here (puts_bytes k bytes w) }

  pub Leads-delete_blob : (k : Text) → Leads b holds object laws stem (b.delete_blob k)
  Leads-delete_blob k = record { at = λ w wf. next here (deletes_bytes k w) }

  -- The rest of a block may use what the first action answered, in a well-formed store.
  pub Leads-bind_ok :
      {E A B : Type 0} (m : Action W E A) (f : A → Action W E B)
      → Leads b holds object laws stem m
      → ((a : A) (w : W)
          → WellFormed stem (holds w)
          → (m w).0 ≡ ok a
          → Leads b holds object laws stem (f a))
      → Leads b holds object laws stem (m >>= f)
  unfolding ◌>>=◌
  Leads-bind_ok m f l k = record {
    at = λ w wf. elim (Result-cases (m w).0) [
      | inl (a, e) ↦
          let last : ((m >>= f) w).1 ≡ (f a (m w).1).1 = rw (e, ◌>>=◌) in
          let later =
            (k a w wf e).at (m w).1
              (Reachable-WellFormed b holds object laws stem wf (l.at w wf)) in
          subst (Reachable b stem w) (sym last) (Reachable-trans b stem (l.at w wf) later)
      | inr (x, e) ↦
          let last : ((m >>= f) w).1 ≡ (m w).1 = rw (e, ◌>>=◌) in
          subst (Reachable b stem w) (sym last) (l.at w wf)
    ];
  }

  pub Leads-bind :
      {E A B : Type 0} (m : Action W E A) (f : A → Action W E B)
      → Leads b holds object laws stem m
      → ((a : A) → Leads b holds object laws stem (f a))
      → Leads b holds object laws stem (m >>= f)
  Leads-bind m f l k = Leads-bind_ok m f l (λ a w wf e. k a)

  pub Leads-if :
      {E A : Type 0} (c : Bool) (m n : Action W E A)
      → Leads b holds object laws stem m
      → Leads b holds object laws stem n
      → Leads b holds object laws stem (if c then m else n)
  Leads-if true m n l k = l
  Leads-if false m n l k = k

pub ruleset leads_rules =
    (Leads-read, Leads-wrap, Leads-lift, Leads-put_blob, Leads-delete_blob, Leads-bind, Leads-if)

named_objects-IsShelf :
    (gs : List Fact)
    → ((f : Fact) → Memᴰ f gs → IsShelfLink f)
    → All IsShelf (named_objects (map triple_of gs))
unfolding named_objects triple_of term_of
named_objects-IsShelf [] links = tt
named_objects-IsShelf (f ∷ gs) links =
    let (n, e) = links f (Memᴰ.head refl) in
    let rest = named_objects-IsShelf gs (λ g m. links g (Memᴰ.tail m)) in rw e ((n, refl), rest)

module _ {HeaderValue W : Type 0} (crates : Crates HeaderValue) (b : Backend W)
    (holds : W → Text → Fact → Bool) (object : W → Text → Option Text)
    (laws : BackendLaws b holds object) (stem : Text) where
  pub registered_shelves-IsShelf :
      (r : ResourceUrl) (w : W) {old : List ShelfKey}
      → WellFormed stem (holds w)
      → (registered_shelves crates b r w).0 ≡ ok old
      → All IsShelf old
  unfolding registered_shelves ◌>>=◌ wrap_read lift
  registered_shelves-IsShelf r w {old} wf h =
      elim (Result-cases (b.construct (sys_graph_iri r.iri) (objects r.iri sys_has_subgraph) w)) [
        | inr (x, e) ↦ absurd (ground (arith, e))
        | inl (ts, e) ↦
            let (fs, listed, lists) = laws.constructed _ _ w ts e in
            let same : old ≡ named_objects (map triple_of fs) = ground (arith, e, listed) in
            rw same (
              named_objects-IsShelf fs (λ f m.
                let (held, matched) = lists.sound f m in wf.registered r.iri f held (matched.1)))
      ]
