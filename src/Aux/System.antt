-- ===== src/Aux/System.antt =====
-- What each update of src/resource.rs and src/aux.rs does to the system graphs, where presence and
-- the registry of shelves are kept.

use quadpod.Prelude.{
  ◌≡◌, ◌≢◌, refl, sym, ◌∙◌, ap, Bool, false, ◌&&◌, ◌||◌, List, [], ◌∷◌, ◌++◌, map, All,
  if◌then◌else◌, ◌==◌, nat_eq, list_eq, text_eq, Text, member, arith,
}
use quadpod.Space.{AuxKind, acl, ResourceUrl, aux_of, all_kinds}
use quadpod.Shelf.{ShelfKey}
use quadpod.Store.{Fact, fact_eq, Located, Operation, modify}
use quadpod.Store.Laws.{View, has, mentions, effect, effects}
use quadpod.Store.Effects.{without, effects-append, effects-drops, effects-replace, member-append}
use quadpod.Resource.Graphs.{sys_graph_iri, present_fact, marked, dropped}
use quadpod.Resource.Names.{
  IsData, IsShelf, ne_test, sys-injective, sys-ne-shelf, data-ne-sys, aux-ne-sys,
}
use quadpod.Resource.Datasets.{
  Shelf, dataset_update, blob_update, media_type_fact, binary_fact, shelf_facts,
}
use quadpod.Aux.{subject_present_guard, conditional_put_update, drop_auxiliaries, delete_update}

-- The system graph of each graph.
abbrev pub sys_of : View → View
sys_of v x f = v (sys_graph_iri x) f

abbrev pub present : View → Text → Bool
present v x = sys_of v x (present_fact x)

pub mentions_none :
    (gs : List (Text × List Fact)) (h : Text) (f : Fact)
    → All (λ (p : Text × List Fact). p.0 ≢ h) gs
    → mentions gs h f ≡ false
mentions_none [] h f a = refl
mentions_none ((g, fs) ∷ gs) h f a = ground (arith, ne_test g h (a.0), mentions_none gs h f (a.1))

pub shelves_apart :
    (ss : List Shelf) (x : Text)
    → All (λ (s : Shelf). IsShelf s.key) ss
    → All
        (λ (p : Text × List Fact). p.0 ≢ sys_graph_iri x)
        (map (λ (s : Shelf). (s.key, s.facts)) ss)
shelves_apart [] x a = tt
shelves_apart (s ∷ ss) x a = (λ e. sys-ne-shelf x s.key (a.0) (sym e), shelves_apart ss x (a.1))

pub no_shelf_is_sys :
    (ks : List ShelfKey) (x : Text) → All IsShelf ks → member (sys_graph_iri x) ks ≡ false
unfolding member
no_shelf_is_sys [] x a = refl
no_shelf_is_sys (k ∷ ks) x a = ground (
  arith,
  ne_test k (sys_graph_iri x) (λ e. sys-ne-shelf x k (a.0) (sym e)),
  no_shelf_is_sys ks x (a.1),
)

pub keys_are_shelves :
    (ss : List Shelf)
    → All (λ (s : Shelf). IsShelf s.key) ss
    → All IsShelf (map (λ (s : Shelf). s.key) ss)
keys_are_shelves [] a = tt
keys_are_shelves (s ∷ ss) a = (a.0, keys_are_shelves ss (a.1))

pub sys_test : (a x : Text) → (sys_graph_iri a == sys_graph_iri x) ≡ (a == x)
sys_test a x = ground (
  arith,
  text_eq (sys_graph_iri a) (sys_graph_iri x),
  text_eq a x,
  sys-injective a x,
  λ (e : a ≡ x). ap sys_graph_iri e,
)

module _ (stem : Text) (u : ResourceUrl) (d : IsData stem u) (v : View) (x : Text) (f : Fact) where
  own_names :
      (ks : List ShelfKey)
      → All IsShelf ks
      → member (sys_graph_iri x) (ks ++ u.iri ∷ sys_graph_iri u.iri ∷ []) ≡ (u.iri == x)
  unfolding member
  own_names ks a = ground (
    arith,
    member-append (sys_graph_iri x) ks (u.iri ∷ sys_graph_iri u.iri ∷ []),
    no_shelf_is_sys ks x a,
    ne_test u.iri (sys_graph_iri x) (data-ne-sys stem u d x),
    sys_test u.iri x,
  )

  pub dataset_update-sys :
      (old : List ShelfKey) (default : List Fact) (ss : List Shelf) (mt : Text)
      → All IsShelf old
      → All (λ (s : Shelf). IsShelf s.key) ss
      → sys_of (effects (dataset_update u.iri old default ss mt) v) x f ≡ (
          if u.iri == x
          then has f (present_fact u.iri ∷ media_type_fact u.iri mt ∷ shelf_facts u.iri ss)
          else sys_of v x f)
  unfolding dataset_update
  dataset_update-sys old default ss mt olds news =
      let keys : List ShelfKey = map (λ (s : Shelf). s.key) ss in
      let groups : List (Text × List Fact) = map (λ (s : Shelf). (s.key, s.facts)) ss in
      let own : List Text = u.iri ∷ sys_graph_iri u.iri ∷ [] in
      effects-replace (old ++ (keys ++ own)) ((u.iri, default) ∷ groups)
        ((sys_graph_iri u.iri, present_fact u.iri ∷ media_type_fact u.iri mt ∷ shelf_facts u.iri ss)
          ∷ [])
        v (sys_graph_iri x) f
      ∙ ground (
        arith,
        mentions_none ((u.iri, default) ∷ groups) (sys_graph_iri x) f
            (data-ne-sys stem u d x, shelves_apart ss x news),
        member-append (sys_graph_iri x) old (keys ++ own),
        no_shelf_is_sys old x olds,
        own_names keys (keys_are_shelves ss news),
        sys_test u.iri x,
      )

  pub blob_update-sys :
      (old : List ShelfKey) (mt : Text)
      → All IsShelf old
      → sys_of (effects (blob_update u.iri old mt) v) x f ≡ (
          if u.iri == x
          then has f (present_fact u.iri ∷ binary_fact u.iri ∷ media_type_fact u.iri mt ∷ [])
          else sys_of v x f)
  unfolding blob_update
  blob_update-sys old mt olds =
      ap (λ (w : View). w (sys_graph_iri x) f)
        (effects-drops (old ++ u.iri ∷ sys_graph_iri u.iri ∷ []) _ v)
      ∙ unfold effects in unfold effect in ground (arith, own_names old olds, sys_test u.iri x)

  pub marked-sys :
      (fs : List Fact)
      → sys_of (effects (marked u.iri fs) v) x f
        ≡ (sys_of v x f || (u.iri == x && present_fact u.iri == f))
  unfolding effects effect
  marked-sys fs =
      ground (arith, ne_test u.iri (sys_graph_iri x) (data-ne-sys stem u d x), sys_test u.iri x)

  pub delete_update-sys :
      (old : List ShelfKey) (unlink : List Operation)
      → All IsShelf old
      → ((w : View) → sys_of (effects unlink w) x f ≡ sys_of w x f)
      → sys_of (effects (delete_update u old unlink) v) x f
        ≡ (if u.iri == x || (aux_of u acl).iri == x then false else sys_of v x f)
  unfolding delete_update drop_auxiliaries
  delete_update-sys old unlink olds elsewhere =
      let own : List Text = old ++ u.iri ∷ sys_graph_iri u.iri ∷ [] in
      ap (λ (w : View). w (sys_graph_iri x) f)
        (effects-drops own (drop_auxiliaries u all_kinds ++ unlink) v)
      ∙ ap (λ (w : View). w (sys_graph_iri x) f)
          (effects-append (dropped (aux_of u acl).iri) unlink (without own v))
      ∙ elsewhere (effects (dropped (aux_of u acl).iri) (without own v))
      ∙ unfold effects in
        unfold effect in
        ground (
          arith,
          own_names old olds,
          ne_test (aux_of u acl).iri (sys_graph_iri x) (aux-ne-sys stem u acl d x),
          sys_test (aux_of u acl).iri x,
        )

  pub modify-sys :
      (g : Text) (ds is : List Fact) (guard : List Located)
      → g ≢ sys_graph_iri x
      → sys_of (effects (modify g ds is guard ∷ []) v) x f ≡ sys_of v x f
  unfolding effects effect
  modify-sys g ds is guard other = ground (arith, ne_test g (sys_graph_iri x) other)

  pub conditional_put_update-sys :
      (k : AuxKind) (body : List Fact)
      → sys_of (effects (conditional_put_update (aux_of u k) body) v) x f ≡ (
          sys_of v x f
          || (present v u.iri && ((aux_of u k).iri == x && present_fact (aux_of u k).iri == f)))
  unfolding conditional_put_update effects effect subject_present_guard aux_of
  conditional_put_update-sys k body = ground (
    arith,
    ne_test (aux_of u k).iri (sys_graph_iri x) (aux-ne-sys stem u k d x),
    ne_test (aux_of u k).iri (sys_graph_iri u.iri) (aux-ne-sys stem u k d u.iri),
    sys_test (aux_of u k).iri x,
  )

  pub dropped-sys :
      (k : AuxKind)
      → sys_of (effects (dropped (aux_of u k).iri) v) x f
        ≡ (if (aux_of u k).iri == x then false else sys_of v x f)
  unfolding effects effect
  dropped-sys k = ground (
    arith,
    ne_test (aux_of u k).iri (sys_graph_iri x) (aux-ne-sys stem u k d x),
    sys_test (aux_of u k).iri x,
  )
