-- ===== src/Aux/Kept.antt =====
-- Well-formed stores and the updates that src/resource.rs and src/aux.rs send.

use quadpod.Prelude.{
  ◌≡◌, ◌≢◌, refl, sym, ◌∙◌, ap, inl, inr, true, false, List, [], ◌∷◌, All, some, ◌==◌, nat_eq,
  list_eq, list_beq, text_eq, Text, Bool-cases, arith,
}
use quadpod.Dataset.Ground.{GroundTerm}
use quadpod.Space.{acl, ResourceUrl, ContainerUrl, container_iri, aux_of, parent}
use quadpod.Space.Minted.{parent-InSpace}
use quadpod.Shelf.{sys_has_subgraph}
use quadpod.Store.{Fact, fact_eq, Operation, drop_silent, delete_data}
use quadpod.Store.Laws.{View, has, effects, effect}
use quadpod.Store.Effects.{fact_eq_iff}
use quadpod.Resource.Graphs.{sys_graph_iri, present_fact}
use quadpod.Resource.Names.{IsData, IsShelf, ne_test, data-ne-sys, aux-ne-sys}
use quadpod.Resource.Datasets.{
  Shelf, media_type_fact, binary_fact, shelf_facts, subgraph_fact, name_fact,
}
use quadpod.Aux.Subjects.{
  Sent, put_dataset, put_blob, insert_marked, put_rdf, patch_dataset, put_aux, patch_aux,
  delete_aux, delete_root, delete_member, IsShelfLink, WellFormed, replaced, marked_too, unchanged,
  aux_marked, aux_gone,
}
use quadpod.Aux.System.{
  dataset_update-sys, blob_update-sys, marked-sys, modify-sys, delete_update-sys,
  conditional_put_update-sys, dropped-sys,
}

-- A fact of another predicate is not a link to a shelf.
other_fact :
    (g f : Fact)
    → f.predicate ≡ sys_has_subgraph
    → (g.predicate == sys_has_subgraph) ≡ false
    → (g == f) ≡ false
other_fact g f p d = elim (Bool-cases (g == f)) [
  | inl e ↦
      let same : g.predicate ≡ sys_has_subgraph =
        ap (λ (h : Fact). h.predicate) ((fact_eq_iff g f).0 e) ∙ p in
      absurd (ground (arith, d, (text_eq g.predicate sys_has_subgraph).1 same))
  | inr e ↦ e
]

-- The facts that the registry of a dataset holds name no graph but a shelf.
shelf_facts-links :
    (iri : Text) (ss : List Shelf) (f : Fact)
    → All (λ (s : Shelf). IsShelf s.key) ss
    → has f (shelf_facts iri ss) ≡ true
    → f.predicate ≡ sys_has_subgraph
    → IsShelfLink f
unfolding shelf_facts list_beq
shelf_facts-links iri [] f a h p = absurd (ground arith)
shelf_facts-links iri (s ∷ ss) f a h p =
    let other = other_fact (name_fact s.key s.name) f p refl in
    elim (Bool-cases (subgraph_fact iri s.key == f)) [
      | inl e ↦
          let (n, k) = a.0 in
          (
            n,
            ap (λ (g : Fact). g.object) (sym ((fact_eq_iff (subgraph_fact iri s.key) f).0 e))
                ∙ ap GroundTerm.named_node k,
          )
      | inr e ↦ shelf_facts-links iri ss f (a.1) (ground arith) p
    ]

dataset_links :
    (iri mt : Text) (ss : List Shelf) (f : Fact)
    → All (λ (s : Shelf). IsShelf s.key) ss
    → has f (present_fact iri ∷ media_type_fact iri mt ∷ shelf_facts iri ss) ≡ true
    → f.predicate ≡ sys_has_subgraph
    → IsShelfLink f
unfolding list_beq
dataset_links iri mt ss f a h p =
    shelf_facts-links iri ss f a
      (ground (
        arith,
        other_fact (present_fact iri) f p refl,
        other_fact (media_type_fact iri mt) f p refl,
      ))
      p

blob_links :
    (iri mt : Text) (f : Fact)
    → has f (present_fact iri ∷ binary_fact iri ∷ media_type_fact iri mt ∷ []) ≡ true
    → f.predicate ≡ sys_has_subgraph
    → IsShelfLink f
unfolding list_beq
blob_links iri mt f h p = absurd (
    ground (
      arith,
      other_fact (present_fact iri) f p refl,
      other_fact (binary_fact iri) f p refl,
      other_fact (media_type_fact iri mt) f p refl,
    ))

parent-ne-sys :
    (stem : Text) (u : ResourceUrl) (p : ContainerUrl)
    → IsData stem u
    → parent u ≡ some p
    → (x : Text) → container_iri p ≢ sys_graph_iri x
unfolding sys_graph_iri
parent-ne-sys stem u p d e x same =
    let (t, h) = d.is_http in
    let i = parent-InSpace stem u d.in_space e in absurd (ground (arith, h, i, same))

-- Every update of the pod keeps a store well formed.
pub Sent-WellFormed :
    {stem : Text} {os : List Operation} (v : View)
    → Sent stem os
    → WellFormed stem v
    → WellFormed stem (effects os v)
Sent-WellFormed {stem} v (put_dataset u old default shelves mt d olds news) wf =
    replaced stem v _ wf u
      (present_fact u.iri ∷ media_type_fact u.iri mt ∷ shelf_facts u.iri shelves) d
      (ground (arith, fact_eq_iff (present_fact u.iri) (present_fact u.iri)))
      (λ f. dataset_links u.iri mt shelves f news)
      (λ x f. dataset_update-sys stem u d v x f old default shelves mt olds news)
Sent-WellFormed {stem} v (put_blob u old mt d olds) wf =
    replaced stem v _ wf u (present_fact u.iri ∷ binary_fact u.iri ∷ media_type_fact u.iri mt ∷ [])
      d (ground (arith, fact_eq_iff (present_fact u.iri) (present_fact u.iri)))
      (λ f. blob_links u.iri mt f) (λ x f. blob_update-sys stem u d v x f old mt olds)
Sent-WellFormed {stem} v (insert_marked u body d) wf =
    marked_too stem v _ wf u d (λ x f. marked-sys stem u d v x f body)
Sent-WellFormed {stem} v (put_rdf u body d) wf = marked_too stem v _ wf u d (λ x f.
    unfold effects in
    marked-sys stem u d (effect (drop_silent u.iri) v) x f body
    ∙ unfold effect in ground (arith, ne_test u.iri (sys_graph_iri x) (data-ne-sys stem u d x)))
Sent-WellFormed {stem} v (patch_dataset u ds is d) wf =
    unchanged stem v _ wf (λ x f. modify-sys stem u d v x f u.iri ds is [] (data-ne-sys stem u d x))
Sent-WellFormed {stem} v (put_aux u k body d) wf =
    aux_marked stem v _ wf u k d (λ x f. conditional_put_update-sys stem u d v x f k body)
Sent-WellFormed {stem} v (patch_aux u k ds is d) wf =
    unchanged stem v _ wf
      (λ x f. modify-sys stem u d v x f (aux_of u k).iri ds is _ (aux-ne-sys stem u k d x))
Sent-WellFormed {stem} v (delete_aux u k d) wf =
    aux_gone stem v _ wf u k false d (λ x f. dropped-sys stem u d v x f k)
Sent-WellFormed {stem} v (delete_root u old d olds) wf =
    aux_gone stem v _ wf u acl true d
      (λ x f. delete_update-sys stem u d v x f old [] olds (λ w. unfold effects in refl))
Sent-WellFormed {stem} v (delete_member u p old links d above olds) wf =
    aux_gone stem v _ wf u acl true d (λ x f.
      delete_update-sys stem u d v x f old (delete_data (container_iri p) links ∷ []) olds (λ w.
        unfold effects in
        unfold effect in
        ground
          (arith, ne_test (container_iri p) (sys_graph_iri x) (parent-ne-sys stem u p d above x))))
