-- ===== src/Aux/Dropping.antt =====
-- What the update of `delete_subject` of src/aux.rs drops.
use mathlib.Core.Path.{fun_ext}
use mathlib.Core.List.{Memᴰ}
use quadpod.Prelude.{
  ◌≡◌, ◌≢◌, ◌⊎◌, refl, sym, ◌∙◌, ap, inl, inr, Bool, true, false, none, some, List, [], ◌∷◌, ◌++◌,
  ◌==◌, nat_eq, list_eq, text_eq, Text, ok, member, Bool-cases, Option-cases, arith,
}
use quadpod.Space.{acl, ResourceUrl, ContainerUrl, container_iri, aux_of, parent, all_kinds}
use quadpod.Shelf.{ShelfKey}
use quadpod.Store.{Fact, fact_eq, Operation, delete_data}
use quadpod.Store.Laws.{View, effect, effects}
use quadpod.Store.Effects.{without, effects-drops, effects-append, member-append, fact_eq_iff}
use quadpod.Container.Members.{containment_removal, member_fact}
use quadpod.Resource.Graphs.{sys_graph_iri, dropped}
use quadpod.Aux.{delete_update, drop_auxiliaries, unlink_from}

abbrev pub own_graphs : ResourceUrl → List Text
own_graphs u =
    u.iri ∷ sys_graph_iri u.iri ∷ (aux_of u acl).iri ∷ sys_graph_iri (aux_of u acl).iri ∷ []

-- What an update that unlinks from the parent does to a view.
abbrev pub Unlinks : ResourceUrl → List Operation → Type 0
Unlinks u unlink =
    ((parent u ≡ none) × (unlink ≡ []))
    ⊎ ((p : ContainerUrl) × (parent u ≡ some p)
        × (unlink ≡ delete_data (container_iri p) (member_fact p u.iri ∷ []) ∷ []))

pub unlink_from-Unlinks :
    (valid_iri : Text → Bool) (u : ResourceUrl) (unlink : List Operation)
    → unlink_from valid_iri u ≡ ok unlink
    → Unlinks u unlink
unfolding unlink_from containment_removal
unlink_from-Unlinks valid_iri u unlink h = elim (Option-cases (parent u)) [
  | inl e ↦ inl (e, ground (arith, e, h))
  | inr (p, e) ↦ inr (p, e, ground (arith, e, h))
]

pub deleted_view :
    (u : ResourceUrl) (old : List ShelfKey) (unlink : List Operation) (v : View)
    → effects (delete_update u old unlink) v ≡ effects unlink (without (old ++ own_graphs u) v)
unfolding delete_update drop_auxiliaries
deleted_view u old unlink v =
    effects-drops (old ++ u.iri ∷ sys_graph_iri u.iri ∷ []) (drop_auxiliaries u all_kinds ++ unlink)
      v
    ∙ effects-append (dropped (aux_of u acl).iri) unlink
        (without (old ++ u.iri ∷ sys_graph_iri u.iri ∷ []) v)
    ∙ ap (effects unlink) (
        fun_ext λ g. fun_ext λ f.
          unfold effects in
          unfold effect in
          unfold member in
          ground (
            arith,
            member-append g old (u.iri ∷ sys_graph_iri u.iri ∷ []),
            member-append g old (own_graphs u),
          ))

-- Whether the update drops a graph.
abbrev pub drops : ResourceUrl → List ShelfKey → Text → Bool
drops u old g = member g (old ++ own_graphs u)

pub stays_gone :
    (u : ResourceUrl) (unlink : List Operation) (v : View) (g : Text) (f : Fact)
    → Unlinks u unlink
    → v g f ≡ false
    → effects unlink v g f ≡ false
unfolding effects effect
stays_gone u unlink v g f (inl (_, e)) h = rw e h
stays_gone u unlink v g f (inr (p, _, e)) h = rw e (ground (arith, h))

pub Mem_of_member : (g : Text) (gs : List Text) → member g gs ≡ true → Memᴰ g gs
unfolding member
Mem_of_member g [] h = cc
Mem_of_member g (k ∷ gs) h = elim (Bool-cases (k == g)) [
  | inl e ↦ Memᴰ.head (sym ((text_eq k g).0 e))
  | inr e ↦ Memᴰ.tail (Mem_of_member g gs (ground (arith, e, h)))
]

pub member_of_Mem : (g : Text) (gs : List Text) → Memᴰ g gs → member g gs ≡ true
unfolding member
member_of_Mem g [] m = elim m [ ]
member_of_Mem g (k ∷ gs) (Memᴰ.head e) = ground (arith, (text_eq k g).1 (sym e))
member_of_Mem g (k ∷ gs) (Memᴰ.tail m) = ground (arith, member_of_Mem g gs m)

abbrev pub NotUnlinked : ResourceUrl → Text → Fact → Type 0
NotUnlinked u g f =
    (p : ContainerUrl) → parent u ≡ some p → (g ≡ container_iri p) → f ≢ member_fact p u.iri

pub member_unlinked :
    (u : ResourceUrl) (unlink : List Operation) (v : View) (p : ContainerUrl)
    → Unlinks u unlink
    → parent u ≡ some p
    → effects unlink v (container_iri p) (member_fact p u.iri) ≡ false
unfolding effects effect
member_unlinked u unlink v p (inl (none_e, e)) some_e = absurd (ground (arith, none_e, some_e))
member_unlinked u unlink v p (inr (q, some_q, e)) some_e =
    let same : q ≡ p = ground (arith, some_q, some_e) in
    rw e (
      rw same (
        ground (
          arith,
          (text_eq (container_iri p) (container_iri p)).1 refl,
          (fact_eq_iff (member_fact p u.iri) (member_fact p u.iri)).1 refl,
        )))

pub unlink_keeps :
    (u : ResourceUrl) (unlink : List Operation) (v : View) (g : Text) (f : Fact)
    → Unlinks u unlink
    → NotUnlinked u g f
    → effects unlink v g f ≡ v g f
unfolding effects effect
unlink_keeps u unlink v g f (inl (_, e)) h = rw e refl
unlink_keeps u unlink v g f (inr (p, some_p, e)) h =
    rw e (elim (Bool-cases (container_iri p == g)) [
      | inr c ↦ ground (arith, c)
      | inl c ↦ elim (Bool-cases (member_fact p u.iri == f)) [
        | inr d ↦ ground (arith, d)
        | inl d ↦ absurd (
            h p some_p (sym ((text_eq (container_iri p) g).0 c))
              (sym ((fact_eq_iff (member_fact p u.iri) f).0 d)))
      ]
    ])
