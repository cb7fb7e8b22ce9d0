-- ===== src/Wac/Prp/Loaded.antt =====
-- What the map that `load_chain_acls` of src/wac/prp.rs answers holds.

use quadpod.Prelude.{
  ◌≡◌, refl, ap, sym, ◌∙◌, true, false, none, some, List, [], ◌∷◌, ◌++◌, append_assoc, append-nil,
  any, All, is_some, is_empty, if◌then◌else◌, ◌==◌, nat_eq, list_eq, text_eq, Text, Map, get,
  get-insert, member, Result, ok, arith, Bool-cases, Option-cases, inl, inr,
}
use quadpod.Terms.{Triple}
use quadpod.Space.{ResourceUrl}
use quadpod.Space.Minted.{InSpace}
use quadpod.Resource.{ResourceError}
use quadpod.Wac.Prp.Table.{
  IsEntry, entry_iff, get-IsEntry, get-seed, any_governed, govern-IsEntry, get-govern,
}
use quadpod.Wac.Prp.{
  Row, acl_iri, govern, seed, read_row, push_entry, add_row, add_rows, acl_query, load_chain_acls,
}

-- The triples of the rows of one graph, in their order.
unfoldable pub graph_triples : Text → List Row → List Triple
graph_triples a [] = []
graph_triples a (row ∷ rows) =
    let rest = graph_triples a rows in
    elim (read_row row) [ none ↦ rest | some (g, t) ↦ if g == a then t ∷ rest else rest ]

abbrev held_under : Text → Map (List Triple) → List Triple
held_under i out = elim (get i out) [ none ↦ [] | some ts ↦ ts ]

get-push_entry :
    (key i : Text) (t : Triple) (out : Map (List Triple))
    → get i (push_entry key t out)
      ≡ (if key == i then some (held_under i out ++ t ∷ []) else get i out)
unfolding push_entry
get-push_entry key i t out = elim (Bool-cases (key == i)) [
  | inl same ↦
      let at : key ≡ i = (text_eq key i).0 same in
      rw at (elim (Option-cases (get i out)) [
        | inl e ↦ ground (arith, get-insert i i (t ∷ []) out, text_eq i i)
        | inr (ts, e) ↦ ground (arith, get-insert i i (ts ++ t ∷ []) out, text_eq i i)
      ])
  | inr differ ↦ elim (Option-cases (get key out)) [
    | inl e ↦ ground (arith, get-insert key i (t ∷ []) out)
    | inr (ts, e) ↦ ground (arith, get-insert key i (ts ++ t ∷ []) out)
  ]
]

module _ (stem : Text) (m : Map Text) (entries : All (IsEntry stem) m) (r : ResourceUrl)
    (here : InSpace stem r) where
  -- What one row adds under `r`, if its graph is in the table.
  add_row_known :
      (row : Row) (out : Map (List Triple)) (ts : List Triple)
      → get (acl_iri r) m ≡ some r.iri
      → get r.iri out ≡ some ts
      → get r.iri (add_row m out row) ≡ some (ts ++ graph_triples (acl_iri r) (row ∷ []))
  unfolding add_row graph_triples
  add_row_known row out ts known held = elim (Option-cases (read_row row)) [
    | inl e ↦ ground (arith, append-nil ts)
    | inr ((g, t), e) ↦ elim (Option-cases (get g m)) [
      | inl f ↦ ground (arith, text_eq g (acl_iri r), append-nil ts)
      | inr (key, f) ↦
          let same = entry_iff stem r (g, key) here (get-IsEntry stem g m entries f) in
          ground (
            arith,
            same.0,
            same.1,
            text_eq g (acl_iri r),
            text_eq key r.iri,
            append-nil ts,
            get-push_entry key r.iri t out,
          )
    ]
  ]

  add_row_unknown :
      (row : Row) (out : Map (List Triple))
      → get (acl_iri r) m ≡ none
      → get r.iri out ≡ none
      → get r.iri (add_row m out row) ≡ none
  unfolding add_row
  add_row_unknown row out known held = elim (Option-cases (read_row row)) [
    | inl e ↦ ground arith
    | inr ((g, t), e) ↦ elim (Option-cases (get g m)) [
      | inl f ↦ ground arith
      | inr (key, f) ↦
          let same = entry_iff stem r (g, key) here (get-IsEntry stem g m entries f) in
          ground (arith, same.0, same.1, text_eq key r.iri, get-push_entry key r.iri t out)
    ]
  ]

  add_rows_known :
      (rows : List Row) (out : Map (List Triple)) (ts : List Triple)
      → get (acl_iri r) m ≡ some r.iri
      → get r.iri out ≡ some ts
      → get r.iri (add_rows m out rows) ≡ some (ts ++ graph_triples (acl_iri r) rows)
  unfolding add_rows graph_triples
  add_rows_known [] out ts known held = held ∙ ap some (sym (append-nil ts))
  add_rows_known (row ∷ rows) out ts known held =
      let step = add_row_known row out ts known held in
      let rest = add_rows_known rows (add_row m out row) _ known step in
      rest
      ∙ ap some (
          append_assoc ts (graph_triples (acl_iri r) (row ∷ [])) (graph_triples (acl_iri r) rows)
          ∙ ap (λ x. ts ++ x) (one_then row rows))
    where
      one_then :
          (row : Row) (rows : List Row)
          → graph_triples (acl_iri r) (row ∷ []) ++ graph_triples (acl_iri r) rows
            ≡ graph_triples (acl_iri r) (row ∷ rows)
      one_then row rows = ground arith

  add_rows_unknown :
      (rows : List Row) (out : Map (List Triple))
      → get (acl_iri r) m ≡ none
      → get r.iri out ≡ none
      → get r.iri (add_rows m out rows) ≡ none
  unfolding add_rows
  add_rows_unknown [] out known held = held
  add_rows_unknown (row ∷ rows) out known held =
      add_rows_unknown rows (add_row m out row) known (add_row_unknown row out known held)

  -- The map after the seed and the rows, for a table that has the ACL of `r` or not.
  get_after :
      (rows : List Row)
      → get r.iri (add_rows m (seed m) rows)
        ≡ (if is_some (get (acl_iri r) m) then some (graph_triples (acl_iri r) rows) else none)
  get_after rows =
      let seeded : get r.iri (seed m) ≡ (if is_some (get (acl_iri r) m) then some [] else none) =
        rw (get-seed stem r.iri m, any_governed stem r m here entries) refl in
      elim (Option-cases (get (acl_iri r) m)) [
        | inl e ↦ rw e (add_rows_unknown rows (seed m) e (rw e at seeded))
        | inr (i, e) ↦
            let value : i ≡ r.iri =
              (entry_iff stem r (acl_iri r, i) here (get-IsEntry stem (acl_iri r) m entries e)).0
                refl in
            rw e (add_rows_known rows (seed m) [] (rw value at e) (rw e at seeded))
      ]

get_of_is_empty : (k : Text) (m : Map Text) → is_empty m ≡ true → is_some (get k m) ≡ false
unfolding get
get_of_is_empty k [] h = refl
get_of_is_empty k (e ∷ m) h = cc

module _ (query_solutions : Text → Result ResourceError (List Row)) where
  -- In terms of the rows that the store answered.
  pub load_chain_acls_rows :
      (stem : Text) (chain : List ResourceUrl) (present : List Text) {rows : List Row}
      → All (InSpace stem) chain
      → query_solutions (acl_query (govern chain present ([], [])).1) ≡ ok rows
      → (r : ResourceUrl) → InSpace stem r
      → any (λ c. c.iri == r.iri) chain ≡ true
      → (acls : Map (List Triple)) × (load_chain_acls query_solutions chain present ≡ ok acls)
        × (get r.iri acls
            ≡ (if member (acl_iri r) present then some (graph_triples (acl_iri r) rows) else none))
  unfolding load_chain_acls
  load_chain_acls_rows stem chain present {rows} all_here answer r here in_chain =
      let m = (govern chain present ([], [])).0 in
      let entries = govern-IsEntry stem chain present [] [] all_here tt in
      let table : is_some (get (acl_iri r) m) ≡ member (acl_iri r) present =
        unfold get in
        ground (arith, get-govern stem r chain present [] [] here all_here, in_chain) in
      let after = get_after stem m entries r here in
      elim (Bool-cases (is_empty m)) [
        | inl empty ↦
            let absent : member (acl_iri r) present ≡ false =
              sym table ∙ get_of_is_empty (acl_iri r) m empty in
            (seed m, rw empty refl, unfold add_rows in ground (arith, after [], table, absent))
        | inr some_acl ↦
            (add_rows m (seed m) rows, rw (some_acl, answer) refl, rw (← table) (after rows))
      ]
