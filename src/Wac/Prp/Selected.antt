-- ===== src/Wac/Prp/Selected.antt =====
-- What `load_chain_acls` of src/wac/prp.rs loads from a store that answers its query as SPARQL says.
use mathlib.Core.List.{Memᴰ}
use mathlib.Core.List.Memᴰ
use quadpod.Prelude.{
  ◌≡◌, ◌↔◌, ◌⊎◌, inl, inr, refl, ap, sym, ◌∙◌, Bool, true, false, none, some, List, [], ◌∷◌, ◌++◌,
  append_assoc, append-nil, any, All, if◌then◌else◌, ◌==◌, nat_eq, list_eq, text_eq, Text, codes,
  Map, get, insert, member, Result, ok, arith, Bool-cases, Option-cases,
}
use quadpod.Terms.{NamedOrBlankNode, Term, Triple}
use quadpod.Space.{ResourceUrl}
use quadpod.Space.Minted.{InSpace}
use quadpod.Resource.{ResourceError}
use quadpod.Wac.Prp.Table.{own-IsEntry, entry_iff}
use quadpod.Wac.Prp.Loaded.{graph_triples, load_chain_acls_rows}
use quadpod.Wac.Prp.{Row, acl_iri, govern, node_of, read_row, acl_query, load_chain_acls}

abbrev pub values_text : List Text → Text
values_text [] = []
values_text (g ∷ gs) = codes "<" ++ (g ++ (codes "> " ++ values_text gs))

-- The query for the triples of some graphs.
abbrev pub select_text : List Text → Text
select_text gs =
    codes "SELECT ?g ?s ?p ?o WHERE { VALUES ?g { "
    ++ (values_text gs ++ codes " } GRAPH ?g { ?s ?p ?o } }")

abbrev pub subject_term : NamedOrBlankNode → Term
subject_term (NamedOrBlankNode.named_node n) = Term.named_node n
subject_term (NamedOrBlankNode.blank_node n) = Term.blank_node n

abbrev pub row_of : Text → Triple → Row
row_of g t = record {
  g = some (Term.named_node g);
  s = some (subject_term t.subject);
  p = some (Term.named_node t.predicate);
  o = some t.object;
}

-- A store that holds triples in graphs answers the query with a row for each triple of the graphs
-- named, and with rows for triples that it holds only.
pub record SelectLaws (query_solutions : Text → Result ResourceError (List Row))
    (holds : Text → Triple → Bool) : Type 0 where
  pub sound :
      (gs : List Text) {rows : List Row}
      → query_solutions (select_text gs) ≡ ok rows
      → (row : Row) → Memᴰ row rows
      → (g : Text) × (t : Triple) × (row ≡ row_of g t) × (holds g t ≡ true)
  pub complete :
      (gs : List Text) {rows : List Row}
      → query_solutions (select_text gs) ≡ ok rows
      → (g : Text) (t : Triple) → Memᴰ g gs
      → holds g t ≡ true
      → Memᴰ (row_of g t) rows

-- A list of the triples of a graph, in some order and each once or more.
abbrev pub AreTriples : (Text → Triple → Bool) → Text → List Triple → Type 0
AreTriples holds g ts = (t : Triple) → Memᴰ t ts ↔ (holds g t ≡ true)

read_row-parts :
    (g : Text) (s : NamedOrBlankNode) (p : Text) (o : Term)
    → read_row (row_of g (record { subject = s; predicate = p; object = o }))
      ≡ some (g, record { subject = s; predicate = p; object = o })
unfolding read_row node_of
read_row-parts g (NamedOrBlankNode.named_node n) p o = refl
read_row-parts g (NamedOrBlankNode.blank_node n) p o = refl

read_row-row_of : (g : Text) (t : Triple) → read_row (row_of g t) ≡ some (g, t)
read_row-row_of g t = read_row-parts g t.subject t.predicate t.object

graph_triples-Mem :
    (a : Text) (rows : List Row) (t : Triple)
    → Memᴰ t (graph_triples a rows)
    → (row : Row) × Memᴰ row rows × (read_row row ≡ some (a, t))
unfolding graph_triples
graph_triples-Mem a [] t m = elim m [ ]
graph_triples-Mem a (row ∷ rows) t m = elim (Option-cases (read_row row)) [
  | inl e ↦
      let (r, mr, er) = graph_triples-Mem a rows t (rw (e, graph_triples) at m) in
      (r, Memᴰ.tail mr, er)
  | inr ((g, u), e) ↦ elim (Bool-cases (g == a)) [
    | inr other ↦
        let (r, mr, er) = graph_triples-Mem a rows t (rw (e, other, graph_triples) at m) in
        (r, Memᴰ.tail mr, er)
    | inl same ↦ elim (Memᴰ.cases_cons (rw (e, same, graph_triples) at m)) [
      | inl here ↦
          let graph : g ≡ a = (text_eq g a).0 same in (row, Memᴰ.head refl, cc (e, graph, here))
      | inr later ↦ let (r, mr, er) = graph_triples-Mem a rows t later in (r, Memᴰ.tail mr, er)
    ]
  ]
]

Mem-graph_triples :
    (a : Text) (rows : List Row) (t : Triple)
    → Memᴰ (row_of a t) rows
    → Memᴰ t (graph_triples a rows)
unfolding graph_triples
Mem-graph_triples a (row ∷ rows) t (Memᴰ.head e) =
    let own : (a == a) ≡ true = (text_eq a a).1 refl in
    rw (sym e, graph_triples, read_row-row_of a t, own) (Memᴰ.head refl)
Mem-graph_triples a (row ∷ rows) t (Memᴰ.tail m) =
    let rest = Mem-graph_triples a rows t m in
    elim (Option-cases (read_row row)) [
      | inl e ↦ rw (e, graph_triples) rest
      | inr ((g, u), e) ↦ elim (Bool-cases (g == a)) [
        | inl same ↦ rw (e, same, graph_triples) (Memᴰ.tail rest)
        | inr other ↦ rw (e, other, graph_triples) rest
      ]
    ]
Mem-graph_triples a [] t m = elim m [ ]

-- The graphs that the query names.
unfoldable pub present_acls : List ResourceUrl → List Text → List Text
present_acls [] present = []
present_acls (r ∷ chain) present =
    let rest = present_acls chain present in
    if member (acl_iri r) present then acl_iri r ∷ rest else rest

pub govern-values :
    (chain : List ResourceUrl) (present : List Text) (m : Map Text) (values : Text)
    → (govern chain present (m, values)).1 ≡ values ++ values_text (present_acls chain present)
unfolding govern present_acls
govern-values [] present m values = sym (append-nil values)
govern-values (r ∷ chain) present m values = elim (Bool-cases (member (acl_iri r) present)) [
  | inr skipped ↦ rw skipped (govern-values chain present m values)
  | inl taken ↦
      let one = codes "<" ++ (acl_iri r ++ codes "> ") in
      let rest = values_text (present_acls chain present) in
      rw taken (
        govern-values chain present (insert (acl_iri r) r.iri m) (values ++ one)
        ∙ append_assoc values one rest
        ∙ ap (λ x. values ++ (codes "<" ++ x)) (append_assoc (acl_iri r) (codes "> ") rest))
]

Mem-present_acls :
    (stem : Text) (chain : List ResourceUrl) (present : List Text) (r : ResourceUrl)
    → All (InSpace stem) chain
    → InSpace stem r
    → any (λ c. c.iri == r.iri) chain ≡ true
    → member (acl_iri r) present ≡ true
    → Memᴰ (acl_iri r) (present_acls chain present)
unfolding present_acls
Mem-present_acls stem [] present r all_here here listed there = absurd (ground (arith, listed))
Mem-present_acls stem (x ∷ chain) present r all_here here listed there =
    elim (Bool-cases (x.iri == r.iri)) [
      | inl same ↦
          let iri : x.iri ≡ r.iri = (text_eq x.iri r.iri).0 same in
          let own : acl_iri x ≡ acl_iri r =
            (entry_iff stem r (acl_iri x, x.iri) here (own-IsEntry stem x (all_here.0))).1 iri in
          let taken : member (acl_iri x) present ≡ true = rw own there in
          rw taken (Memᴰ.head (sym own))
      | inr differ ↦
          let rest =
            Mem-present_acls stem chain present r (all_here.1) here (ground (arith, listed, differ))
              there in
          elim (Bool-cases (member (acl_iri x) present)) [
            | inl taken ↦ rw taken (Memᴰ.tail rest)
            | inr skipped ↦ rw skipped rest
          ]
    ]

module _ (query_solutions : Text → Result ResourceError (List Row)) (holds : Text → Triple → Bool)
    (laws : SelectLaws query_solutions holds) where
  pub graph_triples-AreTriples :
      (gs : List Text) {rows : List Row}
      → query_solutions (select_text gs) ≡ ok rows
      → (a : Text) → Memᴰ a gs
      → AreTriples holds a (graph_triples a rows)
  graph_triples-AreTriples gs {rows} answer a named t = (only, every)
    where
      only : Memᴰ t (graph_triples a rows) → holds a t ≡ true
      only m =
          let (row, mr, read) = graph_triples-Mem a rows t m in
          let (g, u, made, held) = laws.sound gs answer row mr in
          let same : some (g, u) ≡ some (a, t) =
            sym (read_row-row_of g u) ∙ ap read_row (sym made) ∙ read in
          let graph : g ≡ a = cc same in let triple : u ≡ t = cc same in rw (← graph, ← triple) held

      every : holds a t ≡ true → Memᴰ t (graph_triples a rows)
      every held = Mem-graph_triples a rows t (laws.complete gs answer a t named held)

  module _ (stem : Text) (chain : List ResourceUrl) (present : List Text) {rows : List Row}
      (all_here : All (InSpace stem) chain)
      (answer : query_solutions (select_text (present_acls chain present)) ≡ ok rows) where
    pub loads_answer : query_solutions (acl_query (govern chain present ([], [])).1) ≡ ok rows
    loads_answer = rw (govern-values chain present [] []) answer

    pub present-AreTriples :
        (r : ResourceUrl)
        → InSpace stem r
        → any (λ c. c.iri == r.iri) chain ≡ true
        → member (acl_iri r) present ≡ true
        → AreTriples holds (acl_iri r) (graph_triples (acl_iri r) rows)
    present-AreTriples r here listed there =
        graph_triples-AreTriples (present_acls chain present) answer (acl_iri r)
          (Mem-present_acls stem chain present r all_here here listed there)

    -- For a chain of one space and a store that answers queries as SPARQL says: once it answers the
    -- query for the triples of the present ACLs of the chain, a map is loaded that has, for each
    -- element of the chain whose ACL is present, a list of the triples that the store holds in that
    -- ACL's graph and of no others, and that has nothing for an element without a present ACL.
    pub load_chain_acls_lem :
        (r : ResourceUrl)
        → InSpace stem r
        → any (λ c. c.iri == r.iri) chain ≡ true
        → (acls : Map (List Triple)) × (load_chain_acls query_solutions chain present ≡ ok acls)
          × (((member (acl_iri r) present ≡ true)
                × ((ts : List Triple) × (get r.iri acls ≡ some ts)
                    × AreTriples holds (acl_iri r) ts))
              ⊎ ((member (acl_iri r) present ≡ false) × (get r.iri acls ≡ none)))
    load_chain_acls_lem r here listed =
        let (acls, loaded, found) =
          load_chain_acls_rows query_solutions stem chain present all_here loads_answer r here
            listed in
        (
          acls,
          loaded,
          elim (Bool-cases (member (acl_iri r) present)) [
            | inl there ↦ inl (
              there,
              (
                graph_triples (acl_iri r) rows,
                rw there at found,
                present-AreTriples r here listed there,
              ),
            )
            | inr absent ↦ inr (absent, rw absent at found)
          ],
        )
