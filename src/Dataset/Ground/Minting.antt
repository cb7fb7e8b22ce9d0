-- ===== src/Dataset/Ground/Minting.antt =====
-- The table of minted IRIs of `Skolemized::skolemize` of src/dataset.rs.
use mathlib.Core.List.{append_cancel_left}
use quadpod.Prelude.{
  ℕ, suc, ◌≡◌, ◌≤◌, ◌<◌, refl, ap, Bool, true, false, Option, none, some, [], ◌∷◌, ◌++◌,
  if◌then◌else◌, ◌==◌, nat_eq, list_eq, text_eq, Text, Map, get, insert, get-insert,
  strip_prefix-append, arith, Bool-cases, Option-cases, inl, inr,
}
use quadpod.Terms.{Term, NamedOrBlankNode, GraphName}
use quadpod.Dataset.Versions.{Quad, Dataset}
use quadpod.Dataset.Ground.{
  ground_node, ground_term, ground_graph, ground_quad, ground_quads, Minted, nothing_minted,
  skolem_prefix, minted_iri, label_of, blank_for, iri_for,
}

-- What is used of the random names: their labels are accepted, and no two of them are the same.
pub record FreshNames (fresh : ℕ → Text) (valid_label : Text → Bool) : Type 0 where
  pub valid : (n : ℕ) → valid_label (label_of valid_label (fresh n)) ≡ true
  pub distinct : (j k : ℕ) → label_of valid_label (fresh j) ≡ label_of valid_label (fresh k) → j ≡ k

insert_new : (k v : Text) (m : Map Text) → get k m ≡ none → insert k v m ≡ m ++ (k, v) ∷ []
unfolding get insert
insert_new k v [] h = refl
insert_new k v ((j, w) ∷ m) h = ground (arith, insert_new k v m)

module _ (fresh : ℕ → Text) (valid_label : Text → Bool) (names : FreshNames fresh valid_label) where
  -- The states that `skolemize` passes through.
  pub data IsMinted : Minted → Type 0 where
    start : IsMinted nothing_minted
    more :
        {m : Minted} (b : Text)
        → IsMinted m
        → get b m.table ≡ none
        → IsMinted
            (record { table = insert b (minted_iri fresh m.count) m.table; count = suc m.count })

  abbrev label : ℕ → Text
  label n = label_of valid_label (fresh n)

  pub blank_for-minted : (n : ℕ) → blank_for valid_label (minted_iri fresh n) ≡ some (label n)
  unfolding blank_for
  blank_for-minted n = ground (arith, strip_prefix-append skolem_prefix (fresh n), names.valid n)

  minted_injective : (j k : ℕ) → minted_iri fresh j ≡ minted_iri fresh k → j ≡ k
  minted_injective j k e =
      names.distinct j k (ap (label_of valid_label) (append_cancel_left skolem_prefix _ _ e))

  abbrev is_label : Text → Option Text → Bool
  is_label l none = false
  is_label l (some x) = x == l

  -- The blank node that a label stands for.
  unfoldable pub find_label : Map Text → Text → Option Text
  find_label [] l = none
  find_label ((b, iri) ∷ table) l =
      let rest = find_label table l in
      if is_label l (blank_for valid_label iri) then some b else rest

  find_label-append :
      (s : Map Text) (b iri l : Text)
      → find_label (s ++ (b, iri) ∷ []) l ≡ (elim (find_label s l) [
        | some x ↦ some x
        | none ↦ if is_label l (blank_for valid_label iri) then some b else none
      ])
  unfolding find_label
  find_label-append [] b iri l = refl
  find_label-append ((c, i) ∷ s) b iri l = ground (arith, find_label-append s b iri l)

  pub get-minted :
      {m : Minted} (b : Text) {iri : Text}
      → IsMinted m
      → get b m.table ≡ some iri
      → (k : ℕ) × (k < m.count) × (iri ≡ minted_iri fresh k)
  unfolding get
  get-minted b start h = cc
  get-minted b {iri} (more {m} c before new) h = elim (Bool-cases (c == b)) [
    | inl same ↦
        (m.count, omega arith, ground (arith, get-insert c b (minted_iri fresh m.count) m.table))
    | inr differ ↦
        let old : get b m.table ≡ some iri =
          ground (arith, get-insert c b (minted_iri fresh m.count) m.table) in
        let (k, low, e) = get-minted b before old in (k, omega (arith, low), e)
  ]

  find_label_later :
      {m : Minted} (k : ℕ) → IsMinted m → m.count ≤ k → find_label m.table (label k) ≡ none
  unfolding find_label
  find_label_later k start h = refl
  find_label_later k (more {m} c before new) h =
      let rest = find_label_later k before (omega arith) in
      elim (Bool-cases (label m.count == label k)) [
        | inl same ↦
            let equal : m.count ≡ k =
              names.distinct m.count k ((text_eq (label m.count) (label k)).0 same) in
            absurd (omega arith)
        | inr differ ↦ rw (insert_new c (minted_iri fresh m.count) m.table new) (
            ground (
              arith,
              find_label-append m.table c (minted_iri fresh m.count) (label k),
              rest,
              blank_for-minted m.count,
            ))
      ]

  pub find_label-get :
      {m : Minted} (b : Text) (k : ℕ)
      → IsMinted m
      → get b m.table ≡ some (minted_iri fresh k)
      → find_label m.table (label k) ≡ some b
  unfolding get
  find_label-get b k start h = cc
  find_label-get b k (more {m} c before new) h =
      let at = find_label-append m.table c (minted_iri fresh m.count) (label k) in
      let stored = get-insert c b (minted_iri fresh m.count) m.table in
      rw (insert_new c (minted_iri fresh m.count) m.table new) (elim (Bool-cases (c == b)) [
        | inl same ↦
            let own : c ≡ b = (text_eq c b).0 same in
            let iris : minted_iri fresh m.count ≡ minted_iri fresh k = ground arith in
            let number : m.count ≡ k = minted_injective m.count k iris in
            let none_before : find_label m.table (label k) ≡ none =
              find_label_later k before (omega arith) in
            let this : blank_for valid_label (minted_iri fresh m.count) ≡ some (label k) =
              rw number (blank_for-minted k) in
            ground (arith, at, text_eq (label k) (label k))
        | inr differ ↦
            let before_b = find_label-get b k before (ground arith) in ground (arith, at, before_b)
      ])

  -- What a later table keeps.
  pub record Extends (m m' : Minted) : Type 0 where
    pub keeps : (b : Text) {iri : Text} → get b m.table ≡ some iri → get b m'.table ≡ some iri

  pub Extends-refl : (m : Minted) → Extends m m
  Extends-refl m = record { keeps = λ b h. h }

  pub Extends-trans : {l m n : Minted} → Extends l m → Extends m n → Extends l n
  Extends-trans e f = record { keeps = λ b h. f.keeps b (e.keeps b h) }

  -- One IRI asked for: what is answered, and the table after it.
  pub record Asked (b : Text) (m : Minted) (out : Text × Minted) : Type 0 where
    pub extends : Extends m out.1
    pub minted : IsMinted out.1
    pub held : get b out.1.table ≡ some out.0

  pub iri_for-Asked : (b : Text) (m : Minted) → IsMinted m → Asked b m (iri_for fresh b m)
  iri_for-Asked b m h = elim (Option-cases (get b m.table)) [
    | inr (iri, e) ↦
        let out : iri_for fresh b m ≡ (iri, m) = unfold iri_for in ground arith in
        rw out (record { extends = Extends-refl m; minted = h; held = e })
    | inl e ↦
        let new_iri = minted_iri fresh m.count in
        let m' : Minted = record { table = insert b new_iri m.table; count = suc m.count } in
        let out : iri_for fresh b m ≡ (new_iri, m') = unfold iri_for in ground arith in
        rw out (record {
          extends = record {
            keeps = λ c f. ground (arith, get-insert b c new_iri m.table, text_eq b c);
          };
          minted = more b h e;
          held = ground (arith, get-insert b b new_iri m.table, text_eq b b);
        })
  ]

  -- A step of the table: nothing is lost, and the table stays one that `skolemize` makes.
  pub record Step (m m' : Minted) : Type 0 where
    pub extends : Extends m m'
    pub minted : IsMinted m'

  pub no_step : {m : Minted} → IsMinted m → Step m m
  no_step {m} h = record { extends = Extends-refl m; minted = h }

  pub ground_node-Step :
      (n : NamedOrBlankNode) {m : Minted} → IsMinted m → Step m (ground_node fresh n m).1
  unfolding ground_node
  ground_node-Step (NamedOrBlankNode.named_node n) h = no_step h
  ground_node-Step (NamedOrBlankNode.blank_node b) {m} h =
      let asked = iri_for-Asked b m h in record { extends = asked.extends; minted = asked.minted }

  pub ground_term-Step : (t : Term) {m : Minted} → IsMinted m → Step m (ground_term fresh t m).1
  unfolding ground_term
  ground_term-Step (Term.named_node n) h = no_step h
  ground_term-Step (Term.literal l) h = no_step h
  ground_term-Step (Term.blank_node b) {m} h =
      let asked = iri_for-Asked b m h in record { extends = asked.extends; minted = asked.minted }
  ground_term-Step (Term.triple s p o) h =
      let s1 = ground_node-Step s h in
      let s2 = ground_term-Step o s1.minted in
      record { extends = Extends-trans s1.extends s2.extends; minted = s2.minted }

  pub ground_graph-Step :
      (g : GraphName) {m : Minted} → IsMinted m → Step m (ground_graph fresh g m).1
  unfolding ground_graph
  ground_graph-Step GraphName.default_graph h = no_step h
  ground_graph-Step (GraphName.named_node n) h = no_step h
  ground_graph-Step (GraphName.blank_node b) {m} h =
      let asked = iri_for-Asked b m h in record { extends = asked.extends; minted = asked.minted }

  pub ground_quad-Step : (q : Quad) {m : Minted} → IsMinted m → Step m (ground_quad fresh q m).1
  unfolding ground_quad
  ground_quad-Step q h =
      let s1 = ground_node-Step q.subject h in
      let s2 = ground_term-Step q.object s1.minted in
      let s3 = ground_graph-Step q.graph_name s2.minted in
      record {
        extends = Extends-trans s1.extends (Extends-trans s2.extends s3.extends);
        minted = s3.minted;
      }

  pub ground_quads-Step :
      (d : Dataset) {m : Minted} → IsMinted m → Step m (ground_quads fresh d m).1
  unfolding ground_quads
  ground_quads-Step [] h = no_step h
  ground_quads-Step (q ∷ d) h =
      let s1 = ground_quad-Step q h in
      let s2 = ground_quads-Step d s1.minted in
      record { extends = Extends-trans s1.extends s2.extends; minted = s2.minted }
