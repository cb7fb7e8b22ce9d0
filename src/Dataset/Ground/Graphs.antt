-- ===== src/Dataset/Ground/Graphs.antt =====
-- Which graphs a dataset names, before and after src/dataset.rs makes it ground.
use native.Mathlib.Decide.{ℕ_discrete}
use quadpod.Prelude.{
  ◌⊎◌, inl, inr, ℕ, ◌≡◌, refl, ap, ◌∙◌, true, false, not, ◌&&◌, List, [], ◌∷◌, ◌++◌, map, any,
  is_empty, ◌==◌, nat_eq, Text, member, arith,
}
use quadpod.Terms.{Term, NamedOrBlankNode, GraphName, GraphName-discrete, graph_eq}
use quadpod.Dataset.Versions.{Quad, Dataset, has_named_graphs}
use quadpod.Dataset.Ground.{
  GroundGraphName, Skolemized, Minted, nothing_minted, ground_term, ground_node, ground_graph,
  ground_quad, ground_quads, skolemize, collect_ground_graphs, stored_named_graphs,
  stored_has_named_graphs, is_named, reserved_object, uses_reserved_namespace,
}

is_empty-append : (seen : List Text) (n : Text) → is_empty (seen ++ n ∷ []) ≡ false
is_empty-append [] n = refl
is_empty-append (x ∷ seen) n = refl

graph_cases :
    (g : GroundGraphName)
    → (g ≡ GroundGraphName.default_graph) ⊎ ((n : Text) × (g ≡ GroundGraphName.named_node n))
graph_cases GroundGraphName.default_graph = inl refl
graph_cases (GroundGraphName.named_node n) = inr (n, refl)

member_nonempty : (n : Text) (seen : List Text) → member n seen ≡ true → is_empty seen ≡ false
unfolding member
member_nonempty n [] h = cc
member_nonempty n (x ∷ seen) h = refl

is_empty-collect :
    (seen : List Text) (s : Skolemized)
    → is_empty (collect_ground_graphs seen s)
      ≡ (is_empty seen && not (any (λ q. is_named q.graph_name) s))
unfolding collect_ground_graphs
is_empty-collect [] [] = refl
is_empty-collect (n ∷ seen) [] = refl
is_empty-collect seen (q ∷ s) = elim (graph_cases q.graph_name) [
  | inl e ↦ ground (arith, is_empty-collect seen s)
  | inr (n, e) ↦ ground (
    arith,
    is_empty-collect seen s,
    is_empty-collect (seen ++ n ∷ []) s,
    is_empty-append seen n,
    member_nonempty n seen,
  )
]

module _ (fresh : ℕ → Text) where
  is_named-ground_graph :
      (g : GraphName) (m : Minted)
      → is_named (ground_graph fresh g m).0 ≡ not (g == GraphName.default_graph)
  unfolding ground_graph GraphName-discrete ℕ_discrete
  is_named-ground_graph GraphName.default_graph m = refl
  is_named-ground_graph (GraphName.named_node n) m = refl
  is_named-ground_graph (GraphName.blank_node b) m = refl

  any-ground_quads :
      (d : Dataset) (m : Minted)
      → any (λ q. is_named q.graph_name) (ground_quads fresh d m).0
        ≡ any (λ q. not (q.graph_name == GraphName.default_graph)) d
  unfolding ground_quads ground_quad
  any-ground_quads [] m = refl
  any-ground_quads (q ∷ d) m =
      let m1 = (ground_quad fresh q m).1 in
      let m2 = (ground_term fresh q.object (ground_node fresh q.subject m).1).1 in
      let here = is_named-ground_graph q.graph_name m2 in rw (here, any-ground_quads d m1) refl

  -- A dataset is stored with named graphs exactly when it has a quad outside the default graph, a
  -- graph that a blank node names included; and the list of the stored graphs agrees.
  skolemize_graphs :
      (d : Dataset)
      → (stored_has_named_graphs (skolemize fresh d) ≡ has_named_graphs d)
        × (is_empty (stored_named_graphs (skolemize fresh d)) ≡ not (has_named_graphs d))
  unfolding stored_has_named_graphs stored_named_graphs skolemize has_named_graphs
  skolemize_graphs d =
      let all = any-ground_quads d nothing_minted in
      (all, is_empty-collect [] (ground_quads fresh d nothing_minted).0 ∙ ap not all)

-- An object whose triple term, if it is one, is replaced by another.
abbrev pub replace_triple : Term → Term → Term
replace_triple other (Term.triple s p o) = other
replace_triple other t = t

abbrev pub replace_triples : Term → Quad → Quad
replace_triples other q = record q { object = replace_triple other q.object }

-- No triple term is looked into: replacing each of them by any one triple term of one's own changes
-- nothing, so a reserved IRI inside a triple term is not refused.
uses_reserved_namespace-triples :
    (d : Dataset) (s : NamedOrBlankNode) (p : Text) (o : Term)
    → uses_reserved_namespace (map (replace_triples (Term.triple s p o)) d)
      ≡ uses_reserved_namespace d
unfolding uses_reserved_namespace
uses_reserved_namespace-triples [] s p o = refl
uses_reserved_namespace-triples (q ∷ d) s p o =
    ground (arith, object_same q.object, uses_reserved_namespace-triples d s p o)
  where
    object_same :
        (t : Term) → reserved_object (replace_triple (Term.triple s p o) t) ≡ reserved_object t
    object_same (Term.triple s' p' o') = refl
    object_same (Term.named_node n) = refl
    object_same (Term.blank_node b) = refl
    object_same (Term.literal l) = refl
