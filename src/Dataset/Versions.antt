-- ===== src/Dataset/Versions.antt =====
-- src/dataset.rs: the RDF version of a dataset, and the dataset as a version can express it.
pub mod Projection
mod Tests
use quadpod.Prelude.{
  ℕ, Bool, true, false, not, ◌&&◌, ◌||◌, Option, none, some, List, [], ◌∷◌, any, if◌then◌else◌,
  is_some, leb, ltb, ◌==◌, nat_eq, list_eq, Text,
}
use quadpod.Terms.{Literal, Term, NamedOrBlankNode, GraphName, default_graph, graph_eq}
use quadpod.Rdf.{RdfVersion, rdf11, rdf12_basic, rdf12, rank}

-- `oxigraph::model::Quad`
pub record Quad : Type 0 where
  pub subject : NamedOrBlankNode
  pub predicate : Text
  pub object : Term
  pub graph_name : GraphName

abbrev pub Dataset : Type 0
Dataset = List Quad

-- The version one object needs; `none` where the loop continues.
abbrev pub needed : Term → Option RdfVersion
needed (Term.triple s p o) = some rdf12
needed (Term.literal l) = if is_some l.direction then some rdf12_basic else none
needed _ = none

abbrev pub max : RdfVersion → RdfVersion → RdfVersion
max a b = if leb (rank a) (rank b) then b else a

abbrev pub is_rdf12 : RdfVersion → Bool
is_rdf12 rdf12 = true
is_rdf12 _ = false

-- The loop of `rdf_version`, which stops at the last version.
unfoldable pub scan_version : RdfVersion → Dataset → RdfVersion
scan_version found [] = found
scan_version found (q ∷ qs) = elim (needed q.object) [
  | none ↦ scan_version found qs
  | some here ↦
      let rest = scan_version (max found here) qs in
      if is_rdf12 (max found here) then max found here else rest
]

unfoldable pub rdf_version : Dataset → RdfVersion
rdf_version d = scan_version rdf11 d

abbrev pub is_triple_term : Term → Bool
is_triple_term (Term.triple s p o) = true
is_triple_term _ = false

-- `new_language_tagged_literal` is the constructor of the RDF library; `none` stands for the panic
-- of an `expect`.
module _ (new_language_tagged_literal : Text → Text → Option Literal) where
  unfoldable pub undirected : Literal → Option Term
  undirected l = elim l.language [
    | none ↦ none
    | some language ↦ elim (new_language_tagged_literal l.value language) [
      | none ↦ none
      | some made ↦ some (Term.literal made)
    ]
  ]

  unfoldable pub project_object : RdfVersion → Term → Option Term
  project_object target (Term.literal l) =
      if ltb (rank target) (rank rdf12_basic) && is_some l.direction
      then undirected l
      else some (Term.literal l)
  project_object target other = some other

  -- The closure of the filter, over the quads.
  unfoldable pub project_quads : RdfVersion → Dataset → Option Dataset
  project_quads target [] = some []
  project_quads target (q ∷ qs) =
      let rest = project_quads target qs in
      if ltb (rank target) (rank rdf12) && is_triple_term q.object
      then rest
      else elim (project_object target q.object) [
        | none ↦ none
        | some object ↦ elim rest [
          | none ↦ none
          | some projected ↦ some (record q { object = object } ∷ projected)
        ]
      ]

  unfoldable pub project_to : Dataset → RdfVersion → Option Dataset
  project_to d target =
      if leb (rank (rdf_version d)) (rank target) then some d else project_quads target d

unfoldable pub has_named_graphs : Dataset → Bool
has_named_graphs d = any (λ q. not (q.graph_name == default_graph)) d
