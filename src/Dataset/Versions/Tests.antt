-- ===== src/Dataset/Versions/Tests.antt =====
-- Runs of the projections of src/dataset.rs, and their theorems at concrete inputs.
use quadpod.Prelude.{◌≡◌, ◌↔◌, refl, Bool, true, none, some, Option, [], ◌∷◌, all, leb, Text, codes}
use quadpod.Terms.{Literal, rtl, Term, NamedOrBlankNode, default_graph}
use quadpod.Rdf.{rdf11, rdf12_basic, rdf12, rank}
use quadpod.Dataset.Versions.{
  Quad, Dataset, scan_version, rdf_version, undirected, project_object, project_quads, project_to,
}
use quadpod.Dataset.Versions.Projection.{
  expressible, IsProjection, lang_string, TaggedLiterals, rdf_version_iff, project_to_lem,
}

-- What the definitions call, for runs.
version_runs : Unit {0}
unfolding scan_version rdf_version undirected project_object project_quads project_to
version_runs = tt

-- A library that tags every literal, whatever the tag.
abbrev tag_literal : Text → Text → Option Literal
tag_literal value language =
    some
      (record { value = value; datatype = lang_string; language = some language; direction = none })

abbrev every_tag : Text → Bool
every_tag t = true

tag_literal-TaggedLiterals : TaggedLiterals tag_literal every_tag
tag_literal-TaggedLiterals = record {
  total = λ v l h. (_, refl);
  made = λ v l t h. (cc h, cc h, cc h, cc h);
}

abbrev directed : Literal
directed = record {
  value = codes "shalom";
  datatype = codes "rdf:dirLangString";
  language = some (codes "he");
  direction = some rtl;
}

abbrev quad_of : Term → Quad
quad_of o = record {
  subject = NamedOrBlankNode.named_node (codes "s");
  predicate = codes "p";
  object = o;
  graph_name = default_graph;
}

abbrev statement : Term
statement =
    Term.triple (NamedOrBlankNode.named_node (codes "s")) (codes "p") (Term.literal directed)

abbrev mixed : Dataset
mixed =
    quad_of (Term.literal directed) ∷ quad_of statement ∷ quad_of (Term.named_node (codes "o")) ∷ []

version_tests :
    (rdf_version mixed ≡ rdf12)
    × (rdf_version (quad_of (Term.literal directed) ∷ []) ≡ rdf12_basic)
    × (project_to tag_literal mixed rdf12_basic
        ≡ some (quad_of (Term.literal directed) ∷ quad_of (Term.named_node (codes "o")) ∷ []))
unfolding version_runs
version_tests = (refl, refl, refl)

rdf_version_iff_example :
    (leb (rank (rdf_version mixed)) (rank rdf12) ≡ true)
    ↔ (all (λ q. expressible rdf12 q.object) mixed ≡ true)
rdf_version_iff_example = rdf_version_iff mixed rdf12

project_to_lem_example :
    (d' : Dataset) × (project_to tag_literal mixed rdf11 ≡ some d')
    × (leb (rank (rdf_version d')) (rank rdf11) ≡ true)
    × IsProjection rdf11 mixed d'
    × (project_to tag_literal d' rdf11 ≡ some d')
project_to_lem_example =
    project_to_lem tag_literal every_tag tag_literal-TaggedLiterals rdf11 mixed refl
