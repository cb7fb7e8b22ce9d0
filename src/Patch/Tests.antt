-- ===== src/Patch/Tests.antt =====
-- Runs of the definitions of src/patch.rs, and its theorems at concrete inputs.
use native.Mathlib.Decide.{ℕ_discrete}
use quadpod.Prelude.{◌≡◌, refl, List, [], ◌∷◌, Text, codes, ok, list_beq}
use quadpod.Dataset.{is_reserved_iri, get_prefix, eq_ignore_ascii_case, to_ascii_lowercase}
use quadpod.Terms.{N3Term, N3Quad, GraphName, default_graph, N3Term-discrete, GraphName-discrete}
use quadpod.Patch.{
  Patch, Pattern, named, var, term, non_literal, pattern_of, patterns_in, patterns, fresh_or_known,
  known_var, rdf_type, insert_delete_patch, solid_where, solid_deletes, solid_inserts,
}
use quadpod.Patch.Names
use quadpod.Patch.Document.{
  parse_quads, patch_subject, typed_subjects, is_type_triple, names_a_formula, formula_objects,
  the_formula, formula, required_modes, ground_insertions, ground_patterns, ground_pattern,
  ground_object,
}
use quadpod.Patch.Shape.{IsShapeValid, parse_quads-IsShapeValid}

patch_runs : Unit {0}
unfolding parse_quads patch_subject typed_subjects is_type_triple names_a_formula formula_objects
    the_formula formula required_modes ground_insertions ground_patterns ground_pattern
    ground_object term non_literal pattern_of patterns_in patterns fresh_or_known known_var
    Names.bind Names.lookup is_reserved_iri get_prefix eq_ignore_ascii_case to_ascii_lowercase
    list_beq N3Term-discrete GraphName-discrete ℕ_discrete
patch_runs = tt

abbrev quad : N3Term → N3Term → N3Term → GraphName → N3Quad
quad s p o g = record { subject = s; predicate = p; object = o; graph_name = g }

abbrev node : Text → N3Term
node n = N3Term.named_node n

abbrev this : N3Term
this = node (codes "#patch")

abbrev stated : Text → N3Term → N3Quad
stated p o = quad this (node p) o default_graph

abbrev inside : Text → N3Term → Text → N3Term → N3Quad
inside f s p o = quad s (node p) o (GraphName.blank_node f)

abbrev x : N3Term
x = N3Term.variable (codes "x")

-- Where ?x knows c: delete that, insert that ?x likes c.
abbrev document : List N3Quad
document =
    stated rdf_type (node insert_delete_patch)
    ∷ stated solid_where (N3Term.blank_node (codes "w"))
    ∷ stated solid_deletes (N3Term.blank_node (codes "d"))
    ∷ stated solid_inserts (N3Term.blank_node (codes "i"))
    ∷ inside (codes "w") x (codes "knows") (node (codes "c"))
    ∷ inside (codes "d") x (codes "knows") (node (codes "c"))
    ∷ inside (codes "i") x (codes "likes") (node (codes "c"))
    ∷ []

abbrev knows : Pattern
knows = record { subject = var 0; predicate = named (codes "knows"); object = named (codes "c") }

abbrev likes : Pattern
likes = record { subject = var 0; predicate = named (codes "likes"); object = named (codes "c") }

abbrev patch : Patch
patch = record {
  conditions = knows ∷ [];
  deletions = knows ∷ [];
  insertions = likes ∷ [];
  variables = 1;
}

document_run : parse_quads document ≡ ok patch
unfolding patch_runs
document_run = refl

parse_quads-IsShapeValid_example : IsShapeValid patch
parse_quads-IsShapeValid_example = parse_quads-IsShapeValid document document_run

-- An insertion alone.
abbrev creation : N3Term → List N3Quad
creation s =
    stated rdf_type (node insert_delete_patch)
    ∷ stated solid_inserts (N3Term.blank_node (codes "i"))
    ∷ inside (codes "i") s (codes "likes") (node (codes "c"))
    ∷ []

abbrev created : Patch
created = record {
  conditions = [];
  deletions = [];
  insertions =
      record {
        subject = named (codes "a");
        predicate = named (codes "likes");
        object = named (codes "c");
      }
      ∷ [];
  variables = 0;
}
