-- ===== src/Patch/Document.antt =====
-- `Patch::parse` of src/patch.rs and what is read off a parsed patch.
use quadpod.Prelude.{
  Bool, false, not, ◌&&◌, ◌||◌, Option, none, some, List, [], ◌∷◌, ◌++◌, any, length, is_empty,
  if◌then◌else◌, ◌==◌, nat_eq, list_eq, Text, codes, Result, ok, err, ◌>>=◌,
}
use quadpod.Terms.{N3Term, N3Quad, GraphName, Term, Triple, NamedOrBlankNode, n3_eq, graph_eq}
use quadpod.Patch.{
  PatchError, syntax, shape, PatternTerm, named, literal, var, Pattern, RequiredModes, Patch,
  Binding, patterns, insert_delete_patch, solid_where, solid_deletes, solid_inserts, rdf_type,
}

abbrev is_named : N3Term → Text → Bool
is_named (N3Term.named_node n) iri = n == iri
is_named _ iri = false

abbrev is_default : GraphName → Bool
is_default g = g == GraphName.default_graph

unfoldable pub is_type_triple : N3Quad → Bool
is_type_triple q =
    is_default q.graph_name
    && is_named q.predicate rdf_type
    && is_named q.object insert_delete_patch

-- The loop of `patch_subject`: every typed subject once, in the order of the document.
unfoldable pub typed_subjects : List N3Term → List N3Quad → List N3Term
unfolding is_type_triple
typed_subjects found [] = found
typed_subjects found (q ∷ qs) =
    typed_subjects
      (if is_type_triple q && not (any (λ t. t == q.subject) found)
        then found ++ q.subject ∷ []
        else found)
      qs

unfoldable pub patch_subject : List N3Quad → Result PatchError N3Term
patch_subject quads = elim (typed_subjects [] quads) [
  | [] ↦ err (shape (codes "no solid:InsertDeletePatch resource"))
  | one ∷ [] ↦ ok one
  | one ∷ two ∷ more ↦ err (shape (codes "more than one solid:InsertDeletePatch resource"))
]

unfoldable pub names_a_formula : List N3Quad → Text → Bool
names_a_formula quads b = any (λ q. q.graph_name == GraphName.blank_node b) quads

-- The objects that the patch resource has under one formula predicate.
unfoldable pub formula_objects : List N3Quad → N3Term → Text → List N3Term
formula_objects [] subject predicate = []
formula_objects (q ∷ qs) subject predicate =
    let rest = formula_objects qs subject predicate in
    if is_default q.graph_name && q.subject == subject && is_named q.predicate predicate
    then q.object ∷ rest
    else rest

abbrev not_a_formula : Text
not_a_formula = codes "a formula predicate whose object is not a formula"

unfoldable pub the_formula : List N3Quad → N3Term → Result PatchError (Option Text)
the_formula quads (N3Term.blank_node b) =
    if names_a_formula quads b then ok (some b) else err (shape not_a_formula)
the_formula quads _ = err (shape not_a_formula)

unfoldable pub formula : List N3Quad → N3Term → Text → Result PatchError (Option Text)
formula quads subject predicate = elim (formula_objects quads subject predicate) [
  | [] ↦ ok none
  | one ∷ [] ↦ the_formula quads one
  | one ∷ two ∷ more ↦ err (shape (codes "more than one of a formula predicate"))
]

-- `Patch::parse` after the N3 parser.
unfoldable pub parse_quads : List N3Quad → Result PatchError Patch
parse_quads quads = do
  subject ← patch_subject quads
  conditions_formula ← formula quads subject solid_where
  deletions_formula ← formula quads subject solid_deletes
  insertions_formula ← formula quads subject solid_inserts
  c ← patterns quads conditions_formula Binding.bind []
  d ← patterns quads deletions_formula Binding.lookup c.1
  i ← patterns quads insertions_formula Binding.lookup d.1
  ok (record { conditions = c.0; deletions = d.0; insertions = i.0; variables = length i.1 })

-- `read_n3 body base` is the N3 parser's quads, or its first error as text.
module _ (read_n3 : Text → Text → Result Text (List N3Quad)) where
  unfoldable pub parse : Text → Text → Result PatchError Patch
  parse body base = elim (read_n3 body base) [
    | err message ↦ err (syntax message)
    | ok quads ↦ parse_quads quads
  ]

unfoldable pub required_modes : Patch → RequiredModes
required_modes p = record {
  read = not (is_empty p.conditions) || not (is_empty p.deletions);
  append = not (is_empty p.insertions);
  write = not (is_empty p.deletions);
}

unfoldable pub ground_object : PatternTerm → Option Term
ground_object (named n) = some (Term.named_node n)
ground_object (literal l) = some (Term.literal l)
ground_object (var i) = none

unfoldable pub ground_pattern : PatternTerm → PatternTerm → PatternTerm → Option Triple
unfolding ground_object
ground_pattern (named s) (named p) o = elim (ground_object o) [
  | some t ↦ some (record { subject = NamedOrBlankNode.named_node s; predicate = p; object = t })
  | none ↦ none
]
ground_pattern _ _ o = none

unfoldable pub ground_patterns : List Pattern → Option (List Triple)
ground_patterns [] = some []
ground_patterns (p ∷ ps) = elim (ground_pattern p.subject p.predicate p.object) [
  | none ↦ none
  | some t ↦ elim (ground_patterns ps) [ none ↦ none | some ts ↦ some (t ∷ ts) ]
]

unfoldable pub ground_insertions : Patch → Option (List Triple)
ground_insertions p = if not (is_empty p.conditions) then none else ground_patterns p.insertions
