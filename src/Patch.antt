-- ===== src/Patch.antt =====
-- src/patch.rs: the N3 Patch document, its shape check and the modes it needs.
-- The N3 parser (oxttl) is the parameter `read_n3` of `parse`.
pub mod Names
pub mod Document
pub mod Ground
pub mod Shape
pub mod Steps
mod Tests
use Names.{Renumber}
use quadpod.Dataset.{is_reserved_iri}
use quadpod.Prelude.{
  ℕ, Bool, true, false, not, ◌&&◌, ◌||◌, Option, none, some, List, [], ◌∷◌, ◌++◌, map, any, length,
  is_empty, is_some, if◌then◌else◌, ◌==◌, nat_eq, list_eq, Text, codes, starts_with, Result, ok,
  err, ◌>>=◌ as ◌>>=ʳ◌,
}
use quadpod.Terms.{
  Literal, N3Term, N3Quad, GraphName, Term, Triple, NamedOrBlankNode, n3_eq, graph_eq,
  default_graph,
}
use quadpod.Terms
use quadpod.Wac.{AccessModes, Mode, read, write, append, allows}

pub data PatchError : Type 0 where
  syntax shape : Text → PatchError
  reserved rdf12_term : PatchError

pub data PatternTerm : Type 0 where
  named : Text → PatternTerm
  literal : Literal → PatternTerm
  var : ℕ → PatternTerm

pub record Pattern : Type 0 where
  pub subject : PatternTerm
  pub predicate : PatternTerm
  pub object : PatternTerm

pub record RequiredModes : Type 0 where
  pub read : Bool
  pub append : Bool
  pub write : Bool

unfoldable pub satisfied_by : RequiredModes → AccessModes → Bool
unfolding allows
satisfied_by r held =
    (not r.read || allows held read)
    && (not r.append || allows held append)
    && (not r.write || allows held write)

pub record Patch : Type 0 where
  pub conditions : List Pattern
  pub deletions : List Pattern
  pub insertions : List Pattern
  pub variables : ℕ

abbrev insert_delete_patch : Text
insert_delete_patch = codes "http://www.w3.org/ns/solid/terms#InsertDeletePatch"

abbrev solid_where : Text
solid_where = codes "http://www.w3.org/ns/solid/terms#where"

abbrev solid_deletes : Text
solid_deletes = codes "http://www.w3.org/ns/solid/terms#deletes"

abbrev solid_inserts : Text
solid_inserts = codes "http://www.w3.org/ns/solid/terms#inserts"

abbrev rdf_type : Text
rdf_type = codes "http://www.w3.org/1999/02/22-rdf-syntax-ns#type"

-- `&mut Renumber` and `?`.
abbrev pub Naming : Type 0 → Type 0
Naming A = Renumber → Result PatchError (A × Renumber)

infixl 5 ◌>>=◌
abbrev pub ◌>>=◌ : {A B : Type 0} → Naming A → (A → Naming B) → Naming B
◌>>=◌ m f names = elim (m names) [ ok (a, names') ↦ f a names' | err e ↦ err e ]

abbrev pub give : {A : Type 0} → A → Naming A
give a names = ok (a, names)

abbrev refuse : {A : Type 0} → PatchError → Naming A
refuse e names = err e

pub data Binding : Type 0 where
  bind lookup : Binding

fresh_or_known : Text → Naming PatternTerm
fresh_or_known name names = let (i, names') = Names.bind name names in ok (var i, names')

known_var : Text → Naming PatternTerm
known_var name names = elim (Names.lookup name names) [
  | some i ↦ ok (var i, names)
  | none ↦ err (shape (codes "a variable no condition binds"))
]

abbrev blank_key : Text → Text
blank_key b = codes "_:" ++ b

pub term : N3Term → Binding → Naming PatternTerm
term (N3Term.named_node n) binding = if is_reserved_iri n then refuse reserved else give (named n)
term (N3Term.literal l) binding =
    if is_some l.direction then refuse rdf12_term else give (literal l)
term (N3Term.variable v) Binding.bind = fresh_or_known v
term (N3Term.variable v) Binding.lookup = known_var v
term (N3Term.blank_node b) Binding.bind = fresh_or_known (blank_key b)
term (N3Term.blank_node b) Binding.lookup =
    refuse (shape (codes "a blank node in insertions or deletions"))
term (N3Term.triple t) binding = refuse rdf12_term

abbrev literal_subject : Text
literal_subject = codes "a literal in subject position"

abbrev literal_predicate : Text
literal_predicate = codes "a literal in predicate position"

pub non_literal : PatternTerm → Text → Naming PatternTerm
non_literal (literal l) violation = refuse (shape violation)
non_literal other violation = give other

-- One round of the loop of `patterns`.
pub pattern_of : N3Quad → Binding → Naming Pattern
pattern_of q binding = do
  s ← term q.subject binding
  s' ← non_literal s literal_subject
  p ← term q.predicate binding
  p' ← non_literal p literal_predicate
  o ← term q.object binding
  give (record { subject = s'; predicate = p'; object = o })

pub patterns_in : List N3Quad → Text → Binding → Naming (List Pattern)
patterns_in [] formula binding = give []
patterns_in (q ∷ qs) formula binding =
    if q.graph_name == GraphName.blank_node formula
    then (do p ← pattern_of q binding; ps ← patterns_in qs formula binding; give (p ∷ ps))
    else patterns_in qs formula binding

pub patterns : List N3Quad → Option Text → Binding → Naming (List Pattern)
patterns quads none binding = give []
patterns quads (some formula) binding = patterns_in quads formula binding
