-- ===== src/Terms.antt =====
-- The RDF data model that the source takes from its RDF libraries (oxigraph::model, oxttl::n3):
-- the types by their constructors, with an IRI, a name and a lexical form each as its text.
use native.Mathlib.Decide.{ℕ_discrete}
use quadpod.Prelude.{◌≡◌, ◌↔◌, refl, Bool, true, false, Option, Text, Eq}

pub data BaseDirection : Type 0 where
  ltr rtl : BaseDirection

pub record Literal : Type 0 where
  pub value : Text
  pub datatype : Text
  pub language : Option Text
  pub direction : Option BaseDirection

pub data NamedOrBlankNode : Type 0 where
  named_node blank_node : Text → NamedOrBlankNode

pub data Term : Type 0 where
  named_node blank_node : Text → Term
  literal : Literal → Term
  triple : NamedOrBlankNode → Text → Term → Term

pub record Triple : Type 0 where
  pub subject : NamedOrBlankNode
  pub predicate : Text
  pub object : Term

pub data GraphName : Type 0 where
  named_node blank_node : Text → GraphName
  default_graph : GraphName

pub data N3Term : Type 0 where
  named_node blank_node variable : Text → N3Term
  literal : Literal → N3Term
  triple : Triple → N3Term

pub record N3Quad : Type 0 where
  pub subject : N3Term
  pub predicate : N3Term
  pub object : N3Term
  pub graph_name : GraphName

-- `PartialEq` of these types.
unfoldable pub Literal-discrete : Discrete Literal
Literal-discrete = hlevel ℕ_discrete

unfoldable pub NamedOrBlankNode-discrete : Discrete NamedOrBlankNode
NamedOrBlankNode-discrete = hlevel ℕ_discrete

unfoldable pub Term-discrete : Discrete Term
Term-discrete = hlevel ℕ_discrete

unfoldable pub N3Term-discrete : Discrete N3Term
N3Term-discrete = hlevel ℕ_discrete

unfoldable pub GraphName-discrete : Discrete GraphName
GraphName-discrete = hlevel ℕ_discrete

abbrev pub decided {ℓ} : {A : Type ℓ} {a b : A} → Dec (a ≡ b) → Bool
decided (yes e) = true
decided (no d) = false

pub decided_iff {ℓ} : {A : Type ℓ} {a b : A} (d : Dec (a ≡ b)) → (decided d ≡ true) ↔ (a ≡ b)
decided_iff (yes e) = (λ _. e, λ _. refl)
decided_iff (no d) = (λ e. cc, λ e. absurd (d e))

abbrev pub eq_of_discrete {ℓ} : {A : Type ℓ} → Discrete A → Eq A
eq_of_discrete d = record {
  equals = λ a b. decided (d a b);
  equals_iff = λ a b. decided_iff (d a b);
}

instance abbrev pub node_eq : Eq NamedOrBlankNode
node_eq = eq_of_discrete NamedOrBlankNode-discrete

instance abbrev pub term_eq : Eq Term
term_eq = eq_of_discrete Term-discrete

instance abbrev pub n3_eq : Eq N3Term
n3_eq = eq_of_discrete N3Term-discrete

instance abbrev pub graph_eq : Eq GraphName
graph_eq = eq_of_discrete GraphName-discrete
