-- ===== src/Store.antt =====
-- src/store.rs and src/blob.rs: what the pod asks of its SPARQL store and of its blob store.
-- Both are other programs behind the traits `SparqlStore` and `BlobStore`: here the record `Backend`
-- over the state of both. The text of an update or a query stands as its syntax tree, in the forms
-- that the source writes; a stored triple is a ground one, a `Fact`.
pub mod Laws
pub mod Effects
pub mod Memory
pub mod Actions
use quadpod.Prelude.{
  Bool, true, false, not, ◌&&◌, ◌||◌, Option, none, some, List, [], ◌∷◌, all, ℕ, if◌then◌else◌,
  ◌==◌, nat_eq, list_eq, Text, codes, Eq, Result, ok, err,
}
use native.Mathlib.Decide.{ℕ_discrete}
use quadpod.Terms.{Literal, NamedOrBlankNode, Term, Triple, eq_of_discrete}
use quadpod.Dataset.Ground.{GroundTerm, term_of}
use quadpod.Patch.{Pattern}

pub record Fact : Type 0 where
  pub subject : Text
  pub predicate : Text
  pub object : GroundTerm

unfoldable pub GroundTerm-discrete : Discrete GroundTerm
GroundTerm-discrete = hlevel ℕ_discrete

unfoldable pub Fact-discrete : Discrete Fact
Fact-discrete = hlevel ℕ_discrete

instance abbrev pub fact_eq : Eq Fact
fact_eq = eq_of_discrete Fact-discrete

unfoldable pub triple_of : Fact → Triple
triple_of f = record {
  subject = NamedOrBlankNode.named_node f.subject;
  predicate = f.predicate;
  object = term_of f.object;
}

-- A fact in a named graph.
abbrev pub Located : Type 0
Located = Text × Fact

-- `INSERT DATA` and `INSERT` name their facts by graph; a guard is a list of `FILTER EXISTS`.
pub data Operation : Type 0 where
  drop_silent : Text → Operation
  insert_data : List (Text × List Fact) → Operation
  delete_data : Text → List Fact → Operation
  clear_where : Text → List Located → Operation
  insert_where : List (Text × List Fact) → List Located → Operation
  modify : Text → List Fact → List Fact → List Located → Operation

-- The `CONSTRUCT` queries: a whole graph, or the objects of a subject and a predicate.
pub data Query : Type 0 where
  everything : Query
  objects : Text → Text → Query

-- A `QuerySolution`: what it binds the variable `v<i>` to.
abbrev pub Solution : Type 0
Solution = ℕ → Option Term

pub record Backend (W : Type 0) : Type 0 where
  pub update : List Operation → W → Result Text (Unit {0}) × W
  pub ask : Text → List Fact → W → Result Text Bool
  pub construct : Text → Query → W → Result Text (List Triple)
  pub select_two : Text → List Pattern → W → Result Text (List Solution)
  pub put_blob : Text → Text → W → Result Text (Unit {0}) × W
  pub get_blob : Text → W → Result Text (Option Text)
  pub delete_blob : Text → W → Result Text (Unit {0}) × W

-- What a call of the pod does: its result and the state after it. `?` is the bind.
abbrev pub Action : Type 0 → Type 0 → Type 0 → Type 0
Action W E A = W → Result E A × W

infixl 5 ◌>>=◌ ◌>>◌
unfoldable pub ◌>>=◌ : {W E A B : Type 0} → Action W E A → (A → Action W E B) → Action W E B
◌>>=◌ m f w = let (r, w') = m w in elim r [ ok a ↦ f a w' | err e ↦ (err e, w') ]

abbrev pub ◌>>◌ : {W E B : Type 0} → Action W E (Unit {0}) → Action W E B → Action W E B
m >> k = m >>= λ _. k

-- What was computed without the stores.
unfoldable pub lift : {W E A : Type 0} → Result E A → Action W E A
lift r w = (r, w)

abbrev pub pure : {W E A : Type 0} → A → Action W E A
pure a = lift (ok a)

abbrev pub raise : {W E A : Type 0} → E → Action W E A
raise e = lift (err e)

abbrev pub map_err : {E E' A : Type 0} → (E → E') → Result E A → Result E' A
map_err wrap (ok a) = ok a
map_err wrap (err e) = err (wrap e)

-- `map_err(wrap)?` of a call that writes and of one that reads.
unfoldable pub wrap_write : {W E E' A : Type 0} → (E → E') → Action W E A → Action W E' A
wrap_write wrap m w = (map_err wrap (m w).0, (m w).1)

unfoldable pub wrap_read : {W E E' A : Type 0} → (E → E') → (W → Result E A) → Action W E' A
wrap_read wrap m w = (map_err wrap (m w), w)
