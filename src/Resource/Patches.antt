-- ===== src/Resource/Patches.antt =====
-- src/resource.rs: what a patch does to the graph of a resource or of an auxiliary.
use quadpod.Prelude.{
  ◌&&◌, Option, none, some, List, [], ◌∷◌, is_empty, if◌then◌else◌, Text, codes, Result, ok, err,
  ◌>>=◌ as ◌>>=ʳ◌,
}
use quadpod.Terms.{Term}
use quadpod.Dataset.Ground.{GroundTerm}
use quadpod.Patch.{PatternTerm, Pattern, Patch}
use quadpod.Store.{
  Fact, Located, modify, Solution, Backend, ◌>>=◌, lift, pure, wrap_write, wrap_read,
}
use quadpod.Resource.{ResourceError, store}
use quadpod.Resource.Graphs.{Task}

pub data PatchResult : Type 0 where
  applied no_mapping several_mappings deletion_missing : PatchResult

-- `render_bound`
unfoldable pub render_bound : Term → Result ResourceError GroundTerm
render_bound (Term.named_node n) = ok (GroundTerm.named_node n)
render_bound (Term.literal l) = ok (GroundTerm.literal l)
render_bound _ = err (store (codes "a solution bound a term the store cannot hold"))

-- `ground_term`, with the one solution of the conditions, if there were any.
unfoldable pub ground_term : Option Solution → PatternTerm → Result ResourceError GroundTerm
ground_term bindings (PatternTerm.named n) = ok (GroundTerm.named_node n)
ground_term bindings (PatternTerm.literal l) = ok (GroundTerm.literal l)
ground_term bindings (PatternTerm.var i) =
    let bound : Option Term = elim bindings [ none ↦ none | some s ↦ s i ] in
    elim bound [
      | none ↦ err (store (codes "a projected variable came back unbound"))
      | some t ↦ render_bound t
    ]

-- A triple that is written into the text of an update, which need not be one of RDF.
pub record Written : Type 0 where
  pub subject : GroundTerm
  pub predicate : GroundTerm
  pub object : GroundTerm

unfoldable pub substitute : Option Solution → List Pattern → Result ResourceError (List Written)
substitute bindings [] = ok []
substitute bindings (p ∷ ps) = ground_term bindings p.subject >>=ʳ λ s.
    ground_term bindings p.predicate >>=ʳ λ pred. ground_term bindings p.object >>=ʳ λ o.
    substitute bindings ps >>=ʳ λ rest.
    ok (record { subject = s; predicate = pred; object = o } ∷ rest)

-- What the store's parser makes of such triples: a subject or a predicate is an IRI.
unfoldable pub read_facts : List Written → Option (List Fact)
read_facts [] = some []
read_facts (t ∷ ts) = elim t.subject [
  | GroundTerm.named_node s ↦ elim t.predicate [
    | GroundTerm.named_node p ↦ elim (read_facts ts) [
      | none ↦ none
      | some fs ↦ some (record { subject = s; predicate = p; object = t.object } ∷ fs)
    ]
    | _ ↦ none
  ]
  | _ ↦ none
]

-- `syntax_error` is what the store says of a text that is not SPARQL.
module _ {W : Type 0} (syntax_error : Text) (b : Backend W) where
  abbrev parsed : List Written → Task b (List Fact)
  parsed ts = lift (elim (read_facts ts) [ some fs ↦ ok fs | none ↦ err (store syntax_error) ])

  -- Step 5: the `ASK`, if there are deletions, and the update.
  unfoldable pub write_patch :
      Text → List Written → List Written → List Located → Task b PatchResult
  write_patch iri deletions insertions guard =
      if is_empty deletions
      then (do
        is ← parsed insertions
        wrap_write store (b.update (modify iri [] is guard ∷ [])) >>= λ _. pure applied)
      else (do
        ds ← parsed deletions
        before ← wrap_read store (b.ask iri ds)
        is ← parsed insertions
        wrap_write store (b.update (modify iri ds is guard ∷ [])) >>= λ _.
            pure (if before then applied else deletion_missing))

  -- From the mapping of the conditions on.
  unfoldable pub apply_mapping : Text → Patch → List Located → Option Solution → Task b PatchResult
  apply_mapping iri patch guard bindings = do
    deletions ← lift (substitute bindings patch.deletions)
    insertions ← lift (substitute bindings patch.insertions)
    if is_empty deletions && is_empty insertions
        then pure applied
        else write_patch iri deletions insertions guard

  unfoldable pub patch_guarded : Text → Patch → List Located → Task b PatchResult
  patch_guarded iri patch guard =
      if is_empty patch.conditions then apply_mapping iri patch guard none else (do
        solutions ← wrap_read store (b.select_two iri patch.conditions)
        elim solutions [
          | [] ↦ pure no_mapping
          | s ∷ more ↦
              if is_empty more
              then apply_mapping iri patch guard (some s)
              else pure several_mappings
        ])

  unfoldable pub patch_dataset : Text → Patch → Task b PatchResult
  patch_dataset iri patch = patch_guarded iri patch []
