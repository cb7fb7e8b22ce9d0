-- ===== src/Resource/Applied.antt =====
-- What a patch of src/resource.rs did, by its answer.
use mathlib.Core.Path.{subst}
use quadpod.Prelude.{
  ◌≡◌, refl, sym, ◌∙◌, ap, inl, inr, Bool, true, false, not, ◌&&◌, ◌||◌, Option, none, some, List,
  [], ◌∷◌, all, is_empty, if◌then◌else◌, ◌==◌, nat_eq, list_eq, Text, Result, ok, err, Bool-cases,
  Option-cases, arith,
}
use quadpod.Patch.{Patch}
use quadpod.Store.{
  Fact, fact_eq, modify, Solution, Backend, Action, lift, pure, wrap_read, wrap_write,
}
use quadpod.Store.Laws.{has, effect, effects, BackendLaws}
use quadpod.Store.Actions.{bind_ok, wrap_write_ok, wrap_read_ok}
use quadpod.Resource.{ResourceError, store}
use quadpod.Resource.Reads.{Outcome}
use quadpod.Resource.Patches.{
  PatchResult, applied, no_mapping, several_mappings, deletion_missing, Written, substitute,
  read_facts, write_patch, apply_mapping, patch_guarded, patch_dataset,
}

-- What the deletions and insertions are under a mapping, as facts.
pub record Ground (p : Patch) (mapping : Option Solution) (ds is : List Fact) : Type 0 where
  pub deletions : List Written
  pub insertions : List Written
  pub deleted : substitute mapping p.deletions ≡ ok deletions
  pub inserted : substitute mapping p.insertions ≡ ok insertions
  pub ds_read : read_facts deletions ≡ some ds
  pub is_read : read_facts insertions ≡ some is

-- The conditions have the mapping: none where there are none, else the only one that was answered.
abbrev pub Mapped : {W : Type 0} → Backend W → Text → Patch → W → Option Solution → Type 0
Mapped b iri p w none = is_empty p.conditions ≡ true
Mapped b iri p w (some s) =
    (is_empty p.conditions ≡ false) × (b.select_two iri p.conditions w ≡ ok (s ∷ []))

module _ {W : Type 0} (syntax_error : Text) (b : Backend W) (holds : W → Text → Fact → Bool)
    (object : W → Text → Option Text) (laws : BackendLaws b holds object) (iri : Text) (p : Patch)
    (w w' : W) where
  pub record Patched : Type 0 where
    pub mapping : Option Solution
    pub mapped : Mapped b iri p w mapping
    pub ds : List Fact
    pub is : List Fact
    pub ground : Ground p mapping ds is
    pub found : all (holds w iri) ds ≡ true
    pub changed :
        (g : Text) (f : Fact)
        → holds w' g f
          ≡ (if iri == g then (holds w g f && not (has f ds)) || has f is else holds w g f)

  pub record Unmatched : Type 0 where
    pub mapping : Option Solution
    pub mapped : Mapped b iri p w mapping
    pub ds : List Fact
    pub is : List Fact
    pub ground : Ground p mapping ds is
    pub lacking : all (holds w iri) ds ≡ false
    pub unchanged : (g : Text) (f : Fact) → holds w' g f ≡ holds w g f

  -- By the answer: the patch applied, or the state is as it was and why.
  abbrev pub Did : PatchResult → Type 0
  Did applied = Patched
  Did deletion_missing = Unmatched
  Did no_mapping = (b.select_two iri p.conditions w ≡ ok []) × (w' ≡ w)
  Did several_mappings =
      (s : Solution) × (t : Solution) × (more : List Solution) × (b.select_two iri p.conditions w
        ≡ ok (s ∷ t ∷ more))
      × (w' ≡ w)

  parsed_ok :
      (ts : List Written) {fs : List Fact}
      → ◌≡◌ {A = Result ResourceError (List Fact)}
          (elim (read_facts ts) [ some fs ↦ ok fs | none ↦ err (store syntax_error) ])
          (ok fs)
      → read_facts ts ≡ some fs
  parsed_ok ts {fs} h = elim (Option-cases (read_facts ts)) [
    | inl e ↦ absurd (ground (arith, e, h))
    | inr (gs, e) ↦ ground (arith, e, h)
  ]

  -- The update of a patch whose deletions are there, and of one that lacks some.
  modified :
      (ds is : List Fact)
      → (b.update (modify iri ds is [] ∷ []) w).0 ≡ ok tt
      → w' ≡ (b.update (modify iri ds is [] ∷ []) w).1
      → (g : Text) (f : Fact)
      → holds w' g f ≡ (
          if iri == g && all (holds w iri) ds
          then (holds w g f && not (has f ds)) || has f is
          else holds w g f)
  unfolding effects effect
  modified ds is sent e g f =
      ap (λ (x : W). holds x g f) e
      ∙ laws.updated (modify iri ds is [] ∷ []) w g f sent
      ∙ ground arith

  written :
      (mapping : Option Solution) (deletions insertions : List Written) {a : PatchResult}
      → Mapped b iri p w mapping
      → substitute mapping p.deletions ≡ ok deletions
      → substitute mapping p.insertions ≡ ok insertions
      → write_patch syntax_error b iri deletions insertions [] w ≡ (ok a, w')
      → Did a
  unfolding write_patch lift wrap_read wrap_write
  written mapping [] insertions {a} m ed ei h =
      let (is, e1, h1) = bind_ok _ _ w w' h in
      let (sent, e2, h2) =
        bind_ok (wrap_write store (b.update (modify iri [] is [] ∷ []))) _ w w' h1 in
      let change =
        modified [] is (wrap_write_ok store (b.update (modify iri [] is [] ∷ [])) w e2)
          (sym (ap (λ (o : Result ResourceError PatchResult × W). o.1) h2)) in
      subst (λ o. Outcome Did o) (ap (λ (o : Result ResourceError PatchResult × W). o.0) h2)
        (record {
          mapping = mapping;
          mapped = m;
          ds = [];
          is = is;
          ground = record {
            deletions = [];
            insertions = insertions;
            deleted = ed;
            inserted = ei;
            ds_read = unfold read_facts in refl;
            is_read = parsed_ok insertions e1;
          };
          found = refl;
          changed = λ g f. change g f ∙ ground arith;
        })
  written mapping (t ∷ ts) insertions {a} m ed ei h =
      let (ds, e1, h1) = bind_ok _ _ w w' h in
      let (before, e2, h2) = bind_ok (wrap_read store (b.ask iri ds)) _ w w' h1 in
      let (is, e3, h3) = bind_ok _ _ w w' h2 in
      let (sent, e4, h4) =
        bind_ok (wrap_write store (b.update (modify iri ds is [] ∷ []))) _ w w' h3 in
      let change =
        modified ds is (wrap_write_ok store (b.update (modify iri ds is [] ∷ [])) w e4)
          (sym (ap (λ (o : Result ResourceError PatchResult × W). o.1) h4)) in
      let there = laws.asked iri ds w before (wrap_read_ok store (b.ask iri ds) w e2) in
      let read : Ground p mapping ds is = record {
        deletions = t ∷ ts;
        insertions = insertions;
        deleted = ed;
        inserted = ei;
        ds_read = parsed_ok (t ∷ ts) e1;
        is_read = parsed_ok insertions e3;
      } in
      subst (λ o. Outcome Did o) (ap (λ (o : Result ResourceError PatchResult × W). o.0) h4)
        (answered before (sym there) read change)
    where
      answered :
          (before : Bool) {ds is : List Fact}
          → all (holds w iri) ds ≡ before
          → Ground p mapping ds is
          → ((g : Text) (f : Fact)
              → holds w' g f ≡ (
                  if iri == g && all (holds w iri) ds
                  then (holds w g f && not (has f ds)) || has f is
                  else holds w g f))
          → Did (if before then applied else deletion_missing)
      answered true {ds} {is} there read change = record {
        mapping = mapping;
        mapped = m;
        ds = ds;
        is = is;
        ground = read;
        found = there;
        changed = λ g f. change g f ∙ ground (arith, there);
      }
      answered false {ds} {is} there read change = record {
        mapping = mapping;
        mapped = m;
        ds = ds;
        is = is;
        ground = read;
        lacking = there;
        unchanged = λ g f. change g f ∙ ground (arith, there);
      }

  mapped_patch :
      (mapping : Option Solution) {a : PatchResult}
      → Mapped b iri p w mapping
      → apply_mapping syntax_error b iri p [] mapping w ≡ (ok a, w')
      → Did a
  unfolding apply_mapping lift
  mapped_patch mapping {a} m h =
      let (deletions, ed, h1) = bind_ok (lift (substitute mapping p.deletions)) _ w w' h in
      let (insertions, ei, h2) = bind_ok (lift (substitute mapping p.insertions)) _ w w' h1 in
      chosen deletions insertions ed ei h2
    where
      chosen :
          (deletions insertions : List Written)
          → substitute mapping p.deletions ≡ ok deletions
          → substitute mapping p.insertions ≡ ok insertions
          → (if is_empty deletions && is_empty insertions
                then pure applied
                else write_patch syntax_error b iri deletions insertions [])
              w
            ≡ (ok a, w')
          → Did a
      chosen [] [] ed ei h =
          let same : w ≡ w' = ap (λ (o : Result ResourceError PatchResult × W). o.1) h in
          subst (λ o. Outcome Did o) (ap (λ (o : Result ResourceError PatchResult × W). o.0) h)
            (record {
              mapping = mapping;
              mapped = m;
              ds = [];
              is = [];
              ground = record {
                deletions = [];
                insertions = [];
                deleted = ed;
                inserted = ei;
                ds_read = unfold read_facts in refl;
                is_read = unfold read_facts in refl;
              };
              found = refl;
              changed = λ g f. ap (λ (x : W). holds x g f) (sym same) ∙ ground arith;
            })
      chosen [] (i ∷ is) ed ei h = written mapping [] (i ∷ is) m ed ei h
      chosen (d ∷ ds) is ed ei h = written mapping (d ∷ ds) is m ed ei h

  -- Where a patch of a resource answers `Ok`: it applied if the deletions were there under the one
  -- mapping of its conditions, and then its graph lost them and has the insertions and nothing else
  -- changed. On each other answer the store holds what it held, and the reason is the one answered:
  -- a deletion was lacking, or the conditions had no mapping or several.
  pub patch_dataset-Did :
      {a : PatchResult} → patch_dataset syntax_error b iri p w ≡ (ok a, w') → Did a
  unfolding patch_dataset patch_guarded lift wrap_read
  patch_dataset-Did {a} h = elim (Bool-cases (is_empty p.conditions)) [
    | inl none_there ↦ mapped_patch none none_there (rw (none_there, patch_guarded) at h)
    | inr some_there ↦
        let (solutions, e, h1) =
          bind_ok (wrap_read store (b.select_two iri p.conditions)) _ w w'
            (rw (some_there, patch_guarded) at h) in
        picked some_there solutions (wrap_read_ok store (b.select_two iri p.conditions) w e) h1
  ]
    where
      picked :
          is_empty p.conditions ≡ false
          → (solutions : List Solution) → b.select_two iri p.conditions w ≡ ok solutions
          → (elim solutions as (λ _. Action W ResourceError PatchResult) [
            | [] ↦ pure no_mapping
            | s ∷ more ↦
                if is_empty more
                then apply_mapping syntax_error b iri p [] (some s)
                else pure several_mappings
          ])
              w
            ≡ (ok a, w')
          → Did a
      picked some_there [] e h =
          subst (λ o. Outcome Did o) (ap (λ (o : Result ResourceError PatchResult × W). o.0) h)
            (e, sym (ap (λ (o : Result ResourceError PatchResult × W). o.1) h))
      picked some_there (s ∷ []) e h = mapped_patch (some s) (some_there, e) h
      picked some_there (s ∷ t ∷ more) e h =
          subst (λ o. Outcome Did o) (ap (λ (o : Result ResourceError PatchResult × W). o.0) h)
            (s, t, more, e, sym (ap (λ (o : Result ResourceError PatchResult × W). o.1) h))
