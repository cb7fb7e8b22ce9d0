-- ===== src/Patch/Shape.antt =====
-- A patch that `Patch::parse` builds is shape-valid.
use quadpod.Prelude.{
  leb, Bool-cases, inl, inr, ◌||◌, ℕ, ◌≡◌, ◌<◌, ◌≤◌, ap, ◌∙◌, Bool, true, ◌||◌, Option, none, some,
  List, [], ◌∷◌, any, length, ◌==◌, nat_eq, Text, Result, ok, arith, Bool-cases, inl, inr, All,
  >>=-eq-ok as >>=-eq-ok_of_result,
}
use quadpod.Terms.{N3Quad, GraphName, graph_eq}
use quadpod.Patch.{
  Pattern, Patch, give, Binding, term, non_literal, pattern_of, patterns_in, patterns,
  literal_subject, literal_predicate, solid_where, solid_deletes, solid_inserts,
}
use quadpod.Patch.Names.{Renumber, IsNumbered, start}
use quadpod.Patch.Document.{parse_quads, patch_subject, formula}
use quadpod.Patch.Steps.{
  >>=-eq-ok, IsTerm, IsTerm-mono, IsNotLiteral, is_var, term_step, non_literal_step,
  term-lookup_keeps,
}

-- A pattern over the first `n` variables: RDF terms in their places.
pub record IsPattern (n : ℕ) (p : Pattern) : Type 0 where
  pub subject : IsTerm n p.subject
  pub predicate : IsTerm n p.predicate
  pub object : IsTerm n p.object
  pub subject_plain : IsNotLiteral p.subject
  pub predicate_plain : IsNotLiteral p.predicate

abbrev pub has_var : ℕ → Pattern → Bool
has_var i p = is_var i p.subject || (is_var i p.predicate || is_var i p.object)

-- The variable `i` stands in one of the patterns.
abbrev pub occurs : ℕ → List Pattern → Bool
occurs i ps = any (has_var i) ps

IsPattern-mono : {n m : ℕ} (p : Pattern) → n ≤ m → IsPattern n p → IsPattern m p
IsPattern-mono p le h = record {
  subject = IsTerm-mono p.subject le h.subject;
  predicate = IsTerm-mono p.predicate le h.predicate;
  object = IsTerm-mono p.object le h.object;
  subject_plain = h.subject_plain;
  predicate_plain = h.predicate_plain;
}

All-IsPattern_mono :
    {n m : ℕ} (ps : List Pattern) → n ≤ m → All (IsPattern n) ps → All (IsPattern m) ps
All-IsPattern_mono [] le h = tt
All-IsPattern_mono (p ∷ ps) le h = (IsPattern-mono p le h.0, All-IsPattern_mono ps le h.1)

record PatternStep (names out : Renumber) (p : Pattern) : Type 0 where
  numbered : IsNumbered out
  grows : length names ≤ length out
  sound : IsPattern (length out) p
  fresh : (i : ℕ) → length names ≤ i → i < length out → has_var i p ≡ true

-- The three term steps of a pattern, end to end.
module _ (q : N3Quad) (binding : Binding) (names : Renumber) {p : Pattern} {out : Renumber}
    (made : pattern_of q binding names ≡ ok (p, out)) where
  record Parts : Type 0 where
    after_subject : Renumber
    after_predicate : Renumber
    subject : term q.subject binding names ≡ ok (p.subject, after_subject)
    predicate : term q.predicate binding after_subject ≡ ok (p.predicate, after_predicate)
    object : term q.object binding after_predicate ≡ ok (p.object, out)
    subject_plain : IsNotLiteral p.subject
    predicate_plain : IsNotLiteral p.predicate

  pattern_parts : Parts
  unfolding pattern_of
  pattern_parts =
      let (s, n1, es, r1) = >>=-eq-ok (term q.subject binding) _ names made in
      let (s', n2, es', r2) = >>=-eq-ok (non_literal s literal_subject) _ n1 r1 in
      let (p1, n3, ep, r3) = >>=-eq-ok (term q.predicate binding) _ n2 r2 in
      let (p2, n4, ep', r4) = >>=-eq-ok (non_literal p1 literal_predicate) _ n3 r3 in
      let (o, n5, eo, r5) = >>=-eq-ok (term q.object binding) _ n4 r4 in
      let (a1, a2, a3) = non_literal_step s literal_subject n1 es' in
      let (b1, b2, b3) = non_literal_step p1 literal_predicate n3 ep' in
      let same_s : p.subject ≡ s' = ground arith in
      let same_p : p.predicate ≡ p2 = ground arith in
      record {
        after_subject = n1;
        after_predicate = n3;
        subject = ground arith;
        predicate = ground arith;
        object = ground arith;
        subject_plain = rw same_s a3;
        predicate_plain = rw same_p b3;
      }

  pattern_step : IsNumbered names → PatternStep names out p
  pattern_step h =
      let parts = pattern_parts in
      let s = term_step q.subject binding names h parts.subject in
      let r = term_step q.predicate binding parts.after_subject s.numbered parts.predicate in
      let o = term_step q.object binding parts.after_predicate r.numbered parts.object in
      record {
        numbered = o.numbered;
        grows = omega (arith, s.grows, r.grows, o.grows);
        sound = record {
          subject = IsTerm-mono p.subject (omega (arith, r.grows, o.grows)) s.sound;
          predicate = IsTerm-mono p.predicate o.grows r.sound;
          object = o.sound;
          subject_plain = parts.subject_plain;
          predicate_plain = parts.predicate_plain;
        };
        fresh = λ i low high. ground (arith, s.fresh i, r.fresh i, o.fresh i);
      }

record FormulaStep (names out : Renumber) (ps : List Pattern) : Type 0 where
  numbered : IsNumbered out
  grows : length names ≤ length out
  sound : All (IsPattern (length out)) ps
  fresh : (i : ℕ) → length names ≤ i → i < length out → occurs i ps ≡ true

empty_step :
    (names : Renumber) {ps : List Pattern} {out : Renumber}
    → IsNumbered names
    → give [] names ≡ ok (ps, out)
    → FormulaStep names out ps
empty_step names {ps} {out} h e =
    let none_left : ps ≡ [] = ground arith in
    let same : out ≡ names = ground arith in
    record {
      numbered = rw same h;
      grows = omega (arith, ap (length {0}) same);
      sound = rw none_left tt;
      fresh = λ i low high. absurd (omega (arith, ap (length {0}) same));
    }

patterns_in_step :
    (qs : List N3Quad) (formula : Text) (binding : Binding) (names : Renumber) {ps : List Pattern}
    {out : Renumber}
    → IsNumbered names
    → patterns_in qs formula binding names ≡ ok (ps, out)
    → FormulaStep names out ps
unfolding patterns_in
patterns_in_step [] formula binding names h e = empty_step names h e
patterns_in_step (q ∷ qs) formula binding names {ps} {out} h e =
    elim (Bool-cases (q.graph_name == GraphName.blank_node formula)) [
      | inr other ↦ patterns_in_step qs formula binding names h (rw other at e)
      | inl mine ↦
          let e' = rw mine at e in
          let (p, n1, e1, r1) = >>=-eq-ok (pattern_of q binding) _ names e' in
          let (rest, n2, e2, r2) = >>=-eq-ok (patterns_in qs formula binding) _ n1 r1 in
          let same : out ≡ n2 = ground arith in
          let these : ps ≡ p ∷ rest = ground arith in
          let one = pattern_step q binding names e1 h in
          let more = patterns_in_step qs formula binding n1 one.numbered e2 in
          rw (same, these)
            (record {
              numbered = more.numbered;
              grows = omega (arith, one.grows, more.grows);
              sound = (IsPattern-mono p more.grows one.sound, more.sound);
              fresh = λ i low high. ground (arith, one.fresh i, more.fresh i);
            })
    ]

patterns_step :
    (qs : List N3Quad) (formula : Option Text) (binding : Binding) (names : Renumber)
    {ps : List Pattern} {out : Renumber}
    → IsNumbered names
    → patterns qs formula binding names ≡ ok (ps, out)
    → FormulaStep names out ps
unfolding patterns
patterns_step qs none binding names h e = empty_step names h e
patterns_step qs (some f) binding names h e = patterns_in_step qs f binding names h e

pattern_lookup_keeps :
    (q : N3Quad) (names : Renumber) {p : Pattern} {out : Renumber}
    → pattern_of q Binding.lookup names ≡ ok (p, out)
    → out ≡ names
pattern_lookup_keeps q names e =
    let parts = pattern_parts q Binding.lookup names e in
    cc (
      term-lookup_keeps q.subject names parts.subject,
      term-lookup_keeps q.predicate parts.after_subject parts.predicate,
      term-lookup_keeps q.object parts.after_predicate parts.object,
    )

patterns_in-lookup_keeps :
    (qs : List N3Quad) (formula : Text) (names : Renumber) {ps : List Pattern} {out : Renumber}
    → patterns_in qs formula Binding.lookup names ≡ ok (ps, out)
    → out ≡ names
unfolding patterns_in
patterns_in-lookup_keeps [] formula names e = ground arith
patterns_in-lookup_keeps (q ∷ qs) formula names {out} e =
    elim (Bool-cases (q.graph_name == GraphName.blank_node formula)) [
      | inr other ↦ patterns_in-lookup_keeps qs formula names (rw other at e)
      | inl mine ↦
          let e' = rw mine at e in
          let (p, n1, e1, r1) = >>=-eq-ok (pattern_of q Binding.lookup) _ names e' in
          let (rest, n2, e2, r2) = >>=-eq-ok (patterns_in qs formula Binding.lookup) _ n1 r1 in
          let same : out ≡ n2 = ground arith in
          cc (same, pattern_lookup_keeps q names e1, patterns_in-lookup_keeps qs formula n1 e2)
    ]

patterns-lookup_keeps :
    (qs : List N3Quad) (formula : Option Text) (names : Renumber) {ps : List Pattern}
    {out : Renumber}
    → patterns qs formula Binding.lookup names ≡ ok (ps, out)
    → out ≡ names
unfolding patterns
patterns-lookup_keeps qs none names e = ground arith
patterns-lookup_keeps qs (some f) names e = patterns_in-lookup_keeps qs f names e

-- What §5.1 of the patch format asks of the three formulae, as this pod enforces it.
pub record IsShapeValid (p : Patch) : Type 0 where
  pub conditions : All (IsPattern p.variables) p.conditions
  pub deletions : All (IsPattern p.variables) p.deletions
  pub insertions : All (IsPattern p.variables) p.insertions
  -- an index is out of the count or a condition has it
  pub bound : (i : ℕ) → (leb p.variables i || occurs i p.conditions) ≡ true

ok_subst :
    {E A : Type 0} (P : A → Type 0) {a b : A} → ◌≡◌ {A = Result E A} (ok a) (ok b) → P a → P b
ok_subst P {a} {b} e h = let same : a ≡ b = cc in rw (← same) h

shape_of_steps :
    (quads : List N3Quad) (cf df nf : Option Text) (cs ds ns : List Pattern) (n1 n2 n3 : Renumber)
    → patterns quads cf Binding.bind [] ≡ ok (cs, n1)
    → patterns quads df Binding.lookup n1 ≡ ok (ds, n2)
    → patterns quads nf Binding.lookup n2 ≡ ok (ns, n3)
    → IsShapeValid
        (record { conditions = cs; deletions = ds; insertions = ns; variables = length n3 })
shape_of_steps quads cf df nf cs ds ns n1 n2 n3 ec ed en =
    let c = patterns_step quads cf Binding.bind [] start ec in
    let d = patterns_step quads df Binding.lookup n1 c.numbered ed in
    let n = patterns_step quads nf Binding.lookup n2 d.numbered en in
    let same : n3 ≡ n1 =
      patterns-lookup_keeps quads nf n2 en ∙ patterns-lookup_keeps quads df n1 ed in
    record {
      conditions = All-IsPattern_mono cs (omega (arith, d.grows, n.grows)) c.sound;
      deletions = All-IsPattern_mono ds n.grows d.sound;
      insertions = n.sound;
      bound = λ i. elim (Bool-cases (leb (length n3) i)) [
        | inl beyond ↦ ground arith
        | inr below ↦
            let counted : i < length n1 = ground (arith, ap (length {0}) same) in
            ground (arith, c.fresh i (omega arith) counted)
      ];
    }

-- Every patch that the parser's quads are read as is shape-valid: subjects and predicates are no
-- literals, no term is a reserved IRI or a directional literal, each variable is one of the
-- `variables` counted, and each of those is bound by a condition.
pub parse_quads-IsShapeValid :
    (quads : List N3Quad) {p : Patch} → parse_quads quads ≡ ok p → IsShapeValid p
unfolding parse_quads
parse_quads-IsShapeValid quads {p} e =
    let (s, es, r1) = >>=-eq-ok_of_result (patch_subject quads) _ e in
    let (cf, ecf, r2) = >>=-eq-ok_of_result (formula quads s solid_where) _ r1 in
    let (df, edf, r3) = >>=-eq-ok_of_result (formula quads s solid_deletes) _ r2 in
    let (nf, enf, r4) = >>=-eq-ok_of_result (formula quads s solid_inserts) _ r3 in
    let (c, ec, r5) = >>=-eq-ok_of_result (patterns quads cf Binding.bind []) _ r4 in
    let (d, ed, r6) = >>=-eq-ok_of_result (patterns quads df Binding.lookup c.1) _ r5 in
    let (n, en, r7) = >>=-eq-ok_of_result (patterns quads nf Binding.lookup d.1) _ r6 in
    ok_subst IsShapeValid r7 (shape_of_steps quads cf df nf c.0 d.0 n.0 c.1 d.1 n.1 ec ed en)
