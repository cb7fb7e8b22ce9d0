-- ===== src/Patch/Steps.antt =====
-- What one term of a formula becomes: the case analysis of `term` of src/patch.rs.
use quadpod.Prelude.{
  ℕ, ◌+◌, ◌≡◌, ◌<◌, ◌≤◌, refl, ap, Bool, true, false, [], ◌∷◌, length, length-append, is_some, ◌==◌,
  nat_eq, Text, Result, ok, err, arith, Option-cases, Bool-cases, inl, inr,
}
use quadpod.Terms.{N3Term}
use quadpod.Dataset.{is_reserved_iri}
use quadpod.Patch.{
  PatchError, PatternTerm, named, literal, var, Naming, ◌>>=◌, Binding, term, fresh_or_known,
  known_var, blank_key, non_literal,
}
use quadpod.Patch.Names.{Renumber, lookup, bind, IsNumbered, bind-IsNumbered, lookup-lt-length}

-- Inversion of a step that succeeds.
pub >>=-eq-ok :
    {A B : Type 0} (m : Naming A) (f : A → Naming B) (names : Renumber) {b : B} {out : Renumber}
    → (m >>= f) names ≡ ok (b, out)
    → (a : A) × (mid : Renumber) × (m names ≡ ok (a, mid)) × (f a mid ≡ ok (b, out))
>>=-eq-ok {A} m f names {b} {out} h = go (m names) refl h
  where
    go :
        (r : Result PatchError (A × Renumber))
        → m names ≡ r
        → (elim r [ ok (a, mid) ↦ f a mid | err e ↦ err e ]) ≡ ok (b, out)
        → (a : A) × (mid : Renumber) × (m names ≡ ok (a, mid)) × (f a mid ≡ ok (b, out))
    go (ok (a, mid)) e h = (a, mid, e, h)
    go (err e) p h = cc

-- A term that may stand in a patch with `n` variables: no reserved IRI, no directional literal,
-- and no variable but the first `n`.
abbrev pub IsTerm : ℕ → PatternTerm → Type 0
IsTerm n (named iri) = is_reserved_iri iri ≡ false
IsTerm n (literal l) = is_some l.direction ≡ false
IsTerm n (var i) = i < n

abbrev pub IsNotLiteral : PatternTerm → Type 0
IsNotLiteral (literal l) = ⊥
IsNotLiteral _ = Unit

abbrev pub is_var : ℕ → PatternTerm → Bool
is_var i (var j) = i == j
is_var i _ = false

pub IsTerm-mono : {n m : ℕ} (t : PatternTerm) → n ≤ m → IsTerm n t → IsTerm m t
IsTerm-mono (named iri) le h = h
IsTerm-mono (literal l) le h = h
IsTerm-mono (var i) le h = omega arith

-- A step from `names` to `out` that made the term `x`: the map stays a numbering and only grows,
-- and an index that is new is the one of `x`.
pub record TermStep (names out : Renumber) (x : PatternTerm) : Type 0 where
  pub numbered : IsNumbered out
  pub grows : length names ≤ length out
  pub sound : IsTerm (length out) x
  pub fresh : (i : ℕ) → length names ≤ i → i < length out → is_var i x ≡ true

fresh_step :
    (name : Text) (names : Renumber) {x : PatternTerm} {out : Renumber}
    → IsNumbered names
    → fresh_or_known name names ≡ ok (x, out)
    → TermStep names out x
unfolding fresh_or_known
fresh_step name names {x} {out} h e = elim (Option-cases (lookup name names)) [
  | inl new ↦
      let at : (bind name names).1 ≡ out = unfold bind in ground arith in
      let size : length out ≡ length names + 1 =
        unfold bind in ground (arith, length-append names ((name, length names) ∷ [])) in
      let this : x ≡ var (length names) = unfold bind in ground arith in
      record {
        numbered = rw at at (bind-IsNumbered name names h);
        grows = omega arith;
        sound = rw this (omega arith);
        fresh = λ i low high. rw this (ground arith);
      }
  | inr (i, known) ↦
      let same : out ≡ names = unfold bind in ground arith in
      let this : x ≡ var i = unfold bind in ground arith in
      record {
        numbered = rw same h;
        grows = rw same (omega arith);
        sound = rw (this, same) (lookup-lt-length name i h known);
        fresh = λ j low high. absurd (omega (arith, ap (length {0}) same));
      }
]

-- A step that leaves the map as it is.
still_step :
    (names : Renumber) {x : PatternTerm} {out : Renumber}
    → IsNumbered names
    → out ≡ names
    → IsTerm (length names) x
    → TermStep names out x
still_step names {x} {out} h same s = record {
  numbered = rw same h;
  grows = rw same (omega arith);
  sound = rw same s;
  fresh = λ j low high. absurd (omega (arith, ap (length {0}) same));
}

pub term_step :
    (t : N3Term) (binding : Binding) (names : Renumber) {x : PatternTerm} {out : Renumber}
    → IsNumbered names
    → term t binding names ≡ ok (x, out)
    → TermStep names out x
unfolding term
term_step (N3Term.named_node n) binding names {x} {out} h e =
    elim (Bool-cases (is_reserved_iri n)) [
      | inl yes_reserved ↦ absurd (ground arith)
      | inr free ↦
          let this : x ≡ named n = ground arith in still_step names h (ground arith) (rw this free)
    ]
term_step (N3Term.literal l) binding names {x} {out} h e = elim (Bool-cases (is_some l.direction)) [
  | inl directed ↦ absurd (ground arith)
  | inr plain ↦
      let this : x ≡ literal l = ground arith in still_step names h (ground arith) (rw this plain)
]
term_step (N3Term.variable v) Binding.bind names h e = fresh_step v names h e
term_step (N3Term.variable v) Binding.lookup names {x} {out} h e =
    elim (Option-cases (lookup v names)) [
      | inl unbound ↦ absurd (unfold known_var in ground arith)
      | inr (i, known) ↦
          let this : x ≡ var i = unfold known_var in ground arith in
          still_step names h (unfold known_var in ground arith)
            (rw this (lookup-lt-length v i h known))
    ]
term_step (N3Term.blank_node b) Binding.bind names h e = fresh_step (blank_key b) names h e
term_step (N3Term.blank_node b) Binding.lookup names h e = absurd (ground arith)
term_step (N3Term.triple t) binding names h e = absurd (ground arith)

pub non_literal_step :
    (t : PatternTerm) (violation : Text) (names : Renumber) {x : PatternTerm} {out : Renumber}
    → non_literal t violation names ≡ ok (x, out)
    → (x ≡ t) × (out ≡ names) × IsNotLiteral x
unfolding non_literal
non_literal_step (named n) violation names {x} h =
    let this : x ≡ named n = ground arith in (this, ground arith, rw this tt)
non_literal_step (var i) violation names {x} h =
    let this : x ≡ var i = ground arith in (this, ground arith, rw this tt)
non_literal_step (literal l) violation names h = absurd (ground arith)

-- A lookup does not extend the map.
pub term-lookup_keeps :
    (t : N3Term) (names : Renumber) {x : PatternTerm} {out : Renumber}
    → term t Binding.lookup names ≡ ok (x, out)
    → out ≡ names
unfolding term known_var
term-lookup_keeps (N3Term.triple t) names h = ground arith
term-lookup_keeps _ names h = ground arith
