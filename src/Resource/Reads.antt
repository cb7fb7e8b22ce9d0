-- ===== src/Resource/Reads.antt =====
-- Calls of src/resource.rs that only read: what they answer in one state of the stores.
use mathlib.Core.Path.{subst}
use mathlib.Core.List.{Memᴰ}
use mathlib.Core.List.Memᴰ
use quadpod.Prelude.{
  ◌≡◌, ◌⊎◌, refl, sym, ◌∙◌, ap, inl, inr, Bool, false, none, some, List, [], ◌∷◌, map, Text, Result,
  ok, err, Bool-cases, Result-cases, arith,
}
use quadpod.Dataset.Ground.{GroundTerm, term_of}
use quadpod.Store.{Fact, triple_of, Action, ◌>>=◌, lift, pure, wrap_read}
use quadpod.Resource.{ResourceError, store}
use quadpod.Resource.Datasets.{named_objects, first_valid}

-- The answer is one of which `P` holds, or the store failed.
abbrev pub Outcome : {A : Type 0} → (A → Type 0) → Result ResourceError A → Type 0
Outcome P (ok a) = P a
Outcome P (err e) = (t : Text) × (e ≡ store t)

pub record Reads {W A : Type 0} (w : W) (m : Action W ResourceError A) (P : A → Type 0)
    : Type 0 where
  pub answers : Outcome P (m w).0
  pub still : (m w).1 ≡ w

module _ {W A : Type 0} (w : W) where
  pub Reads-read :
      (m : W → Result Text A) (P : A → Type 0)
      → ((a : A) → m w ≡ ok a → P a)
      → Reads w (wrap_read store m) P
  unfolding wrap_read
  Reads-read m P h = elim (Result-cases (m w)) [
    | inl (a, e) ↦ record { answers = rw e (h a e); still = refl }
    | inr (t, e) ↦ record { answers = rw e ((t, refl)); still = refl }
  ]

  pub Reads-pure : (a : A) (P : A → Type 0) → P a → Reads w (pure a) P
  unfolding lift
  Reads-pure a P h = record { answers = h; still = refl }

  pub Reads-bind :
      {B : Type 0} (m : Action W ResourceError A) (f : A → Action W ResourceError B)
      (P : A → Type 0) (Q : B → Type 0)
      → Reads w m P
      → ((a : A) → P a → Reads w (f a) Q)
      → Reads w (m >>= f) Q
  unfolding ◌>>=◌
  Reads-bind {B} m f P Q r k = after (m w).0 refl r.answers
    where
      after : (x : Result ResourceError A) → (m w).0 ≡ x → Outcome P x → Reads w (m >>= f) Q
      after (ok a) e p =
          let run : (m >>= f) w ≡ f a w = rw (e, ◌>>=◌) (ap (f a) r.still) in
          let next = k a p in
          record {
            answers = subst (λ o. Outcome Q (o.0)) (sym run) next.answers;
            still = subst (λ (o : Result ResourceError B × W). o.1 ≡ w) (sym run) next.still;
          }
      after (err t) e p =
          let run : (m >>= f) w ≡ (err t, (m w).1) = rw (e, ◌>>=◌) refl in
          record {
            answers = subst (λ o. Outcome Q (o.0)) (sym run) p;
            still = subst (λ (o : Result ResourceError B × W). o.1 ≡ w) (sym run) r.still;
          }

abbrev with_named : GroundTerm → List Text → List Text
with_named (GroundTerm.named_node n) ns = n ∷ ns
with_named (GroundTerm.literal l) ns = ns
with_named (GroundTerm.triple s p o) ns = ns

named_objects-with_named :
    (s p : Text) (o : GroundTerm) (fs : List Fact)
    → named_objects (map triple_of (record { subject = s; predicate = p; object = o } ∷ fs))
      ≡ with_named o (named_objects (map triple_of fs))
unfolding named_objects triple_of term_of
named_objects-with_named s p (GroundTerm.named_node n) fs = refl
named_objects-with_named s p (GroundTerm.literal l) fs = refl
named_objects-with_named s p (GroundTerm.triple x y z) fs = refl

with_named-only :
    (o : GroundTerm) (ns : List Text) (n : Text)
    → Memᴰ n (with_named o ns)
    → (o ≡ GroundTerm.named_node n) ⊎ Memᴰ n ns
with_named-only (GroundTerm.named_node k) ns n m = elim (Memᴰ.cases_cons m) [
  | inl e ↦ inl (ap GroundTerm.named_node (sym e))
  | inr later ↦ inr later
]
with_named-only (GroundTerm.literal l) ns n m = inr m
with_named-only (GroundTerm.triple s p o) ns n m = inr m

with_named-keeps :
    (o : GroundTerm) (ns : List Text) (n : Text) → Memᴰ n ns → Memᴰ n (with_named o ns)
with_named-keeps (GroundTerm.named_node k) ns n m = Memᴰ.tail m
with_named-keeps (GroundTerm.literal l) ns n m = m
with_named-keeps (GroundTerm.triple s p o) ns n m = m

-- The objects that are IRIs of the triples of facts.
pub named_objects-Mem :
    (fs : List Fact) (n : Text)
    → Memᴰ n (named_objects (map triple_of fs))
    → (f : Fact) × Memᴰ f fs × (f.object ≡ GroundTerm.named_node n)
unfolding named_objects
named_objects-Mem [] n m = elim m [ ]
named_objects-Mem (f ∷ fs) n m =
    let step = named_objects-with_named f.subject f.predicate f.object fs in
    elim (with_named-only f.object (named_objects (map triple_of fs)) n (subst (Memᴰ n) step m)) [
      | inl e ↦ (f, Memᴰ.head refl, e)
      | inr later ↦ let (g, k, e) = named_objects-Mem fs n later in (g, Memᴰ.tail k, e)
    ]

pub Mem-named_objects :
    (fs : List Fact) (f : Fact) (n : Text)
    → Memᴰ f fs
    → f.object ≡ GroundTerm.named_node n
    → Memᴰ n (named_objects (map triple_of fs))
Mem-named_objects [] f n m e = elim m [ ]
Mem-named_objects (g ∷ fs) f n m e =
    let step = named_objects-with_named g.subject g.predicate g.object fs in
    subst (Memᴰ n) (sym step) (elim (Memᴰ.cases_cons m) [
      | inl same ↦ rw (ap (λ (x : Fact). x.object) (sym same) ∙ e) (Memᴰ.head refl)
      | inr later ↦
          with_named-keeps g.object (named_objects (map triple_of fs)) n
            (Mem-named_objects fs f n later e)
    ])

pub first_valid-Mem :
    (valid : Text → Bool) (ns : List Text) {n : Text} → first_valid valid ns ≡ some n → Memᴰ n ns
unfolding first_valid
first_valid-Mem valid [] h = cc
first_valid-Mem valid (m ∷ ns) {n} h = elim (Bool-cases (valid m)) [
  | inl e ↦ Memᴰ.head (ground (arith, e, h))
  | inr e ↦ Memᴰ.tail (first_valid-Mem valid ns (ground (arith, e, h)))
]

pub first_valid-none :
    (valid : Text → Bool) (ns : List Text) (n : Text)
    → first_valid valid ns ≡ none
    → Memᴰ n ns
    → valid n ≡ false
unfolding first_valid
first_valid-none valid (m ∷ ns) n h (Memᴰ.head e) = ground (arith, ap valid e, h)
first_valid-none valid (m ∷ ns) n h (Memᴰ.tail t) = elim (Bool-cases (valid m)) [
  | inl e ↦ absurd (ground (arith, e, h))
  | inr e ↦ first_valid-none valid ns n (ground (arith, e, h)) t
]
first_valid-none valid [] n h m = elim m [ ]
