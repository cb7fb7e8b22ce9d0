-- ===== src/Store/Actions.antt =====
-- Inversion of the calls that answered `Ok`.
use quadpod.Prelude.{
  ◌≡◌, refl, sym, ◌∙◌, ap, Bool, true, if◌then◌else◌, inl, inr, Result, ok, err, Result-cases,
  arith,
}
use quadpod.Store.{Action, ◌>>=◌, lift, pure, raise, wrap_write, wrap_read}

module _ {W E A : Type 0} where
  pub bind_ok :
      {B : Type 0} (m : Action W E A) (f : A → Action W E B) (w w' : W) {x : B}
      → (m >>= f) w ≡ (ok x, w')
      → (a : A) × ((m w).0 ≡ ok a) × (f a (m w).1 ≡ (ok x, w'))
  unfolding ◌>>=◌
  bind_ok m f w w' {x} h = elim (Result-cases (m w).0) [
    | inl (a, e) ↦ let run : (m >>= f) w ≡ f a (m w).1 = rw (e, ◌>>=◌) refl in (a, e, sym run ∙ h)
    | inr (t, e) ↦
        let run : (m >>= f) w ≡ (err t, (m w).1) = rw (e, ◌>>=◌) refl in
        absurd (ground (arith, ap (λ (o : Result E _ × W). o.0) (sym run ∙ h)))
  ]

  pub wrap_write_ok :
      {E' : Type 0} (wrap : E → E') (m : Action W E A) (w : W) {a : A}
      → (wrap_write wrap m w).0 ≡ ok a
      → (m w).0 ≡ ok a
  unfolding wrap_write
  wrap_write_ok wrap m w h = elim (Result-cases (m w).0) [
    | inl (a, e) ↦ ground (arith, e, h)
    | inr (t, e) ↦ absurd (ground (arith, e, h))
  ]

  pub wrap_read_ok :
      {E' : Type 0} (wrap : E → E') (m : W → Result E A) (w : W) {a : A}
      → (wrap_read wrap m w).0 ≡ ok a
      → m w ≡ ok a
  unfolding wrap_read
  wrap_read_ok wrap m w h = elim (Result-cases (m w)) [
    | inl (a, e) ↦ ground (arith, e, h)
    | inr (t, e) ↦ absurd (ground (arith, e, h))
  ]

  pub checked_ok :
      (c : Bool) (a : A) (e : E) (w : W) {x : A}
      → ((if c then pure a else raise e) w).0 ≡ ok x
      → c ≡ true
  unfolding lift
  checked_ok true a e w h = refl
  checked_ok c a e w h = ground (arith, h)

  pub bind_run :
      {B : Type 0} (m : Action W E A) (f : A → Action W E B) (w : W) {a : A} {w' : W}
      → m w ≡ (ok a, w')
      → (m >>= f) w ≡ f a w'
  unfolding ◌>>=◌
  bind_run {B} m f w h =
      ap
        (λ (o : Result E A × W). elim o.0 as (λ _. Result E B × W) [
          | ok a ↦ f a (o.1)
          | err e ↦ (err e, o.1)
        ])
        h
