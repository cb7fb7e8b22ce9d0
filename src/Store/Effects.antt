-- ===== src/Store/Effects.antt =====
-- Sequences of operations: drops first, then what is inserted.
use mathlib.Core.Path.{fun_ext}
use mathlib.Core.List.{Memᴰ}
use quadpod.Prelude.{
  ◌≡◌, ◌↔◌, refl, ◌∙◌, ap, inl, inr, true, false, ◌||◌, List, [], ◌∷◌, ◌++◌, map, if◌then◌else◌,
  ◌==◌, nat_eq, list_eq, Text, Bool-cases, member, arith,
}
use quadpod.Terms.{decided_iff}
use quadpod.Store.{Fact, Fact-discrete, fact_eq, Operation, drop_silent, insert_data}
use quadpod.Store.Laws.{View, has, mentions, effect, effects}

pub fact_eq_iff : (f g : Fact) → ((f == g) ≡ true) ↔ (f ≡ g)
fact_eq_iff f g = decided_iff (Fact-discrete f g)

abbrev pub without : List Text → View → View
without gs v h f = if member h gs then false else v h f

pub effects-append :
    (os ps : List Operation) (v : View) → effects (os ++ ps) v ≡ effects ps (effects os v)
unfolding effects
effects-append [] ps v = refl
effects-append (o ∷ os) ps v = effects-append os ps (effect o v)

drop_one :
    (g : Text) (gs : List Text) (v : View)
    → without gs (effect (drop_silent g) v) ≡ without (g ∷ gs) v
unfolding effect member
drop_one g gs v = fun_ext λ h. fun_ext λ f. ground arith

pub effects-drops :
    (gs : List Text) (os : List Operation) (v : View)
    → effects (map drop_silent gs ++ os) v ≡ effects os (without gs v)
unfolding effects member
effects-drops [] os v = refl
effects-drops (g ∷ gs) os v =
    effects-drops gs os (effect (drop_silent g) v) ∙ ap (effects os) (drop_one g gs v)

-- The form of the updates that replace a resource: drops, then two insertions.
pub effects-replace :
    (gs : List Text) (a c : List (Text × List Fact)) (v : View) (h : Text) (f : Fact)
    → effects (map drop_silent gs ++ insert_data a ∷ insert_data c ∷ []) v h f
      ≡ ((without gs v h f || mentions a h f) || mentions c h f)
unfolding effects effect
effects-replace gs a c v h f =
    ap (λ (w : View). w h f) (effects-drops gs (insert_data a ∷ insert_data c ∷ []) v)

pub member-append :
    (x : Text) (xs ys : List Text) → member x (xs ++ ys) ≡ (member x xs || member x ys)
unfolding member
member-append x [] ys = refl
member-append x (y ∷ xs) ys = ground (arith, member-append x xs ys)

pub has_iff : (f : Fact) (fs : List Fact) → (has f fs ≡ true) ↔ Memᴰ f fs
has_iff f fs = (to fs, from fs)
  where
    to : (gs : List Fact) → has f gs ≡ true → Memᴰ f gs
    to [] h = absurd (ground arith)
    to (g ∷ gs) h = elim (Bool-cases (g == f)) [
      | inl e ↦ Memᴰ.head (ground (arith, fact_eq_iff g f))
      | inr e ↦ Memᴰ.tail (to gs (ground arith))
    ]

    from : (gs : List Fact) → Memᴰ f gs → has f gs ≡ true
    from [] m = elim m [ ]
    from (g ∷ gs) (Memᴰ.head e) = ground (arith, fact_eq_iff g f)
    from (g ∷ gs) (Memᴰ.tail m) = ground (arith, from gs m)
