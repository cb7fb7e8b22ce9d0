-- ===== src/Patch/Names.antt =====
-- `Renumber` of src/patch.rs: the map from a client's names to indices, as its entries in the
-- order of insertion.
use quadpod.Prelude.{
  ℕ, suc, ◌<◌, ◌≡◌, refl, ap, Option, none, some, List, [], ◌∷◌, ◌++◌, length, length-append,
  if◌then◌else◌, ◌==◌, nat_eq, list_eq, text_eq, Text, arith, Option-cases, inl, inr,
}

abbrev pub Renumber : Type 0
Renumber = List (Text × ℕ)

unfoldable pub lookup : Text → Renumber → Option ℕ
lookup name [] = none
lookup name ((n, i) ∷ rest) = if n == name then some i else lookup name rest

-- `*entry(name).or_insert(len)`
unfoldable pub bind : Text → Renumber → ℕ × Renumber
bind name names = elim (lookup name names) [
  | some i ↦ (i, names)
  | none ↦ (length names, names ++ (name, length names) ∷ [])
]

-- A name's index is its position: indices are 0, 1, …, and no name stands twice.
pub data IsNumbered : Renumber → Type 0 where
  start : IsNumbered []
  add :
      {names : Renumber} (name : Text)
      → IsNumbered names
      → lookup name names ≡ none
      → (next : Renumber) → next ≡ names ++ (name, length names) ∷ []
      → IsNumbered next

pub lookup-append :
    (name n : Text) (i : ℕ) (names : Renumber)
    → lookup name (names ++ (n, i) ∷ [])
      ≡ (elim (lookup name names) [ some j ↦ some j | none ↦ if n == name then some i else none ])
unfolding lookup
lookup-append name n i [] = refl
lookup-append name n i ((m, j) ∷ names) = ground (arith, lookup-append name n i names)

pub bind-IsNumbered :
    (name : Text) (names : Renumber) → IsNumbered names → IsNumbered (bind name names).1
unfolding bind
bind-IsNumbered name names h = elim (Option-cases (lookup name names)) [
  | inl e ↦ rw (e, bind) (add name h e _ refl)
  | inr (i, e) ↦ rw (e, bind) h
]

-- An index that the map gives is below its size.
pub lookup-lt-length :
    {names : Renumber} (name : Text) (i : ℕ)
    → IsNumbered names
    → lookup name names ≡ some i
    → i < length names
unfolding lookup
lookup-lt-length name i start e = cc
lookup-lt-length name i (add {names} n h new next p) e =
    let below : i < suc (length names) =
      ground (arith, lookup-append name n (length names) names, lookup-lt-length name i h) in
    omega (arith, below, ap length p, length-append names ((n, length names) ∷ []))

-- Two names that share an index are one name.
pub lookup_injective :
    {names : Renumber} (a b : Text) (i : ℕ)
    → IsNumbered names
    → lookup a names ≡ some i
    → lookup b names ≡ some i
    → a ≡ b
unfolding lookup
lookup_injective a b i start e f = cc
lookup_injective a b i (add {names} n h new next p) e f = ground (
  arith,
  lookup-append a n (length names) names,
  lookup-append b n (length names) names,
  lookup-lt-length a i h,
  lookup-lt-length b i h,
  lookup_injective a b i h,
  text_eq n a,
  text_eq n b,
)
