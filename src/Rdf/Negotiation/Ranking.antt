-- ===== src/Rdf/Negotiation/Ranking.antt =====
-- The order of an Accept header in src/rdf.rs, for qualities that are numbers.
use mathlib.Core.List.{Memᴰ}
use mathlib.Core.List.Memᴰ
use quadpod.Prelude.{
  ℕ, ◌≡◌, sym, ◌∙◌, inl, inr, Bool, true, false, ◌&&◌, ◌||◌, List, [], ◌∷◌, All, ltb, leb, ◌==◌,
  nat_eq, arith, Bool-cases,
}
use quadpod.Rdf.Negotiation.{Quality, Ranked, comes_first, insert_ranked, sort_ranked}

-- The order of the qualities that are numbers, by a rank for each: an f32 is one unless it is NaN.
pub record Numbers {Q : Type 0} (quality : Quality Q) : Type 0 where
  pub is_number : Q → Bool
  pub rank : Q → ℕ
  pub greater_rank :
      (a b : Q)
      → is_number a ≡ true
      → is_number b ≡ true
      → quality.greater a b ≡ ltb (rank b) (rank a)

module _ {Q : Type 0} (quality : Quality Q) (numbers : Numbers quality) where
  -- Of the higher quality, or of the same and not later in the header.
  abbrev pub preferred : Ranked Q → Ranked Q → Bool
  preferred a b =
      ltb (numbers.rank b.q) (numbers.rank a.q)
      || (numbers.rank a.q == numbers.rank b.q && leb a.position b.position)

  abbrev pub IsNumber : Ranked Q → Type 0
  IsNumber e = numbers.is_number e.q ≡ true

  abbrev pub Sorted : List (Ranked Q) → Type 0
  Sorted [] = Unit {0}
  Sorted (a ∷ l) = All (λ b. preferred a b ≡ true) l × Sorted l

  comes_first-preferred :
      (a b : Ranked Q) → IsNumber a → IsNumber b → comes_first quality a b ≡ preferred a b
  unfolding comes_first
  comes_first-preferred a b na nb =
      ground (arith, numbers.greater_rank a.q b.q na nb, numbers.greater_rank b.q a.q nb na)

  preferred_trans :
      (a b c : Ranked Q) → preferred a b ≡ true → preferred b c ≡ true → preferred a c ≡ true
  preferred_trans a b c h k = ground (arith, h, k)

  preferred_total : (a b : Ranked Q) → preferred a b ≡ false → preferred b a ≡ true
  preferred_total a b h = ground (arith, h)

  All-after :
      (a b : Ranked Q) (l : List (Ranked Q))
      → preferred a b ≡ true
      → All (λ c. preferred b c ≡ true) l
      → All (λ c. preferred a c ≡ true) l
  All-after a b [] h k = tt
  All-after a b (c ∷ l) h (k, ks) = (preferred_trans a b c h k, All-after a b l h ks)

  pub insert_ranked-All :
      (P : Ranked Q → Type 0) (a : Ranked Q) (l : List (Ranked Q))
      → P a
      → All P l
      → All P (insert_ranked quality a l)
  unfolding insert_ranked
  insert_ranked-All P a [] p ps = (p, tt)
  insert_ranked-All P a (b ∷ l) p (q, ps) = elim (Bool-cases (comes_first quality a b)) [
    | inl e ↦ rw e (p, (q, ps))
    | inr e ↦ rw e (q, insert_ranked-All P a l p ps)
  ]

  pub sort_ranked-All :
      (P : Ranked Q → Type 0) (l : List (Ranked Q)) → All P l → All P (sort_ranked quality l)
  unfolding sort_ranked
  sort_ranked-All P [] ps = tt
  sort_ranked-All P (a ∷ l) (p, ps) =
      insert_ranked-All P a (sort_ranked quality l) p (sort_ranked-All P l ps)

  Mem-insert_ranked :
      (e a : Ranked Q) (l : List (Ranked Q)) → Memᴰ e (a ∷ l) → Memᴰ e (insert_ranked quality a l)
  unfolding insert_ranked
  Mem-insert_ranked e a [] m = m
  Mem-insert_ranked e a (b ∷ l) m = elim (Bool-cases (comes_first quality a b)) [
    | inl first ↦ rw first m
    | inr later ↦ rw later (elim (Memᴰ.cases_cons m) [
      | inl same ↦ Memᴰ.tail (Mem-insert_ranked e a l (Memᴰ.head same))
      | inr rest ↦ elim (Memᴰ.cases_cons rest) [
        | inl same ↦ Memᴰ.head same
        | inr far ↦ Memᴰ.tail (Mem-insert_ranked e a l (Memᴰ.tail far))
      ]
    ])
  ]

  pub Mem-sort_ranked :
      (e : Ranked Q) (l : List (Ranked Q)) → Memᴰ e l → Memᴰ e (sort_ranked quality l)
  unfolding sort_ranked
  Mem-sort_ranked e [] m = m
  Mem-sort_ranked e (a ∷ l) m =
      Mem-insert_ranked e a (sort_ranked quality l) (elim (Memᴰ.cases_cons m) [
        | inl same ↦ Memᴰ.head same
        | inr rest ↦ Memᴰ.tail (Mem-sort_ranked e l rest)
      ])

  insert_ranked-Sorted :
      (a : Ranked Q) (l : List (Ranked Q))
      → IsNumber a
      → All IsNumber l
      → Sorted l
      → Sorted (insert_ranked quality a l)
  unfolding insert_ranked
  insert_ranked-Sorted a [] n ns s = (tt, tt)
  insert_ranked-Sorted a (b ∷ l) n (m, ms) (s, ss) = elim (Bool-cases (comes_first quality a b)) [
    | inl e ↦
        let first : preferred a b ≡ true = sym (comes_first-preferred a b n m) ∙ e in
        rw e ((first, All-after a b l first s), (s, ss))
    | inr e ↦
        let later : preferred b a ≡ true =
          preferred_total a b (sym (comes_first-preferred a b n m) ∙ e) in
        rw e (
          insert_ranked-All (λ c. preferred b c ≡ true) a l later s,
          insert_ranked-Sorted a l n ms ss,
        )
  ]

  pub sort_ranked-Sorted : (l : List (Ranked Q)) → All IsNumber l → Sorted (sort_ranked quality l)
  unfolding sort_ranked
  sort_ranked-Sorted [] n = tt
  sort_ranked-Sorted (a ∷ l) (n, ns) =
      insert_ranked-Sorted a (sort_ranked quality l) n (sort_ranked-All IsNumber l ns)
        (sort_ranked-Sorted l ns)
