-- ===== src/Store/Memory.antt =====
-- A store in memory that keeps every law of `Store.Laws`: the facts and the objects as lists. It
-- answers no `SELECT`. It is what the theorems about src/resource.rs and src/aux.rs run on.
use mathlib.Core.Path.{fun_ext, subst}
use mathlib.Core.List.{Memᴰ}
use quadpod.Prelude.{
  ◌≡◌, ◌↔◌, refl, sym, ◌∙◌, ap, inl, inr, Bool, true, not, ◌&&◌, ◌||◌, Option, List, [], ◌∷◌, ◌++◌,
  map, any, all, retain, if◌then◌else◌, ◌==◌, nat_eq, list_eq, text_eq, Text, Map, get, insert,
  remove, get-insert, get-remove, ok, Bool-cases, arith,
}
use quadpod.Store.{
  Fact, fact_eq, triple_of, Located, Operation, drop_silent, insert_data, delete_data, clear_where,
  insert_where, modify, Query, everything, objects, Backend,
}
use quadpod.Store.Laws.{View, has, mentions, met, effect, effects, Matches, BackendLaws}
use quadpod.Store.Effects.{fact_eq_iff}

pub record Memory : Type 0 where
  pub facts : List Located
  pub objects : Map Text

abbrev is_located : Text → Fact → Located → Bool
is_located g f l = l.0 == g && l.1 == f

abbrev pub memory_holds : List Located → View
memory_holds ls g f = any (is_located g f) ls

abbrev pub memory_has : Memory → View
memory_has m = memory_holds m.facts

unfoldable pub located : List (Text × List Fact) → List Located
located [] = []
located ((g, fs) ∷ gs) = map (λ f. (g, f)) fs ++ located gs

unfoldable pub run_one : Operation → List Located → List Located
run_one (drop_silent g) ls = retain (λ l. not (l.0 == g)) ls
run_one (insert_data gs) ls = ls ++ located gs
run_one (delete_data g fs) ls = retain (λ l. not (l.0 == g && has (l.1) fs)) ls
run_one (clear_where g guard) ls =
    if met guard (memory_holds ls) then retain (λ l. not (l.0 == g)) ls else ls
run_one (insert_where gs guard) ls = if met guard (memory_holds ls) then ls ++ located gs else ls
run_one (modify g ds is guard) ls =
    if all (memory_holds ls g) ds && met guard (memory_holds ls)
    then retain (λ l. not (l.0 == g && has (l.1) ds)) ls ++ located ((g, is) ∷ [])
    else ls

unfoldable pub run_all : List Operation → List Located → List Located
run_all [] ls = ls
run_all (o ∷ os) ls = run_all os (run_one o ls)

is_located_iff : (g : Text) (f : Fact) (l : Located) → (is_located g f l ≡ true) ↔ (l ≡ (g, f))
is_located_iff g f (h, e) = (
  λ t. ground (arith, t, text_eq h g, fact_eq_iff e f),
  λ p. ground (
    arith,
    (text_eq h g).1 (ap (λ (l : Located). l.0) p),
    (fact_eq_iff e f).1 (ap (λ (l : Located). l.1) p),
  ),
)

holds-retain :
    (p : Located → Bool) (ls : List Located) (g : Text) (f : Fact)
    → memory_holds (retain p ls) g f ≡ (memory_holds ls g f && p (g, f))
holds-retain p [] g f = refl
holds-retain p (l ∷ ls) g f = elim (Bool-cases (is_located g f l)) [
  | inl e ↦
      let same : l ≡ (g, f) = (is_located_iff g f l).0 e in
      ground (arith, holds-retain p ls g f, ap p same, e)
  | inr e ↦ ground (arith, holds-retain p ls g f, e)
]

holds-append :
    (ls ms : List Located) (g : Text) (f : Fact)
    → memory_holds (ls ++ ms) g f ≡ (memory_holds ls g f || memory_holds ms g f)
holds-append [] ms g f = refl
holds-append (l ∷ ls) ms g f = ground (arith, holds-append ls ms g f)

holds-group :
    (g h : Text) (fs : List Fact) (f : Fact)
    → memory_holds (map (λ x. (g, x)) fs) h f ≡ (g == h && has f fs)
holds-group g h [] f = ground arith
holds-group g h (x ∷ fs) f = ground (arith, holds-group g h fs f)

holds-located :
    (gs : List (Text × List Fact)) (h : Text) (f : Fact)
    → memory_holds (located gs) h f ≡ mentions gs h f
unfolding located
holds-located [] h f = refl
holds-located ((g, fs) ∷ gs) h f =
    holds-append (map (λ x. (g, x)) fs) (located gs) h f
    ∙ ground (arith, holds-group g h fs f, holds-located gs h f)

-- Each operation has the effect that is documented of it.
run_one-effect :
    (o : Operation) (ls : List Located) (g : Text) (f : Fact)
    → memory_holds (run_one o ls) g f ≡ effect o (memory_holds ls) g f
unfolding run_one effect
run_one-effect (drop_silent g) ls h f =
    holds-retain (λ l. not (l.0 == g)) ls h f ∙ ground (arith, text_eq g h, text_eq h g)
run_one-effect (insert_data gs) ls h f =
    ground (arith, holds-append ls (located gs) h f, holds-located gs h f)
run_one-effect (delete_data g fs) ls h f =
    holds-retain (λ l. not (l.0 == g && has (l.1) fs)) ls h f
    ∙ ground (arith, text_eq g h, text_eq h g)
run_one-effect (clear_where g guard) ls h f =
    ground (arith, holds-retain (λ (l : Located). not (l.0 == g)) ls h f, text_eq g h, text_eq h g)
run_one-effect (insert_where gs guard) ls h f =
    ground (arith, holds-append ls (located gs) h f, holds-located gs h f)
run_one-effect (modify g ds is guard) ls h f = ground (
  arith,
  holds-append (retain (λ (l : Located). not (l.0 == g && has (l.1) ds)) ls)
      (located ((g, is) ∷ [])) h f,
  holds-retain (λ (l : Located). not (l.0 == g && has (l.1) ds)) ls h f,
  holds-located ((g, is) ∷ []) h f,
  text_eq g h,
  text_eq h g,
)

run_all-effects :
    (os : List Operation) (ls : List Located) (g : Text) (f : Fact)
    → memory_holds (run_all os ls) g f ≡ effects os (memory_holds ls) g f
unfolding run_all effects
run_all-effects [] ls g f = refl
run_all-effects (o ∷ os) ls g f =
    run_all-effects os (run_one o ls) g f
    ∙ ap (λ (v : View). effects os v g f) (fun_ext λ h. fun_ext λ e. run_one-effect o ls h e)

abbrev matches : Query → Fact → Bool
matches everything f = true
matches (objects s p) f = f.subject == s && f.predicate == p

matches_iff : (q : Query) (f : Fact) → (matches q f ≡ true) ↔ Matches q f
matches_iff everything f = (λ _. tt, λ _. refl)
matches_iff (objects s p) f = ground (arith, text_eq f.subject s, text_eq f.predicate p)

unfoldable pub listed : Text → Query → List Located → List Fact
listed g q [] = []
listed g q ((h, f) ∷ ls) =
    let rest = listed g q ls in if h == g && matches q f then f ∷ rest else rest

listed_sound :
    (g : Text) (q : Query) (ls : List Located) (f : Fact)
    → Memᴰ f (listed g q ls)
    → (memory_holds ls g f ≡ true) × Matches q f
unfolding listed
listed_sound g q [] f m = elim m [ ]
listed_sound g q ((h, e) ∷ ls) f m = elim (Bool-cases (h == g && matches q e)) [
  | inr out ↦ let r = listed_sound g q ls f (rw out at m) in (ground (arith, r.0), r.1)
  | inl chosen ↦ first (rw chosen at m) chosen (listed_sound g q ls f)
]
  where
    first :
        Memᴰ f (e ∷ listed g q ls)
        → (h == g && matches q e) ≡ true
        → (Memᴰ f (listed g q ls) → (memory_holds ls g f ≡ true) × Matches q f)
        → (memory_holds ((h, e) ∷ ls) g f ≡ true) × Matches q f
    first (Memᴰ.head same) chosen rest = (
      ground (arith, chosen, (fact_eq_iff e f).1 (sym same)),
      subst (Matches q) (sym same) ((matches_iff q e).0 (ground (arith, chosen))),
    )
    first (Memᴰ.tail m) chosen rest = let r = rest m in (ground (arith, r.0), r.1)

listed_complete :
    (g : Text) (q : Query) (ls : List Located) (f : Fact)
    → memory_holds ls g f ≡ true
    → Matches q f
    → Memᴰ f (listed g q ls)
unfolding listed
listed_complete g q [] f held matched = absurd (ground (arith, held))
listed_complete g q ((h, e) ∷ ls) f held matched = elim (Bool-cases (is_located g f (h, e))) [
  | inl here ↦
      let same : e ≡ f = (fact_eq_iff e f).0 (ground (arith, here)) in
      let fits : matches q e ≡ true = ap (matches q) same ∙ (matches_iff q f).1 matched in
      let chosen : (h == g && matches q e) ≡ true = ground (arith, here, fits) in
      rw chosen (Memᴰ.head (sym same))
  | inr elsewhere ↦
      let rest = listed_complete g q ls f (ground (arith, held, elsewhere)) matched in
      elim (Bool-cases (h == g && matches q e)) [
        | inl chosen ↦ rw chosen (Memᴰ.tail rest)
        | inr out ↦ rw out rest
      ]
]

abbrev pub memory : Backend Memory
memory = record {
  update = λ os m. (ok tt, record m { facts = run_all os m.facts });
  ask = λ g fs m. ok (all (memory_has m g) fs);
  construct = λ g q m. ok (map triple_of (listed g q m.facts));
  select_two = λ g ps m. ok [];
  put_blob = λ k bytes m. (ok tt, record m { objects = insert k bytes m.objects });
  get_blob = λ k m. ok (get k m.objects);
  delete_blob = λ k m. (ok tt, record m { objects = remove k m.objects });
}

abbrev pub memory_object : Memory → Text → Option Text
memory_object m k = get k m.objects

pub memory_laws : BackendLaws memory memory_has memory_object
memory_laws = record {
  updated = λ os w g f e. run_all-effects os w.facts g f;
  not_updated = λ os w x g f e. cc;
  update_keeps_objects = λ os w k. refl;
  asked = λ g fs w a e. cc;
  constructed = λ g q w ts e. (
    listed g q w.facts,
    cc,
    record { sound = listed_sound g q w.facts; complete = listed_complete g q w.facts },
  );
  blobs_keep_facts = λ k bytes w g f. refl;
  deleting_keeps_facts = λ k w g f. refl;
  stored = λ k j bytes w e. get-insert k j bytes w.objects;
  not_stored = λ k j bytes x w e. cc;
  deleted = λ k j w e. get-remove k j w.objects;
  fetched = λ k w o e. cc;
}
