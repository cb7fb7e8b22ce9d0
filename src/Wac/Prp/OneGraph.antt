-- ===== src/Wac/Prp/OneGraph.antt =====
-- A store that holds the triples of one graph, for runs of src/wac/prp.rs and of what calls it.
use mathlib.Core.List.{Memᴰ}
use mathlib.Core.List.Memᴰ
use native.Mathlib.Decide.{ℕ_discrete}
use quadpod.Prelude.{
  ◌≡◌, refl, sym, Bool, true, false, ◌&&◌, ◌||◌, List, [], ◌∷◌, map, ◌==◌, nat_eq, list_eq, text_eq,
  Text, Result, ok, Bool-cases, inl, inr, arith,
}
use quadpod.Terms.{Triple, decided, decided_iff}
use quadpod.Resource.{ResourceError}
use quadpod.Wac.Prp.{Row}
use quadpod.Wac.Prp.Selected.{row_of, SelectLaws}

unfoldable pub Triple-discrete : Discrete Triple
Triple-discrete = hlevel ℕ_discrete

abbrev has_triple : List Triple → Triple → Bool
has_triple [] t = false
has_triple (u ∷ us) t = decided (Triple-discrete u t) || has_triple us t

has_triple_of_Mem : (us : List Triple) (t : Triple) → Memᴰ t us → has_triple us t ≡ true
has_triple_of_Mem (u ∷ us) t (Memᴰ.head e) =
    ground (arith, (decided_iff (Triple-discrete u t)).1 (sym e))
has_triple_of_Mem (u ∷ us) t (Memᴰ.tail m) = ground (arith, has_triple_of_Mem us t m)
has_triple_of_Mem [] t m = elim m [ ]

Mem_of_has_triple : (us : List Triple) (t : Triple) → has_triple us t ≡ true → Memᴰ t us
Mem_of_has_triple [] t h = absurd (ground (arith, h))
Mem_of_has_triple (u ∷ us) t h = elim (Bool-cases (decided (Triple-discrete u t))) [
  | inl e ↦ Memᴰ.head (sym ((decided_iff (Triple-discrete u t)).0 e))
  | inr e ↦ Memᴰ.tail (Mem_of_has_triple us t (ground (arith, h, e)))
]

module _ (graph : Text) (triples : List Triple) where
  abbrev pub one_graph : Text → Result ResourceError (List Row)
  one_graph query = ok (map (row_of graph) triples)

  abbrev pub one_graph_holds : Text → Triple → Bool
  one_graph_holds g t = (g == graph) && has_triple triples t

  pub one_graph_laws : SelectLaws one_graph one_graph_holds
  one_graph_laws = record {
    sound = λ gs e row m.
        let m' = rw (← rows_of e) at m in
        let (t, mt, made) = Memᴰ.of_map (row_of graph) triples m' in
        (
          graph,
          t,
          sym made,
          ground (arith, (text_eq graph graph).1 refl, has_triple_of_Mem triples t mt),
        );
    complete = λ gs e g t named held.
        let same : g ≡ graph = (text_eq g graph).0 (ground (arith, held)) in
        let listed = Mem_of_has_triple triples t (ground (arith, held)) in
        rw (same, ← rows_of e) (Memᴰ.map (row_of graph) listed);
  }
    where
      rows_of :
          {rows : List Row}
          → ◌≡◌ {A = Result ResourceError (List Row)} (ok (map (row_of graph) triples)) (ok rows)
          → map (row_of graph) triples ≡ rows
      rows_of e = cc e
