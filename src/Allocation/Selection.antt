-- ===== src/Allocation/Selection.antt =====
-- `select_node` picks a candidate with the least score, and its overload flag is a test of that
-- score alone.
use predictive_consistent_ha.Prelude.{
  String, true, false, Option, none, some, List, [], ◌∷◌, ◌≡◌, refl, sym, ap, ◌∙◌, arith,
  if◌then◌else◌, get_or_else, string_eq, elem, elem→All, All, Distinct, ==_refl, ==_lem, ◌==◌,
  Option-cases, inl, inr, subst, is_some,
}
use predictive_consistent_ha.Prelude.Dict.{
  Dict, keys, lookup, insert, lookup-insert, insert-Distinct,
}
use predictive_consistent_ha.Prelude.Float.{Float, IsOrdered, ◌≼◌, of_nat, IsOrdered-IsWeakOrder}
use predictive_consistent_ha.Prelude.Choice.{min_key, min_key-ne-none, min_key-cases, All-lookup}
use predictive_consistent_ha.Allocation.{
  Engine, compute_score, score_all, select_node, all_above, chosen,
}

module _ {W : Type 0} ⦃f : Float W⦄ (predicted_loads : Dict String W) (now : W) (e : Engine W) where
  -- The score that `select_node` gives a node.
  abbrev pub score_of : String → W
  score_of node = compute_score node (get_or_else (lookup node predicted_loads) (of_nat 0)) now e

  lookup-score_all :
      (k : String) (cs : List String) (scores : Dict String W)
      → lookup k (score_all predicted_loads now e cs scores)
        ≡ (if elem k cs then some (score_of k) else lookup k scores)
  unfolding score_all
  lookup-score_all k [] scores = refl
  lookup-score_all k (c ∷ cs) scores = ground (
    arith,
    lookup-score_all k cs (insert c (score_of c) scores),
    lookup-insert k c (score_of c) scores,
    score_congr k c,
  )
    where
      score_congr : (k c : String) → (c == k) ≡ true → score_of c ≡ score_of k
      score_congr k c h = ap score_of (==_lem c k h)

  score_all-Distinct :
      (cs : List String) (scores : Dict String W)
      → Distinct (keys scores)
      → Distinct (keys (score_all predicted_loads now e cs scores))
  unfolding score_all
  score_all-Distinct [] scores d = d
  score_all-Distinct (c ∷ cs) scores d =
      score_all-Distinct cs _ (insert-Distinct c (score_of c) scores d)

module _ {W : Type 0} ⦃f : Float W⦄ (laws : IsOrdered W) where
  all_above-least :
      (t v : W) (d : Dict String W)
      → All (λ (s : String × W). v ≼ s.1) d
      → f.lt t v ≡ true
      → all_above t d ≡ true
  all_above-least t v [] all h = refl
  all_above-least t v (s ∷ d) all h =
      ground (arith, all_above-least t v d all.1, laws.le_trans v s.1 t)

  all_above-below :
      (t v : W) (k : String) (d : Dict String W)
      → lookup k d ≡ some v
      → f.lt t v ≡ false
      → all_above t d ≡ false
  all_above-below t v k [] h below = cc
  all_above-below t v k (s ∷ d) h below = ground (arith, all_above-below t v k d)

  scored_inside :
      (k : String) (cs : List String) (a v : W) {o : Option W}
      → o ≡ (if elem k cs then some a else none)
      → o ≡ some v
      → (elem k cs ≡ true) × (a ≡ v)
  scored_inside k cs a v h e = ground arith

  chosen-eq :
      (best : String) (a v : W) (scores : Dict String W) (t : W)
      → min_key f.lt scores ≡ some best
      → lookup best scores ≡ some v
      → a ≡ v
      → All (λ (s : String × W). v ≼ s.1) scores
      → chosen (min_key f.lt scores) scores (all_above t scores) ≡ (some best, a, f.lt t a)
  chosen-eq best a v scores t found at_best same least =
      ground (arith, all_above-least t v scores least, all_above-below t v best scores at_best)

  -- `select_node` on candidates: the selected node is one of them, no candidate has a lower score,
  -- the returned score is its score, and the flag says whether that score is above the threshold,
  -- which is whether all candidates are.
  pub select_node-least :
      (c : String) (cs : List String) (predicted_loads : Dict String W) (now : W) (e : Engine W)
      → let candidates = c ∷ cs in
        let score = score_of predicted_loads now e in
        (best : String) × (select_node candidates predicted_loads now e
          ≡ (some best, score best, f.lt e.overflow_threshold (score best)))
        × (elem best candidates ≡ true)
        × All (λ n. score best ≼ score n) candidates
  unfolding select_node
  select_node-least c cs predicted_loads now e =
      let scores = score_all predicted_loads now e (c ∷ cs) [] in
      let score = score_of predicted_loads now e in
      let scored = λ (k : String). lookup-score_all predicted_loads now e k (c ∷ cs) [] in
      elim (Option-cases (min_key f.lt scores)) [
        | inl nothing ↦ absurd (
            min_key-ne-none f.lt scores c nothing
              (ap is_some (scored c) ∙ ground (arith, ==_refl c)))
        | inr (best, found) ↦
            let (v, at_best, least) =
              min_key-cases f.lt scores best (IsOrdered-IsWeakOrder laws)
                (score_all-Distinct predicted_loads now e (c ∷ cs) [] tt) found in
            let (inside, same) = scored_inside best (c ∷ cs) (score best) v (scored best) at_best in
            (
              best,
              chosen-eq best (score best) v scores e.overflow_threshold found at_best same least,
              inside,
              elem→All _ (c ∷ cs) λ n m.
                  All-lookup (λ w. score best ≼ w) n (score n) scores
                    (subst (λ u. All (λ (s : String × W). u ≼ s.1) scores) (sym same) least)
                    (scored n ∙ ground arith),
            )
      ]
