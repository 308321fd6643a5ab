-- ===== src/Classifier/Labels.antt =====
-- The answers of the classifier.
use predictive_consistent_ha.Prelude.{
  ℕ, zero, suc, String, true, Option, none, some, List, [], ◌∷◌, ◌≡◌, ◌≤◌, refl, subst, arith,
  get_elem?, elem, All, Bool-cases, Option-cases, inl, inr, ◌||◌, string_eq, get_or_else,
}
use predictive_consistent_ha.Prelude.Float.{Float, IsOrdered, InUnit, ratio-InUnit}
use mathlib.Core.Option.{some-injective}
use predictive_consistent_ha.Classifier.{
  Classifier, Model, label_names, heuristic_label, update_stats, judge, infer, classify,
}

get_elem?-All :
    {A : Type 0} (P : A → Type 0) (xs : List A) (i : ℕ) (x : A)
    → All P xs
    → get_elem? xs i ≡ some x
    → P x
get_elem?-All P [] i x all e = absurd (ground (arith, e))
get_elem?-All P (y ∷ ys) zero x all e = subst P (some-injective y x e) all.0
get_elem?-All P (y ∷ ys) (suc i) x all e = get_elem?-All P ys i x all.1 e

label_names-elem : All (λ l. elem l label_names ≡ true) label_names
label_names-elem = (refl, (refl, (refl, tt)))

-- What an answer promises: a known label, a confidence between 0 and 1, and fallbacks that are
-- no more than the predictions.
pub record IsAnswer {W : Type 0} ⦃f : Float W⦄ (answer : Classifier W × (String × W)) : Type 0 where
  pub known : elem answer.1.0 label_names ≡ true
  pub confidence : InUnit answer.1.1
  pub fallbacks : answer.0.total_fallbacks ≤ answer.0.total_predictions

module _ {W : Type 0} ⦃f : Float W⦄ (laws : IsOrdered W) where
  heuristic_label-IsAnswer :
      (c : Classifier W) (features : List W)
      → c.total_fallbacks ≤ c.total_predictions
      → IsAnswer (c, heuristic_label features)
  unfolding heuristic_label
  heuristic_label-IsAnswer c features h =
      let payload = get_or_else (get_elem? features 0) (f.ratio 5 10) in
      let cpu = get_or_else (get_elem? features 1) (f.ratio 5 10) in
      elim (Bool-cases (f.lt (f.ratio 5 10) payload || f.lt (f.ratio 7 10) cpu)) [
        | inl e ↦ rw e (record {
          known = refl;
          confidence = ratio-InUnit laws 65 100 (omega arith) (omega arith);
          fallbacks = h;
        })
        | inr e ↦ elim (Bool-cases (f.lt (f.ratio 15 100) payload || f.lt (f.ratio 3 10) cpu)) [
          | inl k ↦ rw e (
              rw k (record {
                known = refl;
                confidence = ratio-InUnit laws 60 100 (omega arith) (omega arith);
                fallbacks = h;
              }))
          | inr k ↦ rw e (
              rw k (record {
                known = refl;
                confidence = ratio-InUnit laws 70 100 (omega arith) (omega arith);
                fallbacks = h;
              }))
        ]
      ]

  judge-IsAnswer :
      (elapsed_ms : W) (features : List W) (index : ℕ) (confidence : W) (c : Classifier W)
      → InUnit confidence
      → c.total_fallbacks ≤ c.total_predictions
      → IsAnswer (judge elapsed_ms features index confidence c)
  unfolding judge update_stats
  judge-IsAnswer elapsed_ms features index confidence c u h =
      elim (Bool-cases (f.lt confidence c.confidence_threshold)) [
        | inl e ↦ rw e (record { known = refl; confidence = u; fallbacks = omega (arith, h) })
        | inr e ↦ elim (Option-cases (get_elem? label_names index)) [
          | inl k ↦ rw e (rw k (heuristic_label-IsAnswer _ features (omega (arith, h))))
          | inr (label, k) ↦ rw e (
              rw k (record {
                known =
                    get_elem?-All (λ l. elem l label_names ≡ true) label_names index label
                      label_names-elem k;
                confidence = u;
                fallbacks = omega (arith, h);
              }))
        ]
      ]

  infer-IsAnswer :
      (m : Model W) (elapsed_ms : W) (features : List W) (answer : Option (List W))
      (c : Classifier W)
      → ((proba : List W) → answer ≡ some proba → All InUnit proba)
      → c.total_fallbacks ≤ c.total_predictions
      → IsAnswer (infer m elapsed_ms features answer c)
  unfolding infer
  infer-IsAnswer m elapsed_ms features none c p h = heuristic_label-IsAnswer c features h
  infer-IsAnswer m elapsed_ms features (some proba) c p h =
      elim (Option-cases (get_elem? proba (m.argmax proba))) [
        | inl i ↦ rw i (heuristic_label-IsAnswer c features h)
        | inr (confidence, i) ↦ rw i (
            judge-IsAnswer elapsed_ms features (m.argmax proba) confidence c
              (get_elem?-All InUnit proba (m.argmax proba) confidence (p proba refl) i) h)
      ]

  -- Whatever the model answers or fails to answer, a classification is one of the three labels,
  -- its confidence is between 0 and 1 if the model's probabilities are, and there are never more
  -- fallbacks than predictions.
  pub classify-IsAnswer :
      (m : Model W) (elapsed_ms : W) (features : List W) (c : Classifier W)
      → ((proba : List W) → m.predict_proba features ≡ some proba → All InUnit proba)
      → c.total_fallbacks ≤ c.total_predictions
      → IsAnswer (classify m elapsed_ms features c)
  unfolding classify
  classify-IsAnswer m elapsed_ms features c p h = elim (Bool-cases c.loaded) [
    | inr e ↦ rw e (heuristic_label-IsAnswer _ features h)
    | inl e ↦ rw e (infer-IsAnswer m elapsed_ms features (m.predict_proba features) _ p h)
  ]
