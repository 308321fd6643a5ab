-- ===== src/Tests/ClassifierRuns.antt =====
-- The theorems on the classifier at a small model, before and after an outcome.
use predictive_consistent_ha.Prelude.{
  ℕ, true, false, none, some, [], ◌∷◌, ◌++◌, ◌≡◌, ◌≤◌, ◌↔◌, refl, subst, arith, length, All, List,
}
use predictive_consistent_ha.Prelude.Float.{milli, milli-IsOrdered, of_nat, InUnit}
use mathlib.Core.Option.{some-injective}
use predictive_consistent_ha.Classifier.{Classifier, Model, Settings, init, load, classify}
use predictive_consistent_ha.Classifier.Labels.{IsAnswer, classify-IsAnswer}
use predictive_consistent_ha.Classifier.Drift.{
  Numpy, accuracy_or, tracking, record_outcome, get_stats,
}
use predictive_consistent_ha.Classifier.Accuracy.{outcome_of, latest_500}
use predictive_consistent_ha.Classifier.Runs.{
  World, Reach, here, next, request, outcome, new_world, Reach-accuracy, Reach-stats,
}

-- Probabilities in thousandths; the last class wins.
abbrev pub model : Model ℕ
model = record { predict_proba = λ features. some (100 ∷ 200 ∷ 700 ∷ []); argmax = λ proba. 2 }

abbrev pub numpy : Numpy ℕ
numpy = record { proportions = λ col. col; divergence = λ p q. 0 }

abbrev pub settings : Settings ℕ
settings = record { model_path = none; confidence_threshold = none; inference_timeout_ms = none }

abbrev loaded : Classifier ℕ
loaded = (load true (init settings)).0

probabilities :
    (proba : List ℕ) → some (100 ∷ 200 ∷ 700 ∷ []) ≡ some proba → All (InUnit {W = ℕ}) proba
probabilities proba e =
    subst (All (InUnit {W = ℕ})) (some-injective _ _ e)
      ((refl, refl), ((refl, refl), ((refl, refl), tt)))

no_fallbacks : loaded.total_fallbacks ≤ loaded.total_predictions
unfolding load init
no_fallbacks = omega arith

classify-IsAnswer_example : IsAnswer (classify model 1000 (500 ∷ 200 ∷ []) loaded)
classify-IsAnswer_example =
    classify-IsAnswer milli-IsOrdered model 1000 (500 ∷ 200 ∷ []) loaded probabilities no_fallbacks

abbrev world_0 : World ℕ
world_0 = new_world settings

abbrev world_1 : World ℕ
world_1 = record world_0 { classifier = (classify model 1000 (500 ∷ []) world_0.classifier).0 }

abbrev world_2 : World ℕ
world_2 = record {
  classifier = record_outcome "Light" "Heavy" none world_1.classifier;
  outcomes = world_1.outcomes ++ outcome_of "Light" "Heavy" ∷ [];
  used = true;
}

run_1 : Reach model numpy world_0 world_1
run_1 = next here (request 1000 (500 ∷ []))

run_2 : Reach model numpy world_0 world_2
run_2 = next run_1 (outcome "Light" "Heavy" none)

Reach-accuracy_example :
    ((tracking world_2.classifier).rolling_accuracy
      ≡ accuracy_or (of_nat 1) (latest_500 world_2.outcomes))
    × InUnit (tracking world_2.classifier).rolling_accuracy
    × ((tracking world_2.classifier).outcome_buffer ≡ latest_500 world_2.outcomes)
    × (length (tracking world_2.classifier).feature_buffer ≤ 1000)
Reach-accuracy_example = Reach-accuracy model numpy milli-IsOrdered settings world_2 run_2

Reach-stats_example : (get_stats numpy world_1.classifier ≡ none) ↔ (world_1.used ≡ false)
Reach-stats_example = Reach-stats model numpy settings world_1 run_1
