-- ===== src/Classifier.antt =====
-- coordinator/ml/classifier.py: `RequestClassifier`. The trained model and numpy's `argmax` are
-- arguments, and so is the reading of the clock. The state of the drift detection is in `drift`
-- once a call has set it up; before that its attributes do not exist.
pub mod Drift
pub mod Labels
pub mod Accuracy
pub mod Runs
use predictive_consistent_ha.Prelude.{
  ℕ, String, Bool, true, false, Option, none, some, List, [], ◌∷◌, ◌+◌, get_elem?, get_or_else,
  if◌then◌else◌, ◌||◌,
}
use predictive_consistent_ha.Prelude.Dict.{Dict}
use predictive_consistent_ha.Prelude.Float.{Float, of_nat}

-- What `__init_drift_tracking` sets up.
pub record Tracking (W : Type 0) : Type 0 where
  pub rolling_window_size : ℕ
  -- predicted and actual class, and 1 where they agree
  pub outcome_buffer : List (String × String × ℕ)
  pub rolling_accuracy : W
  pub reference_histograms : Dict ℕ (List W)
  pub feature_buffer : List (List W)
  pub feature_buffer_max : ℕ
  pub psi_scores : Dict ℕ W
  pub psi_threshold : W

pub record Classifier (W : Type 0) : Type 0 where
  pub model_path : String
  pub confidence_threshold : W
  pub inference_timeout_ms : W
  pub loaded : Bool
  pub total_predictions : ℕ
  pub total_fallbacks : ℕ
  pub avg_inference_ms : W
  pub drift : Option (Tracking W)

-- `config["ml"]["classifier"]`
pub record Settings (W : Type 0) : Type 0 where
  pub model_path : Option String
  pub confidence_threshold : Option W
  pub inference_timeout_ms : Option W

-- `predict_proba` on one vector, or nothing where it fails, and `np.argmax`.
pub record Model (W : Type 0) : Type 0 where
  pub predict_proba : List W → Option (List W)
  pub argmax : List W → ℕ

-- `LABEL_NAMES`
abbrev pub label_names : List String
label_names = "Light" ∷ "Medium" ∷ "Heavy" ∷ []

module _ {W : Type 0} ⦃f : Float W⦄ where
  unfoldable pub init : Settings W → Classifier W
  init s = record {
    model_path = get_or_else s.model_path "models/classifier_v1.joblib";
    confidence_threshold = get_or_else s.confidence_threshold (f.ratio 55 100);
    inference_timeout_ms = get_or_else s.inference_timeout_ms (of_nat 5);
    loaded = false;
    total_predictions = 0;
    total_fallbacks = 0;
    avg_inference_ms = of_nat 0;
    drift = none;
  }

  -- `_heuristic_classify`
  unfoldable pub heuristic_label : List W → String × W
  heuristic_label features =
      let payload_norm = get_or_else (get_elem? features 0) (f.ratio 5 10) in
      let cpu_est = get_or_else (get_elem? features 1) (f.ratio 5 10) in
      if f.lt (f.ratio 5 10) payload_norm || f.lt (f.ratio 7 10) cpu_est
      then ("Heavy", f.ratio 65 100)
      else if f.lt (f.ratio 15 100) payload_norm || f.lt (f.ratio 3 10) cpu_est
      then ("Medium", f.ratio 60 100)
      else ("Light", f.ratio 70 100)

  unfoldable pub update_stats : W → Classifier W → Classifier W
  update_stats inference_ms c = record c {
    total_predictions = c.total_predictions + 1;
    avg_inference_ms =
        f.add (f.mul (f.ratio 1 10) inference_ms)
          (f.mul (f.sub (of_nat 1) (f.ratio 1 10)) c.avg_inference_ms);
  }

  -- The `try` of `classify` from the confidence on. A label that does not exist is an exception.
  unfoldable pub judge : W → List W → ℕ → W → Classifier W → Classifier W × (String × W)
  judge elapsed_ms features index confidence c =
      let c2 = update_stats elapsed_ms c in
      if f.lt confidence c.confidence_threshold
      then (record c2 { total_fallbacks = c2.total_fallbacks + 1 }, ("Medium", confidence))
      else named (get_elem? label_names index) c2
    where
      named : Option String → Classifier W → Classifier W × (String × W)
      named (some label) c2 = (c2, (label, confidence))
      named none c2 = (c2, heuristic_label features)

  -- The `try` of `classify` from the probabilities on
  unfoldable pub infer :
      Model W → W → List W → Option (List W) → Classifier W → Classifier W × (String × W)
  infer m elapsed_ms features none c = (c, heuristic_label features)
  infer m elapsed_ms features (some proba) c = chosen (get_elem? proba (m.argmax proba))
    where
      chosen : Option W → Classifier W × (String × W)
      chosen none = (c, heuristic_label features)
      chosen (some confidence) = judge elapsed_ms features (m.argmax proba) confidence c

  unfoldable pub classify : Model W → W → List W → Classifier W → Classifier W × (String × W)
  classify m elapsed_ms features c =
      if c.loaded
      then infer m elapsed_ms features (m.predict_proba features) c
      else (c, heuristic_label features)

module _ {W : Type 0} where
  -- `load`: whether the file is there and can be read.
  unfoldable pub load : Bool → Classifier W → Classifier W × Bool
  load readable c = if readable then (record c { loaded = true }, true) else (c, false)
