-- ===== src/Classifier/Drift.antt =====
-- coordinator/ml/classifier.py: the drift detection of `RequestClassifier`.
use predictive_consistent_ha.Prelude.{
  ℕ, String, Bool, Option, none, some, List, [], ◌∷◌, ◌+◌, ◌++◌, length, get_elem?, get_or_else,
  take, last_values, ltb, leb, map, if◌then◌else◌, ◌||◌, ◌==◌, string_eq, nat_eq, max,
}
use Prim.Native.String.{◌++◌ as concat}
use predictive_consistent_ha.Prelude.Dict.{Dict, insert}
use predictive_consistent_ha.Prelude.Text.{str}
use predictive_consistent_ha.Prelude.Float.{Float, of_nat}
use predictive_consistent_ha.Classifier.{Classifier, Tracking}

-- numpy: the smoothed and normalised histogram of a column, and `np.sum((p - q) * np.log(p / q))`.
pub record Numpy (W : Type 0) : Type 0 where
  pub proportions : List W → List W
  pub divergence : List W → List W → W

pub record DriftInfo (W : Type 0) : Type 0 where
  pub rolling_accuracy : W
  pub outcome_count : ℕ
  pub feature_buffer_size : ℕ
  pub psi_scores : Dict String W
  pub max_psi : W
  pub psi_threshold : W
  pub drift_detected : Bool
  pub drifted_features : List String
  pub retrain_recommended : Bool

pub record Stats (W : Type 0) : Type 0 where
  pub loaded : Bool
  pub model_path : String
  pub total_predictions : ℕ
  pub total_fallbacks : ℕ
  pub avg_inference_ms : W
  pub confidence_threshold : W
  pub fallback_rate : W
  pub rolling_accuracy : W
  pub drift_info : DriftInfo W

-- The variables of the loop in `get_drift_info`.
pub record Scan (W : Type 0) : Type 0 where
  pub psi_named : Dict String W
  pub max_psi : W
  pub drifted_features : List String

abbrev pub feature_names : List String
feature_names =
    "payload_bytes" ∷ "cpu_estimate" ∷ "endpoint_id" ∷ "requests_last_5s" ∷ "avg_latency_ema"
    ∷ "queue_depth" ∷ "hour_of_day" ∷ "is_burst" ∷ []

-- `sum(o[2] for o in self._outcome_buffer)`
unfoldable pub total_correct : List (String × String × ℕ) → ℕ
total_correct [] = 0
total_correct (o ∷ os) = o.2 + total_correct os

-- `xs[-n:]` where there are more than n.
unfoldable pub latest {ℓ} : {A : Type ℓ} → ℕ → List A → List A
latest n xs = if ltb n (length xs) then last_values n xs else xs

module _ {W : Type 0} ⦃f : Float W⦄ where
  -- `__init_drift_tracking`
  unfoldable pub new_tracking : Tracking W
  new_tracking = record {
    rolling_window_size = 500;
    outcome_buffer = [];
    rolling_accuracy = of_nat 1;
    reference_histograms = [];
    feature_buffer = [];
    feature_buffer_max = 1000;
    psi_scores = [];
    psi_threshold = f.ratio 20 100;
  }

  -- The tracking once it is set up
  unfoldable pub tracking : Classifier W → Tracking W
  tracking c = get_or_else c.drift new_tracking

  -- The accuracy over these outcomes, or the old one without any
  unfoldable pub accuracy_or : W → List (String × String × ℕ) → W
  accuracy_or old [] = old
  accuracy_or old (o ∷ os) = f.ratio (total_correct (o ∷ os)) (length (o ∷ os))

  -- The outcomes of `record_outcome`
  unfoldable pub note_outcome : String → String → Tracking W → Tracking W
  note_outcome predicted_class actual_class d =
      let correct = if predicted_class == actual_class then 1 else 0 in
      let outcomes =
        latest d.rolling_window_size
          (d.outcome_buffer ++ (predicted_class, actual_class, correct) ∷ []) in
      record d {
        outcome_buffer = outcomes;
        rolling_accuracy = accuracy_or d.rolling_accuracy outcomes;
      }

  -- The features of `record_outcome`
  unfoldable pub note_features : Option (List W) → Tracking W → Tracking W
  note_features none d = d
  note_features (some features) d =
      if leb 8 (length features)
      then record d {
        feature_buffer = latest d.feature_buffer_max (d.feature_buffer ++ take 8 features ∷ []);
      }
      else d

  unfoldable pub record_outcome : String → String → Option (List W) → Classifier W → Classifier W
  record_outcome predicted_class actual_class features c = record c {
    drift = some (note_features features (note_outcome predicted_class actual_class (tracking c)));
  }

  -- The loop of `set_reference_distribution` over the columns of the training data
  unfoldable pub reference_of : Numpy W → ℕ → List (List W) → Dict ℕ (List W) → Dict ℕ (List W)
  reference_of np i [] histograms = histograms
  reference_of np i (col ∷ columns) histograms =
      reference_of np (i + 1) columns (insert i (np.proportions col) histograms)

  unfoldable pub set_reference_distribution : Numpy W → List (List W) → Classifier W → Classifier W
  set_reference_distribution np columns c =
      let d = tracking c in
      record c {
        drift =
            some (record d {
              reference_histograms = reference_of np 0 columns d.reference_histograms;
            });
      }

  -- `X_current[:, i]`; each row of the buffer has 8 features.
  abbrev pub column : ℕ → List (List W) → List W
  column i rows = map (λ row. get_or_else (get_elem? row i) (of_nat 0)) rows

  -- The loop of `compute_psi`
  unfoldable pub scores_of : Numpy W → List (List W) → Dict ℕ (List W) → Dict ℕ W → Dict ℕ W
  scores_of np rows [] scores = scores
  scores_of np rows ((i, reference) ∷ histograms) scores =
      let psi = np.divergence (np.proportions (column i rows)) reference in
      let next = if leb 8 i then scores else insert i (f.rounded 4 psi) scores in
      scores_of np rows histograms next

  -- `compute_psi` on the tracking
  unfoldable pub psi_of : Numpy W → Tracking W → Tracking W × Dict ℕ W
  psi_of np d =
      if leb (length d.reference_histograms) 0 || ltb (length d.feature_buffer) 100
      then (d, [])
      else let scores = scores_of np d.feature_buffer d.reference_histograms [] in
        (record d { psi_scores = scores }, scores)

  unfoldable pub compute_psi : Numpy W → Classifier W → Classifier W × Dict ℕ W
  compute_psi np c =
      let (d, scores) = psi_of np (tracking c) in (record c { drift = some d }, scores)

  -- The loop of `get_drift_info`
  unfoldable pub scan : W → Dict ℕ W → Scan W → Scan W
  scan psi_threshold [] s = s
  scan psi_threshold ((idx, score) ∷ scores) s =
      let name = get_or_else (get_elem? feature_names idx) (concat "feature_" (str idx)) in
      scan psi_threshold scores (record {
        psi_named = insert name score s.psi_named;
        max_psi = if f.lt s.max_psi score then score else s.max_psi;
        drifted_features =
            if f.lt psi_threshold score
            then s.drifted_features ++ name ∷ []
            else s.drifted_features;
      })

  -- The dict of `get_drift_info`
  unfoldable pub info_of : Dict ℕ W → Tracking W → DriftInfo W
  info_of scores d =
      let s : Scan W =
        scan d.psi_threshold scores
          (record { psi_named = []; max_psi = of_nat 0; drifted_features = [] }) in
      record {
        rolling_accuracy = f.rounded 4 d.rolling_accuracy;
        outcome_count = length d.outcome_buffer;
        feature_buffer_size = length d.feature_buffer;
        psi_scores = s.psi_named;
        max_psi = f.rounded 4 s.max_psi;
        psi_threshold = d.psi_threshold;
        drift_detected = f.lt d.psi_threshold s.max_psi;
        drifted_features = s.drifted_features;
        retrain_recommended =
            f.lt d.rolling_accuracy (f.ratio 90 100) || f.lt d.psi_threshold s.max_psi;
      }

  unfoldable pub get_drift_info : Numpy W → Classifier W → Classifier W × DriftInfo W
  get_drift_info np c =
      let (d, scores) = psi_of np (tracking c) in (record c { drift = some d }, info_of scores d)

  -- `get_stats`: nothing is an AttributeError, for `self._rolling_accuracy` is read before
  -- `get_drift_info` sets it up.
  unfoldable pub get_stats : Numpy W → Classifier W → Option (Classifier W × Stats W)
  get_stats np c = stats_of c.drift
    where
      stats_of : Option (Tracking W) → Option (Classifier W × Stats W)
      stats_of none = none
      stats_of (some d) =
          let (c2, drift_info) = get_drift_info np c in
          some (
            c2,
            record {
              loaded = c.loaded;
              model_path = c.model_path;
              total_predictions = c.total_predictions;
              total_fallbacks = c.total_fallbacks;
              avg_inference_ms = f.rounded 4 c.avg_inference_ms;
              confidence_threshold = c.confidence_threshold;
              fallback_rate = f.rounded 4 (f.ratio c.total_fallbacks (max c.total_predictions 1));
              rolling_accuracy = f.rounded 4 d.rolling_accuracy;
              drift_info = drift_info;
            },
          )
