-- ===== src/Coordinator/Outcomes.antt =====
-- The outcomes that the coordinator reports to its classifier.
use predictive_consistent_ha.Prelude.{
  ℕ, String, Option, none, some, List, [], ◌∷◌, ◌++◌, ◌≡◌, refl, sym, subst, arith, length, All,
  All-append, ==_refl, string_eq,
}
use predictive_consistent_ha.Prelude.Float.{Float, of_nat, ◌≼◌, IsOrdered}
use predictive_consistent_ha.Intake.{Response}
use predictive_consistent_ha.Classifier.{Classifier, Tracking}
use predictive_consistent_ha.Classifier.Drift.{
  Numpy, tracking, new_tracking, total_correct, accuracy_or, record_outcome, psi_of, get_drift_info,
  info_of,
}
use predictive_consistent_ha.Classifier.Accuracy.{
  outcome_of, IsTracking, note_outcome-IsTracking, note_features-IsTracking, psi_of-IsTracking,
}
use predictive_consistent_ha.Coordinator.{class_in, features_in, report}
use predictive_consistent_ha.Classifier.Runs.{All-drop}
use mathlib.Core.Option.{some-injective}

outcome_of-right : (cls : String) → (outcome_of cls cls).2 ≡ 1
outcome_of-right cls = rw (==_refl cls) refl

total_correct-length :
    (os : List (String × String × ℕ)) → All (λ o. o.2 ≡ 1) os → total_correct os ≡ length os
unfolding total_correct
total_correct-length [] h = refl
total_correct-length (o ∷ os) h = omega (arith, h.0, total_correct-length os h.1)

-- A classifier whose recorded outcomes are all right.
record IsFlattered {W : Type 0} ⦃f : Float W⦄ (d : Tracking W) : Type 0 where
  outcomes : List (String × String × ℕ)
  state : IsTracking outcomes d
  right : All (λ o. o.2 ≡ 1) outcomes

module _ {W : Type 0} ⦃f : Float W⦄ where
  -- The classifier after the reports on these responses.
  unfoldable pub reported : List (Response W) → Option (Classifier W) → Option (Classifier W)
  reported [] mc = mc
  reported (r ∷ rs) mc = reported rs (report r mc)

  report-IsFlattered :
      (r : Response W) (c : Classifier W)
      → IsFlattered (tracking c)
      → IsFlattered (tracking (record_outcome (class_in r) (class_in r) (some (features_in r)) c))
  unfolding record_outcome tracking
  report-IsFlattered r c i = record {
    outcomes = i.outcomes ++ outcome_of (class_in r) (class_in r) ∷ [];
    state =
        note_features-IsTracking (some (features_in r)) _ _
          (note_outcome-IsTracking (class_in r) (class_in r) i.outcomes (tracking c) i.state);
    right = All-append _ i.outcomes _ i.right (outcome_of-right (class_in r), tt);
  }

  reported-IsFlattered :
      (rs : List (Response W)) (c c' : Classifier W)
      → IsFlattered (tracking c)
      → reported rs (some c) ≡ some c'
      → IsFlattered (tracking c')
  unfolding reported report
  reported-IsFlattered [] c c' i e = subst (λ d. IsFlattered (tracking d)) (some-injective c c' e) i
  reported-IsFlattered (r ∷ rs) c c' i e =
      reported-IsFlattered rs (record_outcome (class_in r) (class_in r) (some (features_in r)) c) c'
        (report-IsFlattered r c i) e

  new-IsFlattered : (c : Classifier W) → c.drift ≡ none → IsFlattered (tracking c)
  unfolding tracking new_tracking accuracy_or
  new-IsFlattered c h = rw h (record {
    outcomes = [];
    state = record {
      size = refl;
      window = refl;
      accuracy = refl;
      limit = refl;
      features = omega arith;
    };
    right = tt;
  })

  module _ (laws : IsOrdered W) where
    accuracy_or-high :
        (os : List (String × String × ℕ))
        → All (λ o. o.2 ≡ 1) os
        → f.ratio 90 100 ≼ accuracy_or (of_nat 1) os
    unfolding accuracy_or
    accuracy_or-high [] h = laws.ratio_mono 90 100 1 1 (omega arith) (omega arith) (omega arith)
    accuracy_or-high (o ∷ os) h =
        laws.ratio_mono 90 100 _ (length (o ∷ os)) (omega arith) (omega arith)
          (omega (arith, total_correct-length (o ∷ os) h))

    flattered-high : (d : Tracking W) → IsFlattered d → f.ratio 90 100 ≼ d.rolling_accuracy
    flattered-high d i =
        subst (λ a. f.ratio 90 100 ≼ a) (sym i.state.accuracy)
          (accuracy_or-high _ (All-drop (λ o. o.2 ≡ 1) _ i.outcomes i.right))

    pub reported-blind :
        (np : Numpy W) (rs : List (Response W)) (c c' : Classifier W)
        → c.drift ≡ none
        → reported rs (some c) ≡ some c'
        → (f.ratio 90 100 ≼ (tracking c').rolling_accuracy)
          × ((get_drift_info np c').1.retrain_recommended ≡ (get_drift_info np c').1.drift_detected)
    unfolding get_drift_info info_of
    reported-blind np rs c c' h e =
        let i = reported-IsFlattered rs c c' (new-IsFlattered c h) e in
        let d = (psi_of np (tracking c')).0 in
        let seen : f.ratio 90 100 ≼ d.rolling_accuracy = flattered-high d (record {
          outcomes = i.outcomes;
          state = psi_of-IsTracking np i.outcomes (tracking c') i.state;
          right = i.right;
        }) in
        (flattered-high (tracking c') i, rw seen refl)
