-- ===== src/Classifier/Accuracy.antt =====
-- The window of the outcomes and the accuracy over it.
use predictive_consistent_ha.Prelude.{
  ℕ, String, Option, none, some, List, [], ◌∷◌, ◌-◌, ◌++◌, ◌≡◌, ◌≤◌, ◌<◌, refl, ap, ◌∙◌, arith,
  length, length-append, length-drop, drop, drop_latest, take, leb, ltb, zero, suc, All, ◌||◌,
  Bool-cases, inl, inr, if◌then◌else◌, ◌==◌, string_eq,
}
use predictive_consistent_ha.Prelude.Float.{Float, of_nat}
use predictive_consistent_ha.Classifier.{Tracking}
use predictive_consistent_ha.Classifier.Drift.{
  Numpy, total_correct, accuracy_or, latest, note_outcome, note_features, psi_of,
}

abbrev pub outcome_of : String → String → String × String × ℕ
outcome_of predicted_class actual_class =
    (predicted_class, actual_class, if predicted_class == actual_class then 1 else 0)

-- The latest 500 of the outcomes
abbrev pub latest_500 : {A : Type 0} → List A → List A
latest_500 xs = drop (length xs - 500) xs

-- The tracking after these outcomes.
pub record IsTracking {W : Type 0} ⦃f : Float W⦄ (outcomes : List (String × String × ℕ))
    (d : Tracking W) : Type 0 where
  pub size : d.rolling_window_size ≡ 500
  pub window : d.outcome_buffer ≡ latest_500 outcomes
  pub accuracy : d.rolling_accuracy ≡ accuracy_or (of_nat 1) (latest_500 outcomes)
  pub limit : d.feature_buffer_max ≡ 1000
  pub features : length d.feature_buffer ≤ 1000

latest-drop : {A : Type 0} (n : ℕ) (xs : List A) → 0 < n → latest n xs ≡ drop (length xs - n) xs
unfolding latest
latest-drop zero xs h = absurd (omega arith)
latest-drop (suc n) xs h = elim (Bool-cases (ltb (suc n) (length xs))) [
  | inl e ↦ rw e refl
  | inr e ↦
      let none_over : 0 ≡ length xs - suc n = ground arith in rw e (ap (λ k. drop k xs) none_over)
]

pub total_correct-le :
    (os : List (String × String × ℕ)) → All (λ o. o.2 ≤ 1) os → total_correct os ≤ length os
unfolding total_correct
total_correct-le [] h = omega arith
total_correct-le (o ∷ os) h = omega (arith, h.0, total_correct-le os h.1)

module _ {W : Type 0} ⦃f : Float W⦄ where
  accuracy_or-same :
      (a b : W) (os : List (String × String × ℕ))
      → 0 < length os
      → accuracy_or a os ≡ accuracy_or b os
  unfolding accuracy_or
  accuracy_or-same a b [] h = absurd (omega arith)
  accuracy_or-same a b (o ∷ os) h = refl

  pub note_outcome-IsTracking :
      (predicted_class actual_class : String) (outcomes : List (String × String × ℕ))
      (d : Tracking W)
      → IsTracking outcomes d
      → IsTracking
          (outcomes ++ outcome_of predicted_class actual_class ∷ [])
          (note_outcome predicted_class actual_class d)
  unfolding note_outcome
  note_outcome-IsTracking predicted_class actual_class outcomes d t =
      let o = outcome_of predicted_class actual_class in
      let all = outcomes ++ o ∷ [] in
      let window : latest d.rolling_window_size (d.outcome_buffer ++ o ∷ []) ≡ latest_500 all =
        ap (λ n. latest n (d.outcome_buffer ++ o ∷ [])) t.size
        ∙ ap (λ b. latest 500 (b ++ o ∷ [])) t.window
        ∙ latest-drop 500 (latest_500 outcomes ++ o ∷ []) (omega arith)
        ∙ drop_latest 500 outcomes o in
      let any : 0 < length (latest_500 all) =
        omega (arith, length-drop (length all - 500) all, length-append outcomes (o ∷ [])) in
      record {
        size = t.size;
        window = window;
        accuracy =
            ap (accuracy_or d.rolling_accuracy) window
            ∙ accuracy_or-same d.rolling_accuracy (of_nat 1) (latest_500 all) any;
        limit = t.limit;
        features = t.features;
      }

  pub note_features-IsTracking :
      (features : Option (List W)) (outcomes : List (String × String × ℕ)) (d : Tracking W)
      → IsTracking outcomes d
      → IsTracking outcomes (note_features features d)
  unfolding note_features
  note_features-IsTracking none outcomes d t = t
  note_features-IsTracking (some features) outcomes d t =
      elim (Bool-cases (leb 8 (length features))) [
        | inr e ↦ rw e t
        | inl e ↦
            let added = d.feature_buffer ++ take 8 features ∷ [] in
            let cut : latest d.feature_buffer_max added ≡ drop (length added - 1000) added =
              ap (λ n. latest n added) t.limit ∙ latest-drop 1000 added (omega arith) in
            rw e (record {
              size = t.size;
              window = t.window;
              accuracy = t.accuracy;
              limit = t.limit;
              features = omega (
                arith,
                ap length cut,
                length-drop (length added - 1000) added,
                length-append d.feature_buffer (take 8 features ∷ []),
                t.features,
              );
            })
      ]

  pub psi_of-IsTracking :
      (np : Numpy W) (outcomes : List (String × String × ℕ)) (d : Tracking W)
      → IsTracking outcomes d
      → IsTracking outcomes (psi_of np d).0
  unfolding psi_of
  psi_of-IsTracking np outcomes d t =
      elim (Bool-cases
        (leb (length d.reference_histograms) 0 || ltb (length d.feature_buffer) 100)) [
          | inl e ↦ rw e t
          | inr e ↦ rw e (record {
            size = t.size;
            window = t.window;
            accuracy = t.accuracy;
            limit = t.limit;
            features = t.features;
          })
        ]
