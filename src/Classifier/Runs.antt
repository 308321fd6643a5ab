-- ===== src/Classifier/Runs.antt =====
-- Runs of the classifier with the outcomes that are reported to it.
use predictive_consistent_ha.Prelude.{
  ℕ, String, Bool, true, false, Option, none, some, List, [], ◌∷◌, ◌++◌, ◌≡◌, ◌≤◌, ◌↔◌, refl, sym,
  ap, ◌∙◌, subst, arith, length, drop, zero, suc, All, get_or_else, is_some, All-append, zero, suc,
  Option-cases, get_elem?, Bool-cases, inl, inr, string_eq,
}
use predictive_consistent_ha.Prelude.Float.{Float, of_nat, IsOrdered, InUnit, ratio-InUnit}
use predictive_consistent_ha.Classifier.{
  Classifier, Settings, Model, label_names, init, classify, infer, judge, update_stats,
}
use predictive_consistent_ha.Classifier.Drift.{
  Numpy, accuracy_or, new_tracking, tracking, record_outcome, set_reference_distribution,
  compute_psi, get_drift_info, get_stats,
}
use predictive_consistent_ha.Classifier.Accuracy.{
  outcome_of, latest_500, IsTracking, total_correct-le, note_outcome-IsTracking,
  note_features-IsTracking, psi_of-IsTracking,
}

-- The classifier, all outcomes so far, the oldest first, and whether the drift detection was used.
pub record World (W : Type 0) : Type 0 where
  pub classifier : Classifier W
  pub outcomes : List (String × String × ℕ)
  pub used : Bool

module _ {W : Type 0} ⦃f : Float W⦄ (m : Model W) (np : Numpy W) where
  pub data Step (w : World W) : World W → Type 0 where
    request :
        (elapsed_ms : W) (features : List W)
        → Step w (record w { classifier = (classify m elapsed_ms features w.classifier).0 })
    outcome :
        (predicted_class actual_class : String) (features : Option (List W))
        → Step w (record {
          classifier = record_outcome predicted_class actual_class features w.classifier;
          outcomes = w.outcomes ++ outcome_of predicted_class actual_class ∷ [];
          used = true;
        })
    reference :
        (columns : List (List W))
        → Step w (record w {
          classifier = set_reference_distribution np columns w.classifier;
          used = true;
        })
    psi : Step w (record w { classifier = (compute_psi np w.classifier).0; used = true })
    info : Step w (record w { classifier = (get_drift_info np w.classifier).0; used = true })

  pub data Reach (u : World W) : World W → Type 0 where
    here : Reach u u
    next : {v w : World W} → Reach u v → Step v w → Reach u w

-- The tracking is that of all outcomes, and it is there if it was used.
record IsTracked {W : Type 0} ⦃f : Float W⦄ (w : World W) : Type 0 where
  state : IsTracking w.outcomes (tracking w.classifier)
  there : is_some w.classifier.drift ≡ w.used
  binary : All (λ o. o.2 ≤ 1) w.outcomes

pub All-drop : {A : Type 0} (P : A → Type 0) (n : ℕ) (xs : List A) → All P xs → All P (drop n xs)
All-drop P zero xs h = h
All-drop P (suc n) [] h = tt
All-drop P (suc n) (x ∷ xs) h = All-drop P n xs h.1

module _ {W : Type 0} ⦃f : Float W⦄ where
  abbrev pub new_world : Settings W → World W
  new_world settings = record { classifier = init settings; outcomes = []; used = false }

module _ {W : Type 0} ⦃f : Float W⦄ (m : Model W) (np : Numpy W) where
  infer-drift :
      (elapsed_ms : W) (features : List W) (answer : Option (List W)) (c : Classifier W)
      → (infer m elapsed_ms features answer c).0.drift ≡ c.drift
  unfolding infer judge update_stats
  infer-drift elapsed_ms features none c = refl
  infer-drift elapsed_ms features (some proba) c =
      elim (Option-cases (get_elem? proba (m.argmax proba))) [
        | inl i ↦ rw i refl
        | inr (confidence, i) ↦ elim (Bool-cases (f.lt confidence c.confidence_threshold)) [
          | inl k ↦ rw i (rw k refl)
          | inr k ↦ elim (Option-cases (get_elem? label_names (m.argmax proba))) [
            | inl l ↦ rw i (rw k (rw l refl))
            | inr (label, l) ↦ rw i (rw k (rw l refl))
          ]
        ]
      ]

  classify-drift :
      (elapsed_ms : W) (features : List W) (c : Classifier W)
      → (classify m elapsed_ms features c).0.drift ≡ c.drift
  unfolding classify
  classify-drift elapsed_ms features c = elim (Bool-cases c.loaded) [
    | inr e ↦ rw e refl
    | inl e ↦ rw e (infer-drift elapsed_ms features (m.predict_proba features) _)
  ]

  outcome_of-binary : (p a : String) → (outcome_of p a).2 ≤ 1
  outcome_of-binary p a = ground arith

  Step-IsTracked : {u v : World W} → Step m np u v → IsTracked u → IsTracked v
  unfolding record_outcome set_reference_distribution compute_psi get_drift_info tracking
  Step-IsTracked {u} (request elapsed_ms features) i =
      let e = classify-drift elapsed_ms features u.classifier in
      record {
        state = subst (λ d. IsTracking u.outcomes (get_or_else d new_tracking)) (sym e) i.state;
        there = ap is_some e ∙ i.there;
        binary = i.binary;
      }
  Step-IsTracked {u} (outcome p a features) i = record {
    state =
        note_features-IsTracking features _ _
          (note_outcome-IsTracking p a u.outcomes (tracking u.classifier) i.state);
    there = refl;
    binary = All-append _ u.outcomes _ i.binary (outcome_of-binary p a, tt);
  }
  Step-IsTracked {u} (reference columns) i = record {
    state = record {
      size = i.state.size;
      window = i.state.window;
      accuracy = i.state.accuracy;
      limit = i.state.limit;
      features = i.state.features;
    };
    there = refl;
    binary = i.binary;
  }
  Step-IsTracked {u} psi i = record {
    state = psi_of-IsTracking np u.outcomes (tracking u.classifier) i.state;
    there = refl;
    binary = i.binary;
  }
  Step-IsTracked {u} info i = record {
    state = psi_of-IsTracking np u.outcomes (tracking u.classifier) i.state;
    there = refl;
    binary = i.binary;
  }

  Reach-keeps : {u v : World W} → IsTracked u → Reach m np u v → IsTracked v
  Reach-keeps i here = i
  Reach-keeps i (next r s) = Step-IsTracked s (Reach-keeps i r)

  Reach-IsTracked :
      (settings : Settings W) (w : World W) → Reach m np (new_world settings) w → IsTracked w
  unfolding init tracking new_tracking accuracy_or
  Reach-IsTracked settings w r =
      Reach-keeps
        (record {
          state = record {
            size = refl;
            window = refl;
            accuracy = refl;
            limit = refl;
            features = omega arith;
          };
          there = refl;
          binary = tt;
        })
        r

  accuracy_or-InUnit :
      (laws : IsOrdered W) (os : List (String × String × ℕ))
      → All (λ o. o.2 ≤ 1) os
      → InUnit {W = W} (accuracy_or (of_nat 1) os)
  unfolding accuracy_or
  accuracy_or-InUnit laws [] h = ratio-InUnit laws 1 1 (omega arith) (omega arith)
  accuracy_or-InUnit laws (o ∷ os) h =
      ratio-InUnit laws _ (length (o ∷ os)) (omega arith) (total_correct-le (o ∷ os) h)

  pub Reach-accuracy :
      (laws : IsOrdered W) (settings : Settings W) (w : World W)
      → Reach m np (new_world settings) w
      → ((tracking w.classifier).rolling_accuracy ≡ accuracy_or (of_nat 1) (latest_500 w.outcomes))
        × InUnit (tracking w.classifier).rolling_accuracy
        × ((tracking w.classifier).outcome_buffer ≡ latest_500 w.outcomes)
        × (length (tracking w.classifier).feature_buffer ≤ 1000)
  Reach-accuracy laws settings w r =
      let i = Reach-IsTracked settings w r in
      let s = i.state in
      (
        s.accuracy,
        subst InUnit (sym s.accuracy)
            (accuracy_or-InUnit laws _ (All-drop (λ o. o.2 ≤ 1) _ w.outcomes i.binary)),
        s.window,
        s.features,
      )

  get_stats-none : (c : Classifier W) → (get_stats np c ≡ none) ↔ (c.drift ≡ none)
  unfolding get_stats
  get_stats-none c = elim (Option-cases c.drift) [
    | inl e ↦ (λ _. e, λ _. rw e refl)
    | inr (d, e) ↦ rw e (λ h. absurd (ground (arith, h)), λ h. absurd (ground (arith, h)))
  ]

  pub Reach-stats :
      (settings : Settings W) (w : World W)
      → Reach m np (new_world settings) w
      → (get_stats np w.classifier ≡ none) ↔ (w.used ≡ false)
  Reach-stats settings w r =
      let i = Reach-IsTracked settings w r in
      let none_iff = get_stats-none w.classifier in
      (λ h. sym i.there ∙ ap is_some (none_iff.0 h), λ h. none_iff.1 (ground (arith, i.there, h)))
