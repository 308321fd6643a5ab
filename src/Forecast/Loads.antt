-- ===== src/Forecast/Loads.antt =====
-- The forecast that the allocation engine reads.
use predictive_consistent_ha.Prelude.{
  ℕ, true, false, ◌≡◌, max, refl, arith, Bool-cases, ◌⊎◌, inl, inr,
}
use predictive_consistent_ha.Prelude.Float.{
  Float, of_nat, IsOrdered, InUnit, ratio-InUnit, fmin_one,
}
use predictive_consistent_ha.Forecast.{Forecaster, is_fresh, get_predicted_load}

module _ {W : Type 0} ⦃f : Float W⦄ (laws : IsOrdered W) where
  positive-count : (n : ℕ) → f.lt (of_nat 0) (of_nat (max n 1)) ≡ true
  positive-count n = laws.zero_lt (max n 1) (omega arith)

  -- The predicted load of a node is between 0 and 1, for any state of the forecaster and any number
  -- of nodes, 0 included, and it is 0 without a fresh and positive prediction.
  pub get_predicted_load-InUnit :
      (now : W) (total_nodes : ℕ) (c : Forecaster W)
      → InUnit (get_predicted_load now total_nodes c)
        × ((f.lt (of_nat 0) c.last_prediction ≡ false) ⊎ (is_fresh now c ≡ false)
            → get_predicted_load now total_nodes c ≡ of_nat 0)
  unfolding get_predicted_load
  get_predicted_load-InUnit now total_nodes c =
      let zero_unit = ratio-InUnit laws 0 1 (omega arith) (omega arith) in
      elim (Bool-cases (f.lt (of_nat 0) c.last_prediction)) [
        | inr h ↦ rw h (zero_unit, λ _. refl)
        | inl h ↦ elim (Bool-cases (is_fresh now c)) [
          | inr k ↦ rw h (rw k (zero_unit, λ _. refl))
          | inl k ↦
              let share =
                laws.div_nonneg c.last_prediction (of_nat (max total_nodes 1))
                  (laws.lt_asymm (of_nat 0) c.last_prediction h) (positive-count total_nodes) in
              let load = laws.div_nonneg _ (of_nat 10) share (laws.zero_lt 10 (omega arith)) in
              rw h (rw k (fmin_one laws _ load, λ off. absurd (ground arith)))
        ]
      ]
