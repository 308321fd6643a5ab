-- ===== src/Allocation/Bounds.antt =====
-- The score is bounded by the sum of the weights and the largest staleness penalty.
use predictive_consistent_ha.Prelude.{
  String, true, some, ◌≡◌, arith, get_or_else, string_eq, subst, sym,
}
use predictive_consistent_ha.Prelude.Dict.{lookup}
use predictive_consistent_ha.Prelude.Float.{
  Float, IsOrdered, ◌≼◌, of_nat, fmin, fmax, fmin-le_right, le-fmin, ≼_refl,
}
use predictive_consistent_ha.Allocation.{
  Metrics, Engine, staleness, score_metrics, score_found, compute_score,
}

module _ {W : Type 0} ⦃f : Float W⦄ where
  -- All weights count.
  pub record HasWeights (e : Engine W) : Type 0 where
    pub alpha_nonneg : of_nat 0 ≼ e.alpha
    pub beta_nonneg : of_nat 0 ≼ e.beta
    pub gamma_nonneg : of_nat 0 ≼ e.gamma
    pub delta_nonneg : of_nat 0 ≼ e.delta

  -- Load and latency are not negative.
  pub record IsMeasured (m : Metrics W) : Type 0 where
    pub cpu_nonneg : of_nat 0 ≼ get_or_else m.cpu_pct (of_nat 50)
    pub latency_nonneg : of_nat 0 ≼ get_or_else m.latency_ema_ms (of_nat 0)

  -- The score of a node whose every normalised metric is 1, with the full penalty.
  abbrev pub score_cap : Engine W → W
  score_cap e =
      f.add
        (f.add
          (f.add (f.add (f.mul e.alpha (of_nat 1)) (f.mul e.beta (of_nat 1)))
            (f.mul e.gamma (of_nat 1)))
          (f.mul e.delta (of_nat 1)))
        (f.ratio 1 2)

module _ {W : Type 0} ⦃f : Float W⦄ (laws : IsOrdered W) where
  term-le :
      (weight x : W)
      → of_nat 0 ≼ weight
      → of_nat 0 ≼ x
      → f.mul weight (fmin x (of_nat 1)) ≼ f.mul weight (of_nat 1)
  term-le weight x hw hx =
      laws.mul_mono weight weight (fmin x (of_nat 1)) (of_nat 1) hw
        (le-fmin laws x (of_nat 1) (of_nat 0) hx
          (laws.ratio_mono 0 1 1 1 (omega arith) (omega arith) (omega arith)))
        (≼_refl laws weight) (fmin-le_right laws x (of_nat 1))

  staleness-le : (e : Engine W) (m : Metrics W) (now : W) → staleness e m now ≼ f.ratio 1 2
  staleness-le e m now = ground (
    arith,
    fmin-le_right laws (f.mul (f.sub now (get_or_else m.updated_at now)) e.staleness_penalty)
        (f.ratio 1 2),
    laws.ratio_mono 0 1 1 2,
  )

  fmax-pos : (a : W) → f.lt (of_nat 0) (fmax a (of_nat 1)) ≡ true
  fmax-pos a = ground (arith, laws.zero_lt 1, laws.le_trans (of_nat 1) a (of_nat 0))

  score_metrics-le :
      (m : Metrics W) (predicted_load now : W) (e : Engine W)
      → HasWeights e
      → IsMeasured m
      → of_nat 0 ≼ predicted_load
      → score_metrics e m predicted_load now ≼ score_cap e
  unfolding score_metrics
  score_metrics-le m predicted_load now e weights measured load =
      laws.add_mono _ _ _ _
        (laws.add_mono _ _ _ _
          (laws.add_mono _ _ _ _
            (laws.add_mono _ _ _ _
              (term-le e.alpha _ weights.alpha_nonneg
                (laws.div_nonneg _ _ measured.cpu_nonneg (laws.zero_lt 100 (omega arith))))
              (term-le e.beta _ weights.beta_nonneg
                (laws.ratio_mono 0 1 _ _ (omega arith) (omega arith) (omega arith))))
            (term-le e.gamma _ weights.gamma_nonneg
              (laws.div_nonneg _ _ measured.latency_nonneg (fmax-pos _))))
          (term-le e.delta predicted_load weights.delta_nonneg load))
        (staleness-le e m now)

  -- The score of a node with measured metrics is at most the sum of the weights, each times 1, and
  -- the largest staleness penalty 0.5.
  pub compute_score-le :
      (node : String) (m : Metrics W) (predicted_load now : W) (e : Engine W)
      → HasWeights e
      → IsMeasured m
      → of_nat 0 ≼ predicted_load
      → lookup node e.node_metrics ≡ some m
      → compute_score node predicted_load now e ≼ score_cap e
  unfolding compute_score
  compute_score-le node m predicted_load now e weights measured load found =
      subst (λ o. score_found e o predicted_load now ≼ score_cap e) (sym found)
        (score_metrics-le m predicted_load now e weights measured load)
