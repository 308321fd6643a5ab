-- ===== src/Tests/AllocationRuns.antt =====
-- The theorems on the allocation engine at two nodes with metrics.
use predictive_consistent_ha.Prelude.{
  ℕ, String, true, some, none, [], ◌∷◌, ◌≡◌, refl, elem, All, string_eq,
}
use predictive_consistent_ha.Prelude.Dict.{Dict, lookup}
use predictive_consistent_ha.Prelude.Float.{milli, milli-IsOrdered, ◌≼◌, of_nat}
use predictive_consistent_ha.Prelude.Choice.{min_key}
use predictive_consistent_ha.Allocation.{
  Metrics, Engine, init, update_node_metrics, compute_score, select_node,
}
use predictive_consistent_ha.Allocation.Selection.{score_of, select_node-least}
use predictive_consistent_ha.Allocation.Bounds.{HasWeights, IsMeasured, score_cap, compute_score-le}

abbrev metrics : ℕ → ℕ → Metrics ℕ
metrics cpu depth = record {
  cpu_pct = some (of_nat cpu);
  queue_depth = some depth;
  queue_max = some 450;
  latency_ema_ms = some (of_nat 20);
  latency_max_ms = none;
  updated_at = none;
}

abbrev engine : Engine ℕ
engine =
    update_node_metrics "b" (metrics 20 10) (of_nat 1)
      (update_node_metrics "a" (metrics 90 400) (of_nat 1) (init none))

abbrev loads : Dict String ℕ
loads = ("a", of_nat 1) ∷ []

-- The node with less load is selected.
selected : (select_node ("a" ∷ "b" ∷ []) loads (of_nat 2) engine).0 ≡ some "b"
unfolding min_key select_node compute_score update_node_metrics init
selected = refl

select_node-least_example :
    (best : String) × (select_node ("a" ∷ "b" ∷ []) loads (of_nat 2) engine ≡ (
      some best,
      score_of loads (of_nat 2) engine best,
      milli.lt engine.overflow_threshold (score_of loads (of_nat 2) engine best),
    ))
    × (elem best ("a" ∷ "b" ∷ []) ≡ true)
    × All
        (λ n. score_of loads (of_nat 2) engine best ≼ score_of loads (of_nat 2) engine n)
        ("a" ∷ "b" ∷ [])
select_node-least_example = select_node-least milli-IsOrdered "a" ("b" ∷ []) loads (of_nat 2) engine

engine-HasWeights : HasWeights engine
unfolding update_node_metrics init
engine-HasWeights = record {
  alpha_nonneg = refl;
  beta_nonneg = refl;
  gamma_nonneg = refl;
  delta_nonneg = refl;
}

measured : IsMeasured (record (metrics 90 400) { updated_at = some (of_nat 1) })
measured = record { cpu_nonneg = refl; latency_nonneg = refl }

a_known :
    lookup "a" engine.node_metrics ≡ some (record (metrics 90 400) { updated_at = some (of_nat 1) })
unfolding update_node_metrics init
a_known = refl

compute_score-le_example : compute_score "a" (of_nat 1) (of_nat 2) engine ≼ score_cap engine
compute_score-le_example =
    compute_score-le milli-IsOrdered "a" (record (metrics 90 400) { updated_at = some (of_nat 1) })
      (of_nat 1) (of_nat 2) engine engine-HasWeights measured refl a_known
