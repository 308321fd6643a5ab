-- ===== src/Tests/FeedbackRuns.antt =====
-- The theorem on the optimizer's check at a node with high load.
use predictive_consistent_ha.Prelude.{ℕ, false, some, none, [], ◌∷◌, arith}
use predictive_consistent_ha.Prelude.Float.{milli, of_nat}
use predictive_consistent_ha.Allocation.{Metrics, Engine}
use predictive_consistent_ha.Feedback.{Optimizer, check}
use predictive_consistent_ha.Feedback.Bounds.{IsBounded, check-IsBounded}

abbrev busy : Metrics ℕ
busy = record {
  cpu_pct = some (of_nat 97);
  queue_depth = none;
  queue_max = none;
  latency_ema_ms = none;
  latency_max_ms = none;
  updated_at = none;
}

abbrev engine : Engine ℕ
engine = record {
  alpha = 350;
  beta = 300;
  gamma = 200;
  delta = 150;
  overflow_threshold = 850;
  staleness_penalty = 100;
  node_metrics = ("a", busy) ∷ [];
}

abbrev optimizer : Optimizer ℕ
optimizer = record {
  variance_threshold = of_nat 20;
  drift_accuracy_threshold = 900;
  cpu_alert_threshold = of_nat 90;
  cpu_alert_duration = of_nat 30;
  run_count = 0;
  last_run_time = 0;
  last_variance = 0;
  actions = [];
  history = [];
  cpu_alert_start = ("a", of_nat 1) ∷ [];
  active_alerts = [];
  drift_detected = false;
  last_drift_info = none;
}

empty-IsBounded : IsBounded optimizer
empty-IsBounded = record { actions = omega arith; history = omega arith; alerts = omega arith }

check-IsBounded_example :
    IsBounded
      (check (λ values. of_nat 3) (λ variance. "variance") engine (of_nat 60) none none optimizer).0
check-IsBounded_example =
    check-IsBounded (λ values. of_nat 3) (λ variance. "variance") engine (of_nat 60) none none
      optimizer empty-IsBounded
