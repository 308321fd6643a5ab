-- ===== src/Feedback/Status.antt =====
-- coordinator/feedback/optimizer.py: the constructor with the configuration, and the status of the
-- task. Whether it runs and its interval are not part of a check and are arguments of the status.
use predictive_consistent_ha.Prelude.{
  ℕ, Bool, false, Option, none, List, [], get_or_else, last_values, arith,
}
use predictive_consistent_ha.Prelude.Float.{Float, of_nat}
use predictive_consistent_ha.Feedback.{Optimizer, FeedbackAction, CheckRecord, Alert, DriftInfo}
use predictive_consistent_ha.Feedback.Bounds.{IsBounded}

-- The keys of the configuration that the constructor reads.
pub record Settings (W : Type 0) : Type 0 where
  pub variance_threshold : Option W
  pub drift_accuracy_threshold : Option W
  pub node_cpu_alert_threshold : Option W
  pub node_cpu_alert_duration_sec : Option W

pub record Status (W : Type 0) : Type 0 where
  pub running : Bool
  pub interval_sec : W
  pub total_checks : ℕ
  pub last_check_time : W
  pub last_variance : W
  pub variance_threshold : W
  pub cpu_alert_threshold : W
  pub cpu_alert_duration_sec : W
  pub active_alerts : List (Alert W)
  pub recent_actions : List (FeedbackAction W)
  pub check_history : List (CheckRecord W)
  pub drift_detected : Bool
  pub drift_info : Option (DriftInfo W)

module _ {W : Type 0} ⦃f : Float W⦄ where
  unfoldable init : Settings W → Optimizer W
  init s = record {
    variance_threshold = get_or_else s.variance_threshold (of_nat 20);
    drift_accuracy_threshold = get_or_else s.drift_accuracy_threshold (f.ratio 9 10);
    cpu_alert_threshold = get_or_else s.node_cpu_alert_threshold (of_nat 90);
    cpu_alert_duration = get_or_else s.node_cpu_alert_duration_sec (of_nat 30);
    run_count = 0;
    last_run_time = of_nat 0;
    last_variance = of_nat 0;
    actions = [];
    history = [];
    cpu_alert_start = [];
    active_alerts = [];
    drift_detected = false;
    last_drift_info = none;
  }

  get_status : Bool → W → Optimizer W → Status W
  get_status running interval_sec o = record {
    running = running;
    interval_sec = interval_sec;
    total_checks = o.run_count;
    last_check_time = o.last_run_time;
    last_variance = o.last_variance;
    variance_threshold = o.variance_threshold;
    cpu_alert_threshold = o.cpu_alert_threshold;
    cpu_alert_duration_sec = o.cpu_alert_duration;
    active_alerts = last_values 10 o.active_alerts;
    recent_actions = last_values 10 o.actions;
    check_history = last_values 10 o.history;
    drift_detected = o.drift_detected;
    drift_info = o.last_drift_info;
  }

  init-IsBounded : (s : Settings W) → IsBounded (init s)
  unfolding init
  init-IsBounded s = record { actions = omega arith; history = omega arith; alerts = omega arith }
