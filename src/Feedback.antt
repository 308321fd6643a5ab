-- ===== src/Feedback.antt =====
-- coordinator/feedback/optimizer.py: the periodic check of the nodes' load, with alerts and the trigger
-- of a reallocation. `statistics.stdev`, the clock, the classifier's drift info and the text of a
-- trigger's reason are arguments; the texts of details are left out.
pub mod Bounds
mod Status
use predictive_consistent_ha.Prelude.{
  ℕ, String, Bool, true, false, not, ◌&&◌, Option, none, some, List, [], ◌∷◌, ◌++◌, ◌+◌, ◌-◌, ltb,
  if◌then◌else◌, get_or_else, length, drop, string_eq,
}
use predictive_consistent_ha.Prelude.Dict.{Dict, lookup, insert, erase}
use predictive_consistent_ha.Prelude.Float.{Float, of_nat}
use predictive_consistent_ha.Allocation.{Metrics, Engine, get_all_metrics}
use predictive_consistent_ha.Rebalance.{Allocator, append_bounded, trigger_immediate}

pub data ActionType : Type 0 where
  cpu_alert daa_trigger drift_alert accuracy_alert : ActionType

pub record FeedbackAction (W : Type 0) : Type 0 where
  pub timestamp : W
  pub action_type : ActionType
  pub trigger_value : W
  pub threshold_value : W
  pub node_id : String

pub record Alert (W : Type 0) : Type 0 where
  pub node_id : String
  pub cpu_pct : W
  pub duration_sec : ℕ
  pub timestamp : W

pub record CheckRecord (W : Type 0) : Type 0 where
  pub run : ℕ
  pub timestamp : W
  pub variance : W
  pub node_count : ℕ
  pub alerts_active : ℕ
  pub drift_detected : Bool

-- What `get_drift_info` returns; `none` is an absent key.
pub record DriftInfo (W : Type 0) : Type 0 where
  pub rolling_accuracy : Option W
  pub max_psi : Option W
  pub drift_detected : Option Bool

pub record Optimizer (W : Type 0) : Type 0 where
  pub variance_threshold : W
  pub drift_accuracy_threshold : W
  pub cpu_alert_threshold : W
  pub cpu_alert_duration : W
  pub run_count : ℕ
  pub last_run_time : W
  pub last_variance : W
  pub actions : List (FeedbackAction W)
  pub history : List (CheckRecord W)
  pub cpu_alert_start : Dict String W
  pub active_alerts : List (Alert W)
  pub drift_detected : Bool
  pub last_drift_info : Option (DriftInfo W)

module _ {W : Type 0} ⦃f : Float W⦄ where
  -- `self._actions.append`, on a deque of 100
  unfoldable pub act : ActionType → W → W → String → W → Optimizer W → Optimizer W
  unfolding append_bounded
  act action_type value threshold node now o = record o {
    actions = append_bounded 100 o.actions (record {
      timestamp = now;
      action_type = action_type;
      trigger_value = value;
      threshold_value = threshold;
      node_id = node;
    });
  }

  -- A node with high load whose episode began at `since`, if it has.
  unfoldable pub high_load : String → W → W → Option W → Optimizer W → Optimizer W
  unfolding act
  high_load name cpu_pct now none o = record o {
    cpu_alert_start = insert name now o.cpu_alert_start;
  }
  high_load name cpu_pct now (some since) o =
      let acted = act cpu_alert (f.rounded 1 cpu_pct) o.cpu_alert_threshold name now o in
      if f.lt (f.sub now since) o.cpu_alert_duration then o else record acted {
        active_alerts =
            o.active_alerts
            ++ record {
              node_id = name;
              cpu_pct = f.rounded 1 cpu_pct;
              duration_sec = f.nearest (f.sub now since);
              timestamp = now;
            }
              ∷ [];
        cpu_alert_start = insert name now o.cpu_alert_start;
      }

  -- The loop over the nodes: one node.
  unfoldable pub watch_node : String → W → W → Optimizer W → Optimizer W
  unfolding high_load
  watch_node name cpu_pct now o =
      if f.lt o.cpu_alert_threshold cpu_pct
      then high_load name cpu_pct now (lookup name o.cpu_alert_start) o
      else record o { cpu_alert_start = erase name o.cpu_alert_start }

  abbrev pub cpu_of : Metrics W → W
  cpu_of m = get_or_else m.cpu_pct (of_nat 0)

  unfoldable pub watch_nodes : W → Dict String (Metrics W) → Optimizer W → Optimizer W
  unfolding watch_node
  watch_nodes now [] o = o
  watch_nodes now ((name, m) ∷ rest) o = watch_nodes now rest (watch_node name (cpu_of m) now o)

  unfoldable pub cpu_values : Dict String (Metrics W) → List W
  cpu_values [] = []
  cpu_values ((name, m) ∷ rest) = cpu_of m ∷ cpu_values rest

  -- The check of the load's spread.
  unfoldable pub check_variance : (List W → W) → W → List W → Optimizer W → Optimizer W × Bool
  unfolding act
  check_variance stdev now values o =
      let variance = stdev values in
      let noted : Optimizer W = record o { last_variance = f.rounded 2 variance } in
      if ltb 1 (length values)
      then (if f.lt o.variance_threshold variance
          then (act daa_trigger (f.rounded 2 variance) o.variance_threshold "" now noted, true)
          else (noted, false))
      else (o, false)

  -- The check of the classifier's drift.
  unfoldable pub check_drift : W → Option (DriftInfo W) → Optimizer W → Optimizer W
  unfolding act
  check_drift now none o = record o { last_drift_info = none }
  check_drift now (some info) o =
      let rolling_acc = get_or_else info.rolling_accuracy (of_nat 1) in
      let max_psi = get_or_else info.max_psi (of_nat 0) in
      let detected = get_or_else info.drift_detected false in
      let noted : Optimizer W = record o { last_drift_info = some info } in
      let alerted =
        if detected && not o.drift_detected
        then act drift_alert max_psi (f.ratio 20 100) "" now noted
        else noted in
      let judged =
        if f.lt rolling_acc o.drift_accuracy_threshold
        then act accuracy_alert (f.rounded 4 rolling_acc) o.drift_accuracy_threshold "" now alerted
        else alerted in
      record judged { drift_detected = detected }

  -- The end of `_check`: the record, on a deque of 30, and the last 50 alerts.
  unfoldable pub note_check : W → ℕ → Optimizer W → Optimizer W
  unfolding append_bounded
  note_check now node_count o = record o {
    history = append_bounded 30 o.history (record {
      run = o.run_count;
      timestamp = now;
      variance = o.last_variance;
      node_count = node_count;
      alerts_active = length o.active_alerts;
      drift_detected = o.drift_detected;
    });
    active_alerts = drop (length o.active_alerts - 50) o.active_alerts;
  }

  -- `_check` on the nodes' metrics, and whether it triggers a reallocation
  unfoldable pub check_nodes :
      (List W → W)
      → W
      → Option (DriftInfo W)
      → Dict String (Metrics W)
      → Optimizer W
      → Optimizer W × Bool
  unfolding watch_nodes check_variance check_drift note_check cpu_values
  check_nodes stdev now info [] o = (o, false)
  check_nodes stdev now info (n ∷ ns) o =
      let (o1, trigger) =
        check_variance stdev now (cpu_values (n ∷ ns)) (watch_nodes now (n ∷ ns) o) in
      (note_check now (length (n ∷ ns)) (check_drift now info o1), trigger)

  unfoldable pub check :
      (List W → W)
      → (W → String)
      → Engine W
      → W
      → Option (DriftInfo W)
      → Option (Allocator W)
      → Optimizer W
      → Optimizer W × Option (Allocator W)
  unfolding check_nodes trigger_immediate get_all_metrics
  check stdev reason_of e now info daa o =
      let (o1, trigger) =
        check_nodes stdev now info (get_all_metrics e)
          (record o { run_count = o.run_count + 1; last_run_time = now }) in
      (
        o1,
        if trigger
            then elim daa [
              | none ↦ none
              | some a ↦
                  some (trigger_immediate (reason_of (stdev (cpu_values (get_all_metrics e)))) a)
            ]
            else daa,
      )
