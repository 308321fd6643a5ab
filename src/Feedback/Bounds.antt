-- ===== src/Feedback/Bounds.antt =====
-- The optimizer's memory stays bounded.
use predictive_consistent_ha.Prelude.{
  get_or_else, ℕ, String, Bool, true, false, not, ◌&&◌, Option, none, some, List, [], ◌∷◌, ◌+◌, ◌-◌,
  ◌≤◌, arith, length, length-drop, if◌then◌else◌, string_eq,
}
use predictive_consistent_ha.Prelude.Dict.{Dict, lookup}
use predictive_consistent_ha.Prelude.Float.{Float, of_nat}
use predictive_consistent_ha.Allocation.{Metrics, Engine, get_all_metrics}
use predictive_consistent_ha.Rebalance.{Allocator}
use predictive_consistent_ha.Rebalance.Effects.{append_bounded-le}
use predictive_consistent_ha.Feedback.{
  ActionType, Optimizer, DriftInfo, act, high_load, watch_node, watch_nodes, check_variance,
  check_drift, note_check, check_nodes, check, cpu_of, cpu_values,
}

-- The two deques are within their lengths.
abbrev Kept : {W : Type 0} → Optimizer W → Type 0
Kept o = (length o.actions ≤ 100) × (length o.history ≤ 30)

Kept-if : {W : Type 0} (b : Bool) (x y : Optimizer W) → Kept x → Kept y → Kept (if b then x else y)
Kept-if true x y p q = p
Kept-if false x y p q = q

-- What the optimizer keeps in memory is bounded.
pub record IsBounded {W : Type 0} (o : Optimizer W) : Type 0 where
  pub actions : length o.actions ≤ 100
  pub history : length o.history ≤ 30
  pub alerts : length o.active_alerts ≤ 50

module _ {W : Type 0} ⦃f : Float W⦄ where
  act-Kept :
      (t : ActionType) (value threshold : W) (node : String) (now : W) (o : Optimizer W)
      → Kept o
      → Kept (act t value threshold node now o)
  unfolding act
  act-Kept t value threshold node now o k = (append_bounded-le 100 o.actions _, k.1)

  high_load-Kept :
      (name : String) (cpu now : W) (since : Option W) (o : Optimizer W)
      → Kept o
      → Kept (high_load name cpu now since o)
  unfolding high_load
  high_load-Kept name cpu now none o k = k
  high_load-Kept name cpu now (some since) o k =
      let (acted, same) =
        act-Kept ActionType.cpu_alert (f.rounded 1 cpu) o.cpu_alert_threshold name now o k in
      ground (arith, acted, same)

  watch_node-Kept :
      (name : String) (cpu now : W) (o : Optimizer W) → Kept o → Kept (watch_node name cpu now o)
  unfolding watch_node
  watch_node-Kept name cpu now o k =
      let (a, b) = high_load-Kept name cpu now (lookup name o.cpu_alert_start) o k in
      ground (arith, a, b)

  watch_nodes-Kept :
      (now : W) (ms : Dict String (Metrics W)) (o : Optimizer W)
      → Kept o
      → Kept (watch_nodes now ms o)
  unfolding watch_nodes
  watch_nodes-Kept now [] o k = k
  watch_nodes-Kept now ((name, m) ∷ rest) o k =
      watch_nodes-Kept now rest _ (watch_node-Kept name (cpu_of m) now o k)

  check_variance-Kept :
      (stdev : List W → W) (now : W) (values : List W) (o : Optimizer W)
      → Kept o
      → Kept (check_variance stdev now values o).0
  unfolding check_variance
  check_variance-Kept stdev now values o k =
      let variance = stdev values in
      let (a, b) =
        act-Kept ActionType.daa_trigger (f.rounded 2 variance) o.variance_threshold "" now
          (record o { last_variance = f.rounded 2 variance }) k in
      ground (arith, a, b)

  check_drift-Kept :
      (now : W) (info : Option (DriftInfo W)) (o : Optimizer W)
      → Kept o
      → Kept (check_drift now info o)
  unfolding check_drift
  check_drift-Kept now none o k = k
  check_drift-Kept now (some info) o k =
      let noted : Optimizer W = record o { last_drift_info = some info } in
      let psi = get_or_else info.max_psi (of_nat 0) in
      let acc = get_or_else info.rolling_accuracy (of_nat 1) in
      let fresh = get_or_else info.drift_detected false && not o.drift_detected in
      let drifted = act ActionType.drift_alert psi (f.ratio 20 100) "" now noted in
      let alerted = if fresh then drifted else noted in
      let k1 =
        Kept-if fresh drifted noted
          (act-Kept ActionType.drift_alert psi (f.ratio 20 100) "" now noted k) k in
      let low =
        act ActionType.accuracy_alert (f.rounded 4 acc) o.drift_accuracy_threshold "" now alerted in
      Kept-if (f.lt acc o.drift_accuracy_threshold) low alerted
        (act-Kept ActionType.accuracy_alert (f.rounded 4 acc) o.drift_accuracy_threshold "" now
          alerted k1)
        k1

  note_check-lem :
      (now : W) (n : ℕ) (o : Optimizer W)
      → Kept o
      → Kept (note_check now n o) × (length (note_check now n o).active_alerts ≤ 50)
  unfolding note_check
  note_check-lem now n o k = (
    (k.0, append_bounded-le 30 o.history _),
    omega (arith, length-drop (length o.active_alerts - 50) o.active_alerts),
  )

  check_nodes-IsBounded :
      (stdev : List W → W) (now : W) (info : Option (DriftInfo W)) (ms : Dict String (Metrics W))
      (o : Optimizer W)
      → IsBounded o
      → IsBounded (check_nodes stdev now info ms o).0
  unfolding check_nodes
  check_nodes-IsBounded stdev now info [] o b = b
  check_nodes-IsBounded stdev now info (n ∷ ns) o b =
      let watched = watch_nodes now (n ∷ ns) o in
      let varied = (check_variance stdev now (cpu_values (n ∷ ns)) watched).0 in
      let k1 = watch_nodes-Kept now (n ∷ ns) o (b.actions, b.history) in
      let k2 = check_variance-Kept stdev now (cpu_values (n ∷ ns)) watched k1 in
      let ((acts, records), alerts) =
        note_check-lem now (length (n ∷ ns)) (check_drift now info varied)
          (check_drift-Kept now info varied k2) in
      record { actions = acts; history = records; alerts = alerts }

  -- A check keeps the optimizer's memory bounded: at most 100 actions, 30 check records and 50 active
  -- alerts.
  pub check-IsBounded :
      (stdev : List W → W) (reason_of : W → String) (e : Engine W) (now : W)
      (info : Option (DriftInfo W)) (daa : Option (Allocator W)) (o : Optimizer W)
      → IsBounded o
      → IsBounded (check stdev reason_of e now info daa o).0
  unfolding check
  check-IsBounded stdev reason_of e now info daa o b =
      check_nodes-IsBounded stdev now info (get_all_metrics e)
        (record o { run_count = o.run_count + 1; last_run_time = now })
        (record { actions = b.actions; history = b.history; alerts = b.alerts })
