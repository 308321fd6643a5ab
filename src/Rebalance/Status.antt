-- ===== src/Rebalance/Status.antt =====
-- coordinator/routing/daa.py: the constructor with the configuration, and the status of the task.
-- The interval is only slept and reported, so it is an argument of the status.
use predictive_consistent_ha.Prelude.{
  ℕ, String, Bool, false, Option, none, some, List, [], ◌∷◌, get_or_else, map,
}
use predictive_consistent_ha.Prelude.Float.{Float, of_nat}
use predictive_consistent_ha.Rebalance.{Allocator, NodeAdjustment, RunRecord}

-- The keys of the configuration that the constructor reads.
pub record Settings (W : Type 0) : Type 0 where
  pub cpu_increase_below : Option W
  pub cpu_decrease_above : Option W
  pub queue_increase_below : Option W
  pub queue_decrease_above : Option W
  pub burst_damping_factor : Option W
  pub vnode_base_count : Option ℕ
  pub vnode_min_count : Option ℕ

pub record Thresholds (W : Type 0) : Type 0 where
  pub cpu_increase_below : W
  pub cpu_decrease_above : W
  pub queue_increase_below : W
  pub queue_decrease_above : W
  pub burst_damping_factor : W

-- A run as the status lists it.
pub record RunSummary (W : Type 0) : Type 0 where
  pub run_id : ℕ
  pub timestamp : W
  pub total_vnodes_before : ℕ
  pub total_vnodes_after : ℕ
  pub triggered_by : String
  pub duration_ms : W

pub record Status (W : Type 0) : Type 0 where
  pub running : Bool
  pub interval_sec : W
  pub total_runs : ℕ
  pub last_run_time : W
  pub last_run_duration_ms : W
  pub burst_imminent : Bool
  pub thresholds : Thresholds W
  pub last_adjustments : List (NodeAdjustment W)
  pub last_total_vnodes : ℕ
  pub history : List (RunSummary W)

module _ {W : Type 0} where
  -- `self._history[-1] if self._history else None`
  last_run : List (RunRecord W) → Option (RunRecord W)
  last_run [] = none
  last_run (r ∷ []) = some r
  last_run (r ∷ q ∷ rs) = last_run (q ∷ rs)

  adjustments_of : Option (RunRecord W) → List (NodeAdjustment W)
  adjustments_of none = []
  adjustments_of (some r) = r.adjustments

  vnodes_after : Option (RunRecord W) → ℕ
  vnodes_after none = 0
  vnodes_after (some r) = r.total_vnodes_after

  summary : RunRecord W → RunSummary W
  summary r = record {
    run_id = r.run_id;
    timestamp = r.timestamp;
    total_vnodes_before = r.total_vnodes_before;
    total_vnodes_after = r.total_vnodes_after;
    triggered_by = r.triggered_by;
    duration_ms = r.duration_ms;
  }

module _ {W : Type 0} ⦃f : Float W⦄ where
  init : Settings W → Allocator W
  init s = record {
    cpu_increase_below = get_or_else s.cpu_increase_below (of_nat 50);
    cpu_decrease_above = get_or_else s.cpu_decrease_above (of_nat 80);
    queue_increase_below = get_or_else s.queue_increase_below (of_nat 20);
    queue_decrease_above = get_or_else s.queue_decrease_above (of_nat 80);
    burst_damping_factor = get_or_else s.burst_damping_factor (f.ratio 7 10);
    vnode_base_count = get_or_else s.vnode_base_count 150;
    vnode_min_count = get_or_else s.vnode_min_count 10;
    running = false;
    burst_imminent = false;
    run_count = 0;
    last_run_time = of_nat 0;
    last_run_duration_ms = of_nat 0;
    history = [];
    pending_trigger = none;
  }

  get_status : W → Allocator W → Status W
  get_status interval_sec a = record {
    running = a.running;
    interval_sec = interval_sec;
    total_runs = a.run_count;
    last_run_time = a.last_run_time;
    last_run_duration_ms = f.rounded 2 a.last_run_duration_ms;
    burst_imminent = a.burst_imminent;
    thresholds = record {
      cpu_increase_below = a.cpu_increase_below;
      cpu_decrease_above = a.cpu_decrease_above;
      queue_increase_below = a.queue_increase_below;
      queue_decrease_above = a.queue_decrease_above;
      burst_damping_factor = a.burst_damping_factor;
    };
    last_adjustments = adjustments_of (last_run a.history);
    last_total_vnodes = vnodes_after (last_run a.history);
    history = map summary a.history;
  }
