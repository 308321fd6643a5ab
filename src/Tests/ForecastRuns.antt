-- ===== src/Tests/ForecastRuns.antt =====
-- The theorems on the forecaster at a run of two heavy requests and a cycle.
use predictive_consistent_ha.Prelude.{ℕ, ◌+◌, true, false, none, some, [], ◌≡◌, ◌⊎◌, refl}
use predictive_consistent_ha.Prelude.Float.{milli, milli-IsOrdered, of_nat, InUnit}
use predictive_consistent_ha.Rebalance.{Allocator}
use predictive_consistent_ha.Forecast.{
  Numerics, Settings, record_heavy_request, is_fresh, get_predicted_load,
}
use predictive_consistent_ha.Forecast.Loads.{get_predicted_load-InUnit}
use predictive_consistent_ha.Forecast.Runs.{
  World, Reach, here, next, heavy, cycle, own_cycle, new_world, IsSynced, Reach-IsSynced,
}

-- A network that never answers.
abbrev numerics : Numerics ℕ
numerics = record { standardise = λ mean std xs. xs; mean = λ xs. 0; network = λ xs. none }

abbrev settings : Settings ℕ
settings = record {
  model_path = none;
  window_size = none;
  predict_ahead = none;
  inference_interval_sec = none;
  burst_multiplier = none;
  stale_after_sec = none;
  warmup_min_points = none;
  forecast_key = none;
  forecast_ttl_sec = none;
}

abbrev daa : Allocator ℕ
daa = record {
  cpu_increase_below = 40000;
  cpu_decrease_above = 75000;
  queue_increase_below = 30000;
  queue_decrease_above = 70000;
  burst_damping_factor = 600;
  vnode_base_count = 150;
  vnode_min_count = 50;
  running = true;
  burst_imminent = false;
  run_count = 0;
  last_run_time = 0;
  last_run_duration_ms = 0;
  history = [];
  pending_trigger = none;
}

abbrev world_0 : World ℕ
world_0 = new_world settings (some daa)

abbrev heavy_one : World ℕ → World ℕ
heavy_one w = record w { forecaster = record_heavy_request w.forecaster; arrivals = w.arrivals + 1 }

abbrev world_3 : World ℕ
world_3 = own_cycle numerics 5000 (heavy_one (heavy_one world_0))

run : Reach numerics world_0 world_3
run = next (next (next here heavy) heavy) (cycle 5000)

Reach-IsSynced_example : IsSynced world_3
Reach-IsSynced_example = Reach-IsSynced numerics settings (some daa) world_3 refl run

get_predicted_load-InUnit_example :
    InUnit (get_predicted_load 6000 4 world_3.forecaster)
    × ((milli.lt (of_nat 0) world_3.forecaster.last_prediction ≡ false)
          ⊎ (is_fresh 6000 world_3.forecaster ≡ false)
        → get_predicted_load 6000 4 world_3.forecaster ≡ of_nat 0)
get_predicted_load-InUnit_example =
    get_predicted_load-InUnit milli-IsOrdered 6000 4 world_3.forecaster
