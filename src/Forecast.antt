-- ===== src/Forecast.antt =====
-- coordinator/ml/forecaster.py: `TrafficForecaster`. numpy, the trained network and the database
-- are arguments: the file's own code is the window, the fallback and the burst flag.
pub mod Runs
pub mod Loads
use predictive_consistent_ha.Prelude.{
  ℕ, String, Bool, true, false, Option, none, some, List, [], ◌∷◌, ◌+◌, ◌++◌, length, last_values,
  leb, ltb, max, map, if◌then◌else◌, ◌&&◌, ◌||◌, not, nat_eq, string_eq, ◌==◌, get_or_else,
}
use predictive_consistent_ha.Prelude.Float.{Float, le, of_nat, fmin, fmax}
use predictive_consistent_ha.Rebalance.{Allocator, append_bounded, set_burst_imminent}

-- numpy and the network: `(data - mean) / std` in single precision, `np.mean`, and the output for
-- a normalised window, or nothing where the inference fails.
pub record Numerics (W : Type 0) : Type 0 where
  pub standardise : W → W → List W → List W
  pub mean : List W → W
  pub network : List W → Option W

pub record Forecaster (W : Type 0) : Type 0 where
  pub model_path : String
  pub window_size : ℕ
  pub predict_ahead : ℕ
  pub interval_sec : W
  pub burst_multiplier : W
  pub stale_after_sec : W
  pub warmup_min_points : ℕ
  pub loaded : Bool
  pub series_mean : W
  pub series_std : W
  pub window : List W
  pub running : Bool
  pub last_prediction : W
  pub last_prediction_time : W
  pub burst_imminent : Bool
  pub run_count : ℕ
  pub total_requests_heavy : ℕ
  pub forecast_key : String
  pub forecast_ttl : ℕ

-- `config["ml"]["forecaster"]` and the two settings of `config["datastores"]["redis"]`
pub record Settings (W : Type 0) : Type 0 where
  pub model_path : Option String
  pub window_size : Option ℕ
  pub predict_ahead : Option ℕ
  pub inference_interval_sec : Option W
  pub burst_multiplier : Option W
  pub stale_after_sec : Option W
  pub warmup_min_points : Option ℕ
  pub forecast_key : Option String
  pub forecast_ttl_sec : Option ℕ

-- What `_write_to_redis` stores under the forecast's key.
pub record Forecast (W : Type 0) : Type 0 where
  pub predicted_heavy_rate : W
  pub burst_imminent : Bool
  pub timestamp : W
  pub model_used : String
  pub run_id : ℕ

pub record Status (W : Type 0) : Type 0 where
  pub running : Bool
  pub model_loaded : Bool
  pub model_path : String
  pub model_type : String
  pub interval_sec : W
  pub total_runs : ℕ
  pub last_prediction : W
  pub last_prediction_time : W
  pub prediction_fresh : Bool
  pub burst_imminent : Bool
  pub burst_multiplier : W
  pub window_size : ℕ
  pub internal_window_fill : ℕ

-- `old_burst != self._burst_imminent`
unfoldable pub changed : Bool → Bool → Bool
changed true new = not new
changed false new = new

module _ {W : Type 0} ⦃f : Float W⦄ where
  -- `__init__`, with the module's defaults
  unfoldable pub init : Settings W → Forecaster W
  init s = record {
    model_path = get_or_else s.model_path "models/forecaster_v1.pt";
    window_size = get_or_else s.window_size 60;
    predict_ahead = get_or_else s.predict_ahead 10;
    interval_sec = get_or_else s.inference_interval_sec (of_nat 5);
    burst_multiplier = get_or_else s.burst_multiplier (f.ratio 15 10);
    stale_after_sec = get_or_else s.stale_after_sec (of_nat 30);
    warmup_min_points = get_or_else s.warmup_min_points 60;
    loaded = false;
    series_mean = of_nat 0;
    series_std = of_nat 1;
    window = [];
    running = false;
    last_prediction = of_nat 0;
    last_prediction_time = of_nat 0;
    burst_imminent = false;
    run_count = 0;
    total_requests_heavy = 0;
    forecast_key = get_or_else s.forecast_key "forecast:latest";
    forecast_ttl = get_or_else s.forecast_ttl_sec 15;
  }

  -- The loop of `_ema_fallback`
  unfoldable pub average : W → List W → W
  average ema [] = ema
  average ema (v ∷ vs) =
      average (f.add (f.mul (f.ratio 3 10) v) (f.mul (f.sub (of_nat 1) (f.ratio 3 10)) ema)) vs

  unfoldable pub ema_fallback : List W → W
  ema_fallback [] = of_nat 0
  ema_fallback (v ∷ vs) = fmax (average v vs) (of_nat 0)

  -- `_gru_predict`
  unfoldable pub gru_predict : Numerics W → List W → Forecaster W → W
  gru_predict n window c =
      let recent = last_values c.window_size window in
      let std = f.add c.series_std (f.ratio 1 100000000) in
      denormalised (n.network (n.standardise c.series_mean std recent))
    where
      denormalised : Option W → W
      denormalised none = ema_fallback window
      denormalised (some p) = fmax (f.add (f.mul p c.series_std) c.series_mean) (of_nat 0)

  -- `_get_window_data` without the answer of the database: the counter joins the window.
  unfoldable pub own_window : Forecaster W → Forecaster W × List W
  own_window c =
      let window = append_bounded c.window_size c.window (of_nat c.total_requests_heavy) in
      (record c { window = window; total_requests_heavy = 0 }, window)

  -- `_get_window_data`: the answer of `query_heavy_counts`, or nothing where the client has no such
  -- method or it fails.
  unfoldable pub get_window_data : Option (List W) → Forecaster W → Forecaster W × List W
  get_window_data none c = own_window c
  get_window_data (some counts) c = if leb 10 (length counts) then (c, counts) else own_window c

  -- The prediction of a cycle, from its window
  unfoldable pub predict : Numerics W → List W → Forecaster W → W
  predict n window c =
      if ltb (length window) c.warmup_min_points || not c.loaded
      then ema_fallback window
      else gru_predict n window c

  -- `current_avg`
  unfoldable pub current_avg : Numerics W → List W → W
  current_avg n [] = of_nat 1
  current_avg n (v ∷ vs) =
      if ltb 10 (length (v ∷ vs)) then n.mean (last_values 10 (v ∷ vs)) else n.mean (v ∷ vs)

  unfoldable pub bursts : Numerics W → List W → W → Forecaster W → Bool
  bursts n window prediction c =
      f.lt (f.mul c.burst_multiplier (fmax (current_avg n window) (f.ratio 1 10))) prediction

  -- The call of the allocator, where there is one
  unfoldable pub tell : Bool → Option (Allocator W) → Option (Allocator W)
  tell burst none = none
  tell burst (some a) = some (set_burst_imminent burst a)

  -- `_forecast_cycle` up to the writing: the forecaster, and the allocator that is told of a change.
  unfoldable pub forecast_cycle :
      Numerics W
      → Option (List W)
      → W
      → Forecaster W
      → Option (Allocator W)
      → Forecaster W × Option (Allocator W)
  forecast_cycle n answer now c daa =
      let (c2, window) = get_window_data answer (record c { run_count = c.run_count + 1 }) in
      let prediction = predict n window c2 in
      let burst = bursts n window prediction c2 in
      (
        record c2 {
          last_prediction = prediction;
          last_prediction_time = now;
          burst_imminent = burst;
        },
        if changed c2.burst_imminent burst then tell burst daa else daa,
      )

  -- `_write_to_redis`: what is stored, if the client given has a connection in `_redis`.
  unfoldable pub write_to_redis : Bool → W → Forecaster W → Option (Forecast W)
  write_to_redis has_connection now c =
      if has_connection
      then some (record {
        predicted_heavy_rate = f.rounded 3 c.last_prediction;
        burst_imminent = c.burst_imminent;
        timestamp = now;
        model_used = if c.loaded then "gru" else "ema";
        run_id = c.run_count;
      })
      else none

  unfoldable pub is_fresh : W → Forecaster W → Bool
  is_fresh now c = f.lt (f.sub now c.last_prediction_time) c.stale_after_sec

  unfoldable pub get_predicted_load : W → ℕ → Forecaster W → W
  get_predicted_load now total_nodes c =
      if le c.last_prediction (of_nat 0) || not (is_fresh now c)
      then of_nat 0
      else fmin (f.div (f.div c.last_prediction (of_nat (max total_nodes 1))) (of_nat 10))
          (of_nat 1)

  get_status : W → Forecaster W → Status W
  get_status now c = record {
    running = c.running;
    model_loaded = c.loaded;
    model_path = c.model_path;
    model_type = if c.loaded then "gru" else "ema_fallback";
    interval_sec = c.interval_sec;
    total_runs = c.run_count;
    last_prediction = f.rounded 3 c.last_prediction;
    last_prediction_time = c.last_prediction_time;
    prediction_fresh = is_fresh now c;
    burst_imminent = c.burst_imminent;
    burst_multiplier = c.burst_multiplier;
    window_size = c.window_size;
    internal_window_fill = length c.window;
  }

module _ {W : Type 0} where
  -- `load`: the mean and deviation of the checkpoint, or nothing where it is missing or broken.
  unfoldable pub load : Option (W × W) → Forecaster W → Forecaster W × Bool
  load none c = (c, false)
  load (some (mean, std)) c =
      (record c { series_mean = mean; series_std = std; loaded = true }, true)

  unfoldable pub record_heavy_request : Forecaster W → Forecaster W
  record_heavy_request c = record c { total_requests_heavy = c.total_requests_heavy + 1 }

  unfoldable pub start : Forecaster W → Forecaster W
  start c = record c { running = true }

  unfoldable pub stop : Forecaster W → Forecaster W
  stop c = record c { running = false }
