-- ===== src/Features.antt =====
-- coordinator/intake/feature_pipeline.py: `FeaturePipeline`, without Redis (which it never calls).
-- The readings of the clocks and `str.upper` are arguments.
pub mod Window
pub mod Bounds
pub mod History
use predictive_consistent_ha.Prelude.{
  ℕ, String, Bool, true, false, Option, none, some, List, [], ◌∷◌, ◌+◌, ◌-◌, ◌*◌, ◌++◌, max, length,
  take, ltb, get_or_else, if◌then◌else◌, ◌==◌, nat_eq, string_eq,
}
use predictive_consistent_ha.Prelude.Dict.{Dict, lookup, insert}
use predictive_consistent_ha.Prelude.Float.{Float, le, of_nat, fmin, fmax}

-- The module's bounds, which a configuration overrides.
pub record Norms (W : Type 0) : Type 0 where
  pub payload_max : W
  pub requests_window_max : W
  pub latency_ema_max : W
  pub queue_depth_max : W
  pub ema_alpha : W

-- `config["features"]`: what it gives in place of the module's bounds.
pub record Overrides (W : Type 0) : Type 0 where
  pub payload_bytes_max : Option W
  pub requests_per_window_max : Option W
  pub latency_ema_max_ms : Option W
  pub queue_depth_max : Option W
  pub ema_alpha : Option W

pub record Pipeline (W : Type 0) : Type 0 where
  pub request_count_window : List W
  pub latency_ema : W
  pub request_count_ema : W
  pub total_requests : ℕ
  pub error_count_window : List W
  pub total_count_window : List W
  pub client_request_times : Dict String (List W)
  pub cache_hits : ℕ
  pub cache_total : ℕ
  pub cache_hit_ema : W

-- The arguments of `extract_features`.
pub record Call (W : Type 0) : Type 0 where
  pub endpoint : String
  pub method : String
  pub payload_bytes : W
  pub queue_depth : W
  pub current_latency_ms : W
  pub client_id : String

-- The clock as `extract_features`, the three windows and `datetime.now().hour` read it.
pub record Readings (W : Type 0) : Type 0 where
  pub now : W
  pub window_now : W
  pub error_now : W
  pub client_now : W
  pub hour : ℕ

pub record Stats (W : Type 0) : Type 0 where
  pub total_requests : ℕ
  pub latency_ema_ms : W
  pub request_count_ema : W
  pub current_window_size : ℕ
  pub feature_version : String
  pub feature_count : ℕ
  pub error_rate_5m : W
  pub cache_hit_ema : W
  pub tracked_clients : ℕ

-- `ENDPOINT_IDS`
abbrev pub endpoint_ids : Dict String ℕ
endpoint_ids =
    ("/api/search", 0)
    ∷ ("/api/data", 1)
    ∷ ("/api/inference", 2)
    ∷ ("/api/status", 3)
    ∷ ("/api/batch", 4)
    ∷ []

module _ {W : Type 0} ⦃f : Float W⦄ where
  -- `CPU_ESTIMATES`
  abbrev pub cpu_estimates : Dict String W
  cpu_estimates =
      ("/api/search", f.ratio 2 10)
      ∷ ("/api/data", f.ratio 4 10)
      ∷ ("/api/inference", f.ratio 9 10)
      ∷ ("/api/status", f.ratio 1 10)
      ∷ ("/api/batch", f.ratio 7 10)
      ∷ []

  -- `METHOD_ENCODING`
  abbrev pub method_encoding : Dict String W
  method_encoding =
      ("GET", f.ratio 0 1)
      ∷ ("POST", f.ratio 5 10)
      ∷ ("PUT", f.ratio 75 100)
      ∷ ("DELETE", f.ratio 1 1)
      ∷ ("PATCH", f.ratio 6 10)
      ∷ ("HEAD", f.ratio 1 10)
      ∷ ("OPTIONS", f.ratio 5 100)
      ∷ []

  -- The module's own bounds, `PAYLOAD_MAX` to `EMA_ALPHA`.
  abbrev pub default_norms : Norms W
  default_norms = record {
    payload_max = of_nat 131072;
    requests_window_max = of_nat 200;
    latency_ema_max = of_nat 5000;
    queue_depth_max = of_nat 500;
    ema_alpha = f.ratio 3 10;
  }

  -- The state of a new pipeline
  unfoldable pub init : Pipeline W
  init = record {
    request_count_window = [];
    latency_ema = of_nat 0;
    request_count_ema = of_nat 0;
    total_requests = 0;
    error_count_window = [];
    total_count_window = [];
    client_request_times = [];
    cache_hits = 0;
    cache_total = 0;
    cache_hit_ema = f.ratio 5 10;
  }

  -- `_normalize`
  unfoldable pub normalize : W → W → W
  normalize value max_val =
      if le max_val (of_nat 0)
      then of_nat 0
      else fmin (fmax (f.div value max_val) (of_nat 0)) (of_nat 1)

  -- `[t for t in ts if t > cutoff]`
  unfoldable pub recent : W → List W → List W
  recent cutoff [] = []
  recent cutoff (t ∷ ts) = let rest = recent cutoff ts in if f.lt cutoff t then t ∷ rest else rest

  unfoldable pub get_requests_last_5s : W → Pipeline W → Pipeline W × ℕ
  get_requests_last_5s now p =
      let kept = recent (f.sub now (of_nat 5)) p.request_count_window in
      (record p { request_count_window = kept }, length kept)

  -- `EMA_ALPHA * value + (1 - EMA_ALPHA) * ema`
  abbrev pub smoothed : Norms W → W → W → W
  smoothed norms value ema =
      f.add (f.mul norms.ema_alpha value) (f.mul (f.sub (of_nat 1) norms.ema_alpha) ema)

  unfoldable pub update_latency_ema : Norms W → W → Pipeline W → Pipeline W
  update_latency_ema norms latency_ms p =
      if p.total_requests == 0
      then record p { latency_ema = latency_ms }
      else record p { latency_ema = smoothed norms latency_ms p.latency_ema }

  unfoldable pub is_burst : Norms W → ℕ → Pipeline W → Pipeline W × Bool
  is_burst norms requests_last_5s p =
      if ltb p.total_requests 10
      then (p, false)
      else let ema = smoothed norms (of_nat requests_last_5s) p.request_count_ema in
        (
          record p { request_count_ema = ema },
          f.lt (f.mul (of_nat 2) ema) (of_nat requests_last_5s),
        )

  unfoldable pub get_error_rate_5m : W → Pipeline W → Pipeline W × W
  get_error_rate_5m now p =
      let cutoff = f.sub now (of_nat 300) in
      let errors = recent cutoff p.error_count_window in
      let totals = recent cutoff p.total_count_window in
      (
        record p { error_count_window = errors; total_count_window = totals },
        if ltb (length totals) 5 then of_nat 0 else f.ratio (length errors) (length totals),
      )

  -- `self._client_request_times[client_id]`, a defaultdict
  abbrev pub times_of : String → Pipeline W → List W
  times_of client_id p = get_or_else (lookup client_id p.client_request_times) []

  unfoldable pub get_client_rate : W → String → Pipeline W → Pipeline W × W
  get_client_rate now client_id p =
      let kept = recent (f.sub now (of_nat 10)) (times_of client_id p) in
      (
        record p { client_request_times = insert client_id kept p.client_request_times },
        f.ratio (length kept) 10,
      )

  unfoldable pub record_error : W → Pipeline W → Pipeline W
  record_error now p = record p { error_count_window = p.error_count_window ++ now ∷ [] }

  unfoldable pub record_cache_result : Bool → Pipeline W → Pipeline W
  record_cache_result hit p = record p {
    cache_total = p.cache_total + 1;
    cache_hits = if hit then p.cache_hits + 1 else p.cache_hits;
    cache_hit_ema =
        f.add (f.mul (f.ratio 1 10) (if hit then of_nat 1 else of_nat 0))
          (f.mul (f.ratio 9 10) p.cache_hit_ema);
  }

  -- `extract_features` up to the first feature
  unfoldable pub note_call : Norms W → Readings W → Call W → Pipeline W → Pipeline W
  note_call norms r c p =
      let counted : Pipeline W = record p {
        request_count_window = p.request_count_window ++ r.now ∷ [];
        total_count_window = p.total_count_window ++ r.now ∷ [];
        total_requests = p.total_requests + 1;
      } in
      let tracked : Pipeline W = if c.client_id == "" then counted else record counted {
        client_request_times =
            insert c.client_id (times_of c.client_id counted ++ r.now ∷ [])
              counted.client_request_times;
      } in
      if f.lt (of_nat 0) c.current_latency_ms
      then update_latency_ema norms c.current_latency_ms tracked
      else tracked

  -- Features 1 and 2
  unfoldable pub cpu_feature : Norms W → Call W → W
  cpu_feature norms c =
      let base_cpu = get_or_else (lookup c.endpoint cpu_estimates) (f.ratio 3 10) in
      let payload_factor = fmin (f.div c.payload_bytes norms.payload_max) (of_nat 1) in
      fmin (f.add base_cpu (f.mul payload_factor (f.ratio 3 10))) (of_nat 1)

  unfoldable pub endpoint_feature : String → W
  endpoint_feature endpoint =
      f.ratio (get_or_else (lookup endpoint endpoint_ids) 0) (max (length endpoint_ids - 1) 1)

  -- Feature 10
  unfoldable pub client_feature : Readings W → String → Pipeline W → Pipeline W × W
  client_feature r client_id p =
      if client_id == ""
      then (p, of_nat 0)
      else let (p2, rate) = get_client_rate r.client_now client_id p in
        (p2, normalize rate (of_nat 50))

  unfoldable pub extract_features :
      (String → String) → Norms W → Readings W → Call W → Pipeline W → Pipeline W × List W
  extract_features upper norms r c p =
      let p1 = note_call norms r c p in
      let (p2, requests_5s) = get_requests_last_5s r.window_now p1 in
      let (p3, burst) = is_burst norms requests_5s p2 in
      let (p4, error_rate) = get_error_rate_5m r.error_now p3 in
      let (p5, client_rate) = client_feature r c.client_id p4 in
      (
        p5,
        normalize c.payload_bytes norms.payload_max
            ∷ cpu_feature norms c
            ∷ endpoint_feature c.endpoint
            ∷ normalize (of_nat requests_5s) norms.requests_window_max
            ∷ normalize p2.latency_ema norms.latency_ema_max
            ∷ normalize c.queue_depth norms.queue_depth_max
            ∷ f.ratio r.hour 24
            ∷ (if burst then of_nat 1 else of_nat 0)
            ∷ get_or_else (lookup (upper c.method) method_encoding) (f.ratio 3 10)
            ∷ fmin error_rate (of_nat 1)
            ∷ client_rate
            ∷ p5.cache_hit_ema
            ∷ [],
      )

  -- `extract_features_v1`: the client is not given.
  unfoldable pub extract_features_v1 :
      (String → String) → Norms W → Readings W → Call W → Pipeline W → Pipeline W × List W
  extract_features_v1 upper norms r c p =
      let (p2, full) = extract_features upper norms r (record c { client_id = "" }) p in
      (p2, take 8 full)

  unfoldable pub get_stats : W → Pipeline W → Pipeline W × Stats W
  get_stats now p =
      let (p2, error_rate) = get_error_rate_5m now p in
      (
        p2,
        record {
          total_requests = p.total_requests;
          latency_ema_ms = p.latency_ema;
          request_count_ema = p.request_count_ema;
          current_window_size = length p.request_count_window;
          feature_version = "v2";
          feature_count = 12;
          error_rate_5m = f.rounded 4 error_rate;
          cache_hit_ema = f.rounded 4 p2.cache_hit_ema;
          tracked_clients = length p2.client_request_times;
        },
      )

module _ {W : Type 0} where
  -- `__init__`: the overrides that are given replace the module's bounds.
  override : Option (Overrides W) → Norms W → Norms W
  override none norms = norms
  override (some o) norms = record {
    payload_max = get_or_else o.payload_bytes_max norms.payload_max;
    requests_window_max = get_or_else o.requests_per_window_max norms.requests_window_max;
    latency_ema_max = get_or_else o.latency_ema_max_ms norms.latency_ema_max;
    queue_depth_max = get_or_else o.queue_depth_max norms.queue_depth_max;
    ema_alpha = get_or_else o.ema_alpha norms.ema_alpha;
  }
