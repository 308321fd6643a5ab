-- ===== src/Storage/Influx.antt =====
-- coordinator/db/influxdb_client.py: `InfluxDBClient`. A synchronous write is not interrupted, so a
-- batch is written or refused. The library's client is what `connect` and the queries are told.
use predictive_consistent_ha.Prelude.{
  ℕ, String, Bool, true, false, Option, none, some, List, [], ◌∷◌, ◌+◌, ◌++◌, max, length, leb,
  if◌then◌else◌, map,
}
use predictive_consistent_ha.Prelude.Dict.{Dict}
use predictive_consistent_ha.Prelude.Float.{Float, of_nat}
use predictive_consistent_ha.Storage.{Times}

pub record MetricPoint (W : Type 0) : Type 0 where
  pub measurement : String
  pub tags : Dict String String
  pub fields : Dict String W
  pub timestamp : Option W

-- The library's `Point`: its time is in nanoseconds.
pub record InfluxPoint (W : Type 0) : Type 0 where
  pub measurement : String
  pub tags : Dict String String
  pub fields : Dict String W
  pub time : Option ℕ

pub record Client (W : Type 0) : Type 0 where
  pub url : String
  pub token : String
  pub org : String
  pub bucket_metrics : String
  pub bucket_forecast : String
  pub batch_interval_sec : ℕ
  pub has_write_api : Bool
  pub has_query_api : Bool
  pub has_client : Bool
  pub buffer : List (MetricPoint W)
  pub running : Bool
  pub total_points_written : ℕ
  pub total_points_buffered : ℕ
  pub total_flushes : ℕ
  pub flush_errors : ℕ
  pub last_flush_time : W
  pub last_flush_duration_ms : W

pub record Stats (W : Type 0) : Type 0 where
  pub total_points_written : ℕ
  pub total_points_buffered : ℕ
  pub total_flushes : ℕ
  pub flush_errors : ℕ
  pub current_buffer_size : ℕ
  pub last_flush_duration_ms : W
  pub batch_interval_sec : ℕ

-- How far `connect` comes before an exception: the library is missing or its client fails, the
-- write API fails, the query API fails, or all is there.
pub data Connection : Type 0 where
  no_client : Connection
  no_write_api : Connection
  no_query_api : Connection
  connected : Connection

-- `DEFAULT_BATCH_SIZE`
abbrev pub default_batch_size : ℕ
default_batch_size = 500

module _ {W : Type 0} ⦃f : Float W⦄ where
  unfoldable pub init : String → String → String → String → String → ℕ → Client W
  init url token org bucket_metrics bucket_forecast batch_interval_sec = record {
    url = url;
    token = token;
    org = org;
    bucket_metrics = bucket_metrics;
    bucket_forecast = bucket_forecast;
    batch_interval_sec = batch_interval_sec;
    has_write_api = false;
    has_query_api = false;
    has_client = false;
    buffer = [];
    running = false;
    total_points_written = 0;
    total_points_buffered = 0;
    total_flushes = 0;
    flush_errors = 0;
    last_flush_time = of_nat 0;
    last_flush_duration_ms = of_nat 0;
  }

  -- `if p.timestamp: ip.time(int(p.timestamp * 1e9))`; a timestamp of 0 counts as none.
  unfoldable pub time_of : Option W → Option ℕ
  time_of none = none
  time_of (some t) =
      if f.lt (of_nat 0) t then some (f.trunc (f.mul t (of_nat 1000000000))) else none

  unfoldable pub influx_point : MetricPoint W → InfluxPoint W
  influx_point p = record {
    measurement = p.measurement;
    tags = p.tags;
    fields = p.fields;
    time = time_of p.timestamp;
  }

  -- The `try` of `_flush_buffer` on a batch that has left the buffer
  unfoldable pub settle : Bool → Times W → List (MetricPoint W) → Client W → Client W
  settle true t batch c = record c {
    total_points_written = c.total_points_written + length batch;
    total_flushes = c.total_flushes + 1;
    last_flush_time = t.now;
    last_flush_duration_ms = f.mul (f.sub t.end t.start) (of_nat 1000);
  }
  settle false t batch c = record c {
    flush_errors = c.flush_errors + 1;
    buffer = c.buffer ++ batch;
  }

  -- `_flush_buffer`: the client, and the points that the write API took. The Boolean says whether
  -- the write succeeds; without the API nothing is written, and the batch counts as written.
  unfoldable pub flush_batch :
      Bool → Times W → List (MetricPoint W) → Client W → Client W × List (InfluxPoint W)
  flush_batch ok t [] c = (c, [])
  flush_batch ok t (p ∷ ps) c =
      let cleared : Client W = record c { buffer = [] } in
      if c.has_write_api
      then (settle ok t (p ∷ ps) cleared, if ok then map influx_point (p ∷ ps) else [])
      else (settle true t (p ∷ ps) cleared, [])

  unfoldable pub flush_buffer : Bool → Times W → Client W → Client W × List (InfluxPoint W)
  flush_buffer ok t c = flush_batch ok t c.buffer c

  unfoldable pub write_point :
      Bool → Times W → MetricPoint W → Client W → Client W × List (InfluxPoint W)
  write_point ok t p c =
      let c2 : Client W = record c {
        buffer = c.buffer ++ p ∷ [];
        total_points_buffered = c.total_points_buffered + 1;
      } in
      if leb default_batch_size (length c2.buffer) then flush_buffer ok t c2 else (c2, [])

  abbrev pub node_point : String → W → W → ℕ → W → W → ℕ → MetricPoint W
  node_point node_name cpu_pct memory_pct queue_depth latency_ema_ms throughput_rps vnode_count =
      record {
        measurement = "node_metrics";
        tags = ("node", node_name) ∷ [];
        fields =
            ("cpu_pct", cpu_pct)
            ∷ ("memory_pct", memory_pct)
            ∷ ("queue_depth", of_nat queue_depth)
            ∷ ("latency_ema_ms", latency_ema_ms)
            ∷ ("throughput_rps", throughput_rps)
            ∷ ("vnode_count", of_nat vnode_count)
            ∷ [];
        timestamp = none;
      }

  write_node_metrics :
      Bool → Times W → String → W → W → ℕ → W → W → ℕ → Client W → Client W × List (InfluxPoint W)
  write_node_metrics ok t node_name cpu_pct memory_pct depth latency_ema_ms throughput_rps vnodes
        c =
      write_point ok t
        (node_point node_name cpu_pct memory_pct depth latency_ema_ms throughput_rps vnodes) c

  abbrev pub rate_point : String → String → W → ℕ → MetricPoint W
  rate_point node_name request_class rate_per_sec total_count = record {
    measurement = "request_rate";
    tags = ("node", node_name) ∷ ("class", request_class) ∷ [];
    fields = ("rate_per_sec", rate_per_sec) ∷ ("total_count", of_nat total_count) ∷ [];
    timestamp = none;
  }

  write_request_rate :
      Bool → Times W → String → String → W → ℕ → Client W → Client W × List (InfluxPoint W)
  write_request_rate ok t node_name request_class rate_per_sec total_count c =
      write_point ok t (rate_point node_name request_class rate_per_sec total_count) c

  unfoldable pub stop : Bool → Times W → Client W → Client W × List (InfluxPoint W)
  stop ok t c = flush_buffer ok t (record c { running = false })

  get_stats : Client W → Stats W
  get_stats c = record {
    total_points_written = c.total_points_written;
    total_points_buffered = c.total_points_buffered;
    total_flushes = c.total_flushes;
    flush_errors = c.flush_errors;
    current_buffer_size = length c.buffer;
    last_flush_duration_ms = f.rounded 2 c.last_flush_duration_ms;
    batch_interval_sec = c.batch_interval_sec;
  }

  -- `get_available_point_count` in simulation mode: `self.last_flush_time or time.time()`
  simulated_count : W → W → Client W → ℕ
  simulated_count now later c =
      let since = if f.lt (of_nat 0) c.last_flush_time then c.last_flush_time else later in
      max (f.trunc (f.div (f.sub now since) (of_nat 5))) 60

module _ {W : Type 0} where
  unfoldable pub connect : Connection → Client W → Client W
  connect no_client c = c
  connect no_write_api c = record c { has_client = true }
  connect no_query_api c = record c { has_client = true; has_write_api = true }
  connect connected c = record c { has_client = true; has_write_api = true; has_query_api = true }

  start : Client W → Client W
  start c = record c { running = true }
