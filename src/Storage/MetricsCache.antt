-- ===== src/Storage/MetricsCache.antt =====
-- coordinator/db/redis_cache.py: `RedisMetricsCache`, the cache of the nodes' metrics, with answers
-- and clocks as for the ring's. A refresh changes nothing before the answers are there.
use predictive_consistent_ha.Prelude.{
  ℕ, String, Bool, true, false, Option, none, some, List, [], ◌∷◌, ◌+◌, length, map, if◌then◌else◌,
  get_or_else, string_eq,
}
use predictive_consistent_ha.Prelude.Dict.{Dict, lookup, insert, contains}
use predictive_consistent_ha.Prelude.Float.{Float, of_nat}
use predictive_consistent_ha.Storage.{Times}
use predictive_consistent_ha.Storage.RingCache.{Command, hset, expire}
use Prim.Native.String.{◌++◌ as concat}

-- A value of a node's metrics, as a number if `float` reads one.
pub data Metric (W : Type 0) : Type 0 where
  number : W → Metric W
  text : String → Metric W

pub record MetricsCache (W : Type 0) : Type 0 where
  pub has_redis : Bool
  pub metrics_prefix : String
  pub metrics_ttl_sec : ℕ
  pub metrics_cache : Dict String (Dict String (Metric W))
  pub node_names : List String
  pub last_refresh : W
  pub refresh_count : ℕ
  pub refresh_latency_ms : W
  pub running : Bool

pub record MetricsStats (W : Type 0) : Type 0 where
  pub cached_nodes : ℕ
  pub node_names : List String
  pub last_refresh : W
  pub refresh_count : ℕ
  pub refresh_latency_ms : W

module _ {W : Type 0} where
  unfoldable pub metric_of : (String → Option W) → String → Metric W
  metric_of parse val = elim (parse val) [ none ↦ text val | some x ↦ number x ]

  unfoldable pub decode :
      (String → Option W) → Dict String String → Dict String (Metric W) → Dict String (Metric W)
  decode parse [] decoded = decoded
  decode parse ((k, v) ∷ data_items) decoded =
      decode parse data_items (insert k (metric_of parse v) decoded)

  -- The loop over `zip(self._node_names, results)`
  unfoldable pub store_results :
      (String → Option W)
      → List String
      → List (Dict String String)
      → Dict String (Dict String (Metric W))
      → Dict String (Dict String (Metric W))
  store_results parse [] results m = m
  store_results parse (name ∷ names) [] m = m
  store_results parse (name ∷ names) ([] ∷ results) m = store_results parse names results m
  store_results parse (name ∷ names) ((item ∷ items) ∷ results) m =
      store_results parse names results (insert name (decode parse (item ∷ items) []) m)

  -- The loop of `set_node_names`
  unfoldable pub name_nodes :
      List String → Dict String (Dict String (Metric W)) → Dict String (Dict String (Metric W))
  name_nodes [] m = m
  name_nodes (name ∷ names) m = name_nodes names (if contains name m then m else insert name [] m)

module _ {W : Type 0} ⦃f : Float W⦄ where
  unfoldable pub init : Bool → String → ℕ → MetricsCache W
  init has_redis metrics_prefix metrics_ttl_sec = record {
    has_redis = has_redis;
    metrics_prefix = metrics_prefix;
    metrics_ttl_sec = metrics_ttl_sec;
    metrics_cache = [];
    node_names = [];
    last_refresh = of_nat 0;
    refresh_count = 0;
    refresh_latency_ms = of_nat 0;
    running = false;
  }

  unfoldable pub set_node_names : List String → MetricsCache W → MetricsCache W
  set_node_names names c = record c {
    node_names = names;
    metrics_cache = name_nodes names c.metrics_cache;
  }

  start : MetricsCache W → MetricsCache W
  start c = record c { running = true }

  stop : MetricsCache W → MetricsCache W
  stop c = record c { running = false }

  -- A refresh of some names, where there is a client.
  unfoldable pub refresh_names :
      (String → Option W)
      → List (Dict String String)
      → Times W
      → List String
      → MetricsCache W
      → MetricsCache W
  refresh_names parse results t [] c = c
  refresh_names parse results t (name ∷ names) c = record c {
    metrics_cache = store_results parse (name ∷ names) results c.metrics_cache;
    last_refresh = t.now;
    refresh_count = c.refresh_count + 1;
    refresh_latency_ms = f.mul (f.sub t.end t.start) (of_nat 1000);
  }

  unfoldable pub refresh_all :
      (String → Option W)
      → Option (List (Dict String String))
      → Times W
      → MetricsCache W
      → MetricsCache W
  refresh_all parse none t c = c
  refresh_all parse (some results) t c =
      if c.has_redis then refresh_names parse results t c.node_names c else c

  unfoldable pub get_node_metrics : String → MetricsCache W → Dict String (Metric W)
  get_node_metrics name c = get_or_else (lookup name c.metrics_cache) []

  get_all_metrics : MetricsCache W → Dict String (Dict String (Metric W))
  get_all_metrics c = c.metrics_cache

  -- `str(v)` is `shown`; the flag tells whether `hset` returns, after which `expire` is sent.
  unfoldable pub write_node_metrics :
      (Metric W → String)
      → Bool
      → String
      → Dict String (Metric W)
      → MetricsCache W
      → MetricsCache W × List Command
  write_node_metrics shown stored name metrics c =
      let key : String = concat c.metrics_prefix name in
      let mapping : Dict String String = map (λ e. (e.0, shown e.1)) metrics in
      (
        record c { metrics_cache = insert name metrics c.metrics_cache },
        if c.has_redis
            then hset key mapping ∷ (if stored then expire key c.metrics_ttl_sec ∷ [] else [])
            else [],
      )

  get_stats : MetricsCache W → MetricsStats W
  get_stats c = record {
    cached_nodes = length c.metrics_cache;
    node_names = c.node_names;
    last_refresh = c.last_refresh;
    refresh_count = c.refresh_count;
    refresh_latency_ms = f.rounded 3 c.refresh_latency_ms;
  }
