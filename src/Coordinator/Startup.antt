-- ===== src/Coordinator/Startup.antt =====
-- coordinator/main.py: the startup of `lifespan`, the channel pool, the polling of the nodes and the
-- handlers that report on modes, nodes and the allocation engine.
use predictive_consistent_ha.Prelude.{
  ℕ, String, Bool, Option, none, some, List, [], ◌∷◌, map, get_or_else, is_some, if◌then◌else◌,
  ◌||◌, ◌==◌, string_eq, length, ◌>>=◌,
}
use predictive_consistent_ha.Prelude.Dict.{Dict, lookup, insert}
use predictive_consistent_ha.Prelude.Float.{Float, of_nat}
use Prim.Native.String.{◌++◌ as concat}
use predictive_consistent_ha.Ring.{Hashing, Ring, add_node}
use predictive_consistent_ha.Allocation.{Metrics, Engine, AllocationConfig}
use predictive_consistent_ha.Allocation
use predictive_consistent_ha.Baselines.RoundRobin
use predictive_consistent_ha.Baselines.RoundRobin.{RoundRobin}
use predictive_consistent_ha.Baselines.LeastConnections
use predictive_consistent_ha.Baselines.LeastConnections.{LeastConnections}
use predictive_consistent_ha.Baselines.StaticHash
use predictive_consistent_ha.Baselines.StaticHash.{StaticHash}

-- A node of the configuration, with `none` for an absent key.
pub record NodeConfig : Type 0 where
  pub name : String
  pub capacity_score : Option ℕ
  pub grpc_address : Option String
  pub cpu_cores : Option ℕ
  pub memory_gb : Option ℕ

-- `allocation_engine`: the engine of the full system or one of the baselines.
pub data EngineState (W : Type 0) : Type 0 where
  round_robin : RoundRobin W → EngineState W
  least_conn : LeastConnections W → EngineState W
  static_hash : StaticHash W → EngineState W
  predictive : Engine W → EngineState W

-- `weights` of `get_allocation_status`
pub record Weights (W : Type 0) : Type 0 where
  pub alpha_cpu : W
  pub beta_queue : W
  pub gamma_latency : W
  pub delta_forecast : W
  pub overflow_threshold : W

-- The answer of `get_routing_mode`.
pub record RoutingMode : Type 0 where
  pub routing_mode : String
  pub ml_classifier_enabled : Bool
  pub ml_forecaster_enabled : Bool
  pub daa_enabled : Bool
  pub feedback_enabled : Bool
  pub engine_type : String
  pub supported_modes : List String

-- An entry of `list_nodes`
pub record NodeEntry : Type 0 where
  pub config : NodeConfig
  pub grpc_connected : Bool

-- The fields of a node's `/health` that the polling reads.
pub record Health (W : Type 0) : Type 0 where
  pub cpu_pct : Option W
  pub queue_depth_total : Option ℕ
  pub latency_ema_ms : Option W

-- `GrpcChannelPool`, over the channels `C` of the library
pub record ChannelPool (C : Type 0) : Type 0 where
  pub channels : Dict String C
  pub node_configs : List NodeConfig

unfoldable pub use_classifier : String → Bool
use_classifier mode = mode == "predictive" || mode == "ablation_classifier_only"

unfoldable pub use_daa : String → Bool
use_daa mode =
    mode == "predictive" || mode == "ablation_classifier_only" || mode == "ablation_forecaster_only"

unfoldable pub use_forecaster : String → Bool
use_forecaster mode = mode == "predictive" || mode == "ablation_forecaster_only"

module _ {C : Type 0} where
  -- `initialize`: the loop; a node without an address is a KeyError.
  unfoldable pub open_channels :
      (String → C) → List NodeConfig → Dict String C → Option (Dict String C)
  open_channels connect [] channels = some channels
  open_channels connect (n ∷ ns) channels = n.grpc_address >>= λ address.
      open_channels connect ns (insert n.name (connect address) channels)

  unfoldable pub initialize :
      (String → C) → List NodeConfig → ChannelPool C → Option (ChannelPool C)
  initialize connect nodes p = open_channels connect nodes p.channels >>= λ channels.
      some (record { channels = channels; node_configs = nodes })

  unfoldable pub close : ChannelPool C → ChannelPool C
  close p = record p { channels = [] }

  unfoldable pub get_channel : String → ChannelPool C → Option C
  get_channel node_name p = lookup node_name p.channels

  unfoldable pub list_nodes : List NodeConfig → ChannelPool C → List NodeEntry × ℕ
  list_nodes nodes p =
      let entries =
        map (λ n. record { config = n; grpc_connected = is_some (get_channel n.name p) }) nodes in
      (entries, length {A = NodeEntry} entries)

-- `node_http_addresses`: `before_colon` answers what `split(":")[0]` gives where there is a colon.
unfoldable pub http_address : (String → Option String) → NodeConfig → String
http_address before_colon n =
    concat "http://"
      (concat (get_or_else (before_colon (get_or_else n.grpc_address "")) n.name) ":9100")

unfoldable pub http_addresses :
    (String → Option String) → List NodeConfig → Dict String String → Dict String String
http_addresses before_colon [] addresses = addresses
http_addresses before_colon (n ∷ ns) addresses =
    http_addresses before_colon ns (insert n.name (http_address before_colon n) addresses)

module _ {W : Type 0} ⦃f : Float W⦄ where
  -- The nodes of the configuration on the ring, each at the time the clock then shows.
  unfoldable pub add_nodes : Hashing → W → List NodeConfig → Ring W → Option (Ring W)
  add_nodes h now [] r = some r
  add_nodes h now (n ∷ ns) r =
      add_node h n.name (get_or_else n.capacity_score 100) now r >>= λ added.
      add_nodes h now ns added.0

  -- The engine that the mode selects.
  unfoldable pub create_engine :
      String → List String → Ring W → Option (AllocationConfig W) → EngineState W
  create_engine mode node_names ring config =
      if mode == "round_robin"
      then round_robin (RoundRobin.init node_names)
      else if mode == "least_conn"
      then least_conn (LeastConnections.init node_names)
      else if mode == "static_hash"
      then static_hash (StaticHash.init ring)
      else predictive (Allocation.init config)

  unfoldable pub update_metrics : String → Metrics W → W → EngineState W → EngineState W
  update_metrics name m now (round_robin e) =
      round_robin (RoundRobin.update_node_metrics name m now e)
  update_metrics name m now (least_conn e) =
      least_conn (LeastConnections.update_node_metrics name m now e)
  update_metrics name m now (static_hash e) =
      static_hash (StaticHash.update_node_metrics name m now e)
  update_metrics name m now (predictive e) =
      predictive (Allocation.update_node_metrics name m now e)

  abbrev pub initial_metrics : Metrics W
  initial_metrics = record {
    cpu_pct = some (of_nat 5);
    queue_depth = some 0;
    queue_max = some 450;
    latency_ema_ms = some (of_nat 0);
    latency_max_ms = some (of_nat 5000);
    updated_at = none;
  }

  unfoldable pub seed_metrics : W → List NodeConfig → EngineState W → EngineState W
  seed_metrics now [] e = e
  seed_metrics now (n ∷ ns) e = seed_metrics now ns (update_metrics n.name initial_metrics now e)

  -- One node in a round of `_poll_node_metrics`; nothing is a fetch that failed. The keys that no
  -- engine reads are left out.
  unfoldable pub poll_node : String → Option (Health W) → W → EngineState W → EngineState W
  poll_node name none now e = e
  poll_node name (some m) now e =
      update_metrics name
        (record {
          cpu_pct = some (get_or_else m.cpu_pct (of_nat 5));
          queue_depth = some (get_or_else m.queue_depth_total 0);
          queue_max = some 450;
          latency_ema_ms = some (get_or_else m.latency_ema_ms (of_nat 0));
          latency_max_ms = some (of_nat 5000);
          updated_at = none;
        })
        now e

module _ {W : Type 0} where
  -- The metrics of an engine of any kind
  abbrev pub metrics_of : EngineState W → Dict String (Metrics W)
  metrics_of (round_robin e) = e.node_metrics
  metrics_of (least_conn e) = e.node_metrics
  metrics_of (static_hash e) = e.node_metrics
  metrics_of (predictive e) = e.node_metrics

  -- `weights` of `get_allocation_status`; the baselines have none of these attributes, so that
  -- reading the first is an AttributeError.
  unfoldable pub weights_of : EngineState W → Option (Weights W)
  weights_of (round_robin e) = none
  weights_of (least_conn e) = none
  weights_of (static_hash e) = none
  weights_of (predictive e) = some (record {
    alpha_cpu = e.alpha;
    beta_queue = e.beta;
    gamma_latency = e.gamma;
    delta_forecast = e.delta;
    overflow_threshold = e.overflow_threshold;
  })

  -- `type(allocation_engine).__name__`
  abbrev pub type_name : EngineState W → String
  type_name (round_robin e) = "RoundRobinBalancer"
  type_name (least_conn e) = "LeastConnectionsBalancer"
  type_name (static_hash e) = "StaticHashBalancer"
  type_name (predictive e) = "AllocationEngine"

  unfoldable pub get_routing_mode : String → EngineState W → RoutingMode
  get_routing_mode mode e = record {
    routing_mode = mode;
    ml_classifier_enabled = use_classifier mode;
    ml_forecaster_enabled = use_forecaster mode;
    daa_enabled = use_daa mode;
    feedback_enabled = use_daa mode;
    engine_type = type_name e;
    supported_modes =
        "predictive" ∷ "round_robin" ∷ "least_conn" ∷ "static_hash" ∷ "ablation_classifier_only"
        ∷ "ablation_forecaster_only" ∷ [];
  }
