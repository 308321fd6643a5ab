-- ===== src/Tests/CoordinatorRuns.antt =====
-- The theorems on the coordinator at a ring of three nodes, a refused call and an answered one.
use predictive_consistent_ha.Prelude.{
  ℕ, String, true, Option, none, some, List, [], ◌∷◌, ◌≡◌, ◌↔◌, ◌||◌, ◌==◌, string_eq, refl,
  is_some, All, get_or_else,
}
use predictive_consistent_ha.Prelude.Float.{milli, milli-IsOrdered, ◌≼◌}
use predictive_consistent_ha.Ring
use predictive_consistent_ha.Ring.{Ring, add_node}
use predictive_consistent_ha.Ring.Validity.{IsValid}
use predictive_consistent_ha.Chord
use predictive_consistent_ha.Chord.{build_finger_tables}
use predictive_consistent_ha.Allocation
use predictive_consistent_ha.Intake.{Response, rejected}
use predictive_consistent_ha.Storage.{inserted}
use predictive_consistent_ha.Storage.Postgres
use predictive_consistent_ha.Storage.Lossless
use predictive_consistent_ha.Features
use predictive_consistent_ha.Features.{default_norms}
use predictive_consistent_ha.Classifier
use predictive_consistent_ha.Classifier.{Classifier}
use predictive_consistent_ha.Classifier.Drift.{record_outcome, tracking, get_drift_info}
use predictive_consistent_ha.Coordinator.{
  Body, report, Outside, Coordinator, verify_api_key, http_error,
}
use predictive_consistent_ha.Coordinator.Requests.{submit_request, refuse}
use predictive_consistent_ha.Coordinator.Submit.{
  World, Reach, here, next, refused, answered, answered_world, IsLogged, Reach-IsLogged,
}
use predictive_consistent_ha.Coordinator.Outcomes.{reported, reported-blind}
use predictive_consistent_ha.Coordinator.Startup.{
  NodeConfig, ChannelPool, Health, add_nodes, open_channels, initialize, get_channel, weights_of,
  create_engine, seed_metrics,
}
use predictive_consistent_ha.Coordinator.Ready.{polled, weights_of-none, startup_ready}
use predictive_consistent_ha.Tests.{small_hash, hashing, ring_0, ring_abc}
use predictive_consistent_ha.Tests.ClassifierRuns.{model, numpy, settings}
use predictive_consistent_ha.Tests.FeatureRuns.{same, at}
use predictive_consistent_ha.Tests.StorageRuns.{times}

abbrev outside : Outside ℕ
outside = record {
  hashing = hashing;
  upper = same;
  model = model;
  readings = at 400000;
  inference_ms = 1000;
  now = 400000;
  latency_ms = 2000;
  request_reply = inserted;
  request_times = times;
  prediction_reply = inserted;
  prediction_times = times;
}

abbrev started : Coordinator ℕ
started = record {
  api_key = "key";
  norms = default_norms;
  hash_ring = ring_abc;
  allocation_engine = Allocation.init none;
  chord = build_finger_tables ("a" ∷ "b" ∷ "c" ∷ []) (Chord.init 4 850);
  has_router = true;
  counter = 0;
  parts = record {
    pipeline = Features.init;
    classifier = some (Classifier.init settings);
    forecaster = none;
  };
  postgres_writer = some (Postgres.init true 2 1000 0);
  node_http_addresses = ("a", "http://a:9100") ∷ [];
  requests_classified = [];
  classifier_confidence = 0;
  chord_overflow = 0;
}

abbrev body : Body
body = record {
  endpoint = some "/api/batch";
  method = some "POST";
  payload_bytes = some 20000;
  source_id = none;
}

abbrev world_0 : World ℕ
world_0 = record { coordinator = started; storage = Lossless.new_world 2 1000 0; taken = [] }

abbrev world_1 : World ℕ
world_1 = answered_world outside (some "key") body world_0

right_key : verify_api_key "key" (some "key") ≡ true
unfolding verify_api_key
right_key = refl

abbrev world_2 : World ℕ
world_2 = record world_1 {
  coordinator = (submit_request outside none none world_1.coordinator).coordinator;
}

no_key :
    (submit_request outside none none world_1.coordinator).reaction
    ≡ http_error 401 "Invalid or missing API key"
unfolding submit_request verify_api_key refuse
no_key = refl

run_1 : Reach world_0 world_1
run_1 = next here (answered outside (some "key") body true true right_key refl refl refl)

run_2 : Reach world_0 world_2
run_2 = next run_1 (refused outside none none 401 "Invalid or missing API key" no_key)

Reach-IsLogged_example : IsLogged world_2
Reach-IsLogged_example = Reach-IsLogged milli-IsOrdered started 2 1000 0 world_2 refl refl run_2

-- Two reports after which the classifier still counts as right.
abbrev classifier : Classifier ℕ
classifier = Classifier.init settings

no_drift : classifier.drift ≡ none
unfolding Classifier.init
no_drift = refl

abbrev reports : List (Response ℕ)
reports = rejected "req_00000001" ∷ rejected "req_00000002" ∷ []

abbrev told : Classifier ℕ
told =
    record_outcome "Medium" "Medium" (some [])
      (record_outcome "Medium" "Medium" (some []) classifier)

all_told : reported reports (some classifier) ≡ some told
unfolding reported report
all_told = refl

reported-blind_example :
    (milli.ratio 90 100 ≼ (tracking told).rolling_accuracy)
    × ((get_drift_info numpy told).1.retrain_recommended
        ≡ (get_drift_info numpy told).1.drift_detected)
reported-blind_example =
    reported-blind milli-IsOrdered numpy reports classifier told no_drift all_told

abbrev configured : List NodeConfig
configured =
    record {
      name = "a";
      capacity_score = none;
      grpc_address = some "a:50051";
      cpu_cores = none;
      memory_gb = none;
    }
    ∷ []

abbrev polls : List (String × Option (Health ℕ) × ℕ)
polls =
    ("a", none, 2000)
    ∷ (
      "a",
      some (record { cpu_pct = some 40000; queue_depth_total = some 3; latency_ema_ms = none }),
      4000,
    )
    ∷ []

abbrev mode : String
mode = "least_conn"

weights_of-none_example :
    (weights_of
        (polled polls (seed_metrics 0 configured (create_engine mode ("a" ∷ []) ring_0 none)))
      ≡ none)
    ↔ ((mode == "round_robin" || mode == "least_conn" || mode == "static_hash") ≡ true)
weights_of-none_example = weights_of-none mode ("a" ∷ []) ring_0 none 0 configured polls

abbrev pool : ChannelPool String
pool = record { channels = []; node_configs = [] }

abbrev open_pool : ChannelPool String
open_pool = record { channels = ("a", "a:50051") ∷ []; node_configs = configured }

abbrev ring_1 : Ring ℕ
ring_1 = (get_or_else (add_node hashing "a" 100 1 (Ring.init 2 1 1)) (Ring.init 2 1 1, 0)).0

added : add_nodes hashing 1 configured (Ring.init 2 1 1) ≡ some ring_1
unfolding add_nodes add_node Ring.recalculate_avg_capacity Ring.init Ring.settle Ring.murmurhash3
    small_hash Ring.vnode_key
added = refl

opened : initialize same configured pool ≡ some open_pool
unfolding initialize open_channels
opened = refl

startup_ready_example :
    IsValid ring_1 × All (λ n. is_some (get_channel n.name open_pool) ≡ true) configured
startup_ready_example =
    startup_ready same hashing 2 1 1 configured ring_1 pool open_pool added opened
