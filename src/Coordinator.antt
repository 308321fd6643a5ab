-- ===== src/Coordinator.antt =====
-- coordinator/main.py: the coordinator's handlers over the pipeline, the writer and the classifier.
-- What comes from outside with a request (clocks, the answers of the database) is a record of its own.
pub mod Requests
pub mod Submit
pub mod Outcomes
pub mod Startup
pub mod Ready
use predictive_consistent_ha.Prelude.{
  ℕ, String, Bool, true, false, Option, none, some, List, [], ◌∷◌, ◌+◌, get_or_else, is_some,
  if◌then◌else◌, not, ◌&&◌, ◌==◌, string_eq,
}
use predictive_consistent_ha.Prelude.Dict.{Dict, lookup, insert}
use predictive_consistent_ha.Prelude.Float.{Float, of_nat}
use Prim.Native.String.{◌++◌ as concat}
use predictive_consistent_ha.Ring.{Hashing, Ring}
use predictive_consistent_ha.Allocation.{Engine}
use predictive_consistent_ha.Chord.{
  Router, Method, allocation_engine, chord_router, least_connections_fallback,
}
use predictive_consistent_ha.Intake.{
  Models, RawRequest, Routed, Response, rejected, routed, route_request, named,
}
use predictive_consistent_ha.Storage.{Reply, Times}
use predictive_consistent_ha.Storage.Postgres.{
  RequestRecord, PredictionRecord, Writer, RequestRow, PredictionRow, buffer_request,
  buffer_prediction,
}
use predictive_consistent_ha.Features.{Norms, Pipeline, Readings, extract_features}
use predictive_consistent_ha.Classifier.{Classifier, Model, classify, heuristic_label}
use predictive_consistent_ha.Classifier.Drift.{record_outcome}
use predictive_consistent_ha.Forecast.{Forecaster, record_heavy_request, get_predicted_load}

-- The components that the router calls: `feature_pipeline`, `ml_classifier` and `ml_forecaster`.
pub record Parts (W : Type 0) : Type 0 where
  pub pipeline : Pipeline W
  pub classifier : Option (Classifier W)
  pub forecaster : Option (Forecaster W)

-- The JSON body of a request, with `none` for an absent key.
pub record Body : Type 0 where
  pub endpoint : Option String
  pub method : Option String
  pub payload_bytes : Option ℕ
  pub source_id : Option String

-- What is posted to a node's `/route`.
pub record Forwarded : Type 0 where
  pub url : String
  pub request_id : String
  pub request_class : String
  pub endpoint : String
  pub method : String
  pub payload_bytes : ℕ

-- The functions from outside, and the readings of the clocks and the database's answers that the
-- handling of one request meets.
pub record Outside (W : Type 0) : Type 0 where
  pub hashing : Hashing
  pub upper : String → String
  pub model : Model W
  pub readings : Readings W
  pub inference_ms : W
  pub now : W
  pub latency_ms : W
  pub request_reply : Reply
  pub request_times : Times W
  pub prediction_reply : Reply
  pub prediction_times : Times W

-- The module's state that `submit_request` uses, with the Prometheus counters that it raises.
pub record Coordinator (W : Type 0) : Type 0 where
  pub api_key : String
  pub norms : Norms W
  pub hash_ring : Ring W
  pub allocation_engine : Engine W
  pub chord : Router W
  -- `request_router`: whether it is there, and its counter
  pub has_router : Bool
  pub counter : ℕ
  pub parts : Parts W
  pub postgres_writer : Option (Writer W)
  pub node_http_addresses : Dict String String
  pub requests_classified : Dict String ℕ
  pub classifier_confidence : W
  pub chord_overflow : ℕ

-- What a handler answers: a status other than 200, or a result.
pub data Reaction (W : Type 0) : Type 0 where
  http_error : ℕ → String → Reaction W
  ok : Response W → Reaction W

-- `verify_api_key`
unfoldable pub verify_api_key : String → Option String → Bool
verify_api_key expected none = false
verify_api_key expected (some key) = key == expected

unfoldable pub method_name : Method → String
method_name allocation_engine = "allocation_engine"
method_name chord_router = "chord_router"
method_name least_connections_fallback = "least_connections_fallback"

unfoldable pub is_overflow : Method → Bool
is_overflow allocation_engine = false
is_overflow chord_router = true
is_overflow least_connections_fallback = false

module _ {W : Type 0} ⦃f : Float W⦄ where
  abbrev pub has_model : Option (Classifier W) → Bool
  has_model none = false
  has_model (some c) = c.loaded

  -- The answer of an absent classifier is never used.
  abbrev pub classify_with :
      Outside W → List W → Option (Classifier W) → (String × W) × Option (Classifier W)
  classify_with o features none = (heuristic_label features, none)
  classify_with o features (some c) =
      let (c2, answer) = classify o.model o.inference_ms features c in (answer, some c2)

  abbrev pub load_of : Outside W → ℕ → Option (Forecaster W) → W
  load_of o total_nodes none = of_nat 0
  load_of o total_nodes (some c) = get_predicted_load o.now total_nodes c

  abbrev pub heavier : Option (Forecaster W) → Option (Forecaster W)
  heavier none = none
  heavier (some c) = some (record_heavy_request c)

  -- The router's components as the ones of the other modules.
  unfoldable pub wired : Outside W → Norms W → Bool → Models W (Parts W)
  wired o norms has_forecaster = record {
    extract_features = λ endpoint method payload_bytes queue_depth s.
        let (p, features) =
          extract_features o.upper norms o.readings
            (record {
              endpoint = endpoint;
              method = method;
              payload_bytes = of_nat payload_bytes;
              queue_depth = of_nat queue_depth;
              current_latency_ms = of_nat 0;
              client_id = "";
            })
            s.pipeline in
        (features, record s { pipeline = p });
    is_loaded = λ s. has_model s.classifier;
    classify = λ features s.
        let (answer, c) = classify_with o features s.classifier in
        (answer, record s { classifier = c });
    has_forecaster = has_forecaster;
    record_heavy_request = λ s. record s { forecaster = heavier s.forecaster };
    get_predicted_load = λ node total_nodes s. load_of o total_nodes s.forecaster;
  }

  -- What the result says, with the defaults of `result.get`.
  abbrev pub class_in : Response W → String
  class_in (rejected id) = "Medium"
  class_in (routed x) = x.predicted_class

  abbrev pub id_in : Response W → String
  id_in (rejected id) = id
  id_in (routed x) = x.request_id

  abbrev pub confidence_in : Response W → W
  confidence_in (rejected id) = of_nat 0
  confidence_in (routed x) = x.confidence

  abbrev pub node_in : Response W → Option String
  node_in (rejected id) = none
  node_in (routed x) = x.assigned_node

  abbrev pub features_in : Response W → List W
  features_in (rejected id) = []
  features_in (routed x) = x.feature_vector

  unfoldable pub request_record : Body → Response W → RequestRecord W
  request_record body result = record {
    request_id = id_in result;
    endpoint_path = get_or_else body.endpoint "/api/status";
    method = get_or_else body.method "GET";
    payload_bytes = get_or_else body.payload_bytes 0;
    source_id = get_or_else body.source_id "";
    endpoint_id = 0;
    burst_frequency = of_nat 0;
    avg_latency_ema = of_nat 0;
    queue_depth_at_arrival = 0;
    hour_of_day = 0;
    is_burst = false;
    experiment_id = "";
  }

  abbrev pub hops_in : Response W → ℕ
  hops_in (rejected id) = 1
  hops_in (routed x) = x.routing_hops

  abbrev pub method_in : Response W → Method
  method_in (rejected id) = allocation_engine
  method_in (routed x) = x.routing_method

  abbrev pub score_in : Response W → W
  score_in (rejected id) = of_nat 0
  score_in (routed x) = x.allocation_score

  -- A node that is `None` is stored as the empty text here.
  unfoldable pub prediction_record : Response W → PredictionRecord W
  prediction_record result = record {
    request_id_str = id_in result;
    predicted_class = class_in result;
    confidence = confidence_in result;
    inference_ms = of_nat 0;
    node_assigned = get_or_else (node_in result) "";
    routing_hops = hops_in result;
    assigned_by = method_name (method_in result);
    allocation_score = score_in result;
    execution_ms = of_nat 0;
    queue_wait_ms = of_nat 0;
    total_latency_ms = of_nat 0;
    success = true;
    error_message = "";
    ground_truth_class = "";
    experiment_id = "";
  }

  -- The two records of a request go to the writer, if there is one.
  unfoldable pub log_request :
      Outside W
      → Body
      → Response W
      → Option (Writer W)
      → Option (Writer W) × List (RequestRow W) × List (PredictionRow W)
  log_request o body result none = (none, [], [])
  log_request o body result (some w) =
      let (w2, requests) =
        buffer_request o.request_reply o.request_times (request_record body result) w in
      let (w3, predictions) =
        buffer_prediction o.prediction_reply o.prediction_times (prediction_record result) w2 in
      (some w3, requests, predictions)

  -- The drift tracking: the class that was predicted is also given as the actual one.
  unfoldable pub report : Response W → Option (Classifier W) → Option (Classifier W)
  report result none = none
  report result (some c) =
      some (record_outcome (class_in result) (class_in result) (some (features_in result)) c)

  -- The task of `_forward_request_to_node`: what it posts, if the node has an address.
  unfoldable pub forward : Dict String String → Body → Response W → Option Forwarded
  forward addresses body result =
      if named (node_in result)
      then posted (lookup (get_or_else (node_in result) "") addresses)
      else none
    where
      posted : Option String → Option Forwarded
      posted none = none
      posted (some base_url) =
          if base_url == ""
          then none
          else some (record {
            url = concat base_url "/route";
            request_id = id_in result;
            request_class = class_in result;
            endpoint = get_or_else body.endpoint "/api/status";
            method = get_or_else body.method "GET";
            payload_bytes = get_or_else body.payload_bytes 128;
          })
