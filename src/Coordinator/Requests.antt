-- ===== src/Coordinator/Requests.antt =====
-- coordinator/main.py: `submit_request`.
use predictive_consistent_ha.Prelude.{
  ℕ, String, Bool, true, false, Option, none, some, List, [], ◌+◌, get_or_else, if◌then◌else◌,
  string_eq,
}
use predictive_consistent_ha.Prelude.Dict.{lookup, insert}
use predictive_consistent_ha.Prelude.Float.{Float}
use predictive_consistent_ha.Intake.{Response, route_request}
use predictive_consistent_ha.Storage.Postgres.{RequestRow, PredictionRow}
use predictive_consistent_ha.Forecast.{Forecaster}
use predictive_consistent_ha.Coordinator.{
  Parts, Body, Forwarded, Outside, Coordinator, Reaction, http_error, ok, verify_api_key,
  is_overflow, wired, class_in, confidence_in, method_in, log_request, report, forward,
}

-- What a call of `submit_request` leaves: the state, the answer, what is posted to a node, and the
-- rows that the database stored.
pub record Submission (W : Type 0) : Type 0 where
  pub coordinator : Coordinator W
  pub reaction : Reaction W
  pub forwarded : Option Forwarded
  pub request_rows : List (RequestRow W)
  pub prediction_rows : List (PredictionRow W)

module _ {W : Type 0} ⦃f : Float W⦄ where
  abbrev pub has_forecaster : Parts W → Bool
  has_forecaster s = given s.forecaster
    where
      given : Option (Forecaster W) → Bool
      given none = false
      given (some c) = true

  -- The call of the router.
  unfoldable pub route_body : Outside W → Body → Coordinator W → Response W × ℕ × Parts W
  route_body o body c =
      route_request (wired o c.norms (has_forecaster c.parts)) o.hashing c.hash_ring
        c.allocation_engine c.chord o.now o.latency_ms
        (record {
          endpoint = body.endpoint;
          method = body.method;
          payload_bytes = body.payload_bytes;
        })
        (c.counter, c.parts)

  -- `submit_request` with the result of the router
  unfoldable pub settle_request :
      Outside W → Body → Response W × ℕ × Parts W → Coordinator W → Submission W
  settle_request o body (result, counter, parts) c =
      let cls = class_in result in
      let (writer, requests, predictions) = log_request o body result c.postgres_writer in
      record {
        coordinator = record c {
          counter = counter;
          parts = record parts { classifier = report result parts.classifier };
          postgres_writer = writer;
          requests_classified =
              insert cls (get_or_else (lookup cls c.requests_classified) 0 + 1)
                c.requests_classified;
          classifier_confidence = confidence_in result;
          chord_overflow =
              if is_overflow (method_in result) then c.chord_overflow + 1 else c.chord_overflow;
        };
        reaction = ok result;
        forwarded = forward c.node_http_addresses body result;
        request_rows = requests;
        prediction_rows = predictions;
      }

  -- A call that is refused leaves the state alone.
  unfoldable pub refuse : ℕ → String → Coordinator W → Submission W
  refuse status detail c = record {
    coordinator = c;
    reaction = http_error status detail;
    forwarded = none;
    request_rows = [];
    prediction_rows = [];
  }

  -- A body that cannot be read is `none`.
  unfoldable pub submit_body : Outside W → Option Body → Coordinator W → Submission W
  submit_body o none c = refuse 400 "Invalid JSON body" c
  submit_body o (some body) c =
      if c.has_router
      then settle_request o body (route_body o body c) c
      else refuse 503 "Pipeline not initialized" c

  unfoldable pub submit_request :
      Outside W → Option String → Option Body → Coordinator W → Submission W
  submit_request o key body c =
      if verify_api_key c.api_key key
      then submit_body o body c
      else refuse 401 "Invalid or missing API key" c
