-- ===== src/Tests/StorageRuns.antt =====
-- The theorems on the batch writers at small runs.
use predictive_consistent_ha.Prelude.{
  ℕ, String, true, false, none, List, [], ◌∷◌, ◌+◌, ◌≡◌, refl, length, map,
}
use predictive_consistent_ha.Prelude.Float.{milli}
use predictive_consistent_ha.Storage.{Times}
use predictive_consistent_ha.Storage.Postgres.{
  RequestRecord, PredictionRecord, request_row, prediction_row,
}
use predictive_consistent_ha.Storage.Runs.{
  World, Reach, here, next, request, prediction, tick, send_request, send_prediction, flush_all,
  stop_all,
}
use predictive_consistent_ha.Storage.Lossless.{new_world}
use predictive_consistent_ha.Storage.Stop.{stop_complete}
use predictive_consistent_ha.Storage.Influx.{MetricPoint, Client, init, connect, connected}

abbrev pub times : Times ℕ
times = record { start = 1000; end = 3000; now = 5000 }

abbrev sent : String → RequestRecord ℕ
sent id = record {
  request_id = id;
  endpoint_path = "/api/status";
  method = "GET";
  payload_bytes = 0;
  source_id = "";
  endpoint_id = 0;
  burst_frequency = 0;
  avg_latency_ema = 0;
  queue_depth_at_arrival = 0;
  hour_of_day = 0;
  is_burst = false;
  experiment_id = "";
}

abbrev predicted : String → PredictionRecord ℕ
predicted id = record {
  request_id_str = id;
  predicted_class = "Light";
  confidence = 900;
  inference_ms = 0;
  node_assigned = "node_s1";
  routing_hops = 1;
  assigned_by = "allocation_engine";
  allocation_score = 0;
  execution_ms = 0;
  queue_wait_ms = 0;
  total_latency_ms = 0;
  success = true;
  error_message = "";
  ground_truth_class = "";
  experiment_id = "";
}

-- Batches of two: the second request is refused with the first, and a later tick fails for both
-- tables.
abbrev world_0 : World ℕ
world_0 = new_world 2 1000 0

abbrev world_1 : World ℕ
world_1 = send_request true times (sent "1") world_0

abbrev world_2 : World ℕ
world_2 = send_request false times (sent "2") world_1

abbrev world_3 : World ℕ
world_3 = send_prediction true times (predicted "1") world_2

abbrev world_4 : World ℕ
world_4 = flush_all false false times times world_3

run : Reach world_0 world_4
run =
    next
      (next (next (next here (request true times (sent "1"))) (request false times (sent "2")))
        (prediction true times (predicted "1")))
      (tick false false times times)

stop_complete_example :
    ((stop_all true true times times world_4).requests ≡ map request_row world_4.sent_requests)
    × ((stop_all true true times times world_4).predictions
        ≡ map prediction_row world_4.sent_predictions)
    × ((stop_all true true times times world_4).writer.total_rows_written
        ≡ length world_4.sent_requests + length world_4.sent_predictions)
stop_complete_example = stop_complete 2 1000 0 world_4 times times run

abbrev client : Client ℕ
client = connect connected (init "http://influxdb:8086" "token" "paf" "metrics" "forecast" 10)

abbrev point : MetricPoint ℕ
point = record {
  measurement = "node_metrics";
  tags = ("node", "node_s1") ∷ [];
  fields = ("cpu_pct", 45200) ∷ [];
  timestamp = none;
}

abbrev tables : List (List ℕ)
tables = (1 ∷ 2 ∷ []) ∷ (3 ∷ 4 ∷ 5 ∷ []) ∷ []

client-has_write_api : client.has_write_api ≡ true
unfolding connect
client-has_write_api = refl
