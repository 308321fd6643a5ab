-- ===== src/Storage/Postgres.antt =====
-- coordinator/db/postgres_writer.py: `PostgresBatchWriter`. An operation answers the writer and the
-- rows that its queries stored; `executemany` stores all the rows of a batch or none.
use predictive_consistent_ha.Prelude.{
  ℕ, String, Bool, true, false, List, [], ◌∷◌, ◌+◌, ◌++◌, length, leb, if◌then◌else◌, map,
}
use predictive_consistent_ha.Prelude.Float.{Float, of_nat}
use predictive_consistent_ha.Storage.{Reply, inserted, failed, cancelled, Times}

pub record RequestRecord (W : Type 0) : Type 0 where
  pub request_id : String
  pub endpoint_path : String
  pub method : String
  pub payload_bytes : ℕ
  pub source_id : String
  pub endpoint_id : ℕ
  pub burst_frequency : W
  pub avg_latency_ema : W
  pub queue_depth_at_arrival : ℕ
  pub hour_of_day : ℕ
  pub is_burst : Bool
  pub experiment_id : String

pub record PredictionRecord (W : Type 0) : Type 0 where
  pub request_id_str : String
  pub predicted_class : String
  pub confidence : W
  pub inference_ms : W
  pub node_assigned : String
  pub routing_hops : ℕ
  pub assigned_by : String
  pub allocation_score : W
  pub execution_ms : W
  pub queue_wait_ms : W
  pub total_latency_ms : W
  pub success : Bool
  pub error_message : String
  pub ground_truth_class : String
  pub experiment_id : String

pub record Writer (W : Type 0) : Type 0 where
  -- whether `db_pool` is given; without it the writer is in simulation mode
  pub has_pool : Bool
  pub batch_size : ℕ
  pub batch_interval_sec : W
  pub request_buffer : List (RequestRecord W)
  pub prediction_buffer : List (PredictionRecord W)
  pub total_requests_buffered : ℕ
  pub total_predictions_buffered : ℕ
  pub total_flushes : ℕ
  pub total_rows_written : ℕ
  pub last_flush_time : W
  pub last_flush_duration_ms : W
  pub flush_errors : ℕ
  pub running : Bool

pub record Stats (W : Type 0) : Type 0 where
  pub total_requests_buffered : ℕ
  pub total_predictions_buffered : ℕ
  pub total_flushes : ℕ
  pub total_rows_written : ℕ
  pub current_request_buffer_size : ℕ
  pub current_prediction_buffer_size : ℕ
  pub last_flush_duration_ms : W
  pub flush_errors : ℕ
  pub batch_size : ℕ
  pub batch_interval_sec : W

module _ (W : Type 0) where
  -- The arguments $1 to $12 of the query on `requests`.
  abbrev pub RequestRow : Type 0
  RequestRow = String × String × String × ℕ × String × ℕ × W × W × ℕ × ℕ × Bool × String

  -- The arguments $1 to $15 of the query on `predictions`.
  abbrev pub PredictionRow : Type 0
  PredictionRow =
      String × String × W × W × String × ℕ × String × W × W × W × W × Bool × String × String
      × String

-- Without a pool no query is made, and the batch counts as written.
unfoldable pub reply_of : Bool → Reply → Reply
reply_of has_pool reply = if has_pool then reply else inserted

module _ {W : Type 0} where
  unfoldable pub request_row : RequestRecord W → RequestRow W
  request_row r = (
    r.request_id, r.endpoint_path, r.method, r.payload_bytes, r.source_id, r.endpoint_id,
    r.burst_frequency, r.avg_latency_ema, r.queue_depth_at_arrival, r.hour_of_day, r.is_burst,
    r.experiment_id,
  )

  unfoldable pub prediction_row : PredictionRecord W → PredictionRow W
  prediction_row p = (
    p.request_id_str, p.predicted_class, p.confidence, p.inference_ms, p.node_assigned,
    p.routing_hops, p.assigned_by, p.allocation_score, p.execution_ms, p.queue_wait_ms,
    p.total_latency_ms, p.success, p.error_message, p.ground_truth_class, p.experiment_id,
  )

  -- What the insertion of a batch stores.
  unfoldable pub insert_requests : Reply → List (RequestRecord W) → List (RequestRow W)
  insert_requests inserted batch = map request_row batch
  insert_requests failed _ = []
  insert_requests cancelled _ = []

  unfoldable pub insert_predictions : Reply → List (PredictionRecord W) → List (PredictionRow W)
  insert_predictions inserted batch = map prediction_row batch
  insert_predictions failed _ = []
  insert_predictions cancelled _ = []

  -- `__init__`
  unfoldable pub init : ⦃f : Float W⦄ → Bool → ℕ → W → W → Writer W
  init has_pool batch_size batch_interval_sec now = record {
    has_pool = has_pool;
    batch_size = batch_size;
    batch_interval_sec = batch_interval_sec;
    request_buffer = [];
    prediction_buffer = [];
    total_requests_buffered = 0;
    total_predictions_buffered = 0;
    total_flushes = 0;
    total_rows_written = 0;
    last_flush_time = now;
    last_flush_duration_ms = of_nat 0;
    flush_errors = 0;
    running = false;
  }

module _ {W : Type 0} ⦃f : Float W⦄ where
  -- The counters after a batch of this length is written.
  unfoldable pub note_written : Times W → ℕ → Writer W → Writer W
  note_written t n w = record w {
    total_rows_written = w.total_rows_written + n;
    total_flushes = w.total_flushes + 1;
    last_flush_time = t.now;
    last_flush_duration_ms = f.mul (f.sub t.end t.start) (of_nat 1000);
  }

  -- The `try` of `_flush_requests`; the batch has left the buffer.
  unfoldable pub settle_requests : Reply → Times W → List (RequestRecord W) → Writer W → Writer W
  settle_requests inserted t batch w = note_written t (length batch) w
  settle_requests failed t batch w = record w {
    flush_errors = w.flush_errors + 1;
    request_buffer = w.request_buffer ++ batch;
  }
  settle_requests cancelled t batch w = w

  unfoldable pub settle_predictions :
      Reply → Times W → List (PredictionRecord W) → Writer W → Writer W
  settle_predictions inserted t batch w = note_written t (length batch) w
  settle_predictions failed t batch w = record w {
    flush_errors = w.flush_errors + 1;
    prediction_buffer = w.prediction_buffer ++ batch;
  }
  settle_predictions cancelled t batch w = w

  -- `_flush_requests` on a buffer
  unfoldable pub flush_requests_of :
      Reply → Times W → List (RequestRecord W) → Writer W → Writer W × List (RequestRow W)
  flush_requests_of reply t [] w = (w, [])
  flush_requests_of reply t (r ∷ rs) w = (
    settle_requests (reply_of w.has_pool reply) t (r ∷ rs) (record w { request_buffer = [] }),
    if w.has_pool then insert_requests reply (r ∷ rs) else [],
  )

  unfoldable pub flush_predictions_of :
      Reply → Times W → List (PredictionRecord W) → Writer W → Writer W × List (PredictionRow W)
  flush_predictions_of reply t [] w = (w, [])
  flush_predictions_of reply t (p ∷ ps) w = (
    settle_predictions (reply_of w.has_pool reply) t (p ∷ ps) (record w { prediction_buffer = [] }),
    if w.has_pool then insert_predictions reply (p ∷ ps) else [],
  )

  unfoldable pub flush_requests : Reply → Times W → Writer W → Writer W × List (RequestRow W)
  flush_requests reply t w = flush_requests_of reply t w.request_buffer w

  unfoldable pub flush_predictions : Reply → Times W → Writer W → Writer W × List (PredictionRow W)
  flush_predictions reply t w = flush_predictions_of reply t w.prediction_buffer w

  unfoldable pub buffer_request :
      Reply → Times W → RequestRecord W → Writer W → Writer W × List (RequestRow W)
  buffer_request reply t r w =
      let w2 : Writer W = record w {
        request_buffer = w.request_buffer ++ r ∷ [];
        total_requests_buffered = w.total_requests_buffered + 1;
      } in
      if leb w2.batch_size (length w2.request_buffer) then flush_requests reply t w2 else (w2, [])

  unfoldable pub buffer_prediction :
      Reply → Times W → PredictionRecord W → Writer W → Writer W × List (PredictionRow W)
  buffer_prediction reply t p w =
      let w2 : Writer W = record w {
        prediction_buffer = w.prediction_buffer ++ p ∷ [];
        total_predictions_buffered = w.total_predictions_buffered + 1;
      } in
      if leb w2.batch_size (length w2.prediction_buffer)
      then flush_predictions reply t w2
      else (w2, [])

  -- `_flush`, where the first of the batches is not cancelled; each has its own reply.
  unfoldable pub flush :
      Reply
      → Reply
      → Times W
      → Times W
      → Writer W
      → Writer W × List (RequestRow W) × List (PredictionRow W)
  flush reply1 reply2 t1 t2 w =
      let (w2, requests) = flush_requests reply1 t1 w in
      let (w3, predictions) = flush_predictions reply2 t2 w2 in (w3, requests, predictions)

  -- `stop` once the flush task has ended
  unfoldable pub stop :
      Reply
      → Reply
      → Times W
      → Times W
      → Writer W
      → Writer W × List (RequestRow W) × List (PredictionRow W)
  stop reply1 reply2 t1 t2 w = flush reply1 reply2 t1 t2 (record w { running = false })

  get_stats : Writer W → Stats W
  get_stats w = record {
    total_requests_buffered = w.total_requests_buffered;
    total_predictions_buffered = w.total_predictions_buffered;
    total_flushes = w.total_flushes;
    total_rows_written = w.total_rows_written;
    current_request_buffer_size = length w.request_buffer;
    current_prediction_buffer_size = length w.prediction_buffer;
    last_flush_duration_ms = f.rounded 2 w.last_flush_duration_ms;
    flush_errors = w.flush_errors;
    batch_size = w.batch_size;
    batch_interval_sec = w.batch_interval_sec;
  }

module _ {W : Type 0} where
  unfoldable pub start : Writer W → Writer W
  start w = record w { running = true }
