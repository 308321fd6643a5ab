-- ===== src/Storage/Runs.antt =====
-- Runs of the PostgreSQL writer in which no insertion is cancelled, with the tables it fills.
use predictive_consistent_ha.Prelude.{
  Bool, true, List, [], ◌∷◌, ◌+◌, ◌++◌, ◌≡◌, length, map, if◌then◌else◌,
}
use predictive_consistent_ha.Prelude.Float.{Float}
use predictive_consistent_ha.Storage.{Reply, inserted, failed, Times}
use predictive_consistent_ha.Storage.Postgres.{
  RequestRecord, PredictionRecord, Writer, RequestRow, PredictionRow, request_row, prediction_row,
  buffer_request, buffer_prediction, flush, start, stop,
}

abbrev pub answer : Bool → Reply
answer ok = if ok then inserted else failed

-- The writer, the rows of the tables, and all records that were given to it, the oldest first.
pub record World (W : Type 0) : Type 0 where
  pub writer : Writer W
  pub requests : List (RequestRow W)
  pub predictions : List (PredictionRow W)
  pub sent_requests : List (RequestRecord W)
  pub sent_predictions : List (PredictionRecord W)

module _ {W : Type 0} ⦃f : Float W⦄ where
  -- The operations on the world: what they store is added to the tables.
  abbrev pub send_request : Bool → Times W → RequestRecord W → World W → World W
  send_request ok t r u =
      let (w, rows) = buffer_request (answer ok) t r u.writer in
      record u {
        writer = w;
        requests = u.requests ++ rows;
        sent_requests = u.sent_requests ++ r ∷ [];
      }

  abbrev pub send_prediction : Bool → Times W → PredictionRecord W → World W → World W
  send_prediction ok t p u =
      let (w, rows) = buffer_prediction (answer ok) t p u.writer in
      record u {
        writer = w;
        predictions = u.predictions ++ rows;
        sent_predictions = u.sent_predictions ++ p ∷ [];
      }

  abbrev pub flush_all : Bool → Bool → Times W → Times W → World W → World W
  flush_all ok1 ok2 t1 t2 u =
      let (w, requests, predictions) = flush (answer ok1) (answer ok2) t1 t2 u.writer in
      record u {
        writer = w;
        requests = u.requests ++ requests;
        predictions = u.predictions ++ predictions;
      }

  abbrev pub stop_all : Bool → Bool → Times W → Times W → World W → World W
  stop_all ok1 ok2 t1 t2 u =
      let (w, requests, predictions) = stop (answer ok1) (answer ok2) t1 t2 u.writer in
      record u {
        writer = w;
        requests = u.requests ++ requests;
        predictions = u.predictions ++ predictions;
      }

  pub data Step (u : World W) : World W → Type 0 where
    request : (ok : Bool) (t : Times W) (r : RequestRecord W) → Step u (send_request ok t r u)
    prediction :
        (ok : Bool) (t : Times W) (p : PredictionRecord W) → Step u (send_prediction ok t p u)
    tick : (ok1 ok2 : Bool) (t1 t2 : Times W) → Step u (flush_all ok1 ok2 t1 t2 u)
    begin : Step u (record u { writer = start u.writer })
    halt : (ok1 ok2 : Bool) (t1 t2 : Times W) → Step u (stop_all ok1 ok2 t1 t2 u)

  pub data Reach (u : World W) : World W → Type 0 where
    here : Reach u u
    next : {v w : World W} → Reach u v → Step v w → Reach u w

-- With a pool, the tables and the buffers hold every record that was sent, once and in order, and
-- the counters are those of the tables and the records.
pub record IsLossless {W : Type 0} (u : World W) : Type 0 where
  pub pool : u.writer.has_pool ≡ true
  pub requests_kept :
      u.requests ++ map request_row u.writer.request_buffer ≡ map request_row u.sent_requests
  pub predictions_kept :
      u.predictions ++ map prediction_row u.writer.prediction_buffer
      ≡ map prediction_row u.sent_predictions
  pub rows_counted : u.writer.total_rows_written ≡ length u.requests + length u.predictions
  pub requests_counted : u.writer.total_requests_buffered ≡ length u.sent_requests
  pub predictions_counted : u.writer.total_predictions_buffered ≡ length u.sent_predictions
