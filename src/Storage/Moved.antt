-- ===== src/Storage/Moved.antt =====
-- What a flush of the PostgreSQL writer moves from its buffers to the tables.
use predictive_consistent_ha.Prelude.{
  map-append, length-map, Bool, true, false, List, [], ◌∷◌, ◌+◌, ◌++◌, ◌≡◌, refl, sym, ap, ◌∙◌,
  arith, length, map, append-nil, append_assoc, length-append,
}
use predictive_consistent_ha.Prelude.Float.{Float}
use predictive_consistent_ha.Storage.{Times}
use predictive_consistent_ha.Storage.Postgres.{
  RequestRecord, PredictionRecord, Writer, RequestRow, PredictionRow, request_row, prediction_row,
  insert_requests, insert_predictions, reply_of, note_written, settle_requests, settle_predictions,
  flush_requests_of, flush_predictions_of, flush_requests, flush_predictions,
}
use predictive_consistent_ha.Storage.Runs.{answer, World, IsLossless}

module _ {A B : Type 0} (g : A → B) where
  -- A last record that joins the buffer.
  pub kept-append :
      (rows : List B) (buffer sent : List A) (x : A)
      → rows ++ map g buffer ≡ map g sent
      → rows ++ map g (buffer ++ x ∷ []) ≡ map g (sent ++ x ∷ [])
  kept-append rows buffer sent x h =
      ap (λ zs. rows ++ zs) (map-append g buffer (x ∷ []))
      ∙ sym (append_assoc rows (map g buffer) (g x ∷ []))
      ∙ ap (λ zs. zs ++ g x ∷ []) h
      ∙ sym (map-append g sent (x ∷ []))

  -- With nothing left in the buffer all is stored.
  pub kept_all :
      (rows : List B) (buffer sent : List A)
      → rows ++ map g buffer ≡ map g sent
      → buffer ≡ []
      → rows ≡ map g sent
  kept_all rows buffer sent h e = sym (append-nil rows) ∙ ap (λ b. rows ++ map g b) (sym e) ∙ h

module _ {W : Type 0} where
  -- A writer that has moved records out of its buffers, into these rows of the tables.
  pub record Moved (w after : Writer W) (requests : List (RequestRow W))
      (predictions : List (PredictionRow W)) : Type 0 where
    pub pool : after.has_pool ≡ w.has_pool
    pub requests_kept :
        requests ++ map request_row after.request_buffer ≡ map request_row w.request_buffer
    pub predictions_kept :
        predictions ++ map prediction_row after.prediction_buffer
        ≡ map prediction_row w.prediction_buffer
    pub rows_counted :
        after.total_rows_written ≡ w.total_rows_written + (length requests + length predictions)
    pub requests_counted : after.total_requests_buffered ≡ w.total_requests_buffered
    pub predictions_counted : after.total_predictions_buffered ≡ w.total_predictions_buffered

  pub Moved-refl : (w : Writer W) → Moved w w [] []
  Moved-refl w = record {
    pool = refl;
    requests_kept = refl;
    predictions_kept = refl;
    rows_counted = omega arith;
    requests_counted = refl;
    predictions_counted = refl;
  }

module _ {W : Type 0} ⦃f : Float W⦄ (t : Times W) where
  flush_requests_of-Moved :
      (ok : Bool) (batch : List (RequestRecord W)) (w : Writer W)
      → w.has_pool ≡ true
      → w.request_buffer ≡ batch
      → Moved w
          (flush_requests_of (answer ok) t batch w).0
          (flush_requests_of (answer ok) t batch w).1
          []
  unfolding flush_requests_of settle_requests note_written insert_requests reply_of
  flush_requests_of-Moved ok [] w h e = Moved-refl w
  flush_requests_of-Moved true (r ∷ rs) w h e = rw h (record {
    pool = refl;
    requests_kept = append-nil _ ∙ ap (map request_row) (sym e);
    predictions_kept = refl;
    rows_counted = omega (arith, length-map request_row rs);
    requests_counted = refl;
    predictions_counted = refl;
  })
  flush_requests_of-Moved false (r ∷ rs) w h e = rw h (record {
    pool = refl;
    requests_kept = ap (map request_row) (sym e);
    predictions_kept = refl;
    rows_counted = omega arith;
    requests_counted = refl;
    predictions_counted = refl;
  })

  flush_predictions_of-Moved :
      (ok : Bool) (batch : List (PredictionRecord W)) (w : Writer W)
      → w.has_pool ≡ true
      → w.prediction_buffer ≡ batch
      → Moved w
          (flush_predictions_of (answer ok) t batch w).0
          []
          (flush_predictions_of (answer ok) t batch w).1
  unfolding flush_predictions_of settle_predictions note_written insert_predictions reply_of
  flush_predictions_of-Moved ok [] w h e = Moved-refl w
  flush_predictions_of-Moved true (r ∷ rs) w h e = rw h (record {
    pool = refl;
    requests_kept = refl;
    predictions_kept = append-nil _ ∙ ap (map prediction_row) (sym e);
    rows_counted = omega (arith, length-map prediction_row rs);
    requests_counted = refl;
    predictions_counted = refl;
  })
  flush_predictions_of-Moved false (r ∷ rs) w h e = rw h (record {
    pool = refl;
    requests_kept = refl;
    predictions_kept = ap (map prediction_row) (sym e);
    rows_counted = omega arith;
    requests_counted = refl;
    predictions_counted = refl;
  })

  pub flush_requests-Moved :
      (ok : Bool) (w : Writer W)
      → w.has_pool ≡ true
      → Moved w (flush_requests (answer ok) t w).0 (flush_requests (answer ok) t w).1 []
  unfolding flush_requests
  flush_requests-Moved ok w h = flush_requests_of-Moved ok w.request_buffer w h refl

  pub flush_predictions-Moved :
      (ok : Bool) (w : Writer W)
      → w.has_pool ≡ true
      → Moved w (flush_predictions (answer ok) t w).0 [] (flush_predictions (answer ok) t w).1
  unfolding flush_predictions
  flush_predictions-Moved ok w h = flush_predictions_of-Moved ok w.prediction_buffer w h refl

module _ {W : Type 0} where
  pub Moved-trans :
      {w w1 w2 : Writer W} {requests : List (RequestRow W)} {predictions : List (PredictionRow W)}
      → Moved w w1 requests []
      → Moved w1 w2 [] predictions
      → Moved w w2 requests predictions
  Moved-trans {requests} m n = record {
    pool = n.pool ∙ m.pool;
    requests_kept = ap (λ rows. requests ++ rows) n.requests_kept ∙ m.requests_kept;
    predictions_kept = n.predictions_kept ∙ m.predictions_kept;
    rows_counted = omega (arith, m.rows_counted, n.rows_counted);
    requests_counted = n.requests_counted ∙ m.requests_counted;
    predictions_counted = n.predictions_counted ∙ m.predictions_counted;
  }

  -- Rows that are appended to the tables keep the world lossless.
  pub Moved-IsLossless :
      (u : World W) {after : Writer W} {requests : List (RequestRow W)}
      {predictions : List (PredictionRow W)}
      → IsLossless u
      → Moved u.writer after requests predictions
      → IsLossless (record u {
        writer = after;
        requests = u.requests ++ requests;
        predictions = u.predictions ++ predictions;
      })
  Moved-IsLossless u {requests = requests} {predictions = predictions} l m = record {
    pool = m.pool ∙ l.pool;
    requests_kept =
        append_assoc u.requests requests _
        ∙ ap (λ rows. u.requests ++ rows) m.requests_kept
        ∙ l.requests_kept;
    predictions_kept =
        append_assoc u.predictions predictions _
        ∙ ap (λ rows. u.predictions ++ rows) m.predictions_kept
        ∙ l.predictions_kept;
    rows_counted = omega (
      arith,
      m.rows_counted,
      l.rows_counted,
      length-append u.requests requests,
      length-append u.predictions predictions,
    );
    requests_counted = m.requests_counted ∙ l.requests_counted;
    predictions_counted = m.predictions_counted ∙ l.predictions_counted;
  }
