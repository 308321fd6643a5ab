-- ===== src/Storage/Lossless.antt =====
-- No record is lost: the tables and buffers of the PostgreSQL writer over its runs.
use predictive_consistent_ha.Prelude.{
  ℕ, Bool, true, false, [], ◌∷◌, ◌+◌, ◌++◌, ◌≡◌, refl, ◌∙◌, subst, arith, length, leb, append-nil,
  length-append, Bool-cases, inl, inr,
}
use predictive_consistent_ha.Prelude.Float.{Float}
use predictive_consistent_ha.Storage.{Times}
use predictive_consistent_ha.Storage.Postgres.{
  RequestRecord, PredictionRecord, Writer, request_row, prediction_row, init, buffer_request,
  buffer_prediction, flush, start, stop,
}
use predictive_consistent_ha.Storage.Runs.{
  answer, World, IsLossless, Step, request, prediction, tick, begin, halt, Reach, here, next,
  send_request, send_prediction, stop_all,
}
use predictive_consistent_ha.Storage.Moved.{
  Moved, kept-append, flush_requests-Moved, flush_predictions-Moved, Moved-trans, Moved-IsLossless,
  Moved-refl,
}

module _ {W : Type 0} ⦃f : Float W⦄ where
  buffer_request-Moved :
      (ok : Bool) (t : Times W) (r : RequestRecord W) (w : Writer W)
      → w.has_pool ≡ true
      → Moved
          (record w {
            request_buffer = w.request_buffer ++ r ∷ [];
            total_requests_buffered = w.total_requests_buffered + 1;
          })
          (buffer_request (answer ok) t r w).0
          (buffer_request (answer ok) t r w).1
          []
  unfolding buffer_request
  buffer_request-Moved ok t r w h =
      elim (Bool-cases (leb w.batch_size (length (w.request_buffer ++ r ∷ [])))) [
        | inl e ↦ rw e (flush_requests-Moved t ok _ h)
        | inr e ↦ rw e (Moved-refl _)
      ]

  buffer_prediction-Moved :
      (ok : Bool) (t : Times W) (p : PredictionRecord W) (w : Writer W)
      → w.has_pool ≡ true
      → Moved
          (record w {
            prediction_buffer = w.prediction_buffer ++ p ∷ [];
            total_predictions_buffered = w.total_predictions_buffered + 1;
          })
          (buffer_prediction (answer ok) t p w).0
          []
          (buffer_prediction (answer ok) t p w).1
  unfolding buffer_prediction
  buffer_prediction-Moved ok t p w h =
      elim (Bool-cases (leb w.batch_size (length (w.prediction_buffer ++ p ∷ [])))) [
        | inl e ↦ rw e (flush_predictions-Moved t ok _ h)
        | inr e ↦ rw e (Moved-refl _)
      ]

  flush-Moved :
      (ok1 ok2 : Bool) (t1 t2 : Times W) (w : Writer W)
      → w.has_pool ≡ true
      → Moved w
          (flush (answer ok1) (answer ok2) t1 t2 w).0
          (flush (answer ok1) (answer ok2) t1 t2 w).1
          (flush (answer ok1) (answer ok2) t1 t2 w).2
  unfolding flush
  flush-Moved ok1 ok2 t1 t2 w h =
      let m = flush_requests-Moved t1 ok1 w h in
      Moved-trans m (flush_predictions-Moved t2 ok2 _ (m.pool ∙ h))

  pub send_request-IsLossless :
      (ok : Bool) (t : Times W) (r : RequestRecord W) (u : World W)
      → IsLossless u
      → IsLossless (send_request ok t r u)
  send_request-IsLossless ok t r u l =
      let queued : IsLossless (record u {
        writer = record u.writer {
          request_buffer = u.writer.request_buffer ++ r ∷ [];
          total_requests_buffered = u.writer.total_requests_buffered + 1;
        };
        sent_requests = u.sent_requests ++ r ∷ [];
      }) =
        record {
          pool = l.pool;
          requests_kept = kept-append request_row u.requests _ _ r l.requests_kept;
          predictions_kept = l.predictions_kept;
          rows_counted = l.rows_counted;
          requests_counted =
              omega (arith, l.requests_counted, length-append u.sent_requests (r ∷ []));
          predictions_counted = l.predictions_counted;
        } in
      subst (λ ps. IsLossless (record (send_request ok t r u) { predictions = ps }))
        (append-nil u.predictions)
        (Moved-IsLossless _ queued (buffer_request-Moved ok t r u.writer l.pool))

  pub send_prediction-IsLossless :
      (ok : Bool) (t : Times W) (p : PredictionRecord W) (u : World W)
      → IsLossless u
      → IsLossless (send_prediction ok t p u)
  send_prediction-IsLossless ok t p u l =
      let queued : IsLossless (record u {
        writer = record u.writer {
          prediction_buffer = u.writer.prediction_buffer ++ p ∷ [];
          total_predictions_buffered = u.writer.total_predictions_buffered + 1;
        };
        sent_predictions = u.sent_predictions ++ p ∷ [];
      }) =
        record {
          pool = l.pool;
          requests_kept = l.requests_kept;
          predictions_kept = kept-append prediction_row u.predictions _ _ p l.predictions_kept;
          rows_counted = l.rows_counted;
          requests_counted = l.requests_counted;
          predictions_counted =
              omega (arith, l.predictions_counted, length-append u.sent_predictions (p ∷ []));
        } in
      subst (λ rs. IsLossless (record (send_prediction ok t p u) { requests = rs }))
        (append-nil u.requests)
        (Moved-IsLossless _ queued (buffer_prediction-Moved ok t p u.writer l.pool))

  halt-IsLossless :
      (ok1 ok2 : Bool) (t1 t2 : Times W) (u : World W)
      → IsLossless u
      → IsLossless (stop_all ok1 ok2 t1 t2 u)
  unfolding stop
  halt-IsLossless ok1 ok2 t1 t2 u l =
      let stopped : IsLossless (record u { writer = record u.writer { running = false } }) =
        record {
          pool = l.pool;
          requests_kept = l.requests_kept;
          predictions_kept = l.predictions_kept;
          rows_counted = l.rows_counted;
          requests_counted = l.requests_counted;
          predictions_counted = l.predictions_counted;
        } in
      Moved-IsLossless _ stopped (flush-Moved ok1 ok2 t1 t2 _ l.pool)

  Step-IsLossless : {u v : World W} → Step u v → IsLossless u → IsLossless v
  unfolding start
  Step-IsLossless {u} (request ok t r) l = send_request-IsLossless ok t r u l
  Step-IsLossless {u} (prediction ok t p) l = send_prediction-IsLossless ok t p u l
  Step-IsLossless {u} (tick ok1 ok2 t1 t2) l =
      Moved-IsLossless u l (flush-Moved ok1 ok2 t1 t2 u.writer l.pool)
  Step-IsLossless {u} begin l = record {
    pool = l.pool;
    requests_kept = l.requests_kept;
    predictions_kept = l.predictions_kept;
    rows_counted = l.rows_counted;
    requests_counted = l.requests_counted;
    predictions_counted = l.predictions_counted;
  }
  Step-IsLossless {u} (halt ok1 ok2 t1 t2) l = halt-IsLossless ok1 ok2 t1 t2 u l

  Reach-keeps : {u v : World W} → IsLossless u → Reach u v → IsLossless v
  Reach-keeps l here = l
  Reach-keeps l (next r s) = Step-IsLossless s (Reach-keeps l r)

  -- A new writer with empty tables.
  abbrev pub new_world : ℕ → W → W → World W
  new_world batch_size interval now = record {
    writer = init true batch_size interval now;
    requests = [];
    predictions = [];
    sent_requests = [];
    sent_predictions = [];
  }

  -- However records are sent, batches inserted or refused, and the writer started and stopped, as
  -- long as no insertion is cancelled, the rows of each table followed by the writer's buffer are
  -- the records that were sent, each once and in order, and the counters agree with them.
  pub Reach-IsLossless :
      (batch_size : ℕ) (interval now : W) (u : World W)
      → Reach (new_world batch_size interval now) u
      → IsLossless u
  unfolding init
  Reach-IsLossless batch_size interval now u r =
      Reach-keeps
        (record {
          pool = refl;
          requests_kept = refl;
          predictions_kept = refl;
          rows_counted = refl;
          requests_counted = refl;
          predictions_counted = refl;
        })
        r
