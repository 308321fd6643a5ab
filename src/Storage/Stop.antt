-- ===== src/Storage/Stop.antt =====
-- The end of the PostgreSQL writer: what `stop` leaves.
use predictive_consistent_ha.Prelude.{
  length-map, ℕ, true, false, List, [], ◌∷◌, ◌+◌, ◌≡◌, refl, ap, ◌∙◌, arith, length, map,
  Bool-cases, inl, inr,
}
use predictive_consistent_ha.Prelude.Float.{Float}
use predictive_consistent_ha.Storage.{inserted, Times}
use predictive_consistent_ha.Storage.Postgres.{
  RequestRecord, PredictionRecord, Writer, request_row, prediction_row, reply_of, note_written,
  settle_requests, settle_predictions, flush_requests_of, flush_predictions_of, flush_requests,
  flush_predictions, flush, stop,
}
use predictive_consistent_ha.Storage.Runs.{World, halt, Reach, next, stop_all}
use predictive_consistent_ha.Storage.Moved.{kept_all}
use predictive_consistent_ha.Storage.Lossless.{new_world, Reach-IsLossless}

module _ {W : Type 0} ⦃f : Float W⦄ where
  flush_requests-empty :
      (t : Times W) (batch : List (RequestRecord W)) (w : Writer W)
      → w.request_buffer ≡ batch
      → ((flush_requests_of inserted t batch w).0.request_buffer ≡ [])
        × ((flush_requests_of inserted t batch w).0.prediction_buffer ≡ w.prediction_buffer)
  unfolding flush_requests_of settle_requests note_written reply_of
  flush_requests-empty t [] w e = (e, refl)
  flush_requests-empty t (r ∷ rs) w e = elim (Bool-cases w.has_pool) [
    | inl h ↦ rw h (refl, refl)
    | inr h ↦ rw h (refl, refl)
  ]

  flush_predictions-empty :
      (t : Times W) (batch : List (PredictionRecord W)) (w : Writer W)
      → w.prediction_buffer ≡ batch
      → ((flush_predictions_of inserted t batch w).0.prediction_buffer ≡ [])
        × ((flush_predictions_of inserted t batch w).0.request_buffer ≡ w.request_buffer)
  unfolding flush_predictions_of settle_predictions note_written reply_of
  flush_predictions-empty t [] w e = (e, refl)
  flush_predictions-empty t (p ∷ ps) w e = elim (Bool-cases w.has_pool) [
    | inl h ↦ rw h (refl, refl)
    | inr h ↦ rw h (refl, refl)
  ]

  stop-empty :
      (t1 t2 : Times W) (w : Writer W)
      → ((stop inserted inserted t1 t2 w).0.request_buffer ≡ [])
        × ((stop inserted inserted t1 t2 w).0.prediction_buffer ≡ [])
  unfolding stop flush flush_requests flush_predictions
  stop-empty t1 t2 w =
      let w1 : Writer W = record w { running = false } in
      let first = flush_requests-empty t1 w.request_buffer w1 refl in
      let second =
        flush_predictions-empty t2 _ (flush_requests_of inserted t1 w.request_buffer w1).0 refl in
      (second.1 ∙ first.0, second.0)

  pub stop_complete :
      (batch_size : ℕ) (interval now : W) (u : World W) (t1 t2 : Times W)
      → Reach (new_world batch_size interval now) u
      → ((stop_all true true t1 t2 u).requests ≡ map request_row u.sent_requests)
        × ((stop_all true true t1 t2 u).predictions ≡ map prediction_row u.sent_predictions)
        × ((stop_all true true t1 t2 u).writer.total_rows_written
            ≡ length u.sent_requests + length u.sent_predictions)
  stop_complete batch_size interval now u t1 t2 r =
      let l = Reach-IsLossless batch_size interval now _ (next r (halt true true t1 t2)) in
      let (no_requests, no_predictions) = stop-empty t1 t2 u.writer in
      let requests = kept_all request_row _ _ u.sent_requests l.requests_kept no_requests in
      let predictions =
        kept_all prediction_row _ _ u.sent_predictions l.predictions_kept no_predictions in
      (
        requests,
        predictions,
        omega (
          arith,
          l.rows_counted,
          ap length requests,
          ap length predictions,
          length-map request_row u.sent_requests,
          length-map prediction_row u.sent_predictions,
        ),
      )
