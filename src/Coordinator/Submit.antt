-- ===== src/Coordinator/Submit.antt =====
-- Runs of the coordinator: each answered request is logged once, under its own id.
use predictive_consistent_ha.Prelude.{
  ℕ, zero, suc, String, Bool, true, false, Option, none, some, List, [], ◌∷◌, ◌+◌, ◌++◌, ◌≡◌, refl,
  sym, ap, ◌∙◌, subst, arith, get_or_else, map, map-append, if◌then◌else◌, inl, inr,
}
use predictive_consistent_ha.Prelude.Float.{Float, IsOrdered}
use predictive_consistent_ha.Intake.{Response, request_id_of}
use predictive_consistent_ha.Intake.Outcome.{route_request-Answered}
use predictive_consistent_ha.Storage.Postgres.{Writer, RequestRow, PredictionRow, init}
use predictive_consistent_ha.Storage.Runs.{answer, IsLossless, send_request, send_prediction}
use predictive_consistent_ha.Storage.Runs
use predictive_consistent_ha.Storage.Lossless.{
  new_world, Reach-IsLossless, send_request-IsLossless, send_prediction-IsLossless,
}
use predictive_consistent_ha.Coordinator.{
  Body, Outside, Coordinator, http_error, id_in, request_record, prediction_record, log_request,
  verify_api_key,
}
use predictive_consistent_ha.Coordinator.Requests.{
  Submission, route_body, settle_request, refuse, submit_body, submit_request,
}

-- The coordinator beside its database, and the bodies and answers of the requests it took.
pub record World (W : Type 0) : Type 0 where
  pub coordinator : Coordinator W
  pub storage : Runs.World W
  pub taken : List (Body × Response W)

-- The ids of the first requests.
unfoldable pub ids_to : ℕ → List String
ids_to zero = []
ids_to (suc n) = ids_to n ++ request_id_of (n + 1) ∷ []

module _ {W : Type 0} ⦃f : Float W⦄ where
  -- What the writing of a request's records does to the database beside the writer.
  abbrev pub stored :
      Body
      → Response W
      → Option (Writer W) × List (RequestRow W) × List (PredictionRow W)
      → Runs.World W
      → Runs.World W
  stored body result (writer, requests, predictions) s = record {
    writer = get_or_else writer s.writer;
    requests = s.requests ++ requests;
    predictions = s.predictions ++ predictions;
    sent_requests = s.sent_requests ++ request_record body result ∷ [];
    sent_predictions = s.sent_predictions ++ prediction_record result ∷ [];
  }

  abbrev pub answered_world : Outside W → Option String → Body → World W → World W
  answered_world o key body u =
      let s = submit_request o key (some body) u.coordinator in
      let result = (route_body o body u.coordinator).0 in
      record {
        coordinator = s.coordinator;
        storage =
            stored body result (s.coordinator.postgres_writer, s.request_rows, s.prediction_rows)
              u.storage;
        taken = u.taken ++ (body, result) ∷ [];
      }

  -- A call that is refused, and one that is answered while no insertion is cancelled.
  pub data Step (u : World W) : World W → Type 0 where
    refused :
        (o : Outside W) (key : Option String) (body : Option Body) (status : ℕ) (detail : String)
        → (submit_request o key body u.coordinator).reaction ≡ http_error status detail
        → Step u (record u { coordinator = (submit_request o key body u.coordinator).coordinator })
    answered :
        (o : Outside W) (key : Option String) (body : Body) (ok1 ok2 : Bool)
        → verify_api_key u.coordinator.api_key key ≡ true
        → u.coordinator.has_router ≡ true
        → o.request_reply ≡ answer ok1
        → o.prediction_reply ≡ answer ok2
        → Step u (answered_world o key body u)

  pub data Reach (u : World W) : World W → Type 0 where
    here : Reach u u
    next : {v w : World W} → Reach u v → Step v w → Reach u w

-- Each request that was taken has one record in either table or buffer, in order, under the ids
-- that count up from 1.
pub record IsLogged {W : Type 0} ⦃f : Float W⦄ (u : World W) : Type 0 where
  pub writer : u.coordinator.postgres_writer ≡ some u.storage.writer
  pub lossless : IsLossless u.storage
  pub requests : u.storage.sent_requests ≡ map (λ t. request_record t.0 t.1) u.taken
  pub predictions : u.storage.sent_predictions ≡ map (λ t. prediction_record t.1) u.taken
  pub ids : map (λ t. id_in t.1) u.taken ≡ ids_to u.coordinator.counter

module _ {W : Type 0} ⦃f : Float W⦄ (laws : IsOrdered W) where
  -- The result of the router is under the next id.
  route_body-id :
      (o : Outside W) (body : Body) (c : Coordinator W)
      → (id_in (route_body o body c).0 ≡ request_id_of (c.counter + 1))
        × ((route_body o body c).1 ≡ c.counter + 1)
  unfolding route_body
  route_body-id o body c =
      let (reply, counted) =
        route_request-Answered laws _ o.hashing c.hash_ring c.allocation_engine c.chord o.now
          o.latency_ms _ c.counter c.parts in
      (
        elim reply [
          | inl (unserved, e) ↦ ap id_in e
          | inr (x, e, same, decided) ↦ ap id_in e ∙ same
        ],
        counted,
      )

  -- A guard that refuses keeps what the refusals of its body keep.
  gate-same :
      (b : Bool) (s : Submission W) (status : ℕ) (detail : String) (code : ℕ) (text : String)
      (c : Coordinator W)
      → (s.reaction ≡ http_error code text → s.coordinator ≡ c)
      → (if b then s else refuse status detail c).reaction ≡ http_error code text
      → (if b then s else refuse status detail c).coordinator ≡ c
  unfolding refuse
  gate-same true s status detail code text c h e = h e
  gate-same false s status detail code text c h e = refl

  submit_body-same :
      (o : Outside W) (body : Option Body) (code : ℕ) (text : String) (c : Coordinator W)
      → (submit_body o body c).reaction ≡ http_error code text
      → (submit_body o body c).coordinator ≡ c
  unfolding submit_body refuse settle_request
  submit_body-same o none code text c e = refl
  submit_body-same o (some body) code text c e =
      gate-same c.has_router (settle_request o body (route_body o body c) c) 503
        "Pipeline not initialized" code text c (λ k. absurd (ground (arith, k))) e

  -- A refused call leaves the whole state as it was.
  refused-same :
      (o : Outside W) (key : Option String) (body : Option Body) (code : ℕ) (text : String)
      (c : Coordinator W)
      → (submit_request o key body c).reaction ≡ http_error code text
      → (submit_request o key body c).coordinator ≡ c
  unfolding submit_request
  refused-same o key body code text c e =
      gate-same (verify_api_key c.api_key key) (submit_body o body c) 401
        "Invalid or missing API key" code text c (submit_body-same o body code text c) e

  -- A call with the right key, a body and a router is settled.
  submit_request-settled :
      (o : Outside W) (key : Option String) (body : Body) (c : Coordinator W)
      → verify_api_key c.api_key key ≡ true
      → c.has_router ≡ true
      → submit_request o key (some body) c ≡ settle_request o body (route_body o body c) c
  unfolding submit_request submit_body
  submit_request-settled o key body c h k =
      ap (λ b. if b then submit_body o (some body) c else refuse 401 "Invalid or missing API key" c)
        h
      ∙ ap
          (λ b.
            if b
            then settle_request o body (route_body o body c) c
            else refuse 503 "Pipeline not initialized" c)
          k

  log_request-stored :
      (o : Outside W) (body : Body) (result : Response W) (mw : Option (Writer W))
      (s : Runs.World W) (ok1 ok2 : Bool)
      → mw ≡ some s.writer
      → o.request_reply ≡ answer ok1
      → o.prediction_reply ≡ answer ok2
      → (stored body result (log_request o body result mw) s
          ≡ send_prediction ok2 o.prediction_times
              (prediction_record result)
              (send_request ok1 o.request_times (request_record body result) s))
        × ((log_request o body result mw).0
            ≡ some (stored body result (log_request o body result mw) s).writer)
  unfolding log_request
  log_request-stored o body result mw s ok1 ok2 h h1 h2 = rw h (rw h1 (rw h2 (refl, refl)))

  answered-IsLogged :
      (o : Outside W) (key : Option String) (body : Body) (ok1 ok2 : Bool) (u : World W)
      → verify_api_key u.coordinator.api_key key ≡ true
      → u.coordinator.has_router ≡ true
      → o.request_reply ≡ answer ok1
      → o.prediction_reply ≡ answer ok2
      → IsLogged u
      → IsLogged (answered_world o key body u)
  unfolding settle_request ids_to
  answered-IsLogged o key body ok1 ok2 u h k h1 h2 i =
      let c = u.coordinator in
      let (next_id, next_count) = route_body-id o body c in
      let result = (route_body o body c).0 in
      let logged =
        log_request-stored o body result c.postgres_writer u.storage ok1 ok2 i.writer h1 h2 in
      let safe = send_prediction-IsLossless ok2 o.prediction_times (prediction_record result) _ (
        send_request-IsLossless ok1 o.request_times (request_record body result) u.storage
          i.lossless) in
      rw (submit_request-settled o key body c h k) (record {
        writer = logged.1;
        lossless = subst IsLossless (sym logged.0) safe;
        requests =
            ap (λ rs. rs ++ request_record body result ∷ []) i.requests
            ∙ sym (map-append (λ t. request_record t.0 t.1) u.taken ((body, result) ∷ []));
        predictions =
            ap (λ ps. ps ++ prediction_record result ∷ []) i.predictions
            ∙ sym (map-append (λ t. prediction_record t.1) u.taken ((body, result) ∷ []));
        ids =
            map-append (λ t. id_in t.1) u.taken ((body, result) ∷ [])
            ∙ ap (λ ids. ids ++ id_in result ∷ []) i.ids
            ∙ ap (λ id. ids_to c.counter ++ id ∷ []) next_id
            ∙ sym (ap ids_to (next_count ∙ suc_form c.counter));
      })
    where
      suc_form : (n : ℕ) → n + 1 ≡ suc n
      suc_form n = omega arith

  Step-IsLogged : {u v : World W} → Step u v → IsLogged u → IsLogged v
  Step-IsLogged {u} (refused o key body status detail e) i =
      subst (λ c. IsLogged (record u { coordinator = c }))
        (sym (refused-same o key body status detail u.coordinator e)) i
  Step-IsLogged {u} (answered o key body ok1 ok2 h k h1 h2) i =
      answered-IsLogged o key body ok1 ok2 u h k h1 h2 i

  Reach-keeps : {u v : World W} → IsLogged u → Reach u v → IsLogged v
  Reach-keeps i here = i
  Reach-keeps i (next r s) = Step-IsLogged s (Reach-keeps i r)

  pub Reach-IsLogged :
      (c : Coordinator W) (batch_size : ℕ) (interval now : W) (v : World W)
      → c.counter ≡ 0
      → c.postgres_writer ≡ some (init true batch_size interval now)
      → Reach
          (record { coordinator = c; storage = new_world batch_size interval now; taken = [] })
          v
      → IsLogged v
  unfolding ids_to
  Reach-IsLogged c batch_size interval now v zero_count fresh r =
      Reach-keeps
        (record {
          writer = fresh;
          lossless = Reach-IsLossless batch_size interval now _ Runs.here;
          requests = refl;
          predictions = refl;
          ids = sym (ap ids_to zero_count);
        })
        r
