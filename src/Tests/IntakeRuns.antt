-- ===== src/Tests/IntakeRuns.antt =====
-- The theorem on the intake at a request on the ring of three nodes.
use predictive_consistent_ha.Prelude.{ℕ, true, false, some, [], ◌∷◌, ◌≡◌, refl, ◌+◌}
use predictive_consistent_ha.Prelude.Float.{milli, milli-IsOrdered}
use predictive_consistent_ha.Allocation.{Engine}
use predictive_consistent_ha.Chord
use predictive_consistent_ha.Chord.{Router, build_finger_tables}
use predictive_consistent_ha.Intake.{Models, RawRequest, request_id_of, route_request}
use predictive_consistent_ha.Intake.Outcome.{Answered, route_request-Answered}
use predictive_consistent_ha.Tests.{hashing, ring_abc}

-- No classifier; the forecaster counts heavy requests and expects the same load everywhere.
abbrev models : Models ℕ ℕ
models = record {
  extract_features = λ endpoint method payload_bytes queue_depth s. (100 ∷ 200 ∷ [], s);
  is_loaded = λ s. false;
  classify = λ features s. (("Light", 800), s);
  has_forecaster = true;
  record_heavy_request = λ s. s + 1;
  get_predicted_load = λ node total_nodes s. 250;
}

abbrev engine : Engine ℕ
engine = record {
  alpha = 350;
  beta = 300;
  gamma = 200;
  delta = 150;
  overflow_threshold = 850;
  staleness_penalty = 100;
  node_metrics = [];
}

abbrev router : Router ℕ
router = build_finger_tables ("a" ∷ "b" ∷ "c" ∷ []) (Chord.init 4 850)

abbrev upload : RawRequest
upload = record { endpoint = some "/api/batch"; method = some "POST"; payload_bytes = some 20000 }

first_id : request_id_of 1 ≡ "req_00000001"
unfolding request_id_of
first_id = refl

route_request-Answered_example :
    Answered milli-IsOrdered models hashing ring_abc engine router 5
      (request_id_of (0 + 1))
      (route_request models hashing ring_abc engine router 5 1 upload (0, 0)).0
    × ((route_request models hashing ring_abc engine router 5 1 upload (0, 0)).1 ≡ 0 + 1)
route_request-Answered_example =
    route_request-Answered milli-IsOrdered models hashing ring_abc engine router 5 1 upload 0 0
