-- ===== src/Intake.antt =====
-- coordinator/intake/router.py: a request's way through the ring, the engine and the overflow router.
-- The feature pipeline, the classifier and the forecaster are an interface with a state of their own;
-- the time that a request takes is an argument.
pub mod Outcome
use predictive_consistent_ha.Prelude.{
  ℕ, zero, suc, String, Bool, true, false, not, ◌&&◌, ◌||◌, Option, none, some, List, [], ◌∷◌, ◌+◌,
  ◌-◌, map, ltb, if◌then◌else◌, get_or_else, ◌==◌, string_eq, length,
}
use predictive_consistent_ha.Prelude.Dict.{Dict, lookup, insert}
use predictive_consistent_ha.Prelude.Text.{str}
use predictive_consistent_ha.Prelude.Float.{Float, of_nat}
use predictive_consistent_ha.Ring.{Hashing, Ring, get_node, get_candidates}
use predictive_consistent_ha.Ring.Views.{nodes}
use predictive_consistent_ha.Allocation.{Engine, select_node, get_all_scores}
use predictive_consistent_ha.Chord.{Router, Method, allocation_engine, route}
use Prim.Native.String.{◌++◌ as concat, len}

module _ {W : Type 0} ⦃f : Float W⦄ where
  -- `heuristic_classify`
  unfoldable pub heuristic_classify : String → ℕ → String → String × W
  heuristic_classify endpoint payload_bytes method =
      if ltb 16000 payload_bytes || endpoint == "/api/inference" || endpoint == "/api/batch"
      then ("Heavy", f.ratio 75 100)
      else if ltb 2000 payload_bytes || endpoint == "/api/data" || method == "POST"
      then ("Medium", f.ratio 70 100)
      else ("Light", f.ratio 80 100)

-- What the router calls of the feature pipeline, the classifier and the forecaster, over their state
-- `S`. An absent classifier or one without a model is not loaded.
pub record Models (W S : Type 0) : Type 0 where
  pub extract_features : String → String → ℕ → ℕ → S → List W × S
  pub is_loaded : S → Bool
  pub classify : List W → S → (String × W) × S
  pub has_forecaster : Bool
  pub record_heavy_request : S → S
  pub get_predicted_load : String → ℕ → S → W

-- `raw_request`, with `none` for an absent key
pub record RawRequest : Type 0 where
  pub endpoint : Option String
  pub method : Option String
  pub payload_bytes : Option ℕ

pub data Classification : Type 0 where
  xgboost heuristic : Classification

pub record Routed (W : Type 0) : Type 0 where
  pub request_id : String
  pub predicted_class : String
  pub confidence : W
  pub classification_method : Classification
  pub assigned_node : Option String
  pub routing_hops : ℕ
  pub allocation_score : W
  pub routing_method : Method
  pub feature_vector : List W
  pub predicted_load : W
  pub pipeline_latency_ms : W

pub data Response (W : Type 0) : Type 0 where
  -- "No nodes available in hash ring"
  rejected : String → Response W
  routed : Routed W → Response W

-- What steps 5 and 6 decide.
pub record Decision (W : Type 0) : Type 0 where
  pub node : Option String
  pub hops : ℕ
  pub method : Method
  pub score : W

zeros : ℕ → String
zeros zero = ""
zeros (suc n) = concat "0" (zeros n)

-- f"req_{counter:08d}"
unfoldable pub request_id_of : ℕ → String
unfolding str zeros
request_id_of counter = concat "req_" (concat (zeros (8 - len (str counter))) (str counter))

-- `if chord_node`
abbrev pub named : Option String → Bool
named none = false
named (some n) = not (n == "")

module _ {W : Type 0} ⦃f : Float W⦄ where
  unfoldable pub overflow : Decision W → Option String × ℕ × Method → Decision W
  overflow d (chord_node, hops, method_used) =
      if named chord_node
      then record d { node = chord_node; hops = hops; method = method_used }
      else d

  -- Step 6 is reached with a selected node, since there is a candidate.
  unfoldable pub settle_on :
      Router W → Engine W → Dict String W → W → Option String × W × Bool → Decision W
  unfolding overflow get_all_scores route
  settle_on chord e predicted_loads now (none, score, all_overloaded) = record {
    node = none;
    hops = 1;
    method = allocation_engine;
    score = score;
  }
  settle_on chord e predicted_loads now (some selected, score, all_overloaded) =
      let first : Decision W = record {
        node = some selected;
        hops = 1;
        method = allocation_engine;
        score = score;
      } in
      if all_overloaded
      then overflow first (route selected (get_all_scores predicted_loads now e) chord)
      else first

  -- Steps 5 and 6.
  unfoldable pub decide : Router W → Engine W → List String → Dict String W → W → Decision W
  unfolding settle_on select_node
  decide chord e candidates predicted_loads now =
      settle_on chord e predicted_loads now (select_node candidates predicted_loads now e)

module _ {W S : Type 0} ⦃f : Float W⦄ (models : Models W S) where
  loads_of : ℕ → S → List String → Dict String W → Dict String W
  loads_of node_count s [] loads = loads
  loads_of node_count s (c ∷ cs) loads =
      loads_of node_count s cs (insert c (models.get_predicted_load c node_count s) loads)

  -- Step 4.
  unfoldable pub predicted_loads_of : Ring W → S → List String → Dict String W
  unfolding loads_of nodes
  predicted_loads_of r s candidates =
      if models.has_forecaster then loads_of (length (nodes r)) s candidates [] else []

  -- Step 2: class, confidence, method and the new state.
  unfoldable pub classify_request :
      List W → String → ℕ → String → S → (String × W) × Classification × S
  unfolding heuristic_classify
  classify_request features endpoint payload_bytes method s =
      if models.is_loaded s
      then ((models.classify features s).0, xgboost, (models.classify features s).1)
      else (heuristic_classify endpoint payload_bytes method, heuristic, s)

  -- The answer of steps 3 to 6 for a request that was classified.
  unfoldable pub respond :
      Hashing
      → Ring W
      → Engine W
      → Router W
      → W
      → W
      → String
      → String
      → W
      → Classification
      → List W
      → S
      → Response W
  unfolding get_node get_candidates predicted_loads_of decide
  respond h r e chord now elapsed_ms request_id predicted_class confidence used features s =
      let candidates = get_candidates h request_id 3 r in
      let loads = predicted_loads_of r s candidates in
      let d = decide chord e candidates loads now in
      if named (get_node h request_id r)
      then routed (record {
        request_id = request_id;
        predicted_class = predicted_class;
        confidence = confidence;
        classification_method = used;
        assigned_node = d.node;
        routing_hops = d.hops;
        allocation_score = f.rounded 4 d.score;
        routing_method = d.method;
        feature_vector = map (f.rounded 4) features;
        predicted_load = get_or_else (lookup (get_or_else d.node "") loads) (of_nat 0);
        pipeline_latency_ms = f.rounded 3 elapsed_ms;
      })
      else rejected request_id

  -- `route_request`, on the counter and the state of the models
  unfoldable pub route_request :
      Hashing → Ring W → Engine W → Router W → W → W → RawRequest → ℕ × S → Response W × ℕ × S
  unfolding request_id_of classify_request respond
  route_request h r e chord now elapsed_ms raw (counter, s) =
      let endpoint = get_or_else raw.endpoint "/api/status" in
      let method = get_or_else raw.method "GET" in
      let payload_bytes = get_or_else raw.payload_bytes 128 in
      let (features, s1) = models.extract_features endpoint method payload_bytes 0 s in
      let ((predicted_class, confidence), used, s2) =
        classify_request features endpoint payload_bytes method s1 in
      let s3 =
        if predicted_class == "Heavy" && models.has_forecaster
        then models.record_heavy_request s2
        else s2 in
      (
        respond h r e chord now elapsed_ms (request_id_of (counter + 1)) predicted_class confidence
            used features s3,
        counter + 1,
        s3,
      )
