-- ===== src/Allocation.antt =====
-- coordinator/routing/allocation_engine.py: nodes are scored by weighted metrics, the least wins.
-- The clock is an argument; `Dict`s of metrics are records whose absent keys are `none`.
pub mod Selection
pub mod Bounds
use predictive_consistent_ha.Prelude.{
  ℕ, String, Bool, true, false, Option, none, some, List, [], ◌∷◌, ◌&&◌, ◌+◌, max, if◌then◌else◌,
  get_or_else, ◌>>=◌, string_eq,
}
use predictive_consistent_ha.Prelude.Dict.{Dict, values, lookup, insert, erase}
use predictive_consistent_ha.Prelude.Float.{Float, of_nat, fmin, fmax}
use predictive_consistent_ha.Prelude.Choice.{min_key}

-- The keys of a metrics dict that the coordinator reads.
pub record Metrics (W : Type 0) : Type 0 where
  pub cpu_pct : Option W
  pub queue_depth : Option ℕ
  pub queue_max : Option ℕ
  pub latency_ema_ms : Option W
  pub latency_max_ms : Option W
  pub updated_at : Option W

pub record WeightConfig (W : Type 0) : Type 0 where
  pub alpha_cpu : Option W
  pub beta_queue : Option W
  pub gamma_latency : Option W
  pub delta_forecast : Option W

-- The part of the configuration under `allocation`.
pub record AllocationConfig (W : Type 0) : Type 0 where
  pub weights : Option (WeightConfig W)
  pub overflow_threshold : Option W
  pub staleness_penalty_per_sec : Option W

pub record Engine (W : Type 0) : Type 0 where
  pub alpha : W
  pub beta : W
  pub gamma : W
  pub delta : W
  pub overflow_threshold : W
  pub staleness_penalty : W
  pub node_metrics : Dict String (Metrics W)

module _ {W : Type 0} ⦃f : Float W⦄ where
  -- `DEFAULT_WEIGHTS`
  abbrev pub default_weights : WeightConfig W
  default_weights = record {
    alpha_cpu = some (f.ratio 35 100);
    beta_queue = some (f.ratio 30 100);
    gamma_latency = some (f.ratio 20 100);
    delta_forecast = some (f.ratio 15 100);
  }

  -- `__init__`; an absent section `allocation` is `none`
  unfoldable pub init : Option (AllocationConfig W) → Engine W
  init config = record {
    alpha = get_or_else weights.alpha_cpu (f.ratio 35 100);
    beta = get_or_else weights.beta_queue (f.ratio 30 100);
    gamma = get_or_else weights.gamma_latency (f.ratio 20 100);
    delta = get_or_else weights.delta_forecast (f.ratio 15 100);
    overflow_threshold = get_or_else (config >>= λ c. c.overflow_threshold) (f.ratio 85 100);
    staleness_penalty = get_or_else (config >>= λ c. c.staleness_penalty_per_sec) (f.ratio 10 100);
    node_metrics = [];
  }
    where
      weights : WeightConfig W
      weights = get_or_else (config >>= λ c. c.weights) default_weights

  unfoldable pub update_node_metrics : String → Metrics W → W → Engine W → Engine W
  update_node_metrics node_name metrics now e = record e {
    node_metrics = insert node_name (record metrics { updated_at = some now }) e.node_metrics;
  }

  abbrev pub cpu_norm : Metrics W → W
  cpu_norm m = fmin (f.div (get_or_else m.cpu_pct (of_nat 50)) (of_nat 100)) (of_nat 1)

  abbrev pub queue_norm : Metrics W → W
  queue_norm m =
      fmin (f.ratio (get_or_else m.queue_depth 0) (max (get_or_else m.queue_max 450) 1)) (of_nat 1)

  abbrev pub latency_norm : Metrics W → W
  latency_norm m =
      fmin
        (f.div (get_or_else m.latency_ema_ms (of_nat 0))
          (fmax (get_or_else m.latency_max_ms (of_nat 5000)) (of_nat 1)))
        (of_nat 1)

  -- A penalty for metrics older than ten seconds.
  abbrev pub staleness : Engine W → Metrics W → W → W
  staleness e m now =
      let age = f.sub now (get_or_else m.updated_at now) in
      if f.lt (of_nat 10) age then fmin (f.mul age e.staleness_penalty) (f.ratio 1 2) else of_nat 0

  score_metrics : Engine W → Metrics W → W → W → W
  score_metrics e m predicted_load now =
      f.add
        (f.add
          (f.add (f.add (f.mul e.alpha (cpu_norm m)) (f.mul e.beta (queue_norm m)))
            (f.mul e.gamma (latency_norm m)))
          (f.mul e.delta (fmin predicted_load (of_nat 1))))
        (staleness e m now)

  score_found : Engine W → Option (Metrics W) → W → W → W
  unfolding score_metrics
  score_found e none predicted_load now = of_nat 1
  score_found e (some m) predicted_load now = score_metrics e m predicted_load now

  unfoldable pub compute_score : String → W → W → Engine W → W
  unfolding score_found
  compute_score node_name predicted_load now e =
      score_found e (lookup node_name e.node_metrics) predicted_load now

  -- The loop of `select_node` over the candidates.
  unfoldable pub score_all :
      Dict String W → W → Engine W → List String → Dict String W → Dict String W
  score_all predicted_loads now e [] scores = scores
  score_all predicted_loads now e (node ∷ rest) scores = score_all predicted_loads now e rest (
      insert node (compute_score node (get_or_else (lookup node predicted_loads) (of_nat 0)) now e)
        scores)

  -- `all(s > threshold for s in scores.values())`
  abbrev pub all_above : W → Dict String W → Bool
  all_above threshold [] = true
  all_above threshold (s ∷ rest) = f.lt threshold s.1 && all_above threshold rest

  abbrev pub chosen : Option String → Dict String W → Bool → Option String × W × Bool
  chosen none scores overloaded = (none, of_nat 1, true)
  chosen (some best) scores overloaded =
      (some best, get_or_else (lookup best scores) (of_nat 1), overloaded)

  -- The selected node, its score, and whether all candidates are overloaded.
  unfoldable pub select_node : List String → Dict String W → W → Engine W → Option String × W × Bool
  unfolding score_all
  select_node candidates predicted_loads now e =
      let scores = score_all predicted_loads now e candidates [] in
      chosen (min_key f.lt scores) scores (all_above e.overflow_threshold scores)

  -- The scores of all known nodes.
  unfoldable pub get_all_scores : Dict String W → W → Engine W → Dict String W
  get_all_scores predicted_loads now e = all_scores e.node_metrics
    where
      all_scores : Dict String (Metrics W) → Dict String W
      all_scores [] = []
      all_scores ((node, m) ∷ rest) =
          (node, compute_score node (get_or_else (lookup node predicted_loads) (of_nat 0)) now e)
          ∷ all_scores rest

module _ {W : Type 0} where
  unfoldable pub remove_node : String → Engine W → Engine W
  remove_node node_name e = record e { node_metrics = erase node_name e.node_metrics }

  -- An unknown node has the empty dict.
  unfoldable pub get_node_metrics : String → Engine W → Metrics W
  get_node_metrics node_name e = get_or_else (lookup node_name e.node_metrics) (record {
    cpu_pct = none;
    queue_depth = none;
    queue_max = none;
    latency_ema_ms = none;
    latency_max_ms = none;
    updated_at = none;
  })

  unfoldable pub get_all_metrics : Engine W → Dict String (Metrics W)
  get_all_metrics e = e.node_metrics
