-- ===== src/Baselines/LeastConnections.antt =====
-- coordinator/routing/baselines.py, `LeastConnectionsBalancer`.
use predictive_consistent_ha.Prelude.{
  ℕ, String, Bool, true, false, Option, none, some, List, [], ◌∷◌, ◌≤◌, ◌≡◌, refl, ap, arith, ltb,
  get_or_else, if◌then◌else◌, elem, All, ◌>>=◌, string_eq, nat_eq, ==_refl, ltb→lt, Bool-cases, inl,
  inr,
}
use predictive_consistent_ha.Prelude.Dict.{Dict, lookup, insert, erase}
use predictive_consistent_ha.Prelude.Float.{Float, of_nat, fmin}
use predictive_consistent_ha.Allocation.{Metrics}
use predictive_consistent_ha.Baselines.RoundRobin.{remove_first}

pub record LeastConnections (W : Type 0) : Type 0 where
  pub nodes : List String
  pub node_metrics : Dict String (Metrics W)

module _ {W : Type 0} where
  unfoldable pub init : List String → LeastConnections W
  init node_names = record { nodes = node_names; node_metrics = [] }

  unfoldable pub update_node_metrics :
      String → Metrics W → W → LeastConnections W → LeastConnections W
  update_node_metrics node_name metrics now b = record b {
    node_metrics = insert node_name (record metrics { updated_at = some now }) b.node_metrics;
  }

  remove_node : String → LeastConnections W → LeastConnections W
  unfolding remove_first
  remove_node node_name b = record b {
    nodes = remove_first node_name b.nodes;
    node_metrics = erase node_name b.node_metrics;
  }

  -- `self._node_metrics.get(node, {}).get("queue_depth", 0)`
  abbrev pub depth_of : LeastConnections W → String → ℕ
  depth_of b node = get_or_else (lookup node b.node_metrics >>= λ m. m.queue_depth) 0

  -- The loop over the pool, with the best node and depth so far; `none` stands for no node and the
  -- depth `inf`.
  unfoldable pub least_of :
      LeastConnections W → List String → Option (String × ℕ) → Option (String × ℕ)
  least_of b [] best = best
  least_of b (node ∷ pool) none = least_of b pool (some (node, depth_of b node))
  least_of b (node ∷ pool) (some (best_node, best_depth)) = least_of b pool (
      if ltb (depth_of b node) best_depth
      then some (node, depth_of b node)
      else some (best_node, best_depth))

  pool_of : List String → LeastConnections W → List String
  pool_of [] b = b.nodes
  pool_of (c ∷ cs) b = c ∷ cs

module _ {W : Type 0} ⦃f : Float W⦄ where
  -- A pool that is not empty always has a best node, so the code's second choice is not reached.
  abbrev pub outcome : Option (String × ℕ) → Option String × W × Bool
  outcome none = (none, of_nat 1, true)
  outcome (some (best_node, best_depth)) =
      (some best_node, fmin (f.ratio best_depth 450) (of_nat 1), false)

  unfoldable pub select_node : List String → LeastConnections W → Option String × W × Bool
  unfolding least_of pool_of
  select_node candidates b = outcome (least_of b (pool_of candidates b) none)

  unfoldable pub compute_score : String → W → LeastConnections W → W
  compute_score node_name predicted_load b = fmin (f.ratio (depth_of b node_name) 450) (of_nat 1)

  scores_of : LeastConnections W → List String → Dict String W → Dict String W
  unfolding compute_score
  scores_of b [] scores = scores
  scores_of b (n ∷ ns) scores = scores_of b ns (insert n (compute_score n (of_nat 0) b) scores)

  get_all_scores : LeastConnections W → Dict String W
  unfolding scores_of
  get_all_scores b = scores_of b b.nodes []

module _ {W : Type 0} where
  -- The loop's result is a node of the pool or the best before, with its depth, and least.
  least_of-some :
      (b : LeastConnections W) (pool : List String) (n : String)
      → (best : String) × (least_of b pool (some (n, depth_of b n)) ≡ some (best, depth_of b best))
        × (elem best (n ∷ pool) ≡ true)
        × (depth_of b best ≤ depth_of b n)
        × All (λ m. depth_of b best ≤ depth_of b m) pool
  unfolding least_of
  least_of-some b [] n = (n, refl, ground (arith, ==_refl n), omega arith, tt)
  least_of-some b (m ∷ pool) n = elim (Bool-cases (ltb (depth_of b m) (depth_of b n))) [
    | inl better ↦
        let (best, e, here, low, all) = least_of-some b pool m in
        let less = ltb→lt (depth_of b m) (depth_of b n) better in
        rw better (best, e, ground (arith, here), omega (arith, low, less), (low, all))
    | inr kept ↦
        let (best, e, here, low, all) = least_of-some b pool n in
        let more : depth_of b n ≤ depth_of b m = ground (arith, kept) in
        rw kept (best, e, ground (arith, here), low, (omega (arith, low, more), all))
  ]

module _ {W : Type 0} ⦃f : Float W⦄ where
  -- On at least one candidate the selected node is a candidate with the fewest queued requests, and
  -- the score is its own score.
  pub select_node-fewest :
      (c : String) (cs : List String) (b : LeastConnections W)
      → (best : String) × (select_node (c ∷ cs) b
          ≡ (some best, compute_score best (of_nat 0) b, false))
        × (elem best (c ∷ cs) ≡ true)
        × All (λ m. depth_of b best ≤ depth_of b m) (c ∷ cs)
  unfolding select_node compute_score
  select_node-fewest c cs b =
      let (best, e, here, low, all) = least_of-some b cs c in (best, ap outcome e, here, (low, all))
