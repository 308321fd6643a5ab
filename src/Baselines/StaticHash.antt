-- ===== src/Baselines/StaticHash.antt =====
-- coordinator/routing/baselines.py, `StaticHashBalancer`: always the first candidate.
use predictive_consistent_ha.Prelude.{
  ℕ, String, Bool, true, false, Option, none, some, List, [], ◌∷◌, ◌≡◌, ap, ◌==◌, string_eq,
}
use predictive_consistent_ha.Prelude.Dict.{Dict, insert, erase}
use predictive_consistent_ha.Prelude.Float.{Float, of_nat}
use predictive_consistent_ha.Allocation.{Metrics}
use predictive_consistent_ha.Ring.{
  Hashing, Ring, get_node, get_candidates, get_vnode_count, get_all_nodes,
}
use predictive_consistent_ha.Ring.Candidates.{get_candidates-head}

pub record StaticHash (W : Type 0) : Type 0 where
  pub ring : Ring W
  pub frozen_vnodes : Dict String ℕ
  pub node_metrics : Dict String (Metrics W)

module _ {W : Type 0} where
  unfoldable pub frozen : Ring W → List String → Dict String ℕ → Dict String ℕ
  unfolding get_vnode_count
  frozen r [] counts = counts
  frozen r (name ∷ rest) counts = frozen r rest (insert name (get_vnode_count name r) counts)

  unfoldable pub init : Ring W → StaticHash W
  unfolding frozen get_all_nodes
  init hash_ring = record {
    ring = hash_ring;
    frozen_vnodes = frozen hash_ring (get_all_nodes hash_ring) [];
    node_metrics = [];
  }

  unfoldable pub update_node_metrics : String → Metrics W → W → StaticHash W → StaticHash W
  update_node_metrics node_name metrics now b = record b {
    node_metrics = insert node_name (record metrics { updated_at = some now }) b.node_metrics;
  }

  remove_node : String → StaticHash W → StaticHash W
  remove_node node_name b = record b {
    frozen_vnodes = erase node_name b.frozen_vnodes;
    node_metrics = erase node_name b.node_metrics;
  }

module _ {W : Type 0} ⦃f : Float W⦄ where
  unfoldable pub select_node : List String → Option String × W × Bool
  select_node [] = (none, of_nat 1, true)
  select_node (c ∷ cs) = (some c, f.ratio 1 2, false)

  uniform : Dict String ℕ → Dict String W
  uniform [] = []
  uniform ((name, count) ∷ rest) = (name, f.ratio 1 2) ∷ uniform rest

  get_all_scores : StaticHash W → Dict String W
  unfolding uniform
  get_all_scores b = uniform b.frozen_vnodes

  -- On the ring's candidates for a key, however many are asked for, the balancer selects the node
  -- that `get_node` answers with for the key, if that has a name.
  pub select_node-get_node :
      (h : Hashing) (key : String) (count : ℕ) (r : Ring W) (m : String)
      → get_node h key r ≡ some m
      → (m == "") ≡ false
      → select_node (get_candidates h key count r) ≡ (some m, f.ratio 1 2, false)
  unfolding select_node
  select_node-get_node h key count r m served named =
      let (rest, e) = get_candidates-head h key count r m served named in ap select_node e
