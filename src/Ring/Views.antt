-- ===== src/Ring/Views.antt =====
-- What `ConsistentHashRing` reports of itself: the snapshot, the node infos and the sizes.
use predictive_consistent_ha.Prelude.{
  ℕ, String, Bool, List, [], ◌∷◌, length, get_or_else, ◌==◌, nat_eq, string_eq,
}
use predictive_consistent_ha.Prelude.Dict.{Dict, lookup}
use predictive_consistent_ha.Prelude.Float.{Float}
use predictive_consistent_ha.Ring.{Ring, compute_vnode_count, get_vnode_count}

pub record NodeInfo : Type 0 where
  pub capacity_score : ℕ
  pub base_vnodes : ℕ
  pub current_vnodes : ℕ

pub record NodeShare : Type 0 where
  pub vnode_count : ℕ
  pub capacity_score : ℕ

pub record Snapshot (W : Type 0) : Type 0 where
  pub total_vnodes : ℕ
  pub total_nodes : ℕ
  pub nodes : Dict String NodeShare
  pub avg_capacity : W
  pub last_updated : W

module _ {W : Type 0} where
  shares_of : Ring W → Dict String (List ℕ) → Dict String NodeShare
  shares_of r [] = []
  shares_of r ((name, vnodes) ∷ rest) =
      (
        name,
        record {
          vnode_count = length vnodes;
          capacity_score = get_or_else (lookup name r.node_capacities) 0;
        },
      )
      ∷ shares_of r rest

  unfoldable pub get_ring_snapshot : Ring W → Snapshot W
  unfolding shares_of
  get_ring_snapshot r = record {
    total_vnodes = length r.positions;
    total_nodes = length r.node_vnodes;
    nodes = shares_of r r.node_vnodes;
    avg_capacity = r.avg_capacity;
    last_updated = r.last_updated;
  }

  -- The alias of `get_vnode_count` that the reallocation calls.
  unfoldable pub get_node_vnode_count : String → Ring W → ℕ
  get_node_vnode_count node_name r = get_vnode_count node_name r

  unfoldable pub is_empty : Ring W → Bool
  is_empty r = length r.positions == 0

  unfoldable pub total_vnodes : Ring W → ℕ
  total_vnodes r = length r.positions

module _ {W : Type 0} ⦃f : Float W⦄ where
  infos_of : Ring W → Dict String (List ℕ) → Dict String NodeInfo
  unfolding compute_vnode_count
  infos_of r [] = []
  infos_of r ((name, vnodes) ∷ rest) =
      let capacity = get_or_else (lookup name r.node_capacities) 100 in
      (
        name,
        record {
          capacity_score = capacity;
          base_vnodes = compute_vnode_count r capacity;
          current_vnodes = length vnodes;
        },
      )
      ∷ infos_of r rest

  -- The property `nodes`.
  unfoldable pub nodes : Ring W → Dict String NodeInfo
  unfolding infos_of
  nodes r = infos_of r r.node_vnodes
