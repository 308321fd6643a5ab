-- ===== src/Tests/BaselineRuns.antt =====
-- The theorems on the baselines at small inputs.
use predictive_consistent_ha.Prelude.{
  ℕ, String, false, some, none, List, [], ◌∷◌, ◌≡◌, ◌<◌, refl, length, get_elem?, get_or_else,
  arith, string_eq, nat_eq,
}
use predictive_consistent_ha.Prelude.Dict.{Dict}
use predictive_consistent_ha.Prelude.Float.{milli}
use predictive_consistent_ha.Ring.{
  Ring, settle, vnode_key, collision_key, murmurhash3, init, add_node, prepare_node,
  compute_vnode_count, remove_node, recalculate_avg_capacity, get_node, get_candidates,
}
use predictive_consistent_ha.Ring.Positions.{insort, pop_position}
use predictive_consistent_ha.Allocation.{Metrics}
use predictive_consistent_ha.Baselines.RoundRobin
use predictive_consistent_ha.Baselines.RoundRobin.{RoundRobin, after, select_node-turns}
use predictive_consistent_ha.Baselines.LeastConnections.{LeastConnections}
use predictive_consistent_ha.Baselines.StaticHash
use predictive_consistent_ha.Baselines.StaticHash.{select_node-get_node}
use predictive_consistent_ha.Baselines.Rotation.{Rotation}
use predictive_consistent_ha.Baselines.StaticRing
use predictive_consistent_ha.Baselines.StaticRing.{set_nodes-IsValid}
use predictive_consistent_ha.Tests.{small_hash, hashing, ring_0, ring_ab}

program : Unit {0}
unfolding small_hash insort pop_position settle vnode_key collision_key murmurhash3 init add_node
    prepare_node compute_vnode_count remove_node recalculate_avg_capacity get_node get_candidates
    StaticRing.init StaticRing.set_nodes
program = tt

abbrev turns : RoundRobin ℕ
turns = record { nodes = "a" ∷ "b" ∷ "c" ∷ []; counter = 7; node_metrics = [] }

last_place : 2 < length {A = String} ("a" ∷ "b" ∷ "c" ∷ [])
last_place = omega arith

select_node-turns_example :
    (i : ℕ) × (i < length {A = String} ("a" ∷ "b" ∷ "c" ∷ []))
    × ((RoundRobin.select_node (after i turns)).0.0 ≡ get_elem? ("a" ∷ "b" ∷ "c" ∷ []) 2)
select_node-turns_example = select_node-turns 2 "a" ("b" ∷ "c" ∷ []) turns refl last_place

abbrev with_depth : ℕ → Metrics ℕ
with_depth depth = record {
  cpu_pct = none;
  queue_depth = some depth;
  queue_max = none;
  latency_ema_ms = none;
  latency_max_ms = none;
  updated_at = none;
}

abbrev queued : LeastConnections ℕ
queued = record {
  nodes = "a" ∷ "b" ∷ [];
  node_metrics = ("a", with_depth 9) ∷ ("b", with_depth 4) ∷ [];
}

k1_of_b : get_node hashing "k1" ring_ab ≡ some "b"
unfolding program
k1_of_b = refl

select_node-get_node_example :
    StaticHash.select_node {W = ℕ} (get_candidates hashing "k1" 3 ring_ab) ≡ (some "b", 500, false)
select_node-get_node_example = select_node-get_node hashing "k1" 3 ring_ab "b" k1_of_b refl

abbrev opened : Dict String ℕ
opened = ("a", 3) ∷ []

abbrev rotation : Rotation
rotation = record { nodes = "a" ∷ "b" ∷ []; index = 3 }

abbrev two : List (String × ℕ)
two = ("a", 100) ∷ ("b", 100) ∷ []

abbrev static_ring : Ring ℕ
static_ring = get_or_else (StaticRing.set_nodes hashing 1 two (StaticRing.init 2 0)) ring_0

all_set : StaticRing.set_nodes hashing 1 two (StaticRing.init 2 0) ≡ some static_ring
unfolding program
all_set = refl
