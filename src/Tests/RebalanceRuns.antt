-- ===== src/Tests/RebalanceRuns.antt =====
-- The theorems on the reallocation at the ring of three nodes, two of them with metrics.
use predictive_consistent_ha.Prelude.{
  ℕ, String, true, false, some, none, [], ◌∷◌, ◌≡◌, ◌≢◌, ◌≤◌, refl, length, get_or_else, arith,
  string_eq, nat_eq, ==_ne,
}
use predictive_consistent_ha.Prelude.Dict.{contains}
use predictive_consistent_ha.Prelude.Float.{milli, of_nat}
use predictive_consistent_ha.Ring.{
  Ring, settle, vnode_key, collision_key, murmurhash3, init, add_node, prepare_node,
  compute_vnode_count, remove_node, recalculate_avg_capacity, update_node_vnodes, get_vnode_count,
}
use predictive_consistent_ha.Ring.Positions.{insort, pop_position}
use predictive_consistent_ha.Ring.Views.{nodes, get_node_vnode_count}
use predictive_consistent_ha.Ring.Validity.{IsValid, init-IsValid, add_node-IsValid}
use predictive_consistent_ha.Allocation.{Metrics, Engine, get_node_metrics}
use predictive_consistent_ha.Rebalance.{
  Allocator, Cycle, start_cycle, target, get_base_vnodes, adjust_node, note_run, recalculate,
}
use predictive_consistent_ha.Rebalance.Effects.{recalculate-IsValid}
use predictive_consistent_ha.Tests.{small_hash, hashing, ring_0, ring_a, ring_ab}

program : Unit {0}
unfolding small_hash insort pop_position settle vnode_key collision_key murmurhash3 init add_node
    prepare_node compute_vnode_count remove_node recalculate_avg_capacity update_node_vnodes nodes
    get_node_vnode_count get_node_metrics target get_base_vnodes adjust_node note_run recalculate
    get_vnode_count
program = tt

abbrev metrics : ℕ → ℕ → Metrics ℕ
metrics cpu depth = record {
  cpu_pct = some (of_nat cpu);
  queue_depth = some depth;
  queue_max = some 450;
  latency_ema_ms = none;
  latency_max_ms = none;
  updated_at = none;
}

abbrev engine : Engine ℕ
engine = record {
  alpha = 350;
  beta = 300;
  gamma = 200;
  delta = 150;
  overflow_threshold = 850;
  staleness_penalty = 100;
  node_metrics = ("a", metrics 0 0) ∷ ("b", metrics 95 440) ∷ [];
}

abbrev allocator : Allocator ℕ
allocator = record {
  cpu_increase_below = of_nat 50;
  cpu_decrease_above = of_nat 80;
  queue_increase_below = of_nat 20;
  queue_decrease_above = of_nat 80;
  burst_damping_factor = 700;
  vnode_base_count = 2;
  vnode_min_count = 1;
  running = true;
  burst_imminent = false;
  run_count = 0;
  last_run_time = 0;
  last_run_duration_ms = 0;
  history = [];
  pending_trigger = none;
}

-- The idle node gets more virtual nodes, the busy one fewer.
targets : (target allocator 2 (metrics 0 0) ≡ 3) × (target allocator 2 (metrics 95 440) ≡ 1)
unfolding program
targets = (refl, refl)

a_added : add_node hashing "a" 100 1 ring_0 ≡ some (ring_a, 2)
unfolding program
a_added = refl

b_added : add_node hashing "b" 100 2 ring_a ≡ some (ring_ab, 2)
unfolding program
b_added = refl

ring_ab-IsValid : IsValid ring_ab
ring_ab-IsValid =
    add_node-IsValid hashing "b" 100 2 ring_a
      (add_node-IsValid hashing "a" 100 1 ring_0 (init-IsValid 2 1 0) a_added) b_added

abbrev result : Ring ℕ × Allocator ℕ
result =
    get_or_else (recalculate hashing engine "interval" 7 1 ring_ab allocator) (ring_ab, allocator)

ran : recalculate hashing engine "interval" 7 1 ring_ab allocator ≡ some (result.0, result.1)
unfolding program
ran = refl

no_history : length allocator.history ≤ 20
no_history = omega arith

recalculate-IsValid_example : IsValid result.0 × (length result.1.history ≤ 20)
recalculate-IsValid_example =
    recalculate-IsValid hashing engine "interval" 7 1 ring_ab result.0 allocator result.1
      ring_ab-IsValid no_history ran

abbrev first_round : Cycle ℕ
first_round =
    get_or_else (adjust_node hashing allocator engine 7 "a" (start_cycle ring_ab))
      (start_cycle ring_ab)

a_known : contains "a" ring_ab.node_vnodes ≡ true
unfolding program
a_known = refl

b-ne-a : ◌≢◌ {A = String} "b" "a"
b-ne-a = ==_ne "b" "a" refl

a_adjusted : adjust_node hashing allocator engine 7 "a" (start_cycle ring_ab) ≡ some first_round
unfolding program
a_adjusted = refl
