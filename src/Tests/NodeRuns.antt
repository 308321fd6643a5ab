-- ===== src/Tests/NodeRuns.antt =====
-- The theorems on the node's scheduler at a small run.
use predictive_consistent_ha.Prelude.{
  ℕ, String, true, false, [], ◌∷◌, ◌++◌, ◌≡◌, ◌⊎◌, ◌<◌, ◌≤◌, ◌+◌, refl, length, take, drop, arith,
}
use predictive_consistent_ha.Scheduler.{
  QueuedRequest, PerClass, get, put, class_of, Scheduler, init, enqueue, schedule_cycle, run_round,
  start, total_depth,
}
use predictive_consistent_ha.Scheduler.Cycle.{schedule_cycle_lem}
use predictive_consistent_ha.Scheduler.Invariant.{
  FitsStrictly, IsValid, here, next, arrive, begin, cycle, enqueue_lem, Reach-IsValid,
}
use predictive_consistent_ha.Scheduler.Progress.{Serves, rounds, rounds-drain}

abbrev request : String → String → QueuedRequest ℕ ℕ
request id cls = record { request_id = id; request_class = cls; enqueued_at = 0; payload = 0 }

-- One heavy request at most; one request of each class in a cycle.
abbrev depths : PerClass ℕ
depths = record { of_light = 2; of_medium = 2; of_heavy = 1 }

abbrev weights : PerClass ℕ
weights = record { of_light = 2; of_medium = 1; of_heavy = 1 }

abbrev loaded : Scheduler (QueuedRequest ℕ ℕ)
loaded =
    (enqueue (request "3" "Light")
      (enqueue (request "2" "Heavy") (enqueue (request "1" "Heavy") (init depths weights)).0).0).0

-- The second heavy request was refused.
loaded_counts : (loaded.total_enqueued ≡ 2) × (loaded.total_rejected ≡ 1) × (total_depth loaded ≡ 2)
unfolding enqueue init total_depth
loaded_counts = (refl, refl, refl)

loaded-Serves : Serves loaded
unfolding enqueue init
loaded-Serves = record {
  light_pos = omega arith;
  medium_pos = omega arith;
  heavy_pos = omega arith;
}

depth : total_depth loaded ≤ 2
unfolding enqueue init total_depth
depth = omega arith

rounds-drain_example :
    (total_depth (rounds 2 loaded) ≡ 0)
    × (length (rounds 2 loaded).output_queue ≡ length loaded.output_queue + total_depth loaded)
rounds-drain_example = rounds-drain 2 loaded loaded-Serves depth

still_on : (start loaded).running ≡ true
unfolding start
still_on = refl

Reach-IsValid_example : IsValid (run_round (start loaded))
Reach-IsValid_example = Reach-IsValid depths weights (run_round (start loaded)) (
    next
      (next
        (next (next (next here (arrive (request "1" "Heavy"))) (arrive (request "2" "Heavy")))
          (arrive (request "3" "Light")))
        begin)
      (cycle still_on))

schedule_cycle_lem_example : schedule_cycle loaded ≡ record loaded {
  queues = record {
    of_light = drop loaded.weights.of_light loaded.queues.of_light;
    of_medium = drop loaded.weights.of_medium loaded.queues.of_medium;
    of_heavy = drop loaded.weights.of_heavy loaded.queues.of_heavy;
  };
  output_queue =
      ((loaded.output_queue ++ take loaded.weights.of_light loaded.queues.of_light)
        ++ take loaded.weights.of_medium loaded.queues.of_medium)
      ++ take loaded.weights.of_heavy loaded.queues.of_heavy;
  total_dequeued =
      loaded.total_dequeued
      + length (take loaded.weights.of_light loaded.queues.of_light)
      + length (take loaded.weights.of_medium loaded.queues.of_medium)
      + length (take loaded.weights.of_heavy loaded.queues.of_heavy);
}
schedule_cycle_lem_example = schedule_cycle_lem loaded

enqueue_lem_example :
    let r = request "4" "Heavy" in
    let cls = class_of r.request_class in
    let queue = get cls loaded.queues in
    (FitsStrictly (get cls loaded.max_depths) (length queue)
      × (enqueue r loaded ≡ (
        record loaded {
          queues = put cls (queue ++ r ∷ []) loaded.queues;
          total_enqueued = loaded.total_enqueued + 1;
        },
        true,
      )))
    ⊎ ((0 < get cls loaded.max_depths)
        × (get cls loaded.max_depths ≤ length queue)
        × (enqueue r loaded
            ≡ (record loaded { total_rejected = loaded.total_rejected + 1 }, false)))
enqueue_lem_example = enqueue_lem (request "4" "Heavy") loaded
