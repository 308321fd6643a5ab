-- ===== src/Tests/ServiceRuns.antt =====
-- The theorem on the node at a request that is accepted, scheduled and begun.
use predictive_consistent_ha.Prelude.{ℕ, some, [], ◌∷◌, ◌+◌, ◌≡◌, refl, length}
use predictive_consistent_ha.Prelude.Float.{milli}
use predictive_consistent_ha.Scheduler.{
  QueuedRequest, PerClass, Scheduler, class_of, full, enqueue, schedule_cycle, run_round,
  get_next_request, total_depth,
}
use predictive_consistent_ha.Scheduler
use predictive_consistent_ha.Executor.{begin_request}
use predictive_consistent_ha.Node.{
  Gauges, RequestData, text, class_text, queued_of, note_route, copy_depths, route_request,
}
use predictive_consistent_ha.Node.Runs.{
  World, Reach, here, next, route, schedule, begin, new_world, IsConserved, Reach-IsConserved,
}

abbrev lower : ℕ → ℕ → ℕ
lower a b = a

abbrev depths : PerClass ℕ
depths = record { of_light = 200; of_medium = 150; of_heavy = 100 }

abbrev weights : PerClass ℕ
weights = record { of_light = 3; of_medium = 2; of_heavy = 1 }

abbrev gauges : Gauges ℕ
gauges = record {
  cpu = 0;
  memory = 0;
  queue_light = 0;
  queue_medium = 0;
  queue_heavy = 0;
  queue_total = 0;
  vnodes = 0;
  throughput = 0;
  uptime = 0;
}

abbrev request : RequestData
request = record { request_id = some "1"; request_class = some (text "Heavy") }

abbrev world_0 : World ℕ
world_0 = new_world "node_s1" 100 4 8 0 depths weights [] gauges

abbrev world_1 : World ℕ
world_1 = record world_0 { node = (route_request 1000 request world_0.node).0; arrivals = 1 }

abbrev world_2 : World ℕ
world_2 = record world_1 {
  node = record world_1.node { scheduler = run_round world_1.node.scheduler };
}

abbrev queued : QueuedRequest ℕ RequestData
queued = queued_of 1000 request

abbrev taken : Scheduler (QueuedRequest ℕ RequestData)
taken = record world_2.node.scheduler { output_queue = [] }

handed_out : get_next_request world_2.node.scheduler ≡ some (queued, taken)
unfolding get_next_request run_round schedule_cycle route_request note_route copy_depths enqueue
    queued_of class_text class_of full Scheduler.init
handed_out = refl

abbrev world_3 : World ℕ
world_3 = record world_2 {
  node = record world_2.node {
    scheduler = taken;
    executor = (begin_request lower 2000 queued world_2.node.executor).0;
  };
  tasks = (begin_request lower 2000 queued world_2.node.executor).1 ∷ [];
}

run : Reach lower world_0 world_3
run = next (next (next here (route 1000 request)) schedule) (begin 2000 queued taken handed_out)

Reach-IsConserved_example :
    IsConserved world_3
    × (world_3.arrivals
        ≡ world_3.node.state.total_rejected
          + total_depth world_3.node.scheduler
          + length world_3.node.scheduler.output_queue
          + world_3.node.executor.active_count
          + world_3.node.state.total_processed)
Reach-IsConserved_example =
    Reach-IsConserved lower "node_s1" 100 4 8 0 depths weights [] gauges world_3 run
