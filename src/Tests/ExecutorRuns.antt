-- ===== src/Tests/ExecutorRuns.antt =====
-- The theorem on the executor at a run of two requests.
use predictive_consistent_ha.Prelude.{ℕ, true, [], ◌∷◌, ◌≡◌, refl}
use predictive_consistent_ha.Prelude.Float.{milli}
use predictive_consistent_ha.Scheduler.{QueuedRequest}
use predictive_consistent_ha.Executor.{Executor, Task, init, start, begin_request, finish_request}
use predictive_consistent_ha.Executor.Runs.{
  World, here, next, begin, arrive, finish, IsCounted, Reach-IsCounted,
}

abbrev lower : ℕ → ℕ → ℕ
lower a b = a

abbrev request : QueuedRequest ℕ ℕ
request = record { request_id = "1"; request_class = "Light"; enqueued_at = 1000; payload = 0 }

abbrev started : Executor ℕ
started = start (init "node_s1" [])

abbrev task : Task ℕ ℕ
task = (begin_request lower 3000 request started).1

abbrev one_active : Executor ℕ
one_active = (begin_request lower 3000 request started).0

-- Both are active; the one that began last ends first.
abbrev end : World ℕ ℕ
end = record {
  executor = (finish_request 4000 task (begin_request lower 3000 request one_active).0).0;
  tasks = task ∷ [];
  results = (finish_request 4000 task (begin_request lower 3000 request one_active).0).1 ∷ [];
}

on : started.running ≡ true
unfolding start
on = refl

still_on : one_active.running ≡ true
unfolding start begin_request
still_on = refl

same_task : (begin_request lower 3000 request one_active).1 ≡ task
unfolding start init begin_request
same_task = refl

Reach-IsCounted_example : IsCounted end
unfolding start init begin_request
Reach-IsCounted_example = Reach-IsCounted lower "node_s1" [] end (
    next (next (next (next here begin) (arrive 3000 request on)) (arrive 3000 request still_on))
      (finish 4000 task [] (task ∷ []) refl))
