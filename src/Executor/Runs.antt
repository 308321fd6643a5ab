-- ===== src/Executor/Runs.antt =====
-- Runs of the executor's tasks in any order.
use predictive_consistent_ha.Prelude.{
  ℕ, String, true, List, [], ◌∷◌, ◌++◌, ◌+◌, ◌-◌, ◌≡◌, refl, ap, arith, length, length-append,
  if◌then◌else◌,
}
use predictive_consistent_ha.Prelude.Dict.{Dict}
use predictive_consistent_ha.Prelude.Float.{Float}
use predictive_consistent_ha.Scheduler.{QueuedRequest}
use predictive_consistent_ha.Executor.{
  ExecutionResult, Executor, Task, begin_request, finish_request, fail_request, cancel_request,
  init, start, stop,
}

-- The executor with its sleeping tasks and the results so far, the newest first.
pub record World (W P : Type 0) : Type 0 where
  pub executor : Executor W
  pub tasks : List (Task W P)
  pub results : List (ExecutionResult W)

module _ {W : Type 0} where
  pub successes : List (ExecutionResult W) → ℕ
  successes [] = 0
  successes (r ∷ rs) = (if r.success then 1 else 0) + successes rs

module _ {W P : Type 0} ⦃f : Float W⦄ (uniform : W → W → W) where
  -- A request begins only while the loop runs; a sleeping task may end in each way at any time.
  pub data Step (w : World W P) : World W P → Type 0 where
    arrive :
        (now : W) (r : QueuedRequest W P)
        → w.executor.running ≡ true
        → Step w (record {
          executor = (begin_request uniform now r w.executor).0;
          tasks = (begin_request uniform now r w.executor).1 ∷ w.tasks;
          results = w.results;
        })
    finish :
        (now : W) (t : Task W P) (before after : List (Task W P))
        → w.tasks ≡ before ++ t ∷ after
        → Step w (record {
          executor = (finish_request now t w.executor).0;
          tasks = before ++ after;
          results = (finish_request now t w.executor).1 ∷ w.results;
        })
    fail :
        (now : W) (error : String) (t : Task W P) (before after : List (Task W P))
        → w.tasks ≡ before ++ t ∷ after
        → Step w (record {
          executor = (fail_request now error t w.executor).0;
          tasks = before ++ after;
          results = (fail_request now error t w.executor).1 ∷ w.results;
        })
    cancel :
        (t : Task W P) (before after : List (Task W P))
        → w.tasks ≡ before ++ t ∷ after
        → Step w (record {
          executor = cancel_request w.executor;
          tasks = before ++ after;
          results = w.results;
        })
    begin : Step w (record w { executor = start w.executor })
    halt : Step w (record w { executor = stop w.executor })

  pub data Reach (w : World W P) : World W P → Type 0 where
    here : Reach w w
    next : {u v : World W P} → Reach w u → Step u v → Reach w v

-- The counters are those of the tasks and results.
pub record IsCounted {W P : Type 0} (w : World W P) : Type 0 where
  pub active : w.executor.active_count ≡ length w.tasks
  pub executed : w.executor.total_executed ≡ successes w.results
  pub ended : w.executor.total_executed + w.executor.total_failed ≡ length w.results

module _ {W P : Type 0} ⦃f : Float W⦄ (uniform : W → W → W) where
  split-length :
      (t : Task W P) (tasks before after : List (Task W P))
      → tasks ≡ before ++ t ∷ after
      → length tasks - 1 ≡ length (before ++ after)
  split-length t tasks before after e =
      omega (arith, ap length e, length-append before (t ∷ after), length-append before after)

  Step-IsCounted : {u v : World W P} → Step uniform u v → IsCounted u → IsCounted v
  unfolding begin_request finish_request fail_request cancel_request start stop successes
  Step-IsCounted {u} (arrive now r on) c = record {
    active = omega (arith, c.active);
    executed = c.executed;
    ended = c.ended;
  }
  Step-IsCounted {u} (finish now t before after e) c = record {
    active = omega (arith, c.active, split-length t u.tasks before after e);
    executed = omega (arith, c.executed);
    ended = omega (arith, c.ended);
  }
  Step-IsCounted {u} (fail now error t before after e) c = record {
    active = omega (arith, c.active, split-length t u.tasks before after e);
    executed = omega (arith, c.executed);
    ended = omega (arith, c.ended);
  }
  Step-IsCounted {u} (cancel t before after e) c = record {
    active = omega (arith, c.active, split-length t u.tasks before after e);
    executed = c.executed;
    ended = c.ended;
  }
  Step-IsCounted {u} begin c = record { active = c.active; executed = c.executed; ended = c.ended }
  Step-IsCounted {u} halt c = record { active = c.active; executed = c.executed; ended = c.ended }

  Reach-keeps : {u v : World W P} → IsCounted u → Reach uniform u v → IsCounted v
  Reach-keeps c here = c
  Reach-keeps c (next r s) = Step-IsCounted s (Reach-keeps c r)

  -- However requests begin, finish, fail and are cancelled, the active count is the number of the
  -- sleeping tasks, each result is counted once, and the executed ones are the successes.
  pub Reach-IsCounted :
      (node_id : String) (times : Dict String (W × W)) (w : World W P)
      → Reach uniform (record { executor = init node_id times; tasks = []; results = [] }) w
      → IsCounted w
  unfolding init successes
  Reach-IsCounted node_id times w r =
      Reach-keeps (record { active = refl; executed = refl; ended = refl }) r
