-- ===== src/Executor.antt =====
-- node/executor.py: requests run as concurrent tasks that sleep for their class's time.
-- A task gives up control only while it sleeps, so its run is two steps: before and after the sleep.
-- `random.uniform` and the clock are arguments; the completion callback is in Node.
pub mod Runs
use predictive_consistent_ha.Prelude.{
  ℕ, String, Bool, true, false, [], ◌∷◌, ◌+◌, ◌-◌, get_or_else, string_eq,
}
use predictive_consistent_ha.Prelude.Dict.{Dict, lookup}
use predictive_consistent_ha.Prelude.Float.{Float, of_nat}
use predictive_consistent_ha.Scheduler.{QueuedRequest}

pub record ExecutionResult (W : Type 0) : Type 0 where
  pub request_id : String
  pub request_class : String
  pub node_id : String
  pub execution_time_ms : W
  pub queue_wait_time_ms : W
  pub total_time_ms : W
  pub success : Bool
  pub error_message : String
  pub completion_timestamp_ms : ℕ

pub record Executor (W : Type 0) : Type 0 where
  pub node_id : String
  pub exec_times : Dict String (W × W)
  pub total_executed : ℕ
  pub total_failed : ℕ
  pub running : Bool
  pub active_count : ℕ

-- A call of `execute_request` that sleeps: its local variables.
pub record Task (W P : Type 0) : Type 0 where
  pub request : QueuedRequest W P
  pub queue_wait_ms : W
  pub exec_ms : W

pub record Stats : Type 0 where
  pub total_executed : ℕ
  pub total_failed : ℕ
  pub active_count : ℕ

module _ {W P : Type 0} ⦃f : Float W⦄ where
  -- `execute_request` up to its sleep
  unfoldable pub begin_request :
      (W → W → W) → W → QueuedRequest W P → Executor W → Executor W × Task W P
  begin_request uniform now request e =
      let (min_ms, max_ms) =
        get_or_else (lookup request.request_class e.exec_times) (of_nat 100, of_nat 300) in
      (
        record e { active_count = e.active_count + 1 },
        record {
          request = request;
          queue_wait_ms = f.mul (f.sub now request.enqueued_at) (of_nat 1000);
          exec_ms = uniform min_ms max_ms;
        },
      )

  -- `execute_request` after its sleep
  unfoldable pub finish_request : W → Task W P → Executor W → Executor W × ExecutionResult W
  finish_request now t e = (
    record e { total_executed = e.total_executed + 1; active_count = e.active_count - 1 },
    record {
      request_id = t.request.request_id;
      request_class = t.request.request_class;
      node_id = e.node_id;
      execution_time_ms = t.exec_ms;
      queue_wait_time_ms = t.queue_wait_ms;
      total_time_ms = f.add t.queue_wait_ms t.exec_ms;
      success = true;
      error_message = "";
      completion_timestamp_ms = f.trunc (f.mul now (of_nat 1000));
    },
  )

  -- `execute_request` where the sleep raises an exception with this text
  unfoldable pub fail_request : W → String → Task W P → Executor W → Executor W × ExecutionResult W
  fail_request now error t e = (
    record e { total_failed = e.total_failed + 1; active_count = e.active_count - 1 },
    record {
      request_id = t.request.request_id;
      request_class = t.request.request_class;
      node_id = e.node_id;
      execution_time_ms = of_nat 0;
      queue_wait_time_ms = t.queue_wait_ms;
      total_time_ms = t.queue_wait_ms;
      success = false;
      error_message = error;
      completion_timestamp_ms = f.trunc (f.mul now (of_nat 1000));
    },
  )

module _ {W : Type 0} ⦃f : Float W⦄ where
  -- `DEFAULT_EXEC_TIMES`
  abbrev pub default_exec_times : Dict String (W × W)
  default_exec_times =
      ("Light", (of_nat 40, of_nat 60))
      ∷ ("Medium", (of_nat 150, of_nat 250))
      ∷ ("Heavy", (of_nat 800, of_nat 1200))
      ∷ []

  -- `exec_times or DEFAULT_EXEC_TIMES`
  abbrev pub times_of : Dict String (W × W) → Dict String (W × W)
  times_of [] = default_exec_times
  times_of (t ∷ ts) = t ∷ ts

  -- `__init__`
  unfoldable pub init : String → Dict String (W × W) → Executor W
  init node_id exec_times = record {
    node_id = node_id;
    exec_times = times_of exec_times;
    total_executed = 0;
    total_failed = 0;
    running = false;
    active_count = 0;
  }

module _ {W : Type 0} where
  -- `execute_request` where the task is cancelled in its sleep: only the `finally` runs
  unfoldable pub cancel_request : Executor W → Executor W
  cancel_request e = record e { active_count = e.active_count - 1 }

  -- `run` before its loop
  unfoldable pub start : Executor W → Executor W
  start e = record e { running = true }

  unfoldable pub stop : Executor W → Executor W
  stop e = record e { running = false }

  get_stats : Executor W → Stats
  get_stats e = record {
    total_executed = e.total_executed;
    total_failed = e.total_failed;
    active_count = e.active_count;
  }
