-- ===== src/Storage.antt =====
-- coordinator/db: the batch writers and the Redis caches. A writer keeps a buffer of records, hands it
-- over as one batch, and puts it back where the batch fails. Both writers hold a lock over each
-- operation, the waiting for the store included, so an operation is one step; the store's answer and
-- the clocks are arguments.
pub mod Postgres
pub mod Runs
mod Moved
pub mod Lossless
pub mod Stop
pub mod Influx
pub mod Points
pub mod RingCache
pub mod MetricsCache
pub mod Cached

-- How the insertion of a batch ends: it returns, it raises an `Exception`, or the task is cancelled
-- while it waits, and `CancelledError` is no `Exception`.
pub data Reply : Type 0 where
  inserted : Reply
  failed : Reply
  cancelled : Reply

-- `time.perf_counter()` before and after a batch, and `time.time()` after it.
pub record Times (W : Type 0) : Type 0 where
  pub start : W
  pub end : W
  pub now : W
