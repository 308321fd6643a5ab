-- ===== src/Scheduler.antt =====
-- node/scheduler.py: weighted fair queuing over three class queues.
-- Each coroutine is a function on the scheduler's state: none of them gives up control between its
-- reads and writes, since a queue that is not full takes an item at once and the output queue has no
-- bound. The clock and the log are left out.
pub mod Cycle
pub mod Invariant
pub mod Progress
use predictive_consistent_ha.Prelude.{
  ℕ, zero, suc, String, Bool, true, false, not, ◌||◌, Option, none, some, List, [], ◌∷◌, ◌++◌, ◌+◌,
  leb, ◌==◌, nat_eq, string_eq, if◌then◌else◌, length,
}

pub record QueuedRequest (W P : Type 0) : Type 0 where
  pub request_id : String
  pub request_class : String
  pub enqueued_at : W
  pub payload : P

-- The keys "Light", "Medium" and "Heavy" of the scheduler's dicts.
pub data QueueClass : Type 0 where
  light medium heavy : QueueClass

-- A dict with these three keys.
pub record PerClass (A : Type 0) : Type 0 where
  pub of_light : A
  pub of_medium : A
  pub of_heavy : A

module _ {A : Type 0} where
  abbrev pub get : QueueClass → PerClass A → A
  get light d = d.of_light
  get medium d = d.of_medium
  get heavy d = d.of_heavy

  abbrev pub put : QueueClass → A → PerClass A → PerClass A
  put light a d = record d { of_light = a }
  put medium a d = record d { of_medium = a }
  put heavy a d = record d { of_heavy = a }

-- A class that is not a key falls back to "Medium".
unfoldable pub class_of : String → QueueClass
class_of cls = if cls == "Light" then light else if cls == "Heavy" then heavy else medium

-- `asyncio.Queue.full`: a queue with `maxsize` 0 is never full
unfoldable pub full : ℕ → ℕ → Bool
full maxsize size = if maxsize == 0 then false else leb maxsize size

-- What `get_stats` returns.
pub record Stats : Type 0 where
  pub total_enqueued : ℕ
  pub total_dequeued : ℕ
  pub total_rejected : ℕ
  pub queue_depths : PerClass ℕ
  pub total_depth : ℕ

pub record Scheduler (R : Type 0) : Type 0 where
  pub max_depths : PerClass ℕ
  pub weights : PerClass ℕ
  pub queues : PerClass (List R)
  pub output_queue : List R
  pub total_enqueued : ℕ
  pub total_rejected : ℕ
  pub total_dequeued : ℕ
  pub running : Bool

module _ {W P : Type 0} where
  -- `enqueue`, and whether the request was taken
  unfoldable pub enqueue :
      QueuedRequest W P → Scheduler (QueuedRequest W P) → Scheduler (QueuedRequest W P) × Bool
  unfolding class_of full
  enqueue request s =
      let cls = class_of request.request_class in
      let queue = get cls s.queues in
      if full (get cls s.max_depths) (length queue)
      then (record s { total_rejected = s.total_rejected + 1 }, false)
      else (
        record s {
          queues = put cls (queue ++ request ∷ []) s.queues;
          total_enqueued = s.total_enqueued + 1;
        },
        true,
      )

module _ {R : Type 0} where
  -- `__init__`
  unfoldable pub init : PerClass ℕ → PerClass ℕ → Scheduler R
  init max_depths weights = record {
    max_depths = max_depths;
    weights = weights;
    queues = record { of_light = []; of_medium = []; of_heavy = [] };
    output_queue = [];
    total_enqueued = 0;
    total_rejected = 0;
    total_dequeued = 0;
    running = false;
  }

  -- `for _ in range(weight)` of one class
  serve_one : QueueClass → List R → (Scheduler R → Scheduler R) → Scheduler R → Scheduler R
  serve_one cls [] rest s = s
  serve_one cls (request ∷ queue) rest s = rest (record s {
    queues = put cls queue s.queues;
    output_queue = s.output_queue ++ request ∷ [];
    total_dequeued = s.total_dequeued + 1;
  })

  unfoldable pub serve : QueueClass → ℕ → Scheduler R → Scheduler R
  unfolding serve_one
  serve cls zero s = s
  serve cls (suc rounds) s = serve_one cls (get cls s.queues) (serve cls rounds) s

  serve_class : QueueClass → Scheduler R → Scheduler R
  unfolding serve
  serve_class cls s = serve cls (get cls s.weights) s

  unfoldable pub schedule_cycle : Scheduler R → Scheduler R
  unfolding serve_class
  schedule_cycle s = serve_class heavy (serve_class medium (serve_class light s))

  unfoldable pub has_work : Scheduler R → Bool
  has_work s =
      not (length s.queues.of_light == 0)
      || not (length s.queues.of_medium == 0)
      || not (length s.queues.of_heavy == 0)

  -- `run` before its loop
  unfoldable pub start : Scheduler R → Scheduler R
  start s = record s { running = true }

  -- The body of the loop of `run`; without work it sleeps.
  unfoldable pub run_round : Scheduler R → Scheduler R
  unfolding has_work schedule_cycle
  run_round s = if has_work s then schedule_cycle s else s

  -- `get_next_request` takes the oldest request of the output queue, and waits if there is none.
  next_of : List R → Scheduler R → Option (R × Scheduler R)
  next_of [] s = none
  next_of (r ∷ rest) s = some (r, record s { output_queue = rest })

  unfoldable pub get_next_request : Scheduler R → Option (R × Scheduler R)
  unfolding next_of
  get_next_request s = next_of s.output_queue s

  unfoldable pub stop : Scheduler R → Scheduler R
  stop s = record s { running = false }

  unfoldable pub get_queue_depths : Scheduler R → PerClass ℕ
  get_queue_depths s = record {
    of_light = length s.queues.of_light;
    of_medium = length s.queues.of_medium;
    of_heavy = length s.queues.of_heavy;
  }

  unfoldable pub total_depth : Scheduler R → ℕ
  total_depth s = length s.queues.of_light + length s.queues.of_medium + length s.queues.of_heavy

  unfoldable pub get_stats : Scheduler R → Stats
  unfolding get_queue_depths total_depth
  get_stats s = record {
    total_enqueued = s.total_enqueued;
    total_dequeued = s.total_dequeued;
    total_rejected = s.total_rejected;
    queue_depths = get_queue_depths s;
    total_depth = total_depth s;
  }
