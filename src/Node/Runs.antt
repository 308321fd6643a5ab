-- ===== src/Node/Runs.antt =====
-- A node at work: requests arrive, are scheduled, executed and completed in any order.
use predictive_consistent_ha.Prelude.{
  ℕ, String, some, List, [], ◌∷◌, ◌+◌, ◌++◌, ◌≡◌, inl, inr, refl, sym, ap, ◌∙◌, subst, arith,
  length, length-append, Bool-cases,
}
use predictive_consistent_ha.Prelude.Dict.{Dict}
use predictive_consistent_ha.Prelude.Float.{Float}
use predictive_consistent_ha.Scheduler.{
  QueuedRequest, PerClass, Scheduler, enqueue, run_round, schedule_cycle, get_next_request,
  total_depth,
}
use predictive_consistent_ha.Scheduler
use predictive_consistent_ha.Scheduler.Cycle.{schedule_cycle_lem}
use predictive_consistent_ha.Scheduler.Invariant.{
  IsValid, init-IsValid, enqueue_lem, enqueue-IsValid, run_round-IsValid, get_next_request-IsValid,
  get_next_request_lem,
}
use predictive_consistent_ha.Executor.{
  Executor, Task, ExecutionResult, begin_request, finish_request, fail_request,
}
use predictive_consistent_ha.Executor
use predictive_consistent_ha.Node.{
  Node, Gauges, RequestData, queued_of, note_route, copy_depths, route_request, update_metrics,
  update_prometheus_metrics, on_request_completed, init,
}

module _ {R : Type 0} where
  -- A round moves requests to the output and counts them, and changes no other count.
  record Moved (s t : Scheduler R) : Type 0 where
    moved : t.total_dequeued + length s.output_queue ≡ s.total_dequeued + length t.output_queue
    enqueued : t.total_enqueued ≡ s.total_enqueued
    rejected : t.total_rejected ≡ s.total_rejected

  schedule_cycle-Moved : (s : Scheduler R) → Moved s (schedule_cycle s)
  schedule_cycle-Moved s =
      rw schedule_cycle_lem
        (record { moved = omega (arith, length-append {0}); enqueued = refl; rejected = refl })

  run_round-Moved : (s : Scheduler R) → Moved s (run_round s)
  unfolding run_round
  run_round-Moved s = elim (Bool-cases (Scheduler.has_work s)) [
    | inl h ↦ rw h (schedule_cycle-Moved s)
    | inr h ↦ rw h (record { moved = refl; enqueued = refl; rejected = refl })
  ]

-- The node with its sleeping tasks, and the number of the requests that reached it.
pub record World (W : Type 0) : Type 0 where
  pub node : Node W
  pub tasks : List (Task W RequestData)
  pub arrivals : ℕ

module _ {W : Type 0} ⦃f : Float W⦄ where
  -- A task that ends calls back with its result.
  abbrev pub ended_node : W → Executor W × ExecutionResult W → Node W → Node W
  ended_node later (executor, result) n =
      on_request_completed later result (record n { executor = executor })

module _ {W : Type 0} ⦃f : Float W⦄ (uniform : W → W → W) where
  pub data Step (w : World W) : World W → Type 0 where
    route :
        (now : W) (request : RequestData)
        → Step w
            (record w { node = (route_request now request w.node).0; arrivals = w.arrivals + 1 })
    schedule : Step w (record w { node = record w.node { scheduler = run_round w.node.scheduler } })
    begin :
        (now : W) (r : QueuedRequest W RequestData) (s : Scheduler (QueuedRequest W RequestData))
        → get_next_request w.node.scheduler ≡ some (r, s)
        → Step w (record w {
          node = record w.node {
            scheduler = s;
            executor = (begin_request uniform now r w.node.executor).0;
          };
          tasks = (begin_request uniform now r w.node.executor).1 ∷ w.tasks;
        })
    finish :
        (now later : W) (t : Task W RequestData) (before after : List (Task W RequestData))
        → w.tasks ≡ before ++ t ∷ after
        → Step w (record w {
          node = ended_node later (finish_request now t w.node.executor) w.node;
          tasks = before ++ after;
        })
    fail :
        (now later : W) (error : String) (t : Task W RequestData)
        (before after : List (Task W RequestData))
        → w.tasks ≡ before ++ t ∷ after
        → Step w (record w {
          node = ended_node later (fail_request now error t w.node.executor) w.node;
          tasks = before ++ after;
        })
    tick : (now later : W) → Step w (record w { node = update_metrics now later w.node })

  pub data Reach (u : World W) : World W → Type 0 where
    here : Reach u u
    next : {v w : World W} → Reach u v → Step v w → Reach u w

module _ {W : Type 0} ⦃f : Float W⦄ where
  -- A node that starts with these gauges.
  abbrev pub new_world :
      String → ℕ → ℕ → ℕ → W → PerClass ℕ → PerClass ℕ → Dict String (W × W) → Gauges W → World W
  new_world name capacity cores memory now depths weights times gauges = record {
    node = record {
      state = init name capacity cores memory now;
      scheduler = Scheduler.init depths weights;
      executor = Executor.init name times;
      recent_completions = [];
      gauges = gauges;
      requests_processed = [];
      requests_rejected = 0;
    };
    tasks = [];
    arrivals = 0;
  }

-- Each request is in one place, and the counts agree on it.
pub record IsConserved {W : Type 0} (w : World W) : Type 0 where
  pub valid : IsValid w.node.scheduler
  pub arrived : w.node.scheduler.total_enqueued + w.node.scheduler.total_rejected ≡ w.arrivals
  pub handed :
      w.node.scheduler.total_dequeued
      ≡ length w.node.scheduler.output_queue
        + length w.tasks
        + (w.node.executor.total_executed + w.node.executor.total_failed)
  pub active : w.node.executor.active_count ≡ length w.tasks
  pub processed :
      w.node.state.total_processed ≡ w.node.executor.total_executed + w.node.executor.total_failed
  pub rejected : w.node.state.total_rejected ≡ w.node.scheduler.total_rejected
  pub exported : w.node.requests_rejected ≡ w.node.scheduler.total_rejected

module _ {W : Type 0} ⦃f : Float W⦄ (uniform : W → W → W) where
  route-IsConserved :
      (now : W) (request : RequestData) (w : World W)
      → IsConserved w
      → IsConserved
          (record w { node = (route_request now request w.node).0; arrivals = w.arrivals + 1 })
  unfolding route_request note_route copy_depths
  route-IsConserved now request w c =
      let r = queued_of now request in
      let s = w.node.scheduler in
      let v = enqueue-IsValid r s c.valid in
      elim (enqueue_lem r s) [
        | inl (room, e) ↦ rw e (record {
          valid = subst (λ p. IsValid p.0) e v;
          arrived = omega (arith, c.arrived);
          handed = c.handed;
          active = c.active;
          processed = c.processed;
          rejected = c.rejected;
          exported = c.exported;
        })
        | inr (bounded, full, e) ↦ rw e (record {
          valid = subst (λ p. IsValid p.0) e v;
          arrived = omega (arith, c.arrived);
          handed = c.handed;
          active = c.active;
          processed = c.processed;
          rejected = omega (arith, c.rejected);
          exported = omega (arith, c.exported);
        })
      ]

  schedule-IsConserved :
      (w : World W)
      → IsConserved w
      → IsConserved (record w { node = record w.node { scheduler = run_round w.node.scheduler } })
  schedule-IsConserved w c =
      let m = run_round-Moved w.node.scheduler in
      record {
        valid = run_round-IsValid w.node.scheduler c.valid;
        arrived = omega (arith, c.arrived, m.enqueued, m.rejected);
        handed = omega (arith, c.handed, m.moved);
        active = c.active;
        processed = c.processed;
        rejected = c.rejected ∙ sym m.rejected;
        exported = c.exported ∙ sym m.rejected;
      }

  ended :
      (t : Task W RequestData) (tasks before after : List (Task W RequestData))
      → tasks ≡ before ++ t ∷ after
      → length tasks ≡ length (before ++ after) + 1
  ended t tasks before after e =
      omega (arith, ap length e, length-append before (t ∷ after), length-append before after)

  Step-IsConserved : {u v : World W} → Step uniform u v → IsConserved u → IsConserved v
  unfolding begin_request finish_request fail_request on_request_completed update_metrics
      copy_depths update_prometheus_metrics
  Step-IsConserved {u} (route now request) c = route-IsConserved now request u c
  Step-IsConserved {u} schedule c = schedule-IsConserved u c
  Step-IsConserved {u} (begin now r s e) c =
      let (split, same) = get_next_request_lem u.node.scheduler s r e in
      record {
        valid = get_next_request-IsValid u.node.scheduler s r c.valid e;
        arrived =
            omega
              (arith, c.arrived, ap (λ z. z.total_enqueued) same, ap (λ z. z.total_rejected) same);
        handed = omega (arith, c.handed, ap (λ z. z.total_dequeued) same, ap length split);
        active = omega (arith, c.active);
        processed = c.processed;
        rejected = c.rejected ∙ ap (λ z. z.total_rejected) same;
        exported = c.exported ∙ ap (λ z. z.total_rejected) same;
      }
  Step-IsConserved {u} (finish now later t before after e) c =
      let k = ended t u.tasks before after e in
      record {
        valid = c.valid;
        arrived = c.arrived;
        handed = omega (arith, c.handed, k);
        active = omega (arith, c.active, k);
        processed = omega (arith, c.processed);
        rejected = c.rejected;
        exported = c.exported;
      }
  Step-IsConserved {u} (fail now later error t before after e) c =
      let k = ended t u.tasks before after e in
      record {
        valid = c.valid;
        arrived = c.arrived;
        handed = omega (arith, c.handed, k);
        active = omega (arith, c.active, k);
        processed = omega (arith, c.processed);
        rejected = c.rejected;
        exported = c.exported;
      }
  Step-IsConserved {u} (tick now later) c = record {
    valid = c.valid;
    arrived = c.arrived;
    handed = c.handed;
    active = c.active;
    processed = c.processed;
    rejected = c.rejected;
    exported = c.exported;
  }

  Reach-keeps : {u v : World W} → IsConserved u → Reach uniform u v → IsConserved v
  Reach-keeps c here = c
  Reach-keeps c (next r s) = Step-IsConserved s (Reach-keeps c r)

  pub Reach-IsConserved :
      (name : String) (capacity cores memory : ℕ) (t0 : W) (depths weights : PerClass ℕ)
      (times : Dict String (W × W)) (gauges : Gauges W) (w : World W)
      → Reach uniform (new_world name capacity cores memory t0 depths weights times gauges) w
      → IsConserved w
        × (w.arrivals
            ≡ w.node.state.total_rejected
              + total_depth w.node.scheduler
              + length w.node.scheduler.output_queue
              + w.node.executor.active_count
              + w.node.state.total_processed)
  unfolding init Scheduler.init Executor.init
  Reach-IsConserved name capacity cores memory t0 depths weights times gauges w r =
      let c =
        Reach-keeps
          (record {
            valid = init-IsValid depths weights;
            arrived = refl;
            handed = refl;
            active = refl;
            processed = refl;
            rejected = refl;
            exported = refl;
          })
          r in
      (c, omega (arith, c.arrived, c.handed, c.active, c.processed, c.rejected, c.valid.counted))
