-- ===== src/Scheduler/Progress.antt =====
-- No class starves: with positive weights a round with work shortens the queues, and enough rounds
-- drain them all.
use predictive_consistent_ha.Prelude.{
  ℕ, zero, suc, ◌+◌, ◌≤◌, ◌<◌, ◌≡◌, refl, ap, arith, length, length-append, length-take,
  length-drop, nat_eq,
}
use native.Mathlib.Decide.{dec_lt}
use predictive_consistent_ha.Scheduler.{Scheduler, schedule_cycle, has_work, run_round, total_depth}
use predictive_consistent_ha.Scheduler.Cycle.{schedule_cycle_lem}

module _ {R : Type 0} where
  -- Every class is served.
  pub record Serves (s : Scheduler R) : Type 0 where
    pub light_pos : 0 < s.weights.of_light
    pub medium_pos : 0 < s.weights.of_medium
    pub heavy_pos : 0 < s.weights.of_heavy

  -- `n` rounds of the loop of `run`.
  pub rounds : ℕ → Scheduler R → Scheduler R
  rounds zero s = s
  rounds (suc n) s = rounds n (run_round s)

  schedule_cycle-Serves : (s : Scheduler R) → Serves s → Serves (schedule_cycle s)
  schedule_cycle-Serves s w =
      rw schedule_cycle_lem
        (record { light_pos = w.light_pos; medium_pos = w.medium_pos; heavy_pos = w.heavy_pos })

  run_round-Serves : (s : Scheduler R) → Serves s → Serves (run_round s)
  unfolding run_round
  run_round-Serves s w = ground (arith, schedule_cycle-Serves s w)

  schedule_cycle-shortens :
      (s : Scheduler R)
      → Serves s
      → 0 < total_depth s
      → total_depth (schedule_cycle s) < total_depth s
  unfolding total_depth
  schedule_cycle-shortens s w h =
      rw schedule_cycle_lem (omega (arith, w.light_pos, w.medium_pos, w.heavy_pos, length-drop {0}))

  -- A round with work makes the queues shorter, and nothing happens without work.
  pub run_round-shortens :
      (s : Scheduler R) → Serves s → 0 < total_depth s → total_depth (run_round s) < total_depth s
  unfolding run_round has_work
  run_round-shortens s w h =
      let open_depth = total_depth_lem s in ground (arith, schedule_cycle-shortens s w h)
    where
      total_depth_lem :
          (s : Scheduler R)
          → total_depth s
            ≡ length s.queues.of_light + length s.queues.of_medium + length s.queues.of_heavy
      total_depth_lem s = unfold total_depth in refl

  run_round-idle : (s : Scheduler R) → total_depth s ≡ 0 → run_round s ≡ s
  unfolding run_round has_work total_depth
  run_round-idle s h = ground arith

  schedule_cycle-conserves :
      (s : Scheduler R)
      → length (schedule_cycle s).output_queue + total_depth (schedule_cycle s)
        ≡ length s.output_queue + total_depth s
  unfolding total_depth
  schedule_cycle-conserves s =
      rw schedule_cycle_lem (omega (arith, length-append {0}, length-take {0}, length-drop {0}))

  run_round-conserves :
      (s : Scheduler R)
      → length (run_round s).output_queue + total_depth (run_round s)
        ≡ length s.output_queue + total_depth s
  unfolding run_round
  run_round-conserves s = ground (arith, schedule_cycle-conserves s)

  run_round-le :
      (n : ℕ) (s : Scheduler R) → Serves s → total_depth s ≤ suc n → total_depth (run_round s) ≤ n
  run_round-le n s w h = elim (dec_lt 0 (total_depth s)) [
    | yes some_work ↦ omega (arith, run_round-shortens s w some_work)
    | no idle ↦ omega (arith, ap total_depth (run_round-idle s (omega arith)))
  ]

  -- With positive weights, after as many rounds as there are queued requests all class queues are
  -- empty, and the output has gained just those requests' number.
  pub rounds-drain :
      (n : ℕ) (s : Scheduler R)
      → Serves s
      → total_depth s ≤ n
      → (total_depth (rounds n s) ≡ 0)
        × (length (rounds n s).output_queue ≡ length s.output_queue + total_depth s)
  unfolding rounds
  rounds-drain zero s w h = omega arith
  rounds-drain (suc n) s w h =
      let (empty, gained) =
        rounds-drain n (run_round s) (run_round-Serves s w) (run_round-le n s w h) in
      (empty, omega (arith, gained, run_round-conserves s))
