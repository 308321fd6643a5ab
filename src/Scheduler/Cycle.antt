-- ===== src/Scheduler/Cycle.antt =====
-- What one scheduling cycle does: from each class, in order, as many of the oldest requests as its
-- weight.
use predictive_consistent_ha.Prelude.{
  ℕ, zero, suc, List, [], ◌∷◌, ◌++◌, ◌+◌, ◌≡◌, sym, ap, ◌∙◌, arith, length, take, drop,
  append_assoc, append-nil,
}
use predictive_consistent_ha.Scheduler.{
  QueueClass, light, medium, heavy, put, Scheduler, serve, serve_class, schedule_cycle,
}

module _ {R : Type 0} where
  -- The state with another queue of one class, another output and another count.
  abbrev with_queue : QueueClass → Scheduler R → List R → List R → ℕ → Scheduler R
  with_queue cls s q out t = record s {
    queues = put cls q s.queues;
    output_queue = out;
    total_dequeued = t;
  }

  with_queue_eq :
      (cls : QueueClass) (s : Scheduler R) (q : List R) {out out' : List R} {t t' : ℕ}
      → out ≡ out'
      → t ≡ t'
      → with_queue cls s q out t ≡ with_queue cls s q out' t'
  with_queue_eq cls s q e h = λ i. with_queue cls s q (e i) (h i)

  serve_from :
      (cls : QueueClass) (n : ℕ) (q out : List R) (t : ℕ) (s : Scheduler R)
      → serve cls n (with_queue cls s q out t)
        ≡ with_queue cls s (drop n q) (out ++ take n q) (t + length (take n q))
  unfolding serve
  serve_from light zero q out t s = with_queue_eq light s q (sym (append-nil out)) (omega arith)
  serve_from light (suc n) [] out t s =
      with_queue_eq light s [] (sym (append-nil out)) (omega arith)
  serve_from light (suc n) (r ∷ q) out t s =
      serve_from light n q (out ++ r ∷ []) (t + 1) s
      ∙ with_queue_eq light s (drop n q) (append_assoc out (r ∷ []) (take n q)) (omega arith)
  serve_from medium zero q out t s = with_queue_eq medium s q (sym (append-nil out)) (omega arith)
  serve_from medium (suc n) [] out t s =
      with_queue_eq medium s [] (sym (append-nil out)) (omega arith)
  serve_from medium (suc n) (r ∷ q) out t s =
      serve_from medium n q (out ++ r ∷ []) (t + 1) s
      ∙ with_queue_eq medium s (drop n q) (append_assoc out (r ∷ []) (take n q)) (omega arith)
  serve_from heavy zero q out t s = with_queue_eq heavy s q (sym (append-nil out)) (omega arith)
  serve_from heavy (suc n) [] out t s =
      with_queue_eq heavy s [] (sym (append-nil out)) (omega arith)
  serve_from heavy (suc n) (r ∷ q) out t s =
      serve_from heavy n q (out ++ r ∷ []) (t + 1) s
      ∙ with_queue_eq heavy s (drop n q) (append_assoc out (r ∷ []) (take n q)) (omega arith)

  -- One cycle moves from the front of each class queue as many requests as its weight allows to the
  -- output, light ones first and each class in its order, counts them, and leaves the rest alone.
  pub schedule_cycle_lem :
      (s : Scheduler R)
      → schedule_cycle s ≡ record s {
        queues = record {
          of_light = drop s.weights.of_light s.queues.of_light;
          of_medium = drop s.weights.of_medium s.queues.of_medium;
          of_heavy = drop s.weights.of_heavy s.queues.of_heavy;
        };
        output_queue =
            ((s.output_queue ++ take s.weights.of_light s.queues.of_light)
              ++ take s.weights.of_medium s.queues.of_medium)
            ++ take s.weights.of_heavy s.queues.of_heavy;
        total_dequeued =
            s.total_dequeued
            + length (take s.weights.of_light s.queues.of_light)
            + length (take s.weights.of_medium s.queues.of_medium)
            + length (take s.weights.of_heavy s.queues.of_heavy);
      }
  unfolding schedule_cycle
  schedule_cycle_lem s =
      let l = s.queues.of_light in
      let m = s.queues.of_medium in
      let w = s.weights in
      let s1 =
        with_queue light s (drop w.of_light l) (s.output_queue ++ take w.of_light l)
          (s.total_dequeued + length (take w.of_light l)) in
      let s2 =
        with_queue medium s1 (drop w.of_medium m) (s1.output_queue ++ take w.of_medium m)
          (s1.total_dequeued + length (take w.of_medium m)) in
      ap (λ u. serve_class heavy (serve_class medium u))
        (serve_from light w.of_light l s.output_queue s.total_dequeued s)
      ∙ ap (serve_class heavy)
          (serve_from medium w.of_medium m s1.output_queue s1.total_dequeued s1)
      ∙ serve_from heavy w.of_heavy s.queues.of_heavy s2.output_queue s2.total_dequeued s2
