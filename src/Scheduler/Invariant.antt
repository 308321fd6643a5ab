-- ===== src/Scheduler/Invariant.antt =====
-- The queues stay within their bounds and no request is lost, over every run of the scheduler.
use predictive_consistent_ha.Prelude.{
  ℕ, true, false, some, [], ◌∷◌, ◌++◌, ◌+◌, ◌≤◌, ◌<◌, ◌≡◌, ◌⊎◌, sym, ap, arith, length,
  length-append, length-take, length-drop, drop, subst, inl, inr,
}
use predictive_consistent_ha.Scheduler.{
  QueuedRequest, QueueClass, light, medium, heavy, PerClass, get, put, class_of, Scheduler, init,
  enqueue, schedule_cycle, run_round, start, get_next_request, stop, total_depth,
}
use predictive_consistent_ha.Scheduler.Cycle.{schedule_cycle_lem}

-- A queue of `size` requests respects its bound; 0 is no bound.
abbrev pub Fits : ℕ → ℕ → Type 0
Fits maxsize size = (maxsize ≡ 0) ⊎ (size ≤ maxsize)

-- There is room for one more.
abbrev pub FitsStrictly : ℕ → ℕ → Type 0
FitsStrictly maxsize size = (maxsize ≡ 0) ⊎ (size < maxsize)

module _ {R : Type 0} where
  pub record IsValid (s : Scheduler R) : Type 0 where
    pub fits : (cls : QueueClass) → Fits (get cls s.max_depths) (length (get cls s.queues))
    pub counted : s.total_enqueued ≡ s.total_dequeued + total_depth s
    pub waiting : length s.output_queue ≤ s.total_dequeued

  -- The empty scheduler is valid.
  pub init-IsValid : (depths weights : PerClass ℕ) → IsValid (init depths weights)
  unfolding init total_depth
  init-IsValid depths weights = record {
    fits = fits_of depths;
    counted = omega arith;
    waiting = omega arith;
  }
    where
      fits_of :
          (d : PerClass ℕ) (cls : QueueClass)
          → Fits (get cls d) (length (get cls (init {R = R} d weights).queues))
      fits_of d light = inr (omega arith)
      fits_of d medium = inr (omega arith)
      fits_of d heavy = inr (omega arith)

  kept-Fits :
      (s : Scheduler R) (cls : QueueClass)
      → IsValid s
      → Fits (get cls s.max_depths) (length (drop (get cls s.weights) (get cls s.queues)))
  kept-Fits s cls v = omega (arith, v.fits cls, length-drop (get cls s.weights) (get cls s.queues))

  schedule_cycle-IsValid : (s : Scheduler R) → IsValid s → IsValid (schedule_cycle s)
  unfolding total_depth
  schedule_cycle-IsValid s v = rw schedule_cycle_lem (record {
    fits = elim [
      | light ↦ kept-Fits s light v
      | medium ↦ kept-Fits s medium v
      | heavy ↦ kept-Fits s heavy v
    ];
    counted = omega (arith, v.counted, length-take {0}, length-drop {0});
    waiting = omega (arith, v.waiting, length-append {0});
  })

  pub run_round-IsValid : (s : Scheduler R) → IsValid s → IsValid (run_round s)
  unfolding run_round
  run_round-IsValid s v = ground (arith, schedule_cycle-IsValid s v)

  -- `get_next_request` takes the oldest request of the output and changes nothing else.
  pub get_next_request_lem :
      (s s' : Scheduler R) (r : R)
      → get_next_request s ≡ some (r, s')
      → (s.output_queue ≡ r ∷ s'.output_queue) × (record s { output_queue = s'.output_queue } ≡ s')
  unfolding get_next_request
  get_next_request_lem s s' r e = ground arith

  pub get_next_request-IsValid :
      (s s' : Scheduler R) (r : R) → IsValid s → get_next_request s ≡ some (r, s') → IsValid s'
  unfolding total_depth
  get_next_request-IsValid s s' r v e =
      let (split, same) = get_next_request_lem s s' r e in
      subst IsValid same (record {
        fits = v.fits;
        counted = v.counted;
        waiting = omega (arith, v.waiting, ap length split);
      })

module _ {W P : Type 0} where
  pub enqueue_lem :
      (r : QueuedRequest W P) (s : Scheduler (QueuedRequest W P))
      → let cls = class_of r.request_class in
        let queue = get cls s.queues in
        (FitsStrictly (get cls s.max_depths) (length queue)
          × (enqueue r s ≡ (
            record s {
              queues = put cls (queue ++ r ∷ []) s.queues;
              total_enqueued = s.total_enqueued + 1;
            },
            true,
          )))
        ⊎ ((0 < get cls s.max_depths)
            × (get cls s.max_depths ≤ length queue)
            × (enqueue r s ≡ (record s { total_rejected = s.total_rejected + 1 }, false)))
  unfolding enqueue
  enqueue_lem r s = ground arith

  accepted-IsValid :
      (cls : QueueClass) (r : QueuedRequest W P) (s : Scheduler (QueuedRequest W P))
      → FitsStrictly (get cls s.max_depths) (length (get cls s.queues))
      → IsValid s
      → IsValid (record s {
        queues = put cls (get cls s.queues ++ r ∷ []) s.queues;
        total_enqueued = s.total_enqueued + 1;
      })
  unfolding total_depth
  accepted-IsValid light r s room v = record {
    fits = elim [
      | light ↦ omega (arith, room, length-append s.queues.of_light (r ∷ []))
      | medium ↦ v.fits medium
      | heavy ↦ v.fits heavy
    ];
    counted = omega (arith, v.counted, length-append s.queues.of_light (r ∷ []));
    waiting = v.waiting;
  }
  accepted-IsValid medium r s room v = record {
    fits = elim [
      | light ↦ v.fits light
      | medium ↦ omega (arith, room, length-append s.queues.of_medium (r ∷ []))
      | heavy ↦ v.fits heavy
    ];
    counted = omega (arith, v.counted, length-append s.queues.of_medium (r ∷ []));
    waiting = v.waiting;
  }
  accepted-IsValid heavy r s room v = record {
    fits = elim [
      | light ↦ v.fits light
      | medium ↦ v.fits medium
      | heavy ↦ omega (arith, room, length-append s.queues.of_heavy (r ∷ []))
    ];
    counted = omega (arith, v.counted, length-append s.queues.of_heavy (r ∷ []));
    waiting = v.waiting;
  }

  pub enqueue-IsValid :
      (r : QueuedRequest W P) (s : Scheduler (QueuedRequest W P))
      → IsValid s
      → IsValid (enqueue r s).0
  unfolding total_depth
  enqueue-IsValid r s v = elim (enqueue_lem r s) [
    | inl (room, e) ↦
        subst (λ u. IsValid u.0) (sym e) (accepted-IsValid (class_of r.request_class) r s room v)
    | inr (_, _, e) ↦
        subst (λ u. IsValid u.0) (sym e)
          (record { fits = v.fits; counted = v.counted; waiting = v.waiting })
  ]

  -- What the node's tasks do with the scheduler, in any order.
  pub data Step (s : Scheduler (QueuedRequest W P)) : Scheduler (QueuedRequest W P) → Type 0 where
    arrive : (r : QueuedRequest W P) → Step s (enqueue r s).0
    begin : Step s (start s)
    cycle : s.running ≡ true → Step s (run_round s)
    hand_out :
        (r : QueuedRequest W P) (s' : Scheduler (QueuedRequest W P))
        → get_next_request s ≡ some (r, s')
        → Step s s'
    halt : Step s (stop s)

  pub data Reach (s : Scheduler (QueuedRequest W P)) : Scheduler (QueuedRequest W P) → Type 0 where
    here : Reach s s
    next : {t u : Scheduler (QueuedRequest W P)} → Reach s t → Step t u → Reach s u

  start-IsValid : (s : Scheduler (QueuedRequest W P)) → IsValid s → IsValid (start s)
  unfolding start total_depth
  start-IsValid s v = record { fits = v.fits; counted = v.counted; waiting = v.waiting }

  stop-IsValid : (s : Scheduler (QueuedRequest W P)) → IsValid s → IsValid (stop s)
  unfolding stop total_depth
  stop-IsValid s v = record { fits = v.fits; counted = v.counted; waiting = v.waiting }

  Step-IsValid : {s t : Scheduler (QueuedRequest W P)} → Step s t → IsValid s → IsValid t
  Step-IsValid {s} (arrive r) v = enqueue-IsValid r s v
  Step-IsValid {s} begin v = start-IsValid s v
  Step-IsValid {s} (cycle on) v = run_round-IsValid s v
  Step-IsValid {s} (hand_out r s' e) v = get_next_request-IsValid s s' r v e
  Step-IsValid {s} halt v = stop-IsValid s v

  Reach-keeps : {s t : Scheduler (QueuedRequest W P)} → IsValid s → Reach s t → IsValid t
  Reach-keeps v here = v
  Reach-keeps v (next r st) = Step-IsValid st (Reach-keeps v r)

  -- However arrivals, start and stop, scheduling rounds and hand-overs interleave, each class queue respects its
  -- bound, every accepted request is either still queued or counted as dequeued, and the output
  -- holds no more than was dequeued.
  pub Reach-IsValid :
      (depths weights : PerClass ℕ) (s : Scheduler (QueuedRequest W P))
      → Reach (init depths weights) s
      → IsValid s
  Reach-IsValid depths weights s r = Reach-keeps (init-IsValid depths weights) r
