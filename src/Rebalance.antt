-- ===== src/Rebalance.antt =====
-- coordinator/routing/daa.py: the background task that resizes the nodes' shares of the ring.
-- The clock and the measured duration are arguments, the texts of the reasons are data. The
-- thresholds are taken as ones for which no division fails: above 0 and below 100.
pub mod Effects
mod Status
use predictive_consistent_ha.Prelude.{
  ℕ, String, Bool, true, false, Option, none, some, List, [], ◌∷◌, ◌++◌, ◌+◌, ◌-◌, ◌*◌, max, min,
  if◌then◌else◌, get_or_else, ◌==◌, ◌>>=◌, length, drop, nat_eq, string_eq,
}
use predictive_consistent_ha.Prelude.Dict.{Dict, keys, lookup}
use predictive_consistent_ha.Prelude.Float.{Float, of_nat, fmax}
use predictive_consistent_ha.Ring.{Hashing, Ring, update_node_vnodes}
use predictive_consistent_ha.Ring.Views.{nodes, get_node_vnode_count}
use predictive_consistent_ha.Allocation.{Metrics, Engine, get_node_metrics}

-- The parts of the field `reason`.
pub data Reason : Type 0 where
  cpu_low cpu_high queue_low queue_high burst_damping : Reason

pub record NodeAdjustment (W : Type 0) : Type 0 where
  pub node_name : String
  pub old_vnodes : ℕ
  pub new_vnodes : ℕ
  pub cpu_pct : W
  pub queue_depth_pct : W
  pub cpu_factor : W
  pub queue_factor : W
  pub burst_factor : W
  pub reason : List Reason

pub record RunRecord (W : Type 0) : Type 0 where
  pub timestamp : W
  pub run_id : ℕ
  pub duration_ms : W
  pub adjustments : List (NodeAdjustment W)
  pub total_vnodes_before : ℕ
  pub total_vnodes_after : ℕ
  pub burst_imminent : Bool
  pub triggered_by : String

pub record Allocator (W : Type 0) : Type 0 where
  pub cpu_increase_below : W
  pub cpu_decrease_above : W
  pub queue_increase_below : W
  pub queue_decrease_above : W
  pub burst_damping_factor : W
  pub vnode_base_count : ℕ
  pub vnode_min_count : ℕ
  pub running : Bool
  pub burst_imminent : Bool
  pub run_count : ℕ
  pub last_run_time : W
  pub last_run_duration_ms : W
  pub history : List (RunRecord W)
  pub pending_trigger : Option String

-- `deque.append` with `maxlen`
unfoldable pub append_bounded {ℓ} : {A : Type ℓ} → ℕ → List A → A → List A
append_bounded maxlen items item = drop (length items + 1 - maxlen) (items ++ item ∷ [])

-- The variables of the loop over the nodes.
pub record Cycle (W : Type 0) : Type 0 where
  pub ring : Ring W
  pub adjustments : List (NodeAdjustment W)
  pub total_before : ℕ
  pub total_after : ℕ

module _ {W : Type 0} where
  unfoldable pub set_burst_imminent : Bool → Allocator W → Allocator W
  set_burst_imminent imminent a = record a { burst_imminent = imminent }

  unfoldable pub trigger_immediate : String → Allocator W → Allocator W
  trigger_immediate reason a = record a { pending_trigger = some reason }

  unfoldable pub begin_loop : Allocator W → Allocator W
  begin_loop a = record a { running = true }

  unfoldable pub end_loop : Allocator W → Allocator W
  end_loop a = record a { running = false }

-- `self._pending_trigger or "interval"`
abbrev pub trigger_of : Option String → String
trigger_of none = "interval"
trigger_of (some reason) = if reason == "" then "interval" else reason

module _ {W : Type 0} ⦃f : Float W⦄ where
  -- `_cpu_factor`
  unfoldable pub cpu_factor : Allocator W → W → W
  cpu_factor a cpu_pct =
      let overshoot =
        f.div (f.sub cpu_pct a.cpu_decrease_above) (f.sub (of_nat 100) a.cpu_decrease_above) in
      if f.lt cpu_pct a.cpu_increase_below
      then f.add (of_nat 1)
          (f.mul (f.ratio 3 10) (f.sub (of_nat 1) (f.div cpu_pct a.cpu_increase_below)))
      else if f.lt a.cpu_decrease_above cpu_pct
      then fmax (f.ratio 1 2) (f.sub (of_nat 1) (f.mul (f.ratio 1 2) overshoot))
      else of_nat 1

  -- `_queue_factor`
  unfoldable pub queue_factor : Allocator W → W → W
  queue_factor a queue_pct =
      let overshoot =
        f.div (f.sub queue_pct a.queue_decrease_above)
          (fmax (f.sub (of_nat 100) a.queue_decrease_above) (of_nat 1)) in
      if f.lt queue_pct a.queue_increase_below
      then f.add (of_nat 1) (
          f.mul (f.ratio 2 10)
            (f.sub (of_nat 1) (f.div queue_pct (fmax a.queue_increase_below (of_nat 1)))))
      else if f.lt a.queue_decrease_above queue_pct
      then fmax (f.ratio 6 10) (f.sub (of_nat 1) (f.mul (f.ratio 4 10) overshoot))
      else of_nat 1

  -- `_get_base_vnodes`
  unfoldable pub get_base_vnodes : Allocator W → Ring W → String → ℕ
  unfolding nodes
  get_base_vnodes a r node_name =
      get_or_else (lookup node_name (nodes r) >>= λ info. some info.base_vnodes) a.vnode_base_count

  abbrev pub cpu_of : Metrics W → W
  cpu_of m = get_or_else m.cpu_pct (of_nat 50)

  abbrev pub queue_pct_of : Metrics W → W
  queue_pct_of m =
      f.mul (f.ratio (get_or_else m.queue_depth 0) (max (get_or_else m.queue_max 450) 1))
        (of_nat 100)

  abbrev pub burst_of : Allocator W → W
  burst_of a = if a.burst_imminent then a.burst_damping_factor else of_nat 1

  -- The number of virtual nodes that a node shall have.
  unfoldable pub target : Allocator W → ℕ → Metrics W → ℕ
  unfolding cpu_factor queue_factor
  target a base m =
      let raw =
        f.mul
          (f.mul (f.mul (of_nat base) (cpu_factor a (cpu_of m))) (queue_factor a (queue_pct_of m)))
          (burst_of a) in
      max a.vnode_min_count (min (f.nearest raw) (base * 2))

  abbrev reasons : Allocator W → W → W → List Reason
  reasons a cpu_pct queue_pct =
      (if f.lt cpu_pct a.cpu_increase_below
        then cpu_low ∷ []
        else if f.lt a.cpu_decrease_above cpu_pct
        then cpu_high ∷ []
        else [])
      ++ (if f.lt queue_pct a.queue_increase_below
          then queue_low ∷ []
          else if f.lt a.queue_decrease_above queue_pct
          then queue_high ∷ []
          else [])
      ++ (if a.burst_imminent then burst_damping ∷ [] else [])

  adjustment : Allocator W → String → ℕ → ℕ → Metrics W → NodeAdjustment W
  unfolding cpu_factor queue_factor
  adjustment a name old_vnodes new_vnodes m = record {
    node_name = name;
    old_vnodes = old_vnodes;
    new_vnodes = new_vnodes;
    cpu_pct = f.rounded 1 (cpu_of m);
    queue_depth_pct = f.rounded 1 (queue_pct_of m);
    cpu_factor = f.rounded 3 (cpu_factor a (cpu_of m));
    queue_factor = f.rounded 3 (queue_factor a (queue_pct_of m));
    burst_factor = f.rounded 2 (burst_of a);
    reason = reasons a (cpu_of m) (queue_pct_of m);
  }

  -- One round of the loop: `none` if a collision loop ran out of fuel.
  unfoldable pub adjust_node :
      Hashing → Allocator W → Engine W → W → String → Cycle W → Option (Cycle W)
  unfolding target get_base_vnodes get_node_vnode_count get_node_metrics adjustment
  adjust_node h a e now name c =
      let m = get_node_metrics name e in
      let old_vnodes = get_node_vnode_count name c.ring in
      let new_vnodes = target a (get_base_vnodes a c.ring name) m in
      (if new_vnodes == old_vnodes
        then some c.ring
        else update_node_vnodes h name new_vnodes now c.ring)
      >>= λ ring. some (record {
        ring = ring;
        adjustments = c.adjustments ++ adjustment a name old_vnodes new_vnodes m ∷ [];
        total_before = c.total_before + old_vnodes;
        total_after = c.total_after + new_vnodes;
      })

  unfoldable pub adjust_nodes :
      Hashing → Allocator W → Engine W → W → List String → Cycle W → Option (Cycle W)
  unfolding adjust_node
  adjust_nodes h a e now [] c = some c
  adjust_nodes h a e now (name ∷ rest) c =
      adjust_node h a e now name c >>= λ c'. adjust_nodes h a e now rest c'

  -- `_recalculate` after the loop
  unfoldable pub note_run : W → W → String → Allocator W → Cycle W → Allocator W
  unfolding append_bounded
  note_run now duration_ms triggered_by a c = record a {
    last_run_time = now;
    last_run_duration_ms = duration_ms;
    history = append_bounded 20 a.history (record {
      timestamp = now;
      run_id = a.run_count;
      duration_ms = f.rounded 2 duration_ms;
      adjustments = c.adjustments;
      total_vnodes_before = c.total_before;
      total_vnodes_after = c.total_after;
      burst_imminent = a.burst_imminent;
      triggered_by = triggered_by;
    });
  }

  abbrev pub start_cycle : Ring W → Cycle W
  start_cycle r = record { ring = r; adjustments = []; total_before = 0; total_after = 0 }

  -- `_recalculate` after its count went up
  unfoldable pub recalculate_nodes :
      Hashing
      → Engine W
      → String
      → W
      → W
      → List String
      → Ring W
      → Allocator W
      → Option (Ring W × Allocator W)
  unfolding adjust_nodes note_run
  recalculate_nodes h e triggered_by now duration_ms [] r a = some (r, a)
  recalculate_nodes h e triggered_by now duration_ms (name ∷ names) r a =
      adjust_nodes h a e now (name ∷ names) (start_cycle r) >>= λ c.
      some (c.ring, note_run now duration_ms triggered_by a c)

  unfoldable pub recalculate :
      Hashing → Engine W → String → W → W → Ring W → Allocator W → Option (Ring W × Allocator W)
  unfolding recalculate_nodes nodes
  recalculate h e triggered_by now duration_ms r a =
      recalculate_nodes h e triggered_by now duration_ms (keys (nodes r)) r
        (record a { run_count = a.run_count + 1 })

  -- The body of `_run_loop`.
  unfoldable pub run_once :
      Hashing → Engine W → W → W → Ring W → Allocator W → Option (Ring W × Allocator W)
  unfolding recalculate
  run_once h e now duration_ms r a =
      recalculate h e (trigger_of a.pending_trigger) now duration_ms r
        (record a { pending_trigger = none })
