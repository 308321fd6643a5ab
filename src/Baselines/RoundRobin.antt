-- ===== src/Baselines/RoundRobin.antt =====
-- coordinator/routing/baselines.py, `RoundRobinBalancer`, and its turns.
use predictive_consistent_ha.Prelude.{
  ℕ, zero, suc, String, Bool, true, false, Option, none, some, List, [], ◌∷◌, ◌+◌, ◌%◌, ◌<◌, ◌≡◌,
  sym, ap, ◌∙◌, arith, length, get_elem?, if◌then◌else◌, ◌==◌, string_eq,
}
use predictive_consistent_ha.Prelude.Dict.{Dict, lookup, insert, erase}
use predictive_consistent_ha.Prelude.Float.{Float, of_nat}
use predictive_consistent_ha.Allocation.{Metrics}
use predictive_consistent_ha.Ring.Candidates.{turn}
use native.Mathlib.Nat.{mod-lt, mod-add-mod}

pub record RoundRobin (W : Type 0) : Type 0 where
  pub nodes : List String
  pub counter : ℕ
  pub node_metrics : Dict String (Metrics W)

-- `list.remove` of an item that is there
unfoldable pub remove_first : String → List String → List String
remove_first x [] = []
remove_first x (y ∷ ys) = if y == x then ys else y ∷ remove_first x ys

module _ {W : Type 0} where
  unfoldable pub init : List String → RoundRobin W
  init node_names = record { nodes = node_names; counter = 0; node_metrics = [] }

  unfoldable pub update_node_metrics : String → Metrics W → W → RoundRobin W → RoundRobin W
  update_node_metrics node_name metrics now b = record b {
    node_metrics = insert node_name (record metrics { updated_at = some now }) b.node_metrics;
  }

  get_node_metrics : String → RoundRobin W → Option (Metrics W)
  get_node_metrics node_name b = lookup node_name b.node_metrics

  get_all_metrics : RoundRobin W → Dict String (Metrics W)
  get_all_metrics b = b.node_metrics

  -- `if node_name in self._nodes` is not needed: removing a name that is not there changes nothing.
  remove_node : String → RoundRobin W → RoundRobin W
  unfolding remove_first
  remove_node node_name b = record b {
    nodes = remove_first node_name b.nodes;
    node_metrics = erase node_name b.node_metrics;
  }

module _ {W : Type 0} ⦃f : Float W⦄ where
  select_from : List String → RoundRobin W → (Option String × W × Bool) × RoundRobin W
  select_from [] b = ((none, of_nat 1, true), b)
  select_from (n ∷ ns) b = (
    (get_elem? (n ∷ ns) (b.counter % length (n ∷ ns)), f.ratio 1 2, false),
    record b { counter = b.counter + 1 },
  )

  -- `select_node`, which ignores its arguments
  unfoldable pub select_node : RoundRobin W → (Option String × W × Bool) × RoundRobin W
  unfolding select_from
  select_node b = select_from b.nodes b

  compute_score : String → W → RoundRobin W → W
  compute_score node_name predicted_load b = f.ratio 1 2

  uniform_scores : List String → Dict String W → Dict String W
  uniform_scores [] scores = scores
  uniform_scores (n ∷ ns) scores = uniform_scores ns (insert n (f.ratio 1 2) scores)

  get_all_scores : RoundRobin W → Dict String W
  unfolding uniform_scores
  get_all_scores b = uniform_scores b.nodes []

  -- The balancer after `i` requests.
  pub after : ℕ → RoundRobin W → RoundRobin W
  after zero b = b
  after (suc i) b = after i (select_node b).1

  select_node-counter :
      (n : String) (ns : List String) (b : RoundRobin W)
      → b.nodes ≡ n ∷ ns
      → ((select_node b).1.nodes ≡ n ∷ ns) × ((select_node b).1.counter ≡ b.counter + 1)
  unfolding select_node
  select_node-counter n ns b e = ground arith

  after-counter :
      (i : ℕ) (n : String) (ns : List String) (b : RoundRobin W)
      → b.nodes ≡ n ∷ ns
      → ((after i b).nodes ≡ n ∷ ns) × ((after i b).counter ≡ b.counter + i)
  unfolding after
  after-counter zero n ns b e = (e, omega arith)
  after-counter (suc i) n ns b e =
      let (same, counted) = select_node-counter n ns b e in
      let (kept, total) = after-counter i n ns (select_node b).1 same in
      (kept, omega (arith, total, counted))

  select_node-pick :
      (n : String) (ns : List String) (b : RoundRobin W)
      → b.nodes ≡ n ∷ ns
      → (select_node b).0.0 ≡ get_elem? (n ∷ ns) (b.counter % suc (length ns))
  unfolding select_node
  select_node-pick n ns b e = ap (λ l. (select_from l b).0.0) e

  -- Within as many requests as there are nodes, each place of the list of nodes is picked.
  pub select_node-turns :
      (k : ℕ) (n : String) (ns : List String) (b : RoundRobin W)
      → b.nodes ≡ n ∷ ns
      → k < length (n ∷ ns)
      → (i : ℕ) × (i < length (n ∷ ns)) × ((select_node (after i b)).0.0 ≡ get_elem? (n ∷ ns) k)
  select_node-turns k n ns b e lt =
      let total = suc (length ns) in
      let (i, early, met) =
        turn (b.counter % total) k total (omega (arith, mod-lt b.counter {m = total} (omega arith)))
          lt in
      let (same, counted) = after-counter i n ns b e in
      (
        i,
        early,
        select_node-pick n ns (after i b) same
            ∙ ap (λ c. get_elem? (n ∷ ns) (c % total)) counted
            ∙ ap (get_elem? (n ∷ ns)) (sym (mod-add-mod b.counter total i) ∙ met),
      )
