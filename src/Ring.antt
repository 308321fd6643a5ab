-- ===== src/Ring.antt =====
-- coordinator/routing/hash_ring.py: the consistent hash ring with virtual nodes.
-- The class is a record and each method a function that returns the new record. `mmh3` and `md5` are
-- parameters, the clock is an argument, log lines are left out, and a loop that need not end takes
-- fuel.
pub mod Positions
pub mod Index
pub mod Validity
pub mod Successor
pub mod Lookup
pub mod Consistency
pub mod Walk
pub mod Candidates
pub mod Shares
pub mod Termination
pub mod Views
use predictive_consistent_ha.Prelude.{
  ℕ, zero, suc, String, Bool, true, false, not, ◌&&◌, ◌||◌, Option, none, some, List, [], ◌∷◌, ◌++◌,
  ◌+◌, ◌-◌, ◌%◌, ◌≤◌, max, ltb, leb, if◌then◌else◌, get_or_else, ◌==◌, elem, length, get_elem?,
  take, drop, ◌>>=◌, nat_eq, string_eq,
}
use predictive_consistent_ha.Prelude.Dict.{Dict, keys, values, lookup, insert, erase, contains}
use predictive_consistent_ha.Prelude.Text.{str}
use predictive_consistent_ha.Prelude.Float.{Float, le, of_nat}
use Prim.Native.String.{◌++◌ as concat}
use Positions.{bisect_left, insort, pop_position}

-- What the module imports: `mmh3`, if it is installed, and `hashlib.md5` as a number.
pub record Hashing : Type 0 where
  pub has_mmh3 : Bool
  pub hash128 : String → ℕ
  pub md5 : String → ℕ

unfoldable pub murmurhash3 : Hashing → String → ℕ
murmurhash3 h key = if h.has_mmh3 then h.hash128 key else h.md5 key

pub record Ring (W : Type 0) : Type 0 where
  pub vnode_base_count : ℕ
  pub vnode_min_count : ℕ
  pub positions : List ℕ
  pub position_to_node : Dict ℕ String
  pub node_vnodes : Dict String (List ℕ)
  pub node_capacities : Dict String ℕ
  pub avg_capacity : W
  pub last_updated : W

-- f"{node_name}:vnode:{i}"
unfoldable pub vnode_key : String → ℕ → String
unfolding str
vnode_key node_name i = concat node_name (concat ":vnode:" (str i))

-- f"{vnode_key}:collision:{position}"
unfoldable pub collision_key : String → ℕ → String
unfolding str
collision_key key position = concat key (concat ":collision:" (str position))

-- The `while` loop over collisions, on fuel: `none` means that the fuel ran out.
unfoldable pub settle : Hashing → ℕ → Dict ℕ String → String → ℕ → Option ℕ
settle h zero taken key position = none
settle h (suc fuel) taken key position =
    let again = settle h fuel taken key (murmurhash3 h (collision_key key position)) in
    if contains position taken then again else some position

-- The variables of the loop that adds virtual nodes, the same in `add_node` and in
-- `update_node_vnodes`.
pub record Placing : Type 0 where
  pub positions : List ℕ
  pub position_to_node : Dict ℕ String
  pub vnodes : List ℕ

-- The loop's body after the position is found.
unfoldable pub put_vnode : String → Placing → ℕ → Placing
put_vnode node_name p position = record {
  positions = insort position p.positions;
  position_to_node = insert position node_name p.position_to_node;
  vnodes = p.vnodes ++ position ∷ [];
}

-- `for i in range(i, i + rounds)`. A collision loop is given one round more than there are taken
-- positions.
unfoldable pub place_vnodes : Hashing → String → ℕ → ℕ → Placing → Option Placing
unfolding put_vnode
place_vnodes h node_name zero i p = some p
place_vnodes h node_name (suc rounds) i p =
    let key = vnode_key node_name i in
    settle h (suc (length p.position_to_node)) p.position_to_node key (murmurhash3 h key)
    >>= λ position. place_vnodes h node_name rounds (i + 1) (put_vnode node_name p position)

-- The loop that removes virtual nodes, the same in `remove_node` and in `update_node_vnodes`.
unfoldable pub drop_vnodes : List ℕ → List ℕ × Dict ℕ String → List ℕ × Dict ℕ String
drop_vnodes [] (positions, owners) = (positions, owners)
drop_vnodes (position ∷ rest) (positions, owners) =
    drop_vnodes rest (pop_position position positions, erase position owners)

-- `if node and node not in seen`: the set `seen` holds the names of the list
unfoldable pub visit : ℕ → List String → Option String → List String × Bool
visit count candidates none = (candidates, false)
visit count candidates (some node) =
    if not (node == "") && not (elem node candidates)
    then (candidates ++ node ∷ [], leb count (length (candidates ++ node ∷ [])))
    else (candidates, false)

sum : List ℕ → ℕ
sum [] = 0
sum (x ∷ xs) = x + sum xs

module _ {W : Type 0} where
  -- `self._node_vnodes.get(node_name, [])`
  abbrev pub vnodes_of : String → Ring W → List ℕ
  vnodes_of node_name r = get_or_else (lookup node_name r.node_vnodes) []

module _ {W : Type 0} ⦃f : Float W⦄ where
  -- `__init__`
  unfoldable pub init : ℕ → ℕ → W → Ring W
  init vnode_base_count vnode_min_count now = record {
    vnode_base_count = vnode_base_count;
    vnode_min_count = vnode_min_count;
    positions = [];
    position_to_node = [];
    node_vnodes = [];
    node_capacities = [];
    avg_capacity = of_nat 100;
    last_updated = now;
  }

  -- `_compute_vnode_count`
  unfoldable pub compute_vnode_count : Ring W → ℕ → ℕ
  compute_vnode_count r capacity_score =
      if le r.avg_capacity (of_nat 0)
      then r.vnode_base_count
      else max
          (f.trunc
            (f.mul (of_nat r.vnode_base_count) (f.div (of_nat capacity_score) r.avg_capacity)))
          r.vnode_min_count

  average_capacity : Dict String ℕ → W
  unfolding sum
  average_capacity [] = of_nat 100
  average_capacity (c ∷ cs) = f.ratio (sum (values (c ∷ cs))) (length (c ∷ cs))

  -- `_recalculate_avg_capacity`
  unfoldable pub recalculate_avg_capacity : Ring W → Ring W
  unfolding average_capacity
  recalculate_avg_capacity r = record r { avg_capacity = average_capacity r.node_capacities }

  -- `remove_node`, and whether the node was there
  unfoldable pub remove_node : String → W → Ring W → Ring W × Bool
  unfolding recalculate_avg_capacity drop_vnodes
  remove_node node_name now r =
      let (positions, owners) =
        drop_vnodes (vnodes_of node_name r) (r.positions, r.position_to_node) in
      let removed : Ring W = recalculate_avg_capacity (record r {
        positions = positions;
        position_to_node = owners;
        node_vnodes = erase node_name r.node_vnodes;
        node_capacities = erase node_name r.node_capacities;
      }) in
      if contains node_name r.node_vnodes
      then (record removed { last_updated = now }, true)
      else (r, false)

  -- `add_node` up to its loop: an old node of the name goes, the capacity is noted
  unfoldable pub prepare_node : String → ℕ → W → Ring W → Ring W
  prepare_node node_name capacity_score now r =
      let cleared =
        if contains node_name r.node_vnodes then (remove_node node_name now r).0 else r in
      recalculate_avg_capacity (record cleared {
        node_capacities = insert node_name capacity_score cleared.node_capacities;
      })

  unfoldable pub add_node : Hashing → String → ℕ → W → Ring W → Option (Ring W × ℕ)
  unfolding prepare_node compute_vnode_count place_vnodes
  add_node h node_name capacity_score now r =
      let ready = prepare_node node_name capacity_score now r in
      let vnode_count = compute_vnode_count ready capacity_score in
      place_vnodes h node_name vnode_count 0 (record {
        positions = ready.positions;
        position_to_node = ready.position_to_node;
        vnodes = [];
      })
      >>= λ p. some (
        record ready {
          positions = p.positions;
          position_to_node = p.position_to_node;
          node_vnodes = insert node_name p.vnodes ready.node_vnodes;
          last_updated = now;
        },
        vnode_count,
      )

  -- `update_node_vnodes` where the node has fewer virtual nodes than it shall have. The list that
  -- the loop appends to is the one that `node_vnodes` holds.
  unfoldable pub grow_node : Hashing → String → ℕ → W → Ring W → Option (Ring W)
  unfolding place_vnodes
  grow_node h node_name new_count now r =
      let current_vnodes = vnodes_of node_name r in
      let current_count = length current_vnodes in
      place_vnodes h node_name (new_count - current_count) current_count (record {
        positions = r.positions;
        position_to_node = r.position_to_node;
        vnodes = current_vnodes;
      })
      >>= λ p. some (record r {
        positions = p.positions;
        position_to_node = p.position_to_node;
        node_vnodes = insert node_name p.vnodes r.node_vnodes;
        last_updated = now;
      })

  -- `update_node_vnodes` where the node has more: it loses the last ones
  unfoldable pub shrink_node : String → ℕ → W → Ring W → Ring W
  unfolding drop_vnodes
  shrink_node node_name new_count now r =
      let current_vnodes = vnodes_of node_name r in
      let (positions, owners) =
        drop_vnodes (drop new_count current_vnodes) (r.positions, r.position_to_node) in
      record r {
        positions = positions;
        position_to_node = owners;
        node_vnodes = insert node_name (take new_count current_vnodes) r.node_vnodes;
        last_updated = now;
      }

  unfoldable pub update_node_vnodes : Hashing → String → ℕ → W → Ring W → Option (Ring W)
  unfolding grow_node shrink_node
  update_node_vnodes h node_name new_count now r =
      let wanted = max new_count r.vnode_min_count in
      let current_count = length (vnodes_of node_name r) in
      if not (contains node_name r.node_vnodes) || wanted == current_count
      then some r
      else if ltb current_count wanted
      then grow_node h node_name wanted now r
      else some (shrink_node node_name wanted now r)

module _ {W : Type 0} where
  -- `self._positions[i]` and then `self._position_to_node.get(position)`
  unfoldable pub node_at : Ring W → ℕ → Option String
  node_at r i = get_elem? r.positions i >>= λ position. lookup position r.position_to_node

  unfoldable pub get_node : Hashing → String → Ring W → Option String
  unfolding node_at bisect_left
  get_node h key r =
      let idx = bisect_left r.positions (murmurhash3 h key) in
      if length r.positions == 0
      then none
      else node_at r (if leb (length r.positions) idx then 0 else idx)

  -- `for i in range(total)`, with its `break`
  unfoldable pub walk : Ring W → ℕ → ℕ → ℕ → ℕ → List String → List String
  unfolding visit node_at
  walk r count idx zero i candidates = candidates
  walk r count idx (suc rounds) i candidates =
      let (candidates', stop) =
        visit count candidates (node_at r ((idx + i) % length r.positions)) in
      let rest = walk r count idx rounds (i + 1) candidates' in if stop then candidates' else rest

  unfoldable pub get_candidates : Hashing → String → ℕ → Ring W → List String
  unfolding walk bisect_left
  get_candidates h key count r =
      walk r count (bisect_left r.positions (murmurhash3 h key)) (length r.positions) 0 []

  unfoldable pub get_vnode_count : String → Ring W → ℕ
  get_vnode_count node_name r = length (vnodes_of node_name r)

  unfoldable pub get_all_nodes : Ring W → List String
  get_all_nodes r = keys r.node_vnodes
