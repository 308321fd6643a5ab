-- ===== src/Chord.antt =====
-- coordinator/routing/chord_router.py: overflow routing over finger tables.
pub mod Fingers
pub mod Routing
pub mod Tables
use predictive_consistent_ha.Prelude.{
  ℕ, zero, suc, String, Bool, true, false, not, ◌&&◌, ◌||◌, Option, none, some, List, [], ◌∷◌, ◌++◌,
  ◌+◌, ◌%◌, ◌^◌, ◌≤◌, max, ltb, leb, if◌then◌else◌, get_or_else, ◌==◌, elem, length, nat_eq,
  string_eq,
}
use predictive_consistent_ha.Prelude.Dict.{Dict, lookup, insert, contains}
use predictive_consistent_ha.Prelude.Float.{Float, of_nat}
use predictive_consistent_ha.Prelude.Choice.{min_key}
use Prim.Native.Nat.{Ordering}
use Prim.Native.String.{compare}

pub record Router (W : Type 0) : Type 0 where
  pub max_hops : ℕ
  pub overflow_threshold : W
  pub node_ids : Dict String ℕ
  pub id_to_node : Dict ℕ String
  pub finger_tables : Dict String (List (ℕ × String))
  pub ring_size : ℕ
  pub m : ℕ

-- `math.ceil(math.log2(n))` for a positive `n`: the least `k` with `n <= 2 ** k`. Fuel `n` is
-- enough, since `n <= 2 ** n`.
least_power : ℕ → ℕ → ℕ → ℕ
least_power zero n k = k
least_power (suc fuel) n k =
    let next = least_power fuel n (k + 1) in if leb n (2 ^ k) then k else next

unfoldable pub ceil_log2 : ℕ → ℕ
unfolding least_power
ceil_log2 n = least_power n n 0

-- `sorted(node_names)`, by code points
abbrev before : String → String → Bool
before a b = elim (compare a b) [ Ordering.lt ↦ true | _ ↦ false ]

insert_sorted : String → List String → List String
insert_sorted a [] = a ∷ []
insert_sorted a (b ∷ bs) = if before b a then b ∷ insert_sorted a bs else a ∷ b ∷ bs

unfoldable pub sorted : List String → List String
unfolding insert_sorted
sorted [] = []
sorted (a ∷ rest) = insert_sorted a (sorted rest)

-- `{name: i for i, name in enumerate(sorted_names)}`, from index `i` on
unfoldable pub enumerate : ℕ → List String → Dict String ℕ → Dict String ℕ
enumerate i [] ids = ids
enumerate i (name ∷ rest) ids = enumerate (i + 1) rest (insert name i ids)

-- `{i: name for name, i in self._node_ids.items()}`
unfoldable pub invert : Dict String ℕ → Dict ℕ String → Dict ℕ String
invert [] names = names
invert ((name, i) ∷ rest) names = invert rest (insert i name names)

-- The first of the names whose id is at least the target, else the first name. Each name has an id.
first_from : Dict String ℕ → ℕ → List String → Option String
first_from ids target [] = none
first_from ids target (name ∷ rest) =
    if leb target (get_or_else (lookup name ids) 0) then some name else first_from ids target rest

or_first : Option String → List String → Option String
or_first (some name) names = some name
or_first none [] = none
or_first none (name ∷ rest) = some name

unfoldable pub find_successor : Dict String ℕ → ℕ → List String → Option String
unfolding first_from or_first
find_successor ids target sorted_names = or_first (first_from ids target sorted_names) sorted_names

-- One round of the loop over `k`: a finger is kept if there is a successor with a name, and it is
-- another node.
unfoldable pub finger : String → ℕ → Option String → List (ℕ × String)
finger name target none = []
finger name target (some successor) =
    if not (successor == "") && not (successor == name) then (target, successor) ∷ [] else []

-- `for k in range(m)`, from `k` on
unfoldable pub fingers_of : Dict String ℕ → List String → ℕ → String → ℕ → ℕ → List (ℕ × String)
unfolding finger find_successor
fingers_of ids names ring_size name zero k = []
fingers_of ids names ring_size name (suc rounds) k =
    let target = (get_or_else (lookup name ids) 0 + 2 ^ k) % ring_size in
    finger name target (find_successor ids target names)
    ++ fingers_of ids names ring_size name rounds (k + 1)

-- The loop over the names.
unfoldable pub build_tables :
    Dict String ℕ
    → List String
    → ℕ
    → ℕ
    → List String
    → Dict String (List (ℕ × String))
    → Dict String (List (ℕ × String))
unfolding fingers_of
build_tables ids names ring_size m [] tables = tables
build_tables ids names ring_size m (name ∷ rest) tables =
    build_tables ids names ring_size m rest
      (insert name (fingers_of ids names ring_size name m 0) tables)

module _ {W : Type 0} where
  -- `__init__`
  unfoldable pub init : ℕ → W → Router W
  init max_hops overflow_threshold = record {
    max_hops = max_hops;
    overflow_threshold = overflow_threshold;
    node_ids = [];
    id_to_node = [];
    finger_tables = [];
    ring_size = 0;
    m = 0;
  }

  unfoldable pub build_finger_tables : List String → Router W → Router W
  build_finger_tables node_names r =
      let n = length node_names in
      let m = if ltb 1 n then max (ceil_log2 n) 1 else 1 in
      let names = sorted node_names in
      let ids = enumerate 0 names [] in
      if n == 0 then r else record r {
        m = m;
        ring_size = 2 ^ m;
        node_ids = ids;
        id_to_node = invert ids [];
        finger_tables = build_tables ids names (2 ^ m) m names [];
        max_hops = if ltb 1 n then ceil_log2 n + 2 else 2;
      }

  unfoldable pub refresh : List String → Router W → Router W
  unfolding build_finger_tables
  refresh node_names r = build_finger_tables node_names r

  unfoldable pub get_finger_table : String → Router W → List (ℕ × String)
  get_finger_table node_name r = get_or_else (lookup node_name r.finger_tables) []

  unfoldable pub get_all_finger_tables : Router W → Dict String (List (ℕ × String))
  get_all_finger_tables r = r.finger_tables

-- The value of `routing_method`.
pub data Method : Type 0 where
  allocation_engine chord_router least_connections_fallback : Method

module _ {W : Type 0} ⦃f : Float W⦄ where
  -- `node_scores.get(node, 1.0)`
  abbrev pub score_in : Dict String W → String → W
  score_in node_scores node = get_or_else (lookup node node_scores) (of_nat 1)

  -- The loop over the fingers: the node that accepts, if there is one, and the hops.
  unfoldable pub follow :
      ℕ → W → Dict String W → List (ℕ × String) → List String → ℕ → Option String × ℕ
  follow max_hops threshold node_scores [] visited hops = (none, hops)
  follow max_hops threshold node_scores ((target, node) ∷ fingers) visited hops =
      let skip = follow max_hops threshold node_scores fingers visited (hops + 1) in
      let go_on = follow max_hops threshold node_scores fingers (node ∷ visited) (hops + 1) in
      if elem node visited
      then skip
      else if f.lt (score_in node_scores node) threshold
      then (some node, hops + 1)
      else if leb max_hops (hops + 1)
      then (none, hops + 1)
      else go_on

  -- `_fallback_least_loaded`
  unfoldable pub fallback_least_loaded : Dict String W → Option String
  fallback_least_loaded node_scores = min_key f.lt node_scores

  abbrev pub routed : Dict String W → Option String × ℕ → Option String × ℕ × Method
  routed node_scores (some node, hops) = (some node, hops, chord_router)
  routed node_scores (none, hops) =
      (fallback_least_loaded node_scores, hops, least_connections_fallback)

  abbrev pub route_from :
      Router W → String → Dict String W → Option (List (ℕ × String)) → Option String × ℕ × Method
  route_from r overloaded_node node_scores none =
      (fallback_least_loaded node_scores, 1, least_connections_fallback)
  route_from r overloaded_node node_scores (some fingers) =
      routed node_scores
        (follow r.max_hops r.overflow_threshold node_scores fingers (overloaded_node ∷ []) 0)

  unfoldable pub route : String → Dict String W → Router W → Option String × ℕ × Method
  unfolding follow
  route overloaded_node node_scores r =
      route_from r overloaded_node node_scores (lookup overloaded_node r.finger_tables)
