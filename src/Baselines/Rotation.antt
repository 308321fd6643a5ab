-- ===== src/Baselines/Rotation.antt =====
-- evaluation/baselines/round_robin.py, `RoundRobinAllocator`.
use predictive_consistent_ha.Prelude.{
  ℕ, String, Option, none, List, [], ◌∷◌, ◌++◌, ◌+◌, ◌%◌, ◌≡◌, refl, arith, max, length, get_elem?,
  if◌then◌else◌, elem, string_eq, false, Distinct, ==_symm, elem-append,
}
use predictive_consistent_ha.Baselines.RoundRobin.{remove_first}

pub record Rotation : Type 0 where
  pub nodes : List String
  pub index : ℕ

set_nodes : List String → Rotation → Rotation
set_nodes node_names r = record { nodes = node_names; index = 0 }

next_of : List String → Rotation → Option String × Rotation
next_of [] r = (none, r)
next_of (n ∷ ns) r =
    (get_elem? (n ∷ ns) (r.index % length (n ∷ ns)), record r { index = r.index + 1 })

unfoldable pub get_node : Rotation → Option String × Rotation
unfolding next_of
get_node r = next_of r.nodes r

unfoldable pub remove_node : String → Rotation → Rotation
unfolding remove_first
remove_node node_name r =
    let rest = remove_first node_name r.nodes in
    if elem node_name r.nodes
    then record { nodes = rest; index = r.index % max (length rest) 1 }
    else r

unfoldable pub add_node : String → Rotation → Rotation
add_node node_name r =
    if elem node_name r.nodes then r else record r { nodes = r.nodes ++ node_name ∷ [] }

elem-remove_first :
    (x y : String) (l : List String) → elem x l ≡ false → elem x (remove_first y l) ≡ false
unfolding remove_first
elem-remove_first x y [] out = refl
elem-remove_first x y (z ∷ l) out = ground (arith, elem-remove_first x y l)

remove_first-Distinct :
    (x : String) (l : List String)
    → Distinct l
    → Distinct (remove_first x l) × (elem x (remove_first x l) ≡ false)
unfolding remove_first
remove_first-Distinct x [] d = (tt, refl)
remove_first-Distinct x (y ∷ l) d =
    ground
      (arith, remove_first-Distinct x l d.1, elem-remove_first y x l d.0, string_eq.beq_iff y x)

append-Distinct :
    (x : String) (l : List String) → elem x l ≡ false → Distinct l → Distinct (l ++ x ∷ [])
append-Distinct x [] out d = (refl, tt)
append-Distinct x (y ∷ l) out d =
    ground (arith, append-Distinct x l, elem-append y l (x ∷ []), ==_symm x y)

add_node-Distinct : (x : String) (r : Rotation) → Distinct r.nodes → Distinct (add_node x r).nodes
unfolding add_node
add_node-Distinct x r d = ground (arith, append-Distinct x r.nodes)

remove_node-Distinct :
    (x : String) (r : Rotation)
    → Distinct r.nodes
    → Distinct (remove_node x r).nodes × (elem x (remove_node x r).nodes ≡ false)
unfolding remove_node
remove_node-Distinct x r d = ground (arith, remove_first-Distinct x r.nodes d)

-- On different nodes, adding a node, new or known, keeps them different, and removing it afterwards
-- leaves no trace of it.
pub remove_node-add_node :
    (x : String) (r : Rotation)
    → Distinct r.nodes
    → Distinct (add_node x r).nodes
      × Distinct (remove_node x (add_node x r)).nodes
      × (elem x (remove_node x (add_node x r)).nodes ≡ false)
remove_node-add_node x r d =
    let added = add_node-Distinct x r d in
    let (rest, gone) = remove_node-Distinct x (add_node x r) added in (added, rest, gone)
