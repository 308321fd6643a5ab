-- ===== src/Baselines/Connections.antt =====
-- evaluation/baselines/least_connections.py, `LeastConnectionsAllocator`: a dict of open connections.
use predictive_consistent_ha.Prelude.{
  ℕ, String, Option, none, some, List, [], ◌∷◌, ◌+◌, ◌-◌, ◌≡◌, ap, ◌∙◌, arith, ltb, get_or_else,
  if◌then◌else◌, ◌==◌, string_eq, nat_eq, Option-cases, inl, inr, ==_refl,
}
use predictive_consistent_ha.Prelude.Dict.{
  Dict, lookup, insert, erase, contains, lookup-insert, lookup_congr,
}
use predictive_consistent_ha.Prelude.Choice.{min_key}

unfoldable pub set_nodes : List String → Dict String ℕ → Dict String ℕ
set_nodes [] connections = connections
set_nodes (name ∷ rest) connections = set_nodes rest (insert name 0 connections)

get_node : Dict String ℕ → Option String
get_node connections = min_key ltb connections

unfoldable pub on_request_start : String → Dict String ℕ → Dict String ℕ
on_request_start node_name connections =
    if contains node_name connections
    then insert node_name (get_or_else (lookup node_name connections) 0 + 1) connections
    else connections

-- `max(0, n - 1)`, which is the subtraction of naturals
unfoldable pub on_request_complete : String → Dict String ℕ → Dict String ℕ
on_request_complete node_name connections =
    if contains node_name connections
    then insert node_name (get_or_else (lookup node_name connections) 0 - 1) connections
    else connections

remove_node : String → Dict String ℕ → Dict String ℕ
remove_node node_name connections = erase node_name connections

add_node : String → Dict String ℕ → Dict String ℕ
add_node node_name connections =
    if contains node_name connections then connections else insert node_name 0 connections

get_snapshot : Dict String ℕ → Dict String ℕ
get_snapshot connections = connections

lookup-on_request_start :
    (m n : String) (d : Dict String ℕ) (v : ℕ)
    → lookup n d ≡ some v
    → lookup m (on_request_start n d) ≡ (if n == m then some (v + 1) else lookup m d)
unfolding on_request_start
lookup-on_request_start m n d v e =
    ground (arith, lookup-insert m n (get_or_else (lookup n d) 0 + 1) d)

lookup-on_request_complete :
    (m n : String) (d : Dict String ℕ) (v : ℕ)
    → lookup n d ≡ some v
    → lookup m (on_request_complete n d) ≡ (if n == m then some (v - 1) else lookup m d)
unfolding on_request_complete
lookup-on_request_complete m n d v e =
    ground (arith, lookup-insert m n (get_or_else (lookup n d) 0 - 1) d)

start-unknown : (n : String) (d : Dict String ℕ) → lookup n d ≡ none → on_request_start n d ≡ d
unfolding on_request_start
start-unknown n d e = ground arith

complete-unknown :
    (n : String) (d : Dict String ℕ) → lookup n d ≡ none → on_request_complete n d ≡ d
unfolding on_request_complete
complete-unknown n d e = ground arith

lookup-unknown :
    (n : String) (d : Dict String ℕ) → lookup n d ≡ none → lookup n (on_request_start n d) ≡ none
lookup-unknown n d e = ap (lookup n) (start-unknown n d e) ∙ e

-- A request that starts and completes on a node leaves every count as it was, also if the node is
-- not known.
on_request_complete-start :
    (m n : String) (d : Dict String ℕ)
    → lookup m (on_request_complete n (on_request_start n d)) ≡ lookup m d
on_request_complete-start m n d = elim (Option-cases (lookup n d)) [
  | inl unknown ↦
      ap (lookup m) (complete-unknown n (on_request_start n d) (lookup-unknown n d unknown))
      ∙ ap (lookup m) (start-unknown n d unknown)
  | inr (v, known) ↦ ground (
    arith,
    lookup-on_request_complete m n (on_request_start n d) (v + 1),
    lookup-on_request_start n n d v known,
    lookup-on_request_start m n d v known,
    lookup_congr n m d,
    ==_refl n,
  )
]
