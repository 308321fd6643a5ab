-- ===== src/Tests/ChordRuns.antt =====
-- The theorems on the overflow router at four nodes.
use predictive_consistent_ha.Prelude.{
  ℕ, String, true, false, some, List, [], ◌∷◌, ◌≡◌, ◌≢◌, ◌≤◌, ◌<◌, refl, elem, All, Distinct,
  length, ◌==◌, string_eq, arith,
}
use predictive_consistent_ha.Prelude.Dict.{Dict, lookup}
use predictive_consistent_ha.Prelude.Float.{milli}
use predictive_consistent_ha.Prelude.Choice.{min_key}
use predictive_consistent_ha.Chord.{
  Router, init, ceil_log2, sorted, enumerate, invert, build_tables, build_finger_tables,
  find_successor, get_finger_table, route, chord_router, least_connections_fallback, score_in,
  fallback_least_loaded,
}
use predictive_consistent_ha.Chord.Routing.{finger_nodes, route-accepts}
use predictive_consistent_ha.Chord.Tables.{build_finger_tables-bounds, build_finger_tables-route}

program : Unit {0}
unfolding min_key init ceil_log2 sorted enumerate invert build_tables build_finger_tables
    find_successor get_finger_table route fallback_least_loaded
program = tt

abbrev names : List String
names = "n1" ∷ "n2" ∷ "n3" ∷ "n4" ∷ []

abbrev router : Router ℕ
router = build_finger_tables names (init 3 850)

-- The nodes "n1" and "n2" are overloaded, in the second table all are.
abbrev scores : Dict String ℕ
scores = ("n1", 900) ∷ ("n2", 950) ∷ ("n3", 300) ∷ ("n4", 200) ∷ []

abbrev high : Dict String ℕ
high = ("n1", 900) ∷ ("n2", 950) ∷ ("n3", 930) ∷ ("n4", 870) ∷ []

sent_on : route "n1" scores router ≡ (some "n3", 2, chord_router)
unfolding program
sent_on = refl

fell_back : route "n1" high router ≡ (some "n4", 2, least_connections_fallback)
unfolding program
fell_back = refl

fingers_of_n1 : get_finger_table "n1" router ≡ (1, "n2") ∷ (2, "n3") ∷ []
unfolding program
fingers_of_n1 = refl

abbrev fingers_1 : List (ℕ × String)
fingers_1 = (1, "n2") ∷ (2, "n3") ∷ []

names-Distinct : Distinct names
names-Distinct = (refl, (refl, (refl, (refl, tt))))

route-accepts_example :
    (elem "n3" (finger_nodes (get_finger_table "n1" router)) ≡ true)
    × ◌≢◌ {A = String} "n3" "n1"
    × (milli.lt (score_in scores "n3") router.overflow_threshold ≡ true)
    × (2 ≤ length (get_finger_table "n1" router))
route-accepts_example = route-accepts "n1" "n3" 2 scores router sent_on

table_known : lookup "n1" router.finger_tables ≡ some fingers_1
unfolding program
table_known = refl

table_room : length fingers_1 < router.max_hops
unfolding program
table_room = omega arith

build_finger_tables-bounds_example :
    (length (get_finger_table "n1" router) ≤ router.m)
    × (length (get_finger_table "n1" router) < router.max_hops)
    × All
        (λ a. (elem a names ≡ true) × ((a == "n1") ≡ false))
        (finger_nodes (get_finger_table "n1" router))
build_finger_tables-bounds_example =
    build_finger_tables-bounds "n1" ("n2" ∷ "n3" ∷ "n4" ∷ []) (init 3 850) "n1" names-Distinct refl

build_finger_tables-route_example :
    (some "n4" ≡ fallback_least_loaded high)
    × All
        (λ n. milli.lt (score_in high n) router.overflow_threshold ≡ false)
        (finger_nodes (get_finger_table "n1" router))
build_finger_tables-route_example =
    build_finger_tables-route "n1" ("n2" ∷ "n3" ∷ "n4" ∷ []) (init 3 850) "n1" (some "n4") 2 high
      names-Distinct refl fell_back
