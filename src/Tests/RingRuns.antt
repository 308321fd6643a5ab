-- ===== src/Tests/RingRuns.antt =====
-- The theorems on the ring at a ring of three nodes.
use predictive_consistent_ha.Prelude.{
  ==_ne, ◌+◌, ℕ, String, true, false, some, List, [], ◌∷◌, ◌≡◌, ◌≢◌, ◌<◌, ◌⊎◌, refl, nat_eq,
  string_eq, length, get_or_else, arith, max, elem, zero, suc,
}
use predictive_consistent_ha.Prelude.Dict.{contains}
use predictive_consistent_ha.Prelude.Float.{milli}
use predictive_consistent_ha.Ring.{
  Ring, settle, vnode_key, collision_key, murmurhash3, init, add_node, prepare_node, remove_node,
  recalculate_avg_capacity, get_node, update_node_vnodes, get_candidates, vnodes_of,
  compute_vnode_count,
}
use predictive_consistent_ha.Ring.Positions.{insort, pop_position}
use predictive_consistent_ha.Ring.Validity.{
  IsValid, init-IsValid, add_node-IsValid, remove_node-IsValid, update_node_vnodes-IsValid,
}
use predictive_consistent_ha.Ring.Lookup.{Serves, get_node-Serves}
use predictive_consistent_ha.Ring.Consistency.{
  remove_node-keeps, get_node-remove_node, add_node-moves, update_node_vnodes-moves,
}
use predictive_consistent_ha.Ring.Candidates.{get_candidates_complete, get_candidates-head}
use predictive_consistent_ha.Ring.Termination.{RehashesApart, add_node-total}
use predictive_consistent_ha.Tests.{small_hash, hashing, ring_0, ring_a, ring_ab, ring_abc}

program : Unit {0}
unfolding small_hash insort pop_position settle vnode_key murmurhash3 init add_node prepare_node
    compute_vnode_count collision_key remove_node recalculate_avg_capacity get_node
    update_node_vnodes get_candidates
program = tt

-- "b" with four virtual nodes
abbrev ring_grown : Ring ℕ
ring_grown = get_or_else (update_node_vnodes hashing "b" 4 9 ring_abc) ring_0

a_added : add_node hashing "a" 100 1 ring_0 ≡ some (ring_a, 2)
unfolding program
a_added = refl

b_added : add_node hashing "b" 100 2 ring_a ≡ some (ring_ab, 2)
unfolding program
b_added = refl

c_added : add_node hashing "c" 100 3 ring_ab ≡ some (ring_abc, 2)
unfolding program
c_added = refl

b_grown : update_node_vnodes hashing "b" 4 9 ring_abc ≡ some ring_grown
unfolding program
b_grown = refl

ring_ab-IsValid : IsValid ring_ab
ring_ab-IsValid =
    add_node-IsValid hashing "b" 100 2 ring_a
      (add_node-IsValid hashing "a" 100 1 ring_0 (init-IsValid 2 1 0) a_added) b_added

ring_abc-IsValid : IsValid ring_abc
ring_abc-IsValid = add_node-IsValid hashing "c" 100 3 ring_ab ring_ab-IsValid c_added

no_c : contains "c" ring_ab.node_vnodes ≡ false
unfolding program
no_c = refl

has_b : contains "b" ring_abc.node_vnodes ≡ true
unfolding program
has_b = refl

a-ne-c : ◌≢◌ {A = String} "a" "c"
a-ne-c = ==_ne "a" "c" refl

k1_of_b : get_node hashing "k1" ring_abc ≡ some "b"
unfolding program
k1_of_b = refl

k2_of_a : get_node hashing "k2" ring_abc ≡ some "a"
unfolding program
k2_of_a = refl

k2_taken : get_node hashing "k2" ring_grown ≡ some "b"
unfolding program
k2_taken = refl

k5_left : get_node hashing "k5" (remove_node "c" 9 ring_abc).0 ≡ some "b"
unfolding program
k5_left = refl

k1_candidates : get_candidates hashing "k1" 5 ring_abc ≡ "b" ∷ "a" ∷ "c" ∷ []
unfolding program
k1_candidates = refl

get_node-Serves_example :
    Serves ring_abc (murmurhash3 hashing "k1") (get_node hashing "k1" ring_abc)
get_node-Serves_example = get_node-Serves hashing "k1" ring_abc ring_abc-IsValid

remove_node-keeps_example : get_node hashing "k2" (remove_node "c" 9 ring_abc).0 ≡ some "a"
remove_node-keeps_example =
    remove_node-keeps hashing "k2" "c" "a" 9 ring_abc ring_abc-IsValid k2_of_a a-ne-c

get_node-remove_node_example : ◌≢◌ {A = String} "b" "c" × (contains "b" ring_abc.node_vnodes ≡ true)
get_node-remove_node_example =
    get_node-remove_node hashing "k5" "c" "b" 9 ring_abc ring_abc-IsValid k5_left

add_node-moves_example : get_node hashing "k2" ring_ab ≡ some "a"
add_node-moves_example =
    add_node-moves hashing "k2" "c" "a" 100 3 ring_ab ring_abc 2 ring_ab-IsValid no_c c_added
      k2_of_a a-ne-c

update_node_vnodes-moves_example :
    ◌≡◌ {A = String} "a" "b"
    ⊎ ((length (vnodes_of "b" ring_abc) < max 4 ring_abc.vnode_min_count)
        × ◌≡◌ {A = String} "b" "b")
    ⊎ ((max 4 ring_abc.vnode_min_count < length (vnodes_of "b" ring_abc))
        × ◌≡◌ {A = String} "a" "b")
update_node_vnodes-moves_example =
    update_node_vnodes-moves hashing "k2" "b" "a" "b" 4 9 ring_abc ring_grown ring_abc-IsValid
      b_grown k2_of_a k2_taken

remove_node-IsValid_example : IsValid (remove_node "c" 9 ring_abc).0
remove_node-IsValid_example = remove_node-IsValid "c" 9 ring_abc ring_abc-IsValid

add_node-IsValid_example : IsValid ring_abc
add_node-IsValid_example = add_node-IsValid hashing "c" 100 3 ring_ab ring_ab-IsValid c_added

update_node_vnodes-IsValid_example : IsValid ring_grown
update_node_vnodes-IsValid_example =
    update_node_vnodes-IsValid hashing "b" 4 9 ring_abc ring_abc-IsValid b_grown

few : length (get_candidates hashing "k1" 5 ring_abc) < 5
unfolding program
few = omega arith

c_has_141 : elem 141 (vnodes_of "c" ring_abc) ≡ true
unfolding program
c_has_141 = refl

get_candidates_complete_example : elem "c" (get_candidates hashing "k1" 5 ring_abc) ≡ true
get_candidates_complete_example =
    get_candidates_complete hashing "k1" 5 ring_abc "c" 141 ring_abc-IsValid few c_has_141 refl

get_candidates-head_example :
    (rest : List String) × (get_candidates hashing "k1" 2 ring_abc ≡ "b" ∷ rest)
get_candidates-head_example = get_candidates-head hashing "k1" 2 ring_abc "b" k1_of_b refl

a-ne-b : ◌≢◌ {A = String} "a" "b"
a-ne-b = ==_ne "a" "b" refl

b-apart : RehashesApart hashing "b" 0 (compute_vnode_count (prepare_node "b" 100 2 ring_a) 100) (
    length (prepare_node "b" 100 2 ring_a).position_to_node
    + compute_vnode_count (prepare_node "b" 100 2 ring_a) 100)
unfolding program
b-apart zero lt = (refl, (refl, (refl, (refl, (refl, tt)))))
b-apart (suc zero) lt = (refl, (refl, (refl, (refl, (refl, tt)))))
b-apart (suc (suc j)) lt = absurd (omega (arith, lt))

add_node-total_example :
    (r' : Ring ℕ) × (add_node hashing "b" 100 2 ring_a
      ≡ some (r', compute_vnode_count (prepare_node "b" 100 2 ring_a) 100))
add_node-total_example = add_node-total hashing "b" 100 2 ring_a b-apart
