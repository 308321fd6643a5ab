-- ===== src/Ring/Termination.antt =====
-- The collision loop ends if the rehashes of a key do not repeat before a free position is met.
use predictive_consistent_ha.Prelude.{
  ℕ, zero, suc, String, true, not, ◌&&◌, none, some, List, [], ◌∷◌, ◌+◌, ◌≤◌, ◌<◌, ◌≡◌, refl, ap,
  ◌∙◌, inl, inr, arith, length, elem, Distinct, remove_all, nat_eq, string_eq, ==_lem, ◌==◌, subst,
  Option-cases,
}
use predictive_consistent_ha.Prelude.Dict.{Dict, keys, insert, contains, elem-keys}
use native.Mathlib.Nat.{add-zero, le_refl}
use predictive_consistent_ha.Prelude.Float.{Float}
use predictive_consistent_ha.Ring.{
  Hashing, murmurhash3, collision_key, settle, vnode_key, Placing, put_vnode, place_vnodes, Ring,
  prepare_node, add_node, compute_vnode_count,
}

-- The first `k + 1` positions that the loop tries for a key.
abbrev pub probes : Hashing → String → ℕ → ℕ → List ℕ
probes h key position zero = position ∷ []
probes h key position (suc k) =
    position ∷ probes h key (murmurhash3 h (collision_key key position)) k

elem-remove_all : (q a : ℕ) (xs : List ℕ) → elem q (remove_all a xs) ≡ (not (a == q) && elem q xs)
elem-remove_all q a [] = ground arith
elem-remove_all q a (x ∷ xs) = ground (arith, elem-remove_all q a xs)

length-remove_all-le : (a : ℕ) (xs : List ℕ) → length (remove_all a xs) ≤ length xs
length-remove_all-le a [] = omega arith
length-remove_all-le a (x ∷ xs) = ground (arith, length-remove_all-le a xs)

length-remove_all-lt :
    (a : ℕ) (xs : List ℕ) → elem a xs ≡ true → length (remove_all a xs) < length xs
length-remove_all-lt a [] m = cc
length-remove_all-lt a (x ∷ xs) m =
    ground (arith, length-remove_all-lt a xs, length-remove_all-le a xs)

-- Different items of a list are at most as many as the list is long.
pigeonhole :
    (xs ys : List ℕ)
    → Distinct xs
    → ((q : ℕ) → elem q xs ≡ true → elem q ys ≡ true)
    → length xs ≤ length ys
pigeonhole [] ys d inside = omega arith
pigeonhole (x ∷ xs) ys d inside =
    let here = inside x (ground arith) in
    let rest =
      pigeonhole xs (remove_all x ys) d.1
        (λ q m. ground (arith, inside q, elem-remove_all q x ys, ==_lem x q)) in
    omega (arith, length-remove_all-lt x ys here)

length-keys : (m : Dict ℕ String) → length (keys m) ≡ length m
length-keys [] = refl
length-keys (e ∷ m) = ap suc (length-keys m)

-- If the loop does not end within `k + 1` rounds, all that it tried was taken.
settle_stuck :
    (h : Hashing) (k : ℕ) (taken : Dict ℕ String) (key : String) (position q : ℕ)
    → settle h (suc k) taken key position ≡ none
    → elem q (probes h key position k) ≡ true
    → contains q taken ≡ true
unfolding settle
settle_stuck h zero taken key position q e m = ground (arith, nat_eq.beq_iff position q)
settle_stuck h (suc k) taken key position q e m = ground (
  arith,
  nat_eq.beq_iff position q,
  settle_stuck h k taken key (murmurhash3 h (collision_key key position)) q,
)

length-probes :
    (h : Hashing) (key : String) (position k : ℕ) → length (probes h key position k) ≡ suc k
length-probes h key position zero = refl
length-probes h key position (suc k) =
    ap suc (length-probes h key (murmurhash3 h (collision_key key position)) k)

elem-probes :
    (h : Hashing) (key : String) (position k bound q : ℕ)
    → k ≤ bound
    → elem q (probes h key position k) ≡ true
    → elem q (probes h key position bound) ≡ true
elem-probes h key position zero zero q le m = m
elem-probes h key position zero (suc bound) q le m = ground arith
elem-probes h key position (suc k) zero q le m = elim le [ ]
elem-probes h key position (suc k) (suc bound) q le m =
    ground (
      arith,
      elem-probes h key (murmurhash3 h (collision_key key position)) k bound q (omega arith),
    )

probes-Distinct :
    (h : Hashing) (key : String) (position k bound : ℕ)
    → k ≤ bound
    → Distinct (probes h key position bound)
    → Distinct (probes h key position k)
probes-Distinct h key position zero bound le d = (refl, tt)
probes-Distinct h key position (suc k) zero le d = elim le [ ]
probes-Distinct h key position (suc k) (suc bound) le d =
    let next = murmurhash3 h (collision_key key position) in
    ground (
      arith,
      elem-probes h key next k bound position (omega arith),
      probes-Distinct h key next k bound (omega arith) d.1,
    )

-- With one round more than there are taken positions the loop ends.
settle-total :
    (h : Hashing) (taken : Dict ℕ String) (key : String) (position : ℕ)
    → Distinct (probes h key position (length taken))
    → (q : ℕ) × (settle h (suc (length taken)) taken key position ≡ some q)
settle-total h taken key position d =
    elim (Option-cases (settle h (suc (length taken)) taken key position)) [
      | inr (q, e) ↦ (q, e)
      | inl stuck ↦
          let crowd =
            pigeonhole (probes h key position (length taken)) (keys taken) d
              (λ q m. elem-keys q taken ∙ settle_stuck h _ taken key position q stuck m) in
          absurd
            (omega (arith, crowd, length-probes h key position (length taken), length-keys taken))
    ]

length-insert-le : (q : ℕ) (n : String) (m : Dict ℕ String) → length (insert q n m) ≤ suc (length m)
length-insert-le q n [] = omega arith
length-insert-le q n ((a, w) ∷ m) = ground (arith, length-insert-le q n m)

-- The rehashes of the keys `n:vnode:i` and following do not repeat within `bound` rounds.
abbrev pub RehashesApart : Hashing → String → ℕ → ℕ → ℕ → Type 0
RehashesApart h n i rounds bound =
    (j : ℕ)
    → j < rounds
    → Distinct (probes h (vnode_key n (i + j)) (murmurhash3 h (vnode_key n (i + j))) bound)

put_vnode-room :
    (n : String) (p : Placing) (q rounds bound : ℕ)
    → length p.position_to_node + suc rounds ≤ bound
    → length (put_vnode n p q).position_to_node + rounds ≤ bound
unfolding put_vnode
put_vnode-room n p q rounds bound le = omega (arith, length-insert-le q n p.position_to_node)

shift_one : (i j : ℕ) → i + suc j ≡ i + 1 + j
shift_one i j = omega arith

place_vnodes-total :
    (h : Hashing) (n : String) (rounds i bound : ℕ) (p : Placing)
    → length p.position_to_node + rounds ≤ bound
    → RehashesApart h n i rounds bound
    → (p' : Placing) × (place_vnodes h n rounds i p ≡ some p')
unfolding place_vnodes
place_vnodes-total h n zero i bound p le apart = (p, refl)
place_vnodes-total h n (suc rounds) i bound p le apart =
    let key = vnode_key n i in
    let here =
      probes-Distinct h key (murmurhash3 h key) (length p.position_to_node) bound (omega arith) (
        subst (λ k. Distinct (probes h (vnode_key n k) (murmurhash3 h (vnode_key n k)) bound))
          (add-zero i) (apart 0 (omega arith))) in
    let (q, found) = settle-total h p.position_to_node key (murmurhash3 h key) here in
    let (p', rest) =
      place_vnodes-total h n rounds (i + 1) bound (put_vnode n p q)
        (put_vnode-room n p q rounds bound le)
        (λ j lt.
          subst (λ k. Distinct (probes h (vnode_key n k) (murmurhash3 h (vnode_key n k)) bound))
            (shift_one i j) (apart (suc j) (omega arith))) in
    (p', rw found rest)

module _ {W : Type 0} ⦃f : Float W⦄ where
  -- `add_node` ends: if the rehashes of the new node's keys do not repeat within as many rounds as
  -- there are positions at the end, the collision loops need no more fuel than they are given.
  pub add_node-total :
      (h : Hashing) (n : String) (score : ℕ) (now : W) (r : Ring W)
      → let ready = prepare_node n score now r in
        let count = compute_vnode_count ready score in
        RehashesApart h n 0 count (length ready.position_to_node + count)
        → (r' : Ring W) × (add_node h n score now r
            ≡ some (r', compute_vnode_count (prepare_node n score now r) score))
  unfolding add_node
  add_node-total h n score now r apart =
      let ready = prepare_node n score now r in
      let count = compute_vnode_count ready score in
      let start : Placing = record {
        positions = ready.positions;
        position_to_node = ready.position_to_node;
        vnodes = [];
      } in
      let (p, placed) = place_vnodes-total h n count 0 _ start (le_refl _) apart in
      (
        record ready {
          positions = p.positions;
          position_to_node = p.position_to_node;
          node_vnodes = insert n p.vnodes ready.node_vnodes;
          last_updated = now;
        },
        rw placed refl,
      )
