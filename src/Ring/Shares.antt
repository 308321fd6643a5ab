-- ===== src/Ring/Shares.antt =====
-- How many virtual nodes a node has after an operation, and which.
use predictive_consistent_ha.Prelude.{
  ℕ, zero, suc, String, true, Option, some, List, [], ◌∷◌, ◌++◌, ◌+◌, ◌-◌, ◌≤◌, ◌<◌, ◌≡◌, ◌≢◌, refl,
  sym, ap, ◌∙◌, ◌⊎◌, inl, inr, arith, length, length-append, length-take, take, drop,
  take-append-drop, nat_eq, string_eq, ==_refl, get_or_else, subst, max, >>=-eq-some, append-nil,
  append_assoc,
}
use predictive_consistent_ha.Prelude.Dict.{lookup, insert, contains, lookup-insert}
use predictive_consistent_ha.Prelude.Float.{Float, le, of_nat}
use predictive_consistent_ha.Ring.{
  Hashing, murmurhash3, settle, vnode_key, Placing, put_vnode, place_vnodes, Ring, vnodes_of,
  get_vnode_count, prepare_node, add_node, grow_node, shrink_node, update_node_vnodes,
  compute_vnode_count, recalculate_avg_capacity,
}
use predictive_consistent_ha.Ring.Validity.{update_node_vnodes-cases}
use mathlib.Core.Option.{some-injective}

-- The loop appends one virtual node in each round.
place_vnodes-appends :
    (h : Hashing) (n : String) (rounds i : ℕ) (p : Placing) {p' : Placing}
    → place_vnodes h n rounds i p ≡ some p'
    → (more : List ℕ) × (p'.vnodes ≡ p.vnodes ++ more) × (length more ≡ rounds)
unfolding place_vnodes
place_vnodes-appends h n zero i p e = (
  [],
  ap (λ (u : Placing). u.vnodes) (sym (some-injective p _ e)) ∙ sym (append-nil p.vnodes),
  refl,
)
place_vnodes-appends h n (suc rounds) i p {p'} e =
    let key = vnode_key n i in
    let (a, found, rest) =
      >>=-eq-some
        (settle h (suc (length p.position_to_node)) p.position_to_node key (murmurhash3 h key)) _
        e in
    let (more, split, count) = place_vnodes-appends h n rounds (i + 1) (put_vnode n p a) rest in
    (a ∷ more, split ∙ append_assoc p.vnodes (a ∷ []) more, ap suc count)

module _ {W : Type 0} ⦃f : Float W⦄ where
  other_list :
      (n m : String) (vs : List ℕ) (r : Ring W)
      → m ≢ n
      → get_or_else (lookup m (insert n vs r.node_vnodes)) [] ≡ vnodes_of m r
  other_list n m vs r other =
      ground (arith, lookup-insert m n vs r.node_vnodes, string_eq.beq_iff n m)

  shrink_node-others :
      (n m : String) (wanted : ℕ) (now : W) (r : Ring W)
      → m ≢ n
      → vnodes_of m (shrink_node n wanted now r) ≡ vnodes_of m r
  unfolding shrink_node
  shrink_node-others n m wanted now r other = other_list n m _ r other

  compute_vnode_count-ge :
      (r : Ring W) (score : ℕ)
      → (le r.avg_capacity (of_nat 0) ≡ true) ⊎ (r.vnode_min_count ≤ compute_vnode_count r score)
  unfolding compute_vnode_count
  compute_vnode_count-ge r score = ground arith

  prepare_node-price :
      (n : String) (score : ℕ) (now : W) (r : Ring W)
      → lookup n (prepare_node n score now r).node_capacities ≡ some score
  unfolding prepare_node recalculate_avg_capacity
  prepare_node-price n score now r = rw (lookup-insert, ==_refl)

  -- `add_node` returns the number of virtual nodes that the node then has, which is at least the
  -- minimum while the average capacity is positive.
  pub add_node-count :
      (h : Hashing) (n : String) (score : ℕ) (now : W) (r r' : Ring W) (count : ℕ)
      → add_node h n score now r ≡ some (r', count)
      → (get_vnode_count n r' ≡ count)
        × (contains n r'.node_vnodes ≡ true)
        × (lookup n r'.node_capacities ≡ some score)
        × ((le r'.avg_capacity (of_nat 0) ≡ true) ⊎ (r'.vnode_min_count ≤ count))
  unfolding get_vnode_count add_node
  add_node-count h n score now r r' count e =
      let ready = prepare_node n score now r in
      let wanted = compute_vnode_count ready score in
      let (p, placed, done) = >>=-eq-some (place_vnodes h n wanted 0 _) _ e in
      let (more, split, enough) = place_vnodes-appends h n wanted 0 _ placed in
      let stored : lookup n (insert n p.vnodes ready.node_vnodes) ≡ some p.vnodes =
        rw (lookup-insert, ==_refl) in
      subst
        (λ (u : Ring W × ℕ).
          (length (vnodes_of n u.0) ≡ u.1)
          × (contains n u.0.node_vnodes ≡ true)
          × (lookup n u.0.node_capacities ≡ some score)
          × ((le u.0.avg_capacity (of_nat 0) ≡ true) ⊎ (u.0.vnode_min_count ≤ u.1)))
        (some-injective _ _ done)
        (
          ap (λ (o : Option (List ℕ)). length (get_or_else o [])) stored ∙ ap length split ∙ enough,
          rw stored refl,
          prepare_node-price n score now r,
          compute_vnode_count-ge ready score,
        )

  grow_node-share :
      (h : Hashing) (n : String) (wanted : ℕ) (now : W) (r r' : Ring W)
      → length (vnodes_of n r) < wanted
      → grow_node h n wanted now r ≡ some r'
      → ((more : List ℕ) × (vnodes_of n r' ≡ vnodes_of n r ++ more))
        × (length (vnodes_of n r') ≡ wanted)
        × ((vs : List ℕ) × (r'.node_vnodes ≡ insert n vs r.node_vnodes))
  unfolding grow_node
  grow_node-share h n wanted now r r' less e =
      let old = vnodes_of n r in
      let (p, placed, done) =
        >>=-eq-some
          (place_vnodes h n (wanted - length old) (length old) (record {
            positions = r.positions;
            position_to_node = r.position_to_node;
            vnodes = old;
          }))
          _ e in
      let (more, split, enough) = place_vnodes-appends h n _ _ _ placed in
      let stored : lookup n (insert n p.vnodes r.node_vnodes) ≡ some p.vnodes =
        rw (lookup-insert, ==_refl) in
      let now_has = ap (λ (o : Option (List ℕ)). get_or_else o []) stored ∙ split in
      subst
        (λ (u : Ring W).
          ((more : List ℕ) × (vnodes_of n u ≡ vnodes_of n r ++ more))
          × (length (vnodes_of n u) ≡ wanted)
          × ((vs : List ℕ) × (u.node_vnodes ≡ insert n vs r.node_vnodes)))
        (some-injective _ _ done)
        (
          (more, now_has),
          ap length now_has ∙ omega (arith, length-append old more),
          (p.vnodes, refl),
        )

  shrink_node-share :
      (n : String) (wanted : ℕ) (now : W) (r : Ring W)
      → vnodes_of n (shrink_node n wanted now r) ≡ take wanted (vnodes_of n r)
  unfolding shrink_node
  shrink_node-share n wanted now r = rw (lookup-insert, ==_refl)

  -- `update_node_vnodes` on a node of the ring gives it the wanted number of virtual nodes, the
  -- minimum at least, and keeps the old ones from the front: one of the old and the new list begins
  -- with the other.
  pub update_node_vnodes-share :
      (h : Hashing) (n : String) (count : ℕ) (now : W) (r r' : Ring W)
      → contains n r.node_vnodes ≡ true
      → update_node_vnodes h n count now r ≡ some r'
      → (get_vnode_count n r' ≡ max count r.vnode_min_count)
        × (rest : List ℕ) × ((vnodes_of n r' ≡ vnodes_of n r ++ rest)
            ⊎ (vnodes_of n r ≡ vnodes_of n r' ++ rest))
  unfolding get_vnode_count
  update_node_vnodes-share h n count now r r' here e =
      let wanted = max count r.vnode_min_count in
      elim (update_node_vnodes-cases h n count now r r' e) [
        | inl (same, enough) ↦ (
          ap (λ (u : Ring W). length (vnodes_of n u)) (sym same) ∙ ground arith,
          [],
          inl (ap (vnodes_of n) (sym same) ∙ sym (append-nil _)),
        )
        | inr (inl (_, less, grown)) ↦
            let ((more, split), enough, _) = grow_node-share h n wanted now r r' less grown in
            (enough, more, inl split)
        | inr (inr (_, less, shrunk)) ↦
            let kept = ap (vnodes_of n) (sym shrunk) ∙ shrink_node-share n wanted now r in
            (
              ap length kept ∙ omega (arith, length-take wanted (vnodes_of n r)),
              drop wanted (vnodes_of n r),
              inr (
                  sym (take-append-drop wanted (vnodes_of n r))
                  ∙ ap (λ l. l ++ drop wanted (vnodes_of n r)) (sym kept)),
            )
      ]

  -- Resizing one node leaves the lists of all others alone.
  pub update_node_vnodes-others :
      (h : Hashing) (n m : String) (count : ℕ) (now : W) (r r' : Ring W)
      → m ≢ n
      → update_node_vnodes h n count now r ≡ some r'
      → vnodes_of m r' ≡ vnodes_of m r
  update_node_vnodes-others h n m count now r r' other e =
      elim (update_node_vnodes-cases h n count now r r' e) [
        | inl (same, _) ↦ ap (vnodes_of m) (sym same)
        | inr (inl (_, less, grown)) ↦
            let (_, _, (vs, stored)) = grow_node-share h n _ now r r' less grown in
            ap (λ d. get_or_else (lookup m d) []) stored ∙ other_list n m vs r other
        | inr (inr (_, less, shrunk)) ↦
            ap (vnodes_of m) (sym shrunk) ∙ shrink_node-others n m _ now r other
      ]
