-- ===== src/Ring/Validity.antt =====
-- The ring's invariant, and that `__init__` and every operation that changes the ring keep it.
use predictive_consistent_ha.Prelude.{
  ℕ, String, true, false, not, ◌&&◌, ◌||◌, some, List, [], ◌-◌, ◌<◌, ◌⊎◌, max, ◌≡◌, refl, sym, ◌∙◌,
  ap, subst, arith, ◌==◌, Distinct, length, take, drop, take-append-drop, nat_eq, string_eq,
  ==_refl, Bool-cases, inl, inr, >>=-eq-some,
}
use predictive_consistent_ha.Prelude.Dict.{
  Dict, keys, insert, contains, lookup-insert, lookup-erase, lookup_congr, insert-Distinct,
  erase-Distinct,
}
use predictive_consistent_ha.Prelude.Float.{Float}
use predictive_consistent_ha.Ring.{
  Hashing, Placing, place_vnodes, Ring, init, compute_vnode_count, recalculate_avg_capacity,
  vnodes_of, remove_node, prepare_node, add_node, grow_node, shrink_node, update_node_vnodes,
}
use predictive_consistent_ha.Ring.Index.{
  IsIndexed, IsIndexed-ext, with_node, place_vnodes-IsIndexed, drop_vnodes-IsIndexed,
}
use mathlib.Core.Option.{some-injective}

module _ {W : Type 0} where
  pub record IsValid (r : Ring W) : Type 0 where
    pub index : IsIndexed r.positions r.position_to_node (λ n. vnodes_of n r)
    pub names : Distinct (keys r.node_vnodes)
    pub priced : (n : String) → contains n r.node_capacities ≡ contains n r.node_vnodes
    pub prices : Distinct (keys r.node_capacities)

module _ {W : Type 0} ⦃f : Float W⦄ where
  -- The empty ring is valid.
  pub init-IsValid : (base least : ℕ) (now : W) → IsValid (init base least now)
  unfolding init
  init-IsValid base least now = record {
    index = record { sorted = tt; indexed = λ p. refl; owned = λ n p. refl; distinct = λ n. tt };
    names = tt;
    priced = λ n. refl;
    prices = tt;
  }

  -- Removing a node keeps the ring valid.
  pub remove_node-IsValid :
      (n : String) (now : W) (r : Ring W) → IsValid r → IsValid (remove_node n now r).0
  unfolding remove_node recalculate_avg_capacity
  remove_node-IsValid n now r v = elim (Bool-cases (contains n r.node_vnodes)) [
    | inl here ↦ rw here (record {
      index =
          IsIndexed-ext _ _ (with_node n [] (λ m. vnodes_of m r)) _
            (λ m. ground (arith, lookup-erase m n r.node_vnodes))
            (drop_vnodes-IsIndexed n (λ m. vnodes_of m r) [] (vnodes_of n r) r.positions
              r.position_to_node refl v.index);
      names = erase-Distinct n r.node_vnodes v.names;
      priced = λ m.
          ground
            (arith, lookup-erase m n r.node_vnodes, lookup-erase m n r.node_capacities, v.priced m);
      prices = erase-Distinct n r.node_capacities v.prices;
    })
    | inr gone ↦ rw gone v
  ]

  -- After `remove_node` the node has no list of virtual nodes.
  pub contains-remove_node :
      (n m : String) (now : W) (r : Ring W)
      → contains m (remove_node n now r).0.node_vnodes ≡ (not (n == m) && contains m r.node_vnodes)
  unfolding remove_node recalculate_avg_capacity
  contains-remove_node n m now r =
      ground (arith, lookup-erase m n r.node_vnodes, lookup_congr n m r.node_vnodes)

  -- The state in which `add_node` enters its loop: the name has no virtual nodes and has a price.
  record IsPrepared (n : String) (r : Ring W) : Type 0 where
    index : IsIndexed r.positions r.position_to_node (λ m. vnodes_of m r)
    names : Distinct (keys r.node_vnodes)
    absent : contains n r.node_vnodes ≡ false
    priced : (m : String) → contains m r.node_capacities ≡ (n == m || contains m r.node_vnodes)
    prices : Distinct (keys r.node_capacities)

  noted-IsPrepared :
      (n : String) (score : ℕ) (r : Ring W)
      → IsValid r
      → contains n r.node_vnodes ≡ false
      → IsPrepared n (
          recalculate_avg_capacity
            (record r { node_capacities = insert n score r.node_capacities }))
  unfolding recalculate_avg_capacity
  noted-IsPrepared n score r v absent = record {
    index = v.index;
    names = v.names;
    absent = absent;
    priced = λ m. ground (arith, lookup-insert m n score r.node_capacities, v.priced m);
    prices = insert-Distinct n score r.node_capacities v.prices;
  }

  prepare_node-IsPrepared :
      (n : String) (score : ℕ) (now : W) (r : Ring W)
      → IsValid r
      → IsPrepared n (prepare_node n score now r)
  unfolding prepare_node
  prepare_node-IsPrepared n score now r v = elim (Bool-cases (contains n r.node_vnodes)) [
    | inl here ↦ rw here (
        noted-IsPrepared n score _ (remove_node-IsValid n now r v)
          (contains-remove_node n n now r ∙ ground (arith, ==_refl n)))
    | inr gone ↦ rw gone (noted-IsPrepared n score r v gone)
  ]

  -- Adding a node, new or old, keeps the ring valid.
  pub add_node-IsValid :
      (h : Hashing) (n : String) (score : ℕ) (now : W) (r : Ring W) {r' : Ring W} {count : ℕ}
      → IsValid r
      → add_node h n score now r ≡ some (r', count)
      → IsValid r'
  unfolding add_node
  add_node-IsValid h n score now r v e =
      let ready = prepare_node n score now r in
      let t = prepare_node-IsPrepared n score now r v in
      let (p, placed, done) =
        >>=-eq-some (place_vnodes h n (compute_vnode_count ready score) 0 _) _ e in
      subst IsValid (ap (λ u. u.0) (some-injective _ _ done)) (record {
        index =
            IsIndexed-ext _ _ (with_node n p.vnodes (λ m. vnodes_of m ready)) _
              (λ m. ground (arith, lookup-insert m n p.vnodes ready.node_vnodes))
              (place_vnodes-IsIndexed n (λ m. vnodes_of m ready) h _ 0 _ placed
                (IsIndexed-ext _ _ (λ m. vnodes_of m ready) _
                  (λ m. ground (arith, t.absent, lookup_congr n m ready.node_vnodes)) t.index));
        names = insert-Distinct n p.vnodes ready.node_vnodes t.names;
        priced = λ m. ground (arith, lookup-insert m n p.vnodes ready.node_vnodes, t.priced m);
        prices = t.prices;
      })

  -- The change that `update_node_vnodes` makes to one node's list.
  with_list :
      (n : String) (vs positions : List ℕ) (owners : Dict ℕ String) (now : W) (r : Ring W)
      → IsValid r
      → contains n r.node_vnodes ≡ true
      → IsIndexed positions owners (with_node n vs (λ m. vnodes_of m r))
      → IsValid (record r {
        positions = positions;
        position_to_node = owners;
        node_vnodes = insert n vs r.node_vnodes;
        last_updated = now;
      })
  with_list n vs positions owners now r v here t = record {
    index =
        IsIndexed-ext _ _ (with_node n vs (λ m. vnodes_of m r)) _
          (λ m. ground (arith, lookup-insert m n vs r.node_vnodes)) t;
    names = insert-Distinct n vs r.node_vnodes v.names;
    priced = λ m. ground (
      arith,
      lookup-insert m n vs r.node_vnodes,
      v.priced m,
      here,
      lookup_congr n m r.node_vnodes,
    );
    prices = v.prices;
  }

  grown-IsIndexed :
      (h : Hashing) (n : String) (rounds i : ℕ) (r : Ring W) {p : Placing}
      → IsValid r
      → place_vnodes h n rounds i (record {
        positions = r.positions;
        position_to_node = r.position_to_node;
        vnodes = vnodes_of n r;
      })
        ≡ some p
      → IsIndexed p.positions p.position_to_node (with_node n p.vnodes (λ m. vnodes_of m r))
  grown-IsIndexed h n rounds i r v placed =
      place_vnodes-IsIndexed n (λ m. vnodes_of m r) h rounds i _ placed
        (IsIndexed-ext _ _ (λ m. vnodes_of m r) _
          (λ m. ground (arith, lookup_congr n m r.node_vnodes)) v.index)

  -- What `update_node_vnodes` returned, by the branch that it took.
  pub update_node_vnodes-cases :
      (h : Hashing) (n : String) (count : ℕ) (now : W) (r r' : Ring W)
      → update_node_vnodes h n count now r ≡ some r'
      → let wanted = max count r.vnode_min_count in
        let current = length (vnodes_of n r) in
        ((r ≡ r') × ((contains n r.node_vnodes ≡ false) ⊎ (current ≡ wanted)))
        ⊎ ((contains n r.node_vnodes ≡ true)
            × (current < wanted)
            × (grow_node h n wanted now r ≡ some r'))
        ⊎ ((contains n r.node_vnodes ≡ true)
            × (wanted < current)
            × (shrink_node n wanted now r ≡ r'))
  unfolding update_node_vnodes
  update_node_vnodes-cases h n count now r r' e = ground arith

  pub grow_node-IsValid :
      (h : Hashing) (n : String) (count : ℕ) (now : W) (r : Ring W) {r' : Ring W}
      → IsValid r
      → contains n r.node_vnodes ≡ true
      → grow_node h n count now r ≡ some r'
      → IsValid r'
  unfolding grow_node
  grow_node-IsValid h n count now r v here e =
      let old = vnodes_of n r in
      let (p, placed, done) =
        >>=-eq-some
          (place_vnodes h n (count - length old) (length old) (record {
            positions = r.positions;
            position_to_node = r.position_to_node;
            vnodes = old;
          }))
          _ e in
      subst IsValid (some-injective _ _ done) (
        with_list n p.vnodes p.positions p.position_to_node now r v here
          (grown-IsIndexed h n _ _ r v placed))

  pub shrink_node-IsValid :
      (n : String) (count : ℕ) (now : W) (r : Ring W)
      → IsValid r
      → contains n r.node_vnodes ≡ true
      → IsValid (shrink_node n count now r)
  unfolding shrink_node
  shrink_node-IsValid n count now r v here =
      let old = vnodes_of n r in
      with_list n (take count old) _ _ now r v here (
        drop_vnodes-IsIndexed n (λ m. vnodes_of m r) (take count old) (drop count old) r.positions
          r.position_to_node (sym (take-append-drop count old)) v.index)

  -- Resizing a node's share keeps the ring valid.
  pub update_node_vnodes-IsValid :
      (h : Hashing) (n : String) (count : ℕ) (now : W) (r : Ring W) {r' : Ring W}
      → IsValid r
      → update_node_vnodes h n count now r ≡ some r'
      → IsValid r'
  update_node_vnodes-IsValid h n count now r {r'} v e =
      elim (update_node_vnodes-cases h n count now r r' e) [
        | inl (same, _) ↦ subst IsValid same v
        | inr (inl (here, _, grown)) ↦ grow_node-IsValid h n _ now r v here grown
        | inr (inr (here, _, shrunk)) ↦ subst IsValid shrunk (shrink_node-IsValid n _ now r v here)
      ]
