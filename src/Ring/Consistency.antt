-- ===== src/Ring/Consistency.antt =====
-- Consistent hashing: a change of one node moves only keys of that node.
use predictive_consistent_ha.Prelude.{
  ℕ, zero, suc, String, true, false, none, some, List, [], ◌∷◌, ◌+◌, ◌-◌, ◌≡◌, ◌≢◌, sym, ap, ◌∙◌,
  ◌⊎◌, inl, inr, arith, length, drop, elem, nat_eq, string_eq, ==_lem, ==_ne, ◌<◌, ◌==◌, subst, max,
  >>=-eq-some, Bool-cases,
}
use predictive_consistent_ha.Prelude.Dict.{Dict, lookup, contains, lookup-insert}
use predictive_consistent_ha.Prelude.Float.{Float}
use predictive_consistent_ha.Ring.{
  Hashing, murmurhash3, settle, vnode_key, Placing, put_vnode, place_vnodes, Ring, get_node,
  vnodes_of, remove_node, prepare_node, add_node, grow_node, shrink_node, update_node_vnodes,
  compute_vnode_count, recalculate_avg_capacity,
}
use predictive_consistent_ha.Ring.Index.{is_owner→eq, settle_free, lookup-drop_vnodes}
use predictive_consistent_ha.Ring.Lookup.{Serves, Serves-eq, Serves-contains, get_node-Serves}
use predictive_consistent_ha.Ring.Validity.{
  IsValid, remove_node-IsValid, add_node-IsValid, update_node_vnodes-IsValid,
  update_node_vnodes-cases, contains-remove_node,
}
use mathlib.Core.Option.{some-injective}

-- `big` has the owners of `small`, and more positions that belong to `n`.
abbrev pub Extends : String → Dict ℕ String → Dict ℕ String → Type 0
Extends n small big =
    (q : ℕ) → (lookup q big ≡ lookup q small) ⊎ ((lookup q small ≡ none) × (lookup q big ≡ some n))

elem-drop : (k : ℕ) (xs : List ℕ) (q : ℕ) → elem q (drop k xs) ≡ true → elem q xs ≡ true
elem-drop zero xs q h = h
elem-drop (suc k) [] q h = h
elem-drop (suc k) (x ∷ xs) q h = ground (arith, elem-drop k xs q)

-- The loop that adds virtual nodes for `n` takes only free positions.
place_vnodes-Extends :
    (h : Hashing) (n : String) (rounds i : ℕ) (p : Placing) {p' : Placing}
    → place_vnodes h n rounds i p ≡ some p'
    → Extends n p.position_to_node p'.position_to_node
unfolding place_vnodes
place_vnodes-Extends h n zero i p e q =
    inl (ap (λ (u : Placing). lookup q u.position_to_node) (sym (some-injective p _ e)))
place_vnodes-Extends h n (suc rounds) i p {p'} e q =
    let key = vnode_key n i in
    let (a, found, rest) =
      >>=-eq-some
        (settle h (suc (length p.position_to_node)) p.position_to_node key (murmurhash3 h key)) _
        e in
    ground (
      arith,
      place_vnodes-Extends h n rounds (i + 1) (put_vnode n p a) rest q,
      settle_free h _ p.position_to_node key (murmurhash3 h key) found,
      lookup-insert q a n p.position_to_node,
      nat_eq.beq_iff a q,
    )

module _ {W : Type 0} where
  -- What the bigger ring serves from another node than `n`, the smaller one serves alike.
  pub Serves-restrict :
      (n m : String) (x : ℕ) (small big : Ring W)
      → IsValid small
      → IsValid big
      → Extends n small.position_to_node big.position_to_node
      → m ≢ n
      → Serves big x (some m)
      → Serves small x (some m)
  Serves-restrict n m x small big v w ext other (p, s, e) =
      let kept : lookup p small.position_to_node ≡ some m = ground (arith, ext p, other) in
      (
        p,
        record {
          member = ground (arith, v.index.indexed p);
          nearest =
              λ q h. s.nearest q (ground (arith, ext q, v.index.indexed q, w.index.indexed q));
        },
        kept,
      )

module _ {W : Type 0} ⦃f : Float W⦄ where
  -- The same for `get_node`.
  pub get_node-restrict :
      (h : Hashing) (key : String) (n m : String) (small big : Ring W)
      → IsValid small
      → IsValid big
      → Extends n small.position_to_node big.position_to_node
      → m ≢ n
      → get_node h key big ≡ some m
      → get_node h key small ≡ some m
  get_node-restrict h key n m small big v w ext other e =
      let x = murmurhash3 h key in
      let there =
        Serves-restrict n m x small big v w ext other
          (subst (Serves big x) e (get_node-Serves h key big w)) in
      Serves-eq small x m (get_node h key small) (get_node-Serves h key small v) there

  remove_node-Extends :
      (n : String) (now : W) (r : Ring W)
      → IsValid r
      → Extends n (remove_node n now r).0.position_to_node r.position_to_node
  unfolding remove_node recalculate_avg_capacity
  remove_node-Extends n now r v q = ground (
    arith,
    lookup-drop_vnodes q (vnodes_of n r) r.positions r.position_to_node,
    v.index.owned n q,
    is_owner→eq n (lookup q r.position_to_node),
  )

  -- Removing a node leaves every key of another node where it was.
  pub remove_node-keeps :
      (h : Hashing) (key n m : String) (now : W) (r : Ring W)
      → IsValid r
      → get_node h key r ≡ some m
      → m ≢ n
      → get_node h key (remove_node n now r).0 ≡ some m
  remove_node-keeps h key n m now r v e other =
      get_node-restrict h key n m (remove_node n now r).0 r (remove_node-IsValid n now r v) v
        (remove_node-Extends n now r v) other e

  -- No key is sent to a removed node, and each key goes to a node of the ring.
  pub get_node-remove_node :
      (h : Hashing) (key n m : String) (now : W) (r : Ring W)
      → IsValid r
      → get_node h key (remove_node n now r).0 ≡ some m
      → (m ≢ n) × (contains m r.node_vnodes ≡ true)
  get_node-remove_node h key n m now r v e =
      let r' = (remove_node n now r).0 in
      let w = remove_node-IsValid n now r v in
      let left =
        Serves-contains r' (murmurhash3 h key) m w
          (subst (Serves r' _) e (get_node-Serves h key r' w)) in
      ground (arith, contains-remove_node n m now r, string_eq.beq_iff n m)

  prepare_node-owners :
      (n : String) (score : ℕ) (now : W) (r : Ring W)
      → contains n r.node_vnodes ≡ false
      → (prepare_node n score now r).position_to_node ≡ r.position_to_node
  unfolding prepare_node recalculate_avg_capacity
  prepare_node-owners n score now r absent = ground arith

  add_node-Extends :
      (h : Hashing) (n : String) (score : ℕ) (now : W) (r : Ring W) {r' : Ring W} {count : ℕ}
      → contains n r.node_vnodes ≡ false
      → add_node h n score now r ≡ some (r', count)
      → Extends n r.position_to_node r'.position_to_node
  unfolding add_node
  add_node-Extends h n score now r {r'} absent e =
      let ready = prepare_node n score now r in
      let (p, placed, done) =
        >>=-eq-some (place_vnodes h n (compute_vnode_count ready score) 0 _) _ e in
      subst (λ (o : Ring W). Extends n r.position_to_node o.position_to_node)
        (ap (λ u. u.0) (some-injective _ _ done))
        (subst (λ (o : Dict ℕ String). Extends n o p.position_to_node)
          (prepare_node-owners n score now r absent) (place_vnodes-Extends h n _ 0 _ placed))

  -- Adding a new node moves keys to that node only: a key that another node serves afterwards was
  -- served by that node before.
  pub add_node-moves :
      (h : Hashing) (key n m : String) (score : ℕ) (now : W) (r r' : Ring W) (count : ℕ)
      → IsValid r
      → contains n r.node_vnodes ≡ false
      → add_node h n score now r ≡ some (r', count)
      → get_node h key r' ≡ some m
      → m ≢ n
      → get_node h key r ≡ some m
  add_node-moves h key n m score now r r' count v absent e at_r' other =
      get_node-restrict h key n m r r' v (add_node-IsValid h n score now r v e)
        (add_node-Extends h n score now r absent e) other at_r'

  grow_node-Extends :
      (h : Hashing) (n : String) (count : ℕ) (now : W) (r : Ring W) {r' : Ring W}
      → grow_node h n count now r ≡ some r'
      → Extends n r.position_to_node r'.position_to_node
  unfolding grow_node
  grow_node-Extends h n count now r e =
      let old = vnodes_of n r in
      let (p, placed, done) =
        >>=-eq-some
          (place_vnodes h n (count - length old) (length old) (record {
            positions = r.positions;
            position_to_node = r.position_to_node;
            vnodes = old;
          }))
          _ e in
      subst (λ (o : Ring W). Extends n r.position_to_node o.position_to_node)
        (some-injective _ _ done) (place_vnodes-Extends h n _ _ _ placed)

  shrink_node-Extends :
      (n : String) (count : ℕ) (now : W) (r : Ring W)
      → IsValid r
      → Extends n (shrink_node n count now r).position_to_node r.position_to_node
  unfolding shrink_node
  shrink_node-Extends n count now r v q = ground (
    arith,
    lookup-drop_vnodes q (drop count (vnodes_of n r)) r.positions r.position_to_node,
    elem-drop count (vnodes_of n r) q,
    v.index.owned n q,
    is_owner→eq n (lookup q r.position_to_node),
  )

  -- Resizing a node's share moves keys to that node only if it grows, and away from it only if it
  -- shrinks.
  pub update_node_vnodes-moves :
      (h : Hashing) (key n m m' : String) (count : ℕ) (now : W) (r r' : Ring W)
      → IsValid r
      → update_node_vnodes h n count now r ≡ some r'
      → get_node h key r ≡ some m
      → get_node h key r' ≡ some m'
      → let wanted = max count r.vnode_min_count in
        let current = length (vnodes_of n r) in
        (m ≡ m') ⊎ ((current < wanted) × (m' ≡ n)) ⊎ ((wanted < current) × (m ≡ n))
  update_node_vnodes-moves h key n m m' count now r r' v e at_r at_r' =
      let w = update_node_vnodes-IsValid h n count now r v e in
      elim (update_node_vnodes-cases h n count now r r' e) [
        | inl (same, _) ↦ inl (some-injective m m' (sym at_r ∙ ap (get_node h key) same ∙ at_r'))
        | inr (inl (_, more, grown)) ↦ elim (Bool-cases (m' == n)) [
          | inl here ↦ inr (inl (more, ==_lem m' n here))
          | inr other ↦ inl (
              some-injective m m' (
                sym at_r
                ∙ get_node-restrict h key n m' r r' v w (grow_node-Extends h n _ now r grown)
                    (==_ne m' n other) at_r'))
        ]
        | inr (inr (_, less, shrunk)) ↦ elim (Bool-cases (m == n)) [
          | inl here ↦ inr (inr (less, ==_lem m n here))
          | inr other ↦ inl (
              some-injective m m' (
                sym (
                  get_node-restrict h key n m r' r w v
                    (subst (λ (o : Ring W). Extends n o.position_to_node r.position_to_node) shrunk
                      (shrink_node-Extends n _ now r v))
                    (==_ne m n other) at_r)
                ∙ at_r'))
        ]
      ]
