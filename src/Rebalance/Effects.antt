-- ===== src/Rebalance/Effects.antt =====
-- What one reallocation does to the ring and to the allocator's history.
use predictive_consistent_ha.Prelude.{
  ℕ, String, true, Option, some, List, [], ◌∷◌, ◌++◌, ◌+◌, ◌*◌, ◌-◌, ◌≤◌, ◌≡◌, ◌≢◌, sym, ap, ◌∙◌,
  subst, arith, max, length, length-append, length-drop, nat_eq, string_eq, >>=-eq-some,
  if◌then◌else◌, ◌==◌, inl, inr, ◌⊎◌,
}
use predictive_consistent_ha.Prelude.Dict.{keys, contains}
use predictive_consistent_ha.Prelude.Float.{Float}
use predictive_consistent_ha.Ring.{Hashing, Ring, update_node_vnodes, vnodes_of, get_vnode_count}
use predictive_consistent_ha.Ring.Views.{nodes, get_node_vnode_count}
use predictive_consistent_ha.Ring.Validity.{IsValid, update_node_vnodes-IsValid}
use predictive_consistent_ha.Ring.Shares.{update_node_vnodes-share, update_node_vnodes-others}
use predictive_consistent_ha.Allocation.{Metrics, Engine, get_node_metrics}
use predictive_consistent_ha.Rebalance.{
  Allocator, Cycle, append_bounded, target, adjust_node, adjust_nodes, start_cycle, note_run,
  recalculate_nodes, recalculate, get_base_vnodes,
}
use mathlib.Core.Option.{some-injective}

pub append_bounded-le {ℓ} :
    {A : Type ℓ} (maxlen : ℕ) (items : List A) (item : A)
    → length (append_bounded maxlen items item) ≤ maxlen
unfolding append_bounded
append_bounded-le maxlen items item = omega (
  arith,
  length-drop (length items + 1 - maxlen) (items ++ item ∷ []),
  length-append items (item ∷ []),
)

-- The two ways through a conditional update.
choose-cases {ℓ} :
    {A : Type ℓ} (i j : ℕ) (x : A) (o : Option A) (y : A)
    → (if i == j then some x else o) ≡ some y
    → ((i ≡ j) × (x ≡ y)) ⊎ (o ≡ some y)
choose-cases i j x o y e = ground (arith, nat_eq.beq_iff i j)

module _ {W : Type 0} ⦃f : Float W⦄ where
  -- A node's target is at least the minimum, and at most twice its base count, or the minimum.
  pub target-bounds :
      (a : Allocator W) (base : ℕ) (m : Metrics W)
      → (a.vnode_min_count ≤ target a base m) × (target a base m ≤ max a.vnode_min_count (base * 2))
  unfolding target
  target-bounds a base m = omega arith

  module _ (h : Hashing) (a : Allocator W) (e : Engine W) (now : W) where
    adjust_node-ring :
        (name : String) (c c' : Cycle W)
        → adjust_node h a e now name c ≡ some c'
        → let t = target a (get_base_vnodes a c.ring name) (get_node_metrics name e) in
          ((t ≡ get_node_vnode_count name c.ring) × (c.ring ≡ c'.ring))
          ⊎ (update_node_vnodes h name t now c.ring ≡ some c'.ring)
    unfolding adjust_node
    adjust_node-ring name c c' eq =
        let old_vnodes = get_node_vnode_count name c.ring in
        let t = target a (get_base_vnodes a c.ring name) (get_node_metrics name e) in
        let (r, resized, done) =
          >>=-eq-some
            (if t == old_vnodes then some c.ring else update_node_vnodes h name t now c.ring) _
            eq in
        let same : r ≡ c'.ring = ap (λ (x : Cycle W). x.ring) (some-injective _ _ done) in
        elim (choose-cases t old_vnodes _ _ _ resized) [
          | inl (equal, kept) ↦ inl (equal, kept ∙ same)
          | inr moved ↦ inr (moved ∙ ap some same)
        ]

    -- A round on a node of the ring gives it the target, or the ring's minimum if that is more, and
    -- leaves the virtual nodes of every other node alone.
    pub adjust_node-share :
        (name m : String) (c c' : Cycle W)
        → contains name c.ring.node_vnodes ≡ true
        → m ≢ name
        → adjust_node h a e now name c ≡ some c'
        → let t = target a (get_base_vnodes a c.ring name) (get_node_metrics name e) in
          ((get_vnode_count name c'.ring ≡ t)
            ⊎ (get_vnode_count name c'.ring ≡ max t c.ring.vnode_min_count))
          × (vnodes_of m c'.ring ≡ vnodes_of m c.ring)
    unfolding get_node_vnode_count
    adjust_node-share name m c c' known other eq = elim (adjust_node-ring name c c' eq) [
      | inl (equal, same) ↦
          (inl (ap (get_vnode_count name) (sym same) ∙ sym equal), ap (vnodes_of m) (sym same))
      | inr moved ↦ (
        inr (update_node_vnodes-share h name _ now c.ring c'.ring known moved).0,
        update_node_vnodes-others h name m _ now c.ring c'.ring other moved,
      )
    ]

    adjust_nodes-IsValid :
        (names : List String) (c c' : Cycle W)
        → adjust_nodes h a e now names c ≡ some c'
        → IsValid c.ring
        → IsValid c'.ring
    unfolding adjust_nodes
    adjust_nodes-IsValid [] c c' eq v =
        subst (λ (x : Cycle W). IsValid x.ring) (some-injective _ _ eq) v
    adjust_nodes-IsValid (name ∷ names) c c' eq v =
        let (d, first, rest) = >>=-eq-some (adjust_node h a e now name c) _ eq in
        adjust_nodes-IsValid names d c' rest (elim (adjust_node-ring name c d first) [
          | inl (_, same) ↦ subst IsValid same v
          | inr moved ↦ update_node_vnodes-IsValid h name _ now c.ring v moved
        ])

  note_run-le :
      (now took : W) (by : String) (a : Allocator W) (c : Cycle W)
      → length (note_run now took by a c).history ≤ 20
  unfolding note_run
  note_run-le now took by a c = append_bounded-le 20 a.history _

  recalculate_nodes-IsValid :
      (h : Hashing) (e : Engine W) (by : String) (now took : W) (names : List String)
      (r r' : Ring W) (a a' : Allocator W)
      → IsValid r
      → length a.history ≤ 20
      → recalculate_nodes h e by now took names r a ≡ some (r', a')
      → IsValid r' × (length a'.history ≤ 20)
  unfolding recalculate_nodes
  recalculate_nodes-IsValid h e by now took [] r r' a a' v room eq =
      subst (λ (x : Ring W × Allocator W). IsValid x.0 × (length x.1.history ≤ 20))
        (some-injective _ _ eq) (v, room)
  recalculate_nodes-IsValid h e by now took (name ∷ names) r r' a a' v room eq =
      let (c, ran, done) =
        >>=-eq-some (adjust_nodes h a e now (name ∷ names) (start_cycle r))
          (λ c. some (c.ring, note_run now took by a c)) eq in
      subst (λ (x : Ring W × Allocator W). IsValid x.0 × (length x.1.history ≤ 20))
        (some-injective _ _ done)
        (
          adjust_nodes-IsValid h a e now (name ∷ names) (start_cycle r) c ran v,
          note_run-le now took by a c,
        )

  -- A reallocation keeps the ring valid, and the history at no more than 20 records.
  pub recalculate-IsValid :
      (h : Hashing) (e : Engine W) (by : String) (now took : W) (r r' : Ring W) (a a' : Allocator W)
      → IsValid r
      → length a.history ≤ 20
      → recalculate h e by now took r a ≡ some (r', a')
      → IsValid r' × (length a'.history ≤ 20)
  unfolding recalculate
  recalculate-IsValid h e by now took r r' a a' v room eq =
      recalculate_nodes-IsValid h e by now took (keys (nodes r)) r r'
        (record a { run_count = a.run_count + 1 }) a' v room eq
