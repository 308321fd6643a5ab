-- ===== src/Baselines/StaticRing.antt =====
-- evaluation/baselines/static_consistent_hash.py, `StaticConsistentHashAllocator`: a ring whose shares
-- are never resized.
use predictive_consistent_ha.Prelude.{
  ℕ, String, Option, some, List, [], ◌∷◌, ◌≡◌, subst, ◌>>=◌, >>=-eq-some,
}
use predictive_consistent_ha.Prelude.Float.{Float}
use predictive_consistent_ha.Ring
use predictive_consistent_ha.Ring.{Hashing, Ring}
use predictive_consistent_ha.Ring.Validity.{IsValid, init-IsValid, add_node-IsValid}
use mathlib.Core.Option.{some-injective}

module _ {W : Type 0} ⦃f : Float W⦄ where
  -- `__init__`, with the ring's default minimum
  unfoldable pub init : ℕ → W → Ring W
  unfolding Ring.init
  init vnode_base_count now = Ring.init vnode_base_count 10 now

  unfoldable pub set_nodes : Hashing → W → List (String × ℕ) → Ring W → Option (Ring W)
  unfolding Ring.add_node
  set_nodes h now [] r = some r
  set_nodes h now ((name, capacity) ∷ rest) r =
      Ring.add_node h name capacity now r >>= λ added. set_nodes h now rest added.0

  get_node : Hashing → String → Ring W → Option String
  unfolding Ring.get_node
  get_node h key r = Ring.get_node h key r

  remove_node : String → W → Ring W → Ring W
  unfolding Ring.remove_node
  remove_node node_name now r = (Ring.remove_node node_name now r).0

  add_node : Hashing → String → ℕ → W → Ring W → Option (Ring W)
  unfolding Ring.add_node
  add_node h node_name capacity_score now r =
      Ring.add_node h node_name capacity_score now r >>= λ added. some added.0

  set_nodes-keeps :
      (h : Hashing) (now : W) (nodes : List (String × ℕ)) (r r' : Ring W)
      → IsValid r
      → set_nodes h now nodes r ≡ some r'
      → IsValid r'
  unfolding set_nodes
  set_nodes-keeps h now [] r r' v e = subst IsValid (some-injective _ _ e) v
  set_nodes-keeps h now ((name, capacity) ∷ rest) r r' v e =
      let (added, done, more) = >>=-eq-some (Ring.add_node h name capacity now r) _ e in
      set_nodes-keeps h now rest added.0 r' (add_node-IsValid h name capacity now r v done) more

  -- The allocator's ring is valid after `__init__` and `set_nodes`, also on names that repeat.
  pub set_nodes-IsValid :
      (h : Hashing) (base : ℕ) (start now : W) (nodes : List (String × ℕ)) (r : Ring W)
      → set_nodes h now nodes (init base start) ≡ some r
      → IsValid r
  unfolding init
  set_nodes-IsValid h base start now nodes r e =
      set_nodes-keeps h now nodes (init base start) r (init-IsValid base 10 start) e
