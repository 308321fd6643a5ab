-- ===== src/Coordinator/Ready.antt =====
-- What the startup of the coordinator leaves, and the engine over the polling of the nodes.
use predictive_consistent_ha.Prelude.{
  ℕ, String, true, Option, none, some, List, [], ◌∷◌, ◌≡◌, ◌↔◌, refl, sym, ◌∙◌, arith, All, is_some,
  ◌||◌, ◌==◌, ==_refl, string_eq, get_or_else, >>=-eq-some, Bool-cases, inl, inr, subst,
}
use predictive_consistent_ha.Prelude.Dict.{Dict, insert, contains, lookup-insert}
use predictive_consistent_ha.Prelude.Float.{Float}
use mathlib.Core.Option.{some-injective}
use predictive_consistent_ha.Ring.{Hashing, Ring, add_node}
use predictive_consistent_ha.Ring
use predictive_consistent_ha.Ring.Validity.{IsValid, add_node-IsValid, init-IsValid}
use predictive_consistent_ha.Allocation.{AllocationConfig, Metrics, update_node_metrics}
use predictive_consistent_ha.Coordinator.Startup.{
  NodeConfig, EngineState, Health, ChannelPool, round_robin, least_conn, static_hash, predictive,
  open_channels, initialize, get_channel, add_nodes, create_engine, update_metrics, seed_metrics,
  poll_node, weights_of,
}

module _ {V : Type 0} where
  contains-insert :
      (k j : String) (v : V) (m : Dict String V)
      → contains k m ≡ true
      → contains k (insert j v m) ≡ true
  contains-insert k j v m h = ground (arith, lookup-insert k j v m)

  contains_inserted : (k : String) (v : V) (m : Dict String V) → contains k (insert k v m) ≡ true
  contains_inserted k v m = ground (arith, lookup-insert k k v m, ==_refl k)

module _ {C : Type 0} (connect : String → C) where
  open_channels-keeps :
      (ns : List NodeConfig) (channels opened : Dict String C) (k : String)
      → open_channels connect ns channels ≡ some opened
      → contains k channels ≡ true
      → contains k opened ≡ true
  unfolding open_channels
  open_channels-keeps [] channels opened k e h =
      subst (λ m. contains k m ≡ true) (some-injective channels opened e) h
  open_channels-keeps (n ∷ ns) channels opened k e h =
      let (address, found, rest) = >>=-eq-some n.grpc_address _ e in
      open_channels-keeps ns _ opened k rest (contains-insert k n.name (connect address) channels h)

  open_channels-contains :
      (ns : List NodeConfig) (channels opened : Dict String C)
      → open_channels connect ns channels ≡ some opened
      → All (λ n. contains n.name opened ≡ true) ns
  unfolding open_channels
  open_channels-contains [] channels opened e = tt
  open_channels-contains (n ∷ ns) channels opened e =
      let (address, found, rest) = >>=-eq-some n.grpc_address _ e in
      (
        open_channels-keeps ns _ opened n.name rest
            (contains_inserted n.name (connect address) channels),
        open_channels-contains ns _ opened rest,
      )

module _ {W : Type 0} ⦃f : Float W⦄ where
  -- The ring that the startup builds is valid, also where names of nodes repeat.
  pub add_nodes-IsValid :
      (h : Hashing) (now : W) (ns : List NodeConfig) (r r' : Ring W)
      → IsValid r
      → add_nodes h now ns r ≡ some r'
      → IsValid r'
  unfolding add_nodes
  add_nodes-IsValid h now [] r r' v e = subst IsValid (some-injective r r' e) v
  add_nodes-IsValid h now (n ∷ ns) r r' v e =
      let (added, done, rest) =
        >>=-eq-some (add_node h n.name (get_or_else n.capacity_score 100) now r) _ e in
      add_nodes-IsValid h now ns added.0 r'
        (add_node-IsValid h n.name (get_or_else n.capacity_score 100) now r v done) rest

  -- The engine over a list of polls, each with what was fetched.
  unfoldable pub polled : List (String × Option (Health W) × W) → EngineState W → EngineState W
  polled [] e = e
  polled (p ∷ ps) e = polled ps (poll_node p.0 p.1 p.2 e)

  update_metrics-weights :
      (name : String) (m : Metrics W) (now : W) (e : EngineState W)
      → weights_of (update_metrics name m now e) ≡ weights_of e
  unfolding weights_of update_metrics update_node_metrics
  update_metrics-weights name m now (round_robin e) = refl
  update_metrics-weights name m now (least_conn e) = refl
  update_metrics-weights name m now (static_hash e) = refl
  update_metrics-weights name m now (predictive e) = refl

  poll_node-weights :
      (name : String) (m : Option (Health W)) (now : W) (e : EngineState W)
      → weights_of (poll_node name m now e) ≡ weights_of e
  unfolding poll_node
  poll_node-weights name none now e = refl
  poll_node-weights name (some m) now e = update_metrics-weights name _ now e

  polled-weights :
      (ps : List (String × Option (Health W) × W)) (e : EngineState W)
      → weights_of (polled ps e) ≡ weights_of e
  unfolding polled
  polled-weights [] e = refl
  polled-weights (p ∷ ps) e = polled-weights ps _ ∙ poll_node-weights p.0 p.1 p.2 e

  seed_metrics-weights :
      (now : W) (ns : List NodeConfig) (e : EngineState W)
      → weights_of (seed_metrics now ns e) ≡ weights_of e
  unfolding seed_metrics
  seed_metrics-weights now [] e = refl
  seed_metrics-weights now (n ∷ ns) e =
      seed_metrics-weights now ns _ ∙ update_metrics-weights n.name _ now e

  create_engine-weights :
      (mode : String) (names : List String) (r : Ring W) (config : Option (AllocationConfig W))
      → (weights_of (create_engine mode names r config) ≡ none)
        ↔ ((mode == "round_robin" || mode == "least_conn" || mode == "static_hash") ≡ true)
  unfolding create_engine weights_of
  create_engine-weights mode names r config = elim (Bool-cases (mode == "round_robin")) [
    | inl a ↦ rw a (λ _. refl, λ _. refl)
    | inr a ↦ elim (Bool-cases (mode == "least_conn")) [
      | inl b ↦ rw a (rw b (λ _. refl, λ _. refl))
      | inr b ↦ elim (Bool-cases (mode == "static_hash")) [
        | inl c ↦ rw a (rw b (rw c (λ _. refl, λ _. refl)))
        | inr c ↦
            rw a (rw b (rw c (λ h. absurd (ground (arith, h)), λ h. absurd (ground (arith, h)))))
      ]
    ]
  ]

  pub weights_of-none :
      (mode : String) (names : List String) (r : Ring W) (config : Option (AllocationConfig W))
      (now : W) (ns : List NodeConfig) (ps : List (String × Option (Health W) × W))
      → (weights_of (polled ps (seed_metrics now ns (create_engine mode names r config))) ≡ none)
        ↔ ((mode == "round_robin" || mode == "least_conn" || mode == "static_hash") ≡ true)
  weights_of-none mode names r config now ns ps =
      let same =
        polled-weights ps _ ∙ seed_metrics-weights now ns (create_engine mode names r config) in
      let base = create_engine-weights mode names r config in
      (λ h. base.0 (sym same ∙ h), λ h. same ∙ base.1 h)

module _ {W C : Type 0} ⦃f : Float W⦄ (connect : String → C) where
  -- A startup that gets through leaves a valid ring and an open channel for every configured node,
  -- also where names repeat.
  pub startup_ready :
      (h : Hashing) (base least : ℕ) (now : W) (ns : List NodeConfig) (r : Ring W)
      (pool opened : ChannelPool C)
      → add_nodes h now ns (Ring.init base least now) ≡ some r
      → initialize connect ns pool ≡ some opened
      → IsValid r × All (λ n. is_some (get_channel n.name opened) ≡ true) ns
  unfolding initialize get_channel
  startup_ready h base least now ns r pool opened e k =
      let (channels, found, done) = >>=-eq-some (open_channels connect ns pool.channels) _ k in
      (
        add_nodes-IsValid h now ns (Ring.init base least now) r (init-IsValid base least now) e,
        subst (λ p. All (λ n. contains n.name p.channels ≡ true) ns) (some-injective _ opened done)
            (open_channels-contains connect ns pool.channels channels found),
      )
