-- ===== src/Chord/Routing.antt =====
-- Which node `route` picks, and when it falls back.
use predictive_consistent_ha.Prelude.{
  ℕ, suc, String, true, false, Option, none, some, List, [], ◌∷◌, ◌+◌, ◌≤◌, ◌<◌, ◌≡◌, ◌≢◌, ◌⊎◌, ap,
  arith, length, elem, All, ◌==◌, nat_eq, string_eq, get_or_else, inl, inr, ==_lem, ==_refl,
  All-map,
}
use predictive_consistent_ha.Prelude.Dict.{Dict, lookup}
use predictive_consistent_ha.Prelude.Float.{Float}
use predictive_consistent_ha.Chord.{
  Router, chord_router, least_connections_fallback, follow, score_in, route, fallback_least_loaded,
  get_finger_table,
}

-- The nodes of a finger table.
abbrev pub finger_nodes : List (ℕ × String) → List String
finger_nodes [] = []
finger_nodes ((target, node) ∷ fingers) = node ∷ finger_nodes fingers

module _ {W : Type 0} ⦃f : Float W⦄ (max_hops : ℕ) (threshold : W) (scores : Dict String W) where
  follow-accepts :
      (fingers : List (ℕ × String)) (visited : List String) (hops h : ℕ) (n : String)
      → follow max_hops threshold scores fingers visited hops ≡ (some n, h)
      → (elem n (finger_nodes fingers) ≡ true)
        × (elem n visited ≡ false)
        × (f.lt (score_in scores n) threshold ≡ true)
        × (h ≤ hops + length fingers)
  unfolding follow
  follow-accepts [] visited hops h n e = ground arith
  follow-accepts ((t, node) ∷ fingers) visited hops h n e = ground (
    arith,
    ==_refl node,
    follow-accepts fingers visited (hops + 1) h n,
    follow-accepts fingers (node ∷ visited) (hops + 1) h n,
  )

  -- A finger that the walk has no use for.
  abbrev Refused : List String → String → Type 0
  Refused visited n = (elem n visited ≡ true) ⊎ (f.lt (score_in scores n) threshold ≡ false)

  Refused-visited :
      (visited : List String) (node : String) (ns : List String)
      → f.lt (score_in scores node) threshold ≡ false
      → All (Refused (node ∷ visited)) ns
      → All (Refused visited) ns
  Refused-visited visited node [] high all = tt
  Refused-visited visited node (n ∷ ns) high all =
      (ground (arith, congr node n), Refused-visited visited node ns high all.1)
    where
      congr : (a b : String) → (a == b) ≡ true → score_in scores a ≡ score_in scores b
      congr a b h = ap (score_in scores) (==_lem a b h)

  follow-none :
      (t : ℕ) (node : String) (fingers : List (ℕ × String)) (visited : List String) (hops h : ℕ)
      → hops + suc (length fingers) < max_hops
      → follow max_hops threshold scores ((t, node) ∷ fingers) visited hops ≡ (none, h)
      → ((elem node visited ≡ true)
          × (follow max_hops threshold scores fingers visited (hops + 1) ≡ (none, h)))
        ⊎ ((f.lt (score_in scores node) threshold ≡ false)
            × (follow max_hops threshold scores fingers (node ∷ visited) (hops + 1) ≡ (none, h)))
  unfolding follow
  follow-none t node fingers visited hops h room e = ground arith

  follow-refuses :
      (fingers : List (ℕ × String)) (visited : List String) (hops h : ℕ)
      → hops + length fingers < max_hops
      → follow max_hops threshold scores fingers visited hops ≡ (none, h)
      → All (Refused visited) (finger_nodes fingers)
  follow-refuses [] visited hops h room e = tt
  follow-refuses ((t, node) ∷ fingers) visited hops h room e =
      elim (follow-none t node fingers visited hops h room e) [
        | inl (known, skip) ↦
            (inl known, follow-refuses fingers visited (hops + 1) h (omega arith) skip)
        | inr (high, on) ↦ (
          inr high,
          Refused-visited visited node (finger_nodes fingers) high
              (follow-refuses fingers (node ∷ visited) (hops + 1) h (omega arith) on),
        )
      ]

module _ {W : Type 0} ⦃f : Float W⦄ where
  -- A node that the router picks by fingers is a finger of the overloaded node and not that node
  -- itself, its score is below the threshold, and there are no more hops than fingers.
  pub route-accepts :
      (o n : String) (hops : ℕ) (scores : Dict String W) (r : Router W)
      → route o scores r ≡ (some n, hops, chord_router)
      → (elem n (finger_nodes (get_finger_table o r)) ≡ true)
        × (n ≢ o)
        × (f.lt (score_in scores n) r.overflow_threshold ≡ true)
        × (hops ≤ length (get_finger_table o r))
  unfolding route get_finger_table
  route-accepts o n hops scores r e = ground (
    arith,
    ==_refl o,
    string_eq.beq_iff o n,
    follow-accepts r.max_hops r.overflow_threshold scores
        (get_or_else (lookup o r.finger_tables) []) (o ∷ []) 0 hops n,
  )

  route-none :
      (o : String) (t : Option String) (hops : ℕ) (scores : Dict String W) (r : Router W)
      (fingers : List (ℕ × String))
      → lookup o r.finger_tables ≡ some fingers
      → route o scores r ≡ (t, hops, least_connections_fallback)
      → (t ≡ fallback_least_loaded scores)
        × (follow r.max_hops r.overflow_threshold scores fingers (o ∷ []) 0 ≡ (none, hops))
  unfolding route
  route-none o t hops scores r fingers known e = ground arith

  -- If the hop limit leaves room for all fingers, the router falls back to the least loaded node only
  -- when every finger has a score at or above the threshold.
  pub route-falls_back :
      (o : String) (t : Option String) (hops : ℕ) (scores : Dict String W) (r : Router W)
      (fingers : List (ℕ × String))
      → lookup o r.finger_tables ≡ some fingers
      → length fingers < r.max_hops
      → route o scores r ≡ (t, hops, least_connections_fallback)
      → (t ≡ fallback_least_loaded scores)
        × All
            (λ n. ((o == n) ≡ true) ⊎ (f.lt (score_in scores n) r.overflow_threshold ≡ false))
            (finger_nodes fingers)
  route-falls_back o t hops scores r fingers known room e =
      let (least, refused) = route-none o t hops scores r fingers known e in
      (
        least,
        All-map _ _ (finger_nodes fingers) (λ n. Refused-only n)
            (follow-refuses r.max_hops r.overflow_threshold scores fingers (o ∷ []) 0 hops
              (omega arith) refused),
      )
    where
      Refused-only :
          (n : String)
          → (elem n (o ∷ []) ≡ true) ⊎ (f.lt (score_in scores n) r.overflow_threshold ≡ false)
          → ((o == n) ≡ true) ⊎ (f.lt (score_in scores n) r.overflow_threshold ≡ false)
      Refused-only n h = ground arith
