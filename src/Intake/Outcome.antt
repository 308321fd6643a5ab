-- ===== src/Intake/Outcome.antt =====
-- Where the intake sends a request.
use predictive_consistent_ha.Prelude.{
  ◌+◌, ℕ, String, Bool, true, false, Option, none, some, List, ◌∷◌, ◌≡◌, ◌⊎◌, refl, sym, subst,
  arith, ◌==◌, elem, All, string_eq, Bool-cases, inl, inr,
}
use predictive_consistent_ha.Prelude.Dict.{Dict}
use predictive_consistent_ha.Prelude.Float.{Float, IsOrdered, ◌≼◌}
use predictive_consistent_ha.Ring.{Hashing, Ring, get_node, get_candidates}
use predictive_consistent_ha.Allocation.{Engine, get_all_scores}
use predictive_consistent_ha.Allocation.Selection.{score_of, select_node-least}
use predictive_consistent_ha.Chord.{Router, Method, allocation_engine, route}
use predictive_consistent_ha.Intake.{
  Decision, decide, settle_on, overflow, named, Models, RawRequest, Classification, Routed,
  Response, rejected, routed, respond, route_request, request_id_of, predicted_loads_of,
}
use predictive_consistent_ha.Ring.Candidates.{get_candidates-head}

module _ {W : Type 0} ⦃f : Float W⦄ where
  settle_on-cases :
      (chord : Router W) (e : Engine W) (loads : Dict String W) (now : W) (best : String)
      (score : W) (over : Bool)
      → ((over ≡ false)
          × (settle_on chord e loads now (some best, score, over)
              ≡ record { node = some best; hops = 1; method = allocation_engine; score = score }))
        ⊎ ((over ≡ true)
            × (settle_on chord e loads now (some best, score, over)
                ≡ overflow
                    (record {
                      node = some best;
                      hops = 1;
                      method = allocation_engine;
                      score = score;
                    })
                    (route best (get_all_scores loads now e) chord)))
  unfolding settle_on
  settle_on-cases chord e loads now best score false = inl (refl, refl)
  settle_on-cases chord e loads now best score true = inr (refl, refl)

  -- What the overflow router's answer makes of the first decision.
  overflow-cases :
      (d : Decision W) (t : Option String × ℕ × Method)
      → (overflow d t ≡ d)
        ⊎ ((n : String) × (t ≡ (some n, t.1, t.2))
            × ((n == "") ≡ false)
            × (overflow d t ≡ record d { node = some n; hops = t.1; method = t.2 }))
  unfolding overflow
  overflow-cases d (none, hops, method) = inl refl
  overflow-cases d (some n, hops, method) = elim (Bool-cases (n == "")) [
    | inl empty ↦ inl (rw empty refl)
    | inr full ↦ inr (n, refl, full, rw full refl)
  ]

  -- A decision for a request with candidates: a candidate, or the overflow router's answer for one.
  abbrev pub Decided : Router W → Engine W → List String → Dict String W → W → Decision W → Type 0
  Decided chord e candidates loads now d =
      (n : String) × (d.node ≡ some n)
      × (((elem n candidates ≡ true)
            × All (λ m. score_of loads now e n ≼ score_of loads now e m) candidates
            × (d.method ≡ allocation_engine)
            × (d.hops ≡ 1))
          ⊎ ((best : String) × (elem best candidates ≡ true)
              × (f.lt e.overflow_threshold (score_of loads now e best) ≡ true)
              × (route best (get_all_scores loads now e) chord ≡ (some n, d.hops, d.method))))

module _ {W : Type 0} ⦃f : Float W⦄ (laws : IsOrdered W) where
  -- Steps 5 and 6 on at least one candidate settle on a node: a candidate with the least score, or,
  -- if the least score is above the threshold, the overflow router's answer for such a candidate.
  pub decide-Decided :
      (chord : Router W) (e : Engine W) (c : String) (cs : List String) (loads : Dict String W)
      (now : W)
      → Decided chord e (c ∷ cs) loads now (decide chord e (c ∷ cs) loads now)
  unfolding decide
  decide-Decided chord e c cs loads now =
      let (best, picked, inside, least) = select_node-least laws c cs loads now e in
      let score = score_of loads now e best in
      let over = f.lt e.overflow_threshold score in
      let first : Decision W = record {
        node = some best;
        hops = 1;
        method = allocation_engine;
        score = score;
      } in
      subst (λ t. Decided chord e (c ∷ cs) loads now (settle_on chord e loads now t)) (sym picked)
        (elim (settle_on-cases chord e loads now best score over) [
          | inl (low, kept) ↦
              subst (Decided chord e (c ∷ cs) loads now) (sym kept)
                (best, refl, inl (inside, least, refl, refl))
          | inr (high, sent) ↦
              subst (Decided chord e (c ∷ cs) loads now) (sym sent)
                (elim (overflow-cases first (route best (get_all_scores loads now e) chord)) [
                  | inl kept ↦
                      subst (Decided chord e (c ∷ cs) loads now) (sym kept)
                        (best, refl, inl (inside, least, refl, refl))
                  | inr (n, found, full, moved) ↦
                      subst (Decided chord e (c ∷ cs) loads now) (sym moved)
                        (n, refl, inr (best, inside, high, found))
                ])
        ])

module _ {W S : Type 0} ⦃f : Float W⦄ (laws : IsOrdered W) (models : Models W S) where
  -- What the intake answers under a request id: a refusal when the ring serves the id with no named
  -- node, and else a node that was decided on among the ring's candidates.
  abbrev pub Answered : Hashing → Ring W → Engine W → Router W → W → String → Response W → Type 0
  Answered h r e chord now id answer =
      ((named (get_node h id r) ≡ false) × (answer ≡ rejected id))
      ⊎ ((x : Routed W) × (answer ≡ routed x)
          × (x.request_id ≡ id)
          × ((loads : Dict String W) × Decided chord e (get_candidates h id 3 r) loads now (record {
            node = x.assigned_node;
            hops = x.routing_hops;
            method = x.routing_method;
            score = x.allocation_score;
          })))

  respond-Answered :
      (h : Hashing) (r : Ring W) (e : Engine W) (chord : Router W) (now elapsed_ms : W)
      (id predicted_class : String) (confidence : W) (used : Classification) (features : List W)
      (s : S)
      → Answered h r e chord now id
          (respond models h r e chord now elapsed_ms id predicted_class confidence used features s)
  unfolding respond
  respond-Answered h r e chord now elapsed_ms id predicted_class confidence used features s =
      elim (Bool-cases (named (get_node h id r))) [
        | inr nothing ↦ inl (nothing, rw nothing refl)
        | inl found ↦
            let (m, served, full) = named-cases (get_node h id r) found in
            let (rest, listed) = get_candidates-head h id 3 r m served full in
            let loads = predicted_loads_of models r s (get_candidates h id 3 r) in
            rw found (
              inr (
                _,
                refl,
                refl,
                (
                  loads,
                  subst (λ cs. Decided chord e cs loads now (decide chord e cs loads now))
                      (sym listed) (decide-Decided laws chord e m rest loads now),
                ),
              ))
      ]
    where
      named-cases :
          (o : Option String) → named o ≡ true → (m : String) × (o ≡ some m) × ((m == "") ≡ false)
      named-cases none e = cc
      named-cases (some m) e = (m, refl, ground arith)

  pub route_request-Answered :
      (h : Hashing) (r : Ring W) (e : Engine W) (chord : Router W) (now elapsed_ms : W)
      (raw : RawRequest) (counter : ℕ) (s : S)
      → Answered h r e chord now
          (request_id_of (counter + 1))
          (route_request models h r e chord now elapsed_ms raw (counter, s)).0
        × ((route_request models h r e chord now elapsed_ms raw (counter, s)).1 ≡ counter + 1)
  unfolding route_request
  route_request-Answered h r e chord now elapsed_ms raw counter s =
      (respond-Answered h r e chord now elapsed_ms (request_id_of (counter + 1)) _ _ _ _ _, refl)
