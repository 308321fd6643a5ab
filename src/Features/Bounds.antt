-- ===== src/Features/Bounds.antt =====
-- Bounds on the features.
use predictive_consistent_ha.Prelude.{
  ℕ, String, Bool, true, false, [], ◌∷◌, ◌≡◌, ◌≤◌, ◌<◌, refl, sym, subst, arith, length, All,
  get_or_else, Bool-cases, inl, inr, ltb, if◌then◌else◌, nat_eq, string_eq, Eq, ◌==◌,
}
use predictive_consistent_ha.Prelude.Dict.{Dict, lookup}
use predictive_consistent_ha.Prelude.Float.{
  Float, le, of_nat, fmin, ◌≼◌, IsOrdered, IsRounded, ≼_refl, InUnit, ratio-InUnit, fmin_one,
}
use predictive_consistent_ha.Features.Window.{extract_features-Extracted}
use predictive_consistent_ha.Features.{
  Norms, Pipeline, Call, Readings, normalize, cpu_feature, endpoint_feature, cpu_estimates,
  endpoint_ids, method_encoding, recent, get_error_rate_5m, record_cache_result, client_feature,
  extract_features,
}

lookup_All :
    {K V : Type 0} ⦃e : Eq K⦄ (P : V → Type 0) (k : K) (d : V) (m : Dict K V)
    → All (λ kv. P kv.1) m
    → P d
    → P (get_or_else (lookup k m) d)
lookup_All P k d [] h p = p
lookup_All P k d ((j, v) ∷ m) h p = elim (Bool-cases (j == k)) [
  | inl e ↦ rw e h.0
  | inr e ↦ rw e (lookup_All P k d m h.1 p)
]

module _ {W : Type 0} ⦃f : Float W⦄ where
  module _ (laws : IsOrdered W) (rounding : IsRounded W) where
    normalize-InUnit : (value max_val : W) → InUnit (normalize value max_val)
    unfolding normalize
    normalize-InUnit value max_val = elim (Bool-cases (le max_val (of_nat 0))) [
      | inl h ↦ rw h (ratio-InUnit laws 0 1 (omega arith) (omega arith))
      | inr h ↦ rw h (
          fmin_one laws _ (
            ground (arith, ≼_refl laws (of_nat 0), laws.lt_asymm (f.div value max_val) (of_nat 0))))
    ]

    cpu_feature-InUnit :
        (norms : Norms W) (c : Call W)
        → f.lt (of_nat 0) norms.payload_max ≡ true
        → of_nat 0 ≼ c.payload_bytes
        → InUnit (cpu_feature norms c)
    unfolding cpu_feature
    cpu_feature-InUnit norms c h k =
        let factor = fmin_one laws _ (laws.div_nonneg c.payload_bytes norms.payload_max k h) in
        let tenths : (n : ℕ) → of_nat 0 ≼ f.ratio n 10 =
          λ n. laws.ratio_mono 0 1 n 10 (omega arith) (omega arith) (omega arith) in
        let base =
          lookup_All (λ x. of_nat 0 ≼ x) c.endpoint (f.ratio 3 10) cpu_estimates
            (tenths 2, (tenths 4, (tenths 9, (tenths 1, (tenths 7, tt))))) (tenths 3) in
        fmin_one laws _ (rounding.add_nonneg _ _ base (rounding.mul_nonneg _ _ factor.0 (tenths 3)))

    endpoint_feature-InUnit : (endpoint : String) → InUnit {W = W} (endpoint_feature endpoint)
    unfolding endpoint_feature
    endpoint_feature-InUnit endpoint = ratio-InUnit laws _ 4 (omega arith) (
        lookup_All (λ n. n ≤ 4) endpoint 0 endpoint_ids
          (omega arith, (omega arith, (omega arith, (omega arith, (omega arith, tt)))))
          (omega arith))

    method-InUnit :
        (method : String) → InUnit (get_or_else (lookup method method_encoding) (f.ratio 3 10))
    method-InUnit method =
        let unit : (n d : ℕ) → 0 < d → n ≤ d → InUnit (f.ratio n d) = ratio-InUnit laws in
        lookup_All InUnit method (f.ratio 3 10) method_encoding
          (
            unit 0 1 (omega arith) (omega arith),
            (
              unit 5 10 (omega arith) (omega arith),
              (
                unit 75 100 (omega arith) (omega arith),
                (
                  unit 1 1 (omega arith) (omega arith),
                  (
                    unit 6 10 (omega arith) (omega arith),
                    (
                      unit 1 10 (omega arith) (omega arith),
                      (unit 5 100 (omega arith) (omega arith), tt),
                    ),
                  ),
                ),
              ),
            ),
          )
          (unit 3 10 (omega arith) (omega arith))

    error_rate-InUnit :
        (now : W) (p : Pipeline W) → InUnit (fmin (get_error_rate_5m now p).1 (of_nat 1))
    unfolding get_error_rate_5m
    error_rate-InUnit now p =
        let totals = length (recent (f.sub now (of_nat 300)) p.total_count_window) in
        elim (Bool-cases (ltb totals 5)) [
          | inl h ↦ rw h (fmin_one laws _ (ratio-InUnit laws 0 1 (omega arith) (omega arith)).0)
          | inr h ↦ rw h (
              fmin_one laws _
                (laws.ratio_mono 0 1 _ totals (omega arith) (ground arith) (omega arith)))
        ]

    client_feature-InUnit :
        (r : Readings W) (client_id : String) (p : Pipeline W)
        → InUnit (client_feature r client_id p).1
    unfolding client_feature
    client_feature-InUnit r client_id p = elim (Bool-cases (client_id == "")) [
      | inl h ↦ rw h (ratio-InUnit laws 0 1 (omega arith) (omega arith))
      | inr h ↦ rw h (normalize-InUnit _ _)
    ]

    pub record_cache_result-InUnit :
        (hit : Bool) (p : Pipeline W)
        → InUnit p.cache_hit_ema
        → InUnit (record_cache_result hit p).cache_hit_ema
    unfolding record_cache_result
    record_cache_result-InUnit hit p u =
        let tenth = ratio-InUnit laws 1 10 (omega arith) (omega arith) in
        let nine = ratio-InUnit laws 9 10 (omega arith) (omega arith) in
        let blend : (x : W)
            → InUnit x
            → InUnit (f.add (f.mul (f.ratio 1 10) x) (f.mul (f.ratio 9 10) p.cache_hit_ema)) =
          λ x v. (
            rounding.add_nonneg _ _ (rounding.mul_nonneg _ _ tenth.0 v.0)
                (rounding.mul_nonneg _ _ nine.0 u.0),
            laws.le_trans _ _ _
                (laws.add_mono _ _ _ _ (laws.mul_mono _ _ _ _ tenth.0 v.0 (≼_refl laws _) v.1)
                  (laws.mul_mono _ _ _ _ nine.0 u.0 (≼_refl laws _) u.1))
                rounding.tenths_le,
          ) in
        elim hit
          as (λ b. InUnit (
            f.add (f.mul (f.ratio 1 10) (if b then of_nat 1 else of_nat 0))
              (f.mul (f.ratio 9 10) p.cache_hit_ema))) [
                | true ↦ blend (of_nat 1) (ratio-InUnit laws 1 1 (omega arith) (omega arith))
                | false ↦ blend (of_nat 0) (ratio-InUnit laws 0 1 (omega arith) (omega arith))
              ]

    -- Every feature vector has exactly twelve features, each between 0 and 1.
    pub extract_features-InUnit :
        (upper : String → String) (norms : Norms W) (r : Readings W) (c : Call W) (p : Pipeline W)
        → f.lt (of_nat 0) norms.payload_max ≡ true
        → of_nat 0 ≼ c.payload_bytes
        → r.hour ≤ 24
        → InUnit p.cache_hit_ema
        → (length (extract_features upper norms r c p).1 ≡ 12)
          × All InUnit (extract_features upper norms r c p).1
    unfolding extract_features
    extract_features-InUnit upper norms r c p h k l u =
        let e = extract_features-Extracted upper norms r c p in
        let flag : (b : Bool) → InUnit {W = W} (if b then of_nat 1 else of_nat 0) = λ b.
          elim b as (λ b. InUnit {W = W} (if b then of_nat 1 else of_nat 0)) [
            | true ↦ ratio-InUnit laws 1 1 (omega arith) (omega arith)
            | false ↦ ratio-InUnit laws 0 1 (omega arith) (omega arith)
          ] in
        (
          refl,
          (
            normalize-InUnit _ _,
            (
              cpu_feature-InUnit norms c h k,
              (
                endpoint_feature-InUnit c.endpoint,
                (
                  normalize-InUnit _ _,
                  (
                    normalize-InUnit _ _,
                    (
                      normalize-InUnit _ _,
                      (
                        ratio-InUnit laws r.hour 24 (omega arith) l,
                        (
                          flag _,
                          (
                            method-InUnit (upper c.method),
                            (
                              error_rate-InUnit _ _,
                              (
                                client_feature-InUnit r c.client_id _,
                                (subst InUnit (sym e.hit_ema) u, tt),
                              ),
                            ),
                          ),
                        ),
                      ),
                    ),
                  ),
                ),
              ),
            ),
          ),
        )
