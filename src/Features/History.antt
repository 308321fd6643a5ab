-- ===== src/Features/History.antt =====
-- Runs of the feature pipeline: its windows and features against the whole history of the calls.
use predictive_consistent_ha.Prelude.{
  String, Bool, true, some, List, [], ◌∷◌, ◌++◌, ◌≡◌, ◌≤◌, refl, sym, ap, subst, ◌∙◌, arith, length,
  get_elem?, length-append, All,
}
use predictive_consistent_ha.Prelude.Float.{
  Float, of_nat, fmin, ◌≼◌, IsOrdered, IsRounded, ≼_refl, InUnit, ratio-InUnit,
}
use predictive_consistent_ha.Features.{
  Norms, Pipeline, Call, Readings, init, recent, normalize, record_error, record_cache_result,
  extract_features,
}
use predictive_consistent_ha.Features.Window.{
  recent-append, recent-recent, recent_extend, cutoff_5s, cutoff_5m, extract_features-Extracted,
  extract_features-rates, rate_of,
}
use predictive_consistent_ha.Features.Bounds.{record_cache_result-InUnit, extract_features-InUnit}

-- The pipeline, the times of all its calls and errors, the oldest first, and the clock at the
-- latest cleaning of the two kinds of windows.
pub record World (W : Type 0) : Type 0 where
  pub pipeline : Pipeline W
  pub calls : List W
  pub errors : List W
  pub window_now : W
  pub error_now : W

module _ {W : Type 0} ⦃f : Float W⦄ where
  -- A new pipeline at these readings.
  abbrev pub new_world : W → W → World W
  new_world window_now error_now = record {
    pipeline = init;
    calls = [];
    errors = [];
    window_now = window_now;
    error_now = error_now;
  }

module _ {W : Type 0} ⦃f : Float W⦄ (upper : String → String) (norms : Norms W) where
  abbrev pub serve : Readings W → Call W → World W → World W
  serve r c w = record {
    pipeline = (extract_features upper norms r c w.pipeline).0;
    calls = w.calls ++ r.now ∷ [];
    errors = w.errors;
    window_now = r.window_now;
    error_now = r.error_now;
  }

  -- A clock never runs backwards between two cleanings of a window.
  pub data Step (w : World W) : World W → Type 0 where
    call :
        (r : Readings W) (c : Call W)
        → w.window_now ≼ r.window_now
        → w.error_now ≼ r.error_now
        → Step w (serve r c w)
    error :
        (now : W)
        → Step w
            (record w { pipeline = record_error now w.pipeline; errors = w.errors ++ now ∷ [] })
    cache : (hit : Bool) → Step w (record w { pipeline = record_cache_result hit w.pipeline })

  pub data Reach (u : World W) : World W → Type 0 where
    here : Reach u u
    next : {v w : World W} → Reach u v → Step v w → Reach u w

-- What the run has seen: beyond the latest cutoffs the windows are the whole history.
pub record IsWindowed {W : Type 0} ⦃f : Float W⦄ (w : World W) : Type 0 where
  pub counted : w.pipeline.total_requests ≡ length w.calls
  pub requests :
      recent (f.sub w.window_now (of_nat 5)) w.pipeline.request_count_window
      ≡ recent (f.sub w.window_now (of_nat 5)) w.calls
  pub totals :
      recent (f.sub w.error_now (of_nat 300)) w.pipeline.total_count_window
      ≡ recent (f.sub w.error_now (of_nat 300)) w.calls
  pub errors :
      recent (f.sub w.error_now (of_nat 300)) w.pipeline.error_count_window
      ≡ recent (f.sub w.error_now (of_nat 300)) w.errors
  pub hit_ema : InUnit w.pipeline.cache_hit_ema

module _ {W : Type 0} ⦃f : Float W⦄ (laws : IsOrdered W) (rounding : IsRounded W)
    (upper : String → String) (norms : Norms W) where
  -- Windows that agree beyond one cutoff agree beyond a later one, also with more added.
  later_extend :
      (c d : W) (window history added : List W)
      → c ≼ d
      → recent c window ≡ recent c history
      → recent d (window ++ added) ≡ recent d (history ++ added)
  later_extend c d window history added h e =
      sym (recent_extend laws c d (recent c window) window added h refl)
      ∙ recent_extend laws c d (recent c window) history added h e

  later :
      (c d : W) (window history : List W)
      → c ≼ d
      → recent c window ≡ recent c history
      → recent d window ≡ recent d history
  later c d window history h e =
      sym (recent-recent laws c d h window) ∙ ap (recent d) e ∙ recent-recent laws c d h history

  call-IsWindowed :
      (r : Readings W) (c : Call W) (w : World W)
      → w.window_now ≼ r.window_now
      → w.error_now ≼ r.error_now
      → IsWindowed w
      → IsWindowed (serve upper norms r c w)
  call-IsWindowed r c w h k i =
      let e = extract_features-Extracted upper norms r c w.pipeline in
      let clean : (d : W) (ts : List W) → recent d (recent d ts) ≡ recent d ts =
        λ d. recent-recent laws d d (≼_refl laws d) in
      record {
        counted = omega (arith, e.count, i.counted, length-append w.calls (r.now ∷ []));
        requests =
            ap (recent (cutoff_5s r)) e.requests
            ∙ clean _ _
            ∙ later_extend _ _ _ _ (r.now ∷ []) (rounding.sub_mono _ _ _ h) i.requests;
        totals =
            ap (recent (cutoff_5m r)) e.totals
            ∙ clean _ _
            ∙ later_extend _ _ _ _ (r.now ∷ []) (rounding.sub_mono _ _ _ k) i.totals;
        errors =
            ap (recent (cutoff_5m r)) e.errors
            ∙ clean _ _
            ∙ later _ _ _ _ (rounding.sub_mono _ _ _ k) i.errors;
        hit_ema = subst InUnit (sym e.hit_ema) i.hit_ema;
      }

  Step-IsWindowed : {u v : World W} → Step upper norms u v → IsWindowed u → IsWindowed v
  unfolding record_error record_cache_result
  Step-IsWindowed {u} (call r c h k) i = call-IsWindowed r c u h k i
  Step-IsWindowed {u} (error now) i = record {
    counted = i.counted;
    requests = i.requests;
    totals = i.totals;
    errors =
        recent-append _ _ (now ∷ [])
        ∙ ap (λ ts. ts ++ recent (f.sub u.error_now (of_nat 300)) (now ∷ [])) i.errors
        ∙ sym (recent-append _ u.errors (now ∷ []));
    hit_ema = i.hit_ema;
  }
  Step-IsWindowed {u} (cache hit) i = record {
    counted = i.counted;
    requests = i.requests;
    totals = i.totals;
    errors = i.errors;
    hit_ema = record_cache_result-InUnit laws rounding hit u.pipeline i.hit_ema;
  }

  Reach-keeps : {u v : World W} → IsWindowed u → Reach upper norms u v → IsWindowed v
  Reach-keeps i here = i
  Reach-keeps i (next r s) = Step-IsWindowed s (Reach-keeps i r)

  Reach-IsWindowed :
      (t0 t1 : W) (w : World W) → Reach upper norms (new_world t0 t1) w → IsWindowed w
  unfolding init
  Reach-IsWindowed t0 t1 w r =
      Reach-keeps
        (record {
          counted = refl;
          requests = refl;
          totals = refl;
          errors = refl;
          hit_ema = ratio-InUnit laws 5 10 (omega arith) (omega arith);
        })
        r

  -- In every run of calls, errors and cache results in which the clock does not run backwards, the
  -- next call has as its request count and its error rate those of all earlier calls and errors
  -- within the last 5 seconds and 5 minutes, though the windows forget the older ones.
  pub Reach-rates :
      (t0 t1 : W) (w : World W) (r : Readings W) (c : Call W)
      → Reach upper norms (new_world t0 t1) w
      → w.window_now ≼ r.window_now
      → w.error_now ≼ r.error_now
      → let features = (extract_features upper norms r c w.pipeline).1 in
        let calls = w.calls ++ r.now ∷ [] in
        (get_elem? features 3
          ≡ some (
              normalize
                (of_nat (length (recent (f.sub r.window_now (of_nat 5)) calls)))
                norms.requests_window_max))
        × (get_elem? features 9
            ≡ some (
                fmin
                  (rate_of
                    (recent (f.sub r.error_now (of_nat 300)) calls)
                    (recent (f.sub r.error_now (of_nat 300)) w.errors))
                  (of_nat 1)))
  Reach-rates t0 t1 w r c reach h k =
      let i = Reach-IsWindowed t0 t1 w reach in
      let e = extract_features-Extracted upper norms r c w.pipeline in
      let rates = extract_features-rates upper norms r c w.pipeline in
      let requests =
        e.requests ∙ later_extend _ _ _ _ (r.now ∷ []) (rounding.sub_mono _ _ _ h) i.requests in
      let totals =
        e.totals ∙ later_extend _ _ _ _ (r.now ∷ []) (rounding.sub_mono _ _ _ k) i.totals in
      let errors = e.errors ∙ later _ _ _ _ (rounding.sub_mono _ _ _ k) i.errors in
      (
        rates.0
            ∙ ap (λ ts. some (normalize (of_nat (length ts)) norms.requests_window_max)) requests,
        rates.1
            ∙ ap
                (λ ts. some (
                  fmin
                    (rate_of ts (extract_features upper norms r c w.pipeline).0.error_count_window)
                    (of_nat 1)))
                totals
            ∙ ap
                (λ ts. some (
                  fmin
                    (rate_of (recent (f.sub r.error_now (of_nat 300)) (w.calls ++ r.now ∷ [])) ts)
                    (of_nat 1)))
                errors,
      )

  -- In every such run the next call has exactly twelve features, each between 0 and 1, if the
  -- payload bound is positive, the payload not negative and the hour at most 24.
  pub Reach-InUnit :
      (t0 t1 : W) (w : World W) (r : Readings W) (c : Call W)
      → Reach upper norms (new_world t0 t1) w
      → f.lt (of_nat 0) norms.payload_max ≡ true
      → of_nat 0 ≼ c.payload_bytes
      → r.hour ≤ 24
      → (length (extract_features upper norms r c w.pipeline).1 ≡ 12)
        × All InUnit (extract_features upper norms r c w.pipeline).1
  Reach-InUnit t0 t1 w r c reach h k l =
      extract_features-InUnit laws rounding upper norms r c w.pipeline h k l
        (Reach-IsWindowed t0 t1 w reach).hit_ema
