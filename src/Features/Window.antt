-- ===== src/Features/Window.antt =====
-- The sliding windows of the feature pipeline against the whole history of the calls.
use predictive_consistent_ha.Prelude.{
  ℕ, String, some, List, [], ◌∷◌, ◌+◌, ◌++◌, ◌≡◌, refl, sym, ap, ◌∙◌, length, get_elem?,
  if◌then◌else◌, Bool-cases, ltb, inl, inr, string_eq, nat_eq, ◌==◌,
}
use predictive_consistent_ha.Prelude.Float.{Float, of_nat, fmin, ◌≼◌, IsOrdered}
use predictive_consistent_ha.Features.{
  Norms, Pipeline, Call, Readings, normalize, recent, get_requests_last_5s, is_burst,
  get_error_rate_5m, get_client_rate, update_latency_ema, note_call, client_feature,
  extract_features,
}

module _ {W : Type 0} ⦃f : Float W⦄ where
  pub recent-append : (c : W) (xs ys : List W) → recent c (xs ++ ys) ≡ recent c xs ++ recent c ys
  unfolding recent
  recent-append c [] ys = refl
  recent-append c (x ∷ xs) ys = elim (Bool-cases (f.lt c x)) [
    | inl h ↦ rw h (ap (λ zs. x ∷ zs) (recent-append c xs ys))
    | inr h ↦ rw h (recent-append c xs ys)
  ]

  module _ (laws : IsOrdered W) where
    -- Of two cutoffs the later one decides.
    pub recent-recent : (c d : W) → c ≼ d → (ts : List W) → recent d (recent c ts) ≡ recent d ts
    unfolding recent
    recent-recent c d h [] = refl
    recent-recent c d h (t ∷ ts) = elim (Bool-cases (f.lt c t)) [
      | inl k ↦ rw k (ap (λ zs. if f.lt d t then t ∷ zs else zs) (recent-recent c d h ts))
      | inr k ↦ rw k (rw (laws.le_trans t c d k h) (recent-recent c d h ts))
    ]

    pub recent_extend :
        (c d : W) (window history added : List W)
        → c ≼ d
        → window ≡ recent c history
        → recent d (window ++ added) ≡ recent d (history ++ added)
    recent_extend c d window history added h e =
        recent-append d window added
        ∙ ap (λ ts. recent d ts ++ recent d added) e
        ∙ ap (λ ts. ts ++ recent d added) (recent-recent c d h history)
        ∙ sym (recent-append d history added)

module _ {W : Type 0} ⦃f : Float W⦄ where
  -- A step of `extract_features` that leaves the windows and the hit ratio alone.
  record Keeps (p q : Pipeline W) : Type 0 where
    requests : q.request_count_window ≡ p.request_count_window
    totals : q.total_count_window ≡ p.total_count_window
    errors : q.error_count_window ≡ p.error_count_window
    count : q.total_requests ≡ p.total_requests
    hit_ema : q.cache_hit_ema ≡ p.cache_hit_ema

  Keeps-refl : (p : Pipeline W) → Keeps p p
  Keeps-refl p = record {
    requests = refl;
    totals = refl;
    errors = refl;
    count = refl;
    hit_ema = refl;
  }

  update_latency_ema-Keeps :
      (norms : Norms W) (latency_ms : W) (p : Pipeline W)
      → Keeps p (update_latency_ema norms latency_ms p)
  unfolding update_latency_ema
  update_latency_ema-Keeps norms latency_ms p = elim (Bool-cases (p.total_requests == 0)) [
    | inl h ↦
        rw h
          (record { requests = refl; totals = refl; errors = refl; count = refl; hit_ema = refl })
    | inr h ↦
        rw h
          (record { requests = refl; totals = refl; errors = refl; count = refl; hit_ema = refl })
  ]

  is_burst-Keeps : (norms : Norms W) (n : ℕ) (p : Pipeline W) → Keeps p (is_burst norms n p).0
  unfolding is_burst
  is_burst-Keeps norms n p = elim (Bool-cases (ltb p.total_requests 10)) [
    | inl h ↦ rw h (Keeps-refl p)
    | inr h ↦
        rw h
          (record { requests = refl; totals = refl; errors = refl; count = refl; hit_ema = refl })
  ]

  client_feature-Keeps :
      (r : Readings W) (client_id : String) (p : Pipeline W)
      → Keeps p (client_feature r client_id p).0
  unfolding client_feature get_client_rate
  client_feature-Keeps r client_id p = elim (Bool-cases (client_id == "")) [
    | inl h ↦ rw h (Keeps-refl p)
    | inr h ↦
        rw h
          (record { requests = refl; totals = refl; errors = refl; count = refl; hit_ema = refl })
  ]

  -- The first steps of a call: its time joins both windows.
  record Noted (now : W) (p q : Pipeline W) : Type 0 where
    requests : q.request_count_window ≡ p.request_count_window ++ now ∷ []
    totals : q.total_count_window ≡ p.total_count_window ++ now ∷ []
    errors : q.error_count_window ≡ p.error_count_window
    count : q.total_requests ≡ p.total_requests + 1
    hit_ema : q.cache_hit_ema ≡ p.cache_hit_ema

  Noted-Keeps : (now : W) (p q s : Pipeline W) → Noted now p q → Keeps q s → Noted now p s
  Noted-Keeps now p q s n k = record {
    requests = k.requests ∙ n.requests;
    totals = k.totals ∙ n.totals;
    errors = k.errors ∙ n.errors;
    count = k.count ∙ n.count;
    hit_ema = k.hit_ema ∙ n.hit_ema;
  }

  note_call-Noted :
      (norms : Norms W) (r : Readings W) (c : Call W) (p : Pipeline W)
      → Noted r.now p (note_call norms r c p)
  unfolding note_call
  note_call-Noted norms r c p = elim (Bool-cases (f.lt (of_nat 0) c.current_latency_ms)) [
    | inl h ↦ elim (Bool-cases (c.client_id == "")) [
      | inl k ↦ rw h (
          rw k (
            Noted-Keeps r.now p _ _
              (record {
                requests = refl;
                totals = refl;
                errors = refl;
                count = refl;
                hit_ema = refl;
              })
              (update_latency_ema-Keeps norms c.current_latency_ms _)))
      | inr k ↦ rw h (
          rw k (
            Noted-Keeps r.now p _ _
              (record {
                requests = refl;
                totals = refl;
                errors = refl;
                count = refl;
                hit_ema = refl;
              })
              (update_latency_ema-Keeps norms c.current_latency_ms _)))
    ]
    | inr h ↦ elim (Bool-cases (c.client_id == "")) [
      | inl k ↦ rw h (
          rw k (record {
            requests = refl;
            totals = refl;
            errors = refl;
            count = refl;
            hit_ema = refl;
          }))
      | inr k ↦ rw h (
          rw k (record {
            requests = refl;
            totals = refl;
            errors = refl;
            count = refl;
            hit_ema = refl;
          }))
    ]
  ]

module _ {W : Type 0} ⦃f : Float W⦄ where
  abbrev pub cutoff_5s : Readings W → W
  cutoff_5s r = f.sub r.window_now (of_nat 5)

  abbrev pub cutoff_5m : Readings W → W
  cutoff_5m r = f.sub r.error_now (of_nat 300)

  -- The error rate of windows that hold these totals and errors.
  abbrev pub rate_of : List W → List W → W
  rate_of totals errors =
      if ltb (length totals) 5 then of_nat 0 else f.ratio (length errors) (length totals)

module _ {W : Type 0} ⦃f : Float W⦄ (upper : String → String) (norms : Norms W) where
  -- What a call does to the windows, the count and the hit ratio.
  pub record Extracted (r : Readings W) (p q : Pipeline W) : Type 0 where
    pub requests :
        q.request_count_window ≡ recent (cutoff_5s r) (p.request_count_window ++ r.now ∷ [])
    pub totals : q.total_count_window ≡ recent (cutoff_5m r) (p.total_count_window ++ r.now ∷ [])
    pub errors : q.error_count_window ≡ recent (cutoff_5m r) p.error_count_window
    pub count : q.total_requests ≡ p.total_requests + 1
    pub hit_ema : q.cache_hit_ema ≡ p.cache_hit_ema

  pub extract_features-Extracted :
      (r : Readings W) (c : Call W) (p : Pipeline W)
      → Extracted r p (extract_features upper norms r c p).0
  unfolding extract_features get_requests_last_5s get_error_rate_5m
  extract_features-Extracted r c p =
      let n = note_call-Noted norms r c p in
      let p1 = note_call norms r c p in
      let (p2, requests_5s) = get_requests_last_5s r.window_now p1 in
      let b = is_burst-Keeps norms requests_5s p2 in
      let p3 = (is_burst norms requests_5s p2).0 in
      let k = client_feature-Keeps r c.client_id (get_error_rate_5m r.error_now p3).0 in
      record {
        requests = k.requests ∙ b.requests ∙ ap (recent (cutoff_5s r)) n.requests;
        totals = k.totals ∙ ap (recent (cutoff_5m r)) (b.totals ∙ n.totals);
        errors = k.errors ∙ ap (recent (cutoff_5m r)) (b.errors ∙ n.errors);
        count = k.count ∙ b.count ∙ n.count;
        hit_ema = k.hit_ema ∙ b.hit_ema ∙ n.hit_ema;
      }

  -- Features 3 and 9 are those of the cleaned windows.
  pub extract_features-rates :
      (r : Readings W) (c : Call W) (p : Pipeline W)
      → let q = extract_features upper norms r c p in
        (get_elem? q.1 3
          ≡ some (normalize (of_nat (length q.0.request_count_window)) norms.requests_window_max))
        × (get_elem? q.1 9
            ≡ some (fmin (rate_of q.0.total_count_window q.0.error_count_window) (of_nat 1)))
  unfolding extract_features get_requests_last_5s get_error_rate_5m
  extract_features-rates r c p =
      let p1 = note_call norms r c p in
      let (p2, requests_5s) = get_requests_last_5s r.window_now p1 in
      let b = is_burst-Keeps norms requests_5s p2 in
      let p3 = (is_burst norms requests_5s p2).0 in
      let k = client_feature-Keeps r c.client_id (get_error_rate_5m r.error_now p3).0 in
      (
        ap (λ ts. some (normalize (of_nat (length ts)) norms.requests_window_max))
            (sym (k.requests ∙ b.requests)),
        rw k.totals (rw k.errors refl),
      )
