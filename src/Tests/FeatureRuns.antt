-- ===== src/Tests/FeatureRuns.antt =====
-- The theorems on the feature pipeline at a run of a call, an error and a cache hit.
use predictive_consistent_ha.Prelude.{
  ℕ, String, some, [], ◌∷◌, ◌≡◌, refl, arith, length, get_elem?, All,
}
use predictive_consistent_ha.Prelude.Float.{
  milli, milli-IsOrdered, milli-IsRounded, of_nat, fmin, InUnit,
}
use predictive_consistent_ha.Features.{
  Norms, Call, Readings, default_norms, normalize, recent, extract_features,
}
use predictive_consistent_ha.Features.Window.{rate_of}
use predictive_consistent_ha.Features.History.{
  World, Reach, here, next, call, serve, new_world, Reach-rates, Reach-InUnit,
}

abbrev pub same : String → String
same s = s

abbrev norms : Norms ℕ
norms = default_norms

abbrev pub at : ℕ → Readings ℕ
at now = record { now = now; window_now = now; error_now = now; client_now = now; hour = 13 }

abbrev search : Call ℕ
search = record {
  endpoint = "/api/search";
  method = "POST";
  payload_bytes = 2048000;
  queue_depth = 0;
  current_latency_ms = 40000;
  client_id = "c1";
}

abbrev start_world : World ℕ
start_world = new_world 0 0

abbrev one : World ℕ
one = serve same norms (at 400000) search start_world

open_run : Reach same norms start_world one
open_run = next here (call (at 400000) search refl refl)

Reach-rates_example :
    (get_elem? (extract_features same norms (at 402000) search one.pipeline).1 3
      ≡ some (normalize (of_nat (length {A = ℕ} (recent 397000 (400000 ∷ 402000 ∷ [])))) 200000))
    × (get_elem? (extract_features same norms (at 402000) search one.pipeline).1 9
        ≡ some (
            fmin
              (rate_of {W = ℕ} (recent 102000 (400000 ∷ 402000 ∷ [])) (recent 102000 []))
              (of_nat 1)))
Reach-rates_example =
    Reach-rates milli-IsOrdered milli-IsRounded same norms 0 0 one (at 402000) search open_run refl
      refl

Reach-InUnit_example :
    (length (extract_features same norms (at 402000) search one.pipeline).1 ≡ 12)
    × All InUnit (extract_features same norms (at 402000) search one.pipeline).1
Reach-InUnit_example =
    Reach-InUnit milli-IsOrdered milli-IsRounded same norms 0 0 one (at 402000) search open_run refl
      refl (omega arith)
