-- ===== src/Forecast/Runs.antt =====
-- Runs of the forecaster beside the reallocation task that it warns of bursts.
use predictive_consistent_ha.Prelude.{
  ℕ, Bool, true, false, Option, none, some, List, [], ◌∷◌, ◌+◌, ◌-◌, ◌++◌, ◌≡◌, refl, sym, ap, ◌∙◌,
  arith, length, length-append, length-drop, drop, drop-append, drop-drop, drop-nil, get_or_else,
  map, map-append, length-map, leb, if◌then◌else◌,
}
use predictive_consistent_ha.Prelude.Float.{Float, of_nat}
use predictive_consistent_ha.Rebalance.{Allocator, append_bounded, set_burst_imminent}
use predictive_consistent_ha.Forecast.{
  Forecaster, Numerics, Settings, init, own_window, get_window_data, forecast_cycle, tell, changed,
  record_heavy_request, start, stop,
}

-- The forecaster and the allocator it is given, the heavy requests so far, and the counts that
-- the cycles added to the window, the oldest first.
pub record World (W : Type 0) : Type 0 where
  pub forecaster : Forecaster W
  pub daa : Option (Allocator W)
  pub arrivals : ℕ
  pub points : List ℕ

unfoldable pub sum : List ℕ → ℕ
sum [] = 0
sum (n ∷ ns) = n + sum ns

module _ {W : Type 0} ⦃f : Float W⦄ where
  -- A new forecaster, beside this allocator.
  abbrev pub new_world : Settings W → Option (Allocator W) → World W
  new_world settings daa = record {
    forecaster = init settings;
    daa = daa;
    arrivals = 0;
    points = [];
  }

module _ {W : Type 0} ⦃f : Float W⦄ (n : Numerics W) where
  -- A cycle with its own window, and one with the database's.
  abbrev pub own_cycle : W → World W → World W
  own_cycle now w =
      let (c, daa) = forecast_cycle n none now w.forecaster w.daa in
      record w {
        forecaster = c;
        daa = daa;
        points = w.points ++ w.forecaster.total_requests_heavy ∷ [];
      }

  abbrev pub database_cycle : List W → W → World W → World W
  database_cycle counts now w =
      let (c, daa) = forecast_cycle n (some counts) now w.forecaster w.daa in
      record w { forecaster = c; daa = daa }

  pub data Step (w : World W) : World W → Type 0 where
    heavy :
        Step w
          (record w { forecaster = record_heavy_request w.forecaster; arrivals = w.arrivals + 1 })
    cycle : (now : W) → Step w (own_cycle now w)
    answered :
        (counts : List W) (now : W)
        → leb 10 (length counts) ≡ true
        → Step w (database_cycle counts now w)
    begin : Step w (record w { forecaster = start w.forecaster })
    halt : Step w (record w { forecaster = stop w.forecaster })

  pub data Reach (u : World W) : World W → Type 0 where
    here : Reach u u
    next : {v w : World W} → Reach u v → Step v w → Reach u w

module _ {W : Type 0} where
  abbrev pub Agrees : Bool → Option (Allocator W) → Type 0
  Agrees burst none = Unit
  Agrees burst (some a) = a.burst_imminent ≡ burst

-- The allocator knows the burst flag, the window is the latest counts, and no heavy request is
-- counted twice or not at all.
pub record IsSynced {W : Type 0} ⦃f : Float W⦄ (w : World W) : Type 0 where
  pub flag : Agrees w.forecaster.burst_imminent w.daa
  pub latest :
      w.forecaster.window ≡ drop (length w.points - w.forecaster.window_size) (map of_nat w.points)
  pub counted : sum w.points + w.forecaster.total_requests_heavy ≡ w.arrivals

module _ {W : Type 0} ⦃f : Float W⦄ (n : Numerics W) where
  sum-append : (ns : List ℕ) (k : ℕ) → sum (ns ++ k ∷ []) ≡ sum ns + k
  unfolding sum
  sum-append [] k = omega arith
  sum-append (m ∷ ns) k = omega (arith, sum-append ns k)

  append_bounded_latest :
      (size : ℕ) (points : List ℕ) (k : ℕ)
      → append_bounded size (drop (length points - size) (map (of_nat {W = W}) points)) (of_nat k)
        ≡ drop (length (points ++ k ∷ []) - size) (map of_nat (points ++ k ∷ []))
  unfolding append_bounded
  append_bounded_latest size points k =
      let m = map (of_nat {W = W}) points in
      let e = length-map (of_nat {W = W}) points in
      let skipped = length points - size in
      let count : skipped + (length (drop skipped m) + 1 - size)
          ≡ length (points ++ k ∷ []) - size =
        omega (arith, e, length-drop skipped m, length-append points (k ∷ [])) in
      ap (drop _) (sym (drop-append skipped m (of_nat k ∷ []) (omega (arith, e))))
      ∙ drop-drop _ skipped (m ++ of_nat k ∷ [])
      ∙ ap (λ i. drop i (m ++ of_nat k ∷ [])) count
      ∙ ap (drop _) (sym (map-append of_nat points (k ∷ [])))

  told-Agrees :
      (old burst : Bool) (daa : Option (Allocator W))
      → Agrees old daa
      → Agrees burst (if changed old burst then tell burst daa else daa)
  unfolding tell set_burst_imminent changed
  told-Agrees true true none h = tt
  told-Agrees true false none h = tt
  told-Agrees false true none h = tt
  told-Agrees false false none h = tt
  told-Agrees true true (some a) h = h
  told-Agrees true false (some a) h = refl
  told-Agrees false true (some a) h = refl
  told-Agrees false false (some a) h = h

  own_cycle-IsSynced : (now : W) (w : World W) → IsSynced w → IsSynced (own_cycle n now w)
  unfolding forecast_cycle get_window_data own_window
  own_cycle-IsSynced now w s = record {
    flag = told-Agrees w.forecaster.burst_imminent _ w.daa s.flag;
    latest =
        ap
          (λ ts.
            append_bounded w.forecaster.window_size ts (of_nat w.forecaster.total_requests_heavy))
          s.latest
        ∙ append_bounded_latest w.forecaster.window_size w.points w.forecaster.total_requests_heavy;
    counted = omega (arith, s.counted, sum-append w.points w.forecaster.total_requests_heavy);
  }

  database_cycle-IsSynced :
      (counts : List W) (now : W) (w : World W)
      → leb 10 (length counts) ≡ true
      → IsSynced w
      → IsSynced (database_cycle n counts now w)
  unfolding forecast_cycle get_window_data
  database_cycle-IsSynced counts now w h s = rw h (record {
    flag = told-Agrees w.forecaster.burst_imminent _ w.daa s.flag;
    latest = s.latest;
    counted = s.counted;
  })

  Step-IsSynced : {u v : World W} → Step n u v → IsSynced u → IsSynced v
  unfolding record_heavy_request start stop
  Step-IsSynced {u} heavy s = record {
    flag = s.flag;
    latest = s.latest;
    counted = omega (arith, s.counted);
  }
  Step-IsSynced {u} (cycle now) s = own_cycle-IsSynced now u s
  Step-IsSynced {u} (answered counts now h) s = database_cycle-IsSynced counts now u h s
  Step-IsSynced {u} begin s = record { flag = s.flag; latest = s.latest; counted = s.counted }
  Step-IsSynced {u} halt s = record { flag = s.flag; latest = s.latest; counted = s.counted }

  Reach-keeps : {u v : World W} → IsSynced u → Reach n u v → IsSynced v
  Reach-keeps s here = s
  Reach-keeps s (next r t) = Step-IsSynced t (Reach-keeps s r)

  pub Reach-IsSynced :
      (settings : Settings W) (daa : Option (Allocator W)) (w : World W)
      → Agrees false daa
      → Reach n (new_world settings daa) w
      → IsSynced w
  unfolding init sum
  Reach-IsSynced settings daa w h r =
      Reach-keeps (record { flag = h; latest = e; counted = refl }) r
    where
      e : [] ≡ drop {A = W} (0 - get_or_else settings.window_size 60) []
      e = sym (drop-nil (0 - get_or_else settings.window_size 60))
