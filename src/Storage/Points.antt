-- ===== src/Storage/Points.antt =====
-- coordinator/db/influxdb_client.py: the reader's answers, and laws of the writer's buffer.
-- The text of the queries is left out: a query answers the values of the tables' records, or fails.
use predictive_consistent_ha.Prelude.{
  ℕ, zero, suc, Bool, true, false, Option, none, some, List, [], ◌∷◌, ◌+◌, ◌++◌, ◌≡◌, ◌≤◌, ◌<◌, ◌⊎◌,
  inl, inr, refl, ap, arith, length, last_values, length-last_values, leb, map, append-nil,
  if◌then◌else◌, Bool-cases,
}
use predictive_consistent_ha.Prelude.Float.{Float}
use predictive_consistent_ha.Storage.{Times}
use predictive_consistent_ha.Storage.Influx.{
  MetricPoint, Client, influx_point, settle, flush_batch, flush_buffer, write_point,
  default_batch_size,
}

module _ {W : Type 0} where
  -- The loop over the tables and their records.
  unfoldable pub values_of : List (List W) → List W
  values_of [] = []
  values_of (records ∷ tables) = records ++ values_of tables

  -- `query_rolling_window`: `mock` stands for `_generate_mock_data`.
  unfoldable pub query_rolling_window :
      (ℕ → List W) → Option (List (List W)) → ℕ → Client W → List W
  query_rolling_window mock none window_points c = mock window_points
  query_rolling_window mock (some tables) window_points c =
      if c.has_query_api then last_values window_points (values_of tables) else mock window_points

-- `_generate_mock_data`: the draws of `random.gauss(0, 3)` are an argument.
module _ {W : Type 0} ⦃f : Float W⦄ where
  unfoldable pub generate_mock_data : (ℕ → W) → ℕ → List W
  generate_mock_data gauss zero = []
  generate_mock_data gauss (suc count) =
      f.add (f.ratio 15 1) (gauss count) ∷ generate_mock_data gauss count

-- `get_available_point_count`: the counts that the query answers.
total_of : List (List ℕ) → ℕ
total_of [] = 0
total_of ([] ∷ tables) = total_of tables
total_of ((n ∷ ns) ∷ tables) = n + total_of (ns ∷ tables)

available_count : Option (List (List ℕ)) → ℕ → Bool → ℕ
available_count answer simulated has_query_api = if has_query_api then counted answer else simulated
  where
    counted : Option (List (List ℕ)) → ℕ
    counted none = 0
    counted (some tables) = total_of tables

module _ {W : Type 0} ⦃f : Float W⦄ where
  length-mock : (gauss : ℕ → W) (count : ℕ) → length (generate_mock_data gauss count) ≡ count
  unfolding generate_mock_data
  length-mock gauss zero = refl
  length-mock gauss (suc count) = ap suc (length-mock gauss count)

  -- Whatever the database answers, a window of a positive size has at most that many values, and
  -- exactly that many in simulation mode or where the query fails.
  pub query_rolling_window-length :
      (gauss : ℕ → W) (answer : Option (List (List W))) (n : ℕ) (c : Client W)
      → 0 < n
      → (length (query_rolling_window (generate_mock_data gauss) answer n c) ≤ n)
        × ((c.has_query_api ≡ false) ⊎ (answer ≡ none)
            → length (query_rolling_window (generate_mock_data gauss) answer n c) ≡ n)
  unfolding query_rolling_window
  query_rolling_window-length gauss none n c h =
      let e = length-mock gauss n in (omega (arith, e), λ _. e)
  query_rolling_window-length gauss (some tables) n c h = elim (Bool-cases c.has_query_api) [
    | inl e ↦ rw e (
      length-last_values n (values_of tables) h,
      λ k. elim k [ inl k ↦ absurd (ground arith) | inr k ↦ absurd (ground arith) ],
    )
    | inr e ↦ rw e (let k = length-mock gauss n in (omega (arith, k), λ _. k))
  ]

  -- What a flush writes and keeps, with a write API.
  flush_batch_kept :
      (ok : Bool) (t : Times W) (batch : List (MetricPoint W)) (c : Client W)
      → c.has_write_api ≡ true
      → c.buffer ≡ batch
      → (flush_batch ok t batch c).1 ++ map influx_point (flush_batch ok t batch c).0.buffer
        ≡ map influx_point batch
  unfolding flush_batch settle
  flush_batch_kept ok t [] c h e = ap (map influx_point) e
  flush_batch_kept true t (p ∷ ps) c h e = rw h (append-nil _)
  flush_batch_kept false t (p ∷ ps) c h e = rw h refl

  flush_batch-bound :
      (ok : Bool) (t : Times W) (batch : List (MetricPoint W)) (c : Client W)
      → c.buffer ≡ batch
      → (length (flush_batch ok t batch c).0.buffer < default_batch_size)
        ⊎ ((flush_batch ok t batch c).0.flush_errors ≡ c.flush_errors + 1)
  unfolding flush_batch settle
  flush_batch-bound ok t [] c e = inl (omega (arith, ap length e))
  flush_batch-bound ok t (p ∷ ps) c e = elim (Bool-cases c.has_write_api) [
    | inl h ↦
        rw h
          (elim ok
            as (λ ok.
              (length (settle ok t (p ∷ ps) (record c { has_write_api = true; buffer = [] })).buffer
                < default_batch_size)
              ⊎ ((settle ok t (p ∷ ps)
                    (record c { has_write_api = true; buffer = [] })).flush_errors
                  ≡ c.flush_errors + 1)) [ true ↦ inl (omega arith) | false ↦ inr refl ])
    | inr h ↦ rw h (inl (omega arith))
  ]

  -- With a write API, the points that a `write_point` writes, followed by its buffer, are the old
  -- buffer and the new point, in order; and the buffer stays below a full batch unless a write
  -- failed, which is counted.
  pub write_point_kept :
      (ok : Bool) (t : Times W) (p : MetricPoint W) (c : Client W)
      → c.has_write_api ≡ true
      → ((write_point ok t p c).1 ++ map influx_point (write_point ok t p c).0.buffer
          ≡ map influx_point (c.buffer ++ p ∷ []))
        × ((length (write_point ok t p c).0.buffer < default_batch_size)
            ⊎ ((write_point ok t p c).0.flush_errors ≡ c.flush_errors + 1))
  unfolding write_point flush_buffer
  write_point_kept ok t p c h =
      let points = c.buffer ++ p ∷ [] in
      let c2 : Client W = record c {
        buffer = points;
        total_points_buffered = c.total_points_buffered + 1;
      } in
      elim (Bool-cases (leb default_batch_size (length points))) [
        | inl e ↦
            rw e (flush_batch_kept ok t points c2 h refl, flush_batch-bound ok t points c2 refl)
        | inr e ↦ rw e (refl, inl (ground arith))
      ]
