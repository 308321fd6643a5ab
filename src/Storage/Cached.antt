-- ===== src/Storage/Cached.antt =====
-- coordinator/db/redis_cache.py: the ring that Redis holds after a write, and the nodes' metrics
-- after a refresh. Redis is a parameter with the documented effect of DEL and ZADD on the scores.
use predictive_consistent_ha.Prelude.{
  ℕ, String, true, false, Option, none, some, List, [], ◌∷◌, ◌++◌, ◌≡◌, refl, ◌&&◌, ◌==◌, arith,
  if◌then◌else◌, get_or_else, string_eq, elem, Distinct, ==_refl, ==_lem,
}
use predictive_consistent_ha.Prelude.Dict.{Dict, keys, lookup, insert, lookup-insert}
use predictive_consistent_ha.Prelude.Float.{Float}
use predictive_consistent_ha.Storage.{Times}
use predictive_consistent_ha.Storage.RingCache.{
  Command, delete_key, zadd, RingCache, adds_of, ring_adds, write_ring_to_redis,
}
use predictive_consistent_ha.Storage.MetricsCache.{
  Metric, MetricsCache, decode, store_results, refresh_names, refresh_all,
}

-- A store of sorted sets: what a command does, and the score of a member of a set.
pub record SortedSets (S : Type 0) : Type 0 where
  pub run : Command → S → S
  pub score : String → String → S → Option ℕ

pub record IsSortedSets {S : Type 0} (r : SortedSets S) : Type 0 where
  pub delete :
      (k j m : String) (s : S)
      → r.score j m (r.run (delete_key k) s) ≡ (if k == j then none else r.score j m s)
  pub add :
      (k m : String) (p : ℕ) (j n : String) (s : S)
      → r.score j n (r.run (zadd k m p) s) ≡ (if k == j && m == n then some p else r.score j n s)

abbrev pub run_all : {S : Type 0} → SortedSets S → List Command → S → S
run_all r [] s = s
run_all r (c ∷ cs) s = run_all r cs (r.run c s)

abbrev or_else : {A : Type 0} → Option A → Option A → Option A
or_else none d = d
or_else (some a) d = some a

abbrev last_of : List ℕ → Option ℕ
last_of [] = none
last_of (p ∷ ps) = some (get_or_else (last_of ps) p)

-- The last position of a node in the data of a ring.
abbrev pub last_in : String → Dict String (List ℕ) → Option ℕ
last_in name [] = none
last_in name ((m, ps) ∷ ring_data) = if m == name then last_of ps else last_in name ring_data

last_in-absent :
    (name : String) (ring_data : Dict String (List ℕ))
    → elem name (keys ring_data) ≡ false
    → last_in name ring_data ≡ none
last_in-absent name [] h = refl
last_in-absent name ((m, ps) ∷ ring_data) h = ground (arith, last_in-absent name ring_data)

module _ {S : Type 0} (r : SortedSets S) (laws : IsSortedSets r) (key name : String) where
  run_all-append :
      (cs ds : List Command) (s : S) → run_all r (cs ++ ds) s ≡ run_all r ds (run_all r cs s)
  run_all-append [] ds s = refl
  run_all-append (c ∷ cs) ds s = run_all-append cs ds (r.run c s)

  adds_of-score :
      (m : String) (ps : List ℕ) (s : S)
      → r.score key name (run_all r (adds_of key m ps) s)
        ≡ (if m == name then or_else (last_of ps) (r.score key name s) else r.score key name s)
  unfolding adds_of
  adds_of-score m [] s = ground arith
  adds_of-score m (p ∷ ps) s =
      let ih = adds_of-score m ps (r.run (zadd key m p) s) in
      ground (arith, ih, laws.add key m p key name s, ==_refl key)

  ring_adds-score :
      (ring_data : Dict String (List ℕ)) (s : S)
      → Distinct (keys ring_data)
      → r.score key name (run_all r (ring_adds key ring_data) s)
        ≡ or_else (last_in name ring_data) (r.score key name s)
  unfolding ring_adds
  ring_adds-score [] s d = refl
  ring_adds-score ((m, ps) ∷ ring_data) s d =
      let split = run_all-append (adds_of key m ps) (ring_adds key ring_data) s in
      let ih = ring_adds-score ring_data (run_all r (adds_of key m ps) s) d.1 in
      ground (arith, split, ih, adds_of-score m ps s, last_in-absent m ring_data d.0, ==_lem m name)

pub write_ring-last :
    {W S : Type 0} (r : SortedSets S) (laws : IsSortedSets r) (c : RingCache W)
    (ring_data : Dict String (List ℕ)) (s : S) (name : String)
    → c.has_redis ≡ true
    → Distinct (keys ring_data)
    → r.score c.ring_key name (run_all r (write_ring_to_redis ring_data c) s)
      ≡ last_in name ring_data
unfolding write_ring_to_redis
write_ring-last r laws c ring_data s name h d = rw h (
    let key : String = c.ring_key in
    let e = ring_adds-score r laws key name ring_data (r.run (delete_key key) s) d in
    ground (arith, e, laws.delete key key name s, ==_refl key))

module _ {W : Type 0} where
  -- What the answers to a refresh tell of a node, the last one that is not empty.
  abbrev told :
      (String → Option W)
      → String
      → List String
      → List (Dict String String)
      → Option (Dict String (Metric W))
  told parse k [] results = none
  told parse k (name ∷ names) [] = none
  told parse k (name ∷ names) ([] ∷ results) = told parse k names results
  told parse k (name ∷ names) ((item ∷ items) ∷ results) =
      or_else (told parse k names results)
        (if name == k then some (decode parse (item ∷ items) []) else none)

  store_results-lookup :
      (parse : String → Option W) (k : String) (names : List String)
      (results : List (Dict String String)) (m : Dict String (Dict String (Metric W)))
      → lookup k (store_results parse names results m)
        ≡ or_else (told parse k names results) (lookup k m)
  unfolding store_results
  store_results-lookup parse k [] results m = refl
  store_results-lookup parse k (name ∷ names) [] m = refl
  store_results-lookup parse k (name ∷ names) ([] ∷ results) m =
      store_results-lookup parse k names results m
  store_results-lookup parse k (name ∷ names) ((item ∷ items) ∷ results) m =
      let new : Dict String (Metric W) = decode parse (item ∷ items) [] in
      let ih = store_results-lookup parse k names results (insert name new m) in
      ground (arith, ih, lookup-insert k name new m)

module _ {W : Type 0} ⦃f : Float W⦄ where
  refresh_names-lookup :
      (parse : String → Option W) (results : List (Dict String String)) (t : Times W) (k : String)
      (names : List String) (c : MetricsCache W)
      → lookup k (refresh_names parse results t names c).metrics_cache
        ≡ or_else (told parse k names results) (lookup k c.metrics_cache)
  unfolding refresh_names
  refresh_names-lookup parse results t k [] c = refl
  refresh_names-lookup parse results t k (name ∷ names) c =
      store_results-lookup parse k (name ∷ names) results c.metrics_cache

  -- A refresh that is answered, where there is a client, sets the metrics of a node to the decoded
  -- answer, and keeps the old ones where the answer is empty, as it is for an expired key; the
  -- nodes that are not asked for keep theirs. A call that raises changes nothing.
  refresh_all-lookup :
      (parse : String → Option W) (results : List (Dict String String)) (t : Times W) (k : String)
      (c : MetricsCache W)
      → c.has_redis ≡ true
      → (lookup k (refresh_all parse (some results) t c).metrics_cache
          ≡ or_else (told parse k c.node_names results) (lookup k c.metrics_cache))
        × (refresh_all parse none t c ≡ c)
  unfolding refresh_all
  refresh_all-lookup parse results t k c h =
      (ground (arith, refresh_names-lookup parse results t k c.node_names c), refl)
