-- ===== src/Tests/RedisRuns.antt =====
-- The theorems on the Redis caches, with a store of sorted sets as a function.
use predictive_consistent_ha.Prelude.{
  ℕ, String, true, none, some, List, [], ◌∷◌, ◌≡◌, refl, Option, if◌then◌else◌, ◌&&◌, ◌==◌,
  string_eq,
}
use predictive_consistent_ha.Prelude.Dict.{Dict}
use predictive_consistent_ha.Prelude.Float.{milli}
use predictive_consistent_ha.Storage.RingCache.{
  Command, delete_key, zadd, hset, expire, RingCache, write_ring_to_redis,
}
use predictive_consistent_ha.Storage.RingCache.{init as init_ring}
use predictive_consistent_ha.Storage.Cached.{SortedSets, IsSortedSets, run_all, write_ring-last}

abbrev Scores : Type 0
Scores = String → String → Option ℕ

abbrev run : Command → Scores → Scores
run (delete_key k) s = λ j m. if k == j then none else s j m
run (zadd k m p) s = λ j n. if k == j && m == n then some p else s j n
run (hset k d) s = s
run (expire k t) s = s

abbrev sets : SortedSets Scores
sets = record { run = run; score = λ j m s. s j m }

sets-IsSortedSets : IsSortedSets sets
sets-IsSortedSets = record { delete = λ k j m s. refl; add = λ k m p j n s. refl }

abbrev data_items : Dict String (List ℕ)
data_items = ("node_s1", 10 ∷ 20 ∷ 30 ∷ []) ∷ ("node_s2", 15 ∷ 25 ∷ []) ∷ []

abbrev ring_cache : RingCache ℕ
ring_cache = init_ring true "ring:vnodes"

write_ring-last_example :
    run_all sets (write_ring_to_redis data_items ring_cache) (λ j m. none) "ring:vnodes" "node_s1"
    ≡ some 30
unfolding init_ring
write_ring-last_example =
    write_ring-last sets sets-IsSortedSets ring_cache data_items (λ j m. none) "node_s1" refl
      (refl, (refl, tt))
