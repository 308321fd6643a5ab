-- ===== src/Storage/RingCache.antt =====
-- coordinator/db/redis_cache.py: `RedisRingCache`, the cache of the ring. The answers of Redis
-- and the clocks are arguments: an answer `none` is a call that raises. Bytes are the text that
-- the code decodes them to, and the scores of the sorted set are the whole numbers written there.
use predictive_consistent_ha.Prelude.{
  ℕ, String, Bool, true, false, Option, none, some, List, [], ◌∷◌, ◌+◌, ◌++◌, length, if◌then◌else◌,
  nat_eq,
}
use predictive_consistent_ha.Prelude.Dict.{Dict, insert}
use predictive_consistent_ha.Prelude.Float.{Float, of_nat}
use predictive_consistent_ha.Storage.{Times}

-- What is sent to Redis.
pub data Command : Type 0 where
  delete_key : String → Command
  zadd : String → String → ℕ → Command
  hset : String → Dict String String → Command
  expire : String → ℕ → Command

pub record RingCache (W : Type 0) : Type 0 where
  pub has_redis : Bool
  pub ring_key : String
  pub ring_snapshot : Dict ℕ String
  pub last_refresh : W
  pub refresh_count : ℕ
  pub refresh_latency_ms : W
  pub running : Bool

pub record RingStats (W : Type 0) : Type 0 where
  pub ring_cache_size : ℕ
  pub last_refresh : W
  pub refresh_count : ℕ
  pub refresh_latency_ms : W

-- The loop over the entries of the sorted set
unfoldable pub snapshot_of : List (String × ℕ) → Dict ℕ String → Dict ℕ String
snapshot_of [] m = m
snapshot_of ((member, score) ∷ entries) m = snapshot_of entries (insert score member m)

-- The inner and the outer loop of `write_ring_to_redis`
unfoldable pub adds_of : String → String → List ℕ → List Command
adds_of key name [] = []
adds_of key name (pos ∷ positions) = zadd key name pos ∷ adds_of key name positions

unfoldable pub ring_adds : String → Dict String (List ℕ) → List Command
ring_adds key [] = []
ring_adds key ((name, positions) ∷ ring_data) =
    adds_of key name positions ++ ring_adds key ring_data

module _ {W : Type 0} where
  -- The commands of the pipeline; nothing is sent without a client.
  unfoldable pub write_ring_to_redis : Dict String (List ℕ) → RingCache W → List Command
  write_ring_to_redis ring_data c =
      if c.has_redis then delete_key c.ring_key ∷ ring_adds c.ring_key ring_data else []

module _ {W : Type 0} ⦃f : Float W⦄ where
  unfoldable pub init : Bool → String → RingCache W
  init has_redis ring_key = record {
    has_redis = has_redis;
    ring_key = ring_key;
    ring_snapshot = [];
    last_refresh = of_nat 0;
    refresh_count = 0;
    refresh_latency_ms = of_nat 0;
    running = false;
  }

  start : RingCache W → RingCache W
  start c = record c { running = true }

  stop : RingCache W → RingCache W
  stop c = record c { running = false }

  unfoldable pub refresh : Option (List (String × ℕ)) → Times W → RingCache W → RingCache W
  refresh none t c = c
  refresh (some entries) t c =
      if c.has_redis
      then record c {
        ring_snapshot = snapshot_of entries [];
        last_refresh = t.now;
        refresh_count = c.refresh_count + 1;
        refresh_latency_ms = f.mul (f.sub t.end t.start) (of_nat 1000);
      }
      else c

  unfoldable pub get_snapshot : RingCache W → Dict ℕ String
  get_snapshot c = c.ring_snapshot

  get_stats : RingCache W → RingStats W
  get_stats c = record {
    ring_cache_size = length c.ring_snapshot;
    last_refresh = c.last_refresh;
    refresh_count = c.refresh_count;
    refresh_latency_ms = f.rounded 3 c.refresh_latency_ms;
  }
