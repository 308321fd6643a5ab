-- ===== src/Tests.antt =====
-- Runs of the modelled code on small concrete inputs. The children apply the theorems to them.
mod RingRuns
mod NodeRuns
mod AllocationRuns
mod ChordRuns
mod FeedbackRuns
mod ExecutorRuns
mod IntakeRuns
mod RebalanceRuns
mod BaselineRuns
mod StorageRuns
mod RedisRuns
mod FeatureRuns
mod ForecastRuns
mod ClassifierRuns
mod CoordinatorRuns
mod ServiceRuns
use predictive_consistent_ha.Prelude.{
  ℕ, zero, suc, String, true, Option, some, ◌+◌, ◌*◌, ◌%◌, get_or_else, length,
}
use predictive_consistent_ha.Prelude.Float.{milli}
use predictive_consistent_ha.Ring.{Hashing, Ring, init, add_node}
use Prim.Native.String.{len, char_at}
use Prim.Native.Char.{code}

-- A small hash: the bytes as digits to base 31, modulo 1009, spread by a factor.
hash_from : ℕ → ℕ → ℕ → String → ℕ
hash_from zero i acc s = acc
hash_from (suc rounds) i acc s = hash_from rounds (i + 1) ((acc * 31 + code (char_at s i)) % 1009) s

unfoldable pub small_hash : String → ℕ
unfolding hash_from
small_hash s = hash_from (len s) 0 7 s * 577 % 1009

abbrev pub hashing : Hashing
hashing = record { has_mmh3 = true; hash128 = small_hash; md5 = small_hash }

-- A ring with two virtual nodes for each node, and nodes "a", "b" and "c".
abbrev pub ring_0 : Ring ℕ
ring_0 = init 2 1 0

abbrev pub ring_a : Ring ℕ
ring_a = (get_or_else (add_node hashing "a" 100 1 ring_0) (ring_0, 0)).0

abbrev pub ring_ab : Ring ℕ
ring_ab = (get_or_else (add_node hashing "b" 100 2 ring_a) (ring_a, 0)).0

abbrev pub ring_abc : Ring ℕ
ring_abc = (get_or_else (add_node hashing "c" 100 3 ring_ab) (ring_ab, 0)).0
