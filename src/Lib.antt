-- ===== src/Lib.antt =====
-- Predictive consistent hashing: a coordinator spreads requests over nodes. A request's key is looked
-- up on a consistent hash ring (coordinator/routing/hash_ring.py), which gives a few candidates. The
-- allocation engine (coordinator/routing/allocation_engine.py) scores these by their metrics and takes
-- the least loaded. If all are overloaded, the router with finger tables
-- (coordinator/routing/chord_router.py) looks for another node. A node queues what it is sent by class
-- and serves the classes by weight (node/scheduler.py). A background task resizes the nodes' shares of
-- the ring by their load (coordinator/routing/daa.py). coordinator/intake/router.py is the pipeline
-- from a request to its node. Around it stand the features of a request
-- (coordinator/intake/feature_pipeline.py), its class and the forecast of the load (coordinator/ml),
-- the writers of the databases (coordinator/db), and the two services (coordinator/main.py and
-- node/main.py).
--
-- Files of the routing:
-- - Ring: `ConsistentHashRing`. The class is the record `Ring`; `add_node`, `remove_node`,
--   `update_node_vnodes`, `get_node`, `get_candidates` are the methods of these names. Its children
--   hold the calls of `bisect` (Positions), the invariant (Index, Validity), the clockwise successor
--   and the lookup (Successor, Lookup), what a change moves (Consistency), the walk for candidates
--   (Walk, Candidates), how many virtual nodes a node has (Shares), and the collision loop's end
--   (Termination). Views has the snapshot and the node infos.
-- - Allocation: `AllocationEngine`, with Selection for the choice and Bounds for the score.
-- - Chord: `ChordRouter`, with Fingers for successors, Routing for the walk and Tables for the
--   tables that a build leaves.
-- - Rebalance: `DynamicAdaptiveAllocator`, with Effects for what a cycle does and Status for
--   the constructor and the report.
-- - Intake: `RequestRouter`, with Outcome for where a request goes.
-- - Feedback: `FeedbackOptimizer` of coordinator/feedback/optimizer.py, with Bounds for its memory
--   and Status for the constructor and the report.
-- - Baselines: the balancers of coordinator/routing/baselines.py (RoundRobin, LeastConnections,
--   StaticHash) and the allocators of evaluation/baselines (Rotation, Connections, StaticRing).
--
-- Files of what stands around it:
-- - Features: `FeaturePipeline` of coordinator/intake/feature_pipeline.py. Window and History set its
--   windows against the whole history of its calls; Bounds is for the features' values.
-- - Classifier: `RequestClassifier` of coordinator/ml/classifier.py, with Drift for the drift
--   detection, Labels for the answers, Accuracy for the window of outcomes, and Runs.
-- - Forecast: `TrafficForecaster` of coordinator/ml/forecaster.py. Runs has it beside the
--   reallocation task; Loads is what the allocation engine reads of it.
-- - Storage: coordinator/db. Postgres is `PostgresBatchWriter` of postgres_writer.py, with Runs,
--   Moved, Lossless and Stop for its records; Influx and Points are `InfluxDBClient` of
--   influxdb_client.py; RingCache, MetricsCache and Cached are the caches of redis_cache.py.
-- - Coordinator: coordinator/main.py. Requests is `submit_request` (Submit, Outcomes: its runs);
--   Startup is the startup of `lifespan` and the polling of the nodes (Ready: what they leave).
-- - Scheduler: `WFQScheduler`, with Cycle for one scheduling cycle, Invariant for all runs and
--   Progress for the draining of the queues.
-- - Executor: `RequestExecutor` of node/executor.py, with Runs for its concurrent tasks.
-- - Node: node/main.py, with Runs for a node at work.
--
-- - Prelude: lists, dicts in insertion order, equality, least items, the digits of a number, and
--   Python's floats as an interface.
-- - Tests: runs on small inputs, and the theorems applied to them.
--
-- How the parts meet: the intake takes the feature pipeline, the classifier and the forecaster as
-- an interface (`Models`), which `wired` of Coordinator fills with Features, Classifier and Forecast.
-- `submit_request` then logs to Storage.Postgres and reports the outcome to Classifier. Forecast
-- tells the allocator of Rebalance of a burst. Startup fills Ring and Allocation, and its polling
-- feeds the metrics that Allocation scores. Node composes Scheduler and Executor.
--
-- Conventions: a method is a function from the object to the new object. A dict is an association
-- list in insertion order. Log lines are left out. `mmh3` and `hashlib` are the parameter `Hashing`.
-- What comes from outside is an argument: the time, the answers of a database or a node, numpy and
-- the trained networks, random numbers. Floats are an interface without NaN (`Float`); what the
-- theorems ask of them is `IsOrdered`, an order that the operations respect, and `IsRounded`,
-- the signs and the monotony that rounding keeps; fixed point numbers meet both.
--
-- Fuel: the collision loop of `add_node` need not end for every hash. It is given one round more than
-- there are taken positions, which is enough unless the rehashes of a key repeat; `none` means that
-- it ran out. `ceil_log2 n` has fuel `n`, and the digits of `n` have fuel `n + 1`; both are enough
-- for every number.
--
-- Simplifications that lose nothing here: `math.log2` is exact on the sizes of a cluster; `bisect`
-- on a sorted list is a search from the front; the set `seen` of `get_candidates` is the list of
-- candidates; a coroutine that never waits, or that waits under a lock, is one step.
--
-- Not modelled: an exception within a reallocation, a cancelled insertion within the runs of the
-- writer, the HTTP and gRPC servers and their messages, the
-- metrics of Prometheus but some gauges and counters, the shutdown of the services, the attention
-- network, the scripts for training, traffic and evaluation, and the dashboard.
pub mod Prelude
pub mod Ring
pub mod Allocation
pub mod Scheduler
pub mod Chord
pub mod Rebalance
pub mod Baselines
pub mod Intake
pub mod Executor
pub mod Feedback
pub mod Storage
pub mod Features
pub mod Forecast
pub mod Classifier
pub mod Coordinator
pub mod Node
mod Tests
