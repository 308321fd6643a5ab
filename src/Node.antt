-- ===== src/Node.antt =====
-- node/main.py: a node's state, its service and its metrics, over the scheduler and the executor.
-- Each coroutine is a function on the node, since none gives up control between its reads and
-- writes; the clocks are arguments. Of Prometheus the gauges and two counters are kept.
pub mod Runs
use predictive_consistent_ha.Prelude.{
  ℕ, String, Bool, true, false, Option, none, some, List, [], ◌∷◌, ◌+◌, ◌*◌, ◌++◌, max, length,
  get_or_else, if◌then◌else◌, ◌==◌, nat_eq, string_eq,
}
use predictive_consistent_ha.Prelude.Dict.{Dict, lookup, insert}
use predictive_consistent_ha.Prelude.Float.{Float, of_nat, fmin}
use predictive_consistent_ha.Scheduler.{
  QueuedRequest, PerClass, Scheduler, enqueue, get_queue_depths, total_depth,
}
use predictive_consistent_ha.Executor.{Executor, ExecutionResult}
use predictive_consistent_ha.Features.{recent}

pub record NodeState (W : Type 0) : Type 0 where
  pub name : String
  pub capacity_score : ℕ
  pub cpu_cores : ℕ
  pub memory_gb : ℕ
  pub start_time : W
  pub cpu_pct : W
  pub memory_pct : W
  pub queue_depth_light : ℕ
  pub queue_depth_medium : ℕ
  pub queue_depth_heavy : ℕ
  pub latency_ema_ms : W
  pub throughput_rps : W
  pub vnode_count : ℕ
  pub total_processed : ℕ
  pub total_rejected : ℕ
  pub is_healthy : Bool

-- `request_data`: a class is a number or a text, and `none` is an absent key.
pub data ClassValue : Type 0 where
  number : ℕ → ClassValue
  text : String → ClassValue

pub record RequestData : Type 0 where
  pub request_id : Option String
  pub request_class : Option ClassValue

-- The gauges that `update_prometheus_metrics` sets.
pub record Gauges (W : Type 0) : Type 0 where
  pub cpu : W
  pub memory : W
  pub queue_light : ℕ
  pub queue_medium : ℕ
  pub queue_heavy : ℕ
  pub queue_total : ℕ
  pub vnodes : ℕ
  pub throughput : W
  pub uptime : ℕ

-- The state of the process.
pub record Node (W : Type 0) : Type 0 where
  pub state : NodeState W
  pub scheduler : Scheduler (QueuedRequest W RequestData)
  pub executor : Executor W
  pub recent_completions : List W
  pub gauges : Gauges W
  pub requests_processed : Dict String ℕ
  pub requests_rejected : ℕ

pub record RouteReply : Type 0 where
  pub accepted : Bool
  pub node_id : String
  pub current_queue_depth : ℕ
  pub rejection_reason : String

-- What `to_dict` returns.
pub record NodeDict (W : Type 0) : Type 0 where
  pub node_id : String
  pub cpu_pct : W
  pub memory_pct : W
  pub queue_depth_light : ℕ
  pub queue_depth_medium : ℕ
  pub queue_depth_heavy : ℕ
  pub queue_depth_total : ℕ
  pub latency_ema_ms : W
  pub throughput_rps : W
  pub capacity_score : ℕ
  pub vnode_count : ℕ
  pub total_requests_processed : ℕ
  pub total_requests_rejected : ℕ
  pub timestamp_ms : ℕ
  pub is_healthy : Bool
  pub uptime_sec : ℕ

pub record HealthReply : Type 0 where
  pub node_id : String
  pub healthy : Bool
  pub uptime_sec : ℕ
  pub timestamp_ms : ℕ

-- The bodies of the HTTP answers.
pub data HttpBody (W : Type 0) : Type 0 where
  metrics_text : Gauges W → HttpBody W
  state_json : NodeDict W → HttpBody W
  route_json : RouteReply → HttpBody W
  error_json : HttpBody W
  not_found : HttpBody W

pub record HttpResponse (W : Type 0) : Type 0 where
  pub status : String
  pub content_type : String
  pub body : HttpBody W

-- `class_map.get(n, "Medium")`
unfoldable pub class_text : ClassValue → String
class_text (number n) =
    if n == 1 then "Light" else if n == 2 then "Medium" else if n == 3 then "Heavy" else "Medium"
class_text (text cls) = cls

module _ {W : Type 0} ⦃f : Float W⦄ where
  unfoldable pub init : String → ℕ → ℕ → ℕ → W → NodeState W
  init name capacity cpu_cores memory_gb now = record {
    name = name;
    capacity_score = capacity;
    cpu_cores = cpu_cores;
    memory_gb = memory_gb;
    start_time = now;
    cpu_pct = of_nat 5;
    memory_pct = of_nat 10;
    queue_depth_light = 0;
    queue_depth_medium = 0;
    queue_depth_heavy = 0;
    latency_ema_ms = of_nat 0;
    throughput_rps = of_nat 0;
    vnode_count = 0;
    total_processed = 0;
    total_rejected = 0;
    is_healthy = true;
  }

  -- `uptime_sec`, on a clock that does not run backwards
  unfoldable pub uptime_sec : W → NodeState W → ℕ
  uptime_sec now s = f.trunc (f.sub now s.start_time)

module _ {W : Type 0} where
  unfoldable pub queue_depth_total : NodeState W → ℕ
  queue_depth_total s = s.queue_depth_light + s.queue_depth_medium + s.queue_depth_heavy

  -- The depths of the scheduler's queues go into the state.
  unfoldable pub copy_depths : Node W → Node W
  copy_depths n =
      let depths = get_queue_depths n.scheduler in
      record n {
        state = record n.state {
          queue_depth_light = depths.of_light;
          queue_depth_medium = depths.of_medium;
          queue_depth_heavy = depths.of_heavy;
        };
      }

  -- The request that `RouteRequest` makes of its data
  unfoldable pub queued_of : W → RequestData → QueuedRequest W RequestData
  queued_of now data_ = record {
    request_id = get_or_else data_.request_id "unknown";
    request_class = class_text (get_or_else data_.request_class (text "Medium"));
    enqueued_at = now;
    payload = data_;
  }

  -- `RouteRequest` after the scheduler's answer
  unfoldable pub note_route : Bool → Node W → Node W
  note_route true n = copy_depths n
  note_route false n = record n {
    state = record n.state { total_rejected = n.state.total_rejected + 1 };
    requests_rejected = n.requests_rejected + 1;
  }

  unfoldable pub route_request : W → RequestData → Node W → Node W × RouteReply
  route_request now data_ n =
      let (scheduler, accepted) = enqueue (queued_of now data_) n.scheduler in
      let n2 = note_route accepted (record n { scheduler = scheduler }) in
      (
        n2,
        record {
          accepted = accepted;
          node_id = n2.state.name;
          current_queue_depth = total_depth n2.scheduler;
          rejection_reason = if accepted then "" else "queue_full";
        },
      )

module _ {W : Type 0} ⦃f : Float W⦄ where
  unfoldable pub to_dict : W → NodeState W → NodeDict W
  to_dict now s = record {
    node_id = s.name;
    cpu_pct = s.cpu_pct;
    memory_pct = s.memory_pct;
    queue_depth_light = s.queue_depth_light;
    queue_depth_medium = s.queue_depth_medium;
    queue_depth_heavy = s.queue_depth_heavy;
    queue_depth_total = queue_depth_total s;
    latency_ema_ms = s.latency_ema_ms;
    throughput_rps = s.throughput_rps;
    capacity_score = s.capacity_score;
    vnode_count = s.vnode_count;
    total_requests_processed = s.total_processed;
    total_requests_rejected = s.total_rejected;
    timestamp_ms = f.trunc (f.mul now (of_nat 1000));
    is_healthy = s.is_healthy;
    uptime_sec = uptime_sec now s;
  }

  unfoldable pub health_check : W → Node W → HealthReply
  health_check now n = record {
    node_id = n.state.name;
    healthy = n.state.is_healthy;
    uptime_sec = uptime_sec now n.state;
    timestamp_ms = f.trunc (f.mul now (of_nat 1000));
  }

  unfoldable pub update_prometheus_metrics : W → Node W → Node W
  update_prometheus_metrics now n = record n {
    gauges = record {
      cpu = n.state.cpu_pct;
      memory = n.state.memory_pct;
      queue_light = n.state.queue_depth_light;
      queue_medium = n.state.queue_depth_medium;
      queue_heavy = n.state.queue_depth_heavy;
      queue_total = queue_depth_total n.state;
      vnodes = n.state.vnode_count;
      throughput = n.state.throughput_rps;
      uptime = uptime_sec now n.state;
    };
  }

  -- The routing of `handle_http_request`: `mentions t` says whether the request line holds the text
  -- t, a body that cannot be read is `none`, and the first argument is `CONTENT_TYPE_LATEST`.
  unfoldable pub handle_http :
      String → (String → Bool) → W → Option RequestData → Node W → Node W × HttpResponse W
  handle_http content_type_latest mentions now body n =
      if mentions "GET /metrics"
      then (let n2 = update_prometheus_metrics now n in
          (
            n2,
            record {
              status = "200 OK";
              content_type = content_type_latest;
              body = metrics_text n2.gauges;
            },
          ))
      else if mentions "GET /health"
      then (
        n,
        record {
          status = "200 OK";
          content_type = "application/json";
          body = state_json (to_dict now n.state);
        },
      )
      else if mentions "POST /route"
      then posted body
      else (n, record { status = "404 Not Found"; content_type = "text/plain"; body = not_found })
    where
      posted : Option RequestData → Node W × HttpResponse W
      posted none = (
        n,
        record {
          status = "500 Internal Server Error";
          content_type = "application/json";
          body = error_json;
        },
      )
      posted (some data_) =
          let (n2, reply) = route_request now data_ n in
          (
            n2,
            record {
              status = "200 OK";
              content_type = "application/json";
              body = route_json reply;
            },
          )

  -- The load that the loop of the metrics estimates
  unfoldable pub load_ratio : Node W → W
  load_ratio n =
      let max_concurrent = n.state.cpu_cores * 2 in
      let throughput_ratio = f.div n.state.throughput_rps (of_nat (max (max_concurrent * 5) 1)) in
      let queue_ratio = f.ratio (total_depth n.scheduler) (max 450 1) in
      let active_ratio = f.ratio n.executor.active_count (max max_concurrent 1) in
      f.add (f.add (f.mul throughput_ratio (f.ratio 5 10)) (f.mul active_ratio (f.ratio 3 10)))
        (f.mul queue_ratio (f.ratio 2 10))

  abbrev pub ema : W → W → W
  ema value old = f.add (f.mul (f.ratio 3 10) value) (f.mul (f.sub (of_nat 1) (f.ratio 3 10)) old)

  -- One round of `metrics_update_loop`; `later` is the clock at the gauges.
  unfoldable pub update_metrics : W → W → Node W → Node W
  update_metrics now later n =
      let n1 = copy_depths n in
      let completions = recent (f.sub now (of_nat 10)) n1.recent_completions in
      let n2 : Node W = record n1 {
        recent_completions = completions;
        state = record n1.state { throughput_rps = f.ratio (length completions) 10 };
      } in
      let target_cpu = fmin (f.add (of_nat 5) (f.mul (load_ratio n2) (of_nat 93))) (of_nat 98) in
      let n3 : Node W = record n2 {
        state = record n2.state {
          cpu_pct = ema target_cpu n2.state.cpu_pct;
          memory_pct =
              fmin (f.add (of_nat 10) (f.mul (of_nat n2.state.total_processed) (f.ratio 1 1000)))
                (of_nat 80);
        };
      } in
      update_prometheus_metrics later n3

  unfoldable pub on_request_completed : W → ExecutionResult W → Node W → Node W
  on_request_completed now result n = record n {
    requests_processed =
        insert result.request_class
          (get_or_else (lookup result.request_class n.requests_processed) 0 + 1)
          n.requests_processed;
    recent_completions = n.recent_completions ++ now ∷ [];
    state = record n.state {
      total_processed = n.state.total_processed + 1;
      latency_ema_ms = ema result.total_time_ms n.state.latency_ema_ms;
    };
  }
