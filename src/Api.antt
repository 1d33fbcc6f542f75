-- ===== src/Api.antt =====
-- internal/api/handlers.go: the endpoints of the admin server. A response is its status and what
-- was written of it; a failed write is only logged, so it ends a handler and changes nothing else.
pub mod Prometheus
pub mod Rekey
use Prim.Native.String as Str
use logryph.Base.{
  ℕ, zero, suc, ◌+◌, Bool, true, false, not, ◌&&◌, Option, none, some, List, [], ◌∷◌, ◌++◌, String,
  ◌==◌, is_set, if◌then◌else◌, leb, nat_eq, length,
}
use logryph.Base.Result.{Error, message, Result, ok, err, panic}
use logryph.Externals.{Externals, Bytes}
use logryph.Crypto.{Signer}
use logryph.Crypto.Keys.{Disk, rotate_key}
use logryph.Worker.{Worker, BackpressureMode, backpressure_drop, backpressure_block}
use logryph.Worker.Metrics
use logryph.Worker.Metrics.{
  LatencySnapshot, stats, latency_metrics, blocked_submits_of, backpressure_mode_of,
}
use logryph.Interceptor.{Engine}

pub record Response : Type 0 where
  pub status : ℕ
  pub body : String

-- What a request says of its sender.
pub record AdminRequest : Type 0 where
  pub method : String
  pub admin_token : String

module _ (x : Externals) (generate : ℕ → Option (Bytes × Bytes)) (show_error : Error → String) where
  rekey_response : Result (String × String) → Response
  rekey_response (ok (old, new)) = record {
    status = 200;
    body = Str.◌++◌ "Key rotated\nOld: " (Str.◌++◌ old (Str.◌++◌ "\nNew: " new));
  }
  rekey_response (err e) = record { status = 500; body = show_error e }
  rekey_response (panic e) = record { status = 500; body = show_error e }

  rekey : Signer × Disk → Response × (Signer × Disk)
  unfolding rekey_response
  rekey s = let (r, t) = rotate_key x generate ".logryph_key" s in (rekey_response r, t)

  -- `HandleRekey`; the first argument is LOGRYPH_ADMIN_TOKEN.
  unfoldable pub handle_rekey : String → AdminRequest → Signer × Disk → Response × (Signer × Disk)
  unfolding rekey
  handle_rekey expected r s =
      if not (r.method == "POST")
      then (record { status = 405; body = "Method not allowed" }, s)
      else if is_set expected && not (r.admin_token == expected)
      then (record { status = 401; body = "Unauthorized" }, s)
      else rekey s

-- `HandleReady` of a worker that is there: whether it is healthy, and has a signer and a storage.
unfoldable pub handle_ready : Bool → Bool → Bool → Response
handle_ready false signer db = record { status = 503; body = "worker unhealthy" }
handle_ready true false db = record { status = 503; body = "signer unavailable" }
handle_ready true true false = record { status = 503; body = "database unavailable" }
handle_ready true true true = record { status = 200; body = "ready" }

pub record PrometheusMetrics : Type 0 where
  pub pool_event_hits : ℕ
  pub pool_event_misses : ℕ
  pub events_processed : ℕ
  pub events_dropped : ℕ
  pub events_blocked : ℕ
  pub backpressure_mode : String
  pub active_tasks : ℕ
  pub queue_depth : ℕ
  pub queue_capacity : ℕ
  pub latency : LatencySnapshot

unfoldable pub mode_label : BackpressureMode → String
mode_label backpressure_drop = "drop"
mode_label backpressure_block = "block"

abbrev pub max_active_tasks : ℕ
max_active_tasks = 10000

-- The callback of `Range`, for each task
unfoldable pub count_tasks {ℓ} : {A : Type ℓ} → List A → ℕ → ℕ
count_tasks [] tasks = tasks
count_tasks (t ∷ ts) tasks =
    let rest = count_tasks ts (tasks + 1) in if leb max_active_tasks tasks then tasks else rest

-- `collectMetrics` of an engine with a worker; both of its later checks hold.
unfoldable pub collect_metrics : {S : Type 0} → Engine S → PrometheusMetrics
unfolding mode_label count_tasks
collect_metrics e = record {
  pool_event_hits = e.worker.core.pool.event_hits;
  pool_event_misses = e.worker.core.pool.event_misses;
  events_processed = (stats e.worker).0;
  events_dropped = (stats e.worker).1;
  events_blocked = blocked_submits_of e.worker;
  backpressure_mode = mode_label (backpressure_mode_of e.worker);
  active_tasks = count_tasks e.active_tasks 0;
  queue_depth = (Metrics.queue_depth e.worker).0;
  queue_capacity = (Metrics.queue_depth e.worker).1;
  latency = latency_metrics e.worker;
}
