-- ===== src/Worker/Metrics.antt =====
-- internal/ledger/worker.go: the settings and the counters of the worker.
use logryph.Base.{ℕ, Bool, not, List}
use logryph.Ring.{len, cap}
use logryph.Worker.{Worker, BackpressureMode, latency_bucket_upper_ns}

pub record LatencySnapshot : Type 0 where
  pub bounds_ns : List ℕ
  pub counts : List ℕ
  pub sum_ns : ℕ
  pub count : ℕ

module _ {S : Type 0} where
  -- `SetBackpressureMode` of a worker that is there. Every value of the type is a valid mode.
  abbrev pub set_backpressure_mode : BackpressureMode → Worker S → Worker S
  set_backpressure_mode mode w = record w { backpressure_mode = mode }

  abbrev pub backpressure_mode_of : Worker S → BackpressureMode
  backpressure_mode_of w = w.backpressure_mode

  abbrev pub blocked_submits_of : Worker S → ℕ
  blocked_submits_of w = w.blocked_submits

  abbrev pub is_healthy : Worker S → Bool
  is_healthy w = not w.is_unhealthy

  abbrev pub stats : Worker S → ℕ × ℕ
  stats w = (w.processed_events, w.dropped_events)

  abbrev pub queue_depth : Worker S → ℕ × ℕ
  queue_depth w = (len w.ring_buffer, cap w.ring_buffer)

  abbrev pub latency_metrics : Worker S → LatencySnapshot
  latency_metrics w = record {
    bounds_ns = latency_bucket_upper_ns;
    counts = w.latency_buckets;
    sum_ns = w.latency_sum_ns;
    count = w.latency_count;
  }
