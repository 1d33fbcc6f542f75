-- ===== src/Api/Prometheus.antt =====
-- internal/api/handlers.go: the metrics as text. A writer takes lines until a write fails.
use Prim.Native.String as Str
use logryph.Base.{ℕ, suc, Bool, true, false, List, [], ◌∷◌, ◌++◌, String, nat_eq, if◌then◌else◌}
use logryph.Worker.Metrics.{LatencySnapshot}
use logryph.Interceptor.{Engine}
use logryph.Api.{PrometheusMetrics, collect_metrics}

-- `fmt` on a number: `%d`, and `%.6f` of a number of nanoseconds over `time.Second`.
pub record Formats : Type 0 where
  pub decimal : ℕ → String
  pub seconds : ℕ → String

-- What was written, and which of the next writes fail; a failed one writes nothing.
pub record Writer : Type 0 where
  pub written : List String
  pub fails : List Bool

write_line : String → List Bool → Writer → Bool × Writer
write_line s [] w = (true, record w { written = w.written ++ s ∷ [] })
write_line s (true ∷ fs) w = (false, record w { fails = fs })
write_line s (false ∷ fs) w = (true, record { written = w.written ++ s ∷ []; fails = fs })

-- `writef`: false where the write failed.
unfoldable pub writef : String → Writer → Bool × Writer
unfolding write_line
writef s w = write_line s w.fails w

-- `if !writef(…) { return }`, again and again; false where the handler returned.
unfoldable pub writes : List String → Writer → Bool × Writer
unfolding writef
writes [] w = (true, w)
writes (s ∷ ss) w =
    let (b, v) = writef s w in let rest = writes ss v in if b then rest else (false, v)

-- The three lines of a metric.
metric : String → String → String → String → String → List String
metric name help kind labels value =
    Str.◌++◌ "# HELP " (Str.◌++◌ name (Str.◌++◌ " " (Str.◌++◌ help "\n")))
    ∷ Str.◌++◌ "# TYPE " (Str.◌++◌ name (Str.◌++◌ " " (Str.◌++◌ kind "\n")))
    ∷ Str.◌++◌ name (Str.◌++◌ labels (Str.◌++◌ " " (Str.◌++◌ value "\n")))
    ∷ []

module _ (f : Formats) where
  open f use {decimal, seconds}

  -- The lines before the histogram
  unfoldable pub counter_lines : PrometheusMetrics → List String
  unfolding metric
  counter_lines m =
      metric "logryph_pool_event_hits_total" "Total hits on the event pool" "counter" ""
        (decimal m.pool_event_hits)
      ++ metric "logryph_pool_event_misses_total" "Total misses (allocations) in the event pool"
          "counter" "" (decimal m.pool_event_misses)
      ++ metric "logryph_ledger_events_processed_total"
          "Total events successfully written to the ledger" "counter" ""
          (decimal m.events_processed)
      ++ metric "logryph_ledger_events_dropped_total" "Total events dropped due to backpressure"
          "counter" "" (decimal m.events_dropped)
      ++ metric "logryph_ledger_events_blocked_total"
          "Total submit attempts blocked by backpressure" "counter" "" (decimal m.events_blocked)
      ++ metric "logryph_ledger_backpressure_mode" "Current backpressure mode (drop|block)" "gauge"
          (Str.◌++◌ "{mode=\"" (Str.◌++◌ m.backpressure_mode "\"}")) "1"
      ++ metric "logryph_engine_active_tasks_total" "Number of currently active causal tasks"
          "gauge" "" (decimal m.active_tasks)
      ++ metric "logryph_ledger_queue_depth" "Current queue depth" "gauge" ""
          (decimal m.queue_depth)
      ++ metric "logryph_ledger_queue_capacity" "Queue capacity" "gauge" ""
          (decimal m.queue_capacity)

  -- `upper == ^uint64(0)`
  bound_label : ℕ → String
  bound_label upper = if nat_eq upper 18446744073709551615 then "+Inf" else seconds upper

  bucket_line : ℕ → ℕ → String
  unfolding bound_label
  bucket_line upper n =
      Str.◌++◌ "logryph_ledger_event_latency_seconds_bucket{le=\""
        (Str.◌++◌ (bound_label upper) (Str.◌++◌ "\"} " (Str.◌++◌ (decimal n) "\n")))

  -- One line for each of at most `n` buckets. The two lists of a snapshot are of one length.
  bucket_lines : ℕ → List ℕ → List ℕ → List String
  unfolding bucket_line
  bucket_lines (suc n) (b ∷ bounds) (c ∷ counts) = bucket_line b c ∷ bucket_lines n bounds counts
  bucket_lines _ _ _ = []

  -- `formatLatencyHistogram`: every bucket has its own count, not that of the ones below too.
  unfoldable pub histogram_lines : LatencySnapshot → List String
  unfolding bucket_lines
  histogram_lines l =
      "# HELP logryph_ledger_event_latency_seconds Event processing latency\n"
        ∷ "# TYPE logryph_ledger_event_latency_seconds histogram\n"
        ∷ bucket_lines 20 l.bounds_ns l.counts
      ++ Str.◌++◌ "logryph_ledger_event_latency_seconds_sum " (Str.◌++◌ (seconds l.sum_ns) "\n")
        ∷ Str.◌++◌ "logryph_ledger_event_latency_seconds_count " (Str.◌++◌ (decimal l.count) "\n")
        ∷ []

  -- `formatPrometheusText`
  unfoldable pub format_prometheus_text : PrometheusMetrics → Writer → Writer
  format_prometheus_text m w =
      let (b, v) = writes (counter_lines m) w in
      if b then (writes (histogram_lines m.latency) v).1 else v

  -- `HandlePrometheus`
  unfoldable pub handle_prometheus : {S : Type 0} → Engine S → Writer → Writer
  unfolding format_prometheus_text
  handle_prometheus e w = format_prometheus_text (collect_metrics e) w

  -- All lines of a metrics page.
  abbrev pub page : PrometheusMetrics → List String
  page m = counter_lines m ++ histogram_lines m.latency

-- The lines before the first write that fails.
abbrev pub until_failure : List Bool → List String → List String
until_failure fs [] = []
until_failure [] (s ∷ ss) = s ∷ ss
until_failure (true ∷ fs) (s ∷ ss) = []
until_failure (false ∷ fs) (s ∷ ss) = s ∷ until_failure fs ss
