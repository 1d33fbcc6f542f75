-- ===== src/Tests/Proxy.antt =====
-- Concrete values on which the theorems of the proxy, the metrics and the trace apply.
use logryph.Base.{
  ◌%◌, ◌^◌, ◌≡◌, refl, true, false, Option, none, some, [], ◌∷◌, String, ◌==◌, if◌then◌else◌,
  has_prefix, ◌+◌, arith,
}
use logryph.Base.Assoc.{lookup}
use logryph.Base.Result.{ok}
use logryph.Json.{null, text, field, end, get, put, size}
use logryph.Event.{Event, Time}
use logryph.Samples.{externals, two_events-IsValid, tool_call, finished_call}
use logryph.Observer.{Rule, match_pattern}
use logryph.Policy.{action_redact, evaluate_policy, first_rule, applies, action_of}
use logryph.Store.{Db}
use logryph.Worker.{record_latency}
use logryph.Worker.Latency.{IsTallied, Counts, bounds, record_latency-IsTallied}
use logryph.Tests.{worker}
use logryph.Tests.Parts.{numbers, rule}
use logryph.Interceptor.{
  McpRequest, McpJson, Engine, Exchange, holds, redact_sensitive_data, redact_params, redact_keys,
  redact_key, extract_task_metadata, intercept_request,
}
use logryph.Interceptor.Redact.{ReadsBack, redact_sensitive_data-masks, mask, is_listed, param}
use logryph.Interceptor.Recorded.{IsRecorded, IsOpen}
use logryph.Interceptor.Forward.{HasLabels, intercept_request-IsRecorded}
use logryph.Api.Prometheus.{Formats, Writer}
use logryph.Trace.{children_of}
use logryph.Trace.Print.{print_trace_tree}
use logryph.Trace.Order.{Forest, nil, cons, node, preorder, print_trace_tree-preorder}

abbrev secret_call : McpRequest
secret_call = record {
  json_rpc = "2.0";
  id = null;
  method = "aws:run";
  params = some (field "token" (text "s3cr3t") (field "region" (text "eu") end));
}

abbrev scrubbed_call : McpRequest
scrubbed_call = record secret_call {
  params = some (field "token" (text "[REDACTED]") (field "region" (text "eu") end));
}

-- Two texts are requests here.
abbrev texts : String → Option McpRequest
texts s =
    if s == "secret" then some secret_call else if s == "scrubbed" then some scrubbed_call else none

abbrev mcp_json : McpJson
mcp_json = record {
  parse_request = texts;
  print_request = λ r. some "scrubbed";
  parse_response = λ s. none;
}

scrubbed-ReadsBack :
    ReadsBack mcp_json
      (record secret_call { params = redact_params ("token" ∷ []) secret_call.params })
unfolding redact_params redact_keys redact_key get put
scrubbed-ReadsBack = record {
  written = "scrubbed";
  read = scrubbed_call;
  prints = refl;
  parses = refl;
  same_rpc = refl;
  same_method = refl;
  same_params = λ k. refl;
}

redact_sensitive_data-masks_example :
    (redact_sensitive_data externals mcp_json "secret" ("token" ∷ [])
      ≡ ok scrubbed-ReadsBack.written)
    × (scrubbed-ReadsBack.read.method ≡ secret_call.method)
    × ((k : String)
        → param k scrubbed-ReadsBack.read.params
          ≡ mask (is_listed k ("token" ∷ [])) (param k secret_call.params))
unfolding size
redact_sensitive_data-masks_example =
    redact_sensitive_data-masks externals mcp_json "secret" ("token" ∷ []) secret_call (omega arith)
      (omega arith) (omega arith) refl (omega arith) scrubbed-ReadsBack

abbrev redacting_rule : Rule
redacting_rule = record rule { match_conditions = []; redact = "token" ∷ [] }

abbrev engine : Engine Db
engine = record {
  worker = worker;
  active_tasks = [];
  policies = redacting_rule ∷ [];
  last_event_by_task = [];
}

abbrev exchange : Exchange Db
exchange = record { engine = engine; request = record { method = "POST"; body = holds "secret" } }

decided :
    evaluate_policy numbers true (redacting_rule ∷ []) "aws:run" secret_call.params
    ≡ ok (action_redact, some redacting_rule)
unfolding evaluate_policy first_rule applies match_pattern action_of has_prefix
decided = refl

extracted : extract_task_metadata externals mcp_json "secret" ≡ ok (secret_call, "", "aws:run")
unfolding extract_task_metadata get
extracted = refl

worker-IsOpen : IsOpen worker
worker-IsOpen = record { valid = two_events-IsValid; may_send = refl; drops = refl }

rule-HasLabels : HasLabels redacting_rule
rule-HasLabels = record {
  id_set = refl;
  id_short = omega arith;
  risk_set = refl;
  risk_short = omega arith;
}

intercept_request-IsRecorded_example :
    (u : Exchange Db) × (intercept_request externals mcp_json numbers (λ n w. w) exchange
      ≡ (ok tt, u))
    × (u.request.body ≡ holds "scrubbed")
    × IsRecorded externals (λ n w. w) "" secret_call (some redacting_rule) engine u.engine
unfolding scrubbed-ReadsBack lookup
intercept_request-IsRecorded_example =
    intercept_request-IsRecorded externals mcp_json numbers (λ n w. w) exchange "secret" "scrubbed"
      secret_call "" "aws:run" (action_redact, some redacting_rule) refl refl extracted decided
      redact_sensitive_data-masks_example.0 worker-IsOpen (λ w h. h) tt rule-HasLabels

worker-IsTallied : IsTallied worker
worker-IsTallied = record { all_buckets = refl; tally = refl }

record_latency-IsTallied_example :
    IsTallied (record_latency 7000000 worker)
    × Counts 7000000 bounds worker.latency_buckets ((record_latency 7000000 worker).latency_buckets)
    × ((record_latency 7000000 worker).latency_count ≡ worker.latency_count + 1)
    × ((record_latency 7000000 worker).latency_sum_ns ≡ (worker.latency_sum_ns + 7000000) % 2 ^ 64)
record_latency-IsTallied_example =
    record_latency-IsTallied 7000000 worker (omega arith) (omega arith) worker-IsTallied

abbrev formats : Formats
formats = record { decimal = λ n. "0"; seconds = λ n. "0.001000" }

abbrev failing_writer : Writer
failing_writer = record { written = []; fails = false ∷ true ∷ [] }

abbrev root_call : Event
root_call = record tool_call { id = "event-01" }

abbrev below_call : Event
below_call = record finished_call { id = "event-02"; parent_id = "event-01" }

abbrev forest : Forest
forest = cons (node root_call (cons (node below_call nil) nil)) nil

abbrev shown_time : Time → String
shown_time t = "0s"

print_trace_tree-preorder_example :
    print_trace_tree true shown_time (("event-01", below_call ∷ []) ∷ []) (root_call ∷ []) []
    ≡ (ok tt, preorder true shown_time (("event-01", below_call ∷ []) ∷ []) "" forest)
unfolding children_of lookup
print_trace_tree-preorder_example =
    print_trace_tree-preorder true shown_time (("event-01", below_call ∷ []) ∷ []) forest
      (omega arith, refl, omega arith, (omega arith, refl, omega arith, tt, tt), tt) (omega arith)
