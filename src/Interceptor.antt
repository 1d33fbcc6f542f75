-- ===== src/Interceptor.antt =====
-- internal/interceptor/server.go, on the state of internal/core/engine.go: what happens to a
-- request and to a response that pass the proxy. The event pool and the source of identifiers and
-- times are those of the worker's processor, since they are global in Go.
pub mod Response
pub mod Recorded
pub mod Forward
pub mod Redact
use Prim.Native.String as Str
use logryph.Base.{
  ℕ, ◌+◌, ◌*◌, Bool, true, false, not, ◌&&◌, Option, none, some, List, [], ◌∷◌, String, ◌==◌,
  is_set, if◌then◌else◌, leb, ltb, length,
}
use logryph.Base.Assoc.{lookup, insert}
use logryph.Base.Result
use logryph.Base.Result.{Error, message, wrapped, Result, ok, err, panic}
use logryph.Base.Exec.{Exec, pure, lift, gets, ◌>>=◌, ◌>>◌}
use logryph.Assert.{check}
use logryph.Json.{Value, text, Fields, get, put, size}
use logryph.Event.{Event, Map}
use logryph.Externals.{Externals}
use logryph.Observer.{Numbers, Rule}
use logryph.Policy.{
  PolicyAction, action_redact, Outcome, evaluate_policy, policy_id_or_empty, risk_level_or_empty,
}
use logryph.Pool.{or_return, map_size}
use logryph.Processor.{EventProcessor, take_event, text_take}
use logryph.Worker.{Worker, submit, in_core}
use logryph.Worker.Metrics.{is_healthy}

-- `mcp.MCPRequest`; `id` is what `fmt.Sprint` prints of it, and is only logged.
pub record McpRequest : Type 0 where
  pub json_rpc : String
  pub id : Value
  pub method : String
  pub params : Map

pub record McpResponse : Type 0 where
  pub json_rpc : String
  pub id : Value
  pub result : Map
  pub error : Map

-- encoding/json on these two types: `none` where a text is no JSON of the type.
pub record McpJson : Type 0 where
  pub parse_request : String → Option McpRequest
  pub print_request : McpRequest → Option String
  pub parse_response : String → Option McpResponse

-- A body that was not read, one whose reading fails, or none.
pub data Body : Type 0 where
  no_body : Body
  broken : Body
  holds : String → Body

pub record HttpRequest : Type 0 where
  pub method : String
  pub body : Body

-- `core.Engine`. The maps are sync.Maps from task identifiers; the values of the second are of any
-- type.
pub record Engine (S : Type 0) : Type 0 where
  pub worker : Worker S
  pub active_tasks : List (String × String)
  pub policies : List Rule
  pub last_event_by_task : List (String × Value)

-- `core.NewEngine`, with the policies of the observer
abbrev pub new_engine : {S : Type 0} → Worker S → List Rule → Engine S
new_engine worker policies = record {
  worker = worker;
  active_tasks = [];
  policies = policies;
  last_event_by_task = [];
}

-- An engine, and the request that is passed on.
pub record Exchange (S : Type 0) : Type 0 where
  pub engine : Engine S
  pub request : HttpRequest

abbrev pub redacted : Value
redacted = text "[REDACTED]"

-- One round of the loop over the keys
unfoldable pub redact_key : String → Fields → Fields
redact_key key m = replace (get key m)
  where
    replace : Option Value → Fields
    replace none = m
    replace (some v) = put key redacted m

unfoldable pub redact_keys : List String → Fields → Fields
unfolding redact_key
redact_keys [] m = m
redact_keys (k ∷ ks) m = redact_keys ks (redact_key k m)

-- A nil map has no key, so nothing is assigned to it.
unfoldable pub redact_params : List String → Map → Map
unfolding redact_keys
redact_params keys none = none
redact_params keys (some m) = some (redact_keys keys m)

-- `v.(string)`
unfoldable pub as_text : Value → Option String
as_text (text s) = some s
as_text _ = none

-- `value, _ := m[key].(string)`
text_or_empty : Option Value → String
text_or_empty (some (text s)) = s
text_or_empty _ = ""

unfoldable pub text_at : String → Map → String
unfolding text_or_empty
text_at key none = ""
text_at key (some m) = text_or_empty (get key m)

abbrev pub invalid_json : Error
invalid_json = message "invalid JSON"

parsed {ℓ} : {A : Type ℓ} → Option A → Result A
parsed none = err invalid_json
parsed (some a) = ok a

module _ (x : Externals) (json : McpJson) where
  open x use {strict}

  -- `extractTaskMetadata`: the request, the task and the method.
  unfoldable pub extract_task_metadata : String → Result (McpRequest × String × String)
  unfolding parsed text_at
  extract_task_metadata body =
      Result.◌>>◌ (check strict (ltb 0 (Str.len body)) "request body is empty") (
        Result.◌>>◌ (check strict (ltb (Str.len body) (1024 * 1024)) "request body too large") (
          Result.◌>>=◌ (Result.with_context "invalid JSON-RPC" (parsed (json.parse_request body)))
            λ r. Result.◌>>◌ (check strict (is_set r.method) "method must not be empty") (
              Result.◌>>◌ (check strict (r.json_rpc == "2.0") "invalid JSON-RPC version")
                (ok (r, text_at "task_id" r.params, r.method)))))

  printed : Option String → Result String
  printed none = err (message "json: unsupported value")
  printed (some s) = ok s

  scrub : List String → String → Result String
  unfolding parsed printed redact_params
  scrub keys body = Result.◌>>=◌ (parsed (json.parse_request body)) λ r.
      Result.◌>>◌ (check strict (leb (map_size r.params) 256) "excessive parameters in request")
        (printed (json.print_request (record r { params = redact_params keys r.params })))

  -- Without keys the body is returned as it is, where the assertion returns.
  with_keys : String → List String → Result (Unit {0}) → Result String
  unfolding scrub
  with_keys body keys (ok u) =
      Result.◌>>◌ (check strict (leb (length keys) 128) "redaction keys exceed max")
        (scrub keys body)
  with_keys body keys (err e) = ok body
  with_keys body keys (panic e) = panic e

  -- `redactSensitiveData`
  unfoldable pub redact_sensitive_data : String → List String → Result String
  unfolding with_keys
  redact_sensitive_data body keys =
      Result.◌>>◌ (check strict (ltb 0 (Str.len body)) "body must not be empty")
        (with_keys body keys (check strict (ltb 0 (length keys)) "redaction keys must be defined"))

module _ {S : Type 0} where
  abbrev pub in_worker {ℓ} : {A : Type ℓ} → Exec (Worker S) A → Exec (Engine S) A
  in_worker m e = let (r, w) = m e.worker in (r, record e { worker = w })

  -- An event from the pool, with the number of its identifier and time.
  unfoldable pub new_event : Exec (Engine S) (Event × ℕ)
  unfolding take_event
  new_event = do
    tick ← gets (λ e. e.worker.core.ticks)
    pooled ← in_worker (in_core take_event)
    pure (pooled, tick)

module _ (x : Externals) (json : McpJson) (numbers : Numbers) {S : Type 0}
    (meanwhile : ℕ → Worker S → Worker S) where
  open x use {strict, new_uuid, now}

  -- The fields of a call that are set from the request and the rule.
  unfoldable pub call_event : String → McpRequest → Option Rule → ℕ → Event → Event
  unfolding text_take
  call_event task_id r rule tick pooled = with_rule rule (record pooled {
    id = text_take 8 (new_uuid tick);
    timestamp = now tick;
    event_type = "tool_call";
    method = r.method;
    params = r.params;
    task_id = task_id;
  })
    where
      with_rule : Option Rule → Event → Event
      with_rule none e = e
      with_rule (some p) e = record e { policy_id = p.id; risk_level = p.risk_level }

  -- A value that is no text fails an assertion, whose error is only logged.
  unfoldable pub with_parent : Option String → Event → Result Event
  with_parent (some s) e = ok (record e { parent_id = s })
  with_parent none e = logged (check strict false "parentID has unexpected type")
    where
      logged : Result (Unit {0}) → Result Event
      logged (panic why) = panic why
      logged _ = ok e

  -- The parent is the last event of the task.
  unfoldable pub parent_of : Option Value → Event → Result Event
  unfolding with_parent as_text
  parent_of none e = ok e
  parent_of (some v) e = with_parent (as_text v) e

  remember_event : String → Value → Exec (Engine S) (Unit {0})
  remember_event task_id v e =
      (ok tt, record e { last_event_by_task = insert task_id v e.last_event_by_task })

  unfoldable pub link_to_task : Event → Exec (Engine S) Event
  unfolding parent_of remember_event
  link_to_task event =
      if is_set event.task_id
      then (do
        last ← gets (λ e. lookup event.task_id e.last_event_by_task)
        linked ← lift (parent_of last event)
        remember_event event.task_id (text event.id)
        pure linked)
      else pure event

  -- `submitToolCallEvent` of a request and a worker that are there
  unfoldable pub submit_tool_call_event :
      String → McpRequest → Option Rule → Exec (Engine S) (Unit {0})
  unfolding new_event call_event link_to_task
  submit_tool_call_event task_id r rule = do
    pooled ← new_event
    linked ← link_to_task (call_event task_id r rule pooled.1 pooled.0)
    in_worker (submit meanwhile strict linked)

  abbrev in_engine {ℓ} : {A : Type ℓ} → Exec (Engine S) A → Exec (Exchange S) A
  in_engine m t = let (r, e) = m t.engine in (r, record t { engine = e })

  set_body : Body → Exec (Exchange S) (Unit {0})
  set_body b t = (ok tt, record t { request = record (t.request) { body = b } })

  redact_body : String → List String → Exec (Exchange S) (Unit {0})
  unfolding set_body
  redact_body body keys = do
    scrubbed ← lift (redact_sensitive_data x json body keys)
    set_body (holds scrubbed)

  -- The body is scrubbed for a rule that redacts; `SendErrorResponse` does nothing.
  unfoldable pub apply_redaction : Outcome → String → Exec (Exchange S) (Unit {0})
  unfolding redact_body
  apply_redaction (action_redact, some rule) body = redact_body body rule.redact
  apply_redaction _ body = pure tt

  -- `applyRedactionAndSubmit` of a request that is there
  unfoldable pub apply_redaction_and_submit :
      Outcome → String → String → McpRequest → Exec (Exchange S) (Unit {0})
  unfolding apply_redaction submit_tool_call_event
  apply_redaction_and_submit outcome body task_id r = do
    lift (check strict (is_set r.method) "method must not be empty")
    apply_redaction outcome body
    lift (policy_id_or_empty strict outcome.1)
    lift (risk_level_or_empty strict outcome.1)
    in_engine (submit_tool_call_event task_id r outcome.1)

  observe : String → Exec (Exchange S) (Unit {0})
  unfolding extract_task_metadata apply_redaction_and_submit
  observe body = do
    data_ ← lift (extract_task_metadata x json body)
    policies ← gets (λ t. t.engine.policies)
    outcome ← lift (evaluate_policy numbers strict policies data_.2 data_.0.params)
    apply_redaction_and_submit outcome body data_.1 data_.0

  -- An error ends the call, and is not returned.
  unfoldable pub fail_open : {T : Type 0} → Exec T (Unit {0}) → Exec T (Unit {0})
  fail_open m s = let (r, t) = m s in (drop_error r, t)
    where
      drop_error : Result (Unit {0}) → Result (Unit {0})
      drop_error (panic why) = panic why
      drop_error _ = ok tt

  on_body : Body → Exec (Exchange S) (Unit {0})
  unfolding observe fail_open
  on_body (holds body) = fail_open (observe body)
  on_body _ = pure tt

  -- `InterceptRequest`
  unfoldable pub intercept_request : Exec (Exchange S) (Unit {0})
  unfolding on_body
  intercept_request t = if t.request.method == "POST" then on_body t.request.body t else (ok tt, t)
