-- ===== src/Interceptor/Response.antt =====
-- internal/interceptor/server.go: `InterceptResponse`.
use logryph.Base.{ℕ, Option, none, some, String, is_set, if◌then◌else◌}
use logryph.Base.Assoc.{insert}
use logryph.Base.Result.{message, ok, panic}
use logryph.Base.Exec.{Exec, pure, fail, lift, gets, ◌>>=◌, ◌>>◌}
use logryph.Json.{Value, text, get}
use logryph.Event.{Event, Map}
use logryph.Externals.{Externals}
use logryph.Processor.{text_take}
use logryph.Worker.{Worker, submit}
use logryph.Worker.Metrics.{is_healthy}
use logryph.Interceptor.{
  McpResponse, McpJson, Body, no_body, broken, holds, Engine, in_worker, new_event, text_at,
}

module _ (x : Externals) (json : McpJson) {S : Type 0} (meanwhile : ℕ → Worker S → Worker S) where
  open x use {strict, new_uuid, now}

  unfoldable pub response_event : McpResponse → ℕ → Event → Event
  unfolding text_take text_at
  response_event r tick pooled = record pooled {
    id = text_take 8 (new_uuid tick);
    timestamp = now tick;
    event_type = "tool_response";
    response = r.result;
    task_id = text_at "task_id" r.result;
    task_state = text_at "state" r.result;
  }

  -- A state that is a text, also an empty one, is kept for a task that is named.
  store_state : String → Option Value → Exec (Engine S) (Unit {0})
  store_state task (some (text state)) e =
      if is_set task
      then (ok tt, record e { active_tasks = insert task state e.active_tasks })
      else (ok tt, e)
  store_state task _ e = (ok tt, e)

  store_task : Map → Exec (Engine S) (Unit {0})
  unfolding store_state text_at
  store_task none = pure tt
  store_task (some m) = store_state (text_at "task_id" (some m)) (get "state" m)

  -- A response that is JSON, with a worker that is healthy
  record_response : McpResponse → Exec (Engine S) (Unit {0})
  unfolding store_task new_event response_event
  record_response r = do
    store_task r.result
    pooled ← new_event
    in_worker (submit meanwhile strict (response_event r pooled.1 pooled.0))

  on_response : Option McpResponse → Exec (Engine S) (Unit {0})
  unfolding record_response
  on_response none = pure tt
  on_response (some r) = do
    healthy ← gets (λ e. is_healthy e.worker)
    if healthy then record_response r else pure tt

  -- `InterceptResponse`, which leaves the body that it read as it is. A response always has one.
  unfoldable pub intercept_response : Body → Exec (Engine S) (Unit {0})
  unfolding on_response
  intercept_response no_body = lift (panic (message "nil pointer dereference"))
  intercept_response broken = fail (message "read error")
  intercept_response (holds body) = on_response (json.parse_response body)
