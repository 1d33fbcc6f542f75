-- ===== src/Interceptor/Forward.antt =====
-- internal/interceptor/server.go: what a request that passes the proxy leaves behind.
use Prim.Native.String as Str
use logryph.Base.{
  ℕ, ◌≤◌, ◌≡◌, refl, sym, ap, ◌∙◌, Bool, true, Option, none, some, String, ◌==◌, is_set,
  if◌then◌else◌, ltb, le→leb, ◌*◌,
}
use logryph.Base.Result.{ok, bind-eq-ok, ok_injective, with_context}
use logryph.Assert.{check, check-eq-ok}
use logryph.Externals.{Externals}
use logryph.Observer.{Numbers, Rule}
use logryph.Policy.{
  action_redact, action_tag, action_allow, Outcome, evaluate_policy, or_empty, policy_id_or_empty,
  risk_level_or_empty,
}
use logryph.Worker.{Worker, max_block_attempts}
use logryph.Base.Assoc.{lookup}
use logryph.Interceptor.{
  McpRequest, McpJson, Exchange, holds, redact_sensitive_data, extract_task_metadata, parsed,
  apply_redaction, redact_body, set_body, apply_redaction_and_submit, observe, fail_open, on_body,
  intercept_request,
}
use logryph.Interceptor.Recorded.{IsRecorded, IsOpen, IsText, submit_tool_call_event-IsRecorded}

-- The rule that decides, if any, has an identifier and a risk level that the getters accept.
pub record HasLabels (r : Rule) : Type 0 where
  pub id_set : is_set r.id ≡ true
  pub id_short : Str.len r.id ≤ 128
  pub risk_set : is_set r.risk_level ≡ true
  pub risk_short : Str.len r.risk_level ≤ 32

abbrev pub IsLabeled : Option Rule → Type 0
IsLabeled none = Unit
IsLabeled (some r) = HasLabels r

policy_id-returns :
    (strict : Bool) (o : Option Rule)
    → IsLabeled o
    → (s : String) × (policy_id_or_empty strict o ≡ ok s)
unfolding policy_id_or_empty or_empty
policy_id-returns strict none h = ("", refl)
policy_id-returns strict (some r) h =
    (r.id, rw (h.id_set, le→leb (Str.len r.id) 128 h.id_short) refl)

risk_level-returns :
    (strict : Bool) (o : Option Rule)
    → IsLabeled o
    → (s : String) × (risk_level_or_empty strict o ≡ ok s)
unfolding risk_level_or_empty or_empty
risk_level-returns strict none h = ("", refl)
risk_level-returns strict (some r) h =
    (r.risk_level, rw (h.risk_set, le→leb (Str.len r.risk_level) 32 h.risk_short) refl)

module _ (x : Externals) (json : McpJson) (numbers : Numbers) {S : Type 0}
    (meanwhile : ℕ → Worker S → Worker S) where
  -- The body that is passed on: scrubbed for a rule that redacts, and otherwise the one that came.
  abbrev pub PassesOn : Outcome → String → String → Type 0
  PassesOn (action_redact, some rule) body scrubbed =
      redact_sensitive_data x json body rule.redact ≡ ok scrubbed
  PassesOn _ body scrubbed = scrubbed ≡ body

  applies_redaction :
      (outcome : Outcome) (body scrubbed : String) (t : Exchange S)
      → t.request.body ≡ holds body
      → PassesOn outcome body scrubbed
      → (u : Exchange S) × (apply_redaction x json numbers meanwhile outcome body t ≡ (ok tt, u))
        × (u.request.body ≡ holds scrubbed)
        × (u.engine ≡ t.engine)
  unfolding apply_redaction redact_body set_body
  applies_redaction (action_redact, some rule) body scrubbed t b h =
      (record t { request = record (t.request) { body = holds scrubbed } }, rw h refl, refl, refl)
  applies_redaction (action_redact, none) body scrubbed t b h =
      (t, refl, b ∙ ap holds (sym h), refl)
  applies_redaction (action_tag, rule) body scrubbed t b h = (t, refl, b ∙ ap holds (sym h), refl)
  applies_redaction (action_allow, rule) body scrubbed t b h = (t, refl, b ∙ ap holds (sym h), refl)

  method_set :
      (body : String) {r : McpRequest} {task method : String}
      → extract_task_metadata x json body ≡ ok (r, task, method)
      → is_set r.method ≡ true
  unfolding extract_task_metadata
  method_set body h =
      let (u, p1, q1) = bind-eq-ok (check x.strict (ltb 0 (Str.len body)) _) _ h in
      let (v, p2, q2) = bind-eq-ok (check x.strict (ltb (Str.len body) (1024 * 1024)) _) _ q1 in
      let (r, p3, q3) =
        bind-eq-ok (with_context "invalid JSON-RPC" (parsed (json.parse_request body))) _ q2 in
      let (w, p4, q4) = bind-eq-ok (check x.strict (is_set r.method) _) _ q3 in
      let (z, p5, q5) = bind-eq-ok (check x.strict (r.json_rpc == "2.0") _) _ q4 in
      ap (λ k. is_set k.0.method) (sym (ok_injective q5)) ∙ check-eq-ok x.strict _ _ p4

  -- What is done with a body that was read.
  observed :
      (t : Exchange S) (body scrubbed : String) (r : McpRequest) (task method : String)
      (outcome : Outcome)
      → t.request.body ≡ holds body
      → extract_task_metadata x json body ≡ ok (r, task, method)
      → evaluate_policy numbers x.strict t.engine.policies method r.params ≡ ok outcome
      → PassesOn outcome body scrubbed
      → IsOpen t.engine.worker
      → ((w : Worker S) → IsOpen w → IsOpen (meanwhile max_block_attempts w))
      → IsText (lookup task t.engine.last_event_by_task)
      → IsLabeled outcome.1
      → (u : Exchange S) × (observe x json numbers meanwhile body t ≡ (ok tt, u))
        × (u.request.body ≡ holds scrubbed)
        × IsRecorded x meanwhile task r outcome.1 t.engine u.engine
  unfolding observe apply_redaction_and_submit
  observed t body scrubbed r task method outcome b extracted chosen p h keeps kept labels =
      let (v, scrubs, passed_on, same) = applies_redaction outcome body scrubbed t b p in
      let (id, id_returns) = policy_id-returns x.strict outcome.1 labels in
      let (risk, risk_returns) = risk_level-returns x.strict outcome.1 labels in
      let (e, sent, recorded) =
        submit_tool_call_event-IsRecorded x json numbers meanwhile task r outcome.1 t.engine h keeps
          kept in
      (
        record v { engine = e },
        rw
            (
              extracted,
              chosen,
              method_set body extracted,
              scrubs,
              id_returns,
              risk_returns,
              same,
              sent,
            )
            refl,
        passed_on,
        recorded,
      )

  -- In either assertion mode, a POST request whose body is a valid call, and for which the
  -- policies have an outcome, passes `InterceptRequest` without a panic or an error: the body
  -- that is passed on is scrubbed if a rule redacts, and is otherwise as it came, and an event
  -- with the method, the task, the rule and the unscrubbed parameters of the call is submitted
  -- to the worker, whose processor has given one pooled event and one tick: it is queued, or
  -- dropped by a worker that is closing or full, or lost in a buffer that others filled before
  -- `Push`. The event's parent is the text that was kept for its task, and the event is what is
  -- kept for the task then. The worker drops on a full buffer, which is valid, and its channel
  -- is not closed, also when others used it before `Push`; what is kept for the task, if
  -- anything, is a text; a rule that decides has an identifier of at most 128 and a risk level
  -- of at most 32 characters; a body to scrub can be scrubbed.
  pub intercept_request-IsRecorded :
      (t : Exchange S) (body scrubbed : String) (r : McpRequest) (task method : String)
      (outcome : Outcome)
      → t.request.method ≡ "POST"
      → t.request.body ≡ holds body
      → extract_task_metadata x json body ≡ ok (r, task, method)
      → evaluate_policy numbers x.strict t.engine.policies method r.params ≡ ok outcome
      → PassesOn outcome body scrubbed
      → IsOpen t.engine.worker
      → ((w : Worker S) → IsOpen w → IsOpen (meanwhile max_block_attempts w))
      → IsText (lookup task t.engine.last_event_by_task)
      → IsLabeled outcome.1
      → (u : Exchange S) × (intercept_request x json numbers meanwhile t ≡ (ok tt, u))
        × (u.request.body ≡ holds scrubbed)
        × IsRecorded x meanwhile task r outcome.1 t.engine u.engine
  unfolding intercept_request on_body fail_open
  intercept_request-IsRecorded t body scrubbed r task method outcome post b extracted chosen p h
        keeps kept labels =
      let (u, done, passed_on, recorded) =
        observed t body scrubbed r task method outcome b extracted chosen p h keeps kept labels in
      (
        u,
        ap
              (λ m.
                if m == "POST"
                then on_body x json numbers meanwhile t.request.body t
                else (ok tt, t))
              post
            ∙ ap (λ k. on_body x json numbers meanwhile k t) b
            ∙ rw done refl,
        passed_on,
        recorded,
      )
