-- ===== src/Interceptor/Recorded.antt =====
-- internal/interceptor/server.go: the event that a call is recorded as.
use mathlib.Core.Option.{some-injective}
use logryph.Base.{
  ℕ, ◌≡◌, refl, sym, ap, ◌∙◌, subst, Bool, true, false, Option, none, some, String, is_set,
}
use logryph.Base.Assoc.{lookup, insert, lookup-insert}
use logryph.Base.Result.{Result, ok, err, panic}
use logryph.Base.Post.{Post}
use logryph.Json.{Value, text}
use logryph.Event.{Event}
use logryph.Externals.{Externals}
use logryph.Observer.{Numbers, Rule}
use logryph.Pool.{get_event}
use logryph.Processor.{take_event}
use logryph.Ring.Bounds.{IsValid}
use logryph.Worker.{Worker, backpressure_drop, max_block_attempts, submit}
use logryph.Worker.Submit.{IsSubmitted, submit-drop}
use logryph.Interceptor.{
  McpRequest, McpJson, Engine, new_event, call_event, parent_of, with_parent, as_text, link_to_task,
  remember_event, submit_tool_call_event,
}

-- An action that neither fails nor panics gives a state.
ends_ok :
    {S : Type 0} (Q : S → Type 0) (o : Result (Unit {0}) × S)
    → Post (λ _ t. Q t) (λ _. ⊥) o
    → (t : S) × (o ≡ (ok tt, t)) × Q t
ends_ok Q (ok u, t) h = (t, refl, h)
ends_ok Q (err e, t) h = elim h [ ]
ends_ok Q (panic e, t) h = elim h [ ]

-- The fields that a call's event takes from the request, unscrubbed, and from the rule.
abbrev IsOf : Option Rule → Event → Type 0
IsOf none e = Unit
IsOf (some p) e = (e.policy_id ≡ p.id) × (e.risk_level ≡ p.risk_level)

pub record Describes (task : String) (r : McpRequest) (rule : Option Rule) (e : Event)
    : Type 0 where
  pub kind : e.event_type ≡ "tool_call"
  pub same_method : e.method ≡ r.method
  pub same_params : e.params ≡ r.params
  pub same_task : e.task_id ≡ task
  pub of_rule : IsOf rule e

with_parent-Describes :
    {task : String} {r : McpRequest} (rule : Option Rule) (e : Event) (parent : String)
    → Describes task r rule e
    → Describes task r rule (record e { parent_id = parent })
with_parent-Describes none e parent h = record {
  kind = h.kind;
  same_method = h.same_method;
  same_params = h.same_params;
  same_task = h.same_task;
  of_rule = tt;
}
with_parent-Describes (some p) e parent h = record {
  kind = h.kind;
  same_method = h.same_method;
  same_params = h.same_params;
  same_task = h.same_task;
  of_rule = h.of_rule;
}

module _ {S : Type 0} where
  -- A worker that may be given an event.
  pub record IsOpen (w : Worker S) : Type 0 where
    pub valid : IsValid w.ring_buffer
    pub may_send : w.signal_closed ≡ false
    pub drops : w.backpressure_mode ≡ backpressure_drop

-- What is kept for a task, if anything, is a text.
abbrev pub IsText : Option Value → Type 0
IsText none = Unit
IsText (some v) = (s : String) × (v ≡ text s)

module _ (x : Externals) {S : Type 0} (meanwhile : ℕ → Worker S → Worker S) where
  -- The call is submitted to the worker, from whose pool one event and one tick are taken; it follows
  -- the last event of its task, and is the last one now.
  pub record IsRecorded (task : String) (r : McpRequest) (rule : Option Rule) (e u : Engine S)
      : Type 0 where
    pub event : Event
    pub describes : Describes task r rule event
    pub outcome :
        IsSubmitted x.strict event meanwhile
          (record (e.worker) { core = (take_event e.worker.core).1 })
          u.worker
    pub from_last :
        (p : String)
        → is_set task ≡ true
        → lookup task e.last_event_by_task ≡ some (text p)
        → event.parent_id ≡ p
    pub is_last : is_set task ≡ true → lookup task u.last_event_by_task ≡ some (text event.id)

module _ (x : Externals) (json : McpJson) (numbers : Numbers) {S : Type 0}
    (meanwhile : ℕ → Worker S → Worker S) where
  -- The event with its parent, and the engine that remembers it as the task's last.
  record IsLinked (event : Event) (e : Engine S) (linked : Event) (f : Engine S) : Type 0 where
    parent : String
    same_event : linked ≡ record event { parent_id = parent }
    same_worker : f.worker ≡ e.worker
    from_last :
        (p : String)
        → is_set event.task_id ≡ true
        → lookup event.task_id e.last_event_by_task ≡ some (text p)
        → parent ≡ p
    is_last :
        is_set event.task_id ≡ true
        → lookup event.task_id f.last_event_by_task ≡ some (text event.id)

  parent_of-returns :
      (o : Option Value) (event : Event)
      → IsText o
      → (parent : String) × (parent_of x json numbers meanwhile o event
          ≡ ok (record event { parent_id = parent }))
        × ((p : String) → o ≡ some (text p) → parent ≡ p)
  unfolding parent_of as_text with_parent
  parent_of-returns none event h = (event.parent_id, refl, λ p e. cc)
  parent_of-returns (some v) event (s, e) =
      let is_s : as_text v ≡ some s = ap as_text e in
      (
        s,
        rw is_s refl,
        λ p same. some-injective s p (sym is_s ∙ ap as_text (some-injective v (text p) same)),
      )

  links :
      (event : Event) (e : Engine S)
      → IsText (lookup event.task_id e.last_event_by_task)
      → (linked : Event) × (f : Engine S) × (link_to_task x json numbers meanwhile event e
          ≡ (ok linked, f))
        × IsLinked event e linked f
  unfolding link_to_task remember_event
  links event e h = by_task (is_set event.task_id) refl
    where
      by_task :
          (b : Bool)
          → is_set event.task_id ≡ b
          → (linked : Event) × (f : Engine S) × (link_to_task x json numbers meanwhile event e
              ≡ (ok linked, f))
            × IsLinked event e linked f
      by_task false unset = (
        event,
        e,
        rw unset refl,
        record {
          parent = event.parent_id;
          same_event = refl;
          same_worker = refl;
          from_last = λ p set. cc;
          is_last = λ set. cc;
        },
      )
      by_task true set =
          let (parent, found, last) =
            parent_of-returns (lookup event.task_id e.last_event_by_task) event h in
          (
            record event { parent_id = parent },
            record e {
              last_event_by_task = insert event.task_id (text event.id) e.last_event_by_task;
            },
            rw (set, found) refl,
            record {
              parent = parent;
              same_event = refl;
              same_worker = refl;
              from_last = λ p set l. last p l;
              is_last = λ set. lookup-insert event.task_id (text event.id) e.last_event_by_task;
            },
          )

  call_event-Describes :
      (task : String) (r : McpRequest) (rule : Option Rule) (tick : ℕ) (pooled : Event)
      → Describes task r rule (call_event x json numbers meanwhile task r rule tick pooled)
  unfolding call_event
  call_event-Describes task r none tick pooled = record {
    kind = refl;
    same_method = refl;
    same_params = refl;
    same_task = refl;
    of_rule = tt;
  }
  call_event-Describes task r (some p) tick pooled = record {
    kind = refl;
    same_method = refl;
    same_params = refl;
    same_task = refl;
    of_rule = (refl, refl);
  }

  pub submit_tool_call_event-IsRecorded :
      (task : String) (r : McpRequest) (rule : Option Rule) (e : Engine S)
      → IsOpen e.worker
      → ((w : Worker S) → IsOpen w → IsOpen (meanwhile max_block_attempts w))
      → IsText (lookup task e.last_event_by_task)
      → (u : Engine S) × (submit_tool_call_event x json numbers meanwhile task r rule e
          ≡ (ok tt, u))
        × IsRecorded x meanwhile task r rule e u
  unfolding submit_tool_call_event new_event take_event
  submit_tool_call_event-IsRecorded task r rule e h keeps kept =
      let pooled = (get_event e.worker.core.pool).0 in
      let tick = e.worker.core.ticks in
      let core = (take_event e.worker.core).1 in
      let made = call_event x json numbers meanwhile task r rule tick pooled in
      let described = call_event-Describes task r rule tick pooled in
      let e1 = record e { worker = record (e.worker) { core = core } } in
      let (linked, f, runs, link) =
        links made e1
          (subst (λ k. IsText (lookup k e.last_event_by_task)) (sym described.same_task) kept) in
      let later =
        keeps e1.worker (record { valid = h.valid; may_send = h.may_send; drops = h.drops }) in
      let (w, sent, outcome) =
        ends_ok (IsSubmitted x.strict linked meanwhile e1.worker)
          (submit meanwhile x.strict linked e1.worker)
          (submit-drop x.strict linked meanwhile e1.worker h.valid h.drops later.valid
            later.may_send) in
      (
        record f { worker = w },
        rw (runs, link.same_worker, sent) refl,
        record {
          event = linked;
          describes =
              subst (Describes task r rule) (sym link.same_event)
                (with_parent-Describes rule made link.parent described);
          outcome = outcome;
          from_last = λ p set l.
              ap (λ k. k.parent_id) link.same_event
              ∙ link.from_last p (rw described.same_task set) (rw described.same_task l);
          is_last = λ set.
              let last = link.is_last (rw described.same_task set) in
              subst (λ k. lookup k f.last_event_by_task ≡ some (text linked.id)) described.same_task
                (last ∙ ap (λ k. some (text k.id)) (sym link.same_event));
        },
      )
