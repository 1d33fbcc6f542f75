-- ===== src/Processor.antt =====
-- internal/ledger/processor.go: sequencing, hashing, signing and storing one event, and the
-- tracking of task states. A method acts on the processor, together with what is global in Go:
-- the event pool and the source of identifiers and times.
pub mod Place
pub mod Persist
pub mod Run
pub mod Pooled
pub mod Accepted
pub mod Success
use logryph.Base.{
  ℕ, suc, zero, ◌+◌, ◌%◌, ◌^◌, ◌≡◌, Bool, true, false, not, ◌&&◌, ◌||◌, Option, none, some, List,
  [], ◌∷◌, String, ◌==◌, is_set, if◌then◌else◌, nat_eq,
}
use logryph.Base.Assoc.{lookup, insert, delete}
use logryph.Base.Result
use logryph.Base.Result.{Error, message, wrapped, Result, ok, err, panic}
use logryph.Base.Exec.{Exec, pure, fail, lift, gets, with_context_in, ◌>>=◌, ◌>>◌}
use logryph.Assert.{check}
use logryph.Json.{Value, text, uint64, object, Fields, end, field, put}
use logryph.Event.{Event, Map, map_value}
use logryph.Externals.{Externals}
use logryph.Crypto.{Signer, genesis_prev_hash, calculate_event_hash, sign_hash}
use logryph.Pool.{EventPool, get_event, put_event, or_return, add_uint64}
use logryph.Repository.{RunStats, EventRepository}

pub record EventProcessor (S : Type 0) : Type 0 where
  pub db : S
  pub signer : Signer
  pub run_id : String
  pub task_states : List (String × String)
  pub pool : EventPool
  -- how often `uuid.New` and `time.Now` have been called
  pub ticks : ℕ

module _ {S : Type 0} where
  -- `NewEventProcessor`
  abbrev pub new_event_processor : S → Signer → String → EventPool → ℕ → EventProcessor S
  new_event_processor db signer run_id pool ticks = record {
    db = db;
    signer = signer;
    run_id = run_id;
    task_states = [];
    pool = pool;
    ticks = ticks;
  }

  -- A call on the storage, and one on the pool.
  abbrev pub in_db {ℓ} : {A : Type ℓ} → Exec S A → Exec (EventProcessor S) A
  in_db m p = let (r, db) = m p.db in (r, record p { db = db })

  abbrev pub in_pool {ℓ} : {A : Type ℓ} → Exec EventPool A → Exec (EventProcessor S) A
  in_pool m p = let (r, pool) = m p.pool in (r, record p { pool = pool })

  -- An event from the pool, with a new identifier and time.
  unfoldable pub take_event : Exec (EventProcessor S) Event
  take_event p =
      let (e, pool) = get_event p.pool in (ok e, record p { pool = pool; ticks = p.ticks + 1 })

unfoldable pub is_terminal_state : String → Bool
is_terminal_state state = (state == "completed") || (state == "failed") || (state == "cancelled")

-- `s[:8]` of the text of a UUID, which has 36 characters
unfoldable pub text_take : ℕ → String → String
text_take zero s = ""
text_take (suc n) String.[] = ""
text_take (suc n) (String.◌∷◌ c s) = String.◌∷◌ c (text_take n s)

-- `if event.Params == nil { event.Params = make(…) }`
unfoldable pub made : Map → Fields
made none = end
made (some m) = m

module _ (x : Externals) where
  open x use {format_time}

  -- The map that is hashed: neither the hashes, the signature nor WasBlocked are in it.
  unfoldable pub payload : Event → Value
  payload e = object (
      field "id" (text e.id) (
        field "run_id" (text e.run_id) (
          field "seq_index" (uint64 e.seq_index) (
            field "timestamp" (text (format_time e.timestamp)) (
              field "actor" (text e.actor) (
                field "event_type" (text e.event_type) (
                  field "method" (text e.method) (
                    field "params" (map_value e.params) (
                      field "response" (map_value e.response) (
                        field "task_id" (text e.task_id) (
                          field "task_state" (text e.task_state) (
                            field "parent_id" (text e.parent_id) (
                              field "policy_id" (text e.policy_id)
                                (field "risk_level" (text e.risk_level) end))))))))))))))

module _ (x : Externals) {S : Type 0} (repo : EventRepository S) where
  open x use {strict, new_uuid, now}

  -- The previous hash of an event, from its index and the last event of its run.
  unfoldable pub prev_hash_for : ℕ → ℕ → String → Result String
  prev_hash_for seq_index last_index last_hash =
      if nat_eq seq_index 0
      then Result.◌>>◌ (check strict (not (is_set last_hash)) "expected empty last hash for seq 0")
          (ok genesis_prev_hash)
      else Result.◌>>◌ (check strict (is_set last_hash) "prev_hash must be non-empty") (
          Result.◌>>◌
            (check strict (nat_eq seq_index (add_uint64 last_index 1)) "sequence gap detected")
            (ok last_hash))

  -- The statistics of the run; an error of the query goes through `assert.Check(err == nil, _)`.
  run_stats_or_assertion : Result RunStats → Result RunStats
  run_stats_or_assertion (ok stats) = ok stats
  run_stats_or_assertion (err e) =
      Result.◌>>◌
        (Result.with_context "getting run stats" (check strict false "failed to get run stats"))
        (err e)
  run_stats_or_assertion (panic e) = panic e

  get_stats : String → Exec S RunStats
  unfolding run_stats_or_assertion
  get_stats run_id s = let (r, s') = repo.get_run_stats run_id s in (run_stats_or_assertion r, s')

  pub assign_in_run : Event → String → Exec (EventProcessor S) Event
  unfolding get_stats prev_hash_for
  assign_in_run event run_id = do
    stats ← in_db (get_stats run_id)
    last ← in_db (with_context_in "getting last event" (repo.get_last_event run_id))
    prev ← lift (prev_hash_for stats.total_events last.0 last.1)
    pure (record event { seq_index = stats.total_events; run_id = run_id; prev_hash = prev })

  -- The event is given back with the fields that it gained. On a failure the caller only resets it.
  unfoldable pub assign_sequence_and_prev_hash : Event → Exec (EventProcessor S) Event
  unfolding assign_in_run
  assign_sequence_and_prev_hash event = do run_id ← gets (λ p. p.run_id); assign_in_run event run_id

  -- The event with its hash and its signature.
  pub signed_by : Event → Signer → Result Event
  unfolding payload
  signed_by event signer =
      Result.◌>>◌ (check strict (is_set event.prev_hash) "prev_hash must be set") (
        Result.◌>>=◌
          (Result.with_context "calculating hash"
            (calculate_event_hash x event.prev_hash (payload x event)))
          λ current_hash.
            Result.◌>>=◌ (Result.with_context "signing hash" (sign_hash x signer current_hash))
              λ signature. ok (record event { current_hash = current_hash; signature = signature }))

  unfoldable pub hash_and_sign_event : Event → Exec (EventProcessor S) Event
  unfolding signed_by
  hash_and_sign_event event = do signer ← gets (λ p. p.signer); lift (signed_by event signer)

  -- `persistEvent` of an event that is there; the stored event is given back.
  unfoldable pub persist_event : Event → Exec (EventProcessor S) Event
  persist_event event = do
    placed ← assign_sequence_and_prev_hash event
    signed ← hash_and_sign_event placed
    in_db (repo.store_event signed)
    pure signed

  -- The terminal event of a task, over an event from the pool.
  unfoldable pub completion_event : String → String → ℕ → Event → Event
  unfolding text_take made
  completion_event task_id state tick event = record event {
    id = text_take 8 (new_uuid tick);
    timestamp = now tick;
    event_type = "task_terminal";
    method = "logryph:task_state";
    params = some (put "state" (text state) (put "task_id" (text task_id) (made event.params)));
    task_id = task_id;
    task_state = state;
  }

  -- An error of `persistEvent` goes to an assertion that always fails; where that returns, the
  -- error is dropped. The event goes back to the pool.
  unfoldable pub after_assertion : Event → Result (Unit {0}) → Exec (EventProcessor S) (Unit {0})
  after_assertion event (panic e) = lift (panic e)
  after_assertion event _ = in_pool (put_event strict (some event))

  unfoldable pub give_back : Event → Result Event → Exec (EventProcessor S) (Unit {0})
  unfolding after_assertion
  give_back event (ok e) = in_pool (put_event strict (some event))
  give_back event (panic e) = lift (panic e)
  give_back event (err e) =
      after_assertion event (check strict false "persist task completion event failed")

  unfoldable pub create_task_completion_event : String → String → Exec (EventProcessor S) (Unit {0})
  unfolding completion_event take_event give_back
  create_task_completion_event task_id state =
      or_return (check strict (is_set task_id) "taskID must not be empty") (
        or_return (check strict (is_set state) "state must not be empty") (do
          tick ← gets (λ p. p.ticks)
          pooled ← take_event
          let event = completion_event task_id state tick pooled
          λ p. let (r, p') = persist_event event p in give_back event r p'))

  unfoldable pub set_task_states : List (String × String) → Exec (EventProcessor S) (Unit {0})
  set_task_states states p = (ok tt, record p { task_states = states })

  -- A task that was seen in another state and now ends gets its terminal event, and is forgotten.
  unfoldable pub end_task : Event → Option String → Exec (EventProcessor S) (Unit {0})
  end_task event none = pure tt
  end_task event (some old_state) =
      if not (old_state == event.task_state) && is_terminal_state event.task_state
      then (do
        create_task_completion_event event.task_id event.task_state
        states ← gets (λ p. p.task_states)
        set_task_states (delete event.task_id states))
      else pure tt

  unfoldable pub remember_task : Event → Exec (EventProcessor S) (Unit {0})
  unfolding set_task_states
  remember_task event = if is_terminal_state event.task_state then pure tt else do
    states ← gets (λ p. p.task_states)
    set_task_states (insert event.task_id event.task_state states)

  unfoldable pub track_task_state : Event → Exec (EventProcessor S) (Unit {0})
  unfolding end_task remember_task set_task_states
  track_task_state event =
      or_return (check strict (is_set event.task_id) "taskID must not be empty") (do
        states ← gets (λ p. p.task_states)
        end_task event (lookup event.task_id states)
        remember_task event)

  abbrev pub is_tracked : Event → Bool
  is_tracked event =
      ((event.event_type == "tool_call") || (event.event_type == "tool_response"))
      && is_set event.task_id

  -- `ProcessEvent` of an event that is there, on a storage that is there.
  unfoldable pub process_event : Event → Exec (EventProcessor S) (Unit {0})
  process_event event = do
    persist_event event
    if is_tracked event then track_task_state event else pure tt
