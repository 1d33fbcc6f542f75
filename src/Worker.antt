-- ===== src/Worker.antt =====
-- internal/ledger/worker.go: the asynchronous worker behind the ring buffer. Each call of the
-- buffer is one step, and what other goroutines do in the sleeps of a call of `Submit` and before its
-- `Push` is an argument.
pub mod Submit
pub mod Drain
pub mod Metrics
pub mod Latency
pub mod Account
pub mod New
pub mod System
pub mod Reached
pub mod Blocking
pub mod Anchors
pub mod Silent
pub mod Stop
pub mod Started
use logryph.Base.{
  ℕ, zero, suc, ◌+◌, ◌*◌, ◌%◌, ◌^◌, Bool, true, false, not, ◌&&◌, ◌||◌, Option, none, some, List,
  [], ◌∷◌, String, if◌then◌else◌, ltb, leb, nat_eq, length, set, get_elem?,
}
use logryph.Base.Result
use logryph.Base.Result.{Error, message, wrapped, Result, ok, err, panic}
use logryph.Base.Exec.{Exec, pure, fail, lift, gets, with_context_in, ◌>>=◌, ◌>>◌}
use logryph.Assert.{check}
use logryph.Event.{Event}
use logryph.Externals.{Externals}
use logryph.Ring
use logryph.Ring.{Buffer, is_full, is_empty, len, cap}
use logryph.Pool.{or_return, put_event, add_uint64}
use logryph.Repository.{EventRepository}
use logryph.Processor.{EventProcessor, in_db, in_pool, process_event}
use logryph.Genesis.{Anchor, create_genesis_block}

pub data BackpressureMode : Type 0 where
  backpressure_drop : BackpressureMode
  backpressure_block : BackpressureMode

-- `core` is the processor, with the storage and the signer that it shares with the worker; it is
-- nil in Go until `Start`, which sets `started`. `signal` is whether signalChan holds a signal.
pub record Worker (S : Type 0) : Type 0 where
  pub ring_buffer : Buffer Event
  pub core : EventProcessor S
  pub started : Bool
  pub signal : Bool
  pub signal_closed : Bool
  pub backpressure_mode : BackpressureMode
  pub is_unhealthy : Bool
  pub processed_events : ℕ
  pub dropped_events : ℕ
  pub blocked_submits : ℕ
  pub latency_sum_ns : ℕ
  pub latency_count : ℕ
  pub latency_buckets : List ℕ
  pub closing : Bool

-- How the wait for space ends: there may be space, or the worker is closing.
pub data Wait : Type 0 where
  proceed : Wait
  closed : Wait

abbrev pub max_drain_events : ℕ
max_drain_events = 1048576

abbrev pub max_block_attempts : ℕ
max_block_attempts = 1000

abbrev pub latency_bucket_upper_ns : List ℕ
latency_bucket_upper_ns =
    1000000 ∷ 5000000 ∷ 10000000 ∷ 25000000 ∷ 50000000 ∷ 100000000 ∷ 18446744073709551615 ∷ []

-- The buckets, with one more in the first whose bound is not exceeded.
unfoldable pub count_bucket : ℕ → List ℕ → List ℕ → List ℕ
count_bucket ns (b ∷ bounds) (n ∷ counts) =
    let rest = count_bucket ns bounds counts in
    if leb ns b then add_uint64 n 1 ∷ counts else n ∷ rest
count_bucket ns _ counts = counts

module _ {S : Type 0} where
  abbrev pub in_ring {ℓ} : {A : Type ℓ} → Exec (Buffer Event) A → Exec (Worker S) A
  in_ring m w = let (r, b) = m w.ring_buffer in (r, record w { ring_buffer = b })

  abbrev pub in_core {ℓ} : {A : Type ℓ} → Exec (EventProcessor S) A → Exec (Worker S) A
  in_core m w = let (r, c) = m w.core in (r, record w { core = c })

  -- The event is dropped and counted, and the call ends.
  unfoldable pub drop_event : Worker S → Bool × Worker S
  drop_event w = (false, record w { dropped_events = add_uint64 w.dropped_events 1 })

  -- `select { case w.signalChan <- struct{}{}: default: }`, which panics on a closed channel
  unfoldable pub notify : Exec (Worker S) (Unit {0})
  notify w =
      if w.signal_closed
      then (panic (message "send on closed channel"), w)
      else (ok tt, record w { signal = true })

  -- An error of `Push` is logged, and ends the call.
  unfoldable pub after_push : Result (Unit {0}) → Exec (Worker S) (Unit {0})
  unfolding notify
  after_push (ok u) = notify
  after_push (err e) = pure tt
  after_push (panic e) = lift (panic e)

  unfoldable pub push_and_notify : Bool → Event → Exec (Worker S) (Unit {0})
  unfolding after_push
  push_and_notify strict event w =
      let (r, w') = in_ring (Ring.push strict event) w in after_push r w'

  count_blocked : Worker S → Worker S
  count_blocked w = record w { blocked_submits = add_uint64 w.blocked_submits 1 }

  -- The loop of the blocking mode; `meanwhile i` is what the others do in its i-th sleep.
  wait_for_space : (ℕ → Worker S → Worker S) → ℕ → ℕ → Worker S → Wait × Worker S
  unfolding count_blocked
  wait_for_space meanwhile zero i w = (proceed, w)
  wait_for_space meanwhile (suc n) i w =
      let rest = wait_for_space meanwhile n (suc i) (meanwhile i (count_blocked w)) in
      if not (is_full w.ring_buffer)
      then (proceed, w)
      else (if w.closing then (closed, w) else rest)

  unfoldable pub unless_full : Worker S → Bool × Worker S
  unfolding drop_event
  unless_full w = if is_full w.ring_buffer then drop_event w else (true, w)

  after_wait : Wait × Worker S → Bool × Worker S
  unfolding unless_full drop_event
  after_wait (proceed, w) = unless_full w
  after_wait (closed, w) = drop_event w

  unfoldable pub by_mode : (ℕ → Worker S → Worker S) → BackpressureMode → Worker S → Bool × Worker S
  unfolding unless_full after_wait wait_for_space
  by_mode meanwhile backpressure_drop w = unless_full w
  by_mode meanwhile backpressure_block w = after_wait (wait_for_space meanwhile 1000 0 w)

  -- `Submit` up to `Push`: whether it goes on to that call.
  unfoldable pub look : (ℕ → Worker S → Worker S) → Worker S → Bool × Worker S
  unfolding by_mode drop_event
  look meanwhile w = if w.closing then drop_event w else by_mode meanwhile w.backpressure_mode w

  unfoldable pub after_look :
      (ℕ → Worker S → Worker S) → Bool → Event → Bool × Worker S → Result (Unit {0}) × Worker S
  unfolding push_and_notify
  after_look meanwhile strict event (true, w) =
      push_and_notify strict event (meanwhile max_block_attempts w)
  after_look meanwhile strict event (false, w) = (ok tt, w)

  -- `Submit` of an event that is there. The lock of the buffer is free between the last look at it
  -- and `Push`; `meanwhile 1000` is what the others do there.
  unfoldable pub submit : (ℕ → Worker S → Worker S) → Bool → Event → Exec (Worker S) (Unit {0})
  unfolding look after_look
  submit meanwhile strict event w = after_look meanwhile strict event (look meanwhile w)

  -- A monotonic difference of times is not negative, so it is a natural number of nanoseconds.
  unfoldable pub record_latency : ℕ → Worker S → Worker S
  unfolding count_bucket
  record_latency ns w = record w {
    latency_buckets = count_bucket ns latency_bucket_upper_ns w.latency_buckets;
    latency_sum_ns = add_uint64 w.latency_sum_ns ns;
    latency_count = add_uint64 w.latency_count 1;
  }

module _ (x : Externals) {S : Type 0} (repo : EventRepository S) (took : ℕ → ℕ) where
  open x use {strict}

  -- An error of `ProcessEvent` is logged, and makes the worker unhealthy.
  unfoldable pub after_process : Result (Unit {0}) → Exec (Worker S) (Unit {0})
  after_process (ok u) w = (ok tt, w)
  after_process (err e) w = (ok tt, record w { is_unhealthy = true })
  after_process (panic e) w = (panic e, w)

  -- `took n` is how long the n-th event takes.
  unfoldable pub finish_event : Event → Exec (Worker S) (Unit {0})
  unfolding record_latency
  finish_event event w =
      let w' = record_latency (took w.processed_events) w in
      in_core (in_pool (put_event strict (some event)))
        (record w' { processed_events = add_uint64 w'.processed_events 1 })

  -- The body of the loop, behind `Pop`
  unfoldable pub handle_event : Event → Exec (Worker S) (Unit {0})
  unfolding after_process finish_event
  handle_event event w =
      let (r, w') = in_core (process_event x repo event) w in
      (after_process r >> finish_event event) w'

  unfoldable pub after_pop : Result Event → Exec (Worker S) (Unit {0}) → Exec (Worker S) (Unit {0})
  unfolding handle_event
  after_pop (ok event) rest = handle_event event >> rest
  after_pop (err e) rest = pure tt
  after_pop (panic e) rest = lift (panic e)

  -- The loop that `processEvents` and `drainBuffer` share; an error of `Pop` ends it.
  unfoldable pub drain : ℕ → Exec (Worker S) (Unit {0})
  unfolding after_pop
  drain zero w = (ok tt, w)
  drain (suc n) w =
      let (r, w') = in_ring (Ring.pop strict) w in
      let rest = drain n in if is_empty w.ring_buffer then (ok tt, w) else after_pop r rest w'

  unfoldable pub unhealthy_error : Result (Unit {0}) → Exec (Worker S) (Unit {0})
  unhealthy_error (ok u) w = (ok tt, w)
  unhealthy_error (err e) w = (err e, record w { is_unhealthy = true })
  unhealthy_error (panic e) w = (panic e, w)

  unfoldable pub drain_started : Bool → Exec (Worker S) (Unit {0})
  drain_started true = drain max_drain_events
  drain_started false = lift (panic (message "nil pointer dereference"))

  -- `drainBuffer` of a worker that was started: without a processor it fails on a nil pointer,
  -- because `assert.NotNil` of the typed nil pointer passes.
  unfoldable pub drain_buffer : Exec (Worker S) (Unit {0})
  unfolding unhealthy_error drain_started
  drain_buffer w =
      (do
        unhealthy_error
            (check strict (leb (cap w.ring_buffer) max_drain_events) "ring buffer cap exceeds max")
        drain_started (w.started || is_empty w.ring_buffer))
        w

  -- A check of the capacity that fails ends the goroutine.
  unfoldable pub after_check : Result (Unit {0}) × Worker S → Result Bool × Worker S
  after_check (ok u, w) = (drain max_drain_events >> pure true) w
  after_check (err e, w) = (ok false, w)
  after_check (panic e, w) = (panic e, w)

  -- One round of `processEvents`, for a signal that was received: false ends the goroutine.
  unfoldable pub process_signal : Exec (Worker S) Bool
  unfolding unhealthy_error after_check
  process_signal w = after_check (
      unhealthy_error
        (check strict (leb (cap w.ring_buffer) max_drain_events) "ring buffer cap exceeds max")
        (record w { signal = false }))

  -- The processor of a run: a new one, on the same storage.
  use_run : String → Exec (Worker S) (Unit {0})
  use_run run_id w = (
    ok tt,
    record w {
      core = record (w.core) { run_id = run_id; task_states = [] };
      started = true;
      closing = false;
    },
  )

  -- `Start`, up to the goroutines that it starts
  unfoldable pub start : Option Anchor → Exec (Worker S) (Unit {0})
  unfolding use_run
  start anchor = do
    has_runs ← with_context_in "checking for existing runs" (in_core (in_db repo.has_runs))
    run_id ←
        (if has_runs
          then with_context_in "loading run ID" (in_core (in_db repo.get_run_id))
          else with_context_in "creating genesis block"
              (in_core (create_genesis_block x repo anchor "Logryph-Agent")))
    use_run run_id

  unfoldable pub close_channels : Exec (Worker S) (Unit {0})
  close_channels w = (ok tt, record w { closing = true; signal_closed = true })

  -- `Shutdown`, when the goroutines have stopped or the wait for them is over
  unfoldable pub shutdown : ℕ → Exec (Worker S) (Unit {0})
  unfolding close_channels
  shutdown timeout = do
    lift (check strict (ltb 0 timeout) "timeout must be positive")
    close_channels
    drain_buffer
    in_core (in_db repo.close)
