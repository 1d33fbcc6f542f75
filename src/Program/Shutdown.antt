-- ===== src/Program/Shutdown.antt =====
-- main.go: the shutdown of a program that serves.
use native.Mathlib.Nat.{le_trans}
use logryph.Base.{List, String, ℕ, ◌<◌, ◌≤◌, ◌^◌, ◌≡◌, refl, true, le→leb, lt→ltb}
use logryph.Base.Result.{Result, ok, err, panic}
use logryph.Base.Exec.{continue, ◌>>◌}
use logryph.Base.Post.{Ends}
use logryph.Externals.{Externals}
use logryph.Repository.{EventRepository}
use logryph.Ring.{cap}
use logryph.Ring.Bounds.{IsValid}
use logryph.Processor.{EventProcessor, in_db}
use logryph.Worker
use logryph.Worker.{
  Worker, in_core, drain, drain_buffer, max_drain_events, close_channels, unhealthy_error,
  drain_started,
}
use logryph.Worker.Account.{taken, IsSettled, drain-IsSettled}
use logryph.Worker.Silent.{IsNoError, drain-IsNoError}
use logryph.Observer.Engine.{Watcher, stop}
use logryph.Program.{Program, warn_on, stop_observer, stop_worker, graceful_shutdown}

-- A call that returns no error, with a postcondition for its value; it may panic.
abbrev pub Completes : {S : Type 0} → (S → Type 0) → Result (Unit {0}) × S → Type 0
Completes Q (ok u, s) = Q s
Completes Q (err e, s) = ⊥
Completes Q (panic e, s) = Unit

module _ (x : Externals) {S : Type 0} (repo : EventRepository S) (took : ℕ → ℕ) where
  -- Nothing is accepted or watched any more, and no event that was taken is left in the buffer.
  pub record HasEnded (p q : Program S) : Type 0 where
    pub stopped : q.watcher.engine.stopped ≡ true
    pub same_config : q.watcher.engine.config ≡ p.watcher.engine.config
    pub closing : q.worker.closing ≡ true
    pub channel_closed : q.worker.signal_closed ≡ true
    pub empty : q.worker.ring_buffer.count ≡ 0
    pub none_lost : taken q.worker ≡ taken p.worker

  -- A started worker of which the capacity is allowed
  pub record CanDrain (w : Worker S) : Type 0 where
    pub valid : IsValid w.ring_buffer
    pub running : w.started ≡ true
    pub allowed : w.ring_buffer.capacity ≤ max_drain_events
    pub counted : taken w < 2 ^ 64

  drain_buffer-drain :
      (w : Worker S)
      → CanDrain w
      → drain_buffer x repo took w ≡ drain x repo took max_drain_events w
  unfolding drain_buffer unhealthy_error drain_started
  drain_buffer-drain w h =
      rw (le→leb (cap w.ring_buffer) max_drain_events h.allowed, h.running) refl

  close_worker : Worker S → Worker S
  close_worker w = record w { closing = true; signal_closed = true }

  stop_worker-HasEnded :
      (timeout : ℕ) (p : Program S) (v : Watcher) (ws : List String)
      → 0 < timeout
      → CanDrain p.worker
      → v.engine.stopped ≡ true
      → v.engine.config ≡ p.watcher.engine.config
      → Completes
          (HasEnded p)
          (stop_worker x repo took timeout (record p { watcher = v; warnings = ws }))
  unfolding stop_worker Worker.shutdown close_channels warn_on close_worker
  stop_worker-HasEnded timeout p v ws positive h stopped same =
      let w = close_worker p.worker in
      let below : w.ring_buffer.count ≤ w.ring_buffer.capacity = h.valid.count_in in
      rw (lt→ltb 0 timeout positive, drain_buffer-drain w can)
        (by_drain (drain x repo took max_drain_events w).0 (drain x repo took max_drain_events w).1
          (drain-IsSettled x repo took max_drain_events w h.valid (le_trans below h.allowed)
            h.counted)
          (drain-IsNoError x repo took max_drain_events w))
    where
      can : CanDrain (close_worker p.worker)
      can = record {
        valid = h.valid;
        running = h.running;
        allowed = h.allowed;
        counted = h.counted;
      }

      ended :
          (t : Worker S) (c : EventProcessor S) (us : List String)
          → IsSettled (close_worker p.worker) t
          → HasEnded p (record { watcher = v; worker = record t { core = c }; warnings = us })
      ended t c us k = record {
        stopped = stopped;
        same_config = same;
        closing = k.kept.1;
        channel_closed = k.kept.2;
        empty = k.empty;
        none_lost = k.none_lost;
      }

      by_close :
          (r : Result (Unit {0})) (c : EventProcessor S) (t : Worker S)
          → IsSettled (close_worker p.worker) t
          → Completes (HasEnded p) (
              warn_on x repo took "worker shutdown failed" r
                (record { watcher = v; worker = record t { core = c }; warnings = ws }))
      by_close (ok u) c t k = ended t c ws k
      by_close (err e) c t k = ended t c _ k
      by_close (panic e) c t k = tt

      by_drain :
          (r : Result (Unit {0})) (t : Worker S)
          → Ends (λ _ u. IsSettled (close_worker p.worker) u) (λ _. Unit {0}) r t
          → IsNoError r
          → Completes (HasEnded p) (
              let (r', u) = continue r (λ _. in_core (in_db repo.close)) t in
              warn_on x repo took "worker shutdown failed" r'
                (record { watcher = v; worker = u; warnings = ws }))
      by_drain (ok u) t k n = by_close (in_db repo.close t.core).0 (in_db repo.close t.core).1 t k
      by_drain (err e) t k n = absurd n
      by_drain (panic e) t k n = tt

  -- For a positive timeout and a started worker with a valid buffer of an allowed capacity,
  -- `gracefulShutdown` returns no error, whatever the two servers return, and where it does not
  -- panic the observer is stopped with its configuration kept, the worker is closing, its
  -- channel is closed, its buffer is empty, and the events that were taken are as many as
  -- before, if they are fewer than 2^64.
  pub graceful_shutdown-HasEnded :
      (proxy admin : Result (Unit {0})) (timeout : ℕ) (p : Program S)
      → 0 < timeout
      → CanDrain p.worker
      → Completes (HasEnded p) (graceful_shutdown x repo took proxy admin timeout p)
  unfolding graceful_shutdown stop
  graceful_shutdown-HasEnded proxy admin timeout p positive h =
      rw (lt→ltb 0 timeout positive) (by_servers proxy admin)
    where
      rest :
          (ws : List String)
          → Completes (HasEnded p) (
              let q = record p {
                watcher = record (p.watcher) { engine = (stop p.watcher.engine).1 };
                warnings = ws;
              } in
              stop_worker x repo took timeout q)
      rest ws = stop_worker-HasEnded timeout p _ ws positive h refl refl

      servers : Result (Unit {0}) → Result (Unit {0}) → Result (Unit {0}) × Program S
      servers r r' =
          (do
            warn_on x repo took "Proxy Server shutdown failed" r
            warn_on x repo took "Admin API shutdown failed" r'
            stop_observer x repo took
            stop_worker x repo took timeout)
            p

      by_servers : (r r' : Result (Unit {0})) → Completes (HasEnded p) (servers r r')
      by_servers (ok u) (ok u') = rest _
      by_servers (ok u) (err e) = rest _
      by_servers (err e) (ok u) = rest _
      by_servers (err e) (err e') = rest _
      by_servers (panic e) r = tt
      by_servers (ok u) (panic e) = tt
      by_servers (err e) (panic e') = tt
