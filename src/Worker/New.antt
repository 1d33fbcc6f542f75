-- ===== src/Worker/New.antt =====
-- internal/ledger/worker.go: `NewWorker`, on the files that the signer's key is in. The pool and the
-- source of identifiers and times are global in Go.
use logryph.Base.{
  ℕ, ◌<◌, ◌^◌, ◌≡◌, refl, ap, ◌∙◌, subst, false, Option, String, is_set, ltb, arith, replicate,
}
use logryph.Base.Result.{ok, ok_injective}
use logryph.Base.Exec.{
  Exec, pure, lift, with_context_in, bind_in-eq-ok, with_context_in-eq-ok, ◌>>=◌, ◌>>◌,
}
use logryph.Assert.{check}
use logryph.Event.{Event, empty_event}
use logryph.Externals.{Externals, Bytes}
use logryph.Crypto.{Signer}
use logryph.Crypto.Keys.{Disk, new_signer, KeyLaws}
use logryph.Crypto.Saved.{new_signer-new_signer}
use logryph.Ring.{Buffer, new}
use logryph.Ring.Bounds.{IsValid, new-IsValid, new-capacity}
use logryph.Pool.{EventPool}
use logryph.Processor.{new_event_processor}
use logryph.Worker.{Worker, backpressure_drop}
use logryph.Worker.Account.{taken}

module _ (x : Externals) (generate : ℕ → Option (Bytes × Bytes)) {S : Type 0} where
  open x use {strict}

  abbrev pub fresh : S → EventPool → ℕ → Signer → Buffer Event → Worker S
  fresh db pool ticks signer ring = record {
    ring_buffer = ring;
    core = new_event_processor db signer "" pool ticks;
    started = false;
    signal = false;
    signal_closed = false;
    backpressure_mode = backpressure_drop;
    is_unhealthy = false;
    processed_events = 0;
    dropped_events = 0;
    blocked_submits = 0;
    latency_sum_ns = 0;
    latency_count = 0;
    latency_buckets = replicate 7 0;
    closing = false;
  }

  -- `NewWorker` with a storage that is there. The slots of the new buffer hold nil in Go, and the
  -- empty event here: no slot is read before it is written.
  unfoldable pub new_worker : ℕ → S → String → EventPool → ℕ → Exec Disk (Worker S)
  new_worker buffer_size db key_path pool ticks = do
    lift (check strict (ltb 0 buffer_size) "buffer size must be positive")
    lift (check strict (is_set key_path) "key path must not be empty")
    signer ← with_context_in "initializing signer" (new_signer x generate key_path)
    ring ← lift (new strict empty_event buffer_size)
    pure (fresh db pool ticks signer ring)

  -- A worker that its other operations may start from.
  pub record IsFresh (buffer_size : ℕ) (key_path : String) (w : Worker S) (d : Disk) : Type 0 where
    pub size : w.ring_buffer.capacity ≡ buffer_size
    pub valid : IsValid w.ring_buffer
    pub none_counted : w.latency_buckets ≡ replicate 7 0
    pub no_latency : (w.latency_count ≡ 0) × (w.latency_sum_ns ≡ 0)
    pub none_taken : taken w ≡ 0
    pub drops : w.backpressure_mode ≡ backpressure_drop
    pub open_channel : w.signal_closed ≡ false
    pub keys : w.core.signer.public_key ≡ x.public_of w.core.signer.private_key
    pub same_again : new_signer x generate key_path d ≡ (ok (w.core.signer), d)

  nothing_taken :
      (db : S) (pool : EventPool) (ticks : ℕ) (signer : Signer) (ring : Buffer Event)
      → ring.count ≡ 0
      → taken (fresh db pool ticks signer ring) ≡ 0
  nothing_taken db pool ticks signer ring h = omega arith

  -- A worker that `NewWorker` returns, for a size below 2^63, has a valid buffer of that size,
  -- seven latency buckets that are 0 with their sum and count, no event taken, the drop mode
  -- and an open channel, and a signer whose keys belong together and which the next start loads
  -- again. Generated keys are 64 bytes, with their public key.
  pub new_worker-IsFresh :
      (laws : KeyLaws x generate) (buffer_size : ℕ) (db : S) (key_path : String) (pool : EventPool)
      (ticks : ℕ) (d e : Disk) {w : Worker S}
      → buffer_size < 2 ^ 63
      → new_worker buffer_size db key_path pool ticks d ≡ (ok w, e)
      → IsFresh buffer_size key_path w e
  unfolding new_worker
  new_worker-IsFresh laws size db key_path pool ticks d e {w} small h =
      let (u1, d1, p1, q1) =
        bind_in-eq-ok (lift (check strict (ltb 0 size) "buffer size must be positive")) _ d h in
      let (u2, d2, p2, q2) =
        bind_in-eq-ok (lift (check strict (is_set key_path) "key path must not be empty")) _ d1
          q1 in
      let (signer, d3, p3, q3) =
        bind_in-eq-ok (with_context_in "initializing signer" (new_signer x generate key_path)) _ d2
          q2 in
      let (ring, d4, p4, q4) = bind_in-eq-ok (lift (new strict empty_event size)) _ d3 q3 in
      let (again, keys) =
        new_signer-new_signer x generate laws key_path d2 d3
          (with_context_in-eq-ok _ (new_signer x generate key_path) d2 p3) in
      let (valid, empty) = new-IsValid strict empty_event size small (ap (λ o. o.0) p4) in
      let same_disk : d3 ≡ e = ap (λ o. o.1) p4 ∙ ap (λ o. o.1) q4 in
      subst (λ v. IsFresh size key_path v e) (ok_injective (ap (λ o. o.0) q4))
        (subst (IsFresh size key_path (fresh db pool ticks signer ring)) same_disk (record {
          size = new-capacity strict empty_event size (ap (λ o. o.0) p4);
          valid = valid;
          none_counted = refl;
          no_latency = (refl, refl);
          none_taken = nothing_taken db pool ticks signer ring empty;
          drops = refl;
          open_channel = refl;
          keys = keys;
          same_again = again;
        }))
