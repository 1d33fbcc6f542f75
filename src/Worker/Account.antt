-- ===== src/Worker/Account.antt =====
-- internal/ledger/worker.go: every event that a worker took is processed, dropped or queued.
use logryph.Base.{
  ℕ, zero, suc, ◌+◌, ◌<◌, ◌≤◌, ◌^◌, ◌≡◌, refl, sym, ap, ◌∙◌, subst, Bool, true, false, some,
  if◌then◌else◌, nat_eq, arith,
}
use logryph.Base.Result.{Result, ok, err, panic}
use logryph.Base.Exec.{◌>>◌}
use logryph.Base.Post.{Post, Ends, Post-bind, Ends-weaken}
use logryph.Event.{Event}
use logryph.Externals.{Externals}
use logryph.Repository.{EventRepository}
use logryph.Ring.{Buffer, pop}
use logryph.Ring.Bounds.{IsValid, pop-IsValid, pop_closed, head_item}
use logryph.Processor.{EventProcessor, process_event}
use logryph.Pool.{put_event, add_uint64}
use logryph.Worker.{
  Worker, drain, handle_event, after_process, finish_event, after_pop, record_latency,
}

module _ {S : Type 0} where
  -- The events that were taken: processed, dropped, or still queued.
  abbrev pub taken : Worker S → ℕ
  taken w = w.processed_events + w.dropped_events + w.ring_buffer.count

  -- What handling events leaves alone.
  abbrev pub SameMode : Worker S → Worker S → Type 0
  SameMode w t =
      (t.backpressure_mode ≡ w.backpressure_mode)
      × (t.closing ≡ w.closing)
      × (t.signal_closed ≡ w.signal_closed)

  -- One event more is processed.
  abbrev IsCounted : Worker S → Worker S → Type 0
  IsCounted w t =
      (t.ring_buffer ≡ w.ring_buffer)
      × (t.processed_events ≡ add_uint64 w.processed_events 1)
      × (t.dropped_events ≡ w.dropped_events)
      × SameMode w t

  -- The buffer is valid and empty, and no event is lost.
  pub record IsSettled (w t : Worker S) : Type 0 where
    pub valid : IsValid t.ring_buffer
    pub empty : t.ring_buffer.count ≡ 0
    pub none_lost : taken t ≡ taken w
    pub kept : SameMode w t

Ends-kept :
    {S : Type 0} (Q : S → Type 0) (r : Result (Unit {0})) (s : S)
    → Q s
    → Ends (λ _ t. Q t) (λ _. Unit {0}) r s
Ends-kept Q (ok u) s h = h
Ends-kept Q (err e) s h = tt
Ends-kept Q (panic e) s h = tt

module _ (x : Externals) {S : Type 0} (repo : EventRepository S) (took : ℕ → ℕ) where
  abbrev Counts : Worker S → Result (Unit {0}) × Worker S → Type 0
  Counts w = Post (λ _ t. IsCounted w t) (λ _. Unit {0})

  finish_event-IsCounted : (e : Event) (w : Worker S) → Counts w (finish_event x repo took e w)
  unfolding finish_event record_latency
  finish_event-IsCounted e w =
      Ends-kept (IsCounted w) (put_event x.strict (some e) w.core.pool).0 _
        (refl, refl, refl, (refl, refl, refl))

  handle_event-IsCounted : (e : Event) (w : Worker S) → Counts w (handle_event x repo took e w)
  unfolding handle_event after_process
  handle_event-IsCounted e w =
      process (process_event x repo e w.core).0 (process_event x repo e w.core).1
    where
      process :
          (r : Result (Unit {0})) (c : EventProcessor S)
          → Counts w
              ((after_process x repo took r >> finish_event x repo took e) (record w { core = c }))
      process (ok u) c = finish_event-IsCounted e (record w { core = c })
      process (err f) c = finish_event-IsCounted e (record w { core = c; is_unhealthy = true })
      process (panic f) c = tt

  -- The next event is handled, and the loop settles the rest.
  abbrev Settles : ℕ → Worker S → Type 0
  Settles n t =
      IsValid t.ring_buffer
      → t.ring_buffer.count ≤ n
      → taken t < 2 ^ 64
      → Post (λ _ u. IsSettled t u) (λ _. Unit {0}) (drain x repo took n t)

  handle_next :
      (n : ℕ) (e : Event) (w : Worker S) (b : Buffer Event)
      → IsValid b
      → w.ring_buffer.count ≡ suc b.count
      → b.count ≤ n
      → taken w < 2 ^ 64
      → ((t : Worker S) → Settles n t)
      → Post
          (λ _ u. IsSettled w u)
          (λ _. Unit {0})
          ((handle_event x repo took e >> drain x repo took n) (record w { ring_buffer = b }))
  handle_next n e w b v one le small rest =
      Post-bind (λ _ t. IsCounted (record w { ring_buffer = b }) t) (λ _. Unit {0})
        (λ _ u. IsSettled w u) (handle_event x repo took e) (λ _. drain x repo took n)
        (record w { ring_buffer = b }) (handle_event-IsCounted e (record w { ring_buffer = b }))
        λ _ t (ring, more, dropped, kept) _.
          let same : t.ring_buffer.count ≡ b.count = ap (λ k. k.count) ring in
          let moved : taken t ≡ taken w = omega arith in
          settled t moved kept (rest t (subst IsValid (sym ring) v) (omega arith) (omega arith))
    where
      settled :
          (t : Worker S)
          → taken t ≡ taken w
          → SameMode w t
          → Post (λ _ u. IsSettled t u) (λ _. Unit {0}) (drain x repo took n t)
          → Post (λ _ u. IsSettled w u) (λ _. Unit {0}) (drain x repo took n t)
      settled t m k h =
          Ends-weaken _ _ _ _ (drain x repo took n t).0 _
            (λ _ u s. record {
              valid = s.valid;
              empty = s.empty;
              none_lost = s.none_lost ∙ m;
              kept = (s.kept.0 ∙ k.0, s.kept.1 ∙ k.1, s.kept.2 ∙ k.2);
            })
            (λ u r. r) h

  -- With enough fuel the loop empties the buffer and loses no event.
  pub drain-IsSettled :
      (n : ℕ) (w : Worker S)
      → IsValid w.ring_buffer
      → w.ring_buffer.count ≤ n
      → taken w < 2 ^ 64
      → Post (λ _ t. IsSettled w t) (λ _. Unit {0}) (drain x repo took n w)
  unfolding drain after_pop
  drain-IsSettled zero w v le small = record {
    valid = v;
    empty = omega arith;
    none_lost = refl;
    kept = (refl, refl, refl);
  }
  drain-IsSettled (suc n) w v le small =
      by_count (nat_eq w.ring_buffer.count 0) refl (λ t. drain-IsSettled n t)
    where
      by_count :
          (b : Bool)
          → nat_eq w.ring_buffer.count 0 ≡ b
          → ((t : Worker S) → Settles n t)
          → Post
              (λ _ t. IsSettled w t)
              (λ _. Unit {0})
              (if b
                then (ok tt, w)
                else after_pop x repo took
                    (pop x.strict w.ring_buffer).0
                    (drain x repo took n)
                    (record w { ring_buffer = (pop x.strict w.ring_buffer).1 }))
      by_count true e rest = record {
        valid = v;
        empty = ground arith;
        none_lost = refl;
        kept = (refl, refl, refl);
      }
      by_count false e rest =
          let (item, at_head) = head_item v in
          let some_left : 0 < w.ring_buffer.count = ground arith in
          let popped = pop_closed x.strict item v (omega arith) at_head in
          let b = (pop x.strict w.ring_buffer).1 in
          let one : w.ring_buffer.count ≡ suc b.count = rw popped (omega arith) in
          subst
            (λ r.
              Post (λ _ t. IsSettled w t) (λ _. Unit {0})
                (after_pop x repo took r (drain x repo took n) (record w { ring_buffer = b })))
            (sym (ap (λ o. o.0) popped))
            (handle_next n item w b (pop-IsValid x.strict v) one (omega arith) small rest)
