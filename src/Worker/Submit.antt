-- ===== src/Worker/Submit.antt =====
-- internal/ledger/worker.go: what becomes of an event that is submitted.
use logryph.Base.{
  ℕ, ◌+◌, ◌<◌, ◌≤◌, ◌≡◌, ◌⊎◌, inl, inr, refl, sym, subst, Bool, true, false, [], ◌∷◌, ◌++◌, nat_eq,
  Bool-cases, arith, set, ◌%◌,
}
use logryph.Base.Result.{Result, ok}
use logryph.Base.Post.{Post, Ends-weaken}
use logryph.Event.{Event}
use logryph.Ring.{push}
use logryph.Ring.Bounds.{IsValid, push_closed, push-IsValid}
use logryph.Ring.Refine.{contents, contents-write}
use logryph.Pool.{add_uint64}
use logryph.Worker.{
  Worker, backpressure_drop, submit, look, after_look, max_block_attempts, drop_event,
  push_and_notify, unless_full, by_mode, notify, after_push,
}

module _ {S : Type 0} (strict : Bool) (event : Event) (w : Worker S) where
  -- The event is queued behind the others, and the worker is signaled.
  pub record IsQueued (t : Worker S) : Type 0 where
    pub has_space : w.ring_buffer.count < w.ring_buffer.capacity
    pub queued : contents t.ring_buffer ≡ contents w.ring_buffer ++ event ∷ []
    pub valid : IsValid t.ring_buffer
    pub signaled : t.signal ≡ true
    pub none_dropped : t.dropped_events ≡ w.dropped_events
    pub others_same : t ≡ record w { ring_buffer = t.ring_buffer; signal = true }

  -- The event is dropped and counted.
  pub record IsDropped (t : Worker S) : Type 0 where
    pub reason : (w.closing ≡ true) ⊎ (w.ring_buffer.count ≡ w.ring_buffer.capacity)
    pub counted : t ≡ record w { dropped_events = add_uint64 w.dropped_events 1 }

  -- `Push` finds a full buffer, and the event is neither queued nor counted.
  pub record IsLost (t : Worker S) : Type 0 where
    pub full : w.ring_buffer.count ≡ w.ring_buffer.capacity
    pub unchanged : t ≡ w

  -- The worker with the event in its buffer.
  abbrev pub with_event : Worker S
  with_event = record w {
    ring_buffer = record (w.ring_buffer) {
      slots = set w.ring_buffer.slots w.ring_buffer.tail event;
      tail = (w.ring_buffer.tail + 1) % w.ring_buffer.capacity;
      count = w.ring_buffer.count + 1;
    };
    signal = true;
  }

  pub room :
      IsValid w.ring_buffer
      → nat_eq w.ring_buffer.count w.ring_buffer.capacity ≡ false
      → w.ring_buffer.count < w.ring_buffer.capacity
  room v f = let below : w.ring_buffer.count ≤ w.ring_buffer.capacity = v.count_in in ground arith

  pub push_and_notify-with_event :
      IsValid w.ring_buffer
      → w.signal_closed ≡ false
      → nat_eq w.ring_buffer.count w.ring_buffer.capacity ≡ false
      → push_and_notify strict event w ≡ (ok tt, with_event)
  unfolding push_and_notify after_push notify
  push_and_notify-with_event v sc f = rw (push_closed strict event v, f, sc) refl

  pub with_event-IsValid :
      IsValid w.ring_buffer
      → nat_eq w.ring_buffer.count w.ring_buffer.capacity ≡ false
      → IsValid (with_event.ring_buffer)
  with_event-IsValid v f =
      let e : push strict event w.ring_buffer ≡ (ok tt, with_event.ring_buffer) =
        rw (push_closed strict event v, f) refl in
      subst (λ o. IsValid o.1) e (push-IsValid strict event v)

  pub with_event-IsQueued :
      IsValid w.ring_buffer
      → nat_eq w.ring_buffer.count w.ring_buffer.capacity ≡ false
      → IsQueued with_event
  with_event-IsQueued v f = record {
    has_space = room v f;
    queued = contents-write event v (room v f);
    valid = with_event-IsValid v f;
    signaled = refl;
    none_dropped = refl;
    others_same = refl;
  }

  abbrev pub dropped : Worker S
  dropped = record w { dropped_events = add_uint64 w.dropped_events 1 }

  pub lost-full :
      IsValid w.ring_buffer
      → nat_eq w.ring_buffer.count w.ring_buffer.capacity ≡ true
      → push_and_notify strict event w ≡ (ok tt, w)
  unfolding push_and_notify after_push
  lost-full v f = rw (push_closed strict event v, f) refl

  -- What `Push` and the signal make of a valid buffer, before the channel is closed.
  pub push_and_notify-IsQueued :
      IsValid w.ring_buffer
      → w.signal_closed ≡ false
      → Post (λ _ t. IsQueued t ⊎ IsLost t) (λ _. ⊥) (push_and_notify strict event w)
  push_and_notify-IsQueued v sc =
      elim (Bool-cases (nat_eq w.ring_buffer.count w.ring_buffer.capacity)) [
        | inl f ↦
            subst Pushed (sym (lost-full v f))
              (inr (record { full = ground arith; unchanged = refl }))
        | inr f ↦
            subst Pushed (sym (push_and_notify-with_event v sc f)) (inl (with_event-IsQueued v f))
      ]
    where
      Pushed : Result (Unit {0}) × Worker S → Type 0
      Pushed = Post (λ _ t. IsQueued t ⊎ IsLost t) (λ _. ⊥)

  pub look-closing :
      (meanwhile : ℕ → Worker S → Worker S) → w.closing ≡ true → look meanwhile w ≡ (false, dropped)
  unfolding look drop_event
  look-closing meanwhile c = rw c refl

  pub look-full :
      (meanwhile : ℕ → Worker S → Worker S)
      → w.closing ≡ false
      → w.backpressure_mode ≡ backpressure_drop
      → nat_eq w.ring_buffer.count w.ring_buffer.capacity ≡ true
      → look meanwhile w ≡ (false, dropped)
  unfolding look by_mode unless_full drop_event
  look-full meanwhile c m f = rw (c, m, f) refl

  pub look-space :
      (meanwhile : ℕ → Worker S → Worker S)
      → w.closing ≡ false
      → w.backpressure_mode ≡ backpressure_drop
      → nat_eq w.ring_buffer.count w.ring_buffer.capacity ≡ false
      → look meanwhile w ≡ (true, w)
  unfolding look by_mode unless_full
  look-space meanwhile c m f = rw (c, m, f) refl

module _ {S : Type 0} (strict : Bool) (event : Event) (meanwhile : ℕ → Worker S → Worker S)
    (w : Worker S) where
  -- The event is dropped and counted, or there is space, and then it is queued behind the events
  -- that are there when `Push` is called, or lost.
  abbrev pub IsSubmitted : Worker S → Type 0
  IsSubmitted t =
      IsDropped strict event w t
      ⊎ ((w.closing ≡ false)
          × (w.ring_buffer.count < w.ring_buffer.capacity)
          × (IsQueued strict event (meanwhile max_block_attempts w) t
              ⊎ IsLost strict event (meanwhile max_block_attempts w) t))

  abbrev Outcome : Result (Unit {0}) × Worker S → Type 0
  Outcome = Post (λ _ t. IsSubmitted t) (λ _. ⊥)

  -- In the drop mode, on a valid buffer, where what others do before `Push` leaves a valid
  -- buffer and an open channel, `Submit` returns without a panic or an error, and either the
  -- worker is closing or its buffer full, and only the count of dropped events changes; or the
  -- worker is open and has space, and then `Push` comes to the worker that the others left: the
  -- event is queued behind its events and the worker is signaled, or the buffer is full there,
  -- and nothing changes.
  pub submit-drop :
      IsValid w.ring_buffer
      → w.backpressure_mode ≡ backpressure_drop
      → IsValid ((meanwhile max_block_attempts w).ring_buffer)
      → (meanwhile max_block_attempts w).signal_closed ≡ false
      → Post (λ _ t. IsSubmitted t) (λ _. ⊥) (submit meanwhile strict event w)
  unfolding submit after_look
  submit-drop v mode u sc = elim (Bool-cases w.closing) [
    | inl c ↦
        subst (λ o. Outcome (after_look meanwhile strict event o))
          (sym (look-closing strict event w meanwhile c))
          (inl (record { reason = inl c; counted = refl }))
    | inr c ↦ elim (Bool-cases (nat_eq w.ring_buffer.count w.ring_buffer.capacity)) [
      | inl f ↦
          subst (λ o. Outcome (after_look meanwhile strict event o))
            (sym (look-full strict event w meanwhile c mode f))
            (inl (record { reason = inr (ground arith); counted = refl }))
      | inr f ↦
          subst (λ o. Outcome (after_look meanwhile strict event o))
            (sym (look-space strict event w meanwhile c mode f))
            (Ends-weaken _ _ (λ _. ⊥) (λ _. ⊥) (push_and_notify strict event later).0
              (push_and_notify strict event later).1 (λ _ t k. inr (c, room strict event w v f, k))
              (λ t k. k) (push_and_notify-IsQueued strict event later u sc))
    ]
  ]
    where
      later : Worker S
      later = meanwhile max_block_attempts w
