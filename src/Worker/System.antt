-- ===== src/Worker/System.antt =====
-- internal/ledger/worker.go: the worker as its goroutines see it: a step is the look of a call of
-- `Submit` at the buffer, a `Push` that follows such a look, the taking of an event from the pool, a
-- round of `processEvents`, or one of the two parts of `Shutdown`, in any order. A tick of
-- `anchorLoop` that fetched an anchor takes an event, looks and pushes.
use logryph.Base.{
  ℕ, ◌+◌, ◌<◌, ◌≤◌, ◌^◌, ◌≡◌, refl, sym, ap, ◌∙◌, subst, Bool, true, false, List, [], ◌∷◌, ◌++◌,
  String, length, length-append, arith,
}
use logryph.Base.Result.{ok}
use logryph.Base.Post.{Post, Ends-both, Ends-weaken}
use logryph.Event.{Event}
use logryph.Externals.{Externals, CryptoLaws}
use logryph.Crypto.{Signer}
use logryph.Repository.{EventRepository}
use logryph.Repository.Laws.{IsStorable, IsLedger}
use logryph.Ring.{Buffer, is_full}
use logryph.Ring.Bounds.{IsValid}
use logryph.Ring.Refine.{contents, length-contents}
use logryph.Pool.Clean.{IsClean}
use logryph.Processor.{completion_event, take_event}
use logryph.Processor.Run.{Extends}
use logryph.Worker.{
  Worker, backpressure_drop, in_core, look, push_and_notify, drain, max_drain_events,
  process_signal, drain_buffer,
}
use logryph.Worker.Account.{taken, IsSettled, drain-IsSettled}
use logryph.Worker.Drain.{AllStorable, Emptied, Grown, drain-Emptied}
use logryph.Worker.Submit.{IsQueued, dropped}

-- The worker, and the events whose `Submit` found space and has not called `Push` yet.
pub record Flow (S : Type 0) : Type 0 where
  pub worker : Worker S
  pub pending : List Event

module _ (x : Externals) {S : Type 0} (repo : EventRepository S) (took : ℕ → ℕ)
    (meanwhile : ℕ → Worker S → Worker S) where
  -- A step that returns, with the number of events that it submits and the number that it loses.
  pub data Step (f : Flow S) : ℕ → ℕ → Flow S → Type 0 where
    goes_on :
        (e : Event) {t : Worker S}
        → IsStorable x e
        → look meanwhile f.worker ≡ (true, t)
        → Step f 1 0 (record { worker = t; pending = e ∷ f.pending })
    drops :
        (e : Event) {t : Worker S}
        → look meanwhile f.worker ≡ (false, t)
        → Step f 1 0 (record f { worker = t })
    queues :
        (before : List Event) (e : Event) (after : List Event) {t : Worker S}
        → f.pending ≡ before ++ e ∷ after
        → is_full (f.worker.ring_buffer) ≡ false
        → push_and_notify x.strict e f.worker ≡ (ok tt, t)
        → Step f 0 0 (record { worker = t; pending = before ++ after })
    loses :
        (before : List Event) (e : Event) (after : List Event) {t : Worker S}
        → f.pending ≡ before ++ e ∷ after
        → is_full (f.worker.ring_buffer) ≡ true
        → push_and_notify x.strict e f.worker ≡ (ok tt, t)
        → Step f 0 1 (record { worker = t; pending = before ++ after })
    takes :
        {e : Event} {t : Worker S}
        → in_core take_event f.worker ≡ (ok e, t)
        → Step f 0 0 (record f { worker = t })
    rounds :
        {b : Bool} {t : Worker S}
        → process_signal x repo took f.worker ≡ (ok b, t)
        → Step f 0 0 (record f { worker = t })
    closes :
        Step f 0 0
          (record f { worker = record (f.worker) { closing = true; signal_closed = true } })
    drains :
        {t : Worker S}
        → drain_buffer x repo took f.worker ≡ (ok tt, t)
        → Step f 0 0 (record f { worker = t })

  -- Where some steps lead to, with the number of events that these submit, and that they lose.
  pub data Reach (f : Flow S) : ℕ → ℕ → Flow S → Type 0 where
    here : Reach f 0 0 f
    there : {n m k l : ℕ} {g h : Flow S} → Reach f n m g → Step g k l h → Reach f (n + k) (m + l) h

AllStorable-append :
    (x : Externals) (es fs : List Event)
    → AllStorable x es
    → AllStorable x fs
    → AllStorable x (es ++ fs)
AllStorable-append x [] fs h k = k
AllStorable-append x (e ∷ es) fs h k = (h.0, AllStorable-append x es fs h.1 k)

pub no_contents : {b : Buffer Event} → IsValid b → b.count ≡ 0 → contents b ≡ []
no_contents {b} v e = by_contents (contents b) (length-contents b v ∙ e)
  where
    by_contents : (es : List Event) → length es ≡ 0 → es ≡ []
    by_contents [] h = refl
    by_contents (f ∷ es) h = absurd (omega arith)

module _ (x : Externals) {S : Type 0} (repo : EventRepository S) (view : S → String → List Event)
    (signer : Signer) (run : String) {limit : ℕ} (laws : IsLedger x view limit repo)
    (crypto : CryptoLaws x) (keys : signer.public_key ≡ x.public_of signer.private_key)
    (es : List Event)
    (terminal : (task state : String) (tick : ℕ) (e : Event)
      → IsClean e
      → IsStorable x (completion_event x repo task state tick e))
    (took : ℕ → ℕ) (meanwhile : ℕ → Worker S → Worker S) where
  -- The invariant of the worker: its buffer is valid, its events can be read back, the ledger
  -- holds a sound run that begins with `es`, and the channel is closed only when it is closing.
  pub record IsSafe (w : Worker S) : Type 0 where
    pub valid : IsValid w.ring_buffer
    pub storable : AllStorable x (contents w.ring_buffer)
    pub grown : Extends x repo view signer run es w.core
    pub drops : w.backpressure_mode ≡ backpressure_drop
    pub closed_last : w.signal_closed ≡ true → w.closing ≡ true

  abbrev pub Keeps : ℕ → Worker S → Worker S → Type 0
  Keeps k w t = IsSafe t × (taken t ≡ taken w + k)

  pub queued-Keeps :
      (e : Event) (w t : Worker S)
      → IsStorable x e
      → IsSafe w
      → IsQueued x.strict e w t
      → Keeps 1 w t
  queued-Keeps e w t st h q =
      let core : t.core ≡ w.core = ap (λ k. k.core) q.others_same in
      let mode : t.backpressure_mode ≡ w.backpressure_mode =
        ap (λ k. k.backpressure_mode) q.others_same in
      let closing : t.closing ≡ w.closing = ap (λ k. k.closing) q.others_same in
      let channel : t.signal_closed ≡ w.signal_closed = ap (λ k. k.signal_closed) q.others_same in
      let processed : t.processed_events ≡ w.processed_events =
        ap (λ k. k.processed_events) q.others_same in
      let unchanged : t.dropped_events ≡ w.dropped_events = q.none_dropped in
      let longer : t.ring_buffer.count ≡ w.ring_buffer.count + 1 =
        sym (length-contents t.ring_buffer q.valid)
        ∙ ap length q.queued
        ∙ length-append (contents w.ring_buffer) (e ∷ [])
        ∙ ap (λ n. n + 1) (length-contents w.ring_buffer h.valid) in
      (
        record {
          valid = q.valid;
          storable =
              subst (AllStorable x) (sym q.queued)
                (AllStorable-append x (contents w.ring_buffer) (e ∷ []) h.storable (st, tt));
          grown = subst (Extends x repo view signer run es) (sym core) h.grown;
          drops = mode ∙ h.drops;
          closed_last = λ c. closing ∙ h.closed_last (sym channel ∙ c);
        },
        omega arith,
      )

  pub dropped-Keeps :
      (e : Event) (w : Worker S)
      → taken w + 1 < 2 ^ 64
      → IsSafe w
      → Keeps 1 w (dropped x.strict e w)
  dropped-Keeps e w small h = (
    record {
      valid = h.valid;
      storable = h.storable;
      grown = h.grown;
      drops = h.drops;
      closed_last = h.closed_last;
    },
    omega arith,
  )

  pub drained-Keeps :
      (w : Worker S)
      → taken w < 2 ^ 64
      → IsSafe w
      → w.ring_buffer.count ≤ max_drain_events
      → Post (λ _ t. Keeps 0 w t) (λ _. Unit {0}) (drain x repo took max_drain_events w)
  drained-Keeps w small h le =
      Ends-weaken _ _ _ _ (drain x repo took max_drain_events w).0 _ (λ _ t k. settled t k.0 k.1)
        (λ t k. tt)
        (Ends-both (λ _ t. Emptied x repo view signer run laws crypto keys es terminal took t)
          (λ _ t. IsSettled w t) (Grown x repo view signer run laws crypto keys es terminal took)
          (λ _. Unit {0}) (drain x repo took max_drain_events w).0
          (drain x repo took max_drain_events w).1
          (drain-Emptied x repo view signer run laws crypto keys es terminal took max_drain_events w
            h.valid h.storable le h.grown)
          (drain-IsSettled x repo took max_drain_events w h.valid le small))
    where
      settled :
          (t : Worker S)
          → Emptied x repo view signer run laws crypto keys es terminal took t
          → IsSettled w t
          → Keeps 0 w t
      settled t g k = (
        record {
          valid = k.valid;
          storable = subst (AllStorable x) (sym (no_contents k.valid k.empty)) tt;
          grown = g.1;
          drops = k.kept.0 ∙ h.drops;
          closed_last = λ c. k.kept.1 ∙ h.closed_last (sym (k.kept.2) ∙ c);
        },
        k.none_lost ∙ omega arith,
      )
