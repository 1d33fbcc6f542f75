-- ===== src/Worker/Blocking.antt =====
-- internal/ledger/worker.go: what becomes of an event that is submitted in the blocking mode, when
-- others use the worker in its sleeps.
use logryph.Base.{ℕ, ◌<◌, ◌≡◌, ◌⊎◌, Bool, true, false}
use logryph.Base.Result.{Result}
use logryph.Base.Post.{Post}
use logryph.Event.{Event}
use logryph.Ring.Bounds.{IsValid}
use logryph.Worker.{Worker, Wait, proceed, closed, max_block_attempts}
use logryph.Worker.Submit.{IsQueued, IsLost, IsDropped}

module _ {S : Type 0} (strict : Bool) (event : Event) (meanwhile : ℕ → Worker S → Worker S)
    (Fine : Worker S → Type 0) where
  -- The others, in the sleeps and before `Push`, leave a valid buffer and an open channel, and so does the counting of a wait.
  pub record IsFineThroughout : Type 0 where
    pub valid : (w : Worker S) → Fine w → IsValid w.ring_buffer
    pub may_send : (w : Worker S) → Fine w → w.signal_closed ≡ false
    pub counted : (w : Worker S) (n : ℕ) → Fine w → Fine (record w { blocked_submits = n })
    pub meanwhile_fine : (i : ℕ) (w : Worker S) → Fine w → Fine (meanwhile i w)

  -- The event is dropped after the wait, where the buffer is full or the worker is closing, or
  -- there is space, and then it is queued behind those that are there when `Push` is called, or
  -- lost.
  pub record IsDecided (t : Worker S) : Type 0 where
    pub waited : Worker S
    pub fine : Fine waited
    pub outcome :
        IsDropped strict event waited t
        ⊎ ((waited.ring_buffer.count < waited.ring_buffer.capacity)
            × (IsQueued strict event (meanwhile max_block_attempts waited) t
                ⊎ IsLost strict event (meanwhile max_block_attempts waited) t))

  abbrev Decides : Result (Unit {0}) × Worker S → Type 0
  Decides = Post (λ _ t. IsDecided t) (λ _. ⊥)

  -- What the wait ends in.
  abbrev Waited : Wait × Worker S → Type 0
  Waited (proceed, w) = Fine w
  Waited (closed, w) = Fine w × (w.closing ≡ true)
