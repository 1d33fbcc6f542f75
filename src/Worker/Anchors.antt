-- ===== src/Worker/Anchors.antt =====
-- internal/ledger/worker.go: `anchorLoop`, as a list of what wakes it: a tick, with what the fetch
-- of the latest anchor returns, or the closing of quitChan.
use logryph.Base.{ℕ, zero, suc, false, some, List, [], ◌∷◌}
use logryph.Base.Result.{Result, ok, err, panic}
use logryph.Base.Exec.{Exec, pure, lift, gets, ◌>>=◌, ◌>>◌}
use logryph.Assert.{check}
use logryph.Event.{Event}
use logryph.Externals.{Externals}
use logryph.Genesis.{Anchor, with_anchor}
use logryph.Processor.{text_take, made, take_event}
use logryph.Worker.{Worker, in_core, submit}

pub data Wakeup : Type 0 where
  ticks : Result Anchor → Wakeup
  quits : Wakeup

module _ (x : Externals) {S : Type 0} (meanwhile : ℕ → Worker S → Worker S) where
  open x use {strict, new_uuid, now}

  -- The event, over one from the pool
  unfoldable pub anchor_event : Anchor → ℕ → Event → Event
  unfolding with_anchor made
  anchor_event anchor tick event = record event {
    id = text_take 8 (new_uuid tick);
    timestamp = now tick;
    event_type = "anchor";
    method = "logryph:anchor";
    actor = "system";
    params = some (with_anchor (some anchor) (made event.params));
  }

  -- A tick; an error of the fetch is logged.
  unfoldable pub anchor_tick : Result Anchor → Exec (Worker S) (Unit {0})
  unfolding anchor_event
  anchor_tick (err e) = pure tt
  anchor_tick (panic e) = lift (panic e)
  anchor_tick (ok anchor) = do
    tick ← gets (λ w. w.core.ticks)
    pooled ← in_core take_event
    submit meanwhile strict (anchor_event anchor tick pooled)

  unfoldable pub ends_loop : Result (Unit {0}) → Result (Unit {0})
  ends_loop (panic e) = panic e
  ends_loop _ = ok tt

  -- `anchorLoop` with the ticks that are left of `maxAnchorTicks`; without a wakeup it waits.
  unfoldable pub anchor_loop : ℕ → List Wakeup → Exec (Worker S) (Unit {0})
  unfolding anchor_tick ends_loop
  anchor_loop zero wakeups = lift (ends_loop (check strict false "anchor loop exceeded max ticks"))
  anchor_loop (suc n) [] = pure tt
  anchor_loop (suc n) (quits ∷ wakeups) = pure tt
  anchor_loop (suc n) (ticks fetched ∷ wakeups) = anchor_tick fetched >> anchor_loop n wakeups
