-- ===== src/Tests/System.antt =====
-- Concrete values on which the theorems of a worker that others use apply.
use logryph.Base.{ℕ, ◌+◌, ◌≡◌, refl, true, false, [], ◌∷◌, length, arith}
use logryph.Base.Post.{Post}
use logryph.Samples.{
  externals, json_laws, crypto_laws, all-IsStorable, signer, tool_call, finished_call, two_events,
}
use logryph.Store.{Db}
use logryph.Store.Sqlite.{sqlite}
use logryph.Store.Added.{view}
use logryph.Store.Lawful.{sqlite-IsLedger}
use logryph.Processor.{completion_event}
use logryph.Ring.Bounds.{IsValid}
use logryph.Ring.Refine.{contents}
use logryph.Worker.{
  Worker, backpressure_block, look, by_mode, unless_full, push_and_notify, after_push, notify,
}
use logryph.Worker.Account.{taken}
use logryph.Worker.System.{Flow, Reach, here, there, goes_on, queues, loses, closes, IsSafe}
use logryph.Worker.Drain.{AllStorable}
use logryph.Worker.Submit.{with_event}
use logryph.Ring.{push}
use logryph.Worker.Reached.{Reach-Safe}
use logryph.Tests.{worker, extends}

abbrev took : ℕ → ℕ
took n = 5

abbrev idle : ℕ → Worker Db → Worker Db
idle n w = w

abbrev Safe : Worker Db → Type 0
Safe =
    IsSafe externals (sqlite externals) (view externals) signer "r1"
      (sqlite-IsLedger externals json_laws) crypto_laws refl []
      (λ task state tick e c.
        all-IsStorable (completion_event externals (sqlite externals) task state tick e))
      took idle

abbrev known_events : Flow Db → ℕ
known_events f = taken f.worker + length f.pending

-- The buffer that is full at a `Push`: two events have one place between them.
abbrev half_full : Worker Db
half_full = record worker {
  ring_buffer = record two_events { slots = tool_call ∷ finished_call ∷ []; tail = 1; count = 1 };
}

half_full-IsSafe : Safe half_full
unfolding contents
half_full-IsSafe = record {
  valid = record {
    storage = refl;
    small = omega arith;
    head_in = omega arith;
    count_in = omega arith;
    tail_at = refl;
  };
  storable = (all-IsStorable tool_call, tt);
  grown = extends;
  drops = refl;
  closed_last = λ c. cc;
}

abbrev before : Flow Db
before = record { worker = half_full; pending = [] }

-- Two calls of `Submit` find space, one is queued and one is lost, and the worker closes.
abbrev after : Flow Db
after = record {
  worker = record (with_event true tool_call half_full) { closing = true; signal_closed = true };
  pending = [];
}

reached : Reach externals (sqlite externals) took idle before 2 1 after
unfolding look by_mode unless_full push_and_notify after_push notify push
reached =
    there
      (there
        (there
          (there (there here (goes_on tool_call (all-IsStorable tool_call) refl))
            (goes_on finished_call (all-IsStorable finished_call) refl))
          (queues (finished_call ∷ []) tool_call [] refl refl refl))
        (loses [] finished_call [] refl refl refl))
      closes

Reach-Safe_example :
    (Safe after.worker × AllStorable externals [])
    × (known_events after + 1 ≡ known_events before + 2)
Reach-Safe_example =
    Reach-Safe externals (sqlite externals) (view externals) signer "r1"
      (sqlite-IsLedger externals json_laws) crypto_laws refl []
      (λ task state tick e c.
        all-IsStorable (completion_event externals (sqlite externals) task state tick e))
      took idle before 2 1 after reached (omega arith) (half_full-IsSafe, tt)

abbrev Fine : Worker Db → Type 0
Fine w = IsValid w.ring_buffer × (w.signal_closed ≡ false)

abbrev blocking_worker : Worker Db
blocking_worker = record worker { backpressure_mode = backpressure_block }
