-- ===== src/Worker/Reached.antt =====
-- internal/ledger/worker.go: what every sequence of steps of the worker's goroutines keeps.
use logryph.Base.{
  ℕ, ◌+◌, ◌<◌, ◌≤◌, ◌^◌, ◌≡◌, inl, inr, refl, sym, ap, ◌∙◌, subst, Bool, true, false, ◌||◌, List,
  [], ◌∷◌, ◌++◌, length, String, leb, leb→le, arith, Bool-cases,
}
use logryph.Base.Result.{Error, ok, panic}
use logryph.Base.Exec.{◌>>◌, pure, bind_in-eq-ok}
use logryph.Base.Post.{Post}
use logryph.Assert.{check}
use logryph.Event.{Event}
use logryph.Externals.{Externals, CryptoLaws}
use logryph.Crypto.{Signer}
use logryph.Repository.{EventRepository}
use logryph.Repository.Laws.{IsStorable, IsLedger}
use logryph.Ring.{cap, is_empty, is_full}
use logryph.Pool.{get_event}
use logryph.Pool.Clean.{IsClean, get_event-IsClean}
use logryph.Processor.{completion_event, take_event}
use logryph.Worker.{
  Worker, in_core, look, push_and_notify, after_push, notify, drain, max_drain_events, after_check,
  process_signal, unhealthy_error, drain_started, drain_buffer,
}
use logryph.Worker.Account.{taken}
use logryph.Worker.Submit.{
  look-closing, look-full, look-space, dropped, with_event, push_and_notify-with_event,
  with_event-IsQueued, lost-full,
}
use logryph.Worker.Drain.{AllStorable}
use logryph.Ring.Bounds.{push_closed}
use logryph.Worker.System.{
  Flow, Step, goes_on, drops, queues, loses, takes, rounds, closes, drains, Reach, here, there,
  IsSafe, Keeps, queued-Keeps, dropped-Keeps, drained-Keeps,
}

module _ (x : Externals) {S : Type 0} (repo : EventRepository S) (view : S → String → List Event)
    (signer : Signer) (run : String) {limit : ℕ} (laws : IsLedger x view limit repo)
    (crypto : CryptoLaws x) (keys : signer.public_key ≡ x.public_of signer.private_key)
    (es : List Event)
    (terminal : (task state : String) (tick : ℕ) (e : Event)
      → IsClean e
      → IsStorable x (completion_event x repo task state tick e))
    (took : ℕ → ℕ) (meanwhile : ℕ → Worker S → Worker S) where
  abbrev pub Safe : Worker S → Type 0
  Safe = IsSafe x repo view signer run laws crypto keys es terminal took meanwhile

  abbrev Kept : ℕ → Worker S → Worker S → Type 0
  Kept = Keeps x repo view signer run laws crypto keys es terminal took meanwhile

  -- What is not read of a worker may change.
  Safe-unsignaled :
      (w : Worker S) (s u : Bool) → Safe w → Safe (record w { signal = s; is_unhealthy = u })
  Safe-unsignaled w s u h = record {
    valid = h.valid;
    storable = h.storable;
    grown = h.grown;
    drops = h.drops;
    closed_last = h.closed_last;
  }

  drops-Kept :
      (e : Event) (w t : Worker S)
      → taken w + 1 < 2 ^ 64
      → Safe w
      → look meanwhile w ≡ (false, t)
      → Kept 1 w t
  drops-Kept e w t small h eq = elim (Bool-cases w.closing) [
    | inl c ↦ by_drop (look-closing x.strict e w meanwhile c)
    | inr c ↦ elim (Bool-cases (is_full w.ring_buffer)) [
      | inl f ↦ by_drop (look-full x.strict e w meanwhile c h.drops f)
      | inr f ↦
          absurd (no (ap (λ o. o.0) (sym (look-space x.strict e w meanwhile c h.drops f) ∙ eq)))
    ]
  ]
    where
      by_drop : look meanwhile w ≡ (false, dropped x.strict e w) → Kept 1 w t
      by_drop d = subst (Kept 1 w) (ap (λ o. o.1) (sym d ∙ eq)) (
          dropped-Keeps x repo view signer run laws crypto keys es terminal took meanwhile e w small
            h)

      no : true ≡ false → ⊥
      no k = cc

  -- A look that goes on leaves the worker.
  goes_on-same : (e : Event) (w t : Worker S) → Safe w → look meanwhile w ≡ (true, t) → w ≡ t
  goes_on-same e w t h eq = elim (Bool-cases w.closing) [
    | inl c ↦ absurd (no (ap (λ o. o.0) (sym (look-closing x.strict e w meanwhile c) ∙ eq)))
    | inr c ↦ elim (Bool-cases (is_full w.ring_buffer)) [
      | inl f ↦
          absurd (no (ap (λ o. o.0) (sym (look-full x.strict e w meanwhile c h.drops f) ∙ eq)))
      | inr f ↦ ap (λ o. o.1) (sym (look-space x.strict e w meanwhile c h.drops f) ∙ eq)
    ]
  ]
    where
      no : false ≡ true → ⊥
      no k = cc

  -- A `Push` with a signal that returns found the channel open.
  queues-Kept :
      (e : Event) (w t : Worker S)
      → IsStorable x e
      → Safe w
      → is_full w.ring_buffer ≡ false
      → push_and_notify x.strict e w ≡ (ok tt, t)
      → Kept 1 w t
  unfolding push_and_notify after_push notify
  queues-Kept e w t st h f eq = elim (Bool-cases w.signal_closed) [
    | inl c ↦ absurd (no (ap (λ o. o.0) (rw (push_closed x.strict e h.valid, f, c) at eq)))
    | inr c ↦
        subst (Kept 1 w)
          (ap (λ o. o.1) (sym (push_and_notify-with_event x.strict e w h.valid c f) ∙ eq))
          (queued-Keeps x repo view signer run laws crypto keys es terminal took meanwhile e w
            (with_event x.strict e w) st h (with_event-IsQueued x.strict e w h.valid f))
  ]
    where
      no : {m : Error} {u : Unit {0}} → panic m ≡ ok u → ⊥
      no k = cc

  -- The worker behind the taking of an event from the pool.
  took_event : Worker S → Worker S
  took_event w = record w {
    core = record (w.core) { pool = (get_event w.core.pool).1; ticks = w.core.ticks + 1 };
  }

  took_event-same :
      (w t : Worker S) {e : Event} → in_core take_event w ≡ (ok e, t) → took_event w ≡ t
  unfolding took_event take_event
  took_event-same w t eq = ap (λ o. o.1) eq

  took_event-taken : (w : Worker S) → taken (took_event w) ≡ taken w
  unfolding took_event
  took_event-taken w = refl

  took_event-Safe : (w : Worker S) → Safe w → Safe (took_event w)
  unfolding took_event
  took_event-Safe w h = record {
    valid = h.valid;
    storable = h.storable;
    grown = record {
      clean = (get_event-IsClean w.core.pool h.grown.clean).1;
      more = h.grown.more;
      ready = record {
        sound = h.grown.ready.sound;
        holds = h.grown.ready.holds;
        own_run = h.grown.ready.own_run;
        own_signer = h.grown.ready.own_signer;
      };
    };
    drops = h.drops;
    closed_last = h.closed_last;
  }

  -- A drain that returned.
  drained :
      (w t : Worker S) {u : Unit {0}}
      → taken w < 2 ^ 64
      → Safe w
      → leb (cap w.ring_buffer) max_drain_events ≡ true
      → drain x repo took max_drain_events w ≡ (ok u, t)
      → Kept 0 w t
  drained w t small h fits eq =
      let below : w.ring_buffer.count ≤ w.ring_buffer.capacity = h.valid.count_in in
      let bound = leb→le (cap w.ring_buffer) max_drain_events fits in
      subst (Post (λ _ u. Kept 0 w u) (λ _. Unit {0})) eq (
        drained-Keeps x repo view signer run laws crypto keys es terminal took meanwhile w small h
          (omega arith))

  round-Kept :
      (w t : Worker S) (b : Bool)
      → taken w < 2 ^ 64
      → Safe w
      → process_signal x repo took w ≡ (ok b, t)
      → Kept 0 w t
  unfolding process_signal unhealthy_error after_check
  round-Kept w t b small h eq = by_fits (leb (cap w.ring_buffer) max_drain_events) refl x.strict eq
    where
      quiet : Worker S
      quiet = record w { signal = false }

      by_fits :
          (c : Bool)
          → leb (cap w.ring_buffer) max_drain_events ≡ c
          → (strict : Bool)
          → after_check x repo took
              (unhealthy_error x repo took (check strict c "ring buffer cap exceeds max") quiet)
            ≡ (ok b, t)
          → Kept 0 w t
      by_fits true fits strict k =
          let (u, v, done, same) =
            bind_in-eq-ok (drain x repo took max_drain_events) (λ _. pure true) quiet k in
          subst (Kept 0 w) (ap (λ o. o.1) same)
            (drained quiet v small (Safe-unsignaled w false w.is_unhealthy h) fits done)
      by_fits false fits true k = cc
      by_fits false fits false k =
          subst (Kept 0 w) (ap (λ o. o.1) k) (Safe-unsignaled w false true h, omega arith)

  drain_buffer-Kept :
      (w t : Worker S)
      → taken w < 2 ^ 64
      → Safe w
      → drain_buffer x repo took w ≡ (ok tt, t)
      → Kept 0 w t
  unfolding drain_buffer unhealthy_error drain_started
  drain_buffer-Kept w t small h eq =
      by_fits (leb (cap w.ring_buffer) max_drain_events) refl x.strict
        (w.started || is_empty w.ring_buffer) eq
    where
      by_fits :
          (c : Bool)
          → leb (cap w.ring_buffer) max_drain_events ≡ c
          → (strict b : Bool)
          → (unhealthy_error x repo took (check strict c "ring buffer cap exceeds max")
                >> drain_started x repo took b)
              w
            ≡ (ok tt, t)
          → Kept 0 w t
      by_fits true fits strict true k = drained w t small h fits k
      by_fits true fits strict false k = cc
      by_fits false fits true b k = cc
      by_fits false fits false b k = cc

  -- The worker is safe, and the events that are about to be pushed can be read back.
  abbrev pub AllSafe : Flow S → Type 0
  AllSafe f = Safe f.worker × AllStorable x f.pending

  -- The events that were taken, or are about to be pushed.
  abbrev pub known : Flow S → ℕ
  known f = taken f.worker + length f.pending

  abbrev Balances : ℕ → ℕ → Flow S → Flow S → Type 0
  Balances k l f g = AllSafe g × (known g + l ≡ known f + k)

  -- The events around the one that is pushed.
  taken_out :
      (before : List Event) (e : Event) (after : List Event) (p : List Event)
      → p ≡ before ++ e ∷ after
      → AllStorable x p
      → IsStorable x e × AllStorable x (before ++ after) × (length p ≡ length (before ++ after) + 1)
  taken_out before e after p same st =
      let (own, rest) = split before (subst (AllStorable x) same st) in
      (own, rest, ap length same ∙ count before)
    where
      split :
          (b : List Event)
          → AllStorable x (b ++ e ∷ after)
          → IsStorable x e × AllStorable x (b ++ after)
      split [] h = h
      split (c ∷ b) h = let (own, rest) = split b h.1 in (own, (h.0, rest))

      count : (b : List Event) → length (b ++ e ∷ after) ≡ length (b ++ after) + 1
      count [] = omega arith
      count (c ∷ b) = let k = count b in omega (arith, k)

  Step-Balances :
      (k l : ℕ) (f g : Flow S)
      → known f + k < 2 ^ 64
      → AllSafe f
      → Step x repo took meanwhile f k l g
      → Balances k l f g
  Step-Balances k l f g small (h, st) (goes_on e {t} own eq) =
      let same = goes_on-same e f.worker t h eq in
      let count : taken t ≡ taken f.worker = ap taken (sym same) in
      ((subst Safe same h, (own, st)), omega arith)
  Step-Balances k l f g small (h, st) (drops e {t} eq) =
      let (safe, count) = drops-Kept e f.worker t (omega arith) h eq in ((safe, st), omega arith)
  Step-Balances k l f g small (h, st) (queues before e after {t} same space eq) =
      let (own, rest, long) = taken_out before e after f.pending same st in
      let (safe, count) = queues-Kept e f.worker t own h space eq in ((safe, rest), omega arith)
  Step-Balances k l f g small (h, st) (loses before e after {t} same full eq) =
      let (own, rest, long) = taken_out before e after f.pending same st in
      let unchanged : f.worker ≡ t =
        ap (λ o. o.1) (sym (lost-full x.strict e f.worker h.valid full) ∙ eq) in
      let count : taken t ≡ taken f.worker = ap taken (sym unchanged) in
      ((subst Safe unchanged h, rest), omega arith)
  Step-Balances k l f g small (h, st) (takes {t = t} eq) =
      let took_it : took_event f.worker ≡ t = took_event-same f.worker t eq in
      let count : taken t ≡ taken f.worker = ap taken (sym took_it) ∙ took_event-taken f.worker in
      ((subst Safe took_it (took_event-Safe f.worker h), st), omega arith)
  Step-Balances k l f g small (h, st) (rounds {b} {t} eq) =
      let (safe, count) = round-Kept f.worker t b (omega arith) h eq in ((safe, st), omega arith)
  Step-Balances k l f g small (h, st) closes = (
    (
      record {
        valid = h.valid;
        storable = h.storable;
        grown = h.grown;
        drops = h.drops;
        closed_last = λ c. refl;
      },
      st,
    ),
    omega arith,
  )
  Step-Balances k l f g small (h, st) (drains {t} eq) =
      let (safe, count) = drain_buffer-Kept f.worker t (omega arith) h eq in
      ((safe, st), omega arith)

  -- Whatever looks of calls of `Submit` at the buffer, calls of `Push` that follow them later,
  -- events taken from the pool, rounds of `processEvents` and parts of `Shutdown` follow each
  -- other, as long as each returns: from a worker that is safe, only safe workers are reached,
  -- so the buffer stays valid and the ledger holds a sound run that still begins with `es`; and
  -- the events that were processed, dropped, queued or are about to be pushed, and those that
  -- are lost because their `Push` finds a buffer that became full after the look, together grow
  -- by the number that is submitted, if that stays below 2^64. The worker drops on a full
  -- buffer, submitted events can be read back, the storage keeps its laws, the signer's keys
  -- belong together, and the terminal events that the code makes of clean pooled events can be
  -- read back.
  pub Reach-Safe :
      (f : Flow S) (n m : ℕ) (g : Flow S)
      → Reach x repo took meanwhile f n m g
      → known f + n < 2 ^ 64
      → AllSafe f
      → AllSafe g × (known g + m ≡ known f + n)
  Reach-Safe f n m g here small h = (h, omega arith)
  Reach-Safe f n m g (there {n = n'} {m = m'} {k = k} {l = l} {g = v} before step) small h =
      let (safe, count) = Reach-Safe f n' m' v before (omega arith) h in
      let (kept, more) = Step-Balances k l v g (omega arith) safe step in (kept, omega arith)
