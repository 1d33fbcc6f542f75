-- ===== src/Worker/Silent.antt =====
-- internal/ledger/worker.go: the drain loop returns no error: those of the processor are logged.
use logryph.Base.{ℕ, zero, suc, Bool, true, false, some, leb, Bool-cases, inl, inr}
use logryph.Base.Result.{Result, ok, err, panic}
use logryph.Base.Exec.{Exec, continue}
use logryph.Event.{Event}
use logryph.Externals.{Externals}
use logryph.Assert.{check}
use logryph.Pool.{EventPool, put_event, or_return, map_size, max_event_fields}
use logryph.Ring.{pop, is_empty}
use logryph.Repository.{EventRepository}
use logryph.Processor.{process_event}
use logryph.Worker.{
  Worker, in_ring, in_core, drain, handle_event, after_process, finish_event, after_pop,
}

-- A value or a panic
abbrev pub IsNoError {ℓ} : {A : Type ℓ} → Result A → Type 0
IsNoError (ok a) = Unit
IsNoError (err e) = ⊥
IsNoError (panic e) = Unit

pub continue-IsNoError {ℓ κ μ} :
    {S : Type ℓ} {A : Type κ} {B : Type μ} (r : Result A) (f : A → Exec S B) (s : S)
    → IsNoError r
    → ((a : A) → IsNoError (f a s).0)
    → IsNoError (continue r f s).0
continue-IsNoError (ok a) f s h k = k a
continue-IsNoError (err e) f s h k = h
continue-IsNoError (panic e) f s h k = tt

put_event-IsNoError :
    (strict : Bool) (e : Event) (p : EventPool) → IsNoError (put_event strict (some e) p).0
unfolding put_event
put_event-IsNoError strict e p =
    by_checks _ strict (leb (map_size e.params) max_event_fields)
      (leb (map_size e.response) max_event_fields)
  where
    by_checks :
        (q : EventPool → EventPool) (strict b c : Bool)
        → IsNoError
            (or_return
              (check strict b "params map too large")
              (or_return (check strict c "response map too large") (λ r. (ok tt, q r)))
              p).0
    by_checks q true true true = tt
    by_checks q true true false = tt
    by_checks q true false c = tt
    by_checks q false true true = tt
    by_checks q false true false = tt
    by_checks q false false c = tt

module _ (x : Externals) {S : Type 0} (repo : EventRepository S) (took : ℕ → ℕ) where
  after_process-IsNoError :
      (r : Result (Unit {0})) (w : Worker S) → IsNoError (after_process x repo took r w).0
  unfolding after_process
  after_process-IsNoError (ok u) w = tt
  after_process-IsNoError (err e) w = tt
  after_process-IsNoError (panic e) w = tt

  handle_event-IsNoError : (e : Event) (w : Worker S) → IsNoError (handle_event x repo took e w).0
  unfolding handle_event finish_event
  handle_event-IsNoError e w =
      continue-IsNoError _ _ _
        (after_process-IsNoError (in_core (process_event x repo e) w).0
          (in_core (process_event x repo e) w).1)
        (λ u. put_event-IsNoError x.strict e _)

  pub drain-IsNoError : (n : ℕ) (w : Worker S) → IsNoError (drain x repo took n w).0
  unfolding drain after_pop
  drain-IsNoError zero w = tt
  drain-IsNoError (suc n) w = elim (Bool-cases (is_empty w.ring_buffer)) [
    | inl e ↦ rw e tt
    | inr e ↦
        let (r, v) = in_ring (pop x.strict) w in
        rw e (by_pop (in_ring (pop x.strict) w).0 (in_ring (pop x.strict) w).1 (drain-IsNoError n))
  ]
    where
      by_pop :
          (r : Result Event) (v : Worker S)
          → ((t : Worker S) → IsNoError (drain x repo took n t).0)
          → IsNoError (after_pop x repo took r (drain x repo took n) v).0
      by_pop (ok e) v ih = continue-IsNoError _ _ _ (handle_event-IsNoError e v) (λ u. ih _)
      by_pop (err e) v ih = tt
      by_pop (panic e) v ih = tt
