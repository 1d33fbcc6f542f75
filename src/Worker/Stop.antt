-- ===== src/Worker/Stop.antt =====
-- internal/ledger/worker.go: the wait for the goroutines, and `Close`.
use logryph.Base.{
  ℕ, zero, suc, ◌+◌, ◌<◌, ◌≤◌, ◌≡◌, ◌≢◌, ◌↔◌, refl, Bool, true, if◌then◌else◌, nat_eq, ltb, lt→ltb,
  Bool-cases, inl, inr, arith, ◌/◌,
}
use logryph.Base.Result.{message, Result, ok, err, ◌>>◌}
use logryph.Base.Exec.{Exec}
use logryph.Assert.{check}
use logryph.Externals.{Externals}
use logryph.Repository.{EventRepository}
use logryph.Worker.{Worker, shutdown}

abbrev pub max_shutdown_ticks : ℕ
max_shutdown_ticks = 4096

-- The loop: `done i` is whether the goroutines had stopped when its i-th tick was waited for.
unfoldable pub await : (ℕ → Bool) → ℕ → ℕ → Result (Unit {0})
await done zero i = err (message "worker shutdown wait exceeded timeout")
await done (suc n) i = let rest = await done n (suc i) in if done i then ok tt else rest

-- The time between two ticks, in nanoseconds: at least a millisecond if the division gives 0
unfoldable pub tick_step : ℕ → ℕ
tick_step timeout =
    if nat_eq (timeout / max_shutdown_ticks) 0 then 1000000 else timeout / max_shutdown_ticks

-- `waitForStop`
unfoldable pub wait_for_stop : Bool → (ℕ → Bool) → ℕ → Result (Unit {0})
unfolding await tick_step
wait_for_stop strict done timeout = do
  check strict (ltb 0 timeout) "timeout must be positive"
  check strict (ltb 0 (tick_step timeout)) "shutdown step must be positive"
  await done max_shutdown_ticks 0

module _ (x : Externals) {S : Type 0} (repo : EventRepository S) (took : ℕ → ℕ) where
  -- `Close`, whose timeout is five seconds
  unfoldable pub close_worker : Exec (Worker S) (Unit {0})
  close_worker = shutdown x repo took 5000000000

-- A tick from the i-th on, of those that are left, by which the goroutines had stopped
abbrev StopsWithin : (ℕ → Bool) → ℕ → ℕ → Type 0
StopsWithin done n i = (k : ℕ) × (i ≤ k) × (k < i + n) × (done k ≡ true)

await-ok : (done : ℕ → Bool) (n i : ℕ) → await done n i ≡ ok tt → StopsWithin done n i
unfolding await
await-ok done zero i h = cc
await-ok done (suc n) i h = elim (Bool-cases (done i)) [
  | inl e ↦ (i, omega arith, omega arith, e)
  | inr e ↦
      let (k, from, below, stopped) = await-ok done n (suc i) (rw e at h) in
      (k, omega arith, omega arith, stopped)
]

await-stops :
    (done : ℕ → Bool) (n i k : ℕ) → i ≤ k → k < i + n → done k ≡ true → await done n i ≡ ok tt
unfolding await
await-stops done zero i k from below e = absurd (omega arith)
await-stops done (suc n) i k from below e = elim (Bool-cases (done i)) [
  | inl s ↦ rw s refl
  | inr s ↦
      let later : i ≢ k = λ same. absurd (cc) in
      rw s (await-stops done n (suc i) k (omega arith) (omega arith) e)
]

-- For a timeout that is positive, the wait ends without an error exactly if the goroutines have
-- stopped by one of its 4096 ticks.
pub wait_for_stop_iff :
    (strict : Bool) (done : ℕ → Bool) (timeout : ℕ)
    → 0 < timeout
    → (wait_for_stop strict done timeout ≡ ok tt)
      ↔ ((k : ℕ) × (k < max_shutdown_ticks) × (done k ≡ true))
unfolding wait_for_stop tick_step
wait_for_stop_iff strict done timeout h =
    let positive : ltb 0 (tick_step timeout) ≡ true = ground arith in
    rw (lt→ltb 0 timeout h, positive)
      (
        λ e.
            let (k, from, below, stopped) = await-ok done max_shutdown_ticks 0 e in
            (k, below, stopped),
        λ (k, below, stopped). await-stops done max_shutdown_ticks 0 k (omega arith) below stopped,
      )
