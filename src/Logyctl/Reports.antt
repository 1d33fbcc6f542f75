-- ===== src/Logyctl/Reports.antt =====
-- cmd/logyctl/commands/analytics.go and StatusCommand of cmd/logyctl/commands/system.go: the reports
-- of `logyctl events`, `logyctl risk` and `logyctl status`. `opens` is what `store.NewDB` returned.
-- A limit below 1 is refused by the storage, and stands for 0 here.
use Prim.Native.String as Str
use logryph.Base.{
  ℕ, zero, suc, Bool, ◌==◌, Option, none, some, List, [], ◌∷◌, String, is_set, if◌then◌else◌, leb,
  length, get_elem?,
}
use logryph.Base.Result.{message, Result, panic}
use logryph.Base.Exec.{Exec, pure, lift, with_context_in, ◌>>=◌, ◌>>◌}
use logryph.Assert.{check}
use logryph.Json.{text, int, uint64}
use logryph.Event.{Event}
use logryph.Repository.{EventRepository}
use logryph.Logyctl.{Terminal, slice, asserted, printf, on_db, close_deferred}

abbrev pub max_recent_events : ℕ
max_recent_events = 10000

abbrev pub max_risk_events : ℕ
max_risk_events = 10000

-- The body of the loop of `EventsCommand`
unfoldable pub print_event : {S : Type 0} → Event → Exec (Terminal S) (Unit {0})
print_event e = do
  short ← lift (slice 8 e.id)
  printf "[%d] %s | %s | %s\n"
      (uint64 e.seq_index ∷ text short ∷ text e.event_type ∷ text e.method ∷ [])
  (if e.was_blocked then printf "    BLOCKED\n" [] else pure tt)

-- `events[idx]`
unfoldable pub print_at : {S : Type 0} → Option Event → Exec (Terminal S) (Unit {0})
unfolding print_event
print_at none = lift (panic (message "runtime error: index out of range"))
print_at (some e) = print_event e

-- The rounds that are left of the loop, and the events that are not printed yet: the loop goes from
-- the last event to the first.
unfoldable pub print_recent : {S : Type 0} → ℕ → ℕ → List Event → Exec (Terminal S) (Unit {0})
unfolding print_at
print_recent zero left events = pure tt
print_recent (suc rounds) zero events = pure tt
print_recent (suc rounds) (suc idx) events =
    print_at (get_elem? events idx) >> print_recent rounds idx events

-- The body of the loop of `RiskCommand`
unfoldable pub print_risk : {S : Type 0} → Event → Exec (Terminal S) (Unit {0})
print_risk e = do
  short ← lift (slice 8 e.id)
  printf "[%s] %-8s | %-10s | %s\n"
      (text e.risk_level ∷ text short ∷ text e.event_type ∷ text e.method ∷ [])
  (if is_set e.policy_id then printf "    Policy: %s\n" (text e.policy_id ∷ []) else pure tt)

unfoldable pub print_risks : {S : Type 0} → ℕ → List Event → Exec (Terminal S) (Unit {0})
unfolding print_risk
print_risks zero events = pure tt
print_risks (suc rounds) [] = pure tt
print_risks (suc rounds) (e ∷ events) = print_risk e >> print_risks rounds events

module _ (strict : Bool) {S : Type 0} (repo : EventRepository S) where
  -- The asserted result of a call on the database
  unfoldable pub asserted_db : {A : Type 0} → String → Exec S A → Exec (Terminal S) A
  asserted_db msg m t = let (r, u) = on_db m t in (asserted strict msg r, u)

  unfoldable pub report_events : ℕ → String → Exec (Terminal S) (Unit {0})
  unfolding asserted_db
  report_events limit run_id = do
    events ← asserted_db "failed to get events" (repo.get_recent_events run_id limit)
    lift (check strict (leb (length events) max_recent_events) "recent events exceed max")
    printf "Recent Events (showing %d)\n" (int (length events) ∷ [])
    printf "===========================\n" []
    print_recent max_recent_events (length events) events

  -- `EventsCommand`
  unfoldable pub events_command : Result (Unit {0}) → ℕ → Exec (Terminal S) (Unit {0})
  unfolding asserted_db report_events
  events_command opens limit = do
    lift (asserted strict "failed to open database" opens)
    λ t. close_deferred repo (
        (do
          run_id ← asserted_db "failed to get run ID" repo.get_run_id
          (if run_id == ""
              then printf "No runs found in database\n" []
              else report_events limit run_id))
          t)

  unfoldable pub report_risks : List Event → Exec (Terminal S) (Unit {0})
  report_risks [] = printf "[OK] No high-risk events detected\n" []
  report_risks (e ∷ es) = do
    lift (check strict (leb (length (e ∷ es)) max_risk_events) "risky events exceed max")
    printf "High-Risk Events Found: %d\n" (int (length (e ∷ es)) ∷ [])
    printf "==========================\n" []
    print_risks max_risk_events (e ∷ es)

  -- `RiskCommand`
  unfoldable pub risk_command : Result (Unit {0}) → Exec (Terminal S) (Unit {0})
  unfolding asserted_db report_risks
  risk_command opens = do
    with_context_in "Failed to open database" (lift opens)
    λ t. close_deferred repo (
        (do
          risky ← asserted_db "failed to get risky events" repo.get_risk_events
          report_risks risky)
          t)

  unfoldable pub report_status : String → Exec (Terminal S) (Unit {0})
  report_status run_id = do
    info ← with_context_in "Failed to get run info" (on_db (repo.get_run_info run_id))
    printf "Current Run Status\n" []
    printf "==================\n" []
    short_id ← lift (slice 8 run_id)
    printf "Run ID:       %s\n" (text short_id ∷ [])
    printf "Agent:        %s\n" (text info.0 ∷ [])
    short_hash ← lift (slice 16 info.1)
    printf "Genesis Hash: %s\n" (text (Str.◌++◌ short_hash "...") ∷ [])
    short_key ← lift (slice 32 info.2)
    printf "Public Key:   %s\n" (text (Str.◌++◌ short_key "...") ∷ [])

  -- `StatusCommand`
  unfoldable pub status_command : Result (Unit {0}) → Exec (Terminal S) (Unit {0})
  unfolding report_status
  status_command opens = do
    with_context_in "Failed to open database" (lift opens)
    λ t. close_deferred repo (
        (do
          run_id ← with_context_in "Failed to get run ID" (on_db repo.get_run_id)
          (if run_id == "" then printf "No runs found in database\n" [] else report_status run_id))
          t)
