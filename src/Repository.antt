-- ===== src/Repository.antt =====
-- internal/ledger/interface.go: what the ledger asks of its storage, as a record of operations.
pub mod Laws
use logryph.Base.{ℕ, Bool, String, List}
use logryph.Base.Exec.{Exec}
use logryph.Event.{Event}

-- A map from risk levels to counts is an association list.
pub record RunStats : Type 0 where
  pub run_id : String
  pub total_events : ℕ
  pub call_count : ℕ
  pub blocked_count : ℕ
  pub risk_breakdown : List (String × ℕ)

pub record GlobalStats : Type 0 where
  pub total_runs : ℕ
  pub total_events : ℕ
  pub critical_count : ℕ

-- A method acts on the state `S` of the storage.
pub record EventRepository (S : Type 0) : Type 0 where
  pub store_event : Event → Exec S (Unit {0})
  pub insert_run : String → String → String → String → Exec S (Unit {0})
  pub get_last_event : String → Exec S (ℕ × String)
  pub get_event_by_id : String → Exec S Event
  pub get_all_events : String → Exec S (List Event)
  pub get_recent_events : String → ℕ → Exec S (List Event)
  pub get_events_by_task_id : String → Exec S (List Event)
  pub get_risk_events : Exec S (List Event)
  pub has_runs : Exec S Bool
  pub get_run_id : Exec S String
  pub get_run_info : String → Exec S (String × String × String)
  pub get_run_stats : String → Exec S RunStats
  pub get_global_stats : Exec S GlobalStats
  pub close : Exec S (Unit {0})
