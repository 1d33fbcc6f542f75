-- ===== src/Store.antt =====
-- internal/ledger/store: the SQLite ledger. The tables are lists of rows in insertion order; a
-- query is what its SQL text asks of them. The driver can fail at any call: `faults` says which
-- calls do, from the next one on.
pub mod Stats
pub mod Read
pub mod Sqlite
pub mod Readback
pub mod Quiet
pub mod Rows
pub mod Runs
pub mod Added
pub mod Lawful
pub mod Clear
use logryph.Base.{
  ℕ, zero, suc, ◌+◌, ◌<◌, Bool, true, false, not, ◌&&◌, ◌||◌, Option, none, some, List, [], ◌∷◌,
  ◌++◌, String, ◌==◌, is_set, if◌then◌else◌, ltb, leb, nat_eq, length, select, take,
}
use logryph.Base.Result.{Error, message, wrapped, Result, ok, err, panic}
use logryph.Base.Exec.{Exec, pure, fail, lift, gets, with_context_in, ◌>>=◌, ◌>>◌}
use logryph.Base.Sort.{sort_by, ascending, descending}
use logryph.Assert.{check}
use logryph.Json.{Value, null, object, Fields}
use logryph.Event.{Event, Time, Map, map_value, zero_time, empty_event}
use logryph.Externals.{Externals}
use logryph.Repository.{RunStats, GlobalStats, EventRepository}
use mathlib.Core.List.{head?, map}

abbrev pub max_event_rows : ℕ
max_event_rows = 100000

-- A row of table `runs`. `started_at` is the database's clock when the row was inserted.
pub record Run : Type 0 where
  pub id : String
  pub agent_name : String
  pub started_at : ℕ
  pub genesis_hash : String
  pub ledger_pub_key : String

-- A row of table `events`.
pub record Row : Type 0 where
  pub id : String
  pub run_id : String
  pub seq_index : ℕ
  pub timestamp : String
  pub actor : String
  pub event_type : String
  pub method : String
  pub params : String
  pub response : String
  pub task_id : String
  pub task_state : String
  pub parent_id : String
  pub policy_id : String
  pub risk_level : String
  pub prev_hash : String
  pub current_hash : String
  pub signature : String

pub record Db : Type 0 where
  pub runs : List Run
  pub events : List Row
  pub clock : ℕ
  pub faults : List Bool

abbrev pub sql_error : Error
sql_error = message "sql: driver error"

-- Whether the next call of the driver fails.
unfoldable pub next_fault : List Bool → Bool × List Bool
next_fault [] = (false, [])
next_fault (f ∷ fs) = (f, fs)

unfoldable pub driver_fails : Exec Db Bool
unfolding next_fault
driver_fails db = let (f, fs) = next_fault db.faults in (ok f, record db { faults = fs })

-- One call of the driver.
unfoldable pub call_driver : Exec Db (Unit {0})
unfolding driver_fails
call_driver = do f ← driver_fails; if f then fail sql_error else pure tt

-- `err == sql.ErrNoRows`
abbrev pub no_rows : Error
no_rows = message "sql: no rows in result set"

unfoldable pub has_id : String → List Row → Bool
has_id k [] = false
has_id k (r ∷ rs) = (r.id == k) || has_id k rs

has_run : String → List Run → Bool
has_run k [] = false
has_run k (r ∷ rs) = (r.id == k) || has_run k rs

unfoldable pub put_row : Bool → (Db → Db) → Exec Db (Unit {0})
put_row taken add db =
    if taken then (err (message "UNIQUE constraint failed"), db) else (ok tt, add db)

-- `res.RowsAffected()`, which is 1 where it does not fail
unfoldable pub rows_affected : Exec Db (Unit {0})
unfolding driver_fails
rows_affected = do
  f ← driver_fails
  if f then fail (message "failed to insert: rows affected") else pure tt

-- `Exec` of an INSERT: it fails by a fault, or by the primary key. RowsAffected can fail when the
-- row is in, and then the row stays.
unfoldable pub insert_with : String → Bool → (Db → Db) → Exec Db (Unit {0})
unfolding call_driver put_row rows_affected
insert_with context taken add = do
  with_context_in context (call_driver >> put_row taken add)
  rows_affected

unfoldable pub add_event : Row → Db → Db
add_event r db = record db { events = db.events ++ r ∷ [] }

add_run : String → String → String → String → Db → Db
add_run id agent_name genesis_hash ledger_pub_key db = record db {
  runs =
      db.runs
      ++ record {
        id = id;
        agent_name = agent_name;
        started_at = db.clock;
        genesis_hash = genesis_hash;
        ledger_pub_key = ledger_pub_key;
      }
        ∷ [];
}

unfoldable pub insert_event : Bool → Row → Exec Db (Unit {0})
unfolding insert_with has_id add_event
insert_event strict r = do
  lift (check strict (is_set r.id) "event id must not be empty")
  lift (check strict (is_set r.run_id) "run id must not be empty")
  lift (check strict (is_set r.current_hash) "current hash must not be empty")
  lift (check strict (is_set r.signature) "signature must not be empty")
  events ← gets (λ db. db.events)
  insert_with "inserting event" (has_id r.id events) (add_event r)

unfoldable pub insert_run : Bool → String → String → String → String → Exec Db (Unit {0})
unfolding insert_with has_run add_run
insert_run strict id agent_name genesis_hash ledger_pub_key = do
  lift (check strict (is_set id) "run id must not be empty")
  lift (check strict (is_set agent_name) "agent name must not be empty")
  lift (check strict (is_set genesis_hash) "genesis hash must not be empty")
  lift (check strict (is_set ledger_pub_key) "ledger pub key must not be empty")
  runs ← gets (λ db. db.runs)
  insert_with "inserting run" (has_run id runs) (add_run id agent_name genesis_hash ledger_pub_key)

-- `SELECT COUNT(*) FROM runs`
unfoldable pub has_runs : Exec Db Bool
unfolding call_driver
has_runs = do
  with_context_in "checking runs" call_driver
  n ← gets (λ db. length db.runs)
  pure (ltb 0 n)

run_id_or_empty : Option Run → String
run_id_or_empty none = ""
run_id_or_empty (some r) = r.id

-- `ORDER BY started_at DESC LIMIT 1`
unfoldable pub get_run_id : Exec Db String
unfolding call_driver run_id_or_empty
get_run_id = do
  with_context_in "querying run ID" call_driver
  runs ← gets (λ db. db.runs)
  pure (run_id_or_empty (head? (sort_by (descending (λ r. r.started_at)) runs)))

run_info_or_error : Option Run → Result (String × String × String)
run_info_or_error none = err (wrapped "querying run info" no_rows)
run_info_or_error (some r) = ok (r.agent_name, r.genesis_hash, r.ledger_pub_key)

unfoldable pub get_run_info : Bool → String → Exec Db (String × String × String)
unfolding call_driver run_info_or_error
get_run_info strict run_id = do
  lift (check strict (is_set run_id) "runID must not be empty")
  with_context_in "querying run info" call_driver
  runs ← gets (λ db. db.runs)
  lift (run_info_or_error (head? (select (λ r. r.id == run_id) runs)))

-- `WHERE run_id = ?`
abbrev pub rows_of : String → Db → List Row
rows_of run_id db = select (λ r. r.run_id == run_id) db.events

unfoldable pub last_or_empty : Option Row → ℕ × String
last_or_empty none = (0, "")
last_or_empty (some r) = (r.seq_index, r.current_hash)

-- `ORDER BY seq_index DESC LIMIT 1`
unfoldable pub get_last_event : Bool → String → Exec Db (ℕ × String)
unfolding call_driver last_or_empty
get_last_event strict run_id = do
  lift (check strict (is_set run_id) "runID must not be empty")
  with_context_in "querying last event" call_driver
  rows ← gets (rows_of run_id)
  pure (last_or_empty (head? (sort_by (descending (λ r. r.seq_index)) rows)))

-- `assert.Check(rows.Err() == nil, _)`, and the deferred `rows.Close()`: each can fail.
unfoldable pub check_rows : Bool → String → Exec Db (Unit {0})
unfolding driver_fails
check_rows strict msg = do f ← driver_fails; lift (check strict (not f) msg)

unfoldable pub close_rows : String → Exec Db (Unit {0})
unfolding call_driver
close_rows context = with_context_in context call_driver

-- `conn.Close()`
unfoldable pub close : Exec Db (Unit {0})
unfolding call_driver
close = call_driver
