-- ===== src/Store/Read.antt =====
-- The queries of internal/ledger/store/events.go that return events. Only GetAllEvents parses the
-- timestamp and the two JSON columns; the others leave these fields at their zero values.
use Prim.Native.String as Str
use text.Mathlib.Text.{is_le}
use mathlib.Core.List.{head?, map}
use logryph.Base.{
  ◌∷◌, [], ℕ, Bool, false, not, ◌&&◌, ◌||◌, Option, none, some, List, String, ◌==◌, is_set,
  if◌then◌else◌, ltb, select, take,
}
use logryph.Base.Result.{wrapped, Result, ok, err}
use logryph.Base.Exec.{Exec, pure, lift, gets, with_context_in, ◌>>=◌, ◌>>◌}
use logryph.Base.Sort.{sort_by, ascending, descending}
use logryph.Assert.{check}
use logryph.Json.{Value, object}
use logryph.Event.{Event, Time, Map, zero_time}
use logryph.Externals.{Externals}
use logryph.Store.{Db, Row, call_driver, check_rows, close_rows, max_event_rows, no_rows, rows_of}

-- The columns that every query copies.
abbrev pub scan_plain : Row → Event
scan_plain r = record {
  id = r.id;
  run_id = r.run_id;
  seq_index = r.seq_index;
  timestamp = zero_time;
  actor = r.actor;
  event_type = r.event_type;
  method = r.method;
  params = none;
  response = none;
  task_id = r.task_id;
  task_state = r.task_state;
  parent_id = r.parent_id;
  policy_id = r.policy_id;
  risk_level = r.risk_level;
  prev_hash = r.prev_hash;
  current_hash = r.current_hash;
  signature = r.signature;
  was_blocked = false;
}

-- `json.Unmarshal` into a map variable: null leaves it nil, and so does a failure, which is logged.
unfoldable pub map_of : Option Value → Map
map_of (some (object m)) = some m
map_of _ = none

unfoldable pub time_of : Option Time → Time
time_of none = zero_time
time_of (some t) = t

module _ (x : Externals) where
  open x use {strict, parse_time, unmarshal}

  -- `if params != "" && params != "null" { … }`
  unfoldable pub parse_map : String → Map
  unfolding map_of
  parse_map s = if is_set s && not (s == "null") then map_of (unmarshal s) else none

  unfoldable pub scan_event : Row → Event
  unfolding parse_map time_of
  scan_event r = record (scan_plain r) {
    timestamp = time_of (parse_time r.timestamp);
    params = parse_map r.params;
    response = parse_map r.response;
  }

  -- `ORDER BY seq_index ASC`, at most `max_event_rows` rows
  unfoldable pub get_all_events : String → Exec Db (List Event)
  unfolding call_driver check_rows close_rows
  get_all_events run_id = do
    lift (check strict (is_set run_id) "runID must not be empty")
    with_context_in "querying events" call_driver
    rows ← gets (rows_of run_id)
    check_rows strict "get all events rows error"
    close_rows "closing events rows"
    pure (map scan_event (take max_event_rows (sort_by (ascending (λ r. r.seq_index)) rows)))

-- The query of risky events copies neither the task nor its state.
abbrev scan_risky : Row → Event
scan_risky r = record (scan_plain r) { task_id = ""; task_state = "" }

is_risky : Row → Bool
is_risky r = (r.risk_level == "high") || (r.risk_level == "critical")

later_text : Row → Row → Bool
later_text a b = is_le (Str.compare b.timestamp a.timestamp)

module _ (strict : Bool) where
  -- `ORDER BY timestamp DESC`, which compares texts
  unfoldable pub get_risk_events : Exec Db (List Event)
  unfolding call_driver check_rows close_rows is_risky later_text
  get_risk_events = do
    call_driver
    rows ← gets (λ db. select is_risky db.events)
    check_rows strict "risk events rows error"
    close_rows "closing risk events rows"
    pure (map scan_risky (take max_event_rows (sort_by later_text rows)))

  -- `ORDER BY seq_index DESC LIMIT ?`
  unfoldable pub get_recent_events : String → ℕ → Exec Db (List Event)
  unfolding call_driver check_rows close_rows
  get_recent_events run_id limit = do
    lift (check strict (is_set run_id) "runID must not be empty")
    lift (check strict (ltb 0 limit) "limit must be positive")
    with_context_in "querying recent events" call_driver
    rows ← gets (rows_of run_id)
    check_rows strict "recent events rows error"
    close_rows "closing recent events rows"
    pure (
        map scan_plain
          (take max_event_rows (take limit (sort_by (descending (λ r. r.seq_index)) rows))))

  row_or_error : Option Row → Result Event
  row_or_error none = err (wrapped "querying event" no_rows)
  row_or_error (some r) = ok (scan_plain r)

  unfoldable pub get_event_by_id : String → Exec Db Event
  unfolding call_driver row_or_error
  get_event_by_id event_id = do
    lift (check strict (is_set event_id) "eventID must not be empty")
    with_context_in "querying event" call_driver
    rows ← gets (λ db. select (λ r. r.id == event_id) db.events)
    lift (row_or_error (head? rows))

  unfoldable pub get_events_by_task_id : String → Exec Db (List Event)
  unfolding call_driver check_rows close_rows
  get_events_by_task_id task_id = do
    lift (check strict (is_set task_id) "taskID must not be empty")
    with_context_in "querying task events" call_driver
    rows ← gets (λ db. select (λ r. r.task_id == task_id) db.events)
    check_rows strict "task events rows error"
    close_rows "closing task events rows"
    pure (map scan_plain (take max_event_rows (sort_by (ascending (λ r. r.seq_index)) rows)))

  -- The first rows of each task that is set.
  distinct_tasks : List Row → List String
  distinct_tasks [] = []
  distinct_tasks (r ∷ rs) =
      let rest = distinct_tasks rs in
      if is_set r.task_id then r.task_id ∷ select (λ t. not (t == r.task_id)) rest else rest

  -- `SELECT DISTINCT task_id`, whose order SQL leaves open: that of the first rows here.
  unfoldable pub get_unique_tasks : Exec Db (List String)
  unfolding call_driver check_rows close_rows distinct_tasks
  get_unique_tasks = do
    call_driver
    rows ← gets (λ db. db.events)
    check_rows strict "unique tasks rows error"
    close_rows "closing unique tasks rows"
    pure (take max_event_rows (distinct_tasks rows))
