-- ===== src/Store/Sqlite.antt =====
-- `StoreEvent`, and the SQLite ledger as the repository that the worker is given.
use logryph.Base.{Option, none, some, String}
use logryph.Base.Result.{message, wrapped, Result, ok, err}
use logryph.Base.Exec.{Exec, lift, ◌>>=◌}
use logryph.Event.{Event, map_value}
use logryph.Externals.{Externals}
use logryph.Repository.{EventRepository}
use logryph.Store.{
  Db, Row, insert_event, insert_run, get_last_event, has_runs, get_run_id, get_run_info, close,
}
use logryph.Store.Stats.{get_run_stats, get_global_stats}
use logryph.Store.Read.{
  get_all_events, get_recent_events, get_event_by_id, get_events_by_task_id, get_risk_events,
}

unfoldable pub marshaled : String → Option String → Result String
marshaled context none = err (wrapped context (message "json: unsupported value"))
marshaled context (some s) = ok s

module _ (x : Externals) where
  open x use {strict, marshal, format_time}

  -- The row that an event becomes, with the texts of its two maps.
  unfoldable pub row_of : Event → String → String → Row
  row_of e params response = record {
    id = e.id;
    run_id = e.run_id;
    seq_index = e.seq_index;
    timestamp = format_time e.timestamp;
    actor = e.actor;
    event_type = e.event_type;
    method = e.method;
    params = params;
    response = response;
    task_id = e.task_id;
    task_state = e.task_state;
    parent_id = e.parent_id;
    policy_id = e.policy_id;
    risk_level = e.risk_level;
    prev_hash = e.prev_hash;
    current_hash = e.current_hash;
    signature = e.signature;
  }

  unfoldable pub store_event : Event → Exec Db (Unit {0})
  unfolding marshaled row_of
  store_event e = do
    params ← lift (marshaled "marshaling params" (marshal (map_value e.params)))
    response ← lift (marshaled "marshaling response" (marshal (map_value e.response)))
    insert_event strict (row_of e params response)

  abbrev pub sqlite : EventRepository Db
  sqlite = record {
    store_event = store_event;
    insert_run = insert_run strict;
    get_last_event = get_last_event strict;
    get_event_by_id = get_event_by_id strict;
    get_all_events = get_all_events x;
    get_recent_events = get_recent_events strict;
    get_events_by_task_id = get_events_by_task_id strict;
    get_risk_events = get_risk_events strict;
    has_runs = has_runs;
    get_run_id = get_run_id;
    get_run_info = get_run_info strict;
    get_run_stats = get_run_stats strict;
    get_global_stats = get_global_stats;
    close = close;
  }
