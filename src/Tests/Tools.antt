-- ===== src/Tests/Tools.antt =====
-- Concrete values on which the theorems of the anchors, the observer, the log, `logyctl verify` and
-- the main program apply.
use logryph.Base.{
  ℕ, ◌≡◌, ◌≢◌, ◌↔◌, ◌⊎◌, inl, inr, refl, ap, sym, ◌∙◌, true, false, Option, none, some, List, [],
  ◌∷◌, ◌++◌, String, ◌==◌, Bool-cases, replicate, arith,
}
use logryph.Base.Post.{Post}
use logryph.Base.Result.{Result, ok, ok_injective}
use mathlib.Core.Option.{some-injective}
use logryph.Observer.Engine.{
  Config, ObserverEngine, PolicyFile, load_config, new_observer_engine, or_path, watch, watch_tick,
}
use logryph.Store.{Db, Run}
use logryph.Store.Sqlite.{sqlite}
use logryph.Audit.Chain.{IsChain}
use logryph.Audit.Anchors.{AllLive}
use logryph.Tests.Keys.{generate, one_key, key_signer, key-laws, no_events_pool}
use logryph.Logyctl.{Terminal}
use logryph.Logyctl.Verify.{verify_command}
use logryph.Logyctl.Verified.{verify_command_iff}
use logryph.Logging
use logryph.Logging.{
  Logger, warn, info, log_with_level, log, should_log, refuse, decide, compare_level, level_value,
  or_else, once, value_of, or_info, print_entry, line_of,
}
use logryph.Logging.Levels.{Call, at_info, at_warn, lines, threshold, run_calls, run_calls-printed}
use logryph.Program.{Flags, Program, mode_of, answer, started, run_worker, main, graceful_shutdown}
use logryph.Program.Serving.{IsServing, main-IsServing}
use logryph.Program.Shutdown.{Completes, HasEnded, CanDrain, graceful_shutdown-HasEnded}
use logryph.Worker.{Worker, start, backpressure_block}
use logryph.Worker.New.{new_worker, fresh}
use logryph.Ring.{Buffer, new}
use logryph.Base.Sort.{sort_by}
use logryph.Base.Assoc.{lookup}
use logryph.Crypto.Hex.{hex_encode, hex_decode}
use logryph.Crypto.Keys.{new_signer, from_load, load_private_key, from_file, sized}
use logryph.Store.{
  call_driver, driver_fails, check_rows, close_rows, next_fault, get_run_id, has_runs, Row,
}
use logryph.Store.Read.{get_all_events, scan_event}
use logryph.Samples.{two_events-IsValid}
use logryph.Tests.{row, worker}
use logryph.Observer.Watch.{Scene, Reach, here, there, changes, ticks, written, same}
use logryph.Observer.Settled.{opened, IsLoaded, Settles, Reach-Settles}
use logryph.Json.{Value, text, uint64, float64, Fields, end, field, get}
use logryph.Event.{Event, empty_event}
use logryph.Samples.{externals}
use logryph.Genesis.{Anchor, with_anchor}
use logryph.Audit.Fetch.{
  Response, Web, fetch_bitcoin_anchor, check_status, read_height, read_hash, then_close, close_body,
}
use logryph.Audit.Confirmed.{IsRecorded, live, check_anchors-AllRecorded}
use logryph.Audit.Anchors.{check_anchors}

abbrev web : Web
web = record { block_url = λ n. "block"; decode_height = λ s. ok 7; scan_hash = λ s. ok s }

abbrev site : String → Result Response
site url = ok (record { status_code = 200; body = "h"; close_error = none })

abbrev anchor : Anchor
anchor = record { source = "bitcoin-mainnet"; block_height = 7; block_hash = "h"; timestamp = 1 }

abbrev as_json : Value → Value
as_json (uint64 n) = float64 n
as_json v = v

abbrev decoded : Fields → Fields
decoded end = end
decoded (field k v m) = field k (as_json v) (decoded m)

-- What is read under a key is what the map has under it, as JSON gives it back.
decoded-get :
    (m : Fields) (k : String) (v w : Value)
    → as_json v ≡ w
    → get k m ≡ some v
    → get k (decoded m) ≡ some w
unfolding get
decoded-get end k v w e h = cc
decoded-get (field j u m) k v w e h = elim (Bool-cases (j == k)) [
  | inl own ↦ rw own (ap some (ap as_json (some-injective u v (rw own at h)) ∙ e))
  | inr other ↦ rw other (decoded-get m k v w e (rw other at h))
]

abbrev recorded : Fields
recorded = decoded (with_anchor (some anchor) end)

abbrev anchor_call : Event
anchor_call = record empty_event { event_type = "anchor"; params = some recorded }

anchor-IsRecorded : IsRecorded web (λ n. n) (λ n. n) site 2 anchor_call
unfolding fetch_bitcoin_anchor check_status read_height read_hash then_close close_body
anchor-IsRecorded = record {
  anchor = anchor;
  before = site;
  time = 1;
  params = end;
  read = recorded;
  fetched = refl;
  same_page = refl;
  found = λ r e. ap (λ k. k.status_code) (sym (ok_injective e));
  exact = refl;
  decodes = record {
    text_kept = λ k s h. decoded-get (with_anchor (some anchor) end) k (text s) (text s) refl h;
    number_kept =
        λ k n h. decoded-get (with_anchor (some anchor) end) k (uint64 n) (float64 n) refl h;
  };
  own_params = refl;
  own_type = refl;
}

check_anchors-AllRecorded_example :
    (check_anchors (live web (λ n. n) (λ n. n) site 2) (λ n. n) (anchor_call ∷ []) 0).valid ≡ true
check_anchors-AllRecorded_example =
    check_anchors-AllRecorded web (λ n. n) (λ n. n) site 2 (anchor_call ∷ [])
      (inl anchor-IsRecorded, tt)

parse_yaml : String → Result Config
parse_yaml s = ok (record {
  version = s;
  defaults = record { retention_days = 30; signing_enabled = true; log_level = "info" };
  policies = [];
})

abbrev first_file : PolicyFile
first_file = record { mod_time = 5; content = "1" }

abbrev second_file : PolicyFile
second_file = record { mod_time = 9; content = "2" }

abbrev files : String → Option PolicyFile
files path = some first_file

abbrev observer : ObserverEngine
observer = record {
  config = record {
    version = "1";
    defaults = record { retention_days = 30; signing_enabled = true; log_level = "info" };
    policies = [];
  };
  config_path = "policy.yaml";
  stopped = false;
}

-- The file is written, and loaded at the next tick.
abbrev reached : Scene
reached = record {
  file = some second_file;
  clock = 9;
  watcher =
      watch_tick parse_yaml (some second_file) (some second_file)
        (watch (some first_file) observer);
  ticks_left = 1073741823;
}

file-reached : Reach parse_yaml (opened parse_yaml (some first_file) 5 observer) reached
file-reached =
    there (there here (changes (written second_file (omega arith))))
      (ticks 1073741823 (omega arith) same)

Reach-Settles_example :
    IsLoaded parse_yaml reached.watcher.engine × Settles parse_yaml reached.file reached.watcher
unfolding new_observer_engine load_config parse_yaml or_path
Reach-Settles_example =
    Reach-Settles parse_yaml true (λ s. ok s) files "policy.yaml" 5 observer refl (omega arith)
      file-reached

abbrev stored_run : Run
stored_run = record {
  id = "run-0001";
  agent_name = "Logryph-Agent";
  genesis_hash = "00";
  ledger_pub_key = "07";
  started_at = 0;
}

abbrev run_row : Row
run_row = record row { run_id = "run-0001" }

abbrev run_db : Db
run_db = record { runs = stored_run ∷ []; events = run_row ∷ []; clock = 1; faults = [] }

abbrev run_events : List Event
run_events = scan_event externals run_row ∷ []

abbrev terminal : Terminal Db
terminal = record { disk = one_key; db = run_db; printed = [] }

abbrev no_anchor : ℕ → Option Anchor
no_anchor n = none

verify_command_iff_example :
    ((verify_command externals generate no_anchor
        (λ n. n)
        (sqlite externals)
        (ok tt)
        true
        terminal).0
      ≡ ok tt)
    ↔ (((run_events ≢ []) × IsChain externals key_signer none run_events)
        × ((true ≡ true) ⊎ AllLive no_anchor (λ n. n) run_events))
unfolding get_all_events sort_by call_driver driver_fails check_rows close_rows next_fault
    get_run_id new_signer from_load load_private_key from_file sized lookup hex_encode hex_decode
verify_command_iff_example =
    verify_command_iff externals generate no_anchor (λ n. n) (sqlite externals) "run-0001"
      run_events run_db refl (omega arith) true key_signer terminal one_key refl refl (omega arith)

abbrev flags : Flags
flags = record {
  config_path = "policy.yaml";
  target = "http://localhost:8080";
  listen_port = 9999;
  backpressure = "block";
}

abbrev empty_ring : Buffer Event
empty_ring = record {
  slots = replicate 1000 empty_event;
  capacity = 1000;
  head = 0;
  tail = 0;
  count = 0;
}

abbrev new_one : Worker Db
new_one = fresh externals generate run_db no_events_pool 0 key_signer empty_ring

-- The program on a database that has a run
abbrev served : Program Db
served = record {
  watcher = record { engine = observer; last_mod = 5 };
  worker = record new_one {
    core = record (new_one.core) { run_id = "run-0001" };
    started = true;
    backpressure_mode = backpressure_block;
  };
  warnings = [];
}

main-IsServing_example :
    IsServing externals
      (sqlite externals)
      (λ n. 5)
      generate
      key-laws
      parse_yaml
      (λ s. ok s)
      files
      (λ s. ok tt)
      flags
      served
      one_key
unfolding main run_worker started answer start mode_of new_worker new has_runs get_run_id
    call_driver driver_fails next_fault sort_by new_observer_engine load_config or_path parse_yaml
    new_signer from_load load_private_key from_file sized lookup hex_encode hex_decode watch
main-IsServing_example =
    main-IsServing externals (sqlite externals) (λ n. 5) generate key-laws parse_yaml (λ s. ok s)
      files (λ s. ok tt) (ok run_db) files no_events_pool 0 none flags one_key one_key refl

abbrev program : Program Db
program = record {
  watcher = record { engine = observer; last_mod = 5 };
  worker = worker;
  warnings = [];
}

worker-CanDrain : CanDrain externals (sqlite externals) (λ n. 5) worker
worker-CanDrain = record {
  valid = two_events-IsValid;
  running = refl;
  allowed = omega arith;
  counted = omega arith;
}

graceful_shutdown-HasEnded_example :
    Completes
      (HasEnded externals (sqlite externals) (λ n. 5) program)
      (graceful_shutdown externals (sqlite externals) (λ n. 5) (ok tt) (ok tt) 10000000000 program)
graceful_shutdown-HasEnded_example =
    graceful_shutdown-HasEnded externals (sqlite externals) (λ n. 5) (ok tt) (ok tt) 10000000000
      program (omega arith) worker-CanDrain

abbrev no_fields : Logging.Fields
no_fields = record {
  request_id = "";
  task_id = "";
  method = "";
  policy_id = "";
  risk_level = "";
  event_id = "";
  run_id = "";
  component = "worker";
  error = "";
}

abbrev calls : List Call
calls =
    record { level = at_info; message = "genesis_created"; fields = no_fields }
    ∷ record { level = at_warn; message = "event_dropped"; fields = no_fields }
    ∷ []

abbrev logger : Logger
logger = record { level_once = false; min_level = 1; printed = [] }

run_calls-printed_example :
    Post
      (λ _ t.
        t.printed
        ≡ []
          ++ lines true "warn" "now"
              (λ e. some e.message)
              (threshold true "warn" "now" (λ e. some e.message) logger)
              calls)
      (λ _. ⊥)
      (run_calls true "warn" "now" (λ e. some e.message) calls logger)
run_calls-printed_example =
    run_calls-printed true "warn" "now" (λ e. some e.message) calls logger (omega arith)
      (
        record { not_empty = refl; short = omega arith },
        (record { not_empty = refl; short = omega arith }, tt),
      )

-- With the level `warn` only the second call is printed.
calls_printed :
    (run_calls true "warn" "now" (λ e. some e.message) calls logger).1.printed
    ≡ "event_dropped" ∷ []
unfolding run_calls warn info log_with_level log should_log refuse decide compare_level level_value
    or_else once value_of or_info print_entry line_of
calls_printed = refl
