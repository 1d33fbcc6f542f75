-- ===== src/Tests/Listing.antt =====
-- Concrete values on which the theorem of `logyctl events` applies.
use logryph.Base.{◌≡◌, refl, [], ◌∷◌, List, true, arith}
use logryph.Base.Result.{ok}
use logryph.Base.Sort.{sort_by}
use logryph.Event.{Event}
use logryph.Json.{int}
use logryph.Store.{
  Db, Row, Run, call_driver, driver_fails, next_fault, check_rows, close_rows, get_run_id, close,
}
use logryph.Store.Read.{scan_plain, get_recent_events}
use logryph.Store.Sqlite.{sqlite}
use logryph.Samples.{externals}
use logryph.Logyctl.{Terminal}
use logryph.Logyctl.Reports.{events_command}
use logryph.Logyctl.Reported.{lines_backwards, events_command-backwards}
use logryph.Tests.Keys.{one_key}
use logryph.Tests.{row}

abbrev run : Run
run = record {
  id = "run-0001";
  agent_name = "Logryph-Agent";
  genesis_hash = "00";
  ledger_pub_key = "07";
  started_at = 0;
}

abbrev first_row : Row
first_row = record row { id = "event-01"; run_id = "run-0001" }

abbrev second_row : Row
second_row = record row { id = "event-02"; run_id = "run-0001"; seq_index = 1 }

abbrev db : Db
db = record { runs = run ∷ []; events = first_row ∷ second_row ∷ []; clock = 1; faults = [] }

abbrev terminal : Terminal Db
terminal = record { disk = one_key; db = db; printed = [] }

-- As the query gives them, the last event first
abbrev recent : List Event
recent = scan_plain second_row ∷ scan_plain first_row ∷ []

events_command-backwards_example : events_command true (sqlite externals) (ok tt) 10 terminal ≡ (
  ok tt,
  record terminal {
    printed =
        ("Recent Events (showing %d)\n", int 2 ∷ [])
        ∷ ("===========================\n", [])
        ∷ lines_backwards recent;
  },
)
unfolding sort_by call_driver driver_fails check_rows close_rows next_fault get_run_id
    get_recent_events close
events_command-backwards_example =
    events_command-backwards true (sqlite externals) 10 "run-0001" recent terminal refl refl refl
      (omega arith) (omega arith, (omega arith, tt))
