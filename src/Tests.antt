-- ===== src/Tests.antt =====
-- Concrete values on which the theorems of the ledger apply.
mod Parts
mod System
mod Ledger
mod Proxy
mod Keys
mod Tools
mod Begin
mod Listing
use mathlib.Core.List.{map}
use logryph.Base.{
  ℕ, ◌≤◌, ◌≡◌, ◌≢◌, ◌⊎◌, ◌↔◌, refl, Bool, true, false, Option, none, some, List, [], ◌∷◌, ◌++◌,
  String, is_set, count_char, arith, length, min, last?,
}
use logryph.Base.Result.{Result, ok, err, panic}
use logryph.Base.Post.{Post, Ends}
use logryph.Event.{Event}
use logryph.Crypto.{Signer, calculate_event_hash, canonical_json, sign_hash, verify_signature}
use logryph.Crypto.Hex.{hex_encode, hex_decode}
use logryph.Samples.{
  externals, json_laws, crypto_laws, all-IsStorable, signer, empty_db, two_events,
  two_events-IsValid, tool_call, finished_call,
}
use logryph.Store.{Db, max_event_rows, insert_event, get_last_event}
use logryph.Store.Stats.{get_run_stats}
use logryph.Store.Sqlite.{sqlite, store_event}
use logryph.Store.Added.{view}
use logryph.Store.Lawful.{sqlite-IsLedger}
use logryph.Repository.Laws.{IsLedger}
use logryph.Processor.{
  EventProcessor, new_event_processor, persist_event, process_event, completion_event,
  assign_sequence_and_prev_hash, hash_and_sign_event, track_task_state,
  create_task_completion_event, is_terminal_state,
}
use logryph.Json.{put, size}
use logryph.Base.Sort.{sort_by}
use logryph.Pool.{get_event, put_event}
use logryph.Processor.Place.{IsReady, IsSound}
use logryph.Processor.Persist.{HasGrown, KeptOrGrown, persist_event-HasGrown}
use logryph.Processor.Run.{Extends, process_event-Extends}
use logryph.Ring.{Buffer, new, push, pop}
use logryph.Ring.Bounds.{IsValid}
use logryph.Ring.Refine.{contents}
use logryph.Worker.{Worker, backpressure_drop, drain, submit}
use logryph.Ring.Queue.{Call, answers}
use logryph.Ring.Bounds.{push-IsValid, pop-IsValid}
use logryph.Ring.Refine.{replies, replies_refine}
use logryph.Audit.{verify_event, verify_all, verify_chain, result_of, passed, VerificationResult}
use logryph.Audit.Chain.{IsAuthentic, IsChain, verify_event_iff, verify_all_iff}
use logryph.Audit.Stored.{verify_chain-passed}
use logryph.Crypto.{genesis_prev_hash, is_present}
use logryph.Crypto.Hex.{hex_decode-hex_encode}
use logryph.Crypto.Laws.{verify_signature-sign_hash}
use logryph.Pool.{EventPool, strip_monotonic}
use logryph.Store.{Row, call_driver, driver_fails, check_rows, close_rows, next_fault}
use logryph.Store.Read.{scan_event, get_all_events}
use logryph.Store.Sqlite.{row_of}
use logryph.Store.Readback.{row_of-Reads}
use logryph.Repository.Laws.{Reads}
use logryph.Worker.Drain.{drain-Emptied}
use logryph.Worker.Submit.{IsSubmitted, submit-drop}

abbrev pub processor : EventProcessor Db
processor =
    new_event_processor empty_db signer "r1"
      (record { free = []; choices = []; event_hits = 0; event_misses = 0 }) 0

pub ready : IsReady externals (sqlite externals) (view externals) signer "r1" [] processor
ready = record {
  sound = record { chain = tt; sequential = tt };
  holds = refl;
  own_run = refl;
  own_signer = refl;
}

laws : IsLedger externals (view externals) max_event_rows (sqlite externals)
laws = sqlite-IsLedger externals json_laws

persist_event-HasGrown_example :
    Post
      (HasGrown externals (sqlite externals) (view externals) signer "r1" laws crypto_laws refl [])
      (KeptOrGrown externals
        (sqlite externals)
        (view externals)
        signer
        "r1"
        laws
        crypto_laws
        refl
        [])
      (persist_event externals (sqlite externals) tool_call processor)
persist_event-HasGrown_example =
    persist_event-HasGrown externals (sqlite externals) (view externals) signer "r1" laws
      crypto_laws refl [] tool_call processor (all-IsStorable tool_call) ready

abbrev pub worker : Worker Db
worker = record {
  ring_buffer = two_events;
  core = processor;
  started = true;
  signal = true;
  signal_closed = false;
  backpressure_mode = backpressure_drop;
  is_unhealthy = false;
  processed_events = 0;
  dropped_events = 0;
  blocked_submits = 0;
  latency_sum_ns = 0;
  latency_count = 0;
  latency_buckets = 0 ∷ 0 ∷ 0 ∷ 0 ∷ 0 ∷ 0 ∷ 0 ∷ [];
  closing = false;
}

pub extends : Extends externals (sqlite externals) (view externals) signer "r1" [] processor
extends = record { clean = tt; more = []; ready = ready }

process_event-Extends_example :
    Post
      (λ _ q. Extends externals (sqlite externals) (view externals) signer "r1" [] q)
      (λ q. Extends externals (sqlite externals) (view externals) signer "r1" [] q)
      (process_event externals (sqlite externals) tool_call processor)
process_event-Extends_example =
    process_event-Extends externals (sqlite externals) (view externals) signer "r1" laws crypto_laws
      refl []
      (λ task state tick e c.
        all-IsStorable (completion_event externals (sqlite externals) task state tick e))
      tool_call processor (all-IsStorable tool_call) extends

drain-Emptied_example :
    Post
      (λ _ t.
        (t.ring_buffer.count ≡ 0)
        × Extends externals (sqlite externals) (view externals) signer "r1" [] t.core)
      (λ t. Extends externals (sqlite externals) (view externals) signer "r1" [] t.core)
      (drain externals (sqlite externals) (λ n. 5) 2 worker)
drain-Emptied_example =
    drain-Emptied externals (sqlite externals) (view externals) signer "r1" laws crypto_laws refl []
      (λ task state tick e c.
        all-IsStorable (completion_event externals (sqlite externals) task state tick e))
      (λ n. 5) 2 worker two_events-IsValid
      (unfold contents in (all-IsStorable tool_call, (all-IsStorable finished_call, tt)))
      (omega arith) extends

submit-drop_example :
    Post
      (λ _ t. IsSubmitted true tool_call (λ n w. w) worker t)
      (λ _. ⊥)
      (submit (λ n w. w) true tool_call worker)
submit-drop_example =
    submit-drop true tool_call (λ n w. w) worker two_events-IsValid refl two_events-IsValid refl

abbrev pub row : Row
row = record {
  id = "e1";
  run_id = "r1";
  seq_index = 0;
  timestamp = "2026-01-01T00:00:00Z";
  actor = "agent";
  event_type = "tool_call";
  method = "tools/list";
  params = "null";
  response = "null";
  task_id = "t1";
  task_state = "working";
  parent_id = "";
  policy_id = "";
  risk_level = "";
  prev_hash = genesis_prev_hash;
  current_hash = "4242424242424242424242424242424242424242424242424242424242424242";
  signature =
      "40404040404040404040404040404040404040404040404040404040404040404040404040404040404040404040404040404040404040404040404040404040";
}

abbrev one_event_db : Db
one_event_db = record { runs = []; events = row ∷ []; clock = 0; faults = [] }

abbrev pub event : Event
event = scan_event externals row

pub event-IsAuthentic : IsAuthentic externals signer event
unfolding scan_event calculate_event_hash canonical_json is_present count_char hex_encode hex_decode
    verify_signature
event-IsAuthentic = record { hashed = refl; signed = refl; hash_set = refl; signature_set = refl }

row_in_view : view externals one_event_db "r1" ≡ event ∷ []
row_in_view = refl

verify_event_iff_example :
    (verify_event externals event signer ≡ ok tt) ↔ IsAuthentic externals signer event
verify_event_iff_example = verify_event_iff externals signer event

verify_all_iff_example :
    ((r : VerificationResult) × (verify_all externals signer (event ∷ []) ≡ ok r)
      × (r.valid ≡ true))
    ↔ (((event ∷ []) ≢ []) × IsChain externals signer none (event ∷ []))
verify_all_iff_example = verify_all_iff externals signer (event ∷ []) (omega arith)

verify_chain-passed_example :
    (verify_chain externals (get_all_events externals) "r1" signer one_event_db).0
    ≡ ok (result_of (min max_event_rows (length (view externals one_event_db "r1"))) passed)
unfolding scan_event get_all_events sort_by call_driver driver_fails check_rows close_rows
    next_fault
verify_chain-passed_example =
    verify_chain-passed externals signer (sqlite externals) (view externals) "r1" laws one_event_db
      (event ∷ []) refl (omega arith) (refl, tt) (tt, event-IsAuthentic, tt) (λ e. cc) refl

sqlite-IsLedger_example : IsLedger externals (view externals) max_event_rows (sqlite externals)
sqlite-IsLedger_example = sqlite-IsLedger externals json_laws

row_of-Reads_example :
    Reads externals tool_call (scan_event externals (row_of externals tool_call "null" "null"))
row_of-Reads_example = row_of-Reads externals json_laws tool_call "null" "null" refl refl
