-- ===== src/Tests/Ledger.antt =====
-- Concrete values on which the theorems of chains of events and of a ledger without faults apply.
use logryph.Base.{◌≡◌, ◌⊎◌, refl, false, some, none, [], ◌∷◌, count_char, arith}
use logryph.Base.Result.{Error, ok}
use logryph.Event.{Event}
use logryph.Crypto.{calculate_event_hash, canonical_json, is_present, verify_signature}
use logryph.Crypto.Hex.{hex_encode, hex_decode}
use logryph.Samples.{externals, json_laws, crypto_laws, all-IsStorable, signer, tool_call}
use logryph.Store.{Db, has_id}
use logryph.Store.Sqlite.{sqlite}
use logryph.Store.Read.{scan_event}
use logryph.Processor.{EventProcessor, payload, persist_event}
use logryph.Processor.Success.{IsEncodable, Grown, persist_event-stores}
use logryph.Audit.{
  verify_event, verify_events, verify_all, links, judge, result_of, chain_tampered,
  VerificationResult,
}
use logryph.Audit.Binding.{SomeCollide, AllSame, last_hash-AllSame}
use logryph.Audit.Fault.{FailsAt, verify_all-FailsAt}
use logryph.Tests.{processor, ready, event, event-IsAuthentic}

call-IsEncodable : IsEncodable externals "r1" tool_call
unfolding canonical_json payload
call-IsEncodable = record {
  params_text = "null";
  params_marshal = refl;
  response_text = "null";
  response_marshal = refl;
  canonical = λ n prev. ("{}", refl);
}

persist_event-stores_example :
    (g : Event) × (q : EventProcessor Db) × (persist_event externals
        (sqlite externals)
        tool_call
        processor
      ≡ (ok g, q))
    × (q.db.faults ≡ [])
    × Grown externals json_laws crypto_laws signer "r1" refl refl [] g q
unfolding has_id
persist_event-stores_example =
    persist_event-stores externals json_laws crypto_laws signer "r1" refl refl [] tool_call
      processor ready refl (omega arith) (all-IsStorable tool_call) call-IsEncodable refl refl

-- An event that does not name its predecessor's hash.
abbrev unlinked : Event
unlinked = record event { seq_index = 1 }

abbrev unlinked_result : VerificationResult
unlinked_result = record {
  valid = false;
  total_events = 2;
  error_message = some chain_tampered;
  failed_at_seq = 1;
}

unlinked_fails : verify_all externals signer (event ∷ unlinked ∷ []) ≡ ok unlinked_result
unfolding verify_all verify_events verify_event links judge result_of scan_event
    calculate_event_hash canonical_json is_present count_char hex_encode hex_decode verify_signature
unlinked_fails = refl

verify_all-FailsAt_example :
    (why : Error) × (unlinked_result.error_message ≡ some why)
    × FailsAt externals signer none (event ∷ unlinked ∷ []) why unlinked_result.failed_at_seq
verify_all-FailsAt_example =
    verify_all-FailsAt externals signer event (unlinked ∷ []) unlinked_result unlinked_fails refl

last_hash-AllSame_example :
    SomeCollide externals (event ∷ []) (event ∷ []) ⊎ AllSame externals (event ∷ []) (event ∷ [])
last_hash-AllSame_example =
    last_hash-AllSame externals crypto_laws signer signer event event [] []
      (tt, event-IsAuthentic, tt) (tt, event-IsAuthentic, tt) refl refl refl
