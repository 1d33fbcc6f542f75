-- ===== src/Audit.antt =====
-- internal/ledger/audit/verify.go: verification of a stored chain.
pub mod Anchors
pub mod Append
pub mod Binding
pub mod Chain
pub mod Confirmed
pub mod Fault
pub mod Fetch
pub mod Stored
use logryph.Base.{
  ℕ, zero, suc, ◌≡◌, Bool, true, false, not, Option, none, some, List, [], ◌∷◌, String, ◌==◌,
  is_set, if◌then◌else◌, leb, nat_eq, length,
}
use logryph.Base.Result
use logryph.Base.Result.{Error, message, wrapped, Result, ok, err, panic, guard, ◌>>=◌, ◌>>◌}
use logryph.Base.Exec
use logryph.Base.Exec.{Exec}
use logryph.Assert.{check}
use logryph.Json.{Value, text, uint64, object, Fields, end, field}
use logryph.Event.{Event, map_value}
use logryph.Externals.{Externals}
use logryph.Crypto.{Signer, calculate_event_hash, verify_signature}

abbrev pub chain_tampered : Error
chain_tampered = message "forensic integrity error: hash chain link broken"

abbrev pub invalid_signature : Error
invalid_signature = message "forensic integrity error: invalid ed25519 signature"

abbrev pub hash_mismatch : Error
hash_mismatch = message "forensic integrity error: hash mismatch (data tampered)"

abbrev pub no_events : Error
no_events = message "forensic integrity error: no events found in ledger"

-- The error message is the error itself here.
pub record VerificationResult : Type 0 where
  pub valid : Bool
  pub total_events : ℕ
  pub error_message : Option Error
  pub failed_at_seq : ℕ

-- What the loop finds: no fault, or the error and the index of the first event that has one.
pub data Verdict : Type 0 where
  passed : Verdict
  failed : Error → ℕ → Verdict

abbrev pub max_verify_events : ℕ
max_verify_events = 100000

-- `event.PrevHash != prevEvent.CurrentHash`, from the second event on
unfoldable pub links : Option Event → Event → Bool
links none event = true
links (some prev) event = event.prev_hash == prev.current_hash

-- What becomes of the loop after `VerifyEvent`.
unfoldable pub judge : Event → Result Verdict → Result (Unit {0}) → Result Verdict
judge event rest (ok u) = rest
judge event rest (err e) = ok (failed (wrapped "Event failed verification" e) event.seq_index)
judge event rest (panic e) = panic e

unfoldable pub result_of : ℕ → Verdict → VerificationResult
result_of n passed = record {
  valid = true;
  total_events = n;
  error_message = none;
  failed_at_seq = 0;
}
result_of n (failed e seq) = record {
  valid = false;
  total_events = n;
  error_message = some e;
  failed_at_seq = seq;
}

module _ (x : Externals) where
  open x use {strict, format_time}

  -- The map that `VerifyEvent` hashes again.
  abbrev pub fields_of : Event → Fields
  fields_of e = field "id" (text e.id) (
      field "run_id" (text e.run_id) (
        field "seq_index" (uint64 e.seq_index) (
          field "timestamp" (text (format_time e.timestamp)) (
            field "actor" (text e.actor) (
              field "event_type" (text e.event_type) (
                field "method" (text e.method) (
                  field "params" (map_value e.params) (
                    field "response" (map_value e.response) (
                      field "task_id" (text e.task_id) (
                        field "task_state" (text e.task_state) (
                          field "parent_id" (text e.parent_id) (
                            field "policy_id" (text e.policy_id)
                              (field "risk_level" (text e.risk_level) end)))))))))))))

  abbrev pub payload : Event → Value
  payload e = object (fields_of e)

  unfoldable pub verify_event : Event → Signer → Result (Unit {0})
  verify_event event signer = do
    check strict (is_set event.signature) "event signature must not be empty"
    check strict (is_set event.current_hash) "event current hash is missing"
    calculated_hash ←
        Result.with_context "failed to calculate hash"
          (calculate_event_hash x event.prev_hash (payload event))
    guard (calculated_hash == event.current_hash) hash_mismatch
    guard (verify_signature x signer calculated_hash event.signature) invalid_signature

  -- The loop, from the event behind `prev` on.
  unfoldable pub verify_events : Signer → Option Event → List Event → Result Verdict
  unfolding links judge
  verify_events signer prev [] = ok passed
  verify_events signer prev (event ∷ events) =
      let rest = verify_events signer (some event) events in
      if links prev event
      then judge event rest (verify_event event signer)
      else ok (failed chain_tampered event.seq_index)

  -- `VerifyChain` behind its query.
  unfoldable pub verify_all : Signer → List Event → Result VerificationResult
  unfolding result_of
  verify_all signer [] = ok (result_of 0 (failed no_events 0))
  verify_all signer (event ∷ events) = do
    check strict (leb (length (event ∷ events)) max_verify_events) "event count exceeds max"
    verdict ← verify_events signer none (event ∷ events)
    ok (result_of (length (event ∷ events)) verdict)

  -- `VerifyChain` of a reader and a signer that are there.
  unfoldable pub verify_chain {ℓ} :
      {S : Type ℓ} → (String → Exec S (List Event)) → String → Signer → Exec S VerificationResult
  verify_chain get_all_events run_id signer =
      Exec.◌>>=◌ (Exec.lift (check strict (is_set run_id) "runID must not be empty")) λ _.
        Exec.◌>>=◌ (Exec.with_context_in "failed to get events" (get_all_events run_id))
          λ events. Exec.lift (verify_all signer events)
