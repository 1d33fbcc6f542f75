-- ===== src/Genesis.antt =====
-- internal/ledger/genesis.go: the first event of a run. The run's identifiers and times, the pool
-- and the signer are those of the processor that is made for the run afterwards.
pub mod Begun
pub mod Kept
use logryph.Base.{ℕ, suc, ◌+◌, false, Option, none, some, String}
use logryph.Base.Result
use logryph.Base.Result.{message, Result, ok, err, panic}
use logryph.Base.Exec.{Exec, pure, lift, gets, with_context_in, ◌>>=◌, ◌>>◌}
use logryph.Json.{text, uint64, opaque, Fields, put}
use logryph.Event.{Event, Map}
use logryph.Externals.{Externals}
use logryph.Crypto.{Signer, genesis_prev_hash, calculate_event_hash, sign_hash, get_public_key}
use logryph.Pool.{put_event}
use logryph.Repository.{EventRepository}
use logryph.Processor.{EventProcessor, in_db, in_pool, payload, take_event}

-- What `FetchBitcoinAnchor` returns, if it does.
pub record Anchor : Type 0 where
  pub source : String
  pub block_height : ℕ
  pub block_hash : String
  pub timestamp : ℕ

unfoldable pub with_anchor : Option Anchor → Fields → Fields
with_anchor none m = m
with_anchor (some a) m = put "anchor_time" (opaque a.timestamp) (
    put "anchor_hash" (text a.block_hash)
      (put "anchor_height" (uint64 a.block_height) (put "anchor_source" (text a.source) m)))

module _ (x : Externals) {S : Type 0} (repo : EventRepository S) where
  open x use {strict, new_uuid, now}

  -- A nil map stays nil, see `begin_run`.
  genesis_params : Option Anchor → String → Signer → Map → Map
  unfolding with_anchor
  genesis_params anchor agent_name signer none = none
  genesis_params anchor agent_name signer (some m) = some (
      with_anchor anchor (
        put "version" (text "1.0.0")
          (put "agent_name" (text agent_name) (put "public_key" (text (get_public_key signer)) m))))

  -- The event, over one from the pool, whose id is the identifier after the run's.
  unfoldable pub genesis_event : Option Anchor → String → Signer → String → ℕ → Event → Event
  unfolding genesis_params
  genesis_event anchor agent_name signer run_id tick event = record event {
    id = new_uuid tick;
    run_id = run_id;
    seq_index = 0;
    timestamp = now tick;
    actor = "system";
    event_type = "genesis";
    method = "logryph:init";
    params = genesis_params anchor agent_name signer event.params;
    prev_hash = genesis_prev_hash;
    was_blocked = false;
  }

  unfoldable pub sealed_genesis : Signer → Event → Result Event
  sealed_genesis signer event =
      Result.◌>>=◌
        (Result.with_context "calculating genesis hash"
          (calculate_event_hash x event.prev_hash (payload x event)))
        λ current_hash.
          Result.◌>>=◌
            (Result.with_context "signing genesis hash" (sign_hash x signer current_hash))
            λ signature. ok (record event { current_hash = current_hash; signature = signature })

  -- From the hash on
  unfoldable pub store_genesis : String → String → Event → Exec (EventProcessor S) String
  unfolding sealed_genesis
  store_genesis run_id agent_name event = do
    signer ← gets (λ p. p.signer)
    sealed ← lift (sealed_genesis signer event)
    with_context_in "inserting run"
        (in_db (repo.insert_run run_id agent_name sealed.current_hash (get_public_key signer)))
    with_context_in "inserting genesis event" (in_db (repo.store_event sealed))
    pure run_id

  -- An assignment to a nil Params map panics.
  unfoldable pub begin_run : Map → String → String → Event → Exec (EventProcessor S) String
  unfolding store_genesis
  begin_run none run_id agent_name event = lift (panic (message "assignment to entry in nil map"))
  begin_run (some m) run_id agent_name event = store_genesis run_id agent_name event

  -- The deferred `PutEvent` runs whatever the result is.
  unfoldable pub then_put : Event → Result String → Exec (EventProcessor S) String
  then_put event r = do in_pool (put_event strict (some event)); lift r

  unfoldable pub next_tick : Exec (EventProcessor S) (Unit {0})
  next_tick p = (ok tt, record p { ticks = p.ticks + 1 })

  -- `CreateGenesisBlock`; the run's identifier is the next one.
  unfoldable pub create_genesis_block : Option Anchor → String → Exec (EventProcessor S) String
  unfolding genesis_event begin_run then_put next_tick
  create_genesis_block anchor agent_name = do
    tick ← gets (λ p. p.ticks)
    next_tick
    signer ← gets (λ p. p.signer)
    pooled ← take_event
    let run_id = new_uuid tick
    let event = genesis_event anchor agent_name signer run_id (suc tick) pooled
    λ p. let (r, p') = begin_run pooled.params run_id agent_name event p in then_put event r p'
