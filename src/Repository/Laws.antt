-- ===== src/Repository/Laws.antt =====
-- internal/ledger/interface.go: what the ledger may rely on in a storage. `view` is what a storage
-- holds of a run, oldest first.
use logryph.Base.{
  ℕ, suc, ◌≡◌, ◌≢◌, ◌⊎◌, true, false, Option, none, some, List, [], ◌∷◌, ◌++◌, String, ◌==◌, is_set,
  length, last?, take,
}
use logryph.Base.Post.{Post}
use logryph.Json.{object, Fields}
use logryph.Event.{Event, Map, Time}
use logryph.Externals.{Externals}
use logryph.Crypto.{calculate_event_hash}
use logryph.Audit.{payload}
use logryph.Repository.{EventRepository}

-- Indices count up from `n`.
abbrev pub IsSequential : ℕ → List Event → Type 0
IsSequential n [] = Unit
IsSequential n (e ∷ es) = (e.seq_index ≡ n) × IsSequential (suc n) es

-- The index and the hash of the last event, or 0 and the empty text.
abbrev pub IsLast : Option Event → ℕ × String → Type 0
IsLast none r = r ≡ (0, "")
IsLast (some e) r = r ≡ (e.seq_index, e.current_hash)

module _ (x : Externals) where
  -- A map whose JSON text is read back as a map of the same text.
  pub record ReadsBackAs (m : Fields) : Type 0 where
    pub written : String
    pub read : Fields
    pub marshals : x.marshal (object m) ≡ some written
    pub not_empty : is_set written ≡ true
    pub not_null : (written == "null") ≡ false
    pub unmarshals : x.unmarshal written ≡ some (object read)
    pub stable : x.marshal (object read) ≡ some written

  abbrev pub MapReadsBack : Map → Type 0
  MapReadsBack none = Unit
  MapReadsBack (some m) = ReadsBackAs m

  -- The columns that are stored as text lose nothing of the event's hash.
  pub record IsStorable (e : Event) : Type 0 where
    pub time_read : Time
    pub time_parses : x.parse_time (x.format_time e.timestamp) ≡ some time_read
    pub time_stable : x.format_time time_read ≡ x.format_time e.timestamp
    pub params_read : MapReadsBack e.params
    pub response_read : MapReadsBack e.response

  -- `f` is what is read of the stored event `e`.
  pub record Reads (e f : Event) : Type 0 where
    pub same_index : f.seq_index ≡ e.seq_index
    pub same_prev : f.prev_hash ≡ e.prev_hash
    pub same_hash : f.current_hash ≡ e.current_hash
    pub same_signature : f.signature ≡ e.signature
    pub same_digest :
        IsStorable e
        → calculate_event_hash x f.prev_hash (payload x f)
          ≡ calculate_event_hash x e.prev_hash (payload x e)

  module _ {S : Type 0} (view : S → String → List Event) where
    abbrev pub SameView : S → S → Type 0
    SameView s t = (run : String) → view t run ≡ view s run

    -- One more event, in its own run.
    pub record Appends (e : Event) (s t : S) : Type 0 where
      pub stored : Event
      pub reads : Reads e stored
      pub own_run : view t e.run_id ≡ view s e.run_id ++ stored ∷ []
      pub other_runs : (run : String) → run ≢ e.run_id → view t run ≡ view s run

    -- `limit` is how many events a query returns at most.
    pub record IsLedger (limit : ℕ) (repo : EventRepository S) : Type 0 where
      pub run_stats :
          (run : String) (s : S)
          → Post
              (λ stats t. SameView s t × (stats.total_events ≡ length (view s run)))
              (SameView s)
              (repo.get_run_stats run s)
      pub last_event :
          (run : String) (s : S)
          → IsSequential 0 (view s run)
          → Post
              (λ r t. SameView s t × IsLast (last? (view s run)) r)
              (SameView s)
              (repo.get_last_event run s)
      -- A failed call may have stored the event all the same.
      pub store :
          (e : Event) (s : S)
          → Post (λ _ t. Appends e s t) (λ t. SameView s t ⊎ Appends e s t) (repo.store_event e s)
      pub all_events :
          (run : String) (s : S)
          → IsSequential 0 (view s run)
          → Post
              (λ es t. SameView s t × (es ≡ take limit (view s run)))
              (SameView s)
              (repo.get_all_events run s)
      pub runs_apart :
          (id agent_name genesis_hash ledger_pub_key : String) (s : S)
          → Post
              (λ _ t. SameView s t)
              (SameView s)
              (repo.insert_run id agent_name genesis_hash ledger_pub_key s)
      pub known_runs : (s : S) → Post (λ _ t. SameView s t) (SameView s) (repo.has_runs s)
