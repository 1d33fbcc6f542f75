-- ===== src/Processor/Success.antt =====
-- internal/ledger/processor.go and internal/ledger/store: `persistEvent` on the SQLite ledger, when
-- no call of the driver fails.
use mathlib.Core.List.{head?}
use logryph.Base.{
  ℕ, ◌<◌, ◌^◌, ◌≡◌, refl, sym, ap, ◌∙◌, subst, true, false, none, some, List, [], ◌∷◌, ◌++◌, String,
  is_set, length,
}
use logryph.Base.Result.{ok}
use logryph.Base.Sort.{sort_by, descending}
use logryph.Event.{Event, map_value}
use logryph.Externals.{Externals, JsonLaws, CryptoLaws}
use logryph.Crypto.{Signer, canonical_json}
use logryph.Pool.{EventPool}
use logryph.Repository.Laws.{IsSequential, IsStorable}
use logryph.Audit.Chain.{IsChain}
use logryph.Store.{Db, Run, Row, rows_of, has_id, last_or_empty}
use logryph.Store.Stats.{stats_of}
use logryph.Store.Sqlite.{sqlite, row_of}
use logryph.Store.Read.{scan_event}
use logryph.Store.Added.{view}
use logryph.Store.Rows.{index_of, length-map, IsSequential-IsRising, descending-IsLast}
use logryph.Store.Clear.{clear_db, get_run_stats-clear, get_last_event-clear, store_event-clear}
use logryph.Processor.{
  EventProcessor, payload, assign_in_run, assign_sequence_and_prev_hash, hash_and_sign_event,
  persist_event, get_stats, run_stats_or_assertion,
}
use logryph.Base.Post.{Post}
use logryph.Store.Lawful.{sqlite-IsLedger}
use logryph.Processor.Persist.{HasGrown, KeptOrGrown, persist_event-HasGrown}
use logryph.Processor.Accepted.{chosen, signed}
use logryph.Processor.Place.{IsReady}

module _ (x : Externals) where
  -- The two maps have JSON texts, and the content to hash has a canonical form wherever the event
  -- is placed.
  pub record IsEncodable (run : String) (e : Event) : Type 0 where
    pub params_text : String
    pub params_marshal : x.marshal (map_value e.params) ≡ some params_text
    pub response_text : String
    pub response_marshal : x.marshal (map_value e.response) ≡ some response_text
    pub canonical :
        (n : ℕ) (prev : String)
        → (c : String) × (canonical_json x
              (payload x (record e { seq_index = n; run_id = run; prev_hash = prev }))
            ≡ ok c)

  module _ (json : JsonLaws x) (crypto : CryptoLaws x) (signer : Signer) (run : String)
      (keys : signer.public_key ≡ x.public_of signer.private_key) (run_set : is_set run ≡ true)
      (runs : List Run) (rows : List Row) (clock : ℕ) where
    abbrev db : Db
    db = clear_db runs rows clock

    -- A processor of the run on a database whose driver does not fail.
    abbrev on_db : List (String × String) → EventPool → ℕ → Db → EventProcessor Db
    on_db states pool ticks d = record {
      db = d;
      signer = signer;
      run_id = run;
      task_states = states;
      pool = pool;
      ticks = ticks;
    }

    persist_event-clear :
        (states : List (String × String)) (pool : EventPool) (ticks : ℕ) (e : Event)
        → IsChain x signer none (view x db run)
        → IsSequential 0 (view x db run)
        → length (view x db run) < 2 ^ 64
        → IsEncodable run e
        → is_set e.id ≡ true
        → has_id e.id rows ≡ false
        → (g : Event) × (d : Db) × (persist_event x (sqlite x) e (on_db states pool ticks db)
            ≡ (ok g, on_db states pool ticks d))
          × (d.faults ≡ [])
    unfolding persist_event assign_sequence_and_prev_hash assign_in_run get_stats
        run_stats_or_assertion hash_and_sign_event stats_of
    persist_event-clear states pool ticks e c s small enc id_set free =
        let last = last_or_empty (head? (sort_by (descending index_of) (rows_of run db))) in
        let is_last =
          descending-IsLast x (rows_of run db) (IsSequential-IsRising x 0 (rows_of run db) s) in
        let (prev, chose, good) =
          chosen x crypto (sqlite x) signer (view x db run) last c s small is_last in
        let n = length (rows_of run db) in
        let same_length = length-map (scan_event x) (rows_of run db) in
        let f = record e { seq_index = n; run_id = run; prev_hash = prev } in
        let (canon, canonical) = enc.canonical n prev in
        let (h, sig, did_sign, hash_set, sig_set) =
          signed x crypto (sqlite x) signer f canon keys good canonical in
        let g = record f { current_hash = h; signature = sig } in
        let stores =
          store_event-clear x runs rows clock g enc.params_text enc.response_text enc.params_marshal
            enc.response_marshal
            (record {
              id_set = id_set;
              run_set = run_set;
              hash_set = hash_set;
              signature_set = sig_set;
              id_free = free;
            }) in
        (
          g,
          clear_db runs (rows ++ row_of x g enc.params_text enc.response_text ∷ []) clock,
          rw
              (
                get_run_stats-clear runs rows clock x.strict run run_set,
                get_last_event-clear runs rows clock x.strict run run_set,
                sym same_length,
                chose,
                same_length,
                did_sign,
                stores,
              )
              refl,
          refl,
        )

  module _ (json : JsonLaws x) (crypto : CryptoLaws x) (signer : Signer) (run : String)
      (keys : signer.public_key ≡ x.public_of signer.private_key) (run_set : is_set run ≡ true)
      (es : List Event) where
    abbrev pub Grown : Event → EventProcessor Db → Type 0
    Grown = HasGrown x (sqlite x) (view x) signer run (sqlite-IsLedger x json) crypto keys es

    -- The processor with what is known of three of its parts put in.
    as_given :
        (p : EventProcessor Db)
        → p.run_id ≡ run
        → p.signer ≡ signer
        → p.db.faults ≡ []
        → p
          ≡ on_db json crypto signer run keys run_set p.db.runs p.db.events p.db.clock p.task_states
              p.pool p.ticks
              (clear_db p.db.runs p.db.events p.db.clock)
    as_given p r s f = λ i. record {
      db = record (p.db) { faults = f i };
      signer = s i;
      run_id = r i;
      task_states = p.task_states;
      pool = p.pool;
      ticks = p.ticks;
    }

    -- On the SQLite ledger with no driver fault to come, a ready processor of a run of fewer
    -- than 2^64 events, whose identifier is set and whose signer's keys belong together,
    -- persists an event: `persistEvent` returns the signed event and the run is sound with that
    -- one more event behind the others, and still no fault is to come. The event can be read
    -- back, its two maps have JSON texts and its content a canonical form wherever it is
    -- placed, and its identifier is set and not among the rows.
    pub persist_event-stores :
        (e : Event) (p : EventProcessor Db)
        → IsReady x (sqlite x) (view x) signer run es p
        → p.db.faults ≡ []
        → length es < 2 ^ 64
        → IsStorable x e
        → IsEncodable run e
        → is_set e.id ≡ true
        → has_id e.id p.db.events ≡ false
        → (g : Event) × (q : EventProcessor Db) × (persist_event x (sqlite x) e p ≡ (ok g, q))
          × (q.db.faults ≡ [])
          × Grown g q
    persist_event-stores e p h quiet small st enc id_set free =
        let held : length (view x p.db run) < 2 ^ 64 =
          subst (λ l. length l < 2 ^ 64) (sym h.holds) small in
        let (g, d, runs, still) =
          persist_event-clear json crypto signer run keys run_set p.db.runs p.db.events p.db.clock
            p.task_states p.pool p.ticks e h.sound.chain h.sound.sequential held enc id_set free in
        let q =
          on_db json crypto signer run keys run_set p.db.runs p.db.events p.db.clock p.task_states
            p.pool p.ticks d in
        let result : persist_event x (sqlite x) e p ≡ (ok g, q) =
          ap (persist_event x (sqlite x) e) (as_given p h.own_run h.own_signer quiet) ∙ runs in
        (
          g,
          q,
          result,
          still,
          subst
              (Post Grown (
                KeptOrGrown x (sqlite x) (view x) signer run (sqlite-IsLedger x json) crypto keys
                  es))
              result
              (persist_event-HasGrown x (sqlite x) (view x) signer run (sqlite-IsLedger x json)
                crypto keys es e p st h),
        )
