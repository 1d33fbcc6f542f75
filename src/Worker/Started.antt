-- ===== src/Worker/Started.antt =====
-- internal/ledger/worker.go: the worker that `Start` leaves.
use logryph.Base.{
  ℕ, suc, ◌+◌, ◌≡◌, refl, sym, ap, ◌∙◌, subst, Bool, true, false, Option, List, [], ◌∷◌, String,
  if◌then◌else◌, arith,
}
use logryph.Base.Result.{Result, ok}
use logryph.Base.Exec.{Exec, bind_in-eq-ok, with_context_in, with_context_in-eq-ok}
use logryph.Base.Post.{Post}
use logryph.Event.{Event}
use logryph.Externals.{Externals, Bytes, CryptoLaws}
use logryph.Crypto.{genesis_prev_hash}
use logryph.Crypto.Keys.{Disk}
use logryph.Genesis.{Anchor, create_genesis_block, genesis_event}
use logryph.Genesis.Begun.{IsBegun, create_genesis_block-IsBegun}
use logryph.Genesis.Kept.{create_genesis_block-AllClean, create_genesis_block-signer}
use logryph.Pool.{get_event}
use logryph.Repository.{EventRepository}
use logryph.Repository.Laws.{IsStorable, IsLedger}
use logryph.Ring.Bounds.{IsValid}
use logryph.Pool.Clean.{IsClean, AllClean}
use logryph.Processor.{EventProcessor, in_db, completion_event}
use logryph.Processor.Place.{IsSound}
use logryph.Processor.Run.{Extends}
use logryph.Worker.{Worker, in_core, start}
use logryph.Worker.Drain.{AllStorable}
use logryph.Worker.New.{IsFresh}
use logryph.Worker.System.{IsSafe, no_contents}

module _ (x : Externals) {S : Type 0} (repo : EventRepository S) (took : ℕ → ℕ) where
  -- `Start` changes the processor, but not its signer, and opens the worker.
  abbrev pub Starts : Worker S → Worker S → Type 0
  Starts w t =
      (t ≡ record w { core = t.core; started = true; closing = false })
      × (t.core.signer ≡ w.core.signer)

  -- Where only the processor changed
  abbrev SameButCore : Worker S → Worker S → Type 0
  SameButCore w t = record w { core = t.core } ≡ t

  in_core-same {ℓ} :
      {A : Type ℓ} (c : String) (m : Exec (EventProcessor S) A) (w t : Worker S) {r : Result A}
      → with_context_in c (in_core m) w ≡ (r, t)
      → SameButCore w t
  in_core-same c m w t h = subst (SameButCore w) (ap (λ o. o.1) h) refl

  in_core-signer {ℓ} :
      {A : Type ℓ} (c : String) (m : Exec (EventProcessor S) A) (w t : Worker S) {r : Result A}
      → ((p : EventProcessor S) → (m p).1.signer ≡ p.signer)
      → with_context_in c (in_core m) w ≡ (r, t)
      → t.core.signer ≡ w.core.signer
  in_core-signer c m w t keeps h = ap (λ o. o.1.core.signer) (sym h) ∙ keeps w.core

  pub start-Starts :
      (anchor : Option Anchor) (w t : Worker S) {u : Unit {0}}
      → start x repo took anchor w ≡ (ok u, t)
      → Starts w t
  unfolding start
  start-Starts anchor w t h =
      let (has_runs, w1, p1, q1) =
        bind_in-eq-ok (with_context_in "checking for existing runs" (in_core (in_db repo.has_runs)))
          _ w h in
      let (run, w2, p2, q2) = bind_in-eq-ok (find has_runs) _ w1 q1 in
      let same1 = in_core-same _ (in_db repo.has_runs) w w1 p1 in
      let same2 = by_runs has_runs w1 w2 p2 in
      let own : t ≡ record w2 { core = t.core; started = true; closing = false } =
        subst (λ k. k ≡ record w2 { core = k.core; started = true; closing = false })
          (ap (λ o. o.1) q2) refl in
      let opens = λ (v : Worker S). record v { core = t.core; started = true; closing = false } in
      (
        own ∙ sym (ap opens same2) ∙ sym (ap opens same1),
        ap (λ k. k.core.signer) (sym (ap (λ o. o.1) q2))
            ∙ by_runs_signer has_runs w1 w2 p2
            ∙ in_core-signer _ (in_db repo.has_runs) w w1 (λ c. refl) p1,
      )
    where
      find : Bool → Exec (Worker S) String
      find has_runs =
          if has_runs
          then with_context_in "loading run ID" (in_core (in_db repo.get_run_id))
          else with_context_in "creating genesis block"
              (in_core (create_genesis_block x repo anchor "Logryph-Agent"))

      by_runs_signer :
          (b : Bool) (v v' : Worker S) {r : Result String}
          → find b v ≡ (r, v')
          → v'.core.signer ≡ v.core.signer
      by_runs_signer true v v' e = in_core-signer _ (in_db repo.get_run_id) v v' (λ c. refl) e
      by_runs_signer false v v' e =
          in_core-signer _ (create_genesis_block x repo anchor "Logryph-Agent") v v'
            (create_genesis_block-signer x repo anchor "Logryph-Agent") e

      by_runs :
          (b : Bool) (v v' : Worker S) {r : Result String} → find b v ≡ (r, v') → SameButCore v v'
      by_runs true v v' e = in_core-same _ (in_db repo.get_run_id) v v' e
      by_runs false v v' e =
          in_core-same _ (create_genesis_block x repo anchor "Logryph-Agent") v v' e

module _ (x : Externals) {S : Type 0} (repo : EventRepository S) (view : S → String → List Event)
    (run : String) {limit : ℕ} (laws : IsLedger x view limit repo) (crypto : CryptoLaws x)
    (terminal : (task state : String) (tick : ℕ) (e : Event)
      → IsClean e
      → IsStorable x (completion_event x repo task state tick e))
    (took : ℕ → ℕ) (meanwhile : ℕ → Worker S → Worker S)
    (generate : ℕ → Option (Bytes × Bytes)) where
  -- A worker that begins the run, on a database without a run
  pub record BeginsRun (anchor : Option Anchor) (w : Worker S) (s : S) : Type 0 where
    pub no_runs : repo.has_runs w.core.db ≡ (ok false, s)
    pub pool_clean : AllClean w.core.pool.free
    pub unused : view s run ≡ []
    pub named : x.new_uuid w.core.ticks ≡ run
    pub storable : IsStorable x (
        genesis_event x repo anchor "Logryph-Agent" w.core.signer run
          (suc (w.core.ticks))
          (get_event w.core.pool).0)

  module _ (w : Worker S) (size : ℕ) (key_path : String) (d : Disk)
      (fresh : IsFresh x generate size key_path w d) where
    abbrev Begun : EventProcessor S → Type 0
    Begun = IsBegun x repo view w.core.signer run laws crypto fresh.keys

    -- The worker is ready for its run, which has one event, the first of its chain.
    pub record HasBegun (t : Worker S) : Type 0 where
      pub first : Event
      pub index : first.seq_index ≡ 0
      pub prev : first.prev_hash ≡ genesis_prev_hash
      pub alone : view t.core.db run ≡ first ∷ []
      pub running : t.started ≡ true
      pub safe :
          IsSafe x repo view w.core.signer run laws crypto fresh.keys
            (first ∷ [])
            terminal
            took
            meanwhile
            t

    -- What `Start` makes of the processor that begins the run
    Begun-HasBegun :
        (c : EventProcessor S) (t : Worker S)
        → Begun c
        → AllClean c.pool.free
        → t.core ≡ record c { run_id = run; task_states = [] }
        → Starts x repo took w t
        → HasBegun t
    Begun-HasBegun c t b clean own st =
        let ring : t.ring_buffer ≡ w.ring_buffer = ap (λ k. k.ring_buffer) (st.0) in
        let valid = subst IsValid (sym ring) fresh.valid in
        let none_queued : w.ring_buffer.count ≡ 0 =
          let none : w.processed_events + w.dropped_events + w.ring_buffer.count ≡ 0 =
            fresh.none_taken in
          omega arith in
        record {
          first = b.first;
          index = b.index;
          prev = b.prev;
          alone = ap (λ k. view k.db run) own ∙ b.alone;
          running = ap (λ k. k.started) (st.0);
          safe = record {
            valid = valid;
            storable =
                subst (AllStorable x)
                  (sym (no_contents valid (ap (λ k. k.count) ring ∙ none_queued))) tt;
            grown = subst (Extends x repo view w.core.signer run (b.first ∷ [])) (sym own) (record {
              clean = clean;
              more = [];
              ready = record {
                sound = b.sound;
                holds = b.alone;
                own_run = refl;
                own_signer = b.own_signer;
              };
            });
            drops = ap (λ k. k.backpressure_mode) (st.0) ∙ fresh.drops;
            closed_last =
                λ h. absurd (no (sym h ∙ ap (λ k. k.signal_closed) (st.0) ∙ fresh.open_channel));
          };
        }
      where
        no : true ≡ false → ⊥
        no h = cc

    -- Where a fresh worker of `NewWorker`, with a pool of clean events, starts on a lawful
    -- storage that says it has no runs, its next identifier names a run without events, its
    -- genesis event can be read back, and so can the terminal events that the code makes of
    -- clean pooled events, a `Start` that returns leaves a started worker that is safe for
    -- every later step, and whose run has exactly one event, with the index 0 and the hash of
    -- 64 zeros before it. The hash and the signatures are as the standard library documents
    -- them.
    pub start-HasBegun :
        (anchor : Option Anchor) (s : S) (t : Worker S) {u : Unit {0}}
        → BeginsRun anchor w s
        → start x repo took anchor w ≡ (ok u, t)
        → HasBegun t
    unfolding start
    start-HasBegun anchor s t b h =
        let (run', w2, p, q) = bind_in-eq-ok genesis _ with_db (rw b.no_runs at h) in
        let made =
          subst (Post (λ r c. (r ≡ run) × Begun c) (IsSoundIn))
            (ap (λ o. (o.0, o.1.core))
              (with_context_in-eq-ok "creating genesis block" (in_core create) with_db p))
            (create_genesis_block-IsBegun x repo view w.core.signer run laws crypto fresh.keys
              anchor "Logryph-Agent" with_db.core refl b.named b.unused b.storable) in
        let clean =
          subst (λ c. AllClean c.pool.free)
            (ap (λ o. o.1.core)
              (with_context_in-eq-ok "creating genesis block" (in_core create) with_db p))
            (create_genesis_block-AllClean x repo anchor "Logryph-Agent" with_db.core
              b.pool_clean) in
        Begun-HasBegun w2.core t made.1 clean
          (ap (λ k. k.core) (sym (ap (λ o. o.1) q))
            ∙ ap (λ r. record (w2.core) { run_id = r; task_states = [] }) made.0)
          (start-Starts x repo took anchor w t h)
      where
        with_db : Worker S
        with_db = record w { core = record (w.core) { db = s } }

        IsSoundIn : EventProcessor S → Type 0
        IsSoundIn c = IsSound x repo view w.core.signer run c.db

        create : Exec (EventProcessor S) String
        create = create_genesis_block x repo anchor "Logryph-Agent"

        genesis : Exec (Worker S) String
        genesis = with_context_in "creating genesis block" (in_core create)
