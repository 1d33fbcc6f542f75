-- ===== src/Genesis/Begun.antt =====
-- internal/ledger/genesis.go: the run that a genesis event begins.
use logryph.Base.{
  ℕ, suc, ◌+◌, ◌≡◌, ◌⊎◌, inl, inr, refl, sym, ap, ◌∙◌, subst, Option, none, some, List, [], ◌∷◌,
  ◌++◌, String, length, last?,
}
use logryph.Base.Result.{
  Result, ok, err, panic, bind-eq-ok, with_context-eq-ok, ok_injective, with_context,
}
use logryph.Base.Exec.{with_context_in, continue, lift, pure, ◌>>◌}
use logryph.Base.Post.{Post, Ends, Post-bind, Ends-with_context, Ends-weaken}
use logryph.Event.{Event, Map}
use logryph.Externals.{Externals, CryptoLaws}
use logryph.Crypto.{Signer, genesis_prev_hash, calculate_event_hash, sign_hash, get_public_key}
use logryph.Pool.{EventPool, get_event, put_event}
use logryph.Repository.{EventRepository}
use logryph.Repository.Laws.{IsSequential, IsStorable, SameView, Appends, IsLedger}
use logryph.Audit.Chain.{IsAuthentic, IsChain, Follows}
use logryph.Processor.{EventProcessor, payload, in_db, take_event}
use logryph.Processor.Place.{IsSound, SameRest, Ends-in_db, authentic}
use logryph.Processor.Persist.{IsSound-Appends, IsStorable-kept}
use logryph.Genesis.{
  Anchor, genesis_event, sealed_genesis, store_genesis, begin_run, then_put, next_tick,
  create_genesis_block,
}

module _ (x : Externals) {S : Type 0} (repo : EventRepository S) (view : S → String → List Event)
    (signer : Signer) (run : String) {limit : ℕ} (laws : IsLedger x view limit repo)
    (crypto : CryptoLaws x) (keys : signer.public_key ≡ x.public_of signer.private_key) where
  -- A sealed event is authentic, and differs from the event only in its hash and signature.
  sealed_genesis-IsAuthentic :
      (e f : Event)
      → sealed_genesis x repo signer e ≡ ok f
      → IsAuthentic x signer f
        × (f ≡ record e { current_hash = f.current_hash; signature = f.signature })
  unfolding sealed_genesis
  sealed_genesis-IsAuthentic e f h =
      let (hash, p1, q1) =
        bind-eq-ok (with_context _ (calculate_event_hash x e.prev_hash (payload x e))) _ h in
      let (sig, p2, q2) = bind-eq-ok (with_context _ (sign_hash x signer hash)) _ q1 in
      subst
        (λ g.
          IsAuthentic x signer g
          × (g ≡ record e { current_hash = g.current_hash; signature = g.signature }))
        (ok_injective q2)
        (
          authentic x repo view crypto signer e hash sig keys (with_context-eq-ok _ _ p1)
              (with_context-eq-ok _ _ p2),
          refl,
        )

  abbrev Sound : EventProcessor S → Type 0
  Sound q = IsSound x repo view signer run q.db

  -- A sound run of one event, the first of its chain.
  pub record IsBegun (q : EventProcessor S) : Type 0 where
    pub first : Event
    pub alone : view q.db run ≡ first ∷ []
    pub sound : IsSound x repo view signer run q.db
    pub index : first.seq_index ≡ 0
    pub prev : first.prev_hash ≡ genesis_prev_hash
    pub own_signer : q.signer ≡ signer

  -- A run without events
  IsFresh : EventProcessor S → Type 0
  IsFresh p = (view p.db run ≡ []) × (p.signer ≡ signer)

  empty-IsSound : (s : S) → view s run ≡ [] → IsSound x repo view signer run s
  empty-IsSound s e = record {
    chain = subst (IsChain x signer none) (sym e) tt;
    sequential = subst (IsSequential 0) (sym e) tt;
  }

  appended-IsBegun :
      (f : Event) (p q : EventProcessor S)
      → IsStorable x f
      → IsAuthentic x signer f
      → f.run_id ≡ run
      → f.seq_index ≡ 0
      → f.prev_hash ≡ genesis_prev_hash
      → IsFresh p
      → SameRest x repo view p q
      → Appends x view f p.db q.db
      → IsBegun q
  unfolding IsFresh
  appended-IsBegun f p q st auth own index prev (empty, same) rest a =
      let none_yet : length (view p.db run) ≡ 0 = ap length empty in
      let (sound, longer) =
        IsSound-Appends x repo view signer run f p.db q.db st own (index ∙ sym none_yet)
          (subst (λ es. Follows (last? es) f) (sym empty) tt) auth (empty-IsSound p.db empty) a in
      record {
        first = a.stored;
        alone = longer ∙ ap (λ es. es ++ a.stored ∷ []) empty;
        sound = sound;
        index = a.reads.same_index ∙ index;
        prev = a.reads.same_prev ∙ prev;
        own_signer = rest.1 ∙ same;
      }

  -- A call on the storage that leaves the run's events
  kept-IsFresh :
      (p q : EventProcessor S)
      → IsFresh p
      → SameView x view p.db q.db × SameRest x repo view p q
      → IsFresh q
  unfolding IsFresh
  kept-IsFresh p q h k = (k.0 run ∙ h.0, k.1.1 ∙ h.1)

  fresh-Sound : (q : EventProcessor S) → IsFresh q → Sound q
  unfolding IsFresh
  fresh-Sound q h = empty-IsSound q.db h.0

  insert-IsFresh :
      (agent hash key : String) (p : EventProcessor S)
      → IsFresh p
      → Post
          (λ _ q. IsFresh q)
          Sound
          (with_context_in "inserting run" (in_db (repo.insert_run run agent hash key)) p)
  insert-IsFresh agent hash key p h =
      Ends-with_context (λ _ q. IsFresh q) Sound "inserting run"
        (repo.insert_run run agent hash key p.db).0 _
        (Ends-weaken _ _ _ _ (repo.insert_run run agent hash key p.db).0 _
          (λ u q k. kept-IsFresh p q h k) (λ q k. fresh-Sound q (kept-IsFresh p q h k))
          (Ends-in_db x repo view _ _ p _ _ (laws.runs_apart run agent hash key p.db)))

  store-IsBegun :
      (f : Event) (p : EventProcessor S)
      → IsStorable x f
      → IsAuthentic x signer f
      → f.run_id ≡ run
      → f.seq_index ≡ 0
      → f.prev_hash ≡ genesis_prev_hash
      → IsFresh p
      → Post
          (λ _ q. IsBegun q)
          Sound
          (with_context_in "inserting genesis event" (in_db (repo.store_event f)) p)
  store-IsBegun f p st auth own index prev h =
      Ends-with_context (λ _ q. IsBegun q) Sound "inserting genesis event"
        (repo.store_event f p.db).0 _
        (Ends-weaken _ _ _ _ (repo.store_event f p.db).0 _ (λ u q k. begun q k.1 k.0)
          (λ q k. after q k.1 k.0) (Ends-in_db x repo view _ _ p _ _ (laws.store f p.db)))
    where
      begun :
          (q : EventProcessor S) → SameRest x repo view p q → Appends x view f p.db q.db → IsBegun q
      begun q rest a = appended-IsBegun f p q st auth own index prev h rest a

      after :
          (q : EventProcessor S)
          → SameRest x repo view p q
          → SameView x view p.db q.db ⊎ Appends x view f p.db q.db
          → Sound q
      after q rest (inl v) = fresh-Sound q (kept-IsFresh p q h (v, rest))
      after q rest (inr a) = (begun q rest a).sound

  store_genesis-IsBegun :
      (agent : String) (e : Event) (p : EventProcessor S)
      → IsStorable x e
      → e.run_id ≡ run
      → e.seq_index ≡ 0
      → e.prev_hash ≡ genesis_prev_hash
      → IsFresh p
      → Post (λ r q. (r ≡ run) × IsBegun q) Sound (store_genesis x repo run agent e p)
  unfolding store_genesis IsFresh
  store_genesis-IsBegun agent e p st own index prev h =
      from_result (sealed_genesis x repo p.signer e) refl
    where
      from_result :
          (r : Result Event)
          → sealed_genesis x repo p.signer e ≡ r
          → Post
              (λ r' q. (r' ≡ run) × IsBegun q)
              Sound
              (continue r
                (λ sealed. do
                  with_context_in "inserting run" (
                      in_db
                        (repo.insert_run run agent sealed.current_hash (get_public_key p.signer)))
                  with_context_in "inserting genesis event" (in_db (repo.store_event sealed))
                  pure run)
                p)
      from_result (ok f) k =
          let (auth, same) =
            sealed_genesis-IsAuthentic e f (subst (λ s. sealed_genesis x repo s e ≡ ok f) h.1 k) in
          Post-bind (λ _ q. IsFresh q) Sound _
            (with_context_in "inserting run"
              (in_db (repo.insert_run run agent f.current_hash (get_public_key p.signer))))
            _ p (insert-IsFresh agent f.current_hash (get_public_key p.signer) p h)
            λ _ q hq _.
              Post-bind (λ _ t. IsBegun t) Sound _
                (with_context_in "inserting genesis event" (in_db (repo.store_event f))) _ q
                (store-IsBegun f q
                  (IsStorable-kept x e f (ap (λ k. k.timestamp) same) (ap (λ k. k.params) same)
                    (ap (λ k. k.response) same) st)
                  auth (ap (λ k. k.run_id) same ∙ own) (ap (λ k. k.seq_index) same ∙ index)
                  (ap (λ k. k.prev_hash) same ∙ prev) hq)
                λ _ t ht _. (refl, ht)
      from_result (err why) k = fresh-Sound p h
      from_result (panic why) k = fresh-Sound p h

  begin_run-IsBegun :
      (m : Map) (agent : String) (e : Event) (p : EventProcessor S)
      → IsStorable x e
      → e.run_id ≡ run
      → e.seq_index ≡ 0
      → e.prev_hash ≡ genesis_prev_hash
      → IsFresh p
      → Post (λ r q. (r ≡ run) × IsBegun q) Sound (begin_run x repo m run agent e p)
  unfolding begin_run
  begin_run-IsBegun none agent e p st own index prev h = fresh-Sound p h
  begin_run-IsBegun (some m) agent e p st own index prev h =
      store_genesis-IsBegun agent e p st own index prev h

  abbrev Outcome : Result String → EventProcessor S → Type 0
  Outcome r q = Ends (λ s t. (s ≡ run) × IsBegun t) Sound r q

  other_pool :
      (r : Result String) (q : EventProcessor S) (pool : EventPool)
      → Outcome r q
      → Outcome r (record q { pool = pool })
  other_pool (ok s) q pool h = (
    h.0,
    record {
      first = h.1.first;
      alone = h.1.alone;
      sound = h.1.sound;
      index = h.1.index;
      prev = h.1.prev;
      own_signer = h.1.own_signer;
    },
  )
  other_pool (err e) q pool h = h
  other_pool (panic e) q pool h = h

  outcome-Sound : (r : Result String) (q : EventProcessor S) → Outcome r q → Sound q
  outcome-Sound (ok s) q h = h.1.sound
  outcome-Sound (err e) q h = h
  outcome-Sound (panic e) q h = h

  then_put-Outcome :
      (e : Event) (r : Result String) (q : EventProcessor S)
      → Outcome r q
      → Post (λ s t. (s ≡ run) × IsBegun t) Sound (then_put x repo e r q)
  unfolding then_put
  then_put-Outcome e r q h = by_put (put_event x.strict (some e) q.pool).0 _
    where
      by_put :
          (u : Result (Unit {0})) (pool : EventPool)
          → Post
              (λ s t. (s ≡ run) × IsBegun t)
              Sound
              (continue u (λ _. lift r) (record q { pool = pool }))
      by_put (ok v) pool = other_pool r q pool h
      by_put (err why) pool = outcome-Sound r q h
      by_put (panic why) pool = outcome-Sound r q h

  -- Where the next identifier names a run without events, `CreateGenesisBlock` that returns gives
  -- that run one event, the first of a sound chain, and otherwise the run stays sound.
  pub create_genesis_block-IsBegun :
      (anchor : Option Anchor) (agent : String) (p : EventProcessor S)
      → p.signer ≡ signer
      → x.new_uuid p.ticks ≡ run
      → view p.db run ≡ []
      → IsStorable x
          (genesis_event x repo anchor agent p.signer run (suc (p.ticks)) (get_event p.pool).0)
      → Post (λ r q. (r ≡ run) × IsBegun q) Sound (create_genesis_block x repo anchor agent p)
  unfolding create_genesis_block next_tick take_event genesis_event IsFresh
  create_genesis_block-IsBegun anchor agent p own named empty st = rw named (
      then_put-Outcome event (begin_run x repo pooled.params run agent event taken).0
        (begin_run x repo pooled.params run agent event taken).1
        (begin_run-IsBegun pooled.params agent event taken st refl refl refl (empty, own)))
    where
      pooled : Event
      pooled = (get_event p.pool).0

      event : Event
      event = genesis_event x repo anchor agent p.signer run (suc (p.ticks)) pooled

      taken : EventProcessor S
      taken = record p { pool = (get_event p.pool).1; ticks = p.ticks + 1 + 1 }
