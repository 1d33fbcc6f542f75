-- ===== src/Genesis/Kept.antt =====
-- internal/ledger/genesis.go: the pool and the signer behind `CreateGenesisBlock`.
use logryph.Base.{suc, ◌+◌, ◌≡◌, refl, sym, ◌∙◌, subst, Option, none, some, String}
use logryph.Base.Result.{Result, ok, err, panic}
use logryph.Base.Exec.{with_context_in, continue, lift}
use logryph.Base.Post.{Ends-any}
use logryph.Event.{Event, Map}
use logryph.Externals.{Externals}
use logryph.Crypto.{get_public_key}
use logryph.Pool.{get_event, put_event}
use logryph.Repository.{EventRepository}
use logryph.Pool.Clean.{AllClean, get_event-IsClean, put_event-AllClean}
use logryph.Processor.Pooled.{SameTools, Leaves, then-Leaves, in_db-Leaves, lift-Leaves}
use logryph.Processor.{EventProcessor, in_db, take_event}
use logryph.Genesis.{
  Anchor, genesis_event, sealed_genesis, store_genesis, begin_run, then_put, next_tick,
  create_genesis_block,
}

module _ (x : Externals) {S : Type 0} (repo : EventRepository S) where
  store_genesis-Leaves :
      (run agent : String) (e : Event) → Leaves x repo (store_genesis x repo run agent e)
  unfolding store_genesis
  store_genesis-Leaves run agent e p =
      then-Leaves x repo (lift (sealed_genesis x repo p.signer e)) _
        (lift-Leaves x repo (sealed_genesis x repo p.signer e))
        (λ f.
          let insert = repo.insert_run run agent f.current_hash (get_public_key p.signer) in
          then-Leaves x repo (in_db (λ s. with_context_in "inserting run" insert s)) _
            (in_db-Leaves x repo (λ s. with_context_in "inserting run" insert s))
            λ _.
              then-Leaves x repo
                (in_db (λ s. with_context_in "inserting genesis event" (repo.store_event f) s)) _
                (in_db-Leaves x repo
                  (λ s. with_context_in "inserting genesis event" (repo.store_event f) s))
                λ _ q. (refl, refl))
        p

  begin_run-SameTools :
      (m : Map) (run agent : String) (e : Event) (p : EventProcessor S)
      → SameTools x repo p (begin_run x repo m run agent e p).1
  unfolding begin_run
  begin_run-SameTools none run agent e p = (refl, refl)
  begin_run-SameTools (some m) run agent e p =
      Ends-any (SameTools x repo p) (store_genesis x repo run agent e p).0
        (store_genesis x repo run agent e p).1 (store_genesis-Leaves run agent e p)

  then_put-pool :
      (e : Event) (r : Result String) (q : EventProcessor S)
      → (then_put x repo e r q).1.pool ≡ (put_event x.strict (some e) q.pool).1
  unfolding then_put
  then_put-pool e r q = by_put (put_event x.strict (some e) q.pool).0
    where
      by_put :
          (u : Result (Unit {0}))
          → (continue u
              (λ _. lift r)
              (record q { pool = (put_event x.strict (some e) q.pool).1 })).1.pool
            ≡ (put_event x.strict (some e) q.pool).1
      by_put (ok v) = refl
      by_put (err why) = refl
      by_put (panic why) = refl

  then_put-signer :
      (e : Event) (r : Result String) (q : EventProcessor S)
      → (then_put x repo e r q).1.signer ≡ q.signer
  unfolding then_put
  then_put-signer e r q = by_put (put_event x.strict (some e) q.pool).0
    where
      by_put :
          (u : Result (Unit {0}))
          → (continue u
              (λ _. lift r)
              (record q { pool = (put_event x.strict (some e) q.pool).1 })).1.signer
            ≡ q.signer
      by_put (ok v) = refl
      by_put (err why) = refl
      by_put (panic why) = refl

  pub create_genesis_block-signer :
      (anchor : Option Anchor) (agent : String) (p : EventProcessor S)
      → (create_genesis_block x repo anchor agent p).1.signer ≡ p.signer
  unfolding create_genesis_block next_tick take_event
  create_genesis_block-signer anchor agent p =
      then_put-signer event (begin_run x repo pooled.params run agent event taken).0
        (begin_run x repo pooled.params run agent event taken).1
      ∙ (begin_run-SameTools pooled.params run agent event taken).1
    where
      pooled : Event
      pooled = (get_event p.pool).0

      run : String
      run = x.new_uuid p.ticks

      event : Event
      event = genesis_event x repo anchor agent p.signer run (suc (p.ticks)) pooled

      taken : EventProcessor S
      taken = record p { pool = (get_event p.pool).1; ticks = p.ticks + 1 + 1 }

  -- `CreateGenesisBlock` keeps a pool of clean events so, whatever it returns.
  pub create_genesis_block-AllClean :
      (anchor : Option Anchor) (agent : String) (p : EventProcessor S)
      → AllClean p.pool.free
      → AllClean ((create_genesis_block x repo anchor agent p).1.pool.free)
  unfolding create_genesis_block next_tick take_event
  create_genesis_block-AllClean anchor agent p h =
      subst (λ k. AllClean k.free)
        (sym (then_put-pool event (begin_run x repo pooled.params run agent event taken).0 begun))
        (put_event-AllClean x.strict (some event) begun.pool (
          subst (λ k. AllClean k.free)
            (sym ((begin_run-SameTools pooled.params run agent event taken).0))
            (get_event-IsClean p.pool h).1))
    where
      pooled : Event
      pooled = (get_event p.pool).0

      run : String
      run = x.new_uuid p.ticks

      event : Event
      event = genesis_event x repo anchor agent p.signer run (suc (p.ticks)) pooled

      taken : EventProcessor S
      taken = record p { pool = (get_event p.pool).1; ticks = p.ticks + 1 + 1 }

      begun : EventProcessor S
      begun = (begin_run x repo pooled.params run agent event taken).1
