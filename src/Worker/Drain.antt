-- ===== src/Worker/Drain.antt =====
-- internal/ledger/worker.go: the drain loop.
use logryph.Base.{
  ℕ, zero, suc, ◌<◌, ◌≤◌, ◌≡◌, refl, ap, ◌∙◌, sym, subst, Bool, true, false, some, List, [], ◌∷◌,
  if◌then◌else◌, nat_eq, arith, length, String,
}
use logryph.Base.Result.{Result, ok, err, panic}
use logryph.Base.Exec.{◌>>◌}
use logryph.Base.Post.{Post, Ends, Post-bind, Ends-weaken, Ends-lift}
use logryph.Event.{Event}
use logryph.Externals.{Externals, CryptoLaws}
use logryph.Crypto.{Signer}
use logryph.Repository.{EventRepository}
use logryph.Repository.Laws.{IsStorable, IsLedger}
use logryph.Ring.{Buffer, pop}
use logryph.Ring.Queue.{dequeue}
use logryph.Ring.Bounds.{IsValid, pop-IsValid}
use logryph.Ring.Refine.{contents, length-contents, pop_refines}
use logryph.Pool.Clean.{IsClean, put_event-AllClean}
use logryph.Processor.{EventProcessor, completion_event, process_event}
use logryph.Processor.Run.{Extends, process_event-Extends, Extends-moved}
use logryph.Pool.{put_event}
use logryph.Worker.{
  Worker, drain, handle_event, after_process, finish_event, after_pop, record_latency,
}

module _ (x : Externals) where
  -- The events of a list can be read back.
  abbrev pub AllStorable : List Event → Type 0
  AllStorable [] = Unit
  AllStorable (e ∷ es) = IsStorable x e × AllStorable es

module _ (x : Externals) {S : Type 0} (repo : EventRepository S) (view : S → String → List Event)
    (signer : Signer) (run : String) {limit : ℕ} (laws : IsLedger x view limit repo)
    (crypto : CryptoLaws x) (keys : signer.public_key ≡ x.public_of signer.private_key)
    (es : List Event)
    (terminal : (task state : String) (tick : ℕ) (e : Event)
      → IsClean e
      → IsStorable x (completion_event x repo task state tick e))
    (took : ℕ → ℕ) where
  -- The ledger holds `es` and perhaps more behind them, and the buffer is as in `b`.
  record Going (b : Buffer Event) (w : Worker S) : Type 0 where
    pub same_ring : w.ring_buffer ≡ b
    pub grown : Extends x repo view signer run es w.core

  abbrev pub Grown : Worker S → Type 0
  Grown w = Extends x repo view signer run es w.core

  finish-Going :
      (e : Event) (w : Worker S)
      → Grown w
      → Post (λ _ t. Going w.ring_buffer t) Grown (finish_event x repo took e w)
  unfolding finish_event record_latency
  finish-Going e w h =
      Ends-weaken (λ _ t. Going w.ring_buffer t) (λ _ t. Going w.ring_buffer t)
        (Going w.ring_buffer) Grown (put_event x.strict (some e) w.core.pool).0 _ (λ _ t k. k)
        (λ t k. k.grown)
        (Ends-lift (Going w.ring_buffer) (put_event x.strict (some e) w.core.pool).0 _ (record {
          same_ring = refl;
          grown =
              Extends-moved x repo view signer run es w.core
                (record (w.core) { pool = (put_event x.strict (some e) w.core.pool).1 }) refl refl
                refl (put_event-AllClean x.strict (some e) w.core.pool h.clean) h;
        }))

  handle_event-Going :
      (e : Event) (w : Worker S)
      → IsStorable x e
      → Extends x repo view signer run es w.core
      → Post
          (λ _ t. Going w.ring_buffer t)
          (λ t. Extends x repo view signer run es t.core)
          (handle_event x repo took e w)
  unfolding handle_event after_process
  handle_event-Going e w st h =
      process (process_event x repo e w.core).0 (process_event x repo e w.core).1
        (process_event-Extends x repo view signer run laws crypto keys es terminal e w.core st h)
    where
      process :
          (r : Result (Unit {0})) (c : EventProcessor S)
          → Ends
              (λ _ q. Extends x repo view signer run es q)
              (Extends x repo view signer run es)
              r
              c
          → Post
              (λ _ t. Going w.ring_buffer t)
              (λ t. Extends x repo view signer run es t.core)
              ((after_process x repo took r >> finish_event x repo took e) (record w { core = c }))
      process (ok u) c k = finish-Going e (record w { core = c }) k
      process (err f) c k = finish-Going e (record w { core = c; is_unhealthy = true }) k
      process (panic f) c k = k

  abbrev pub Emptied : Worker S → Type 0
  Emptied t = (t.ring_buffer.count ≡ 0) × Grown t

  popped :
      {b : Buffer Event} (e : Event) (q : List Event)
      → IsValid b
      → contents b ≡ e ∷ q
      → ((pop x.strict b).0 ≡ ok e) × (contents (pop x.strict b).1 ≡ q)
  popped {b} e q v h =
      let both = pop_refines x.strict v ∙ ap dequeue h in (ap (λ o. o.0) both, ap (λ o. o.1) both)

  -- What is left when the first event is handled is drained next.
  abbrev Drains : ℕ → Worker S → Type 0
  Drains n t =
      IsValid t.ring_buffer
      → AllStorable x (contents t.ring_buffer)
      → t.ring_buffer.count ≤ n
      → Grown t
      → Post (λ _ u. Emptied u) Grown (drain x repo took n t)

  abbrev after : ℕ → Worker S → Result Event → Result (Unit {0}) × Worker S
  after n w r =
      after_pop x repo took r (drain x repo took n)
        (record w { ring_buffer = (pop x.strict w.ring_buffer).1 })

  drain-popped :
      (n : ℕ) (w : Worker S) (q : List Event)
      → IsValid w.ring_buffer
      → contents w.ring_buffer ≡ q
      → AllStorable x q
      → 0 < w.ring_buffer.count
      → w.ring_buffer.count ≤ suc n
      → Grown w
      → ((t : Worker S) → Drains n t)
      → Post (λ _ u. Emptied u) Grown (after n w (pop x.strict w.ring_buffer).0)
  unfolding after_pop
  drain-popped n w [] v c st some_left le h rest =
      let none_left : 0 ≡ w.ring_buffer.count =
        sym (ap length c) ∙ length-contents w.ring_buffer v in
      let bad : ⊥ = omega arith in absurd bad
  drain-popped n w (e ∷ q) v c st some_left le h rest =
      let (first, left) = popped e q v c in
      let b : Buffer Event = (pop x.strict w.ring_buffer).1 in
      let b_valid : IsValid b = pop-IsValid x.strict v in
      let fewer : b.count ≡ length q = sym (length-contents b b_valid) ∙ ap length left in
      let all : suc (length q) ≡ w.ring_buffer.count =
        sym (ap length c) ∙ length-contents w.ring_buffer v in
      subst (λ r. Post (λ _ u. Emptied u) Grown (after n w r)) (sym first)
        (Post-bind (λ _ t. Going b t) Grown (λ _ u. Emptied u) (handle_event x repo took e)
          (λ _. drain x repo took n) (record w { ring_buffer = b })
          (handle_event-Going e (record w { ring_buffer = b }) st.0 h)
          λ _ t g _.
            rest t (subst IsValid (sym g.same_ring) b_valid)
              (subst (λ k. AllStorable x (contents k)) (sym g.same_ring)
                (subst (AllStorable x) (sym left) st.1))
              (subst (λ k. k.count ≤ n) (sym g.same_ring) (omega arith)) g.grown)

  -- On a valid buffer whose events can be read back from the ledger, with at least as much fuel
  -- as the buffer holds events, a ledger whose run is sound and begins with `es`, and a pool of
  -- clean events, the drain loop either ends with an empty buffer, or stops in a panic or an
  -- error; in each case the run is sound and still begins with `es`, and the pool has clean
  -- events only. The storage keeps its laws, the signer's keys belong together, and the
  -- terminal events that the code makes of clean pooled events can be read back.
  pub drain-Emptied :
      (n : ℕ) (w : Worker S)
      → IsValid w.ring_buffer
      → AllStorable x (contents w.ring_buffer)
      → w.ring_buffer.count ≤ n
      → Grown w
      → Post (λ _ t. Emptied t) Grown (drain x repo took n w)
  unfolding drain
  drain-Emptied zero w v st le h = (omega arith, h)
  drain-Emptied (suc n) w v st le h =
      by_count (nat_eq w.ring_buffer.count 0) refl (λ t. drain-Emptied n t)
    where
      by_count :
          (b : Bool)
          → nat_eq w.ring_buffer.count 0 ≡ b
          → ((t : Worker S) → Drains n t)
          → Post
              (λ _ t. Emptied t)
              Grown
              (if b then (ok tt, w) else after n w (pop x.strict w.ring_buffer).0)
      by_count true e rest = (ground arith, h)
      by_count false e rest =
          drain-popped n w (contents w.ring_buffer) v refl st (ground arith) le h rest
