-- ===== src/Processor/Run.antt =====
-- internal/ledger/processor.go: `ProcessEvent`, with the terminal event of a task.
use logryph.Base.{
  ℕ, ◌+◌, ◌≡◌, inl, inr, refl, sym, ap, ◌∙◌, subst, Option, none, some, List, [], ◌∷◌, ◌++◌,
  append-nil, append_assoc, String, ◌==◌, is_set, if◌then◌else◌, not, ◌&&◌, Bool-cases,
}
use logryph.Base.Result.{Result, ok, err, panic}
use logryph.Base.Exec.{Exec, pure, ◌>>=◌}
use logryph.Base.Post.{Post, Post-bind, Ends-weaken, Ends-lift, Ends-any, Ends-both}
use logryph.Base.Assoc.{lookup}
use logryph.Assert.{check}
use logryph.Event.{Event}
use logryph.Pool.{or_return, get_event, put_event}
use logryph.Externals.{Externals, CryptoLaws}
use logryph.Crypto.{Signer}
use logryph.Repository.{EventRepository}
use logryph.Repository.Laws.{IsStorable, IsLedger}
use logryph.Processor.{
  EventProcessor, persist_event, create_task_completion_event, completion_event, take_event,
  give_back, after_assertion, set_task_states, end_task, remember_task, track_task_state,
  is_tracked, process_event, is_terminal_state, in_pool,
}
use logryph.Pool.Clean.{IsClean, AllClean, get_event-IsClean, put_event-AllClean}
use logryph.Processor.Pooled.{SameTools, persist_event-SameTools}
use logryph.Processor.Place.{IsReady, IsSound}
use logryph.Processor.Persist.{HasGrown, KeptOrGrown, persist_event-HasGrown}

module _ (x : Externals) {S : Type 0} (repo : EventRepository S) (view : S → String → List Event)
    (signer : Signer) (run : String) where
  -- The run holds `es` and perhaps more behind them, and is ready for the next event.
  pub record Extends (es : List Event) (q : EventProcessor S) : Type 0 where
    pub more : List Event
    pub ready : IsReady x repo view signer run (es ++ more) q
    pub clean : AllClean q.pool.free

  Extends-Ready :
      (es : List Event) (q : EventProcessor S)
      → IsReady x repo view signer run es q
      → AllClean q.pool.free
      → Extends es q
  Extends-Ready es q h c = record {
    clean = c;
    more = [];
    ready = subst (λ l. IsReady x repo view signer run l q) (sym (append-nil es)) h;
  }

  Extends-trans : (es fs : List Event) (q : EventProcessor S) → Extends (es ++ fs) q → Extends es q
  Extends-trans es fs q h = record {
    clean = h.clean;
    more = fs ++ h.more;
    ready = subst (λ l. IsReady x repo view signer run l q) (append_assoc es fs h.more) h.ready;
  }

  -- Only the storage, the run and the signer matter.
  pub Extends-moved :
      (es : List Event) (p q : EventProcessor S)
      → q.db ≡ p.db
      → q.run_id ≡ p.run_id
      → q.signer ≡ p.signer
      → AllClean q.pool.free
      → Extends es p
      → Extends es q
  Extends-moved es p q d r s c h = record {
    more = h.more;
    clean = c;
    ready = record {
      sound = subst (IsSound x repo view signer run) (sym d) h.ready.sound;
      holds = ap (λ t. view t run) d ∙ h.ready.holds;
      own_run = r ∙ h.ready.own_run;
      own_signer = s ∙ h.ready.own_signer;
    };
  }

  module _ {limit : ℕ} (laws : IsLedger x view limit repo) (crypto : CryptoLaws x)
      (keys : signer.public_key ≡ x.public_of signer.private_key) (es : List Event) where
    abbrev Keeps : {A : Type 0} → Exec (EventProcessor S) A → Type 0
    Keeps m = (p : EventProcessor S) → Extends es p → Post (λ _ q. Extends es q) (Extends es) (m p)

    HasGrown-Extends :
        (more : List Event) (g : Event) (q : EventProcessor S)
        → HasGrown x repo view signer run laws crypto keys (es ++ more) g q
        → AllClean q.pool.free
        → Extends es q
    HasGrown-Extends more g q h c =
        Extends-trans es more q
          (Extends-trans (es ++ more) (h.stored ∷ []) q (Extends-Ready _ q h.ready c))

    persist_event-Keeps : (e : Event) → IsStorable x e → Keeps (persist_event x repo e)
    persist_event-Keeps e st p h =
        Ends-weaken _ (λ _ q. Extends es q) _ (Extends es) _ _
          (λ g q k. HasGrown-Extends h.more g q k.0 (clean q k.1)) (λ q k. kept q k.0 (clean q k.1))
          (Ends-both _ (λ _ q. SameTools x repo p q) _ (SameTools x repo p)
            (persist_event x repo e p).0 (persist_event x repo e p).1
            (persist_event-HasGrown x repo view signer run laws crypto keys (es ++ h.more) e p st
              h.ready)
            (persist_event-SameTools x repo e p))
      where
        clean : (q : EventProcessor S) → SameTools x repo p q → AllClean q.pool.free
        clean q same = subst (λ k. AllClean k.free) (sym (same.0)) h.clean

        kept :
            (q : EventProcessor S)
            → KeptOrGrown x repo view signer run laws crypto keys (es ++ h.more) q
            → AllClean q.pool.free
            → Extends es q
        kept q (inl k) c = record { more = h.more; ready = k; clean = c }
        kept q (inr (g, k)) c = HasGrown-Extends h.more g q k c

    seq-Keeps :
        {A B : Type 0} (m : Exec (EventProcessor S) A) (f : A → Exec (EventProcessor S) B)
        → Keeps m
        → ((a : A) → Keeps (f a))
        → Keeps (m >>= f)
    seq-Keeps m f h k p r =
        Post-bind (λ _ q. Extends es q) (Extends es) (λ _ q. Extends es q) m f p (h p r)
          λ a q hq _. k a q hq

    put-Keeps : (e : Event) → Keeps (in_pool (put_event x.strict (some e)))
    put-Keeps e p h = Ends-lift (Extends es) (put_event x.strict (some e) p.pool).0 _ (
        Extends-moved es p (record p { pool = (put_event x.strict (some e) p.pool).1 }) refl refl
          refl (put_event-AllClean x.strict (some e) p.pool h.clean) h)

    after_assertion-Keeps : (e : Event) (r : Result (Unit {0})) → Keeps (after_assertion x repo e r)
    unfolding after_assertion
    after_assertion-Keeps e (ok a) p h = put-Keeps e p h
    after_assertion-Keeps e (err k) p h = put-Keeps e p h
    after_assertion-Keeps e (panic k) p h = h

    give_back-Keeps : (e : Event) (r : Result Event) → Keeps (give_back x repo e r)
    unfolding give_back
    give_back-Keeps e (ok a) p h = put-Keeps e p h
    give_back-Keeps e (panic k) p h = h
    give_back-Keeps e (err k) p h = after_assertion-Keeps e _ p h

    or_return-Keeps :
        (c : Result (Unit {0})) (m : Exec (EventProcessor S) (Unit {0}))
        → Keeps m
        → Keeps (or_return c m)
    or_return-Keeps (ok u) m k p h = k p h
    or_return-Keeps (err e) m k p h = h
    or_return-Keeps (panic e) m k p h = h

    -- The terminal events that the code makes of clean ones can be read back.
    module _
        (terminal : (task state : String) (tick : ℕ) (e : Event)
          → IsClean e
          → IsStorable x (completion_event x repo task state tick e)) where
      complete-Keeps :
          (task state : String) → Keeps (create_task_completion_event x repo task state)
      unfolding create_task_completion_event take_event
      complete-Keeps task state =
          or_return-Keeps (check x.strict (is_set task) "taskID must not be empty") _ (
            or_return-Keeps (check x.strict (is_set state) "state must not be empty") _ λ p h.
              let e : Event = completion_event x repo task state p.ticks (get_event p.pool).0 in
              let p' : EventProcessor S = record p {
                pool = (get_event p.pool).1;
                ticks = p.ticks + 1;
              } in
              give_back-Keeps e (persist_event x repo e p').0 (persist_event x repo e p').1 (
                Ends-any (Extends es) _ _ (
                  persist_event-Keeps e
                    (terminal task state p.ticks (get_event p.pool).0
                      (get_event-IsClean p.pool h.clean).0)
                    p'
                    (Extends-moved es p p' refl refl refl (get_event-IsClean p.pool h.clean).1 h))))

      forget-Keeps : (states : List (String × String)) → Keeps (set_task_states x repo states)
      unfolding set_task_states
      forget-Keeps states p h =
          Extends-moved es p (record p { task_states = states }) refl refl refl h.clean h

      end_task-Keeps : (e : Event) (o : Option String) → Keeps (end_task x repo e o)
      unfolding end_task
      end_task-Keeps e none p h = h
      end_task-Keeps e (some old) p h =
          elim (Bool-cases (not (old == e.task_state) && is_terminal_state e.task_state)) [
            | inl c ↦ rw c (
                seq-Keeps (create_task_completion_event x repo e.task_id e.task_state) _
                  (complete-Keeps e.task_id e.task_state) (λ _ q k. forget-Keeps _ q k) p h)
            | inr c ↦ rw c h
          ]

      remember_task-Keeps : (e : Event) → Keeps (remember_task x repo e)
      unfolding remember_task
      remember_task-Keeps e p h = elim (Bool-cases (is_terminal_state e.task_state)) [
        | inl c ↦ rw c h
        | inr c ↦ rw c (forget-Keeps _ p h)
      ]

      track_task_state-Keeps : (e : Event) → Keeps (track_task_state x repo e)
      unfolding track_task_state
      track_task_state-Keeps e =
          or_return-Keeps (check x.strict (is_set e.task_id) "taskID must not be empty") _ λ p h.
            seq-Keeps (end_task x repo e (lookup e.task_id p.task_states)) _ (end_task-Keeps e _)
              (λ _. remember_task-Keeps e) p h

      -- `ProcessEvent` of an event that can be read back keeps a run sound, its old events at
      -- its front and the pool's events clean, whether it succeeds or fails, with the terminal
      -- event of a task that ends included. The storage keeps its laws, the signer's keys
      -- belong together, and the terminal events that the code makes of clean pooled events can
      -- be read back.
      pub process_event-Extends :
          (e : Event) (p : EventProcessor S)
          → IsStorable x e
          → Extends es p
          → Post (λ _ q. Extends es q) (Extends es) (process_event x repo e p)
      unfolding process_event
      process_event-Extends e p st h =
          seq-Keeps (persist_event x repo e) _ (persist_event-Keeps e st) (λ _. tracked) p h
        where
          tracked : Keeps (if is_tracked x repo e then track_task_state x repo e else pure tt)
          tracked q k = elim (Bool-cases (is_tracked x repo e)) [
            | inl c ↦ rw c (track_task_state-Keeps e q k)
            | inr c ↦ rw c k
          ]
