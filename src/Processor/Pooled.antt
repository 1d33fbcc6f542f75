-- ===== src/Processor/Pooled.antt =====
-- internal/ledger/processor.go: `persistEvent` and the event pool.
use logryph.Base.{◌≡◌, refl, ◌∙◌, String}
use logryph.Base.Result.{Result}
use logryph.Base.Exec.{Exec, ◌>>=◌, lift, with_context_in}
use logryph.Base.Post.{Post, Post-bind, Ends-lift, Ends-weaken}
use logryph.Event.{Event}
use logryph.Externals.{Externals}
use logryph.Repository.{EventRepository}
use logryph.Processor.{
  EventProcessor, in_db, persist_event, assign_sequence_and_prev_hash, assign_in_run,
  hash_and_sign_event, get_stats, signed_by, prev_hash_for,
}

module _ (x : Externals) {S : Type 0} (repo : EventRepository S) where
  -- The pool and the signer are the same.
  abbrev pub SameTools : EventProcessor S → EventProcessor S → Type 0
  SameTools p q = (q.pool ≡ p.pool) × (q.signer ≡ p.signer)

  abbrev pub Leaves : {A : Type 0} → Exec (EventProcessor S) A → Type 0
  Leaves m = (p : EventProcessor S) → Post (λ _ q. SameTools p q) (SameTools p) (m p)

  pub then-Leaves :
      {A B : Type 0} (m : Exec (EventProcessor S) A) (f : A → Exec (EventProcessor S) B)
      → Leaves m
      → ((a : A) → Leaves (f a))
      → Leaves (m >>= f)
  then-Leaves m f h k p =
      Post-bind (λ _ q. SameTools p q) (SameTools p) (λ _ q. SameTools p q) m f p (h p)
        λ a q s _.
          Ends-weaken (λ _ t. SameTools q t) (λ _ t. SameTools p t) (SameTools q) (SameTools p)
            (f a q).0 (f a q).1 (λ _ t k. (k.0 ∙ s.0, k.1 ∙ s.1)) (λ t k. (k.0 ∙ s.0, k.1 ∙ s.1))
            (k a q)

  pub in_db-Leaves : {A : Type 0} (m : Exec S A) → Leaves (in_db m)
  in_db-Leaves m p = Ends-lift (SameTools p) (m p.db).0 (record p { db = (m p.db).1 }) (refl, refl)

  pub lift-Leaves : {A : Type 0} (r : Result A) → Leaves (lift r)
  lift-Leaves r p = Ends-lift (SameTools p) r p (refl, refl)

  assign_in_run-Leaves : (e : Event) (run : String) → Leaves (assign_in_run x repo e run)
  unfolding assign_in_run
  assign_in_run-Leaves e run =
      then-Leaves (in_db (get_stats x repo run)) _ (in_db-Leaves (get_stats x repo run)) λ stats.
        then-Leaves (in_db (with_context_in "getting last event" (repo.get_last_event run))) _
          (in_db-Leaves (with_context_in "getting last event" (repo.get_last_event run)))
          λ last.
            then-Leaves (lift (prev_hash_for x repo stats.total_events last.0 last.1)) _
              (lift-Leaves (prev_hash_for x repo stats.total_events last.0 last.1))
              λ prev q. (refl, refl)

  -- `persistEvent` leaves the pool and the signer, whatever it returns.
  pub persist_event-SameTools : (e : Event) → Leaves (persist_event x repo e)
  unfolding persist_event assign_sequence_and_prev_hash hash_and_sign_event
  persist_event-SameTools e =
      then-Leaves (assign_sequence_and_prev_hash x repo e) _
        (λ p. assign_in_run-Leaves e p.run_id p)
        λ f.
          then-Leaves (hash_and_sign_event x repo f) _
            (λ p. lift-Leaves (signed_by x repo f p.signer) p)
            λ g.
              then-Leaves (in_db (repo.store_event g)) _ (in_db-Leaves (repo.store_event g))
                λ _ p. (refl, refl)
