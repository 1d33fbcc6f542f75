-- ===== src/Store/Runs.antt =====
-- internal/ledger/store/runs.go: the calls on the table of runs leave the table of events.
use logryph.Base.{◌≡◌, refl, ◌∙◌, Bool, true, false, String, is_set, Bool-cases, inl, inr}
use logryph.Base.Exec.{lift, with_context_in, ◌>>◌}
use logryph.Base.Post.{Ends-with_context}
use logryph.Assert.{check}
use logryph.Store.{
  Db, next_fault, driver_fails, call_driver, put_row, rows_affected, insert_with, insert_run,
  has_runs,
}
use logryph.Store.Quiet.{Same, Quiet, after, lift-Same, call_driver-Same, query-Same}

module _ (s : Db) where
  put_row-Same :
      (taken : Bool) (add : Db → Db) (t : Db)
      → ((u : Db) → (add u).events ≡ u.events)
      → Same s t
      → Quiet s (put_row taken add) t
  unfolding put_row
  put_row-Same true add t k h = h
  put_row-Same false add t k h = k t ∙ h

  rows_affected-Same : (t : Db) → Same s t → Quiet s rows_affected t
  unfolding rows_affected driver_fails
  rows_affected-Same t h = elim (Bool-cases (next_fault t.faults).0) [
    | inl e ↦ rw e h
    | inr e ↦ rw e h
  ]

  -- An insertion that adds no event
  insert_with-Same :
      (context : String) (taken : Bool) (add : Db → Db) (t : Db)
      → ((u : Db) → (add u).events ≡ u.events)
      → Same s t
      → Quiet s (insert_with context taken add) t
  unfolding insert_with
  insert_with-Same context taken add t k h =
      after s (λ _ u. Same s u) (with_context_in context (call_driver >> put_row taken add))
        (λ _. rows_affected) t
        (Ends-with_context _ _ context ((call_driver >> put_row taken add) t).0 _ (
          after s (λ _ u. Same s u) call_driver (λ _. put_row taken add) t (call_driver-Same s t h)
            λ _ u hu _. put_row-Same taken add u k hu))
        λ _ u hu _. rows_affected-Same u hu

  pub insert_run-Same :
      (strict : Bool) (id agent_name genesis_hash ledger_pub_key : String)
      → Quiet s (insert_run strict id agent_name genesis_hash ledger_pub_key) s
  unfolding insert_run
  insert_run-Same strict id agent_name genesis_hash ledger_pub_key =
      after s (λ _ u. Same s u) (lift (check strict (is_set id) "run id must not be empty")) _ s
        (lift-Same s _ s refl)
        λ _ t1 h1 _.
          after s (λ _ u. Same s u)
            (lift (check strict (is_set agent_name) "agent name must not be empty")) _ t1
            (lift-Same s _ t1 h1)
            λ _ t2 h2 _.
              after s (λ _ u. Same s u)
                (lift (check strict (is_set genesis_hash) "genesis hash must not be empty")) _ t2
                (lift-Same s _ t2 h2)
                λ _ t3 h3 _.
                  after s (λ _ u. Same s u)
                    (lift (check strict (is_set ledger_pub_key) "ledger pub key must not be empty"))
                    _ t3 (lift-Same s _ t3 h3)
                    λ _ t4 h4 _. insert_with-Same "inserting run" _ _ t4 (λ u. refl) h4

  pub has_runs-Same : Quiet s has_runs s
  unfolding has_runs
  has_runs-Same =
      after s (λ _ u. Same s u) (with_context_in "checking runs" call_driver) _ s
        (query-Same s "checking runs" s refl) λ _ t h _. h
