-- ===== src/Store/Quiet.antt =====
-- internal/ledger/store: calls of the driver and the table of events.
use logryph.Base.{◌≡◌, Bool, not, String, Bool-cases, inl, inr}
use logryph.Base.Result.{Result, ok}
use logryph.Base.Exec.{Exec, lift, with_context_in, ◌>>=◌}
use logryph.Base.Post.{Post, Post-bind, Ends-lift, Ends-with_context}
use logryph.Assert.{check}
use logryph.Store.{Db, driver_fails, next_fault, call_driver, check_rows, close_rows}

module _ (s : Db) where
  abbrev pub Same : Db → Type 0
  Same t = t.events ≡ s.events

  abbrev pub Quiet : {A : Type 0} → Exec Db A → Db → Type 0
  Quiet m t = Post (λ _ u. Same u) Same (m t)

  pub after :
      {A B : Type 0} (P : B → Db → Type 0) (m : Exec Db A) (f : A → Exec Db B) (t : Db)
      → Quiet m t
      → ((a : A) (u : Db) → Same u → (m t).0 ≡ ok a → Post P Same (f a u))
      → Post P Same ((m >>= f) t)
  after P m f t h k = Post-bind (λ _ u. Same u) Same P m f t h k

  pub lift-Same : {A : Type 0} (r : Result A) (t : Db) → Same t → Quiet (lift r) t
  lift-Same r t h = Ends-lift Same r t h

  pub call_driver-Same : (t : Db) → Same t → Quiet call_driver t
  unfolding call_driver driver_fails
  call_driver-Same t h = elim (Bool-cases (next_fault t.faults).0) [
    | inl e ↦ rw e h
    | inr e ↦ rw e h
  ]

  pub check_rows-Same :
      (strict : Bool) (msg : String) (t : Db) → Same t → Quiet (check_rows strict msg) t
  unfolding check_rows driver_fails
  check_rows-Same strict msg t h =
      Ends-lift Same (check strict (not (next_fault t.faults).0) msg) _ h

  pub close_rows-Same : (c : String) (t : Db) → Same t → Quiet (close_rows c) t
  unfolding close_rows
  close_rows-Same c t h =
      Ends-with_context (λ _ u. Same u) Same c (call_driver t).0 _ (call_driver-Same t h)

  pub query-Same : (c : String) (t : Db) → Same t → Quiet (with_context_in c call_driver) t
  query-Same c t h =
      Ends-with_context (λ _ u. Same u) Same c (call_driver t).0 _ (call_driver-Same t h)
