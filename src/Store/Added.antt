-- ===== src/Store/Added.antt =====
-- internal/ledger/store/events.go: what `StoreEvent` adds to the rows.
use mathlib.Core.List.{map, map-append}
use logryph.Base.{
  ◌≡◌, ◌≢◌, ◌⊎◌, inl, inr, refl, sym, ap, ◌∙◌, Bool, true, false, some, List, [], ◌∷◌, ◌++◌,
  append-nil, String, ◌==◌, is_set, select, select-append, eq_refl, eq_iff, Bool-cases,
  Option-cases,
}
use logryph.Base.Result.{Result, ok, err, panic}
use logryph.Base.Exec.{Exec, lift, with_context_in, ◌>>=◌, ◌>>◌}
use logryph.Base.Post.{Post, Post-bind, Ends-with_context, Ends-weaken}
use logryph.Assert.{check}
use logryph.Event.{Event, map_value}
use logryph.Externals.{Externals, JsonLaws}
use logryph.Repository.Laws.{Appends, SameView, Reads}
use logryph.Store.{
  Db, Row, rows_of, call_driver, insert_event, insert_with, driver_fails, next_fault, add_event,
  put_row, rows_affected,
}
use logryph.Store.Read.{scan_event}
use logryph.Store.Sqlite.{row_of, store_event, marshaled}
use logryph.Store.Readback.{row_of-Reads}
use logryph.Store.Quiet.{Same}

module _ (x : Externals) where
  -- What the database holds of a run, as GetAllEvents reads it.
  abbrev pub view : Db → String → List Event
  view db run = map (scan_event x) (rows_of run db)

  pub Same-view : (s t : Db) → Same s t → SameView x view s t
  Same-view s t h run = ap (λ rows. map (scan_event x) (select (λ r. r.run_id == run) rows)) h

  select-own :
      (run : String) (es : List Row) (r : Row)
      → r.run_id ≡ run
      → select (λ k. k.run_id == run) (es ++ r ∷ []) ≡ select (λ k. k.run_id == run) es ++ r ∷ []
  select-own run es r own =
      rw (select-append (λ k. k.run_id == run) es (r ∷ []), own, eq_refl run) refl

  select-other :
      (run : String) (es : List Row) (r : Row)
      → r.run_id ≢ run
      → select (λ k. k.run_id == run) (es ++ r ∷ []) ≡ select (λ k. k.run_id == run) es
  select-other run es r other = elim (Bool-cases (r.run_id == run)) [
    | inl e ↦ elim (other ((eq_iff r.run_id run).0 e)) [ ]
    | inr e ↦
        rw (select-append (λ k. k.run_id == run) es (r ∷ []), e)
          (append-nil (select (λ k. k.run_id == run) es))
  ]

  -- A row that is in and is read as `e` asks appends `e`.
  added-Appends :
      (e : Event) (r : Row) (s t : Db)
      → r.run_id ≡ e.run_id
      → Reads x e (scan_event x r)
      → t.events ≡ s.events ++ r ∷ []
      → Appends x view e s t
  added-Appends e r s t own reads h = record {
    stored = scan_event x r;
    reads = reads;
    own_run =
        ap (λ rows. map (scan_event x) (select (λ k. k.run_id == e.run_id) rows)) h
        ∙ ap (map (scan_event x)) (select-own e.run_id s.events r own)
        ∙ map-append (scan_event x) (rows_of e.run_id s) (r ∷ []);
    other_runs = λ run other.
        ap (λ rows. map (scan_event x) (select (λ k. k.run_id == run) rows)) h
        ∙ ap (map (scan_event x)) (select-other run s.events r (λ same. other (sym same ∙ own)));
  }

  module _ (r : Row) (s : Db) where
    abbrev IsIn : Db → Type 0
    IsIn u = u.events ≡ s.events ++ r ∷ []

    abbrev IsInOrNot : Db → Type 0
    IsInOrNot u = Same s u ⊎ IsIn u

    rows_affected-IsIn : (t : Db) → IsIn t → Post (λ _ u. IsIn u) IsInOrNot (rows_affected t)
    unfolding rows_affected driver_fails
    rows_affected-IsIn t h = elim (Bool-cases (next_fault t.faults).0) [
      | inl e ↦ rw e (inr h)
      | inr e ↦ rw e h
    ]

    put_row-IsIn :
        (taken : Bool) (t : Db)
        → Same s t
        → Post (λ _ u. IsIn u) IsInOrNot (put_row taken (add_event r) t)
    unfolding put_row add_event
    put_row-IsIn true t h = inl h
    put_row-IsIn false t h = ap (λ es. es ++ r ∷ []) h

    call_put-IsIn :
        (taken : Bool) (t : Db)
        → Same s t
        → Post (λ _ u. IsIn u) IsInOrNot ((call_driver >> put_row taken (add_event r)) t)
    unfolding call_driver driver_fails
    call_put-IsIn taken t h = elim (Bool-cases (next_fault t.faults).0) [
      | inl e ↦ rw e (inl h)
      | inr e ↦ rw e (put_row-IsIn taken (record t { faults = (next_fault t.faults).1 }) h)
    ]

    insert_with-IsIn :
        (c : String) (taken : Bool) (t : Db)
        → Same s t
        → Post (λ _ u. IsIn u) IsInOrNot (insert_with c taken (add_event r) t)
    unfolding insert_with
    insert_with-IsIn c taken t h =
        Post-bind (λ _ u. IsIn u) IsInOrNot (λ _ u. IsIn u)
          (with_context_in c (call_driver >> put_row taken (add_event r))) _ t
          (Ends-with_context (λ _ u. IsIn u) IsInOrNot c _ _ (call_put-IsIn taken t h))
          λ _ u hu _. rows_affected-IsIn u hu

    insert_event-IsIn : (strict : Bool) → Post (λ _ u. IsIn u) IsInOrNot (insert_event strict r s)
    unfolding insert_event
    insert_event-IsIn strict =
        step (check strict (is_set r.id) "event id must not be empty") _ s refl λ _ t ht _.
          step (check strict (is_set r.run_id) "run id must not be empty") _ t ht λ _ u hu _.
            step (check strict (is_set r.current_hash) "current hash must not be empty") _ u hu
              λ _ v hv _.
                step (check strict (is_set r.signature) "signature must not be empty") _ v hv
                  λ _ w hw _. insert_with-IsIn "inserting event" _ w hw
      where
        step :
            (c : Result (Unit {0})) (f : Unit {0} → Exec Db (Unit {0})) (t : Db)
            → Same s t
            → ((a : Unit {0}) (u : Db)
                → Same s u
                → c ≡ ok a
                → Post (λ _ u. IsIn u) IsInOrNot (f a u))
            → Post (λ _ u. IsIn u) IsInOrNot ((lift c >>= f) t)
        step (ok a) f t h k = k a t h refl
        step (err e) f t h k = inl h
        step (panic e) f t h k = inl h

  module _ (json : JsonLaws x) (e : Event) (s : Db) where
    abbrev pub Kept : Db → Type 0
    Kept t = SameView x view s t ⊎ Appends x view e s t

    unfoldable pub Grown : Unit {0} → Db → Type 0
    Grown _ t = Appends x view e s t

    insert_event-Appends :
        (p r : String)
        → x.marshal (map_value e.params) ≡ some p
        → x.marshal (map_value e.response) ≡ some r
        → Post Grown Kept (insert_event x.strict (row_of x e p r) s)
    unfolding Grown row_of
    insert_event-Appends p r hp hr =
        let row : Row = row_of x e p r in
        Ends-weaken _ Grown (IsInOrNot row s) Kept (insert_event x.strict row s).0 _
          (λ _ t h. appends t h) kept (insert_event-IsIn row s x.strict)
      where
        appends : (t : Db) → IsIn (row_of x e p r) s t → Appends x view e s t
        appends t h = added-Appends e (row_of x e p r) s t refl (row_of-Reads x json e p r hp hr) h

        kept : (t : Db) → IsInOrNot (row_of x e p r) s t → Kept t
        kept t (inl h) = inl (Same-view s t h)
        kept t (inr h) = inr (appends t h)

    pub store_event-Appends : Post Grown Kept (store_event x e s)
    unfolding store_event marshaled
    store_event-Appends = elim (Option-cases (x.marshal (map_value e.params))) [
      | inl a ↦ rw a (inl (λ run. refl))
      | inr (p, a) ↦ elim (Option-cases (x.marshal (map_value e.response))) [
        | inl b ↦ rw (a, b) (inl (λ run. refl))
        | inr (r, b) ↦ rw (a, b) (insert_event-Appends p r a b)
      ]
    ]
