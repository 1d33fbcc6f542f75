-- ===== src/Store/Lawful.antt =====
-- internal/ledger/store: the SQLite ledger and the laws of a storage.
use mathlib.Core.List.{map, head?}
use logryph.Base.{
  ℕ, ◌≡◌, refl, sym, ap, ◌∙◌, subst, Bool, List, String, ◌==◌, is_set, length, last?, take, select,
}
use logryph.Base.Exec.{lift, with_context_in}
use logryph.Base.Sort.{ascending, descending, sort_by}
use logryph.Base.Post.{Post, Ends-weaken}
use logryph.Assert.{check}
use logryph.Event.{Event}
use logryph.Externals.{Externals, JsonLaws}
use logryph.Repository.{RunStats}
use logryph.Repository.Laws.{IsSequential, IsLast, IsLedger, SameView}
use logryph.Store.{
  Db, rows_of, call_driver, check_rows, close_rows, max_event_rows, get_last_event, last_or_empty,
}
use logryph.Store.Stats.{get_run_stats}
use logryph.Store.Read.{scan_event, get_all_events}
use logryph.Store.Sqlite.{sqlite}
use logryph.Store.Quiet.{
  Same, after, lift-Same, call_driver-Same, check_rows-Same, close_rows-Same, query-Same,
}
use logryph.Store.Runs.{insert_run-Same, has_runs-Same}
use logryph.Store.Rows.{index_of, length-map, IsSequential-IsRising, descending-IsLast, scan-sorted}
use logryph.Store.Added.{view, Same-view, store_event-Appends, Grown}

module _ (x : Externals) where
  module _ (run : String) (s : Db) where
    abbrev CountsRun : RunStats → Db → Type 0
    CountsRun stats t = Same s t × (stats.total_events ≡ length (rows_of run s))

    stats-laws : (strict : Bool) → Post CountsRun (Same s) (get_run_stats strict run s)
    unfolding get_run_stats
    stats-laws strict =
        after s CountsRun (lift (check strict (is_set run) "runID must not be empty")) _ s
          (lift-Same s _ s refl)
          λ _ t ht _. after s CountsRun call_driver _ t (call_driver-Same s t ht) λ _ u hu _.
            after s CountsRun call_driver _ u (call_driver-Same s u hu) λ _ v hv _.
              after s CountsRun (check_rows strict _) _ v (check_rows-Same s strict _ v hv)
                λ _ w hw _.
                  after s CountsRun (close_rows _) _ w (close_rows-Same s _ w hw)
                    λ _ z hz _. (hz, ap (λ rows. length (select (λ r. r.run_id == run) rows)) hv)

    abbrev IsLastOf : ℕ × String → Db → Type 0
    IsLastOf r t = Same s t × IsLast (last? (view x s run)) r

    last-laws :
        (strict : Bool)
        → IsSequential 0 (view x s run)
        → Post IsLastOf (Same s) (get_last_event strict run s)
    unfolding get_last_event
    last-laws strict h =
        after s IsLastOf (lift (check strict (is_set run) "runID must not be empty")) _ s
          (lift-Same s _ s refl)
          λ _ t ht _.
            after s IsLastOf (with_context_in "querying last event" call_driver) _ t
              (query-Same s _ t ht)
              λ _ u hu _. (
                hu,
                subst
                    (λ rows. IsLast (last? (view x s run)) (
                      last_or_empty (
                        head?
                          (sort_by (descending index_of) (select (λ r. r.run_id == run) rows)))))
                    (sym hu) (descending-IsLast x (rows_of run s) (IsSequential-IsRising x 0 _ h)),
              )

    abbrev AreAll : List Event → Db → Type 0
    AreAll es t = Same s t × (es ≡ take max_event_rows (view x s run))

    all-laws : IsSequential 0 (view x s run) → Post AreAll (Same s) (get_all_events x run s)
    unfolding get_all_events
    all-laws h =
        after s AreAll (lift (check x.strict (is_set run) "runID must not be empty")) _ s
          (lift-Same s _ s refl)
          λ _ t ht _.
            after s AreAll (with_context_in "querying events" call_driver) _ t (query-Same s _ t ht)
              λ _ u hu _.
                after s AreAll (check_rows x.strict _) _ u (check_rows-Same s x.strict _ u hu)
                  λ _ v hv _.
                    after s AreAll (close_rows _) _ v (close_rows-Same s _ v hv) λ _ w hw _. (
                      hw,
                      ap
                            (λ rows. map (scan_event x) (
                              take max_event_rows (
                                sort_by (ascending index_of) (select (λ r. r.run_id == run) rows))))
                            hu
                          ∙ scan-sorted x max_event_rows (rows_of run s) h,
                    )

  -- Where JSON objects are written from the texts of their values, the SQLite ledger keeps the
  -- laws of a storage, whatever calls of its driver fail: statistics count the events of the
  -- run, the last event of a sequential run is found, all events of such a run are returned in
  -- order up to 100000, and storing an event adds it to the end of its own run and to no other,
  -- or adds nothing and fails, or adds it and fails.
  pub sqlite-IsLedger : JsonLaws x → IsLedger x (view x) max_event_rows (sqlite x)
  unfolding Grown
  sqlite-IsLedger json = record {
    run_stats = λ run s.
        Ends-weaken _
          (λ stats t. SameView x (view x) s t × (stats.total_events ≡ length (view x s run))) _ _ _
          _ (λ _ t h. (Same-view x s t h.0, h.1 ∙ sym (length-map (scan_event x) (rows_of run s))))
          (Same-view x s) (stats-laws run s x.strict);
    last_event = λ run s h.
        Ends-weaken _ (λ r t. SameView x (view x) s t × IsLast (last? (view x s run)) r) _ _ _ _
          (λ _ t k. (Same-view x s t k.0, k.1)) (Same-view x s) (last-laws run s x.strict h);
    store = λ e s. store_event-Appends x json e s;
    all_events = λ run s h.
        Ends-weaken _ (λ es t. SameView x (view x) s t × (es ≡ take max_event_rows (view x s run)))
          _ _ _ _ (λ _ t k. (Same-view x s t k.0, k.1)) (Same-view x s) (all-laws run s h);
    runs_apart = λ id agent_name genesis_hash ledger_pub_key s.
        Ends-weaken _ (λ _ t. SameView x (view x) s t) _ _ _ _ (λ _ t k. Same-view x s t k)
          (Same-view x s) (insert_run-Same s x.strict id agent_name genesis_hash ledger_pub_key);
    known_runs = λ s.
        Ends-weaken _ (λ _ t. SameView x (view x) s t) _ _ _ _ (λ _ t k. Same-view x s t k)
          (Same-view x s) (has_runs-Same s);
  }
