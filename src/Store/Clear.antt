-- ===== src/Store/Clear.antt =====
-- internal/ledger/store: the queries and the inserts when no call of the driver fails.
use mathlib.Core.List.{head?}
use logryph.Base.{ℕ, ◌≡◌, Bool, true, false, some, List, [], ◌∷◌, ◌++◌, String, is_set}
use logryph.Base.Result.{ok}
use logryph.Base.Sort.{sort_by, descending}
use logryph.Event.{Event, map_value}
use logryph.Externals.{Externals}
use logryph.Store.{
  Db, Run, Row, rows_of, has_id, insert_event, insert_with, driver_fails, next_fault, call_driver,
  put_row, rows_affected, add_event, check_rows, close_rows, get_last_event, last_or_empty,
}
use logryph.Store.Stats.{get_run_stats, stats_of}
use logryph.Store.Sqlite.{row_of, store_event, marshaled}
use logryph.Store.Rows.{index_of}

module _ (runs : List Run) (rows : List Row) (clock : ℕ) where
  abbrev pub clear_db : Db
  clear_db = record { runs = runs; events = rows; clock = clock; faults = [] }

  pub get_run_stats-clear :
      (strict : Bool) (run : String)
      → is_set run ≡ true
      → get_run_stats strict run clear_db ≡ (ok (stats_of run (rows_of run clear_db)), clear_db)
  unfolding get_run_stats call_driver driver_fails next_fault check_rows close_rows
  get_run_stats-clear strict run set = rw set

  pub get_last_event-clear :
      (strict : Bool) (run : String)
      → is_set run ≡ true
      → get_last_event strict run clear_db ≡ (
        ok (last_or_empty (head? (sort_by (descending index_of) (rows_of run clear_db)))),
        clear_db,
      )
  unfolding get_last_event call_driver driver_fails next_fault
  get_last_event-clear strict run set = rw set

module _ (x : Externals) (runs : List Run) (rows : List Row) (clock : ℕ) where
  -- What an insertion asks of an event: its texts are set, and its id is new.
  pub record IsNew (e : Event) : Type 0 where
    pub id_set : is_set e.id ≡ true
    pub run_set : is_set e.run_id ≡ true
    pub hash_set : is_set e.current_hash ≡ true
    pub signature_set : is_set e.signature ≡ true
    pub id_free : has_id e.id rows ≡ false

  pub store_event-clear :
      (e : Event) (p r : String)
      → x.marshal (map_value e.params) ≡ some p
      → x.marshal (map_value e.response) ≡ some r
      → IsNew e
      → store_event x e (clear_db runs rows clock)
        ≡ (ok tt, clear_db runs (rows ++ row_of x e p r ∷ []) clock)
  unfolding store_event marshaled insert_event insert_with call_driver driver_fails next_fault
      put_row rows_affected add_event row_of
  store_event-clear e p r hp hr n =
      rw (hp, hr, n.id_set, n.run_set, n.hash_set, n.signature_set, n.id_free)
