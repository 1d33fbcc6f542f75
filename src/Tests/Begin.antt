-- ===== src/Tests/Begin.antt =====
-- Concrete values on which the theorem of a worker that begins a run applies.
use logryph.Base.{◌≡◌, refl, none, String, arith, count_char}
use logryph.Base.Result.{ok}
use logryph.Samples.{externals, json_laws, crypto_laws, all-IsStorable, empty_db}
use logryph.Store.{Db, has_runs, call_driver, driver_fails, next_fault, insert_run, insert_event}
use logryph.Store.Sqlite.{sqlite, store_event}
use logryph.Json.{size, put}
use logryph.Crypto.{calculate_event_hash, canonical_json, sign_hash, get_public_key}
use logryph.Crypto.Hex.{hex_encode}
use logryph.Pool.{put_event, get_event}
use logryph.Store.Added.{view}
use logryph.Store.Lawful.{sqlite-IsLedger}
use logryph.Processor.{completion_event, take_event, made, payload}
use logryph.Worker.{Worker, start}
use logryph.Worker.New.{fresh, IsFresh, new_worker-IsFresh}
use logryph.Worker.Started.{BeginsRun, HasBegun, start-HasBegun}
use logryph.Genesis.{create_genesis_block}
use logryph.Tests.Keys.{
  generate, key-laws, key_signer, one_key, new_ring, no_events_pool, made_worker,
}

abbrev new_one : Worker Db
new_one = fresh externals generate empty_db no_events_pool 0 key_signer new_ring

new_one-IsFresh : IsFresh externals generate 2 ".logryph_key" new_one one_key
new_one-IsFresh =
    new_worker-IsFresh externals generate key-laws 2 empty_db ".logryph_key" no_events_pool 0
      one_key one_key (omega arith) made_worker

abbrev first_run : String
first_run = "00000000-0000-4000-8000-000000000000"

abbrev begun : Worker Db
begun = (start externals (sqlite externals) (λ n. 5) none new_one).1

begins :
    BeginsRun externals
      (sqlite externals)
      (view externals)
      first_run
      (sqlite-IsLedger externals json_laws)
      crypto_laws
      (λ task state tick e c.
        all-IsStorable (completion_event externals (sqlite externals) task state tick e))
      (λ n. 5)
      (λ n w. w)
      generate
      none
      new_one
      empty_db
unfolding has_runs call_driver driver_fails next_fault
begins = record {
  no_runs = refl;
  pool_clean = tt;
  unused = refl;
  named = refl;
  storable = all-IsStorable _;
}

returned : start externals (sqlite externals) (λ n. 5) none new_one ≡ (ok tt, begun)
unfolding start has_runs call_driver driver_fails next_fault create_genesis_block take_event
    put_event size put made get_event calculate_event_hash count_char payload canonical_json
    sign_hash insert_run hex_encode get_public_key store_event insert_event
returned = refl

start-HasBegun_example :
    HasBegun externals
      (sqlite externals)
      (view externals)
      first_run
      (sqlite-IsLedger externals json_laws)
      crypto_laws
      (λ task state tick e c.
        all-IsStorable (completion_event externals (sqlite externals) task state tick e))
      (λ n. 5)
      (λ n w. w)
      generate
      new_one
      2
      ".logryph_key"
      one_key
      new_one-IsFresh
      begun
start-HasBegun_example =
    start-HasBegun externals (sqlite externals) (view externals) first_run
      (sqlite-IsLedger externals json_laws) crypto_laws
      (λ task state tick e c.
        all-IsStorable (completion_event externals (sqlite externals) task state tick e))
      (λ n. 5) (λ n w. w) generate new_one 2 ".logryph_key" one_key new_one-IsFresh none empty_db
      begun begins returned
