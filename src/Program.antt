-- ===== src/Program.antt =====
-- main.go: how the program is put together, and how it shuts down. `log.Fatalf` is an error. The
-- servers of net/http are parameters.
pub mod Serving
pub mod Shutdown
use logryph.Base.{
  ℕ, Bool, Option, none, some, List, [], ◌∷◌, ◌++◌, String, ◌==◌, is_set, if◌then◌else◌, ltb,
}
use logryph.Base.Result.{message, Result, ok, err, panic, with_context}
use logryph.Base.Exec.{Exec, pure, lift, with_context_in, ◌>>=◌, ◌>>◌}
use logryph.Assert.{check}
use logryph.Externals.{Externals, Bytes}
use logryph.Crypto.Keys.{Disk}
use logryph.Genesis.{Anchor}
use logryph.Repository.{EventRepository}
use logryph.Pool.{EventPool}
use logryph.Worker
use logryph.Worker.{Worker, BackpressureMode, backpressure_drop, backpressure_block, start}
use logryph.Worker.New.{new_worker}
use logryph.Worker.Metrics.{set_backpressure_mode}
use logryph.Observer.Engine.{Config, PolicyFile, Watcher, new_observer_engine, watch, stop}

-- The flags; a port below 0 is refused as 0 is.
pub record Flags : Type 0 where
  pub config_path : String
  pub target : String
  pub listen_port : ℕ
  pub backpressure : String

-- What is running, and the warnings of its shutdown.
pub record Program (S : Type 0) : Type 0 where
  pub watcher : Watcher
  pub worker : Worker S
  pub warnings : List String

-- The switch over the flag
unfoldable pub mode_of : String → Result BackpressureMode
mode_of s =
    if s == "block"
    then ok backpressure_block
    else if s == "drop"
    then ok backpressure_drop
    else err (message "Invalid backpressure mode")

-- The paths of the admin server; `http.ServeMux` answers 404 to any other.
pub data AdminHandler : Type 0 where
  handle_rekey handle_stats handle_prometheus handle_health handle_ready : AdminHandler

unfoldable pub admin_handler : String → Option AdminHandler
admin_handler path =
    if path == "/api/rekey"
    then some handle_rekey
    else if path == "/api/metrics"
    then some handle_stats
    else if path == "/metrics"
    then some handle_prometheus
    else if path == "/healthz"
    then some handle_health
    else if path == "/readyz"
    then some handle_ready
    else none

unfoldable pub answer : {S : Type 0} → Result (Unit {0}) × Worker S → Result (Worker S)
answer (ok u, t) = ok t
answer (err e, t) = err e
answer (panic e, t) = panic e

module _ (x : Externals) {S : Type 0} (repo : EventRepository S) (took : ℕ → ℕ) where
  open x use {strict}

  -- `Start` on the worker that was made; the files are not changed by it.
  unfoldable pub started : Option Anchor → Worker S → Exec Disk (Worker S)
  unfolding answer
  started anchor w d = (answer (start x repo took anchor w), d)

  module _ (generate : ℕ → Option (Bytes × Bytes)) where
    -- The second part of `main`: the worker, on the database that `store.NewDB` returns. The pool,
    -- the identifiers and times, and the anchor are those that it finds.
    unfoldable pub run_worker :
        Result S → EventPool → ℕ → Option Anchor → String → Exec Disk (Worker S)
    unfolding mode_of started
    run_worker opens pool ticks anchor backpressure = do
      db ← lift opens
      worker ← new_worker x generate 1000 db ".logryph_key" pool ticks
      mode ← lift (mode_of backpressure)
      started anchor (set_backpressure_mode mode worker)

    module _ (parse_yaml : String → Result Config) (absolute : String → Result String)
        (files : String → Option PolicyFile) (parse_url : String → Result (Unit {0})) where
      -- `main`, up to the start of the servers. `observed` is the policy file as `Watch` first
      -- sees it.
      unfoldable pub main :
          Result S
          → (String → Option PolicyFile)
          → EventPool
          → ℕ
          → Option Anchor
          → Flags
          → Exec Disk (Program S)
      unfolding run_worker
      main opens observed pool ticks anchor flags = do
        lift (check strict (is_set flags.target) "target must not be empty")
        lift (check strict (ltb 0 flags.listen_port) "listen port must be positive")
        engine ← lift (new_observer_engine parse_yaml strict absolute files flags.config_path)
        worker ← run_worker opens pool ticks anchor flags.backpressure
        lift (parse_url flags.target)
        pure (record {
          watcher = watch (observed engine.config_path) engine;
          worker = worker;
          warnings = [];
        })

  unfoldable pub warn_on : String → Result (Unit {0}) → Exec (Program S) (Unit {0})
  warn_on text_ (ok u) p = (ok tt, p)
  warn_on text_ (err e) p = (ok tt, record p { warnings = p.warnings ++ text_ ∷ [] })
  warn_on text_ (panic e) p = (panic e, p)

  unfoldable pub stop_observer : Exec (Program S) (Unit {0})
  unfolding warn_on
  stop_observer p =
      let (r, e) = stop p.watcher.engine in
      warn_on "observer stop failed" r (record p { watcher = record (p.watcher) { engine = e } })

  unfoldable pub stop_worker : ℕ → Exec (Program S) (Unit {0})
  unfolding warn_on
  stop_worker timeout p =
      let (r, w) = Worker.shutdown x repo took timeout p.worker in
      warn_on "worker shutdown failed" r (record p { worker = w })

  -- A failed check of the timeout ends the function.
  unfoldable pub unless_refused :
      Result (Unit {0}) → Exec (Program S) (Unit {0}) → Exec (Program S) (Unit {0})
  unless_refused (ok u) rest = rest
  unless_refused (err e) rest = pure tt
  unless_refused (panic e) rest = lift (panic e)

  -- `gracefulShutdown`, where the two servers' `Shutdown` return `proxy` and `admin`.
  unfoldable pub graceful_shutdown :
      Result (Unit {0}) → Result (Unit {0}) → ℕ → Exec (Program S) (Unit {0})
  unfolding warn_on stop_observer stop_worker unless_refused
  graceful_shutdown proxy admin timeout =
      unless_refused (check strict (ltb 0 timeout) "timeout must be positive") (do
        warn_on "Proxy Server shutdown failed" proxy
        warn_on "Admin API shutdown failed" admin
        stop_observer
        stop_worker timeout)
