-- ===== src/Observer/Engine.antt =====
-- internal/observer/engine.go: the policy file and its reloading. Times of modification are counted
-- from Go's zero time.
use logryph.Base.{
  ℕ, Bool, true, false, Option, none, some, List, String, is_set, if◌then◌else◌, ltb, length,
}
use logryph.Base.Result.{message, wrapped, Result, ok, err, panic, with_context, ◌>>=◌, ◌>>◌}
use logryph.Assert.{check}
use logryph.Observer.{Rule}

pub record Defaults : Type 0 where
  pub retention_days : ℕ
  pub signing_enabled : Bool
  pub log_level : String

pub record Config : Type 0 where
  pub version : String
  pub defaults : Defaults
  pub policies : List Rule

-- `stopped` is whether stopChan is closed.
pub record ObserverEngine : Type 0 where
  pub config : Config
  pub config_path : String
  pub stopped : Bool

pub record PolicyFile : Type 0 where
  pub mod_time : ℕ
  pub content : String

-- The engine with the `lastMod` of its watching goroutine.
pub record Watcher : Type 0 where
  pub engine : ObserverEngine
  pub last_mod : ℕ

abbrev pub max_watch_ticks : ℕ
max_watch_ticks = 1073741824

-- `yaml.Unmarshal` into a Config, or its error
module _ (parse_yaml : String → Result Config) where
  -- `loadConfig` of what is at the path
  unfoldable pub load_config : Option PolicyFile → Result Config
  load_config none = err (wrapped "reading policy file" (message "open: no such file or directory"))
  load_config (some f) = with_context "parsing policy YAML" (parse_yaml f.content)

  -- Where the path cannot be made absolute, it is kept.
  unfoldable pub or_path : String → Result String → String
  or_path path (ok s) = s
  or_path path _ = path

  -- `NewObserverEngine`; `absolute` is filepath.Abs.
  unfoldable pub new_observer_engine :
      Bool
      → (String → Result String)
      → (String → Option PolicyFile)
      → String
      → Result ObserverEngine
  unfolding or_path load_config
  new_observer_engine strict absolute files config_path = do
    check strict (is_set config_path) "config path must not be empty"
    let path = or_path config_path (absolute config_path)
    config ← load_config (files path)
    ok (record { config = config; config_path = path; stopped = false })

  unfoldable pub use_config : Result Config → ObserverEngine → Result (Unit {0}) × ObserverEngine
  use_config (ok config) e = (ok tt, record e { config = config })
  use_config (err why) e = (err why, e)
  use_config (panic why) e = (panic why, e)

  -- `Reload`, of what is at the engine's path
  unfoldable pub reload : Option PolicyFile → ObserverEngine → Result (Unit {0}) × ObserverEngine
  unfolding load_config use_config
  reload file e = use_config (load_config file) e

  -- The modification is noted only if the file was loaded.
  unfoldable pub after_reload : ℕ → Watcher → Result (Unit {0}) × ObserverEngine → Watcher
  after_reload seen w (ok u, e) = record { engine = e; last_mod = seen }
  after_reload seen w (_, e) = record w { engine = e }

  -- `if stat.ModTime().After(lastMod)`
  unfoldable pub when_newer : Option PolicyFile → Option PolicyFile → Watcher → Watcher
  unfolding reload after_reload
  when_newer none at_read w = w
  when_newer (some f) at_read w =
      if ltb w.last_mod f.mod_time then after_reload f.mod_time w (reload at_read w.engine) else w

  -- A tick of `Watch`: the file may change between `os.Stat` and the reading of it.
  unfoldable pub watch_tick : Option PolicyFile → Option PolicyFile → Watcher → Watcher
  unfolding when_newer
  watch_tick at_stat at_read w = when_newer at_stat at_read w

-- The first `os.Stat` of the goroutine that `Watch` starts
unfoldable pub watch : Option PolicyFile → ObserverEngine → Watcher
watch none e = record { engine = e; last_mod = 0 }
watch (some f) e = record { engine = e; last_mod = f.mod_time }

-- `Stop`: the channel is closed once.
unfoldable pub stop : ObserverEngine → Result (Unit {0}) × ObserverEngine
stop e = (ok tt, record e { stopped = true })

unfoldable pub get_version : ObserverEngine → String
get_version e = e.config.version

unfoldable pub get_rule_count : ObserverEngine → ℕ
get_rule_count e = length e.config.policies

unfoldable pub get_policies : ObserverEngine → List Rule
get_policies e = e.config.policies
