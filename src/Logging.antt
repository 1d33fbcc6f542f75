-- ===== src/Logging.antt =====
-- internal/logging/logger.go: the levels of the log, and what is printed. A text's characters have
-- one byte each here; that is so for the levels and for the messages of the program.
pub mod Levels
use Prim.Native.String as Str
use logryph.Base.{
  ℕ, Bool, true, false, Option, none, some, List, [], ◌∷◌, ◌++◌, String, ◌==◌, is_set,
  if◌then◌else◌, leb,
}
use logryph.Base.Result.{Result, ok, err, panic}
use logryph.Base.Exec.{Exec, pure, lift, ◌>>=◌, ◌>>◌}
use logryph.Assert.{check}
use logryph.Pool.{or_return}

pub record Fields : Type 0 where
  pub request_id : String
  pub task_id : String
  pub method : String
  pub policy_id : String
  pub risk_level : String
  pub event_id : String
  pub run_id : String
  pub component : String
  pub error : String

pub record Entry : Type 0 where
  pub timestamp : String
  pub level : String
  pub message : String
  pub fields : Fields

-- The package's variables: whether `levelOnce` is done, the least level, and what was printed.
pub record Logger : Type 0 where
  pub level_once : Bool
  pub min_level : ℕ
  pub printed : List String

abbrev pub level_debug : ℕ
level_debug = 0

abbrev pub level_info : ℕ
level_info = 1

abbrev pub level_warn : ℕ
level_warn = 2

abbrev pub level_error : ℕ
level_error = 3

abbrev pub level_critical : ℕ
level_critical = 4

abbrev pub log_marshal_failed : String
log_marshal_failed = "log_marshal_failed"

-- The switch of `levelValue`
unfoldable pub value_of : String → ℕ
value_of level =
    if level == "debug"
    then level_debug
    else if level == "info"
    then level_info
    else if level == "warn"
    then level_warn
    else if level == "error"
    then level_error
    else if level == "critical"
    then level_critical
    else level_info

-- `if err := assert.Check(…); err != nil { return a }`
unfoldable pub or_else {ℓ} : {A : Type ℓ} → A → Result (Unit {0}) → Result A → Result A
or_else a (ok u) rest = rest
or_else a (err e) rest = ok a
or_else a (panic e) rest = panic e

unfoldable pub level_value : Bool → String → Result ℕ
unfolding value_of or_else
level_value strict level =
    or_else level_info (check strict (is_set level) "log level must not be empty") (
      or_else level_info (check strict (leb (Str.len level) 16) "log level too long")
        (ok (value_of level)))

-- The default of the environment's level
unfoldable pub or_info : String → String
or_info env = if is_set env then env else "info"

-- `env` is the lower-case text of LOGRYPH_LOG_LEVEL; `now` is the time as it is printed, and
-- `marshal` is json.Marshal.
module _ (strict : Bool) (env now : String) (marshal : Entry → Option String) where
  set_level : Result ℕ → Exec Logger (Unit {0})
  set_level (ok n) l = (ok tt, record l { level_once = true; min_level = n })
  set_level (err e) l = (ok tt, l)
  -- `sync.Once` is done also if its function panics.
  set_level (panic e) l = (panic e, record l { level_once = true })

  -- `levelOnce.Do`
  unfoldable pub once : Bool → Exec Logger (Unit {0})
  unfolding set_level or_info
  once true = pure tt
  once false = set_level (level_value strict (or_info env))

  unfoldable pub compare_level : String → Exec Logger Bool
  compare_level level l = (do n ← lift (level_value strict level); pure (leb l.min_level n)) l

  -- `shouldLog`, behind its checks
  unfoldable pub decide : String → Exec Logger Bool
  unfolding once compare_level
  decide level l = (once l.level_once >> compare_level level) l

  unfoldable pub refuse : Result (Unit {0}) → Exec Logger Bool → Exec Logger Bool
  refuse (ok u) rest = rest
  refuse (err e) rest = pure false
  refuse (panic e) rest = lift (panic e)

  unfoldable pub should_log : String → Exec Logger Bool
  unfolding decide refuse
  should_log level =
      refuse (check strict (is_set level) "log level must not be empty")
        (refuse (check strict (leb (Str.len level) 16) "log level too long") (decide level))

  unfoldable pub line_of : Option String → String
  line_of none = log_marshal_failed
  line_of (some payload) = payload

  unfoldable pub print_entry : Entry → Exec Logger (Unit {0})
  unfolding line_of
  print_entry e l = (ok tt, record l { printed = l.printed ++ line_of (marshal e) ∷ [] })

  abbrev pub entry : String → String → Fields → Entry
  entry level msg fields = record { timestamp = now; level = level; message = msg; fields = fields }

  unfoldable pub log_with_level : String → String → Fields → Exec Logger (Unit {0})
  unfolding should_log print_entry
  log_with_level level msg fields =
      or_return (check strict (is_set level) "log level must not be empty") (
        or_return (check strict (is_set msg) "log message must not be empty") (do
          wanted ← should_log level
          (if wanted then print_entry (entry level msg fields) else pure tt)))

  -- The body that the five functions share
  unfoldable pub log : String → String → Fields → Exec Logger (Unit {0})
  unfolding log_with_level
  log level msg fields = or_return (check strict (is_set msg) "log message must not be empty") (
      or_return (check strict (leb (Str.len msg) 2048) "log message too large")
        (log_with_level level msg fields))

  unfoldable pub debug : String → Fields → Exec Logger (Unit {0})
  unfolding log
  debug = log "debug"

  unfoldable pub info : String → Fields → Exec Logger (Unit {0})
  unfolding log
  info = log "info"

  unfoldable pub warn : String → Fields → Exec Logger (Unit {0})
  unfolding log
  warn = log "warn"

  unfoldable pub error : String → Fields → Exec Logger (Unit {0})
  unfolding log
  error = log "error"

  unfoldable pub critical : String → Fields → Exec Logger (Unit {0})
  unfolding log
  critical = log "critical"
