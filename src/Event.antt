-- ===== src/Event.antt =====
-- internal/models/event.go: the recorded event, and the dynamic values that it carries.
use logryph.Base.{ℕ, Bool, Option, none, some, String, false}
use logryph.Json.{Value, null, object, Fields}

-- `time.Time`: the wall clock, the zone, and the monotonic reading that `time.Now` adds.
pub record Time : Type 0 where
  pub wall : ℕ
  pub zone : ℕ
  pub monotonic : Option ℕ

-- Go's zero time.
abbrev pub zero_time : Time
zero_time = record { wall = 0; zone = 0; monotonic = none }

-- A nil map is `none`.
abbrev pub Map : Type 0
Map = Option Fields

abbrev pub map_value : Map → Value
map_value none = null
map_value (some m) = object m

pub record Event : Type 0 where
  pub id : String
  pub run_id : String
  pub seq_index : ℕ
  pub timestamp : Time
  pub actor : String
  pub event_type : String
  pub method : String
  pub params : Map
  pub response : Map
  pub task_id : String
  pub task_state : String
  pub parent_id : String
  pub policy_id : String
  pub risk_level : String
  pub prev_hash : String
  pub current_hash : String
  pub signature : String
  pub was_blocked : Bool

-- `models.Event{}`
abbrev pub empty_event : Event
empty_event = record {
  id = "";
  run_id = "";
  seq_index = 0;
  timestamp = zero_time;
  actor = "";
  event_type = "";
  method = "";
  params = none;
  response = none;
  task_id = "";
  task_state = "";
  parent_id = "";
  policy_id = "";
  risk_level = "";
  prev_hash = "";
  current_hash = "";
  signature = "";
  was_blocked = false;
}
