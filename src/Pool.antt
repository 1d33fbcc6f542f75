-- ===== src/Pool.antt =====
-- internal/pool/pool.go: the pool of events and its counters. `sync.Pool` may hand out any event
-- that was put, or a new one, and may forget some: `choices` says what each call of `Get` takes.
pub mod Clean
pub mod Buffers
use logryph.Base.{
  ℕ, zero, suc, ◌+◌, ◌%◌, ◌^◌, Bool, false, Option, none, some, List, [], ◌∷◌, leb, if◌then◌else◌,
  get_elem?,
}
use logryph.Base.Result.{Result, ok, err, panic}
use logryph.Base.Exec.{Exec, lift, ◌>>=◌, ◌>>◌}
use logryph.Assert.{check}
use logryph.Json.{Fields, end, field, size}
use logryph.Event.{Time, Event, Map, empty_event}

abbrev pub max_event_fields : ℕ
max_event_fields = 256

-- The two counters of `Metrics` that the event pool keeps, 64-bit each.
pub record EventPool : Type 0 where
  pub free : List Event
  -- For each later `Get`, the place of the event that it takes, or that it takes a new one.
  pub choices : List (Option ℕ)
  pub event_hits : ℕ
  pub event_misses : ℕ

abbrev pub add_uint64 : ℕ → ℕ → ℕ
add_uint64 a b = (a + b) % 2 ^ 64

-- The pool's `New`: an event with an empty Params map.
from_new : EventPool → Event × EventPool
from_new p = (
  record empty_event { params = some end },
  record p { event_misses = add_uint64 p.event_misses 1 },
)

remove_at : ℕ → List Event → List Event
remove_at i [] = []
remove_at zero (e ∷ es) = es
remove_at (suc i) (e ∷ es) = e ∷ remove_at i es

-- A place without an event gives a new one.
take_at : ℕ → Option Event → EventPool → Event × EventPool
unfolding from_new remove_at
take_at i none p = from_new p
take_at i (some e) p = (e, record p { free = remove_at i p.free })

-- `sync.Pool.Get`; without a choice it takes a new event.
pool_get : List (Option ℕ) → EventPool → Event × EventPool
unfolding from_new take_at
pool_get [] p = from_new p
pool_get (none ∷ cs) p = from_new (record p { choices = cs })
pool_get (some i ∷ cs) p = take_at i (get_elem? p.free i) (record p { choices = cs })

unfoldable pub get_event : EventPool → Event × EventPool
unfolding pool_get
get_event p =
    let (e, p') = pool_get p.choices p in (e, record p' { event_hits = add_uint64 p'.event_hits 1 })

-- `t.Truncate(0)` strips the monotonic reading and keeps the rest.
abbrev pub strip_monotonic : Time → Time
strip_monotonic t = record t { monotonic = none }

-- One round of the clearing loop deletes the first key that the range yields.
delete_first : Fields → Fields
delete_first end = end
delete_first (field k v m) = m

delete_rounds : ℕ → Fields → Fields
unfolding delete_first
delete_rounds zero m = m
delete_rounds (suc n) m = delete_rounds n (delete_first m)

-- Ranging over a nil map yields no key.
clear_map : Map → Map
unfolding delete_rounds
clear_map none = none
clear_map (some m) = some (delete_rounds max_event_fields m)

abbrev pub map_size : Map → ℕ
map_size none = 0
map_size (some m) = size m

reset_fields : Event → Event
reset_fields e = record {
  id = "";
  run_id = "";
  seq_index = 0;
  timestamp = strip_monotonic e.timestamp;
  actor = "";
  event_type = "";
  method = "";
  params = e.params;
  response = e.response;
  task_id = "";
  task_state = "";
  parent_id = "";
  policy_id = "";
  risk_level = "";
  prev_hash = "";
  current_hash = "";
  signature = "";
  was_blocked = false;
}

clear_maps : Event → Event
unfolding clear_map
clear_maps e = record e { params = clear_map e.params; response = clear_map e.response }

pool_put : Event → Exec EventPool (Unit {0})
pool_put e p = (ok tt, record p { free = e ∷ p.free })

-- `return` in a guard of a function with no result: an error ends the call and is dropped.
abbrev pub or_return {ℓ} : {S : Type ℓ} → Result (Unit {0}) → Exec S (Unit {0}) → Exec S (Unit {0})
or_return (ok u) rest = rest
or_return (err e) rest = λ s. (ok tt, s)
or_return (panic e) rest = λ s. (panic e, s)

-- `PutEvent`; a nil event is `none`.
unfoldable pub put_event : Bool → Option Event → Exec EventPool (Unit {0})
unfolding reset_fields clear_maps pool_put
put_event strict none = λ p. (ok tt, p)
put_event strict (some e) =
    or_return (check strict (leb (map_size e.params) max_event_fields) "params map too large") (
      or_return (check strict (leb (map_size e.response) max_event_fields) "response map too large")
        (pool_put (clear_maps (reset_fields e))))
