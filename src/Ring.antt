-- ===== src/Ring.antt =====
-- internal/ring/buffer.go: the ring buffer between the interceptor and the ledger worker. A method
-- that changes `*b` is an action on the buffer. The mutex makes each call one step.
pub mod Queue
pub mod Bounds
pub mod Refine
use logryph.Base.{
  ℕ, zero, suc, ◌+◌, ◌-◌, ◌%◌, ◌^◌, Bool, Option, none, some, List, if◌then◌else◌, ltb, nat_eq,
  length, get_elem?, set, replicate,
}
use logryph.Base.Result
use logryph.Base.Result.{Error, message, Result, ok, err, panic}
use logryph.Base.Exec.{Exec, pure, fail, lift, gets, ◌>>=◌, ◌>>◌}
use logryph.Assert.{check, in_range}

abbrev pub buffer_full : Error
buffer_full = message "ring buffer is full"

abbrev pub buffer_empty : Error
buffer_empty = message "ring buffer is empty"

-- What the Go runtime raises for an index outside a slice.
abbrev pub index_out_of_range : Error
index_out_of_range = message "index out of range"

-- `data` is called `slots` here.
pub record Buffer {ℓ} (A : Type ℓ) : Type ℓ where
  pub slots : List A
  pub capacity : ℕ
  pub head : ℕ
  pub tail : ℕ
  pub count : ℕ

-- `int` addition, on 64-bit patterns
abbrev pub add_int : ℕ → ℕ → ℕ
add_int a b = (a + b) % 2 ^ 64

-- `make([]T, capacity)` fills the slice with T's zero value, which is given. A capacity that is not
-- positive is 0 here.
unfoldable pub new {ℓ} : {A : Type ℓ} → Bool → A → ℕ → Result (Buffer A)
new strict zero_value capacity =
    Result.◌>>◌ (check strict (ltb 0 capacity) "capacity must be positive") (
      ok (record {
        slots = replicate capacity zero_value;
        capacity = capacity;
        head = 0;
        tail = 0;
        count = 0;
      }))

module _ {ℓ} {A : Type ℓ} where
  write_slot : ℕ → A → Exec (Buffer A) (Unit {0})
  write_slot i x b =
      if ltb i (length b.slots)
      then (ok tt, record b { slots = set b.slots i x })
      else (panic index_out_of_range, b)

  slot_value : Option A → Result A
  slot_value none = panic index_out_of_range
  slot_value (some x) = ok x

  read_slot : ℕ → Buffer A → Result A
  unfolding slot_value
  read_slot i b = slot_value (get_elem? b.slots i)

  -- `b.tail = (b.tail + 1) % b.capacity; b.count++`
  advance_tail : Exec (Buffer A) (Unit {0})
  advance_tail b =
      (ok tt, record b { tail = add_int b.tail 1 % b.capacity; count = add_int b.count 1 })

  -- `b.head = (b.head + 1) % b.capacity; b.count--`; the count is positive here
  advance_head : Exec (Buffer A) (Unit {0})
  advance_head b = (ok tt, record b { head = add_int b.head 1 % b.capacity; count = b.count - 1 })

  unfoldable pub push : Bool → A → Exec (Buffer A) (Unit {0})
  unfolding write_slot advance_tail
  push strict item b =
      if nat_eq b.count b.capacity
      then (err buffer_full, b)
      else (do
        lift (in_range strict b.tail 0 b.capacity "tail index")
        write_slot b.tail item
        advance_tail)
          b

  unfoldable pub pop : Bool → Exec (Buffer A) A
  unfolding read_slot advance_head
  pop strict b =
      if nat_eq b.count 0
      then (err buffer_empty, b)
      else (do
        lift (in_range strict b.head 0 b.capacity "head index")
        item ← lift (read_slot b.head b)
        advance_head
        pure item)
          b

  abbrev pub is_full : Buffer A → Bool
  is_full b = nat_eq b.count b.capacity

  abbrev pub is_empty : Buffer A → Bool
  is_empty b = nat_eq b.count 0

  abbrev pub len : Buffer A → ℕ
  len b = b.count

  abbrev pub cap : Buffer A → ℕ
  cap b = b.capacity
