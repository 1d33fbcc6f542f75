-- ===== src/Ring/Bounds.antt =====
-- internal/ring/buffer.go: the representation invariant of the ring buffer.
use native.Mathlib.Nat.{mod-eq_of_lt, mod-eq-sub-mod}
use logryph.Base.{
  ℕ, ◌+◌, ◌-◌, ◌%◌, ◌^◌, ◌≤◌, ◌<◌, ◌≡◌, ◌≢◌, arith, Bool, if◌then◌else◌, ltb, length, length-set,
  length-replicate, get_elem?, set, get_elem?_in, some, nat_eq, leb, ◌&&◌, true, false, ltb→lt,
  Bool-cases, inl, inr, ◌∙◌,
}
use logryph.Base.Result.{ok, err}
use logryph.Ring.{Buffer, new, push, pop, buffer_full, buffer_empty}

pub record IsValid {ℓ} {A : Type ℓ} (b : Buffer A) : Type 0 where
  pub storage : length b.slots ≡ b.capacity
  pub small : b.capacity < 2 ^ 63
  pub head_in : b.head < b.capacity
  pub count_in : b.count ≤ b.capacity
  pub tail_at : b.tail ≡ (b.head + b.count) % b.capacity

-- `%` of an index that went round at most once.
pub mod_once : (i n : ℕ) → i < n + n → i % n ≡ (if ltb i n then i else i - n)
mod_once i n h = elim (Bool-cases (ltb i n)) [
  | inl e ↦ rw e (mod-eq_of_lt (ltb→lt i n e))
  | inr e ↦ rw e (
      mod-eq-sub-mod {n = i} {m = n} (ground arith)
      ∙ mod-eq_of_lt {n = i - n} {m = n} (ground arith))
]

module _ {ℓ} {A : Type ℓ} where
  -- What `New` returns is valid and empty, if the capacity fits in an `int`.
  pub new-IsValid :
      (strict : Bool) (zero_value : A) (capacity : ℕ) {b : Buffer A}
      → capacity < 2 ^ 63
      → new strict zero_value capacity ≡ ok b
      → IsValid b × (b.count ≡ 0)
  unfolding new
  new-IsValid true z c h e = ground (arith, length-replicate c z, mod_once 0 c)
  new-IsValid false z c h e = ground (arith, length-replicate c z, mod_once 0 c)

  pub new-capacity :
      (strict : Bool) (zero_value : A) (capacity : ℕ) {b : Buffer A}
      → new strict zero_value capacity ≡ ok b
      → b.capacity ≡ capacity
  unfolding new
  new-capacity true z c e = ground arith
  new-capacity false z c e = ground arith

  tail_passes :
      {b : Buffer A}
      → IsValid b
      → ((leb 0 b.tail && ltb b.tail b.capacity) ≡ true) × (ltb b.tail (length b.slots) ≡ true)
  tail_passes {b} v = ground (arith, mod_once (b.head + b.count) b.capacity)

  -- On a valid buffer neither the assertion nor the index check of `Push` fails, and nothing wraps.
  pub push_closed :
      (strict : Bool) (x : A) {b : Buffer A}
      → IsValid b
      → push strict x b ≡ (
          if nat_eq b.count b.capacity then (err buffer_full, b) else (
            ok tt,
            record b {
              slots = set b.slots b.tail x;
              tail = (b.tail + 1) % b.capacity;
              count = b.count + 1;
            },
          ))
  unfolding push
  push_closed strict x {b} v = elim (Bool-cases (nat_eq b.count b.capacity)) [
    | inl e ↦ rw e
    | inr e ↦ rw (
      e,
      (tail_passes v).0,
      (tail_passes v).1,
      no_wrap b.tail (ground (arith, tail_passes v)),
      no_wrap b.count v.count_in,
    )
  ]
    where
      no_wrap : (i : ℕ) → i ≤ b.capacity → (i + 1) % 2 ^ 64 ≡ i + 1
      no_wrap i h = omega arith

  -- So too `Pop`, which takes the item at the head.
  pub pop_closed :
      (strict : Bool) (x : A) {b : Buffer A}
      → IsValid b
      → b.count ≢ 0
      → get_elem? b.slots b.head ≡ some x
      → pop strict b ≡ (ok x, record b { head = (b.head + 1) % b.capacity; count = b.count - 1 })
  unfolding pop
  pop_closed strict x {b} v h e = rw (not_zero, head_passes, e, no_wrap)
    where
      not_zero : nat_eq b.count 0 ≡ false
      not_zero = ground arith

      head_passes : (leb 0 b.head && ltb b.head b.capacity) ≡ true
      head_passes = ground arith

      no_wrap : (b.head + 1) % 2 ^ 64 ≡ b.head + 1
      no_wrap = omega arith

  pub pop_empty :
      (strict : Bool) {b : Buffer A} → b.count ≡ 0 → pop strict b ≡ (err buffer_empty, b)
  unfolding pop
  pop_empty strict {b} h = rw h

  pub head_item : {b : Buffer A} → IsValid b → (x : A) × (get_elem? b.slots b.head ≡ some x)
  head_item {b} v = get_elem?_in b.slots b.head (omega arith)

  -- `Push` keeps a buffer valid, full or not, in either assertion mode: storage, head, tail and
  -- count stay in their bounds.
  pub push-IsValid :
      (strict : Bool) (x : A) {b : Buffer A} → IsValid b → IsValid (push strict x b).1
  push-IsValid strict x {b} v = rw (push_closed strict x v) (
      ground (
        arith,
        length-set b.slots b.tail x,
        mod_once (b.head + b.count) b.capacity,
        mod_once (b.tail + 1) b.capacity,
        mod_once (b.head + (b.count + 1)) b.capacity,
      ))

  -- `Pop` keeps a buffer valid, empty or not, in either assertion mode.
  pub pop-IsValid : (strict : Bool) {b : Buffer A} → IsValid b → IsValid (pop strict b).1
  pop-IsValid strict {b} v = elim (Bool-cases (nat_eq b.count 0)) [
    | inl e ↦ rw (pop_empty strict {b = b} (ground arith)) v
    | inr e ↦
        let (x, got) = head_item v in
        rw (pop_closed strict x v (ground arith) got) (
          ground (
            arith,
            mod_once (b.head + b.count) b.capacity,
            mod_once (b.head + 1) b.capacity,
            mod_once ((b.head + 1) % b.capacity + (b.count - 1)) b.capacity,
          ))
  ]

  pub capacity-push :
      (strict : Bool) (x : A) {b : Buffer A} → IsValid b → (push strict x b).1.capacity ≡ b.capacity
  capacity-push strict x {b} v = elim (Bool-cases (nat_eq b.count b.capacity)) [
    | inl e ↦ rw (push_closed strict x v, e)
    | inr e ↦ rw (push_closed strict x v, e)
  ]

  pub capacity-pop :
      (strict : Bool) {b : Buffer A} → IsValid b → (pop strict b).1.capacity ≡ b.capacity
  capacity-pop strict {b} v = elim (Bool-cases (nat_eq b.count 0)) [
    | inl e ↦ rw (pop_empty strict {b = b} (ground arith))
    | inr e ↦ let (x, got) = head_item v in rw (pop_closed strict x v (ground arith) got)
  ]
