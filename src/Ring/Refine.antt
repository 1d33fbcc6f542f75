-- ===== src/Ring/Refine.antt =====
-- internal/ring/buffer.go: a buffer and the queue of the items that it holds.
use native.Mathlib.Nat.{add-zero, mod-eq_of_lt, mod-add-mod}
use native.Mathlib.Numerals.{add-one}
use logryph.Base.{
  sym, subst, Bool-cases, inl, inr, ℕ, zero, suc, ◌+◌, ◌-◌, ◌%◌, ◌≤◌, ◌<◌, ◌≡◌, ◌≢◌, refl, ap, ap₂,
  ◌∙◌, arith, Bool, Option, none, some, List, [], ◌∷◌, ◌++◌, nat_eq, length, get_elem?, set,
  length-append, get_elem?-set_self, get_elem?-set_ne, get_elem?_in,
}
use logryph.Base.Result.{ok, err}
use logryph.Ring.{buffer_empty, Buffer, push, pop, is_full, is_empty, len, cap}
use logryph.Ring.Bounds.{
  IsValid, mod_once, push_closed, pop_closed, pop_empty, head_item, push-IsValid, pop-IsValid,
  capacity-push, capacity-pop,
}
use logryph.Ring.Queue.{Call, Reply, pushed, popped, test, size, enqueue, dequeue, answer, answers}

item_at {ℓ} : {A : Type ℓ} → Option A → List A
item_at none = []
item_at (some x) = x ∷ []

module _ {ℓ} {A : Type ℓ} (slots : List A) (capacity : ℕ) where
  -- The `n` items from index `h` on, going round at the capacity.
  span : ℕ → ℕ → List A
  unfolding item_at
  span h zero = []
  span h (suc n) = span h n ++ item_at (get_elem? slots ((h + n) % capacity))

-- What a buffer holds, the oldest item first.
unfoldable pub contents {ℓ} : {A : Type ℓ} → Buffer A → List A
unfolding span
contents b = span b.slots b.capacity b.head b.count

module _ {ℓ} {A : Type ℓ} where
  length-span :
      (slots : List A) (c h n : ℕ)
      → length slots ≡ c
      → h < c
      → n ≤ c
      → length (span slots c h n) ≡ n
  unfolding span
  length-span slots c h zero e hh hn = refl
  length-span slots c h (suc n) e hh hn =
      let (x, got) = get_elem?_in slots ((h + n) % c) (ground (arith, mod_once (h + n) c)) in
      rw got (
        omega (
          arith,
          length-append (span slots c h n) (x ∷ []),
          length-span slots c h n e hh (omega arith),
        ))

  -- A write at an index that the span does not reach leaves it as it is.
  span-set :
      (slots : List A) (c h n k : ℕ) (x : A)
      → h < c
      → n ≤ k
      → k < c
      → span (set slots ((h + k) % c) x) c h n ≡ span slots c h n
  unfolding span
  span-set slots c h zero k x hh hn hk = refl
  span-set slots c h (suc n) k x hh hn hk =
      ap₂ (λ xs o. xs ++ item_at o) (span-set slots c h n k x hh (omega arith) hk)
        (get_elem?-set_ne slots x (ground (arith, mod_once (h + k) c, mod_once (h + n) c)))

  -- The span from the next place on, behind the item at the first.
  span-tail :
      (slots : List A) (c h n : ℕ) (x : A)
      → h < c
      → get_elem? slots h ≡ some x
      → span slots c h (suc n) ≡ x ∷ span slots c ((h + 1) % c) n
  unfolding span
  span-tail slots c h zero x hh e = rw (add-zero h, mod-eq_of_lt hh, e)
  span-tail slots c h (suc n) x hh e = rw (span-tail slots c h n x hh e, next_place)
    where
      next_place : (h + suc n) % c ≡ ((h + 1) % c + n) % c
      next_place = rw mod-add-mod (ap (λ i. i % c) (omega arith))

  pub length-contents : (b : Buffer A) → IsValid b → length (contents b) ≡ b.count
  unfolding contents
  length-contents b v = length-span b.slots b.capacity b.head b.count v.storage v.head_in v.count_in

  pub contents-write :
      (x : A) {b : Buffer A}
      → IsValid b
      → b.count < b.capacity
      → contents (record b {
        slots = set b.slots b.tail x;
        tail = (b.tail + 1) % b.capacity;
        count = b.count + 1;
      })
        ≡ contents b ++ x ∷ []
  unfolding contents
  contents-write x {b} v h = rw (add-one, written) (ap (λ q. q ++ x ∷ []) kept)
    where
      written : get_elem? (set b.slots b.tail x) ((b.head + b.count) % b.capacity) ≡ some x
      written = rw (← v.tail_at) (
          get_elem?-set_self b.slots b.tail x
            (ground (arith, mod_once (b.head + b.count) b.capacity)))

      kept : span (set b.slots b.tail x) b.capacity b.head b.count ≡ contents b
      kept =
          subst (λ i. span (set b.slots i x) b.capacity b.head b.count ≡ contents b) (sym v.tail_at)
            (span-set b.slots b.capacity b.head b.count b.count x v.head_in (omega arith) h)

  contents-read :
      (x : A) {b : Buffer A}
      → IsValid b
      → b.count ≢ 0
      → get_elem? b.slots b.head ≡ some x
      → contents b
        ≡ x ∷ contents (record b { head = (b.head + 1) % b.capacity; count = b.count - 1 })
  unfolding contents
  contents-read x {b} v h e =
      ap (span b.slots b.capacity b.head) one_more
      ∙ span-tail b.slots b.capacity b.head (b.count - 1) x v.head_in e
    where
      one_more : b.count ≡ suc (b.count - 1)
      one_more = omega arith

  -- `Push` returns what the queue returns, and leaves the buffer holding the queue.
  pub push_refines :
      (strict : Bool) (x : A) {b : Buffer A}
      → IsValid b
      → let (r, b') = push strict x b in (r, contents b') ≡ enqueue b.capacity x (contents b)
  push_refines strict x {b} v = elim (Bool-cases (nat_eq b.count b.capacity)) [
    | inl e ↦ rw (push_closed strict x v, length-contents b v, e)
    | inr e ↦
        rw (push_closed strict x v, length-contents b v, e)
          (ap (λ q. (ok tt, q)) (contents-write x v (ground arith)))
  ]

  -- `Pop` returns what the queue returns, and leaves the buffer holding the rest.
  pub pop_refines :
      (strict : Bool) {b : Buffer A}
      → IsValid b
      → let (r, b') = pop strict b in (r, contents b') ≡ dequeue (contents b)
  pop_refines strict {b} v = elim (Bool-cases (nat_eq b.count 0)) [
    | inl e ↦
        let empty : b.count ≡ 0 = ground arith in
        rw (pop_empty strict {b = b} empty) (contents_empty empty)
    | inr e ↦
        let (x, got) = head_item v in
        rw (pop_closed strict x v (ground arith) got, contents-read x v (ground arith) got)
  ]
    where
      contents_empty : b.count ≡ 0 → (err buffer_empty, contents b) ≡ dequeue (contents b)
      contents_empty e = unfold contents in rw e

  -- What a client's calls return, on the buffer.
  pub replies : Bool → List (Call A) → Buffer A → List (Reply A)
  replies strict [] b = []
  replies strict (Call.push x ∷ cs) b =
      let (r, b') = push strict x b in pushed r ∷ replies strict cs b'
  replies strict (Call.pop ∷ cs) b = let (r, b') = pop strict b in popped r ∷ replies strict cs b'
  replies strict (Call.is_full ∷ cs) b = test (is_full b) ∷ replies strict cs b
  replies strict (Call.is_empty ∷ cs) b = test (is_empty b) ∷ replies strict cs b
  replies strict (Call.len ∷ cs) b = size (len b) ∷ replies strict cs b
  replies strict (Call.cap ∷ cs) b = size (cap b) ∷ replies strict cs b

  -- Every sequence of calls on a valid buffer is answered as a first-in first-out queue of the
  -- same capacity answers it, in either assertion mode.
  pub replies_refine :
      (strict : Bool) (cs : List (Call A)) {b : Buffer A}
      → IsValid b
      → replies strict cs b ≡ answers b.capacity cs (contents b)
  unfolding replies answers answer
  replies_refine strict [] v = refl
  replies_refine strict (Call.push x ∷ cs) {b} v = rw (
    replies_refine strict cs (push-IsValid strict x v),
    ← push_refines strict x v,
    capacity-push strict x v,
  )
  replies_refine strict (Call.pop ∷ cs) {b} v = rw (
    replies_refine strict cs (pop-IsValid strict v),
    ← pop_refines strict v,
    capacity-pop strict v,
  )
  replies_refine strict (Call.is_full ∷ cs) {b} v =
      rw (replies_refine strict cs v, length-contents b v)
  replies_refine strict (Call.is_empty ∷ cs) {b} v =
      rw (replies_refine strict cs v, length-contents b v)
  replies_refine strict (Call.len ∷ cs) {b} v = rw (replies_refine strict cs v, length-contents b v)
  replies_refine strict (Call.cap ∷ cs) {b} v = rw (replies_refine strict cs v)
