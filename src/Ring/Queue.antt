-- ===== src/Ring/Queue.antt =====
-- internal/ring/buffer.go: its contract, a first-in first-out queue of at most `cap` items.
use logryph.Base.{ℕ, Bool, List, [], ◌∷◌, ◌++◌, if◌then◌else◌, nat_eq, length}
use logryph.Base.Result.{message, Result, ok, err}
use logryph.Base.Exec.{Exec}

-- The calls that a client can make, and what each one returns.
pub data Call {ℓ} (A : Type ℓ) : Type ℓ where
  push : A → Call A
  pop : Call A
  is_full is_empty len cap : Call A

pub data Reply {ℓ} (A : Type ℓ) : Type ℓ where
  pushed : Result (Unit {0}) → Reply A
  popped : Result A → Reply A
  test : Bool → Reply A
  size : ℕ → Reply A

module _ {ℓ} {A : Type ℓ} where
  abbrev pub dequeue : Exec (List A) A
  dequeue [] = (err (message "ring buffer is empty"), [])
  dequeue (x ∷ q) = (ok x, q)

  abbrev pub enqueue : ℕ → A → Exec (List A) (Unit {0})
  enqueue bound x q =
      if nat_eq (length q) bound
      then (err (message "ring buffer is full"), q)
      else (ok tt, q ++ x ∷ [])

  unfoldable pub answer : ℕ → Call A → List A → Reply A × List A
  answer bound (Call.push x) q = let (r, q') = enqueue bound x q in (pushed r, q')
  answer bound Call.pop q = let (r, q') = dequeue q in (popped r, q')
  answer bound Call.is_full q = (test (nat_eq (length q) bound), q)
  answer bound Call.is_empty q = (test (nat_eq (length q) 0), q)
  answer bound Call.len q = (size (length q), q)
  answer bound Call.cap q = (size bound, q)

  unfoldable pub answers : ℕ → List (Call A) → List A → List (Reply A)
  answers bound [] q = []
  answers bound (c ∷ cs) q = let (r, q') = answer bound c q in r ∷ answers bound cs q'
