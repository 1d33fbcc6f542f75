-- ===== src/Base/Result.antt =====
-- Go errors, and what a call can end in: a value, an error that the caller sees, or a panic that
-- unwinds the goroutine.
use Prim.Native.String.{String}
use mathlib.Core.Bool.{Bool, true, false}
use mathlib.Core.Path.{◌≡◌, refl}
use mathlib.Core.Logic.{◌⊎◌, inl, inr}

-- `message` is errors.New or an error of a library, `assertion` that of assert.Check, and
-- `wrapped` is fmt.Errorf with `%w`. The arguments that a format prints are left out.
pub data Error : Type 0 where
  message : String → Error
  assertion : String → Error
  wrapped : String → Error → Error

pub data Result {ℓ} (A : Type ℓ) : Type ℓ where
  ok : A → Result A
  err : Error → Result A
  panic : Error → Result A

module _ {ℓ κ} {A : Type ℓ} {B : Type κ} where
  infixl 10 ◌>>=◌ ◌>>◌
  -- The rest of a function runs where the call before it gave a value.
  abbrev pub ◌>>=◌ : Result A → (A → Result B) → Result B
  (panic why) >>= rest = panic why
  (err why) >>= rest = err why
  (ok value) >>= rest = rest value

  abbrev pub ◌>>◌ : Result A → Result B → Result B
  call >> rest = call >>= λ _. rest

-- `if err != nil { return fmt.Errorf("context: %w", err) }`
abbrev pub with_context {ℓ} : {A : Type ℓ} → String → Result A → Result A
with_context s (ok a) = ok a
with_context s (err e) = err (wrapped s e)
with_context s (panic e) = panic e

-- `if !b { return e }`
abbrev pub guard : Bool → Error → Result (Unit {0})
guard true e = ok tt
guard false e = err e

pub Result-cases {ℓ} :
    {A : Type ℓ} (r : Result A)
    → ((a : A) × (r ≡ ok a)) ⊎ ((e : Error) × (r ≡ err e)) ⊎ ((e : Error) × (r ≡ panic e))
Result-cases (ok a) = inl (a, refl)
Result-cases (err e) = inr (inl (e, refl))
Result-cases (panic e) = inr (inr (e, refl))

-- Inversions of a call that succeeded.
module _ {ℓ κ} {A : Type ℓ} {B : Type κ} where
  pub bind-eq-ok :
      (call : Result A) (rest : A → Result B) {result : B}
      → (call >>= rest) ≡ ok result
      → (value : A) × (call ≡ ok value) × (rest value ≡ ok result)
  bind-eq-ok (panic why) rest h = cc
  bind-eq-ok (err why) rest h = cc
  bind-eq-ok (ok value) rest h = (value, refl, h)

pub with_context-eq-ok {ℓ} :
    {A : Type ℓ} (c : String) (m : Result A) {a : A} → with_context c m ≡ ok a → m ≡ ok a
with_context-eq-ok c (ok a) h = h
with_context-eq-ok c (err e) h = cc
with_context-eq-ok c (panic e) h = cc

pub guard-eq-ok : (b : Bool) (e : Error) {u : Unit {0}} → guard b e ≡ ok u → b ≡ true
guard-eq-ok true e h = refl
guard-eq-ok false e h = cc

pub ok_injective {ℓ} : {A : Type ℓ} {a b : A} → ◌≡◌ {A = Result A} (ok a) (ok b) → a ≡ b
ok_injective h = cc
