-- ===== src/Assert.antt =====
-- internal/assert/assert.go: assertions that return an error, or panic in strict mode.
use logryph.Base.{◌≡◌, refl, Bool, true, false, ◌&&◌, ℕ, String, Option, leb, ltb}
use logryph.Base.Result.{Result, ok, err, panic, assertion}

-- The log line that is printed on a failure is not modelled. `strict` is the global StrictMode.
abbrev pub check : Bool → Bool → String → Result (Unit {0})
check strict true msg = ok tt
check true false msg = panic (assertion msg)
check false false msg = err (assertion msg)

-- The range is `[min, bound)`: the callers pass a maximum of `bound - 1`, which is -1 at 0.
abbrev pub in_range : Bool → ℕ → ℕ → ℕ → String → Result (Unit {0})
in_range strict val min bound name = check strict (leb min val && ltb val bound) name

-- An `interface{}` argument: nil itself, or a pointer in a box, which is nil or not.
pub data Interface {ℓ} (A : Type ℓ) : Type ℓ where
  untyped_nil : Interface A
  boxed : Option A → Interface A

-- `obj != nil` of an interface: any box is different from nil.
is_not_nil {ℓ} : {A : Type ℓ} → Interface A → Bool
is_not_nil untyped_nil = false
is_not_nil (boxed p) = true

unfoldable pub not_nil {ℓ} : {A : Type ℓ} → Bool → Interface A → String → Result (Unit {0})
unfolding is_not_nil
not_nil strict obj name = check strict (is_not_nil obj) name

-- A call of `not_nil` on a typed pointer succeeds whatever the pointer is, also when it is nil: the
-- guard can only fail on an untyped nil.
pub not_nil-boxed {ℓ} :
    {A : Type ℓ} (strict : Bool) (p : Option A) (name : String)
    → not_nil strict (boxed p) name ≡ ok tt
unfolding not_nil
not_nil-boxed strict p name = refl

-- Only a condition that holds lets the caller go on, in either mode.
pub check-eq-ok :
    (strict b : Bool) (msg : String) {u : Unit {0}} → check strict b msg ≡ ok u → b ≡ true
check-eq-ok strict true msg h = refl
check-eq-ok true false msg h = cc
check-eq-ok false false msg h = cc
