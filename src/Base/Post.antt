-- ===== src/Base/Post.antt =====
-- Postconditions of an action: one for a value, and one for the state that a failure leaves.
use logryph.Base.{◌≡◌, refl}
use logryph.Base.Result.{Result, ok, err, panic, with_context}
use logryph.Base.Exec.{Exec, continue, ◌>>=◌}

module _ {ℓ κ} {S : Type ℓ} {A : Type κ} where
  abbrev pub Ends {μ} : (A → S → Type μ) → (S → Type μ) → Result A → S → Type μ
  Ends Q R (ok a) s = Q a s
  Ends Q R (err e) s = R s
  Ends Q R (panic e) s = R s

  abbrev pub Post {μ} : (A → S → Type μ) → (S → Type μ) → Result A × S → Type μ
  Post Q R o = Ends Q R o.0 o.1

module _ {ℓ κ μ ν} {S : Type ℓ} {A : Type κ} {B : Type μ} where
  Ends-continue :
      (Q : A → S → Type ν) (R : S → Type ν) (P : B → S → Type ν) (r : Result A) (s : S)
      (f : A → Exec S B)
      → Ends Q R r s
      → ((a : A) (t : S) → Q a t → r ≡ ok a → Post P R (f a t))
      → Post P R (continue r f s)
  Ends-continue Q R P (ok a) s f h k = k a s h refl
  Ends-continue Q R P (err e) s f h k = h
  Ends-continue Q R P (panic e) s f h k = h

  -- The rule for a sequence of two actions.
  pub Post-bind :
      (Q : A → S → Type ν) (R : S → Type ν) (P : B → S → Type ν) (m : Exec S A) (f : A → Exec S B)
      (s : S)
      → Post Q R (m s)
      → ((a : A) (t : S) → Q a t → (m s).0 ≡ ok a → Post P R (f a t))
      → Post P R ((m >>= f) s)
  Post-bind Q R P m f s h k = Ends-continue Q R P (m s).0 (m s).1 f h k

module _ {ℓ κ μ} {S : Type ℓ} {A : Type κ} where
  pub Ends-with_context :
      (Q : A → S → Type μ) (R : S → Type μ) (c : _) (r : Result A) (s : S)
      → Ends Q R r s
      → Ends Q R (with_context c r) s
  Ends-with_context Q R c (ok a) s h = h
  Ends-with_context Q R c (err e) s h = h
  Ends-with_context Q R c (panic e) s h = h

  -- A lifted result leaves the state.
  pub Ends-lift : (R : S → Type μ) (r : Result A) (s : S) → R s → Ends (λ a t. R t) R r s
  Ends-lift R (ok a) s h = h
  Ends-lift R (err e) s h = h
  Ends-lift R (panic e) s h = h

  -- What holds after a call whatever it returns.
  pub Ends-any : (R : S → Type μ) (r : Result A) (s : S) → Ends (λ a t. R t) R r s → R s
  Ends-any R (ok a) s h = h
  Ends-any R (err e) s h = h
  Ends-any R (panic e) s h = h

  -- A stronger postcondition gives a weaker one.
  pub Ends-weaken {ν} :
      (Q : A → S → Type μ) (Q' : A → S → Type ν) (R : S → Type μ) (R' : S → Type ν) (r : Result A)
      (s : S)
      → ((a : A) (t : S) → Q a t → Q' a t)
      → ((t : S) → R t → R' t)
      → Ends Q R r s
      → Ends Q' R' r s
  Ends-weaken Q Q' R R' (ok a) s f g h = f a s h
  Ends-weaken Q Q' R R' (err e) s f g h = g s h
  Ends-weaken Q Q' R R' (panic e) s f g h = g s h

  -- Two postconditions of one outcome.
  pub Ends-both {ν} :
      (Q : A → S → Type μ) (Q' : A → S → Type ν) (R : S → Type μ) (R' : S → Type ν) (r : Result A)
      (s : S)
      → Ends Q R r s
      → Ends Q' R' r s
      → Ends (λ a t. Q a t × Q' a t) (λ t. R t × R' t) r s
  Ends-both Q Q' R R' (ok a) s h k = (h, k)
  Ends-both Q Q' R R' (err e) s h k = (h, k)
  Ends-both Q Q' R R' (panic e) s h k = (h, k)
