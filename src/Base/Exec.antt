-- ===== src/Base/Exec.antt =====
-- Methods that change an object and may fail: what was written before a failure stays written.
use Prim.Native.String.{String}
use mathlib.Core.Path.{◌≡◌, refl, ap, ap₂}
use logryph.Base.Result.{Result, ok, err, panic, Error, with_context, with_context-eq-ok}

abbrev pub Exec {ℓ κ} : Type ℓ → Type κ → Type (ℓ ⊔ κ)
Exec S A = S → Result A × S

module _ {ℓ κ} {S : Type ℓ} {A : Type κ} where
  abbrev pub pure : A → Exec S A
  pure a s = (ok a, s)

  abbrev pub fail : Error → Exec S A
  fail e s = (err e, s)

  abbrev pub lift : Result A → Exec S A
  lift r s = (r, s)

  abbrev pub gets : (S → A) → Exec S A
  gets f s = (ok (f s), s)

  abbrev pub with_context_in : String → Exec S A → Exec S A
  with_context_in c m s = let (r, s') = m s in (with_context c r, s')

module _ {ℓ κ μ} {S : Type ℓ} {A : Type κ} {B : Type μ} where
  abbrev pub continue : Result A → (A → Exec S B) → Exec S B
  continue (ok a) f s = f a s
  continue (err e) f s = (err e, s)
  continue (panic e) f s = (panic e, s)

  infixl 10 ◌>>=◌ ◌>>◌
  -- The second action runs on what the first one left.
  abbrev pub ◌>>=◌ : Exec S A → (A → Exec S B) → Exec S B
  (first >>= rest) state = continue (first state).0 rest (first state).1

  abbrev pub ◌>>◌ : Exec S A → Exec S B → Exec S B
  (first >> second) state = continue (first state).0 (λ _. second) (first state).1

-- Inversions of an action that succeeded.
module _ {ℓ κ μ} {S : Type ℓ} {A : Type κ} {B : Type μ} where
  continue-eq-ok :
      (r : Result A) (f : A → Exec S B) (s : S) {b : B} {t : S}
      → continue r f s ≡ (ok b, t)
      → (a : A) × (r ≡ ok a) × (f a s ≡ (ok b, t))
  continue-eq-ok (ok a) f s h = (a, refl, h)
  continue-eq-ok (err e) f s h = cc
  continue-eq-ok (panic e) f s h = cc

  pub bind_in-eq-ok :
      (first : Exec S A) (rest : A → Exec S B) (s : S) {b : B} {t : S}
      → (first >>= rest) s ≡ (ok b, t)
      → (a : A) × (u : S) × (first s ≡ (ok a, u)) × (rest a u ≡ (ok b, t))
  bind_in-eq-ok first rest s h =
      let (a, e, k) = continue-eq-ok (first s).0 rest (first s).1 h in
      (a, (first s).1, ap (λ r. (r, (first s).1)) e, k)

pub with_context_in-eq-ok {ℓ κ} :
    {S : Type ℓ} {A : Type κ} (c : String) (m : Exec S A) (s : S) {a : A} {t : S}
    → with_context_in c m s ≡ (ok a, t)
    → m s ≡ (ok a, t)
with_context_in-eq-ok c m s h =
    ap₂ (λ r u. (r, u)) (with_context-eq-ok c (m s).0 (ap (λ o. o.0) h)) (ap (λ o. o.1) h)
