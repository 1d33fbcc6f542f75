-- ===== src/Base/Sort.antt =====
-- ORDER BY: a stable insertion sort by a test on two rows.
use mathlib.Core.List.{Perm}
use mathlib.Core.List.Perm
use logryph.Base.{
  subst, ℕ, ◌<◌, ◌≡◌, refl, ap, Bool, some, List, [], ◌∷◌, if◌then◌else◌, leb, le→leb, arith, last?,
  Bool-cases, inl, inr,
}
use mathlib.Core.List.{head?}
use mathlib.Core.Option.{some-injective}

module _ {ℓ} {A : Type ℓ} (before : A → A → Bool) where
  insert : A → List A → List A
  insert x [] = x ∷ []
  insert x (y ∷ ys) = if before x y then x ∷ y ∷ ys else y ∷ insert x ys

  unfoldable pub sort_by : List A → List A
  unfolding insert
  sort_by [] = []
  sort_by (x ∷ xs) = insert x (sort_by xs)

  insert-perm : (x : A) (xs : List A) → Perm (insert x xs) (x ∷ xs)
  unfolding insert
  insert-perm x [] = Perm.refl (x ∷ [])
  insert-perm x (y ∷ ys) = elim (Bool-cases (before x y)) [
    | inl e ↦ rw e (Perm.refl (x ∷ y ∷ ys))
    | inr e ↦ rw e (Perm.trans (Perm.cons y (insert-perm x ys)) (Perm.swap x y ys))
  ]

  -- Sorting keeps every row, as often.
  pub sort_by-perm : (xs : List A) → Perm (sort_by xs) xs
  unfolding sort_by
  sort_by-perm [] = Perm.refl []
  sort_by-perm (x ∷ xs) = Perm.trans (insert-perm x (sort_by xs)) (Perm.cons x (sort_by-perm xs))

module _ {A : Type 0} (key : A → ℕ) where
  abbrev pub ascending : A → A → Bool
  ascending a b = leb (key a) (key b)

  abbrev pub descending : A → A → Bool
  descending a b = leb (key b) (key a)

  -- The keys rise strictly from one row to the next.
  abbrev pub IsRising : List A → Type 0
  IsRising [] = Unit
  IsRising (x ∷ []) = Unit
  IsRising (x ∷ y ∷ ys) = (key x < key y) × IsRising (y ∷ ys)

  -- Rows that rise already are left as they are.
  pub sort_by-IsRising : (xs : List A) → IsRising xs → sort_by ascending xs ≡ xs
  unfolding sort_by
  sort_by-IsRising [] h = refl
  sort_by-IsRising (x ∷ []) h = refl
  sort_by-IsRising (x ∷ y ∷ ys) h =
      rw (sort_by-IsRising (y ∷ ys) h.1, le→leb (key x) (key y) (omega arith))

  first_of_descending :
      (x : A) (s : List A) {l : A}
      → head? s ≡ some l
      → key x < key l
      → head? (insert descending x s) ≡ some l
  unfolding insert
  first_of_descending x [] e h = cc
  first_of_descending x (z ∷ s) {l} e h = ground (arith, ap key (some-injective z l e))

  below_last : (x : A) (xs : List A) {l : A} → IsRising (x ∷ xs) → last? xs ≡ some l → key x < key l
  below_last x [] h e = cc
  below_last x (y ∷ []) {l} h e = subst (λ k. key x < key k) (some-injective y l e) h.0
  below_last x (y ∷ z ∷ ys) {l} h e =
      let later : key y < key l = below_last y (z ∷ ys) h.1 e in omega arith

  -- Of rows that rise, the first in descending order is the last.
  pub head?-sort_by-IsRising :
      (xs : List A) {l : A}
      → IsRising xs
      → last? xs ≡ some l
      → head? (sort_by descending xs) ≡ some l
  unfolding sort_by
  head?-sort_by-IsRising [] h e = cc
  head?-sort_by-IsRising (x ∷ []) h e = e
  head?-sort_by-IsRising (x ∷ y ∷ ys) h e =
      first_of_descending x (sort_by descending (y ∷ ys)) (head?-sort_by-IsRising (y ∷ ys) h.1 e)
        (below_last x (y ∷ ys) h e)
