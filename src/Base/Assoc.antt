-- ===== src/Base/Assoc.antt =====
-- Go maps with text keys as association lists: `m[k]`, `m[k] = v` and `delete(m, k)`.
use logryph.Base.{
  ◌≡◌, refl, ap, ◌∙◌, false, eq_iff, eq_refl, Bool-cases, inl, inr, String, Option, none, some,
  List, [], ◌∷◌, ◌==◌, if◌then◌else◌,
}

module _ {ℓ} {V : Type ℓ} where
  unfoldable pub lookup : String → List (String × V) → Option V
  lookup name [] = none
  lookup name (entry ∷ entries) =
      let rest = lookup name entries in if entry.0 == name then some (entry.1) else rest

  unfoldable pub insert : String → V → List (String × V) → List (String × V)
  insert name value [] = (name, value) ∷ []
  insert name value (entry ∷ entries) =
      let rest = insert name value entries in
      if entry.0 == name then (entry.0, value) ∷ entries else entry ∷ rest

  unfoldable pub delete : String → List (String × V) → List (String × V)
  delete name [] = []
  delete name (entry ∷ entries) =
      let rest = delete name entries in if entry.0 == name then rest else entry ∷ rest

pub lookup-insert {ℓ} :
    {V : Type ℓ} (k : String) (v : V) (m : List (String × V)) → lookup k (insert k v m) ≡ some v
unfolding lookup insert
lookup-insert k v [] = rw (eq_refl k) refl
lookup-insert k v (e ∷ m) = elim (Bool-cases (e.0 == k)) [
  | inl h ↦ rw (h, h) refl
  | inr h ↦ rw (h, h) (lookup-insert k v m)
]

pub lookup-insert_other {ℓ} :
    {V : Type ℓ} (j k : String) (v : V) (m : List (String × V))
    → (j == k) ≡ false
    → lookup k (insert j v m) ≡ lookup k m
unfolding lookup insert
lookup-insert_other j k v [] n = rw n refl
lookup-insert_other j k v (e ∷ m) n = elim (Bool-cases (e.0 == j)) [
  | inl h ↦
      let other : (e.0 == k) ≡ false = ap (λ s. s == k) ((eq_iff (e.0) j).0 h) ∙ n in
      rw (h, other) refl
  | inr h ↦ rw h (ap (λ o. if e.0 == k then some (e.1) else o) (lookup-insert_other j k v m n))
]
