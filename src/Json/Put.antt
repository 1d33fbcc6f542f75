-- ===== src/Json/Put.antt =====
-- What a map of the program holds after a write.
use logryph.Base.{
  ◌≡◌, refl, ap, ◌∙◌, false, some, String, ◌==◌, eq_iff, eq_refl, Bool-cases, inl, inr,
  if◌then◌else◌,
}
use logryph.Json.{Value, Fields, end, field, get, put}

pub get-put_self : (k : String) (v : Value) (m : Fields) → get k (put k v m) ≡ some v
unfolding get put
get-put_self k v end = rw (eq_refl k) refl
get-put_self k v (field j w m) = elim (Bool-cases (j == k)) [
  | inl e ↦ rw (e, e) refl
  | inr e ↦ rw (e, e) (get-put_self k v m)
]

pub get-put_other :
    (j k : String) (v : Value) (m : Fields) → (j == k) ≡ false → get k (put j v m) ≡ get k m
unfolding get put
get-put_other j k v end n = rw n refl
get-put_other j k v (field i w m) n = elim (Bool-cases (i == j)) [
  | inl e ↦
      let same : i ≡ j = (eq_iff i j).0 e in
      let other : (i == k) ≡ false = ap (λ s. s == k) same ∙ n in rw (e, other) refl
  | inr e ↦ rw e (ap (λ o. if i == k then some w else o) (get-put_other j k v m n))
]
