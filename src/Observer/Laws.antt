-- ===== src/Observer/Laws.antt =====
-- internal/observer/engine.go: the conditions of a rule as a predicate.
use logryph.Base.{
  ℕ, ◌≤◌, ◌≡◌, ◌↔◌, ◌∙◌, ap, sym, refl, Bool, true, false, Option, none, some, List, [], ◌∷◌, ◌==◌,
  if◌then◌else◌, length, le→leb, eq_iff, Bool-cases, inl, inr,
}
use logryph.Base.Result.{ok, ok_injective}
use logryph.Json.{Value, Fields, get}
use logryph.Observer.{
  Condition, Numbers, to_float, compare_by, is_comparison, holds_of, condition_holds, all_hold,
  check_conditions,
}

module _ (n : Numbers) (c : Condition) (v : Value) where
  -- The value and the condition's text are numbers, and are related.
  abbrev Compares : (ℕ → ℕ → Bool) → Type 0
  Compares r =
      (a b : ℕ) × (to_float n v ≡ some a) × (n.parse_float c.value ≡ some b) × (r a b ≡ true)

  -- What each operator asks of a value; an operator that is not known asks nothing.
  pub data Meets : Type 0 where
    equal : c.operator ≡ "eq" → n.sprint v ≡ c.value → Meets
    greater : c.operator ≡ "gt" → Compares (λ a b. n.less b a) → Meets
    smaller : c.operator ≡ "lt" → Compares (λ a b. n.less a b) → Meets
    at_least : c.operator ≡ "gte" → Compares (λ a b. n.less_eq b a) → Meets
    at_most : c.operator ≡ "lte" → Compares (λ a b. n.less_eq a b) → Meets
    skipped :
        (c.operator == "eq") ≡ false
        → (c.operator == "gt") ≡ false
        → (c.operator == "lt") ≡ false
        → (c.operator == "gte") ≡ false
        → (c.operator == "lte") ≡ false
        → Meets

  compares :
      (r : ℕ → ℕ → Bool)
      → ((a b : ℕ) → compare_by n c.operator (some a) (some b) ≡ r a b)
      → compare_by n c.operator (to_float n v) (n.parse_float c.value) ≡ true
      → Compares r
  unfolding compare_by
  compares r same h = by_numbers (to_float n v) (n.parse_float c.value) refl refl h
    where
      impossible : false ≡ true → ⊥
      impossible k = cc

      by_numbers :
          (o u : Option ℕ)
          → to_float n v ≡ o
          → n.parse_float c.value ≡ u
          → compare_by n c.operator o u ≡ true
          → Compares r
      by_numbers (some a) (some b) p q k = (a, b, p, q, sym (same a b) ∙ k)
      by_numbers none u p q k = absurd (impossible k)
      by_numbers (some a) none p q k = absurd (impossible k)

  holds-Meets : holds_of n c (some v) ≡ true → Meets
  unfolding holds_of compare_by is_comparison
  holds-Meets h = elim (Bool-cases (c.operator == "eq")) [
    | inl e ↦
        let eq = (eq_iff c.operator "eq").0 e in
        equal eq ((eq_iff (n.sprint v) c.value).0 (rw e at h))
    | inr e ↦ elim (Bool-cases (c.operator == "gt")) [
      | inl g ↦
          greater ((eq_iff c.operator "gt").0 g)
            (compares (λ a b. n.less b a) (λ a b. rw g refl) (rw (e, g) at h))
      | inr g ↦ elim (Bool-cases (c.operator == "lt")) [
        | inl l ↦
            smaller ((eq_iff c.operator "lt").0 l)
              (compares (λ a b. n.less a b) (λ a b. rw (g, l) refl) (rw (e, g, l) at h))
        | inr l ↦ elim (Bool-cases (c.operator == "gte")) [
          | inl k ↦
              at_least ((eq_iff c.operator "gte").0 k)
                (compares (λ a b. n.less_eq b a) (λ a b. rw (g, l, k) refl) (rw (e, g, l, k) at h))
          | inr k ↦ elim (Bool-cases (c.operator == "lte")) [
            | inl m ↦ at_most ((eq_iff c.operator "lte").0 m) (
                compares (λ a b. n.less_eq a b) (λ a b. rw (g, l, k) refl)
                  (rw (e, g, l, k, m) at h))
            | inr m ↦ skipped e g l k m
          ]
        ]
      ]
    ]
  ]

  Meets-holds : Meets → holds_of n c (some v) ≡ true
  unfolding holds_of compare_by is_comparison
  Meets-holds (equal o s) = rw o ((eq_iff (n.sprint v) c.value).1 s)
  Meets-holds (greater o (a, b, p, q, r)) = rw (o, p, q) r
  Meets-holds (smaller o (a, b, p, q, r)) = rw (o, p, q) r
  Meets-holds (at_least o (a, b, p, q, r)) = rw (o, p, q) r
  Meets-holds (at_most o (a, b, p, q, r)) = rw (o, p, q) r
  Meets-holds (skipped e g l k m) = rw (e, g, l, k, m) refl

module _ (n : Numbers) (params : Fields) where
  -- The key is there, and its value meets the condition.
  abbrev pub Holds : Condition → Type 0
  Holds c = (v : Value) × (get c.key params ≡ some v) × Meets n c v

  -- Every condition of the list holds of the parameters.
  abbrev pub AllHold : List Condition → Type 0
  AllHold [] = Unit
  AllHold (c ∷ cs) = Holds c × AllHold cs

  condition_holds-Holds : (c : Condition) → condition_holds n params c ≡ true → Holds c
  unfolding condition_holds holds_of
  condition_holds-Holds c h = by_value (get c.key params) refl h
    where
      impossible : false ≡ true → ⊥
      impossible k = cc

      by_value : (o : Option Value) → get c.key params ≡ o → holds_of n c o ≡ true → Holds c
      by_value none p k = absurd (impossible k)
      by_value (some v) p k = (v, p, holds-Meets n c v k)

  Holds-condition_holds : (c : Condition) → Holds c → condition_holds n params c ≡ true
  unfolding condition_holds
  Holds-condition_holds c (v, p, m) = rw p (Meets-holds n c v m)

  split : (b : Bool) (v : Bool) → (if b then v else false) ≡ true → (b ≡ true) × (v ≡ true)
  split true v h = (refl, h)
  split false v h = cc

  all_hold_sound : (cs : List Condition) → all_hold n params cs ≡ true → AllHold cs
  unfolding all_hold
  all_hold_sound [] h = tt
  all_hold_sound (c ∷ cs) h =
      let (e, k) = split (condition_holds n params c) (all_hold n params cs) h in
      (condition_holds-Holds c e, all_hold_sound cs k)

  all_hold_complete : (cs : List Condition) → AllHold cs → all_hold n params cs ≡ true
  unfolding all_hold
  all_hold_complete [] h = refl
  all_hold_complete (c ∷ cs) h = rw (Holds-condition_holds c h.0) (all_hold_complete cs h.1)

  -- Of at most 64 conditions on parameters that are there, `CheckConditions` says true exactly
  -- if the key of each is there and its value meets the operator: for `eq` its text is the
  -- condition's, for `gt`, `lt`, `gte` and `lte` both are numbers, and the value is greater,
  -- less, at least or at most the condition's; any other operator asks nothing of the value.
  pub check_conditions_iff :
      (strict : Bool) (cs : List Condition)
      → length cs ≤ 64
      → (check_conditions n strict cs (some params) ≡ ok true) ↔ AllHold cs
  unfolding check_conditions
  check_conditions_iff strict [] h = (λ _. tt, λ _. refl)
  check_conditions_iff strict (c ∷ cs) h =
      rw (le→leb (length (c ∷ cs)) 64 h)
        (λ e. all_hold_sound (c ∷ cs) (ok_injective e), λ k. ap ok (all_hold_complete (c ∷ cs) k))
