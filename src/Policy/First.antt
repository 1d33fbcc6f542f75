-- ===== src/Policy/First.antt =====
-- internal/interceptor/server.go: which rule decides on a request.
use logryph.Base.{
  ◌≡◌, ◌≢◌, ◌≤◌, ◌↔◌, ◌⊎◌, inl, inr, ◌∙◌, sym, refl, Bool, true, false, none, some, List, [], ◌∷◌,
  ◌++◌, String, subst, if◌then◌else◌, is_set, ltb, le→leb, length, Bool-cases, arith,
}
use logryph.Base.Result.{ok, ok_injective, bind-eq-ok}
use logryph.Event.{Map}
use logryph.Observer.{Rule, Numbers}
use logryph.Policy.{
  PolicyAction, action_allow, action_tag, action_redact, Outcome, action_of, applies, first_rule,
  evaluate_policy,
}
use logryph.Policy.Takes.{
  Takes, Passes, applies-Takes, Takes-applies, applies-Passes, Passes-applies,
}

module _ (n : Numbers) (strict : Bool) (method : String) (params : Map) where
  -- None of the rules is taken.
  abbrev pub NoneTakes : List Rule → Type 0
  NoneTakes [] = Unit
  NoneTakes (rule ∷ rules) = Passes n strict method params rule × NoneTakes rules

  -- A rule that redacts keys asks for that, and any other for a tag.
  abbrev pub IsAction : Rule → PolicyAction → Type 0
  IsAction rule a =
      ((a ≡ action_redact) × (rule.redact ≢ [])) ⊎ ((a ≡ action_tag) × (rule.redact ≡ []))

  -- What the policies say, without the loop: the first rule that is taken, or that there is none.
  pub data IsFirst : List Rule → Outcome → Type 0 where
    nothing : {rules : List Rule} → NoneTakes rules → IsFirst rules (action_allow, none)
    first :
        (before : List Rule) (rule : Rule) (after : List Rule) (a : PolicyAction)
        → NoneTakes before
        → Takes n strict method params rule
        → IsAction rule a
        → IsFirst (before ++ rule ∷ after) (a, some rule)

  -- The same with the functions of the loop
  abbrev NoneApplies : List Rule → Type 0
  NoneApplies [] = Unit
  NoneApplies (rule ∷ rules) = (applies n strict method params rule ≡ ok false) × NoneApplies rules

  data IsDecision : List Rule → Outcome → Type 0 where
    allowed : {rules : List Rule} → NoneApplies rules → IsDecision rules (action_allow, none)
    decided :
        (before : List Rule) (rule : Rule) (after : List Rule)
        → NoneApplies before
        → applies n strict method params rule ≡ ok true
        → IsDecision (before ++ rule ∷ after) (action_of rule, some rule)

  NoneApplies-NoneTakes : (rules : List Rule) → NoneApplies rules → NoneTakes rules
  NoneApplies-NoneTakes [] h = tt
  NoneApplies-NoneTakes (rule ∷ rules) h =
      (applies-Passes n strict method params rule h.0, NoneApplies-NoneTakes rules h.1)

  NoneTakes-NoneApplies : (rules : List Rule) → NoneTakes rules → NoneApplies rules
  NoneTakes-NoneApplies [] h = tt
  NoneTakes-NoneApplies (rule ∷ rules) h =
      (Passes-applies n strict method params rule h.0, NoneTakes-NoneApplies rules h.1)

  some_key : (k : String) (ks : List String) → ltb 0 (length (k ∷ ks)) ≡ true
  some_key k ks = elim (Bool-cases (ltb 0 (length (k ∷ ks)))) [
    | inl e ↦ e
    | inr e ↦ absurd (ground arith)
  ]

  action_of-IsAction : (rule : Rule) → IsAction rule (action_of rule)
  unfolding action_of
  action_of-IsAction rule = by_keys rule.redact refl
    where
      by_keys :
          (ks : List String)
          → rule.redact ≡ ks
          → IsAction rule (if ltb 0 (length rule.redact) then action_redact else action_tag)
      by_keys [] e = rw e (inr (refl, refl))
      by_keys (k ∷ ks) e = rw (e, some_key k ks) (inl (refl, λ z. cc))

  IsAction-action_of : (rule : Rule) (a : PolicyAction) → IsAction rule a → action_of rule ≡ a
  unfolding action_of
  IsAction-action_of rule a (inr (e, no_keys)) = rw no_keys (sym e)
  IsAction-action_of rule a (inl (e, some_keys)) = by_keys rule.redact refl
    where
      by_keys :
          (ks : List String)
          → rule.redact ≡ ks
          → (if ltb 0 (length rule.redact) then action_redact else action_tag) ≡ a
      by_keys [] k = absurd (some_keys k)
      by_keys (k ∷ ks) l = rw (l, some_key k ks) (sym e)

  IsDecision-First : {rules : List Rule} {o : Outcome} → IsDecision rules o → IsFirst rules o
  IsDecision-First (allowed {rules} h) = nothing (NoneApplies-NoneTakes rules h)
  IsDecision-First (decided before rule after h a) =
      first before rule after (action_of rule) (NoneApplies-NoneTakes before h)
        (applies-Takes n strict method params rule a) (action_of-IsAction rule)

  First-IsDecision : {rules : List Rule} {o : Outcome} → IsFirst rules o → IsDecision rules o
  First-IsDecision (nothing {rules} h) = allowed (NoneTakes-NoneApplies rules h)
  First-IsDecision (first before rule after a h t k) =
      subst (λ b. IsDecision (before ++ rule ∷ after) (b, some rule)) (IsAction-action_of rule a k)
        (decided before rule after (NoneTakes-NoneApplies before h)
          (Takes-applies n strict method params rule t))

  later :
      (rule : Rule) {rules : List Rule} {o : Outcome}
      → applies n strict method params rule ≡ ok false
      → IsDecision rules o
      → IsDecision (rule ∷ rules) o
  later rule h (allowed k) = allowed (h, k)
  later rule h (decided before r after k a) = decided (rule ∷ before) r after (h, k) a

  from_step :
      (rule : Rule) (rules : List Rule) (o : Outcome) (a : Bool)
      → applies n strict method params rule ≡ ok a
      → (if a then ok (action_of rule, some rule) else first_rule n strict method params rules)
        ≡ ok o
      → (first_rule n strict method params rules ≡ ok o → IsDecision rules o)
      → IsDecision (rule ∷ rules) o
  from_step rule rules o true p q k =
      subst (IsDecision (rule ∷ rules)) (ok_injective q) (decided [] rule rules tt p)
  from_step rule rules o false p q k = later rule p (k q)

  first_rule-IsDecision :
      (rules : List Rule) (o : Outcome)
      → first_rule n strict method params rules ≡ ok o
      → IsDecision rules o
  unfolding first_rule
  first_rule-IsDecision [] o h = subst (IsDecision []) (ok_injective h) (allowed tt)
  first_rule-IsDecision (rule ∷ rules) o h =
      let (a, p, q) = bind-eq-ok (applies n strict method params rule) _ h in
      from_step rule rules o a p q (λ k. first_rule-IsDecision rules o k)

  not_taken :
      (rule : Rule) (rules : List Rule)
      → applies n strict method params rule ≡ ok false
      → first_rule n strict method params (rule ∷ rules) ≡ first_rule n strict method params rules
  unfolding first_rule
  not_taken rule rules h = rw h

  first_rule-NoneApplies :
      (rules : List Rule)
      → NoneApplies rules
      → first_rule n strict method params rules ≡ ok (action_allow, none)
  unfolding first_rule
  first_rule-NoneApplies [] h = refl
  first_rule-NoneApplies (rule ∷ rules) h =
      not_taken rule rules h.0 ∙ first_rule-NoneApplies rules h.1

  first_rule-decided :
      (before : List Rule) (rule : Rule) (after : List Rule)
      → NoneApplies before
      → applies n strict method params rule ≡ ok true
      → first_rule n strict method params (before ++ rule ∷ after) ≡ ok (action_of rule, some rule)
  unfolding first_rule
  first_rule-decided [] rule after h a = rw a
  first_rule-decided (b ∷ before) rule after h a =
      not_taken b (before ++ rule ∷ after) h.0 ∙ first_rule-decided before rule after h.1 a

  decision_found :
      {policies : List Rule} {o : Outcome}
      → IsDecision policies o
      → first_rule n strict method params policies ≡ ok o
  decision_found (allowed {rules} h) = first_rule-NoneApplies rules h
  decision_found (decided before rule after h a) = first_rule-decided before rule after h a

  -- For a method that is set and at most 256 policies, `evaluatePolicy` returns an outcome
  -- exactly if it is the decision of the first rule that is taken: redact if the rule has keys
  -- to redact, and tag otherwise; or allow, when no rule is taken. A rule is taken if one of
  -- its patterns matches, and its conditions hold, behind patterns that do not match or whose
  -- conditions fail; a rule before it is looked at in full, and no pattern selects it. Each
  -- rule that is looked at has at most 128 patterns and 64 conditions.
  pub evaluate_policy_iff :
      (policies : List Rule) (o : Outcome)
      → is_set method ≡ true
      → length policies ≤ 256
      → (evaluate_policy n strict policies method params ≡ ok o) ↔ IsFirst policies o
  unfolding evaluate_policy
  evaluate_policy_iff policies o set few =
      rw (set, le→leb (length policies) 256 few)
        (
          λ h. IsDecision-First (first_rule-IsDecision policies o h),
          λ h. decision_found (First-IsDecision h),
        )
