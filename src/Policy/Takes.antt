-- ===== src/Policy/Takes.antt =====
-- internal/interceptor/server.go: when a rule is taken.
use logryph.Base.{
  ◌≡◌, ◌≤◌, ◌⊎◌, inl, inr, ◌∙◌, sym, ap, refl, Bool, true, false, List, [], ◌∷◌, ◌++◌, String,
  subst, if◌then◌else◌, leb, ltb, leb→le, le→leb, length, Bool-cases, arith,
}
use logryph.Base.Result.{ok, ok_injective, bind-eq-ok}
use logryph.Assert.{check, check-eq-ok}
use logryph.Event.{Map}
use logryph.Observer.{Rule, Numbers, Condition, match_pattern, check_conditions}
use logryph.Policy.{applies, conditions_of, selects, some_selects}

module _ (n : Numbers) (strict : Bool) (method : String) (params : Map) where
  -- A pattern does not match, or it does and a condition fails.
  abbrev pub Misses : Rule → String → Type 0
  Misses rule p =
      (match_pattern strict p method ≡ ok false)
      ⊎ ((match_pattern strict p method ≡ ok true)
          × (check_conditions n strict rule.match_conditions params ≡ ok false))

  abbrev pub AllMiss : Rule → List String → Type 0
  AllMiss rule [] = Unit
  AllMiss rule (p ∷ ps) = Misses rule p × AllMiss rule ps

  -- A rule has at most 128 patterns and 64 conditions.
  abbrev pub IsSmall : Rule → Type 0
  IsSmall rule = (length rule.match_methods ≤ 128) × (length rule.match_conditions ≤ 64)

  -- A rule that is taken: the patterns before one of them miss, and that one matches, with the
  -- conditions.
  pub record Takes (rule : Rule) : Type 0 where
    pub small : IsSmall rule
    pub before : List String
    pub pattern : String
    pub after : List String
    pub split : rule.match_methods ≡ before ++ pattern ∷ after
    pub missed : AllMiss rule before
    pub matches : match_pattern strict pattern method ≡ ok true
    pub conditions : check_conditions n strict rule.match_conditions params ≡ ok true

  abbrev pub Passes : Rule → Type 0
  Passes rule = IsSmall rule × AllMiss rule rule.match_methods

  conditions_of-check :
      (rule : Rule)
      → conditions_of n strict rule params ≡ check_conditions n strict rule.match_conditions params
  unfolding conditions_of check_conditions
  conditions_of-check rule = by_list rule.match_conditions
    where
      by_list :
          (cs : List Condition)
          → (if ltb 0 (length cs) then check_conditions n strict cs params else ok true)
            ≡ check_conditions n strict cs params
      by_list [] = refl
      by_list (c ∷ cs) = elim (Bool-cases (ltb 0 (length (c ∷ cs)))) [
        | inl e ↦ rw e refl
        | inr e ↦ absurd (ground arith)
      ]

  selects-true :
      (rule : Rule) (p : String)
      → selects n strict rule method params p ≡ ok true
      → (match_pattern strict p method ≡ ok true)
        × (check_conditions n strict rule.match_conditions params ≡ ok true)
  unfolding selects
  selects-true rule p h =
      let (m, q, r) = bind-eq-ok (match_pattern strict p method) _ h in by_match m q r
    where
      impossible : false ≡ true → ⊥
      impossible k = cc

      by_match :
          (m : Bool)
          → match_pattern strict p method ≡ ok m
          → (if m then conditions_of n strict rule params else ok false) ≡ ok true
          → (match_pattern strict p method ≡ ok true)
            × (check_conditions n strict rule.match_conditions params ≡ ok true)
      by_match true q r = (q, sym (conditions_of-check rule) ∙ r)
      by_match false q r = absurd (impossible (ok_injective r))

  selects-false :
      (rule : Rule) (p : String) → selects n strict rule method params p ≡ ok false → Misses rule p
  unfolding selects
  selects-false rule p h =
      let (m, q, r) = bind-eq-ok (match_pattern strict p method) _ h in by_match m q r
    where
      by_match :
          (m : Bool)
          → match_pattern strict p method ≡ ok m
          → (if m then conditions_of n strict rule params else ok false) ≡ ok false
          → Misses rule p
      by_match true q r = inr (q, sym (conditions_of-check rule) ∙ r)
      by_match false q r = inl q

  Misses-selects :
      (rule : Rule) (p : String) → Misses rule p → selects n strict rule method params p ≡ ok false
  unfolding selects
  Misses-selects rule p (inl h) = rw h refl
  Misses-selects rule p (inr (h, k)) = rw h (conditions_of-check rule ∙ k)

  AllMiss-selects :
      (rule : Rule) (ps : List String)
      → AllMiss rule ps
      → some_selects n strict rule method params ps ≡ ok false
  unfolding some_selects
  AllMiss-selects rule [] h = refl
  AllMiss-selects rule (p ∷ ps) h = rw (Misses-selects rule p h.0) (AllMiss-selects rule ps h.1)

  found_selects :
      (rule : Rule) (before : List String) (p : String) (after : List String)
      → AllMiss rule before
      → match_pattern strict p method ≡ ok true
      → check_conditions n strict rule.match_conditions params ≡ ok true
      → some_selects n strict rule method params (before ++ p ∷ after) ≡ ok true
  unfolding some_selects selects
  found_selects rule [] p after h k c = rw (k, conditions_of-check rule, c) refl
  found_selects rule (q ∷ before) p after h k c =
      rw (Misses-selects rule q h.0) (found_selects rule before p after h.1 k c)

  small_applies :
      (rule : Rule)
      → IsSmall rule
      → applies n strict method params rule
        ≡ some_selects n strict rule method params rule.match_methods
  unfolding applies
  small_applies rule (h, k) =
      rw (le→leb (length rule.match_methods) 128 h, le→leb (length rule.match_conditions) 64 k) refl

  -- A pattern that selects, behind patterns that miss
  record IsFound (rule : Rule) (ps : List String) : Type 0 where
    before : List String
    pattern : String
    after : List String
    split : ps ≡ before ++ pattern ∷ after
    missed : AllMiss rule before
    matches : match_pattern strict pattern method ≡ ok true
    conditions : check_conditions n strict rule.match_conditions params ≡ ok true

  Selected : Rule → List String → Bool → Type 0
  Selected rule ps true = IsFound rule ps
  Selected rule ps false = AllMiss rule ps

  add_miss :
      (rule : Rule) (p : String) (ps : List String) (b : Bool)
      → Misses rule p
      → Selected rule ps b
      → Selected rule (p ∷ ps) b
  unfolding Selected
  add_miss rule p ps false m h = (m, h)
  add_miss rule p ps true m h = record {
    before = p ∷ h.before;
    pattern = h.pattern;
    after = h.after;
    split = ap (λ l. p ∷ l) h.split;
    missed = (m, h.missed);
    matches = h.matches;
    conditions = h.conditions;
  }

  step-Selected :
      (rule : Rule) (p : String) (ps : List String) (b s : Bool)
      → selects n strict rule method params p ≡ ok s
      → (if s then ok true else some_selects n strict rule method params ps) ≡ ok b
      → (some_selects n strict rule method params ps ≡ ok b → Selected rule ps b)
      → Selected rule (p ∷ ps) b
  unfolding Selected
  step-Selected rule p ps b true q r rest =
      let (m, c) = selects-true rule p q in
      subst (Selected rule (p ∷ ps)) (ok_injective r) (record {
        before = [];
        pattern = p;
        after = ps;
        split = refl;
        missed = tt;
        matches = m;
        conditions = c;
      })
  step-Selected rule p ps b false q r rest = add_miss rule p ps b (selects-false rule p q) (rest r)

  some_selects-Selected :
      (rule : Rule) (ps : List String) (b : Bool)
      → some_selects n strict rule method params ps ≡ ok b
      → Selected rule ps b
  unfolding some_selects Selected
  some_selects-Selected rule [] b h = subst (Selected rule []) (ok_injective h) tt
  some_selects-Selected rule (p ∷ ps) b h =
      let (s, q, r) = bind-eq-ok (selects n strict rule method params p) _ h in
      step-Selected rule p ps b s q r (some_selects-Selected rule ps b)

  applies-Selected :
      (rule : Rule) (b : Bool)
      → applies n strict method params rule ≡ ok b
      → IsSmall rule × Selected rule rule.match_methods b
  unfolding applies
  applies-Selected rule b h =
      let (u, p1, q1) =
        bind-eq-ok (check strict (leb (length rule.match_methods) 128) "match_methods exceeds max")
          _ h in
      let (v, p2, q2) =
        bind-eq-ok (check strict (leb (length rule.match_conditions) 64) "conditions exceeds max") _
          q1 in
      (
        (leb→le _ 128 (check-eq-ok strict _ _ p1), leb→le _ 64 (check-eq-ok strict _ _ p2)),
        some_selects-Selected rule rule.match_methods b q2,
      )

  pub applies-Takes : (rule : Rule) → applies n strict method params rule ≡ ok true → Takes rule
  unfolding Selected
  applies-Takes rule h =
      let (small, f) = applies-Selected rule true h in
      record {
        small = small;
        before = f.before;
        pattern = f.pattern;
        after = f.after;
        split = f.split;
        missed = f.missed;
        matches = f.matches;
        conditions = f.conditions;
      }

  pub Takes-applies : (rule : Rule) → Takes rule → applies n strict method params rule ≡ ok true
  Takes-applies rule t =
      small_applies rule t.small
      ∙ ap (some_selects n strict rule method params) t.split
      ∙ found_selects rule t.before t.pattern t.after t.missed t.matches t.conditions

  pub applies-Passes : (rule : Rule) → applies n strict method params rule ≡ ok false → Passes rule
  unfolding Selected
  applies-Passes rule h = applies-Selected rule false h

  pub Passes-applies : (rule : Rule) → Passes rule → applies n strict method params rule ≡ ok false
  Passes-applies rule (small, missed) =
      small_applies rule small ∙ AllMiss-selects rule rule.match_methods missed
