-- ===== src/Policy.antt =====
-- internal/interceptor/server.go: what the policies say of a request.
pub mod First
pub mod Takes
use logryph.Base.{
  ℕ, Bool, true, false, not, ◌&&◌, ◌||◌, Option, none, some, List, [], ◌∷◌, String, ◌==◌, is_set,
  if◌then◌else◌, leb, ltb, length,
}
use logryph.Base.Result.{Result, ok, err, panic, ◌>>=◌, ◌>>◌}
use logryph.Assert.{check}
use logryph.Event.{Map}
use logryph.Observer.{Rule, Numbers, match_pattern, check_conditions}
use Prim.Native.String as Str

pub data PolicyAction : Type 0 where
  action_allow : PolicyAction
  action_tag : PolicyAction
  action_redact : PolicyAction

unfoldable pub action_of : Rule → PolicyAction
action_of rule = if ltb 0 (length rule.redact) then action_redact else action_tag

abbrev pub Outcome : Type 0
Outcome = PolicyAction × Option Rule

module _ (n : Numbers) (strict : Bool) where
  conditions_of : Rule → Map → Result Bool
  conditions_of rule params =
      if ltb 0 (length rule.match_conditions)
      then check_conditions n strict rule.match_conditions params
      else ok true

  -- Whether one pattern of a rule selects it: a rule with conditions needs them too.
  selects : Rule → String → Map → String → Result Bool
  unfolding conditions_of
  selects rule method params pattern = do
    m ← match_pattern strict pattern method
    if m then conditions_of rule params else ok false

  -- The loop over the patterns of a rule
  some_selects : Rule → String → Map → List String → Result Bool
  unfolding selects
  some_selects rule method params [] = ok false
  some_selects rule method params (p ∷ ps) =
      let rest = some_selects rule method params ps in
      do s ← selects rule method params p; if s then ok true else rest

  -- Whether a rule of the list is taken. Its two bounds are checked before.
  unfoldable pub applies : String → Map → Rule → Result Bool
  unfolding some_selects
  applies method params rule = do
    check strict (leb (length rule.match_methods) 128) "match_methods exceeds max"
    check strict (leb (length rule.match_conditions) 64) "conditions exceeds max"
    some_selects rule method params rule.match_methods

  -- The loop over the rules
  unfoldable pub first_rule : String → Map → List Rule → Result Outcome
  first_rule method params [] = ok (action_allow, none)
  first_rule method params (rule ∷ rules) =
      let rest = first_rule method params rules in
      do a ← applies method params rule; if a then ok (action_of rule, some rule) else rest

  -- `evaluatePolicy` of an observer that is there
  unfoldable pub evaluate_policy : List Rule → String → Map → Result Outcome
  evaluate_policy policies method params = do
    check strict (is_set method) "method name is non-empty"
    check strict (leb (length policies) 256) "policy count exceeds max"
    first_rule method params policies

-- A getter whose failed checks give the empty text
unfoldable pub or_empty : Result (Unit {0}) → Result String → Result String
or_empty (ok u) rest = rest
or_empty (err e) rest = ok ""
or_empty (panic e) rest = panic e

unfoldable pub policy_id_or_empty : Bool → Option Rule → Result String
unfolding or_empty
policy_id_or_empty strict none = ok ""
policy_id_or_empty strict (some rule) =
    or_empty (check strict (is_set rule.id) "policy ID missing")
      (or_empty (check strict (leb (Str.len rule.id) 128) "policy ID too long") (ok rule.id))

unfoldable pub risk_level_or_empty : Bool → Option Rule → Result String
unfolding or_empty
risk_level_or_empty strict none = ok ""
risk_level_or_empty strict (some rule) =
    or_empty (check strict (is_set rule.risk_level) "risk level missing") (
      or_empty (check strict (leb (Str.len rule.risk_level) 32) "risk level too long")
        (ok rule.risk_level))
