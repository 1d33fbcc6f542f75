-- ===== src/Observer.antt =====
-- internal/observer/engine.go: the matching of a method and of its parameters against a rule.
pub mod Laws
pub mod Engine
pub mod Watch
pub mod Settled
use Prim.Native.String as Str
use Prim.Native.Char.{Char}
use logryph.Base.{
  ℕ, Bool, true, false, not, ◌&&◌, ◌||◌, Option, none, some, List, [], ◌∷◌, String, ◌==◌, is_set,
  has_prefix, if◌then◌else◌, leb, length,
}
use logryph.Base.Result.{Result, ok, err, panic}
use logryph.Assert.{check}
use logryph.Json.{Value, float64, float32, int, int64, text, Fields, get}
use logryph.Event.{Map}

-- A condition is a map of texts; a missing key reads as the empty text.
pub record Condition : Type 0 where
  pub key : String
  pub operator : String
  pub value : String

pub record Rule : Type 0 where
  pub id : String
  pub match_methods : List String
  pub risk_level : String
  pub log_level : String
  pub match_conditions : List Condition
  pub redact : List String

-- What Go and its libraries do with numbers: a float64 is its bit pattern.
pub record Numbers : Type 0 where
  -- `fmt.Sprintf("%v", v)`
  pub sprint : Value → String
  -- `strconv.ParseFloat(s, 64)`
  pub parse_float : String → Option ℕ
  -- The conversions to float64
  pub of_float32 : ℕ → ℕ
  pub of_int : ℕ → ℕ
  -- `a < b` and `a <= b`; both are false for a NaN.
  pub less : ℕ → ℕ → Bool
  pub less_eq : ℕ → ℕ → Bool

-- `if err := assert.Check(…); err != nil { return false }`
abbrev pub or_false : Result (Unit {0}) → Result Bool → Result Bool
or_false (ok u) rest = rest
or_false (err e) rest = ok false
or_false (panic e) rest = panic e

-- `strings.TrimSuffix(s, "*")`, where the text has that suffix
trim_star : String → Option String
trim_star Str.[] = none
trim_star (Str.◌∷◌ c s) = prepend c s (trim_star s)
  where
    prepend : Char → String → Option String → Option String
    prepend c s (some t) = some (Str.◌∷◌ c t)
    prepend c Str.[] none = if Str.◌∷◌ c "" == "*" then some "" else none
    prepend c (Str.◌∷◌ d s) none = none

matches_wildcard : Option String → String → Bool
matches_wildcard none method = false
matches_wildcard (some prefix) method = has_prefix method prefix

unfoldable pub match_pattern : Bool → String → String → Result Bool
unfolding matches_wildcard trim_star
match_pattern strict pattern method =
    or_false (check strict (is_set pattern) "pattern is non-empty") (
      or_false (check strict (is_set method) "method is non-empty")
        (ok ((pattern == method) || matches_wildcard (trim_star pattern) method)))

module _ (n : Numbers) where
  open n use {sprint, parse_float, of_float32, of_int, less, less_eq}

  unfoldable pub to_float : Value → Option ℕ
  to_float (float64 f) = some f
  to_float (float32 f) = some (of_float32 f)
  to_float (int i) = some (of_int i)
  to_float (int64 i) = some (of_int i)
  to_float (text s) = parse_float s
  to_float _ = none

  compare_by : String → Option ℕ → Option ℕ → Bool
  compare_by operator (some a) (some b) =
      if operator == "gt"
      then less b a
      else if operator == "lt"
      then less a b
      else if operator == "gte"
      then less_eq b a
      else less_eq a b
  compare_by operator _ _ = false

  is_comparison : String → Bool
  is_comparison o = (o == "gt") || (o == "lt") || (o == "gte") || (o == "lte")

  -- An operator that is not known is skipped.
  holds_of : Condition → Option Value → Bool
  unfolding compare_by is_comparison
  holds_of c none = false
  holds_of c (some v) =
      if c.operator == "eq"
      then sprint v == c.value
      else if is_comparison c.operator
      then compare_by c.operator (to_float v) (parse_float c.value)
      else true

  unfoldable pub condition_holds : Fields → Condition → Bool
  unfolding holds_of
  condition_holds params c = holds_of c (get c.key params)

  -- The loop; `len(conditions) <= maxConditions` is checked before it.
  unfoldable pub all_hold : Fields → List Condition → Bool
  all_hold params [] = true
  all_hold params (c ∷ cs) =
      let rest = all_hold params cs in if condition_holds params c then rest else false

  unfoldable pub check_conditions : Bool → List Condition → Map → Result Bool
  check_conditions strict [] params = ok true
  check_conditions strict (c ∷ cs) none =
      or_false (check strict false "params must not be nil") (ok true)
  check_conditions strict (c ∷ cs) (some params) =
      or_false (check strict (leb (length (c ∷ cs)) 64) "conditions exceed max")
        (ok (all_hold params (c ∷ cs)))
