-- ===== src/Condition.antt =====
-- internal/workflow/condition.go: the conditions of a node's routes. Floating-point arithmetic,
-- reflect.DeepEqual, regexp and path.Match are parameters, gathered in `Outside`.
pub mod Negation
use nitejaguar.Base.{
  ℕ, ℤ, Bool, true, false, not, ◌&&◌, ◌||◌, Option, none, some, [], ◌∷◌, String, str_eq, Text,
  codes, has_prefix, holds_slash, base_name, drop, length, ◌==◌, if◌then◌else◌,
}
use nitejaguar.Result.{Result, ok, err, ◌>>=◌}
use nitejaguar.Reference.{PathError, empty_key, lookup_path}
use nitejaguar.Value.{Value, null, boolean, int, float, text, object, Fields}

-- Go's library, as far as the conditions call it; a pattern that does not parse gives `none`
pub record Outside : Type 0 where
  pub deep_equal : Value → Value → Bool
  pub float_of : ℤ → ℕ
  pub float_lt : ℕ → ℕ → Bool
  pub float_le : ℕ → ℕ → Bool
  pub match_regex : Text → Text → Option Bool
  pub match_path : Text → Text → Option Bool

pub data ConditionError : Type 0 where
  unresolved : PathError → ConditionError
  input_unavailable not_boolean not_numeric not_text bad_pattern : ConditionError
  unsupported_operator : String → ConditionError

-- type condition
pub record Condition : Type 0 where
  pub left_operand : Value
  pub operator : String
  pub right_operand : Value

is_null : Value → Bool
is_null null = true
is_null _ = false

of_path : Result PathError Value → Result ConditionError Value
of_path (ok v) = ok v
of_path (err e) = err (unresolved e)

-- func resolveArgs and resolveResult: what stands behind a prefix of `n` characters
unfoldable pub resolve_under : ℕ → Value → Text → Result ConditionError Value
unfolding of_path
resolve_under n root s =
    if length s == n then err (unresolved empty_key) else of_path (lookup_path root (drop n s))

-- func resolveOperand
unfoldable pub resolve_operand : Value → Fields → Value → Result ConditionError Value
unfolding resolve_under
resolve_operand (text s) arguments payload =
    if has_prefix s (codes "$result.")
    then resolve_under 8 payload s
    else if has_prefix s (codes "$args.")
    then resolve_under 6 (object arguments) s
    else if has_prefix s (codes "$input.")
    then err input_unavailable
    else ok (text s)
resolve_operand v arguments payload = ok v

as_boolean : Value → Result ConditionError Bool
as_boolean (boolean b) = ok b
as_boolean _ = err not_boolean

module _ (outside : Outside) where
  open outside use {deep_equal, float_of, float_lt, float_le, match_regex, match_path}

  matched : Option Bool → Result ConditionError Bool
  matched none = err bad_pattern
  matched (some b) = ok b

  -- func matchRegex
  match_value : Value → Value → Result ConditionError Bool
  unfolding matched
  match_value (text s) (text pattern_text) = matched (match_regex pattern_text s)
  match_value _ _ = err not_text

  -- func matchGlob
  glob_value : Value → Value → Result ConditionError Bool
  unfolding matched holds_slash
  glob_value (text s) (text pattern_text) = elim (match_path pattern_text s) [
    | none ↦ err bad_pattern
    | some whole ↦
        if whole
        then ok true
        else if holds_slash s
        then matched (match_path pattern_text (base_name s))
        else ok false
  ]
  glob_value _ _ = err not_text

  -- func toFloat64
  to_float64 : Value → Option ℕ
  to_float64 (int z) = some (float_of z)
  to_float64 (float f) = some f
  to_float64 _ = none

  -- func compareValues, with the comparison of its operator
  compare_values : (ℕ → ℕ → Bool) → Value → Value → Result ConditionError Bool
  unfolding to_float64
  compare_values test left right = elim (to_float64 left) [
    | none ↦ err not_numeric
    | some x ↦ elim (to_float64 right) [ none ↦ err not_numeric | some y ↦ ok (test x y) ]
  ]

  -- the switch of evaluate
  unfoldable pub apply_operator : String → Value → Value → Result ConditionError Bool
  unfolding match_value glob_value compare_values
  apply_operator op left right =
      if str_eq op "=="
      then ok (deep_equal left right)
      else if str_eq op "!="
      then ok (not (deep_equal left right))
      else if str_eq op ">"
      then compare_values (λ x y. float_lt y x) left right
      else if str_eq op ">="
      then compare_values (λ x y. float_le y x) left right
      else if str_eq op "<"
      then compare_values float_lt left right
      else if str_eq op "<="
      then compare_values float_le left right
      else if str_eq op "=~"
      then match_value left right
      else if str_eq op "glob"
      then glob_value left right
      else err (unsupported_operator op)

  -- func evaluate; a condition that is absent, or empty, lets through
  unfoldable pub evaluate : Option Condition → Fields → Value → Result ConditionError Bool
  unfolding is_null as_boolean apply_operator
  evaluate none arguments payload = ok true
  evaluate (some c) arguments payload =
      if is_null c.left_operand && str_eq c.operator "" && is_null c.right_operand
      then ok true
      else resolve_operand c.left_operand arguments payload >>= λ left.
          if str_eq c.operator "" && is_null c.right_operand
          then as_boolean left
          else resolve_operand c.right_operand arguments payload >>= λ right.
              apply_operator c.operator left right
