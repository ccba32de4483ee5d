-- ===== src/Condition/Negation.antt =====
-- evaluate (internal/workflow/condition.go): the operator `!=` beside `==`.
use nitejaguar.Base.{Bool, true, false, not, Option, some, String, ◌≡◌, refl, inl, inr, ◌&&◌}
use nitejaguar.Condition.{
  is_null, Condition, ConditionError, Outside, resolve_operand, apply_operator, evaluate,
}
use nitejaguar.Result.{Result, ok, err, Result-cases}
use nitejaguar.Value.{Value, Fields}

-- the opposite outcome, with errors kept
abbrev pub opposite : Result ConditionError Bool → Result ConditionError Bool
opposite (ok b) = ok (not b)
opposite (err e) = err e

abbrev pub compared : Value → String → Value → Option Condition
compared left op right = some (record { left_operand = left; operator = op; right_operand = right })

not_empty : (a b : Bool) → (a && (false && b)) ≡ false
not_empty true b = refl
not_empty false b = refl

-- A condition with `!=` gives the opposite of the one with `==` on the same operands, and the same
-- error if an operand does not resolve.
pub evaluate-not_equal :
    (outside : Outside) (left right : Value) (arguments : Fields) (payload : Value)
    → evaluate outside (compared left "!=" right) arguments payload
      ≡ opposite (evaluate outside (compared left "==" right) arguments payload)
unfolding evaluate apply_operator
evaluate-not_equal outside left right arguments payload =
    elim (Result-cases (resolve_operand left arguments payload)) [
      | inr (e, bad) ↦ rw (not_empty (is_null left) (is_null right), bad) refl
      | inl (v, good) ↦ elim (Result-cases (resolve_operand right arguments payload)) [
        | inr (e, bad) ↦ rw (not_empty (is_null left) (is_null right), good, bad) refl
        | inl (w, fine) ↦ rw (not_empty (is_null left) (is_null right), good, fine) refl
      ]
    ]
