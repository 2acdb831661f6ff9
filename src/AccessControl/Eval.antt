-- ===== src/AccessControl/Eval.antt =====
-- `evaluate` of access_control/mod.rs.
pub mod Connectives
use embyr_rs.Base.{Bool, true, false, not, Result, ok, err}
use embyr_rs.Domain.FieldValue.{Float}
use embyr_rs.AccessControl.Syntax.{Condition, EvalContext, EvaluationOutcome, allow, deny}
use embyr_rs.AccessControl.Resolve.{FieldMissing, field_missing}
use embyr_rs.AccessControl.Compare.{eval_compare, eval_in}

-- `||`: a side that is true wins, whatever becomes of the other.
abbrev pub or_result :
    Result FieldMissing Bool → Result FieldMissing Bool → Result FieldMissing Bool
or_result (ok true) right = ok true
or_result left (ok true) = ok true
or_result (ok false) (ok false) = ok false
or_result _ _ = err field_missing

abbrev pub and_result :
    Result FieldMissing Bool → Result FieldMissing Bool → Result FieldMissing Bool
and_result (ok true) right = right
and_result (ok false) right = ok false
and_result (err e) right = err e

abbrev pub not_result : Result FieldMissing Bool → Result FieldMissing Bool
not_result (ok b) = ok (not b)
not_result (err e) = err e

abbrev pub outcome : Result FieldMissing Bool → EvaluationOutcome
outcome (ok true) = allow
outcome _ = deny

module _ {F : Type 0} ⦃float : Float F⦄ where
  unfoldable pub eval_bool : EvalContext F → Condition F → Result FieldMissing Bool
  eval_bool ctx (Condition.literal value) = ok value
  eval_bool ctx (Condition.not inner) = not_result (eval_bool ctx inner)
  eval_bool ctx (Condition.and left right) = and_result (eval_bool ctx left) (eval_bool ctx right)
  eval_bool ctx (Condition.or left right) = or_result (eval_bool ctx left) (eval_bool ctx right)
  eval_bool ctx (Condition.compare left op right) = eval_compare ctx left op right
  eval_bool ctx (Condition.is_in left list) = eval_in ctx left list

  unfoldable pub evaluate : EvalContext F → Condition F → EvaluationOutcome
  unfolding eval_bool
  evaluate ctx condition = outcome (eval_bool ctx condition)
