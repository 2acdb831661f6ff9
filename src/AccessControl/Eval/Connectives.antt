-- ===== src/AccessControl/Eval/Connectives.antt =====
-- How the outcomes of a rule's parts make up its own.
use embyr_rs.Base.{Bool, ◌≡◌, ◌↔◌, ◌⊎◌, arith, Result}
use embyr_rs.Domain.FieldValue.{Float}
use embyr_rs.AccessControl.Syntax.{Condition, EvalContext, allow, deny}
use embyr_rs.AccessControl.Resolve.{FieldMissing}
use embyr_rs.AccessControl.Eval.{or_result, and_result, not_result, outcome, eval_bool, evaluate}

or_iff :
    (r s : Result FieldMissing Bool)
    → (outcome (or_result r s) ≡ allow) ↔ ((outcome r ≡ allow) ⊎ (outcome s ≡ allow))
or_iff r s = ground arith

and_iff :
    (r s : Result FieldMissing Bool)
    → (outcome (and_result r s) ≡ allow) ↔ ((outcome r ≡ allow) × (outcome s ≡ allow))
and_iff r s = ground arith

not_deny : (r : Result FieldMissing Bool) → outcome (not_result r) ≡ allow → outcome r ≡ deny
not_deny r h = ground arith

-- A disjunction allows exactly when one of its sides does, even where the other reads a missing field;
-- a conjunction exactly when both do; and a negation only where its inside denies.
pub evaluate_connectives :
    {F : Type 0} ⦃float : Float F⦄ (ctx : EvalContext F) (c d : Condition F)
    → ((evaluate ctx (Condition.or c d) ≡ allow)
        ↔ ((evaluate ctx c ≡ allow) ⊎ (evaluate ctx d ≡ allow)))
      × ((evaluate ctx (Condition.and c d) ≡ allow)
          ↔ ((evaluate ctx c ≡ allow) × (evaluate ctx d ≡ allow)))
      × (evaluate ctx (Condition.not c) ≡ allow → evaluate ctx c ≡ deny)
unfolding evaluate eval_bool
evaluate_connectives ctx c d = (
  or_iff (eval_bool ctx c) (eval_bool ctx d),
  and_iff (eval_bool ctx c) (eval_bool ctx d),
  not_deny (eval_bool ctx c),
)
