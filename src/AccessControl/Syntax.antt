-- ===== src/AccessControl/Syntax.antt =====
-- The condition language of access_control/mod.rs, and what a condition is evaluated against.
use embyr_rs.Base.{Bool, List, Option}
use embyr_rs.Base.Int.{ℤ}
use embyr_rs.Base.Text.{Text}
use embyr_rs.Base.Dict.{Dict}
use embyr_rs.Domain.FieldValue.{FieldValue}
use embyr_rs.Domain.Query.{FirestoreDocument}

pub data PathTemplateSegment : Type 0 where
  literal : Text → PathTemplateSegment
  auth_uid : PathTemplateSegment
  path_variable : Text → PathTemplateSegment

pub record PathTemplate : Type 0 where
  pub segments : List PathTemplateSegment

pub data ArithmeticOp : Type 0 where
  add sub : ArithmeticOp

pub data DurationUnit : Type 0 where
  seconds minutes hours days : DurationUnit

pub data CompareOp : Type 0 where
  eq ne lt le gt ge : CompareOp

-- `Operands` is the vector of a list literal.
mutual
  pub data Operand (F : Type 0) : Type 0 where
    auth_uid : Operand F
    auth_null_sentinel : Operand F
    resource_field : Text → Operand F
    request_resource_field : Text → Operand F
    auth_token_claim : Text → Operand F
    bool_literal : Bool → Operand F
    null_literal : Operand F
    string_literal : Text → Operand F
    path_variable : Text → Operand F
    int_literal : ℤ → Operand F
    double_literal : F → Operand F
    list_literal : Operands F → Operand F
    request_time : Operand F
    arithmetic : Operand F → ArithmeticOp → Operand F → Operand F
    duration_literal : ℤ → DurationUnit → Operand F
    cross_document_exists : PathTemplate → Operand F
    cross_document_get : PathTemplate → Text → Operand F

  pub data Operands (F : Type 0) : Type 0 where
    no_operands : Operands F
    operand : Operand F → Operands F → Operands F

-- `is_in` is the source's `In`.
pub data Condition (F : Type 0) : Type 0 where
  literal : Bool → Condition F
  compare : Operand F → CompareOp → Operand F → Condition F
  and : Condition F → Condition F → Condition F
  or : Condition F → Condition F → Condition F
  not : Condition F → Condition F
  is_in : Operand F → Operand F → Condition F

pub record AuthContext (F : Type 0) : Type 0 where
  pub uid : Text
  pub claims : Dict (FieldValue F)

pub record EvalContext (F : Type 0) : Type 0 where
  pub auth : Option (AuthContext F)
  pub resource_fields : Dict (FieldValue F)
  pub request_resource_fields : Dict (FieldValue F)
  pub path_variable_value : Option Text
  pub ancestor_path_variable_values : Dict Text
  pub request_time : Option (FieldValue F)
  pub cross_document_reads : Dict (Option (FirestoreDocument F))

pub data EvaluationOutcome : Type 0 where
  allow deny : EvaluationOutcome
