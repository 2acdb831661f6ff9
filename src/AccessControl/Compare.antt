-- ===== src/AccessControl/Compare.antt =====
-- Comparisons and membership of access_control/mod.rs: `compare_operands`, `compare_relational` and
-- the `In` arm of `eval_bool`.
use embyr_rs.Base.{
  Bool, true, false, not, ◌&&◌, ◌||◌, Option, none, some, Result, ok, err, ok_or, ◌>>=◌, ◌>>◌,
}
use embyr_rs.Base.Int.{ℤ, ltb_ℤ, eqb_ℤ}
use embyr_rs.Base.Text.{Text, text_eq}
use embyr_rs.Base.Dict.{Dict, get}
use embyr_rs.Domain.FieldValue.{Float, FieldValue, value_eq}
use embyr_rs.AccessControl.Syntax.{
  CompareOp, eq, ne, lt, le, gt, ge, Operand, Operands, AuthContext, EvalContext,
}
use embyr_rs.AccessControl.Resolve.{FieldMissing, field_missing, resolve_field_value}

-- Pairs of seconds and nanoseconds, in lexicographic order.
unfoldable pub timestamp_lt : ℤ × ℤ → ℤ × ℤ → Bool
timestamp_lt (s, n) (t, m) = ltb_ℤ s t || (eqb_ℤ s t && ltb_ℤ n m)

-- The equality operators are unreachable here.
unfoldable pub compare_timestamps : CompareOp → ℤ × ℤ → ℤ × ℤ → Bool
unfolding timestamp_lt
compare_timestamps lt l r = timestamp_lt l r
compare_timestamps le l r = not (timestamp_lt r l)
compare_timestamps gt l r = timestamp_lt r l
compare_timestamps ge l r = not (timestamp_lt l r)
compare_timestamps _ l r = false

module _ {F : Type 0} ⦃float : Float F⦄ where
  -- `matches!(field, FieldValue::String(v) if v == &auth.uid)`
  abbrev pub is_uid : Text → FieldValue F → Bool
  is_uid uid (FieldValue.string v) = text_eq v uid
  is_uid uid _ = false

  -- The pairing of `request.auth.uid` with a field of `fields`.
  unfoldable pub owner_matches :
      Option (AuthContext F) → Dict (FieldValue F) → Text → Result FieldMissing Bool
  owner_matches auth fields name = do
    a ← ok_or field_missing auth
    field ← ok_or field_missing (get name fields)
    ok (is_uid a.uid field)

  abbrev pub auth_is_none : Option (AuthContext F) → Bool
  auth_is_none none = true
  auth_is_none (some a) = false

  unfoldable pub compare_operands : EvalContext F → Operand F → Operand F → Result FieldMissing Bool
  unfolding owner_matches
  compare_operands ctx Operand.auth_uid (Operand.resource_field name) =
      owner_matches ctx.auth ctx.resource_fields name
  compare_operands ctx (Operand.resource_field name) Operand.auth_uid =
      owner_matches ctx.auth ctx.resource_fields name
  compare_operands ctx Operand.auth_uid (Operand.request_resource_field name) =
      owner_matches ctx.auth ctx.request_resource_fields name
  compare_operands ctx (Operand.request_resource_field name) Operand.auth_uid =
      owner_matches ctx.auth ctx.request_resource_fields name
  compare_operands ctx Operand.auth_null_sentinel Operand.null_literal = ok (auth_is_none ctx.auth)
  compare_operands ctx Operand.null_literal Operand.auth_null_sentinel = ok (auth_is_none ctx.auth)
  compare_operands ctx Operand.auth_uid Operand.null_literal = ok (auth_is_none ctx.auth)
  compare_operands ctx Operand.null_literal Operand.auth_uid = ok (auth_is_none ctx.auth)
  compare_operands ctx left right = do
    left_value ← resolve_field_value ctx left
    right_value ← resolve_field_value ctx right
    ok (value_eq left_value right_value)

  unfoldable pub numeric_value : FieldValue F → Option F
  numeric_value (FieldValue.integer i) = some (float.of_i64 i)
  numeric_value (FieldValue.double d) = some d
  numeric_value _ = none

  unfoldable pub compare_floats : CompareOp → F → F → Bool
  compare_floats lt l r = float.lt l r
  compare_floats le l r = float.le l r
  compare_floats gt l r = float.lt r l
  compare_floats ge l r = float.le r l
  compare_floats _ l r = false

  abbrev pub compare_numeric : CompareOp → Option F → Option F → Bool
  compare_numeric op (some l) (some r) = compare_floats op l r
  compare_numeric op _ _ = false

  unfoldable pub compare_relational : CompareOp → FieldValue F → FieldValue F → Bool
  unfolding numeric_value compare_timestamps compare_floats
  compare_relational op (FieldValue.timestamp s n) (FieldValue.timestamp t m) =
      compare_timestamps op (s, n) (t, m)
  compare_relational op left right = compare_numeric op (numeric_value left) (numeric_value right)

  unfoldable pub eval_compare :
      EvalContext F → Operand F → CompareOp → Operand F → Result FieldMissing Bool
  eval_compare ctx left eq right = compare_operands ctx left right
  eval_compare ctx left ne right = do equal ← compare_operands ctx left right; ok (not equal)
  eval_compare ctx left op right = do
    left_value ← resolve_field_value ctx left
    right_value ← resolve_field_value ctx right
    ok (compare_relational op left_value right_value)

  -- An item that does not resolve does not match.
  abbrev pub item_matches : FieldValue F → Result FieldMissing (FieldValue F) → Bool
  item_matches left_value (ok v) = value_eq v left_value
  item_matches left_value (err e) = false

  unfoldable pub any_item : EvalContext F → FieldValue F → Operands F → Bool
  any_item ctx left_value Operands.no_operands = false
  any_item ctx left_value (Operands.operand item items) =
      item_matches left_value (resolve_field_value ctx item) || any_item ctx left_value items

  unfoldable pub eval_in : EvalContext F → Operand F → Operand F → Result FieldMissing Bool
  eval_in ctx left (Operand.list_literal items) = do
    left_value ← resolve_field_value ctx left
    ok (any_item ctx left_value items)
  eval_in ctx left _ = resolve_field_value ctx left >> ok false
