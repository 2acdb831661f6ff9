-- ===== src/AccessControl/Resolve.antt =====
-- The operands of a condition resolved to values: `resolve_field_value` of access_control/mod.rs and
-- the path templates that it builds.
use embyr_rs.Base.{
  Bool, true, false, Option, none, some, List, [], ◌∷◌, Result, ok, err, ok_or, ◌>>=◌,
}
use embyr_rs.Base.Int.{ℤ, pos, ◌+ℤ◌, ◌-ℤ◌, ◌*ℤ◌, wrap_i64}
use embyr_rs.Base.Text.{Text, codes, join}
use embyr_rs.Base.Dict.{Dict, get}
use embyr_rs.Domain.FieldValue.{Float, FieldValue}
use embyr_rs.Domain.Query.{FirestoreDocument}
use embyr_rs.AccessControl.Syntax.{
  PathTemplateSegment, PathTemplate, ArithmeticOp, add, sub, DurationUnit, seconds, minutes, hours,
  days, Operand, AuthContext, EvalContext,
}

pub data FieldMissing : Type 0 where
  field_missing : FieldMissing

-- Multiplication in `i64`, which wraps around.
unfoldable pub as_seconds : DurationUnit → ℤ → ℤ
as_seconds seconds amount = amount
as_seconds minutes amount = wrap_i64 (amount *ℤ pos 60)
as_seconds hours amount = wrap_i64 (amount *ℤ pos 3600)
as_seconds days amount = wrap_i64 (amount *ℤ pos 86400)

-- `+` and `-` on `i64`.
unfoldable pub apply_i64 : ArithmeticOp → ℤ → ℤ → ℤ
apply_i64 add l r = wrap_i64 (l +ℤ r)
apply_i64 sub l r = wrap_i64 (l -ℤ r)

-- The value of `request.path.<name>`: an ancestor's capture, else the leaf's.
unfoldable pub path_variable_text : Text → Option Text → Dict Text → Result FieldMissing Text
path_variable_text name leaf ancestors = elim (get name ancestors) [
  | some v ↦ ok v
  | none ↦ ok_or field_missing leaf
]

module _ {F : Type 0} where
  unfoldable pub auth_uid_text : Option (AuthContext F) → Result FieldMissing Text
  auth_uid_text none = err field_missing
  auth_uid_text (some a) = ok a.uid

  -- One segment of a template.
  unfoldable pub resolve_segment :
      Option (AuthContext F)
      → Option Text
      → Dict Text
      → PathTemplateSegment
      → Result FieldMissing Text
  unfolding auth_uid_text path_variable_text
  resolve_segment auth leaf ancestors (PathTemplateSegment.literal s) = ok s
  resolve_segment auth leaf ancestors PathTemplateSegment.auth_uid = auth_uid_text auth
  resolve_segment auth leaf ancestors (PathTemplateSegment.path_variable name) =
      path_variable_text name leaf ancestors

  unfoldable pub resolve_segments :
      Option (AuthContext F)
      → Option Text
      → Dict Text
      → List PathTemplateSegment
      → Result FieldMissing (List Text)
  unfolding resolve_segment
  resolve_segments auth leaf ancestors [] = ok []
  resolve_segments auth leaf ancestors (s ∷ rest) = do
    part ← resolve_segment auth leaf ancestors s
    parts ← resolve_segments auth leaf ancestors rest
    ok (part ∷ parts)

  unfoldable pub resolve_path_template :
      Option (AuthContext F) → Option Text → Dict Text → PathTemplate → Result FieldMissing Text
  unfolding resolve_segments
  resolve_path_template auth leaf ancestors template = do
    parts ← resolve_segments auth leaf ancestors template.segments
    ok (join (codes "/") parts)

  -- A template against the bindings of a context.
  abbrev pub template_path : EvalContext F → PathTemplate → Result FieldMissing Text
  template_path ctx =
      resolve_path_template ctx.auth ctx.path_variable_value ctx.ancestor_path_variable_values

  -- `Some(Some(_))`: fetched, and present.
  abbrev pub is_present : Option (Option (FirestoreDocument F)) → Bool
  is_present (some (some doc)) = true
  is_present _ = false

  abbrev pub field_of_read :
      Text → Option (Option (FirestoreDocument F)) → Result FieldMissing (FieldValue F)
  field_of_read name (some (some doc)) = ok_or field_missing (get name doc.fields)
  field_of_read name _ = err field_missing

  abbrev pub claim_of : Text → Option (AuthContext F) → Result FieldMissing (FieldValue F)
  claim_of key none = err field_missing
  claim_of key (some a) = ok_or field_missing (get key a.claims)

module _ {F : Type 0} ⦃float : Float F⦄ where
  -- Two resolved operands of an arithmetic operator.
  unfoldable pub apply_numeric :
      ArithmeticOp → FieldValue F → FieldValue F → Result FieldMissing (FieldValue F)
  unfolding apply_i64
  apply_numeric op (FieldValue.integer l) (FieldValue.integer r) =
      ok (FieldValue.integer (apply_i64 op l r))
  apply_numeric add (FieldValue.double l) (FieldValue.double r) =
      ok (FieldValue.double (float.add l r))
  apply_numeric sub (FieldValue.double l) (FieldValue.double r) =
      ok (FieldValue.double (float.sub l r))
  apply_numeric _ _ _ = err field_missing

  -- `left` is resolved; `right` is the operand as written, with what it resolves to.
  unfoldable pub apply_arithmetic :
      ArithmeticOp
      → FieldValue F
      → Operand F
      → Result FieldMissing (FieldValue F)
      → Result FieldMissing (FieldValue F)
  unfolding as_seconds apply_i64 apply_numeric
  apply_arithmetic op (FieldValue.timestamp secs nanos) (Operand.duration_literal amount unit) _ =
      ok (FieldValue.timestamp (apply_i64 op secs (as_seconds unit amount)) nanos)
  apply_arithmetic op left _ right = right >>= apply_numeric op left

  unfoldable pub resolve_field_value :
      EvalContext F → Operand F → Result FieldMissing (FieldValue F)
  unfolding path_variable_text auth_uid_text resolve_path_template apply_arithmetic
  resolve_field_value ctx (Operand.resource_field name) =
      ok_or field_missing (get name ctx.resource_fields)
  resolve_field_value ctx (Operand.request_resource_field name) =
      ok_or field_missing (get name ctx.request_resource_fields)
  resolve_field_value ctx (Operand.bool_literal value) = ok (FieldValue.boolean value)
  resolve_field_value ctx Operand.null_literal = ok FieldValue.null
  resolve_field_value ctx (Operand.string_literal value) = ok (FieldValue.string value)
  resolve_field_value ctx (Operand.auth_token_claim key) = claim_of key ctx.auth
  resolve_field_value ctx Operand.auth_uid = do
    uid ← auth_uid_text ctx.auth
    ok (FieldValue.string uid)
  resolve_field_value ctx Operand.auth_null_sentinel = do
    uid ← auth_uid_text ctx.auth
    ok (FieldValue.string uid)
  resolve_field_value ctx (Operand.path_variable name) = do
    v ← path_variable_text name ctx.path_variable_value ctx.ancestor_path_variable_values
    ok (FieldValue.string v)
  resolve_field_value ctx (Operand.int_literal value) = ok (FieldValue.integer value)
  resolve_field_value ctx (Operand.double_literal value) = ok (FieldValue.double value)
  resolve_field_value ctx (Operand.list_literal items) = err field_missing
  resolve_field_value ctx Operand.request_time = ok_or field_missing ctx.request_time
  resolve_field_value ctx (Operand.arithmetic left op right) = do
    left_value ← resolve_field_value ctx left
    apply_arithmetic op left_value right (resolve_field_value ctx right)
  resolve_field_value ctx (Operand.duration_literal amount unit) = err field_missing
  resolve_field_value ctx (Operand.cross_document_exists template) = do
    path ← template_path ctx template
    ok (FieldValue.boolean (is_present (get path ctx.cross_document_reads)))
  resolve_field_value ctx (Operand.cross_document_get template field) = do
    path ← template_path ctx template
    field_of_read field (get path ctx.cross_document_reads)
