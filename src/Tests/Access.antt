-- ===== src/Tests/Access.antt =====
-- Rules, queries and cross-document reads.
use embyr_rs.Base.{Bool, true, false, Option, none, some, [], ◌∷◌, ◌≡◌, ◌↔◌, ◌⊎◌, refl, here, there}
use embyr_rs.Base.Int.{ℤ}
use embyr_rs.Base.Text.{Text, codes}
use embyr_rs.Base.Dict.{Dict, get}
use embyr_rs.Domain.FieldValue.{FieldValue, value_eq}
use embyr_rs.Domain.Query.{FilterOp, FieldFilter, QueryFilter, Filters, FirestoreDocument}
use embyr_rs.AccessControl.Syntax.{
  PathTemplate, PathTemplateSegment, CompareOp, Operand, Operands, Condition, AuthContext,
  EvalContext, allow, deny,
}
use embyr_rs.AccessControl.Resolve.{resolve_path_template, resolve_field_value}
use embyr_rs.AccessControl.Compare.{any_item, eval_in}
use embyr_rs.AccessControl.Eval.Connectives.{evaluate_connectives}
use embyr_rs.AccessControl.Eval.{eval_bool, evaluate}
use embyr_rs.AccessControl.Discovery.{discover_cross_document_paths}
use embyr_rs.AccessControl.Discovery.Laws.{discover_iff, Listed, Mentions}
use embyr_rs.AccessControl.Discovery.Reads.{evaluate-discover}
use embyr_rs.AccessControl.Compliance.{
  check_query_compliance, rejected_unsupported_rule_shape, filter_binds_field_to_uid,
  UnsatisfiedConjunct,
}
use embyr_rs.AccessControl.Compliance.Sound.{
  EqualityHolds, check_query_compliance_sound, filter_binds-Owned,
}
use embyr_rs.AccessControl.Compliance.Rejects.{
  check_query_compliance_final, check_query_compliance_unsupported_iff, IsDecidable,
}
use embyr_rs.Tests.Floats.{whole_float}

abbrev dana : AuthContext ℤ
dana = record { uid = codes "dana"; claims = [] }

abbrev context : EvalContext ℤ
context = record {
  auth = some dana;
  resource_fields = (codes "owner", FieldValue.string (codes "dana")) ∷ [];
  request_resource_fields = [];
  path_variable_value = none;
  ancestor_path_variable_values = [];
  request_time = none;
  cross_document_reads = [];
}

abbrev owner_rule : Condition ℤ
owner_rule =
    Condition.and (Condition.compare Operand.auth_null_sentinel CompareOp.ne Operand.null_literal)
      (Condition.compare (Operand.resource_field (codes "owner")) CompareOp.eq Operand.auth_uid)

abbrev owner_filter : QueryFilter ℤ
owner_filter = QueryFilter.field (record {
  field_path = codes "owner";
  op = FilterOp.equal;
  value = FieldValue.string (codes "dana");
})

-- A database that compares values itself, for equality, and returns everything otherwise.
abbrev compare_value : FilterOp → FieldValue ℤ → Option (FieldValue ℤ) → Bool
compare_value FilterOp.equal v none = false
compare_value FilterOp.equal v (some w) = value_eq w v
compare_value _ v o = true

abbrev database : FieldFilter ℤ → Dict (FieldValue ℤ) → Bool
database ff fields = compare_value ff.op ff.value (get ff.field_path fields)

compare_value_sound :
    (op : FilterOp) (v : FieldValue ℤ) (o : Option (FieldValue ℤ))
    → op ≡ FilterOp.equal
    → compare_value op v o ≡ true
    → (w : FieldValue ℤ) × (o ≡ some w) × (value_eq w v ≡ true)
compare_value_sound FilterOp.equal v none e h = cc
compare_value_sound FilterOp.equal v (some w) e h = (w, refl, h)
compare_value_sound _ v o e h = cc

database-EqualityHolds : EqualityHolds database
database-EqualityHolds ff fields e h =
    compare_value_sound ff.op ff.value (get ff.field_path fields) e h

either : Option (QueryFilter ℤ)
either = some (
    QueryFilter.composite_or
      (Filters.filter owner_filter (Filters.filter owner_filter Filters.no_filters)))

check_query_compliance_sound_example : evaluate context owner_rule ≡ allow
unfolding check_query_compliance get value_eq either
check_query_compliance_sound_example =
    check_query_compliance_sound database database-EqualityHolds context either refl owner_rule refl

filter_binds-Owned_example :
    get (codes "owner") context.resource_fields ≡ some (FieldValue.string (codes "dana"))
unfolding filter_binds_field_to_uid get value_eq either
filter_binds-Owned_example =
    filter_binds-Owned database database-EqualityHolds (codes "owner") (codes "dana")
      context.resource_fields either refl refl

-- Signed out, and the rule asks for a caller.
abbrev signed_out : EvalContext ℤ
signed_out = record context { auth = none }

check_query_compliance_final_example : evaluate signed_out owner_rule ≡ deny
unfolding check_query_compliance
check_query_compliance_final_example =
    check_query_compliance_final signed_out none owner_rule
      (UnsatisfiedConjunct.auth_required
        ∷ UnsatisfiedConjunct.ownership_filter_missing (codes "owner")
        ∷ [])
      refl (here tt)

check_query_compliance_unsupported_iff_example :
    (check_query_compliance (Condition.not owner_rule) none none ≡ rejected_unsupported_rule_shape)
    ↔ (¬ IsDecidable (Condition.not owner_rule))
check_query_compliance_unsupported_iff_example =
    check_query_compliance_unsupported_iff (Condition.not owner_rule) none none

-- `/users/$(request.auth.uid)`
abbrev own_path : PathTemplate
own_path = record {
  segments = PathTemplateSegment.literal (codes "users") ∷ PathTemplateSegment.auth_uid ∷ [];
}

abbrev fetching_rule : Condition ℤ
fetching_rule = Condition.and owner_rule (
    Condition.compare (Operand.cross_document_get own_path (codes "role")) CompareOp.eq
      (Operand.string_literal (codes "admin")))

discovered_path :
    discover_cross_document_paths context.auth none [] fetching_rule ≡ codes "users/dana" ∷ []
unfolding discover_cross_document_paths resolve_path_template
discovered_path = refl

discover_iff_example :
    Listed (codes "users/dana") (discover_cross_document_paths context.auth none [] fetching_rule)
    ↔ Mentions context.auth none [] (codes "users/dana") fetching_rule
discover_iff_example = discover_iff context.auth none [] (codes "users/dana") fetching_rule

-- Other documents than the discovered one make no difference.
abbrev noise : Dict (Option (FirestoreDocument ℤ))
noise = (codes "users/erin", none) ∷ []

noise_unread :
    (p : Text)
    → Listed p (discover_cross_document_paths context.auth none [] fetching_rule)
    → get p context.cross_document_reads ≡ get p noise
unfolding discover_cross_document_paths resolve_path_template get
noise_unread p (here e) = rw (← e) refl
noise_unread p (there l) = elim l [ ]

evaluate-discover_example :
    evaluate context fetching_rule
    ≡ evaluate (record context { cross_document_reads = noise }) fetching_rule
evaluate-discover_example = evaluate-discover context noise fetching_rule noise_unread

-- A document without the field, on the left of `||`.
abbrev lenient_rule : Condition ℤ
lenient_rule =
    Condition.or
      (Condition.compare (Operand.resource_field (codes "missing")) CompareOp.eq Operand.auth_uid)
      owner_rule

evaluate_connectives_example :
    ((evaluate context (Condition.or lenient_rule owner_rule) ≡ allow)
      ↔ ((evaluate context lenient_rule ≡ allow) ⊎ (evaluate context owner_rule ≡ allow)))
    × ((evaluate context (Condition.and lenient_rule owner_rule) ≡ allow)
        ↔ ((evaluate context lenient_rule ≡ allow) × (evaluate context owner_rule ≡ allow)))
    × (evaluate context (Condition.not lenient_rule) ≡ allow → evaluate context lenient_rule ≡ deny)
evaluate_connectives_example = evaluate_connectives context lenient_rule owner_rule

-- An item that reads a missing field is only taken not to match, so its negation allows.
missing_item_run :
    evaluate context (
      Condition.not (
        Condition.is_in Operand.auth_uid (
          Operand.list_literal
            (Operands.operand (Operand.resource_field (codes "missing")) Operands.no_operands))))
    ≡ allow
unfolding evaluate eval_bool eval_in any_item resolve_field_value get
missing_item_run = refl
