-- ===== src/AccessControl/Compliance.antt =====
-- `check_query_compliance` of access_control/mod.rs: whether a query's filter alone shows that a rule
-- admits every document that the query returns.
pub mod Decomposed
pub mod Sound
pub mod Rejects
use embyr_rs.Base.{
  Bool, true, false, ◌&&◌, ◌||◌, Option, none, some, List, [], ◌∷◌, ◌++◌, Result, ok, err, ◌>>=◌,
}
use embyr_rs.Base.Text.{Text, text_eq}
use embyr_rs.Domain.FieldValue.{Float, FieldValue, value_eq}
use embyr_rs.Domain.Query.{FilterOp, FieldFilter, QueryFilter, Filters}
use embyr_rs.AccessControl.Syntax.{CompareOp, Operand, Condition, AuthContext}

pub data UnsatisfiedConjunct : Type 0 where
  ownership_filter_missing : Text → UnsatisfiedConjunct
  deny_all auth_required : UnsatisfiedConjunct

pub data QueryComplianceOutcome : Type 0 where
  admitted : QueryComplianceOutcome
  rejected : List UnsatisfiedConjunct → QueryComplianceOutcome
  rejected_unsupported_rule_shape : QueryComplianceOutcome

pub data Atom : Type 0 where
  ownership_equality : Text → Atom
  literal : Bool → Atom
  auth_required : Atom

pub data Undecidable : Type 0 where
  undecidable : Undecidable

module _ {F : Type 0} where
  unfoldable pub decompose_compare :
      Operand F → CompareOp → Operand F → Result Undecidable (List Atom)
  decompose_compare Operand.auth_null_sentinel CompareOp.ne Operand.null_literal =
      ok (Atom.auth_required ∷ [])
  decompose_compare Operand.auth_uid CompareOp.eq (Operand.resource_field f) =
      ok (ownership_equality f ∷ [])
  decompose_compare (Operand.resource_field f) CompareOp.eq Operand.auth_uid =
      ok (ownership_equality f ∷ [])
  decompose_compare _ _ _ = err undecidable

  unfoldable pub decompose_decidable : Condition F → Result Undecidable (List Atom)
  unfolding decompose_compare
  decompose_decidable (Condition.literal b) = ok (Atom.literal b ∷ [])
  decompose_decidable (Condition.compare left op right) = decompose_compare left op right
  decompose_decidable (Condition.and left right) = do
    atoms ← decompose_decidable left
    more ← decompose_decidable right
    ok (atoms ++ more)
  decompose_decidable _ = err undecidable

-- `op == FilterOp::Equal`
abbrev pub is_equal : FilterOp → Bool
is_equal FilterOp.equal = true
is_equal _ = false

module _ {F : Type 0} ⦃float : Float F⦄ where
  -- `any_binds` and `every_binds` are the calls of `any` and `all` on a composite filter's parts.
  unfoldable mutual
    unfolding value_eq

    pub filter_binds : QueryFilter F → Text → Text → Bool
    filter_binds (QueryFilter.field ff) field_path caller_uid =
        text_eq ff.field_path field_path
        && (is_equal ff.op && value_eq ff.value (FieldValue.string caller_uid))
    filter_binds (QueryFilter.composite filters) field_path caller_uid =
        any_binds filters field_path caller_uid
    filter_binds (QueryFilter.composite_or filters) field_path caller_uid =
        every_binds filters field_path caller_uid

    pub any_binds : Filters F → Text → Text → Bool
    any_binds Filters.no_filters field_path caller_uid = false
    any_binds (Filters.filter f fs) field_path caller_uid =
        filter_binds f field_path caller_uid || any_binds fs field_path caller_uid

    pub every_binds : Filters F → Text → Text → Bool
    every_binds Filters.no_filters field_path caller_uid = true
    every_binds (Filters.filter f fs) field_path caller_uid =
        filter_binds f field_path caller_uid && every_binds fs field_path caller_uid

  unfoldable pub filter_binds_field_to_uid : Option (QueryFilter F) → Text → Text → Bool
  unfolding filter_binds
  filter_binds_field_to_uid none field_path caller_uid = false
  filter_binds_field_to_uid (some f) field_path caller_uid = filter_binds f field_path caller_uid

  -- What the loop adds to `unsatisfied` for the atom that requires a caller.
  abbrev pub missing_auth : Option (AuthContext F) → List UnsatisfiedConjunct
  missing_auth none = UnsatisfiedConjunct.auth_required ∷ []
  missing_auth (some a) = []

  -- The same for an ownership atom.
  abbrev pub missing_filter :
      Option (QueryFilter F) → Option (AuthContext F) → Text → List UnsatisfiedConjunct
  missing_filter filter none field = ownership_filter_missing field ∷ []
  missing_filter filter (some a) field = elim (filter_binds_field_to_uid filter field a.uid) [
    | true ↦ []
    | false ↦ ownership_filter_missing field ∷ []
  ]

  -- The loop over the atoms, and the test after it.
  unfoldable pub check_atoms :
      Option (QueryFilter F)
      → Option (AuthContext F)
      → List UnsatisfiedConjunct
      → List Atom
      → QueryComplianceOutcome
  unfolding filter_binds_field_to_uid
  check_atoms filter auth [] [] = admitted
  check_atoms filter auth (u ∷ us) [] = rejected (u ∷ us)
  check_atoms filter auth us (Atom.literal true ∷ atoms) = check_atoms filter auth us atoms
  check_atoms filter auth us (Atom.literal false ∷ atoms) = rejected (deny_all ∷ [])
  check_atoms filter auth us (Atom.auth_required ∷ atoms) =
      check_atoms filter auth (us ++ missing_auth auth) atoms
  check_atoms filter auth us (Atom.ownership_equality field ∷ atoms) =
      check_atoms filter auth (us ++ missing_filter filter auth field) atoms

  unfoldable pub check_query_compliance :
      Condition F → Option (QueryFilter F) → Option (AuthContext F) → QueryComplianceOutcome
  unfolding decompose_decidable check_atoms
  check_query_compliance condition filter auth = elim (decompose_decidable condition) [
    | ok atoms ↦ check_atoms filter auth [] atoms
    | err e ↦ rejected_unsupported_rule_shape
  ]
