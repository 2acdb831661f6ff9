-- ===== src/AccessControl/Compliance/Rejects.antt =====
-- What a rejection by `check_query_compliance` means.
use embyr_rs.Base.{
  Bool, true, false, Option, none, some, List, [], ◌∷◌, ◌++◌, ◌≡◌, ◌≢◌, refl, ◌↔◌, arith, Result,
  ok, err, subst, Bool-cases, Result-cases, All, Any, here, there, ◌⊎◌, inl, inr, Any-append_cases,
  >>=-ok,
}
use embyr_rs.Base.Text.{Text}
use embyr_rs.Domain.FieldValue.{Float}
use embyr_rs.Domain.Query.{QueryFilter}
use embyr_rs.AccessControl.Syntax.{CompareOp, Operand, Condition, AuthContext, EvalContext, deny}
use embyr_rs.AccessControl.Compare.{auth_is_none}
use embyr_rs.AccessControl.Eval.{eval_bool, evaluate, outcome}
use embyr_rs.AccessControl.Resolve.{FieldMissing}
use embyr_rs.AccessControl.Compliance.{
  UnsatisfiedConjunct, ownership_filter_missing, deny_all, rejected,
  rejected_unsupported_rule_shape, Atom, ownership_equality, missing_auth, missing_filter,
  filter_binds_field_to_uid, decompose_compare, decompose_decidable, check_atoms,
  check_query_compliance,
}
use embyr_rs.AccessControl.Compliance.Decomposed.{Holds, decompose_decidable-eval_bool}

-- A conjunct that no filter could satisfy.
abbrev pub IsFinal : UnsatisfiedConjunct → Type 0
IsFinal (ownership_filter_missing f) = ⊥
IsFinal deny_all = Unit
IsFinal UnsatisfiedConjunct.auth_required = Unit

-- The rules that the query path decides: literals, `request.auth != null`, ownership equality in
-- either order, and conjunctions of these.
pub data IsDecidable {F : Type 0} : Condition F → Type 0 where
  literal : {b : Bool} → IsDecidable (Condition.literal b)
  signed_in :
      IsDecidable (Condition.compare Operand.auth_null_sentinel CompareOp.ne Operand.null_literal)
  owner :
      {f : Text}
      → IsDecidable (Condition.compare Operand.auth_uid CompareOp.eq (Operand.resource_field f))
  owned_by :
      {f : Text}
      → IsDecidable (Condition.compare (Operand.resource_field f) CompareOp.eq Operand.auth_uid)
  both : {c d : Condition F} → IsDecidable c → IsDecidable d → IsDecidable (Condition.and c d)

module _ {F : Type 0} where
  decompose_of_IsDecidable :
      {c : Condition F} → IsDecidable c → (atoms : List Atom) × (decompose_decidable c ≡ ok atoms)
  unfolding decompose_decidable
  decompose_of_IsDecidable (literal {b}) = (Atom.literal b ∷ [], refl)
  decompose_of_IsDecidable signed_in = (Atom.auth_required ∷ [], refl)
  decompose_of_IsDecidable (owner {f}) = (ownership_equality f ∷ [], refl)
  decompose_of_IsDecidable (owned_by {f}) = (ownership_equality f ∷ [], refl)
  decompose_of_IsDecidable (both p q) =
      let (xs, e) = decompose_of_IsDecidable p in
      let (ys, e') = decompose_of_IsDecidable q in (xs ++ ys, rw (e, e'))

  compare_IsDecidable :
      (l : Operand F) (op : CompareOp) (r : Operand F) {atoms : List Atom}
      → decompose_compare l op r ≡ ok atoms
      → IsDecidable (Condition.compare l op r)
  unfolding decompose_compare
  compare_IsDecidable Operand.auth_null_sentinel CompareOp.ne Operand.null_literal h = signed_in
  compare_IsDecidable Operand.auth_uid CompareOp.eq (Operand.resource_field f) h = owner
  compare_IsDecidable (Operand.resource_field f) CompareOp.eq Operand.auth_uid h = owned_by
  compare_IsDecidable _ _ _ h = cc

  IsDecidable-of_decompose :
      (c : Condition F) {atoms : List Atom} → decompose_decidable c ≡ ok atoms → IsDecidable c
  unfolding decompose_decidable
  IsDecidable-of_decompose (Condition.literal b) h = literal
  IsDecidable-of_decompose (Condition.compare l op r) h = compare_IsDecidable l op r h
  IsDecidable-of_decompose (Condition.and c d) h =
      let (xs, hc, h') = >>=-ok (decompose_decidable c) _ h in
      let (ys, hd, e) = >>=-ok (decompose_decidable d) _ h' in
      both (IsDecidable-of_decompose c hc) (IsDecidable-of_decompose d hd)
  IsDecidable-of_decompose _ h = cc

module _ {F : Type 0} ⦃float : Float F⦄ where
  check_atoms_supported :
      (filter : Option (QueryFilter F)) (auth : Option (AuthContext F)) (atoms : List Atom)
      (us : List UnsatisfiedConjunct)
      → check_atoms filter auth us atoms ≢ rejected_unsupported_rule_shape
  unfolding check_atoms
  check_atoms_supported filter auth [] [] h = cc
  check_atoms_supported filter auth [] (u ∷ us) h = cc
  check_atoms_supported filter auth (Atom.literal true ∷ atoms) us h =
      check_atoms_supported filter auth atoms us h
  check_atoms_supported filter auth (Atom.literal false ∷ atoms) us h = cc
  check_atoms_supported filter auth (Atom.auth_required ∷ atoms) us h =
      check_atoms_supported filter auth atoms (us ++ missing_auth auth) h
  check_atoms_supported filter auth (Atom.ownership_equality f ∷ atoms) us h =
      check_atoms_supported filter auth atoms (us ++ missing_filter filter auth f) h

  -- A rule is reported as unsupported exactly when it lies outside the decidable shapes, whatever the
  -- filter and the caller.
  pub check_query_compliance_unsupported_iff :
      (c : Condition F) (filter : Option (QueryFilter F)) (auth : Option (AuthContext F))
      → (check_query_compliance c filter auth ≡ rejected_unsupported_rule_shape) ↔ (¬ IsDecidable c)
  unfolding check_query_compliance
  check_query_compliance_unsupported_iff c filter auth =
      elim (Result-cases (decompose_decidable c)) [
        | inl (atoms, e) ↦ (
          λ h.
              absurd
                (check_atoms_supported filter auth atoms [] (rw (e, check_query_compliance) at h)),
          λ n. absurd (n (IsDecidable-of_decompose c e)),
        )
        | inr (u, e) ↦ (
          λ h d. let (atoms, e') = decompose_of_IsDecidable d in cc,
          λ n. rw (e, check_query_compliance) refl,
        )
      ]

  missing_filter_cases :
      (filter : Option (QueryFilter F)) (auth : Option (AuthContext F)) (f : Text)
      → (missing_filter filter auth f ≡ [])
        ⊎ (missing_filter filter auth f ≡ ownership_filter_missing f ∷ [])
  missing_filter_cases filter none f = inr refl
  missing_filter_cases filter (some a) f =
      elim (Bool-cases (filter_binds_field_to_uid filter f a.uid)) [
        | inl e ↦ inl (ground arith)
        | inr e ↦ inr (ground arith)
      ]

  missing_filter-IsFinal :
      (filter : Option (QueryFilter F)) (auth : Option (AuthContext F)) (f : Text)
      → ¬ Any IsFinal (missing_filter filter auth f)
  missing_filter-IsFinal filter auth f a = elim (missing_filter_cases filter auth f) [
    | inl e ↦ not_nil (subst (Any IsFinal) e a)
    | inr e ↦ not_single (subst (Any IsFinal) e a)
  ]
    where
      not_nil : ¬ Any IsFinal []
      not_nil x = elim x [ ]

      not_single : ¬ Any IsFinal (ownership_filter_missing f ∷ [])
      not_single (here p) = p
      not_single (there q) = not_nil q

  missing_auth-IsFinal :
      (auth : Option (AuthContext F)) → Any IsFinal (missing_auth auth) → auth_is_none auth ≡ true
  missing_auth-IsFinal none a = refl
  missing_auth-IsFinal (some x) a = elim a [ ]

  module _ (ctx : EvalContext F) (filter : Option (QueryFilter F)) where
    check_atoms-IsFinal :
        (atoms : List Atom) (us vs : List UnsatisfiedConjunct)
        → check_atoms filter ctx.auth us atoms ≡ rejected vs
        → Any IsFinal vs
        → Any IsFinal us ⊎ (¬ All (Holds ctx) atoms)
    unfolding check_atoms
    check_atoms-IsFinal [] [] vs h a = cc
    check_atoms-IsFinal [] (u ∷ us) vs h a = inl (subst (Any IsFinal) (cc) a)
    check_atoms-IsFinal (Atom.literal true ∷ atoms) us vs h a =
        elim (check_atoms-IsFinal atoms us vs h a) [ inl b ↦ inl b | inr n ↦ inr λ (_, ps). n ps ]
    check_atoms-IsFinal (Atom.literal false ∷ atoms) us vs h a = inr λ (p, _). cc
    check_atoms-IsFinal (Atom.auth_required ∷ atoms) us vs h a =
        elim (check_atoms-IsFinal atoms (us ++ missing_auth ctx.auth) vs h a) [
          | inl b ↦ (elim (Any-append_cases us (missing_auth ctx.auth) b) [
            | inl x ↦ inl x
            | inr y ↦ let signed_out = missing_auth-IsFinal ctx.auth y in inr λ (p, _). cc
          ])
          | inr n ↦ inr λ (_, ps). n ps
        ]
    check_atoms-IsFinal (Atom.ownership_equality f ∷ atoms) us vs h a =
        elim (check_atoms-IsFinal atoms (us ++ missing_filter filter ctx.auth f) vs h a) [
          | inl b ↦ (elim (Any-append_cases us (missing_filter filter ctx.auth f) b) [
            | inl x ↦ inl x
            | inr y ↦ absurd (missing_filter-IsFinal filter ctx.auth f y)
          ])
          | inr n ↦ inr λ (_, ps). n ps
        ]

    deny_of_not_true : (r : Result FieldMissing Bool) → r ≢ ok true → outcome r ≡ deny
    deny_of_not_true (ok true) n = absurd (n refl)
    deny_of_not_true (ok false) n = refl
    deny_of_not_true (err e) n = refl

    -- A rejection that names the deny-all or the signed-in conjunct is final: for this caller the rule
    -- denies every document, whatever else its evaluation is given.
    pub check_query_compliance_final :
        (c : Condition F) (us : List UnsatisfiedConjunct)
        → check_query_compliance c filter ctx.auth ≡ rejected us
        → Any IsFinal us
        → evaluate ctx c ≡ deny
    unfolding check_query_compliance evaluate
    check_query_compliance_final c us h a = elim (Result-cases (decompose_decidable c)) [
      | inl (atoms, e) ↦
          (elim (check_atoms-IsFinal atoms [] us (rw (e, check_query_compliance) at h) a) [
            | inl nothing ↦ elim nothing [ ]
            | inr n ↦
                deny_of_not_true (eval_bool ctx c)
                  λ t. n ((decompose_decidable-eval_bool ctx c atoms e).1 t)
          ])
      | inr (u, e) ↦ let refused = rw (e, check_query_compliance) at h in cc
    ]
