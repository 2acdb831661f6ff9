-- ===== src/AccessControl/Compliance/Decomposed.antt =====
-- The atoms of a decidable rule against its evaluation.
use embyr_rs.Base.{
  Bool, true, false, List, ◌++◌, ◌≡◌, ◌↔◌, arith, Result, ok, >>=-ok, All, All-append,
  All-append_left, All-append_right,
}
use embyr_rs.Domain.FieldValue.{Float}
use embyr_rs.AccessControl.Syntax.{CompareOp, Operand, Condition, EvalContext}
use embyr_rs.AccessControl.Compare.{owner_matches, auth_is_none, compare_operands, eval_compare}
use embyr_rs.AccessControl.Eval.{and_result, eval_bool}
use embyr_rs.AccessControl.Compliance.{Atom, decompose_compare, decompose_decidable}

module _ {F : Type 0} ⦃float : Float F⦄ (ctx : EvalContext F) where
  -- What an atom asks of the caller and the document.
  abbrev pub Holds : Atom → Type 0
  Holds (Atom.literal b) = b ≡ true
  Holds Atom.auth_required = auth_is_none ctx.auth ≡ false
  Holds (Atom.ownership_equality f) = owner_matches ctx.auth ctx.resource_fields f ≡ ok true

  compare_iff :
      (l : Operand F) (op : CompareOp) (r : Operand F) (atoms : List Atom)
      → decompose_compare l op r ≡ ok atoms
      → All Holds atoms ↔ (eval_compare ctx l op r ≡ ok true)
  unfolding decompose_compare eval_compare compare_operands
  compare_iff Operand.auth_null_sentinel CompareOp.ne Operand.null_literal atoms h = ground arith
  compare_iff Operand.auth_uid CompareOp.eq (Operand.resource_field f) atoms h = ground arith
  compare_iff (Operand.resource_field f) CompareOp.eq Operand.auth_uid atoms h = ground arith
  compare_iff _ _ _ atoms h = cc

  and_iff : (r s : Result _ Bool) → ((r ≡ ok true) × (s ≡ ok true)) ↔ (and_result r s ≡ ok true)
  and_iff r s = ground arith

  -- A decidable rule is true exactly when all its atoms hold.
  pub decompose_decidable-eval_bool :
      (c : Condition F) (atoms : List Atom)
      → decompose_decidable c ≡ ok atoms
      → All Holds atoms ↔ (eval_bool ctx c ≡ ok true)
  unfolding decompose_decidable eval_bool
  decompose_decidable-eval_bool (Condition.literal b) atoms h = ground arith
  decompose_decidable-eval_bool (Condition.compare l op r) atoms h = compare_iff l op r atoms h
  decompose_decidable-eval_bool (Condition.and c d) atoms h =
      let (xs, hc, h') = >>=-ok (decompose_decidable c) _ h in
      let (ys, hd, e) = >>=-ok (decompose_decidable d) _ h' in
      let (to_c, from_c) = decompose_decidable-eval_bool c xs hc in
      let (to_d, from_d) = decompose_decidable-eval_bool d ys hd in
      let (join_and, split_and) = and_iff (eval_bool ctx c) (eval_bool ctx d) in
      let same : xs ++ ys ≡ atoms = cc in
      rw (← same) (
        λ a. join_and (to_c (All-append_left Holds xs ys a), to_d (All-append_right Holds xs ys a)),
        λ e. All-append Holds xs ys (from_c (split_and e).0) (from_d (split_and e).1),
      )
  decompose_decidable-eval_bool _ atoms h = cc
