-- ===== src/AccessControl/Discovery/Reads.antt =====
-- Evaluation reads the fetched documents only at the discovered paths.
use mathlib.Core.Path.{ap₂, fun_ext}
use embyr_rs.Base.{Bool, Option, ◌≡◌, refl, ap, inl, inr, ◌||◌, Result, ok, err, ◌>>=◌}
use embyr_rs.Base.Text.{Text}
use embyr_rs.Base.Dict.{Dict, get}
use embyr_rs.Domain.FieldValue.{Float, FieldValue, value_eq}
use embyr_rs.Domain.Query.{FirestoreDocument}
use embyr_rs.AccessControl.Syntax.{Operand, Operands, Condition, EvalContext, CompareOp}
use embyr_rs.AccessControl.Resolve.{
  FieldMissing, resolve_field_value, is_present, field_of_read, template_path,
}
use embyr_rs.AccessControl.Compare.{
  compare_relational, compare_operands, eval_compare, any_item, eval_in, item_matches,
}
use embyr_rs.AccessControl.Eval.{eval_bool, evaluate, outcome, and_result, or_result, not_result}
use embyr_rs.AccessControl.Discovery.{discover_cross_document_paths}
use embyr_rs.AccessControl.Discovery.Laws.{
  OperandMentions, ItemsMention, Mentions, Listed, discover_iff,
}

module _ {F : Type 0} ⦃float : Float F⦄ (ctx : EvalContext F)
    (reads : Dict (Option (FirestoreDocument F))) where
  -- The context with other documents fetched.
  abbrev other : EvalContext F
  other = record ctx { cross_document_reads = reads }

  -- Both contexts hold the same at every path for which `M` holds.
  abbrev Agree : (Text → Type 0) → Type 0
  Agree M = (p : Text) → M p → get p ctx.cross_document_reads ≡ get p reads

  abbrev Mentioned : Operand F → Text → Type 0
  Mentioned o p =
      OperandMentions ctx.auth ctx.path_variable_value ctx.ancestor_path_variable_values p o

  abbrev ItemMentioned : Operands F → Text → Type 0
  ItemMentioned os p =
      ItemsMention ctx.auth ctx.path_variable_value ctx.ancestor_path_variable_values p os

  abbrev CondMentioned : Condition F → Text → Type 0
  CondMentioned c p =
      Mentions ctx.auth ctx.path_variable_value ctx.ancestor_path_variable_values p c

  -- What follows a resolved path agrees if it agrees at that path.
  bind_agree :
      {A : Type 0} (r : Result FieldMissing Text) (f g : Text → Result FieldMissing A)
      → ((p : Text) → r ≡ ok p → f p ≡ g p)
      → (r >>= f) ≡ (r >>= g)
  bind_agree (ok p) f g h = h p refl
  bind_agree (err e) f g h = refl

  resolve_agree :
      (o : Operand F)
      → Agree (Mentioned o)
      → resolve_field_value ctx o ≡ resolve_field_value other o
  unfolding resolve_field_value
  resolve_agree (Operand.cross_document_exists t) h =
      bind_agree (template_path ctx t) _ _
        λ p e. ap (λ d. ok (FieldValue.boolean (is_present d))) (h p e)
  resolve_agree (Operand.cross_document_get t field) h =
      bind_agree (template_path ctx t) _ _ λ p e. ap (field_of_read field) (h p e)
  resolve_agree (Operand.arithmetic left op right) h =
      rw (resolve_agree left (λ p m. h p (inl m)), resolve_agree right (λ p m. h p (inr m)))
  resolve_agree (Operand.resource_field name) h = refl
  resolve_agree _ h = refl

  -- The last clause of `compare_operands`.
  abbrev ordinary :
      Result FieldMissing (FieldValue F)
      → Result FieldMissing (FieldValue F)
      → Result FieldMissing Bool
  ordinary left right = left >>= λ l. right >>= λ r. ok (value_eq l r)

  compare_agree :
      (l r : Operand F)
      → resolve_field_value ctx l ≡ resolve_field_value other l
      → resolve_field_value ctx r ≡ resolve_field_value other r
      → compare_operands ctx l r ≡ compare_operands other l r
  unfolding compare_operands
  compare_agree Operand.auth_uid (Operand.resource_field name) p q = refl
  compare_agree (Operand.resource_field name) Operand.auth_uid p q = refl
  compare_agree Operand.auth_uid (Operand.request_resource_field name) p q = refl
  compare_agree (Operand.request_resource_field name) Operand.auth_uid p q = refl
  compare_agree Operand.auth_null_sentinel Operand.null_literal p q = refl
  compare_agree Operand.null_literal Operand.auth_null_sentinel p q = refl
  compare_agree Operand.auth_uid Operand.null_literal p q = refl
  compare_agree Operand.null_literal Operand.auth_uid p q = refl
  compare_agree l r p q = ap₂ ordinary p q

  relational_agree :
      (op : CompareOp) (l r : Operand F)
      → resolve_field_value ctx l ≡ resolve_field_value other l
      → resolve_field_value ctx r ≡ resolve_field_value other r
      → eval_compare ctx l op r ≡ eval_compare other l op r
  unfolding eval_compare
  relational_agree CompareOp.eq l r p q = compare_agree l r p q
  relational_agree CompareOp.ne l r p q = rw (compare_agree l r p q)
  relational_agree op l r p q =
      ap₂ (λ a b. a >>= λ x. b >>= λ y. ok (compare_relational op x y)) p q

  items_agree :
      (v : FieldValue F) (os : Operands F)
      → Agree (ItemMentioned os)
      → any_item ctx v os ≡ any_item other v os
  unfolding any_item
  items_agree v Operands.no_operands h = refl
  items_agree v (Operands.operand item items) h =
      ap₂ (λ a b. item_matches v a || b) (resolve_agree item (λ p m. h p (inl m)))
        (items_agree v items (λ p m. h p (inr m)))

  in_agree :
      (l list : Operand F)
      → resolve_field_value ctx l ≡ resolve_field_value other l
      → Agree (Mentioned list)
      → eval_in ctx l list ≡ eval_in other l list
  unfolding eval_in
  in_agree l (Operand.list_literal items) p h =
      rw p
        (ap (λ f. resolve_field_value other l >>= f) (fun_ext λ v. ap ok (items_agree v items h)))
  in_agree l _ p h = rw p

  eval_agree : (c : Condition F) → Agree (CondMentioned c) → eval_bool ctx c ≡ eval_bool other c
  unfolding eval_bool
  eval_agree (Condition.literal b) h = refl
  eval_agree (Condition.not c) h = ap not_result (eval_agree c h)
  eval_agree (Condition.and c d) h =
      ap₂ and_result (eval_agree c (λ p m. h p (inl m))) (eval_agree d (λ p m. h p (inr m)))
  eval_agree (Condition.or c d) h =
      ap₂ or_result (eval_agree c (λ p m. h p (inl m))) (eval_agree d (λ p m. h p (inr m)))
  eval_agree (Condition.compare l op r) h =
      relational_agree op l r (resolve_agree l (λ p m. h p (inl m)))
        (resolve_agree r (λ p m. h p (inr m)))
  eval_agree (Condition.is_in l list) h =
      in_agree l list (resolve_agree l (λ p m. h p (inl m))) (λ p m. h p (inr m))

  -- Two contexts that differ in the fetched documents alone, and hold the same at every discovered
  -- path, evaluate a condition alike: no document outside the discovered paths is read.
  pub evaluate-discover :
      (c : Condition F)
      → ((p : Text)
          → Listed p (
              discover_cross_document_paths ctx.auth ctx.path_variable_value
                ctx.ancestor_path_variable_values c)
          → get p ctx.cross_document_reads ≡ get p reads)
      → evaluate ctx c ≡ evaluate (record ctx { cross_document_reads = reads }) c
  unfolding evaluate
  evaluate-discover c h = ap outcome (
      eval_agree c λ p m.
        h p (
          (discover_iff ctx.auth ctx.path_variable_value ctx.ancestor_path_variable_values p c).1
            m))
