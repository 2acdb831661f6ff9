-- ===== src/AccessControl/Parser/Sound/Conditions.antt =====
-- The parser's conditions against the grammar.
use mathlib.Core.List.{append-nil}
use embyr_rs.Base.{
  ℕ, zero, suc, List, [], ◌∷◌, ◌++◌, length, refl, sym, subst, Bool-cases, inl, inr, ok, ◌>>=◌,
}
use embyr_rs.Base.Text.{codes, text_eq, text_eq_sound}
use embyr_rs.AccessControl.Syntax.{Operand, Operands, Condition}
use embyr_rs.AccessControl.Token.{Token, Parsed}
use embyr_rs.AccessControl.Operands.{parse_operand}
use embyr_rs.AccessControl.Parser.{
  next_item, list_items, parse_list_literal, in_list, compare_op, compare_right, comparison_rest,
  parse_comparison,
}
use embyr_rs.AccessControl.Parser.Grammar.{FullOperand, Items, ListLiteral, Relation, Comparison}
use embyr_rs.AccessControl.Parser.Sound.{Derived, Derived->>=, Derived-cons, operand_sound}

module _ {F : Type 0} where
  next_item_sound :
      (items : List (Token F) → Parsed F (Operands F)) (item : Operand F)
      (before ts : List (Token F))
      → FullOperand before item
      → ((us : List (Token F)) → Derived Items us (items us))
      → Derived (λ more os. Items (before ++ more) os) ts (next_item items item ts)
  unfolding next_item
  next_item_sound items item before [] o h = tt
  next_item_sound items item before (Token.comma ∷ ts) o h = Derived-cons _ Token.comma ts _ (
      Derived->>= _ Items ts (items ts) _ (h ts) λ more used rest g. (
        [],
        refl,
        subst (λ x. Items (before ++ Token.comma ∷ x) (Operands.operand item more))
            (sym (append-nil used)) (Items.more o g),
      ))
  next_item_sound items item before (Token.r_bracket ∷ ts) o h =
      (Token.r_bracket ∷ [], refl, Items.last o)
  next_item_sound items item before (_ ∷ ts) o h = tt

  list_items_sound : (n : ℕ) (ts : List (Token F)) → Derived Items ts (list_items n ts)
  unfolding list_items
  list_items_sound zero ts = tt
  list_items_sound (suc n) ts =
      Derived->>= Items FullOperand ts (parse_operand ts) _ (operand_sound ts)
        λ item used rest o. next_item_sound (list_items n) item used rest o (list_items_sound n)

  some_items :
      (n : ℕ) (ts : List (Token F))
      → Derived ListLiteral
          (Token.l_bracket ∷ ts)
          (list_items n ts >>= λ (os, rest). ok (Operand.list_literal os, rest))
  some_items n ts = Derived-cons ListLiteral Token.l_bracket ts _ (
      Derived->>= _ Items ts (list_items n ts) _ (list_items_sound n ts) λ os used rest g. (
        [],
        refl,
        subst (λ x. ListLiteral (Token.l_bracket ∷ x) (Operand.list_literal os))
            (sym (append-nil used)) (ListLiteral.items g),
      ))

  ListLiteral-sound : (ts : List (Token F)) → Derived ListLiteral ts (parse_list_literal ts)
  unfolding parse_list_literal
  ListLiteral-sound [] = tt
  ListLiteral-sound (Token.l_bracket ∷ []) = some_items 1 []
  ListLiteral-sound (Token.l_bracket ∷ Token.r_bracket ∷ ts) =
      (Token.l_bracket ∷ Token.r_bracket ∷ [], refl, ListLiteral.empty)
  ListLiteral-sound (Token.l_bracket ∷ t ∷ ts) = some_items (suc (suc (length ts))) (t ∷ ts)
  ListLiteral-sound (_ ∷ ts) = tt

  in_list_sound :
      (left : Operand F) (before ts : List (Token F))
      → FullOperand before left
      → Derived
          (λ more c. Comparison (before ++ Token.word (codes "in") ∷ more) c)
          ts
          (in_list left ts)
  unfolding in_list
  in_list_sound left before [] o = tt
  in_list_sound left before (Token.l_bracket ∷ ts) o =
      Derived->>= _ ListLiteral _ (parse_list_literal (Token.l_bracket ∷ ts)) _
        (ListLiteral-sound (Token.l_bracket ∷ ts))
        λ list used rest g. (
          [],
          refl,
          subst
              (λ x. Comparison (before ++ Token.word (codes "in") ∷ x) (Condition.is_in left list))
              (sym (append-nil used)) (Comparison.is_in o g),
        )
  in_list_sound left before (_ ∷ ts) o = tt

  compare_op_sound : (ts : List (Token F)) → Derived Relation ts (compare_op ts)
  unfolding compare_op
  compare_op_sound [] = tt
  compare_op_sound (Token.eq ∷ ts) = (Token.eq ∷ [], refl, Relation.eq)
  compare_op_sound (Token.ne ∷ ts) = (Token.ne ∷ [], refl, Relation.ne)
  compare_op_sound (Token.lt ∷ ts) = (Token.lt ∷ [], refl, Relation.lt)
  compare_op_sound (Token.le ∷ ts) = (Token.le ∷ [], refl, Relation.le)
  compare_op_sound (Token.gt ∷ ts) = (Token.gt ∷ [], refl, Relation.gt)
  compare_op_sound (Token.ge ∷ ts) = (Token.ge ∷ [], refl, Relation.ge)
  compare_op_sound (_ ∷ ts) = tt

  compare_right_sound :
      (left : Operand F) (before ts : List (Token F))
      → FullOperand before left
      → Derived (λ more c. Comparison (before ++ more) c) ts (compare_right left ts)
  unfolding compare_right
  compare_right_sound left before ts o =
      Derived->>= _ Relation ts (compare_op ts) _ (compare_op_sound ts) λ op used rest g.
        Derived->>= _ FullOperand rest (parse_operand rest) _ (operand_sound rest)
          λ right used' rest' r. (
            [],
            refl,
            subst (λ x. Comparison (before ++ (used ++ x)) (Condition.compare left op right))
                (sym (append-nil used')) (Comparison.compare o g r),
          )

  comparison_rest_sound :
      (left : Operand F) (before ts : List (Token F))
      → FullOperand before left
      → Derived (λ more c. Comparison (before ++ more) c) ts (comparison_rest left ts)
  unfolding comparison_rest
  comparison_rest_sound left before [] o = compare_right_sound left before [] o
  comparison_rest_sound left before (Token.word w ∷ ts) o =
      elim (Bool-cases (text_eq w (codes "in"))) [
        | inl e ↦ rw (text_eq_sound w (codes "in") e) (
            Derived-cons _ (Token.word (codes "in")) ts (in_list left ts)
              (in_list_sound left before ts o))
        | inr e ↦ rw e (compare_right_sound left before (Token.word w ∷ ts) o)
      ]
  comparison_rest_sound left before (t ∷ ts) o = compare_right_sound left before (t ∷ ts) o

  pub Comparison-sound : (ts : List (Token F)) → Derived Comparison ts (parse_comparison ts)
  unfolding parse_comparison
  Comparison-sound ts =
      Derived->>= Comparison FullOperand ts (parse_operand ts) _ (operand_sound ts)
        λ l used rest o. comparison_rest_sound l used rest o
