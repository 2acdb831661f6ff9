-- ===== src/AccessControl/Parser/Complete.antt =====
-- What the grammar spells is accepted by the parser: the operands and the comparisons.
pub mod Comparisons
pub mod Connectives
use mathlib.Core.List.{append_assoc}
use embyr_rs.Base.{
  ℕ, zero, suc, ◌+◌, ◌≤◌, ◌<◌, Bool, true, false, List, [], ◌∷◌, ◌++◌, length, length-append, ◌≡◌,
  ◌≢◌, refl, sym, ap, ◌∙◌, arith, Bool-cases, inl, inr, if◌then◌else◌, Result, ok, err, ◌>>=◌,
}
use embyr_rs.Base.Text.{Text, codes, text_eq, text_eq_sound}
use embyr_rs.AccessControl.Syntax.{Operand, Operands, Condition, CompareOp, ArithmeticOp}
use embyr_rs.AccessControl.Token.{ConditionParseError, Token, Parsed}
use embyr_rs.AccessControl.Operands.{
  word_to_operand, prefixed_operand, parse_base_operand, expect_l_paren, expect_amount,
  expect_comma, expect_unit, expect_r_paren, parse_duration_value, parse_arithmetic_rhs,
  single_arithmetic, parse_right, parse_arithmetic, parse_operand,
}
use embyr_rs.AccessControl.Parser.{
  next_item, list_items, parse_list_literal, in_list, compare_op, compare_right, comparison_rest,
  parse_comparison,
}
use embyr_rs.AccessControl.Parser.Grammar.{
  BaseOperand, RightOperand, FullOperand, Items, ListLiteral, Relation, Comparison,
}

module _ {F : Type 0} where
  -- An operand may end before these tokens.
  abbrev pub EndsOperand : List (Token F) → Type 0
  EndsOperand (Token.plus ∷ ts) = ⊥
  EndsOperand (Token.minus ∷ ts) = ⊥
  EndsOperand _ = Unit

  pub BaseOperand-complete :
      {us : List (Token F)} {o : Operand F} (rest : List (Token F))
      → BaseOperand us o
      → parse_base_operand (us ++ rest) ≡ ok (o, rest)
  unfolding parse_base_operand
  BaseOperand-complete rest (BaseOperand.word e) = rw e refl
  BaseOperand-complete rest BaseOperand.string_literal = refl
  BaseOperand-complete rest BaseOperand.int_literal = refl
  BaseOperand-complete rest BaseOperand.double_literal = refl
  BaseOperand-complete rest (BaseOperand.exists_call e) = rw e refl
  BaseOperand-complete rest (BaseOperand.get_call e) = rw e refl

  -- `duration.value` is no operand.
  not_duration :
      (w : Text) (o : Operand F)
      → word_to_operand w ≡ ok o
      → text_eq w (codes "duration.value") ≡ false
  unfolding word_to_operand prefixed_operand
  not_duration w o e = elim (Bool-cases (text_eq w (codes "duration.value"))) [
    | inl same ↦ let refused = rw (text_eq_sound w (codes "duration.value") same) at e in cc
    | inr other ↦ other
  ]

  RightOperand-complete :
      {us : List (Token F)} {o : Operand F} (rest : List (Token F))
      → RightOperand us o
      → parse_arithmetic_rhs (us ++ rest) ≡ ok (o, rest)
  unfolding parse_arithmetic_rhs parse_duration_value expect_l_paren expect_amount expect_comma
      expect_unit expect_r_paren
  RightOperand-complete rest (RightOperand.base (BaseOperand.word {w} {o} e)) =
      rw (not_duration w o e) (BaseOperand-complete rest (BaseOperand.word e))
  RightOperand-complete rest (RightOperand.base BaseOperand.string_literal) =
      BaseOperand-complete rest BaseOperand.string_literal
  RightOperand-complete rest (RightOperand.base BaseOperand.int_literal) =
      BaseOperand-complete rest BaseOperand.int_literal
  RightOperand-complete rest (RightOperand.base BaseOperand.double_literal) =
      BaseOperand-complete rest BaseOperand.double_literal
  RightOperand-complete rest (RightOperand.base (BaseOperand.exists_call e)) =
      BaseOperand-complete rest (BaseOperand.exists_call e)
  RightOperand-complete rest (RightOperand.base (BaseOperand.get_call e)) =
      BaseOperand-complete rest (BaseOperand.get_call e)
  RightOperand-complete rest (RightOperand.duration e) = rw e refl

  single_arithmetic_end :
      (base right : Operand F) (op : ArithmeticOp) (rest : List (Token F))
      → EndsOperand rest
      → single_arithmetic base op right rest ≡ ok (Operand.arithmetic base op right, rest)
  unfolding single_arithmetic
  single_arithmetic_end base right op [] n = refl
  single_arithmetic_end base right op (Token.plus ∷ ts) n = absurd n
  single_arithmetic_end base right op (Token.minus ∷ ts) n = absurd n
  single_arithmetic_end base right op (_ ∷ ts) n = refl

  parse_right_end :
      {us : List (Token F)} {r : Operand F} (base : Operand F) (op : ArithmeticOp)
      (rest : List (Token F))
      → RightOperand us r
      → EndsOperand rest
      → parse_right base op (us ++ rest) ≡ ok (Operand.arithmetic base op r, rest)
  unfolding parse_right
  parse_right_end base op rest g n =
      rw (RightOperand-complete rest g) (single_arithmetic_end base _ op rest n)

  parse_arithmetic_end :
      (base : Operand F) (rest : List (Token F))
      → EndsOperand rest
      → parse_arithmetic base rest ≡ ok (base, rest)
  unfolding parse_arithmetic
  parse_arithmetic_end base [] n = refl
  parse_arithmetic_end base (Token.plus ∷ ts) n = absurd n
  parse_arithmetic_end base (Token.minus ∷ ts) n = absurd n
  parse_arithmetic_end base (_ ∷ ts) n = refl

  pub FullOperand-complete :
      {us : List (Token F)} {o : Operand F} (rest : List (Token F))
      → FullOperand us o
      → EndsOperand rest
      → parse_operand (us ++ rest) ≡ ok (o, rest)
  unfolding parse_operand parse_arithmetic
  FullOperand-complete rest (FullOperand.base {o} g) n =
      rw (BaseOperand-complete rest g) (parse_arithmetic_end o rest n)
  FullOperand-complete rest (FullOperand.add {ts} {us} {l} {r} g h) n =
      rw
        (append_assoc ts (Token.plus ∷ us) rest, BaseOperand-complete (Token.plus ∷ (us ++ rest)) g)
        (parse_right_end l ArithmeticOp.add rest h n)
  FullOperand-complete rest (FullOperand.sub {ts} {us} {l} {r} g h) n =
      rw
        (
          append_assoc ts (Token.minus ∷ us) rest,
          BaseOperand-complete (Token.minus ∷ (us ++ rest)) g,
        )
        (parse_right_end l ArithmeticOp.sub rest h n)
