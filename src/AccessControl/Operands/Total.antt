-- ===== src/AccessControl/Operands/Total.antt =====
-- The parsers of operands use up a token, or fail with an error of the source's.
use embyr_rs.Base.{
  ℕ, suc, ◌≤◌, ◌<◌, List, [], ◌∷◌, length, ◌≢◌, arith, Bool-cases, inl, inr, Result, ok, err, ◌>>=◌,
}
use embyr_rs.Base.Text.{codes, text_eq}
use embyr_rs.AccessControl.Syntax.{Operand, ArithmeticOp}
use embyr_rs.AccessControl.Token.{ConditionParseError, out_of_fuel, Token, Parsed}
use embyr_rs.AccessControl.PathTemplates.{parse_path_template}
use embyr_rs.AccessControl.Operands.{
  duration_unit, word_to_operand, parse_base_operand, expect_l_paren, expect_amount, expect_comma,
  expect_unit, expect_r_paren, parse_duration_value, parse_arithmetic_rhs, single_arithmetic,
  parse_right, parse_arithmetic, parse_operand,
}
-- The result is no lack of fuel.
use embyr_rs.AccessControl.Operands.Proper.{
  IsProper, duration_unit-IsProper, parse_path_template-IsProper, word_to_operand-IsProper,
}

-- The result is no lack of fuel, and leaves fewer tokens than the bound.
abbrev pub Within : {F A : Type 0} → ℕ → Parsed F A → Type 0
Within m (err e) = e ≢ out_of_fuel
Within m (ok (a, ts)) = length ts < m

module _ {F A : Type 0} where
  pub Within-mono : (m k : ℕ) (r : Parsed F A) → m ≤ k → Within m r → Within k r
  Within-mono m k (err e) l w = w
  Within-mono m k (ok (a, ts)) l w = omega arith

  -- What follows a proper result, without a change of the tokens.
  pub Within-of_IsProper :
      {B : Type 0} (k : ℕ) (r : Result ConditionParseError B) (f : B → Parsed F A)
      → IsProper r
      → ((b : B) → Within k (f b))
      → Within k (r >>= f)
  Within-of_IsProper k (err e) f p q = p
  Within-of_IsProper k (ok b) f p q = q b

  pub Within->>= :
      {B : Type 0} (m k : ℕ) (r : Parsed F B) (f : B × List (Token F) → Parsed F A)
      → Within m r
      → ((b : B) (ts : List (Token F)) → length ts < m → Within k (f (b, ts)))
      → Within k (r >>= f)
  Within->>= m k (err e) f w q = w
  Within->>= m k (ok (b, ts)) f w q = q b ts w

module _ {F : Type 0} where
  pub parse_base_operand-Within : (ts : List (Token F)) → Within (length ts) (parse_base_operand ts)
  unfolding parse_base_operand
  parse_base_operand-Within [] = λ e. cc
  parse_base_operand-Within (Token.word w ∷ ts) =
      Within-of_IsProper _ (word_to_operand w) _ (word_to_operand-IsProper F w) λ o. omega arith
  parse_base_operand-Within (Token.string_literal s ∷ ts) = omega arith
  parse_base_operand-Within (Token.int_literal v ∷ ts) = omega arith
  parse_base_operand-Within (Token.double_literal v ∷ ts) = omega arith
  parse_base_operand-Within (Token.exists_call p ∷ ts) =
      Within-of_IsProper _ (parse_path_template p) _ (parse_path_template-IsProper p)
        λ o. omega arith
  parse_base_operand-Within (Token.get_call p f ∷ ts) =
      Within-of_IsProper _ (parse_path_template p) _ (parse_path_template-IsProper p)
        λ o. omega arith
  parse_base_operand-Within (_ ∷ ts) = λ e. cc

  -- Tokens that are taken off the front: a bound on what is left.
  abbrev pub Shrinks : ℕ → Result ConditionParseError (List (Token F)) → Type 0
  Shrinks m (err e) = e ≢ out_of_fuel
  Shrinks m (ok ts) = length ts < m

  pub Shrinks->>= :
      {A : Type 0} (m k : ℕ) (r : Result ConditionParseError (List (Token F)))
      (f : List (Token F) → Parsed F A)
      → Shrinks m r
      → ((ts : List (Token F)) → length ts < m → Within k (f ts))
      → Within k (r >>= f)
  Shrinks->>= m k (err e) f w q = w
  Shrinks->>= m k (ok ts) f w q = q ts w

  expect_l_paren-Shrinks : (ts : List (Token F)) → Shrinks (suc (length ts)) (expect_l_paren ts)
  unfolding expect_l_paren
  expect_l_paren-Shrinks [] = λ e. cc
  expect_l_paren-Shrinks (Token.l_paren ∷ ts) = omega arith
  expect_l_paren-Shrinks (_ ∷ ts) = λ e. cc

  expect_amount-Within : (ts : List (Token F)) → Within (length ts) (expect_amount ts)
  unfolding expect_amount
  expect_amount-Within [] = λ e. cc
  expect_amount-Within (Token.int_literal v ∷ ts) = omega arith
  expect_amount-Within (_ ∷ ts) = λ e. cc

  expect_comma-Shrinks : (ts : List (Token F)) → Shrinks (suc (length ts)) (expect_comma ts)
  unfolding expect_comma
  expect_comma-Shrinks [] = λ e. cc
  expect_comma-Shrinks (Token.comma ∷ ts) = omega arith
  expect_comma-Shrinks (_ ∷ ts) = λ e. cc

  expect_unit-Within : (ts : List (Token F)) → Within (length ts) (expect_unit ts)
  unfolding expect_unit
  expect_unit-Within [] = λ e. cc
  expect_unit-Within (Token.single_quoted_unit u ∷ ts) = omega arith
  expect_unit-Within (_ ∷ ts) = λ e. cc

  pub expect_r_paren-Shrinks : (ts : List (Token F)) → Shrinks (suc (length ts)) (expect_r_paren ts)
  unfolding expect_r_paren
  expect_r_paren-Shrinks [] = λ e. cc
  expect_r_paren-Shrinks (Token.r_paren ∷ ts) = omega arith
  expect_r_paren-Shrinks (_ ∷ ts) = λ e. cc

  parse_duration_value-Within :
      (t : Token F) (ts : List (Token F)) → Within (suc (length ts)) (parse_duration_value (t ∷ ts))
  unfolding parse_duration_value
  parse_duration_value-Within t ts =
      Shrinks->>= _ _ (expect_l_paren ts) _ (expect_l_paren-Shrinks ts) λ a p.
        Within->>= _ _ (expect_amount a) _ (expect_amount-Within a) λ v b q.
          Shrinks->>= _ _ (expect_comma b) _ (expect_comma-Shrinks b) λ c r.
            Within->>= _ _ (expect_unit c) _ (expect_unit-Within c) λ u d s.
              Within-of_IsProper _ (duration_unit u) _ (duration_unit-IsProper u) λ unit.
                Shrinks->>= _ _ (expect_r_paren d) _ (expect_r_paren-Shrinks d) λ e w. omega arith

  parse_arithmetic_rhs-Within : (ts : List (Token F)) → Within (length ts) (parse_arithmetic_rhs ts)
  unfolding parse_arithmetic_rhs
  parse_arithmetic_rhs-Within [] = parse_base_operand-Within []
  parse_arithmetic_rhs-Within (Token.word w ∷ ts) =
      elim (Bool-cases (text_eq w (codes "duration.value"))) [
        | inl e ↦ rw e (parse_duration_value-Within (Token.word w) ts)
        | inr e ↦ rw e (parse_base_operand-Within (Token.word w ∷ ts))
      ]
  parse_arithmetic_rhs-Within (t ∷ ts) = parse_base_operand-Within (t ∷ ts)

  single_arithmetic-Within :
      (base : Operand F) (op : ArithmeticOp) (right : Operand F) (ts : List (Token F))
      → Within (suc (length ts)) (single_arithmetic base op right ts)
  unfolding single_arithmetic
  single_arithmetic-Within base op right [] = omega arith
  single_arithmetic-Within base op right (Token.plus ∷ ts) = λ e. cc
  single_arithmetic-Within base op right (Token.minus ∷ ts) = λ e. cc
  single_arithmetic-Within base op right (t ∷ ts) = omega arith

  parse_right-Within :
      (base : Operand F) (op : ArithmeticOp) (ts : List (Token F))
      → Within (suc (length ts)) (parse_right base op ts)
  unfolding parse_right
  parse_right-Within base op ts =
      Within->>= _ _ (parse_arithmetic_rhs ts) _ (parse_arithmetic_rhs-Within ts) λ right rest l.
        Within-mono _ _ (single_arithmetic base op right rest) (omega arith)
          (single_arithmetic-Within base op right rest)

  parse_arithmetic-Within :
      (base : Operand F) (ts : List (Token F)) → Within (suc (length ts)) (parse_arithmetic base ts)
  unfolding parse_arithmetic
  parse_arithmetic-Within base [] = omega arith
  parse_arithmetic-Within base (Token.plus ∷ ts) =
      Within-mono _ _ (parse_right base ArithmeticOp.add ts) (omega arith)
        (parse_right-Within base _ ts)
  parse_arithmetic-Within base (Token.minus ∷ ts) =
      Within-mono _ _ (parse_right base ArithmeticOp.sub ts) (omega arith)
        (parse_right-Within base _ ts)
  parse_arithmetic-Within base (t ∷ ts) = omega arith

  pub parse_operand-Within : (ts : List (Token F)) → Within (length ts) (parse_operand ts)
  unfolding parse_operand
  parse_operand-Within ts =
      Within->>= _ _ (parse_base_operand ts) _ (parse_base_operand-Within ts) λ base rest l.
        Within-mono _ _ (parse_arithmetic base rest) (omega arith)
          (parse_arithmetic-Within base rest)
