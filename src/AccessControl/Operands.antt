-- ===== src/AccessControl/Operands.antt =====
-- The operands of the condition parser of access_control/mod.rs: `word_to_operand`, `parse_operand`
-- and what they call. The parser's position is the list of the tokens from there on.
pub mod Proper
pub mod Total
use embyr_rs.Base.{
  Bool, true, false, Option, none, some, List, [], ◌∷◌, drop, if◌then◌else◌, Result, ok, err, ◌>>=◌,
}
use embyr_rs.Base.Int.{ℤ}
use embyr_rs.Base.Text.{Text, codes, text_eq, strip_prefix}
use embyr_rs.AccessControl.Syntax.{Operand, ArithmeticOp, DurationUnit}
use embyr_rs.AccessControl.Token.{ConditionParseError, syntax_error, outside_grammar, Token, Parsed}
use embyr_rs.AccessControl.PathTemplates.{after_prefix, parse_path_template}

-- The unit of a duration.
unfoldable pub duration_unit : Text → Result ConditionParseError DurationUnit
duration_unit unit_text =
    if text_eq unit_text (codes "s")
    then ok DurationUnit.seconds
    else if text_eq unit_text (codes "m")
    then ok DurationUnit.minutes
    else if text_eq unit_text (codes "h")
    then ok DurationUnit.hours
    else if text_eq unit_text (codes "d")
    then ok DurationUnit.days
    else err outside_grammar

module _ {F : Type 0} where
  -- What follows a prefix is a name, which is not empty.
  unfoldable pub named : (Text → Operand F) → Text → Result ConditionParseError (Operand F)
  named operand [] = err syntax_error
  named operand (a ∷ name) = ok (operand (a ∷ name))

  -- The words that hold a name, in the order of the source's guards.
  unfoldable pub prefixed_operand : Text → Result ConditionParseError (Operand F)
  prefixed_operand w =
      after_prefix (strip_prefix (codes "request.auth.token.") w) (named Operand.auth_token_claim) (
        after_prefix (strip_prefix (codes "request.path.") w) (named Operand.path_variable) (
          after_prefix (strip_prefix (codes "request.resource.data.") w)
            (named Operand.request_resource_field)
            (after_prefix (strip_prefix (codes "resource.data.") w) (named Operand.resource_field)
              (err syntax_error))))

  unfoldable pub word_to_operand : Text → Result ConditionParseError (Operand F)
  word_to_operand w =
      if text_eq w (codes "request.auth.uid")
      then ok Operand.auth_uid
      else if text_eq w (codes "request.auth")
      then ok Operand.auth_null_sentinel
      else if text_eq w (codes "null")
      then ok Operand.null_literal
      else if text_eq w (codes "request.time")
      then ok Operand.request_time
      else if text_eq w (codes "true")
      then ok (Operand.bool_literal true)
      else if text_eq w (codes "false")
      then ok (Operand.bool_literal false)
      else prefixed_operand w

  unfoldable pub parse_base_operand : List (Token F) → Parsed F (Operand F)
  parse_base_operand (Token.word w ∷ ts) = do operand ← word_to_operand w; ok (operand, ts)
  parse_base_operand (Token.string_literal s ∷ ts) = ok (Operand.string_literal s, ts)
  parse_base_operand (Token.int_literal v ∷ ts) = ok (Operand.int_literal v, ts)
  parse_base_operand (Token.double_literal v ∷ ts) = ok (Operand.double_literal v, ts)
  parse_base_operand (Token.exists_call raw_path ∷ ts) = do
    template ← parse_path_template raw_path
    ok (Operand.cross_document_exists template, ts)
  parse_base_operand (Token.get_call raw_path field ∷ ts) = do
    template ← parse_path_template raw_path
    ok (Operand.cross_document_get template field, ts)
  parse_base_operand _ = err syntax_error

  -- `match self.advance() { Some(Token::LParen) => {} … }`, and the same for the tokens after it.
  unfoldable pub expect_l_paren : List (Token F) → Result ConditionParseError (List (Token F))
  expect_l_paren (Token.l_paren ∷ ts) = ok ts
  expect_l_paren _ = err syntax_error

  unfoldable pub expect_amount : List (Token F) → Parsed F ℤ
  expect_amount (Token.int_literal v ∷ ts) = ok (v, ts)
  expect_amount _ = err syntax_error

  unfoldable pub expect_comma : List (Token F) → Result ConditionParseError (List (Token F))
  expect_comma (Token.comma ∷ ts) = ok ts
  expect_comma _ = err syntax_error

  unfoldable pub expect_unit : List (Token F) → Parsed F Text
  expect_unit (Token.single_quoted_unit u ∷ ts) = ok (u, ts)
  expect_unit _ = err outside_grammar

  unfoldable pub expect_r_paren : List (Token F) → Result ConditionParseError (List (Token F))
  expect_r_paren (Token.r_paren ∷ ts) = ok ts
  expect_r_paren _ = err syntax_error

  unfoldable pub parse_duration_value : List (Token F) → Parsed F (Operand F)
  parse_duration_value tokens = do
    inside ← expect_l_paren (drop 1 tokens)
    (amount, after_amount) ← expect_amount inside
    before_unit ← expect_comma after_amount
    (unit_text, after_unit) ← expect_unit before_unit
    unit ← duration_unit unit_text
    rest ← expect_r_paren after_unit
    ok (Operand.duration_literal amount unit, rest)

  unfoldable pub parse_arithmetic_rhs : List (Token F) → Parsed F (Operand F)
  parse_arithmetic_rhs (Token.word w ∷ ts) =
      if text_eq w (codes "duration.value")
      then parse_duration_value (Token.word w ∷ ts)
      else parse_base_operand (Token.word w ∷ ts)
  parse_arithmetic_rhs ts = parse_base_operand ts

  -- One operator is all that an operand may have.
  unfoldable pub single_arithmetic :
      Operand F → ArithmeticOp → Operand F → List (Token F) → Parsed F (Operand F)
  single_arithmetic base op right (Token.plus ∷ ts) = err outside_grammar
  single_arithmetic base op right (Token.minus ∷ ts) = err outside_grammar
  single_arithmetic base op right ts = ok (Operand.arithmetic base op right, ts)

  -- What follows an operator.
  unfoldable pub parse_right : Operand F → ArithmeticOp → List (Token F) → Parsed F (Operand F)
  parse_right base op ts = do
    (right, rest) ← parse_arithmetic_rhs ts
    single_arithmetic base op right rest

  -- What follows a base operand.
  unfoldable pub parse_arithmetic : Operand F → List (Token F) → Parsed F (Operand F)
  parse_arithmetic base (Token.plus ∷ ts) = parse_right base ArithmeticOp.add ts
  parse_arithmetic base (Token.minus ∷ ts) = parse_right base ArithmeticOp.sub ts
  parse_arithmetic base ts = ok (base, ts)

  unfoldable pub parse_operand : List (Token F) → Parsed F (Operand F)
  parse_operand ts = do (base, rest) ← parse_base_operand ts; parse_arithmetic base rest
