-- ===== src/AccessControl/Parser.antt =====
-- The recursive descent of the condition parser of access_control/mod.rs, on fuel: every call that
-- may come back to itself takes one unit.
pub mod Fuel
pub mod Grammar
pub mod Sound
pub mod Complete
use embyr_rs.Base.{
  ℕ, zero, suc, ◌+◌, ◌*◌, Bool, true, false, List, [], ◌∷◌, length, if◌then◌else◌, Result, ok, err,
  ◌>>=◌,
}
use embyr_rs.Base.Text.{Text, codes, text_eq}
use embyr_rs.AccessControl.Syntax.{Operand, Operands, Condition, CompareOp}
use embyr_rs.AccessControl.Token.{
  ConditionParseError, syntax_error, outside_grammar, out_of_fuel, Token, Parsed,
}
use embyr_rs.AccessControl.Operands.{parse_base_operand, parse_operand, expect_r_paren}

module _ {F : Type 0} where
  -- What follows an item of a list literal; `items` is the loop's next turn.
  unfoldable pub next_item :
      (List (Token F) → Parsed F (Operands F)) → Operand F → List (Token F) → Parsed F (Operands F)
  next_item items item (Token.comma ∷ ts) = do
    (more, rest) ← items ts
    ok (Operands.operand item more, rest)
  next_item items item (Token.r_bracket ∷ ts) = ok (Operands.operand item Operands.no_operands, ts)
  next_item items item _ = err syntax_error

  unfoldable pub list_items : ℕ → List (Token F) → Parsed F (Operands F)
  list_items zero ts = err out_of_fuel
  list_items (suc n) ts = do (item, rest) ← parse_operand ts; next_item (list_items n) item rest

  unfoldable pub parse_list_literal : List (Token F) → Parsed F (Operand F)
  parse_list_literal (Token.l_bracket ∷ Token.r_bracket ∷ ts) =
      ok (Operand.list_literal Operands.no_operands, ts)
  parse_list_literal (Token.l_bracket ∷ ts) = do
    (items, rest) ← list_items (suc (length ts)) ts
    ok (Operand.list_literal items, rest)
  parse_list_literal _ = err syntax_error

  -- What follows the word `in`.
  unfoldable pub in_list : Operand F → List (Token F) → Parsed F (Condition F)
  in_list left (Token.l_bracket ∷ ts) = do
    (list, rest) ← parse_list_literal (Token.l_bracket ∷ ts)
    ok (Condition.is_in left list, rest)
  in_list left _ = err outside_grammar

  unfoldable pub compare_op : List (Token F) → Parsed F CompareOp
  compare_op (Token.eq ∷ ts) = ok (CompareOp.eq, ts)
  compare_op (Token.ne ∷ ts) = ok (CompareOp.ne, ts)
  compare_op (Token.lt ∷ ts) = ok (CompareOp.lt, ts)
  compare_op (Token.le ∷ ts) = ok (CompareOp.le, ts)
  compare_op (Token.gt ∷ ts) = ok (CompareOp.gt, ts)
  compare_op (Token.ge ∷ ts) = ok (CompareOp.ge, ts)
  compare_op _ = err syntax_error

  -- The operator and the right operand.
  unfoldable pub compare_right : Operand F → List (Token F) → Parsed F (Condition F)
  compare_right left ts = do
    (op, after_op) ← compare_op ts
    (right, rest) ← parse_operand after_op
    ok (Condition.compare left op right, rest)

  -- What follows the left operand.
  unfoldable pub comparison_rest : Operand F → List (Token F) → Parsed F (Condition F)
  comparison_rest left (Token.word w ∷ ts) =
      if text_eq w (codes "in") then in_list left ts else compare_right left (Token.word w ∷ ts)
  comparison_rest left ts = compare_right left ts

  unfoldable pub parse_comparison : List (Token F) → Parsed F (Condition F)
  parse_comparison ts = do (left, rest) ← parse_operand ts; comparison_rest left rest

  -- `exists(…)` alone: its comparison with `true` is implied.
  unfoldable pub parse_exists : List (Token F) → Parsed F (Condition F)
  parse_exists ts = do
    (operand, rest) ← parse_base_operand ts
    ok (Condition.compare operand CompareOp.eq (Operand.bool_literal true), rest)

  -- A word that begins a condition.
  unfoldable pub parse_word : Text → List (Token F) → Parsed F (Condition F)
  parse_word w ts =
      if text_eq w (codes "true")
      then ok (Condition.literal true, ts)
      else if text_eq w (codes "false")
      then ok (Condition.literal false, ts)
      else parse_comparison (Token.word w ∷ ts)

  unfoldable mutual
    pub parse_or : ℕ → List (Token F) → Parsed F (Condition F)
    parse_or zero ts = err out_of_fuel
    parse_or (suc n) ts = do (left, rest) ← parse_and n ts; or_loop n left rest

    -- `while matches!(self.peek(), Some(Token::Or))`
    pub or_loop : ℕ → Condition F → List (Token F) → Parsed F (Condition F)
    or_loop zero left ts = err out_of_fuel
    or_loop (suc n) left (Token.or ∷ ts) = do
      (right, rest) ← parse_and n ts
      or_loop n (Condition.or left right) rest
    or_loop (suc n) left ts = ok (left, ts)

    pub parse_and : ℕ → List (Token F) → Parsed F (Condition F)
    parse_and zero ts = err out_of_fuel
    parse_and (suc n) ts = do (left, rest) ← parse_unary n ts; and_loop n left rest

    -- `while matches!(self.peek(), Some(Token::And))`
    pub and_loop : ℕ → Condition F → List (Token F) → Parsed F (Condition F)
    and_loop zero left ts = err out_of_fuel
    and_loop (suc n) left (Token.and ∷ ts) = do
      (right, rest) ← parse_unary n ts
      and_loop n (Condition.and left right) rest
    and_loop (suc n) left ts = ok (left, ts)

    pub parse_unary : ℕ → List (Token F) → Parsed F (Condition F)
    parse_unary zero ts = err out_of_fuel
    parse_unary (suc n) (Token.not ∷ ts) = do
      (inner, rest) ← parse_unary n ts
      ok (Condition.not inner, rest)
    parse_unary (suc n) ts = parse_primary n ts

    pub parse_primary : ℕ → List (Token F) → Parsed F (Condition F)
    parse_primary zero ts = err out_of_fuel
    parse_primary (suc n) (Token.l_paren ∷ ts) = do
      (inner, close) ← parse_or n ts
      rest ← expect_r_paren close
      ok (inner, rest)
    parse_primary (suc n) (Token.word w ∷ ts) = parse_word w ts
    parse_primary (suc n) (Token.exists_call raw_path ∷ ts) =
        parse_exists (Token.exists_call raw_path ∷ ts)
    parse_primary (suc n) (Token.get_call raw_path field ∷ ts) =
        parse_comparison (Token.get_call raw_path field ∷ ts)
    parse_primary (suc n) _ = err syntax_error

  -- The parser's result, if no token is left.
  abbrev pub complete : Condition F × List (Token F) → Result ConditionParseError (Condition F)
  complete (condition, []) = ok condition
  complete (condition, t ∷ ts) = err syntax_error

  -- `parse_condition` from the tokens on.
  unfoldable pub parse_tokens : List (Token F) → Result ConditionParseError (Condition F)
  parse_tokens tokens = parse_or (4 * length tokens + 4) tokens >>= complete
