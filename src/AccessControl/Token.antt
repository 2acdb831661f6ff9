-- ===== src/AccessControl/Token.antt =====
-- The tokens and the errors of the condition parser of access_control/mod.rs. An error's text is left
-- out; `out_of_fuel` is the model's own and is never returned.
use embyr_rs.Base.{List, Result}
use embyr_rs.Base.Int.{ℤ}
use embyr_rs.Base.Text.{Text}

pub data UnsupportedConstruct : Type 0 where
  custom_function wildcard_path unsupported_expression_grammar : UnsupportedConstruct

pub data ConditionParseError : Type 0 where
  syntax_error : ConditionParseError
  unsupported_construct : UnsupportedConstruct → ConditionParseError
  out_of_fuel : ConditionParseError

pub data Token (F : Type 0) : Type 0 where
  l_paren r_paren : Token F
  and or not eq ne : Token F
  word : Text → Token F
  string_literal : Text → Token F
  int_literal : ℤ → Token F
  double_literal : F → Token F
  lt le gt ge : Token F
  l_bracket r_bracket comma plus minus : Token F
  single_quoted_unit : Text → Token F
  exists_call : Text → Token F
  get_call : Text → Text → Token F

-- What a method of the parser returns: its value, and the tokens after the new position.
abbrev pub Parsed : Type 0 → Type 0 → Type 0
Parsed F A = Result ConditionParseError (A × List (Token F))

-- The error of an expression outside the grammar.
abbrev pub outside_grammar : ConditionParseError
outside_grammar = unsupported_construct unsupported_expression_grammar
