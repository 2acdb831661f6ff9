-- ===== src/Tests/Parsing.antt =====
-- Rules as text and as tokens.
use embyr_rs.Base.{List, [], ◌∷◌, ◌≡◌, ◌≢◌, refl, ok, err, ◌↔◌}
use embyr_rs.Base.Int.{ℤ}
use embyr_rs.Base.Text.{Text, codes}
use embyr_rs.AccessControl.Syntax.{Condition, Operand, CompareOp}
use embyr_rs.AccessControl.Token.{Token, out_of_fuel, unsupported_construct, custom_function}
use embyr_rs.AccessControl.Operands.{
  parse_base_operand, word_to_operand, parse_operand, parse_arithmetic,
}
use embyr_rs.AccessControl.Parser.{
  parse_tokens, parse_or, parse_word, parse_comparison, comparison_rest, compare_right, compare_op,
}
use embyr_rs.AccessControl.Parser.Grammar.{Disjunction}
use embyr_rs.AccessControl.Parser.Complete.Connectives.{parse_tokens_iff}
use embyr_rs.AccessControl.Scan.{is_whitespace, span, word_token}
use embyr_rs.AccessControl.Tokenizer.{
  parse_condition, tokenize, tokens_from, scan_token, scan_operator, scan_word,
  detect_unsupported_construct, scan_calls, masked, contains_double_star,
}
use embyr_rs.AccessControl.Tokenizer.Total.{parse_condition-ends}
use embyr_rs.Tests.Floats.{whole_float}

abbrev signed_in_text : Text
signed_in_text = codes "request.auth != null"

abbrev signed_in : Condition ℤ
signed_in = Condition.compare Operand.auth_null_sentinel CompareOp.ne Operand.null_literal

abbrev signed_in_tokens : List (Token ℤ)
signed_in_tokens = Token.word (codes "request.auth") ∷ Token.ne ∷ Token.word (codes "null") ∷ []

tokens_run : tokenize signed_in_text ≡ ok signed_in_tokens
unfolding tokenize tokens_from scan_token scan_operator scan_word is_whitespace word_token span
tokens_run = refl

parse_run : parse_tokens signed_in_tokens ≡ ok signed_in
unfolding parse_tokens parse_or parse_word parse_comparison comparison_rest compare_right compare_op
    parse_operand parse_arithmetic parse_base_operand word_to_operand
parse_run = refl

call_run :
    detect_unsupported_construct (codes "isOwner(x)") ≡ err (unsupported_construct custom_function)
unfolding detect_unsupported_construct scan_calls masked contains_double_star span
call_run = refl

parse_condition-ends_example : parse_condition {F = ℤ} signed_in_text ≢ err out_of_fuel
parse_condition-ends_example = parse_condition-ends signed_in_text

parse_tokens_iff_example :
    (parse_tokens signed_in_tokens ≡ ok signed_in) ↔ Disjunction signed_in_tokens signed_in
parse_tokens_iff_example = parse_tokens_iff signed_in_tokens signed_in
