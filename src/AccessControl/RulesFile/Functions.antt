-- ===== src/AccessControl/RulesFile/Functions.antt =====
-- `parse_function_blocks` and `expand_function_calls` of rules_file.rs. The loops run on fuel, one unit
-- for each turn.
pub mod Total
use embyr_rs.Base.{
  ℕ, zero, suc, ◌==◌, Bool, true, false, not, ◌&&◌, ◌||◌, Option, none, some, [], ◌∷◌, ◌++◌, length,
  if◌then◌else◌, all, any, ok, err, ok_or, and_then, ◌>>=◌, ◌>>◌,
}
use embyr_rs.Base.Text.{Text, codes, text_eq, is_ascii_alphabetic}
use embyr_rs.Base.Dict.{Dict, get, insert}
use embyr_rs.Domain.FieldValue.{Float}
use embyr_rs.AccessControl.PathTemplates.{strip_last}
use embyr_rs.AccessControl.Scan.{span, next_is, is_name_char, is_word_char}
use embyr_rs.AccessControl.Tokenizer.{parse_condition}
use embyr_rs.AccessControl.RulesFile.{
  RulesFileError, single, shell_syntax_error, syntax_construct, function_parameters,
  duplicate_function, undefined_function, unreachable_construct, Checked,
}
use embyr_rs.AccessControl.RulesFile.Shell.{
  trim, trim_start, is_empty, starts_with_space, keyword, find_char, find_matching_close,
  find_char_paren_close,
}
use embyr_rs.AccessControl.RulesFile.Decompose.{require_parsed}

abbrev pub guard : Bool → RulesFileError → Checked Unit
guard true e = ok tt
guard false e = err e

abbrev pub starts_name : Text → Bool
starts_name [] = false
starts_name (c ∷ s) = is_ascii_alphabetic c || c == b'_'

unfoldable pub is_function_name : Text → Bool
is_function_name name = starts_name name && all is_name_char name

unfoldable pub is_reserved : Text → Bool
is_reserved name = any (text_eq name) (
    codes "get"
    ∷ codes "exists"
    ∷ codes "duration"
    ∷ codes "true"
    ∷ codes "false"
    ∷ codes "in"
    ∷ [])

-- The expression of `return <expr>;`.
unfoldable pub return_expression : Text → Option Text
return_expression fn_body =
    and_then (keyword (codes "return") starts_with_space fn_body)
      (λ rest. and_then (strip_last b';' (trim rest)) (λ expr. some (trim expr)))

-- `functions.insert(…).is_some()`, by what was there before.
abbrev pub insert_new : Option Text → Dict Text → Text × Text × Text → Checked (Dict Text × Text)
insert_new none functions (name, expr, rest) = ok (insert name expr functions, rest)
insert_new (some _) functions block = err (single [] duplicate_function)

abbrev pub add_function : Dict Text → Text × Text × Text → Checked (Dict Text × Text)
add_function functions (name, expr, rest) =
    insert_new (get name functions) functions (name, expr, rest)

module _ (F : Type 0) ⦃float : Float F⦄ where
  -- The definition behind the keyword: the name, the expression and what follows.
  unfoldable pub function_block : Text → Checked (Text × Text × Text)
  function_block after_function = do
    (name_text, inside) ← ok_or shell_syntax_error (find_char b'(' after_function)
    guard (is_function_name (trim name_text)) shell_syntax_error
    guard (not (is_reserved (trim name_text))) shell_syntax_error
    (params, after_params) ← ok_or shell_syntax_error (find_char b')' inside)
    guard (is_empty (trim params)) (single [] function_parameters)
    (fn_body, rest) ← ok_or shell_syntax_error (find_matching_close (trim_start after_params))
    expr ← ok_or shell_syntax_error (return_expression (trim fn_body))
    guard (not (is_empty expr)) shell_syntax_error
    require_parsed [] (parse_condition {F = F} expr)
    ok (trim name_text, expr, rest)

  -- The loop ends where no keyword follows.
  abbrev pub next_function :
      Option Text
      → Dict Text × Text
      → (Dict Text → Text → Checked (Dict Text × Text))
      → Checked (Dict Text × Text)
  next_function none (functions, body) continue = ok (functions, body)
  next_function (some rest) (functions, body) continue = do
    block ← function_block (trim_start rest)
    (more, after) ← add_function functions block
    continue more after

  unfoldable pub functions_from : ℕ → Dict Text → Text → Checked (Dict Text × Text)
  functions_from zero functions body = err (single [] unreachable_construct)
  functions_from (suc n) functions body =
      next_function (keyword (codes "function") starts_with_space (trim_start body))
        (functions, trim_start body) (λ more after. functions_from n more after)

  unfoldable pub parse_function_blocks : Text → Checked (Dict Text × Text)
  parse_function_blocks service_body = functions_from (suc (length service_body)) [] service_body

-- What a turn pushes, the quote that is open after it, and the text from the new position.
abbrev pub Turn : Type 0
Turn = Text × Option ℕ × Text

-- The call of a known function, from its parenthesis on.
unfoldable pub splice : Text → Text → Option (Text × Text) → Checked Turn
splice path_pattern body none = err (single path_pattern syntax_construct)
splice path_pattern body (some (args, after)) =
    if is_empty (trim args)
    then ok (b'(' ∷ body ++ b')' ∷ [], none, after)
    else err (single path_pattern function_parameters)

-- Call-shaped words of the grammar itself.
unfoldable pub is_builtin : Text → Bool
is_builtin ident =
    text_eq ident (codes "get")
    || text_eq ident (codes "exists")
    || text_eq ident (codes "duration.value")

unfoldable pub expand_ident : Text → Option Text → Text × Text → Checked Turn
expand_ident path_pattern (some body) (ident, rest) =
    if next_is b'(' rest
    then splice path_pattern body (find_char_paren_close rest)
    else ok (ident, none, rest)
expand_ident path_pattern none (ident, rest) =
    if next_is b'(' rest && not (is_builtin ident)
    then err (single path_pattern undefined_function)
    else ok (ident, none, rest)

abbrev pub lookup_ident : Dict Text → Text → Text × Text → Checked Turn
lookup_ident functions path_pattern (ident, rest) =
    expand_ident path_pattern (get ident functions) (ident, rest)

unfoldable pub expand_turn : Dict Text → Text → Option ℕ → ℕ → Text → Checked Turn
expand_turn functions path_pattern (some quote) c cs =
    ok (c ∷ [], (if c == quote then none else some quote), cs)
expand_turn functions path_pattern none c cs =
    if (c == b'"') || (c == b'\'')
    then ok (c ∷ [], some c, cs)
    else if is_ascii_alphabetic c || c == b'_'
    then lookup_ident functions path_pattern (span is_word_char (c ∷ cs))
    else ok (c ∷ [], none, cs)

unfoldable pub expand_from : ℕ → Dict Text → Text → Option ℕ → Text → Checked Text
expand_from n functions path_pattern in_string [] = ok []
expand_from zero functions path_pattern in_string (c ∷ cs) =
    err (single path_pattern unreachable_construct)
expand_from (suc n) functions path_pattern in_string (c ∷ cs) = do
  (piece, next, rest) ← expand_turn functions path_pattern in_string c cs
  out ← expand_from n functions path_pattern next rest
  ok (piece ++ out)

unfoldable pub expand_function_calls : Text → Dict Text → Text → Checked Text
expand_function_calls condition_text functions path_pattern =
    expand_from (length condition_text) functions path_pattern none condition_text
