-- ===== src/AccessControl/Tokenizer.antt =====
-- `tokenize`, `detect_unsupported_construct` and `parse_condition` of access_control/mod.rs. The loops
-- over the characters run on fuel, one unit for each turn.
pub mod Total
use embyr_rs.Base.{
  ℕ, zero, suc, ◌==◌, Bool, true, false, not, ◌&&◌, ◌||◌, Option, none, some, List, [], ◌∷◌, length,
  if◌then◌else◌, any, Result, ok, err, ◌>>=◌, ◌>>◌,
}
use embyr_rs.Base.Text.{Text, codes, text_eq, strip_prefix, is_ascii_digit, is_ascii_alphabetic}
use embyr_rs.Domain.FieldValue.{Float}
use embyr_rs.AccessControl.Syntax.{Condition}
use embyr_rs.AccessControl.Token.{
  ConditionParseError, syntax_error, outside_grammar, unsupported_construct, custom_function,
  wildcard_path, out_of_fuel, Token,
}
use embyr_rs.AccessControl.Scan.{
  Scanned, is_whitespace, next_is, next_is_digit, is_word_char, span, number, exists_token,
  get_token, word_token, string_token, unit_token,
}
use embyr_rs.AccessControl.Parser.{parse_tokens}

-- What is left after the second character of a symbol.
abbrev pub skip : Text → Text
skip [] = []
skip (c ∷ cs) = cs

module _ {F : Type 0} ⦃float : Float F⦄ where
  -- A token with the characters after it.
  abbrev pub one : Token F → Text → Scanned (Token F)
  one token rest = ok (token, rest)

  abbrev pub get_or : Option Text → Scanned (Token F) → Scanned (Token F)
  get_or (some inside) below = get_token inside
  get_or none below = below

  abbrev pub exists_or : Option Text → Scanned (Token F) → Scanned (Token F)
  exists_or (some inside) below = exists_token inside
  exists_or none below = below

  -- The arms from the words on.
  unfoldable pub scan_word : ℕ → Text → Scanned (Token F)
  scan_word c cs = exists_or (strip_prefix (codes "exists(") (c ∷ cs)) (
      get_or (strip_prefix (codes "get(") (c ∷ cs)) (
        if is_ascii_alphabetic c || c == b'_'
        then word_token (c ∷ cs)
        else if c == b'"'
        then string_token cs
        else if c == b'\''
        then unit_token cs
        else if c == b'*' || (c == b'/' || c == b'%')
        then err outside_grammar
        else err syntax_error))

  -- The arms from the comparisons on.
  unfoldable pub scan_operator : ℕ → Text → Scanned (Token F)
  scan_operator c cs =
      if c == b'!' && next_is b'=' cs
      then one Token.ne (skip cs)
      else if c == b'!'
      then one Token.not cs
      else if c == b'<' && next_is b'=' cs
      then one Token.le (skip cs)
      else if c == b'<'
      then one Token.lt cs
      else if c == b'>' && next_is b'=' cs
      then one Token.ge (skip cs)
      else if c == b'>'
      then one Token.gt cs
      else if c == b'+'
      then one Token.plus cs
      else if is_ascii_digit c || (c == b'-' && next_is_digit cs)
      then number c cs
      else if c == b'-'
      then one Token.minus cs
      else scan_word c cs

  -- The token at a character that is no white space.
  unfoldable pub scan_token : ℕ → Text → Scanned (Token F)
  scan_token c cs =
      if c == b'('
      then one Token.l_paren cs
      else if c == b')'
      then one Token.r_paren cs
      else if c == b'['
      then one Token.l_bracket cs
      else if c == b']'
      then one Token.r_bracket cs
      else if c == b','
      then one Token.comma cs
      else if c == b'&' && next_is b'&' cs
      then one Token.and (skip cs)
      else if c == b'|' && next_is b'|' cs
      then one Token.or (skip cs)
      else if c == b'=' && next_is b'=' cs
      then one Token.eq (skip cs)
      else scan_operator c cs

  unfoldable pub tokens_from : ℕ → Text → Result ConditionParseError (List (Token F))
  tokens_from n [] = ok []
  tokens_from zero (c ∷ cs) = err out_of_fuel
  tokens_from (suc n) (c ∷ cs) = elim (is_whitespace c) [
    | true ↦ tokens_from n cs
    | false ↦ do (token, rest) ← scan_token c cs; tokens ← tokens_from n rest; ok (token ∷ tokens)
  ]

  unfoldable pub tokenize : Text → Result ConditionParseError (List (Token F))
  tokenize source = tokens_from (length source) source

-- The source with the quoted spans, the quotes included, blanked out.
unfoldable pub masked : Bool → Text → Text
masked in_quotes [] = []
masked in_quotes (c ∷ cs) =
    let rest = masked (if c == b'"' then not in_quotes else in_quotes) cs in
    (if c == b'"' || in_quotes then b' ' else c) ∷ rest

-- `masked.contains("**")`
unfoldable pub contains_double_star : Text → Bool
contains_double_star [] = false
contains_double_star (c ∷ cs) = (c == b'*' && next_is b'*' cs) || contains_double_star cs

abbrev pub is_allowed_call : Text → Bool
is_allowed_call ident =
    text_eq ident (codes "duration.value")
    || (text_eq ident (codes "get") || text_eq ident (codes "exists"))

-- The loop over the identifiers.
unfoldable pub scan_calls : ℕ → Text → Result ConditionParseError (Unit {0})
scan_calls n [] = ok tt
scan_calls zero (c ∷ cs) = err out_of_fuel
scan_calls (suc n) (c ∷ cs) =
    let (ident, rest) = span is_word_char (c ∷ cs) in
    let is_ident = is_ascii_alphabetic c || c == b'_' in
    let later = scan_calls n (if is_ident then rest else cs) in
    if is_ident && (next_is b'(' rest && not (is_allowed_call ident))
    then err (unsupported_construct custom_function)
    else later

-- `Some(err)` of the source is an error here.
unfoldable pub detect_unsupported_construct : Text → Result ConditionParseError (Unit {0})
detect_unsupported_construct source =
    let inert = masked false source in
    if contains_double_star inert || any (λ c. c == b'{') inert
    then err (unsupported_construct wildcard_path)
    else scan_calls (length inert) inert

module _ {F : Type 0} ⦃float : Float F⦄ where
  unfoldable pub parse_condition : Text → Result ConditionParseError (Condition F)
  parse_condition source = do
    detect_unsupported_construct source
    tokens ← tokenize source
    parse_tokens tokens
