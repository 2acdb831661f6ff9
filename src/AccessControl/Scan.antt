-- ===== src/AccessControl/Scan.antt =====
-- The scans inside `tokenize` of access_control/mod.rs. The position is the list of the characters
-- from there on.
pub mod Leaves
use embyr_rs.Base.{
  ℕ, zero, suc, ◌+◌, ◌-◌, ◌*◌, ◌==◌, leb, Bool, true, false, not, ◌&&◌, ◌||◌, Option, none, some,
  List, [], ◌∷◌, ◌++◌, if◌then◌else◌, Result, ok, err, ok_or, ◌>>=◌,
}
use embyr_rs.Base.Int.{ℤ, pos, sub_ℕ, fits_i64}
use embyr_rs.Base.Text.{
  Text, codes, strip_prefix, is_ascii_digit, is_ascii_alphabetic, is_ascii_alphanumeric,
}
use embyr_rs.Domain.FieldValue.{Float}
use embyr_rs.AccessControl.Token.{ConditionParseError, syntax_error, Token}

-- What a scan returns: its value, and the characters after it.
abbrev pub Scanned : Type 0 → Type 0
Scanned A = Result ConditionParseError (A × Text)

-- `char::is_whitespace`: the characters with the property White_Space.
unfoldable pub is_whitespace : ℕ → Bool
is_whitespace c =
    (leb 9 c && leb c 13)
    || (c == 32)
    || (c == 133)
    || (c == 160)
    || (c == 5760)
    || (leb 8192 c && leb c 8202)
    || (c == 8232)
    || (c == 8233)
    || (c == 8239)
    || (c == 8287)
    || (c == 12288)

-- `chars.get(i) == Some(&d)`
abbrev pub next_is : ℕ → Text → Bool
next_is d [] = false
next_is d (c ∷ cs) = c == d

-- `chars.get(i).is_some_and(|d| d.is_ascii_digit())`
abbrev pub next_is_digit : Text → Bool
next_is_digit [] = false
next_is_digit (c ∷ cs) = is_ascii_digit c

abbrev pub is_name_char : ℕ → Bool
is_name_char c = is_ascii_alphanumeric c || c == b'_'

abbrev pub is_word_char : ℕ → Bool
is_word_char c = is_name_char c || c == b'.'

abbrev pub keep : ℕ → Text × Text → Text × Text
keep c (s, rest) = (c ∷ s, rest)

-- `while i < chars.len() && p(chars[i])`: the characters before the loop's end, and those after.
unfoldable pub span : (ℕ → Bool) → Text → Text × Text
span p [] = ([], [])
span p (c ∷ cs) = let rest = span p cs in if p c then keep c rest else ([], c ∷ cs)

-- The depth after a character.
abbrev pub depth_after : ℕ → ℕ → ℕ
depth_after depth c = if c == b'(' then suc depth else if c == b')' then depth - 1 else depth

abbrev pub keep_inside : ℕ → Scanned Text → Scanned Text
keep_inside c (ok (s, rest)) = ok (c ∷ s, rest)
keep_inside c (err e) = err e

-- The text before the matching parenthesis, and the characters after it.
unfoldable pub find_matching_paren : ℕ → Text → Scanned Text
find_matching_paren depth [] = err syntax_error
find_matching_paren depth (c ∷ cs) =
    let deeper = find_matching_paren (depth_after depth c) cs in
    if c == b')' && depth == 1 then ok ([], cs) else keep_inside c deeper

-- The value of a run of digits.
abbrev pub decimal : ℕ → Text → ℕ
decimal acc [] = acc
decimal acc (c ∷ cs) = decimal (10 * acc + (c - b'0')) cs

abbrev pub in_range : ℤ → Option ℤ
in_range z = if fits_i64 z then some z else none

-- `str::parse::<i64>` of digits that may stand behind a minus.
unfoldable pub parse_i64 : Text → Option ℤ
parse_i64 [] = none
parse_i64 (c ∷ cs) =
    if c == b'-' then in_range (sub_ℕ 0 (decimal 0 cs)) else in_range (pos (decimal 0 (c ∷ cs)))

abbrev pub closed : Text × Text → Scanned Text
closed (content, []) = err syntax_error
closed (content, close ∷ rest) = ok (content, rest)

-- A text in quotes, the opening one already read.
unfoldable pub quoted : ℕ → Text → Scanned Text
quoted q cs = closed (span (λ c. not (c == q)) cs)

module _ {F : Type 0} ⦃float : Float F⦄ where
  unfoldable pub double_token : Text → Text → Scanned (Token F)
  double_token text rest = do
    value ← ok_or syntax_error (float.of_decimal text)
    ok (Token.double_literal value, rest)

  unfoldable pub integer_token : Text → Text → Scanned (Token F)
  integer_token text rest = do
    value ← ok_or syntax_error (parse_i64 text)
    ok (Token.int_literal value, rest)

  -- What follows the first digits: the fraction, if a point is next.
  unfoldable pub number_rest : Text → Text → Scanned (Token F)
  number_rest text [] = integer_token text []
  number_rest text (c ∷ cs) =
      let (fraction, rest) = span is_ascii_digit cs in
      if c == b'.'
      then (if next_is_digit cs
          then double_token (text ++ b'.' ∷ fraction) rest
          else err syntax_error)
      else integer_token text (c ∷ cs)

  -- A numeric literal that begins with `c`, a digit or a minus.
  unfoldable pub number : ℕ → Text → Scanned (Token F)
  number c cs = let (digits, rest) = span is_ascii_digit cs in number_rest (c ∷ digits) rest

  -- After `exists(`.
  unfoldable pub exists_token : Text → Scanned (Token F)
  exists_token inside = do
    (raw_path, rest) ← find_matching_paren 1 inside
    ok (Token.exists_call raw_path, rest)

  abbrev pub field_token : Text → Text × Text → Scanned (Token F)
  field_token raw_path ([], rest) = err syntax_error
  field_token raw_path (c ∷ field, rest) = ok (Token.get_call raw_path (c ∷ field), rest)

  -- After `get(…)`.
  unfoldable pub get_suffix : Text → Option Text → Scanned (Token F)
  get_suffix raw_path none = err syntax_error
  get_suffix raw_path (some cs) = field_token raw_path (span is_name_char cs)

  -- After `get(`.
  unfoldable pub get_token : Text → Scanned (Token F)
  get_token inside = do
    (raw_path, rest) ← find_matching_paren 1 inside
    get_suffix raw_path (strip_prefix (codes ".data.") rest)

  unfoldable pub word_token : Text → Scanned (Token F)
  word_token cs = let (w, rest) = span is_word_char cs in ok (Token.word w, rest)

  unfoldable pub string_token : Text → Scanned (Token F)
  string_token cs = do (content, rest) ← quoted b'"' cs; ok (Token.string_literal content, rest)

  unfoldable pub unit_token : Text → Scanned (Token F)
  unit_token cs = do (content, rest) ← quoted b'\'' cs; ok (Token.single_quoted_unit content, rest)
