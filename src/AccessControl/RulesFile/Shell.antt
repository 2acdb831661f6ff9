-- ===== src/AccessControl/RulesFile/Shell.antt =====
-- The scans of rules_file.rs over its text: trimming, keywords, and the matching of brackets. Where the
-- source finds a position and slices there, the model returns what is before and behind it.
pub mod Lengths
use embyr_rs.Base.{
  ℕ, zero, suc, ◌-◌, ◌==◌, Bool, true, false, not, ◌&&◌, ◌||◌, Option, none, some, [], ◌∷◌, ◌++◌,
  length, if◌then◌else◌, ok, err, and_then, ◌>>=◌,
}
use embyr_rs.Base.Text.{Text, strip_prefix}
use embyr_rs.AccessControl.Scan.{is_whitespace, span}
use embyr_rs.AccessControl.RulesFile.{single, shell_syntax_error, unreachable_construct, Checked}

-- `str::trim_start`, `str::trim`.
unfoldable pub trim_start : Text → Text
trim_start s = (span is_whitespace s).1

abbrev pub drop_space : ℕ → Text → Text
drop_space c [] = if is_whitespace c then [] else c ∷ []
drop_space c (d ∷ s) = c ∷ d ∷ s

unfoldable pub trim_end : Text → Text
trim_end [] = []
trim_end (c ∷ s) = drop_space c (trim_end s)

unfoldable pub trim : Text → Text
trim s = trim_end (trim_start s)

abbrev pub is_empty : Text → Bool
is_empty [] = true
is_empty (_ ∷ _) = false

abbrev pub starts_with_space : Text → Bool
starts_with_space [] = false
starts_with_space (c ∷ s) = is_whitespace c

-- `strip_prefix(…).filter(…)`
unfoldable pub keyword : Text → (Text → Bool) → Text → Option Text
keyword word p s = and_then (strip_prefix word s) (λ rest. if p rest then some rest else none)

abbrev pub before : ℕ → Option (Text × Text) → Option (Text × Text)
before c none = none
before c (some (s, rest)) = some (c ∷ s, rest)

-- `str::find` of a character.
unfoldable pub find_char : ℕ → Text → Option (Text × Text)
find_char c [] = none
find_char c (a ∷ s) = let rest = find_char c s in if a == c then some ([], s) else before a rest

abbrev pub depth_at : ℕ → ℕ → ℕ → ℕ → ℕ
depth_at opening closer depth c =
    if c == opening then suc depth else if c == closer then depth - 1 else depth

-- The loop that counts the depth, from behind the first opening bracket on.
unfoldable pub closing : ℕ → ℕ → ℕ → Text → Option (Text × Text)
closing opening closer depth [] = none
closing opening closer depth (c ∷ cs) =
    let deeper = closing opening closer (depth_at opening closer depth c) cs in
    if c == closer && depth == 1 then some ([], cs) else before c deeper

-- What is between the brackets, and what is behind them, if the text opens with one.
unfoldable pub bracketed : ℕ → ℕ → Text → Option (Text × Text)
bracketed opening closer [] = none
bracketed opening closer (c ∷ cs) = if c == opening then closing opening closer 1 cs else none

unfoldable pub find_matching_close : Text → Option (Text × Text)
find_matching_close s = bracketed b'{' b'}' s

unfoldable pub find_char_paren_close : Text → Option (Text × Text)
find_char_paren_close s = bracketed b'(' b')' s

abbrev pub in_segment : ℕ → Bool
in_segment c = not ((c == b'/') || is_whitespace c || (c == b'{'))

-- `find('}')?`, the brace kept.
abbrev pub variable_end : Option (Text × Text) → Checked (Text × Text)
variable_end none = err shell_syntax_error
variable_end (some (name, rest)) = ok (b'{' ∷ name ++ b'}' ∷ [], rest)

-- A segment behind its slash.
unfoldable pub pattern_segment : Text → Checked (Text × Text)
pattern_segment [] = ok ([], [])
pattern_segment (c ∷ cs) =
    if c == b'{' then variable_end (find_char b'}' cs) else ok (span in_segment (c ∷ cs))

-- The loop, on fuel: one unit for each segment.
unfoldable pub pattern_from : ℕ → Text → Checked (Text × Text)
pattern_from zero s = err (single [] unreachable_construct)
pattern_from (suc n) [] = ok ([], [])
pattern_from (suc n) (c ∷ cs) =
    let segments = (do
      (segment, rest) ← pattern_segment cs
      (more, after) ← pattern_from n rest
      ok (b'/' ∷ segment ++ more, after)) in
    if c == b'/' then segments else ok ([], c ∷ cs)

abbrev pub slash_first : Text → Bool
slash_first [] = false
slash_first (c ∷ cs) = c == b'/'

-- The error is what the caller makes of `None`.
unfoldable pub find_path_pattern_end : Text → Checked (Text × Text)
find_path_pattern_end after_match =
    if slash_first after_match
    then pattern_from (suc (length after_match)) after_match
    else err shell_syntax_error
