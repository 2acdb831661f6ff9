-- ===== src/AccessControl/PathTemplates.antt =====
-- `parse_path_template` of access_control/mod.rs: the path inside `exists(…)` and `get(…)`.
use embyr_rs.Base.{
  ℕ, ◌==◌, Option, none, some, List, [], ◌∷◌, if◌then◌else◌, any, Result, ok, err, ◌>>=◌,
}
use embyr_rs.Base.Text.{Text, codes, text_eq, strip_prefix}
use embyr_rs.AccessControl.Syntax.{PathTemplate, PathTemplateSegment}
use embyr_rs.AccessControl.Token.{ConditionParseError, syntax_error, outside_grammar}

abbrev pub cons_first : ℕ → List Text → List Text
cons_first a [] = (a ∷ []) ∷ []
cons_first a (s ∷ rest) = (a ∷ s) ∷ rest

-- `str::split` at a character.
unfoldable pub split : ℕ → Text → List Text
split c [] = [] ∷ []
split c (a ∷ s) = let rest = split c s in if a == c then [] ∷ rest else cons_first a rest

-- `filter(|s| !s.is_empty())`
unfoldable pub non_empty : List Text → List Text
non_empty [] = []
non_empty ([] ∷ rest) = non_empty rest
non_empty ((a ∷ s) ∷ rest) = (a ∷ s) ∷ non_empty rest

abbrev pub keep_first : ℕ → Option Text → Option Text
keep_first a none = none
keep_first a (some s) = some (a ∷ s)

-- `str::strip_suffix` of one character.
unfoldable pub strip_last : ℕ → Text → Option Text
strip_last c [] = none
strip_last c (a ∷ []) = if a == c then some [] else none
strip_last c (a ∷ b ∷ s) = keep_first a (strip_last c (b ∷ s))

-- The part between `$(` and `)`.
unfoldable pub substitution : Text → Option Text
substitution raw_segment = elim (strip_prefix (codes "$(") raw_segment) [
  | some s ↦ strip_last b')' s
  | none ↦ none
]

abbrev pub path_variable_segment : Text → Result ConditionParseError PathTemplateSegment
path_variable_segment [] = err syntax_error
path_variable_segment (a ∷ name) = ok (PathTemplateSegment.path_variable (a ∷ name))

-- A guard `w.starts_with(prefix)`: what it does with the rest of the word, else the arms below it.
abbrev pub after_prefix :
    {A : Type 0}
    → Option Text
    → (Text → Result ConditionParseError A)
    → Result ConditionParseError A
    → Result ConditionParseError A
after_prefix (some rest) arm below = arm rest
after_prefix none arm below = below

unfoldable pub parse_substitution : Text → Result ConditionParseError PathTemplateSegment
parse_substitution inner =
    if text_eq inner (codes "request.auth.uid")
    then ok PathTemplateSegment.auth_uid
    else after_prefix (strip_prefix (codes "request.path.") inner) path_variable_segment
        (err outside_grammar)

-- One turn of the loop over the segments.
unfoldable pub parse_segment : Text → Result ConditionParseError PathTemplateSegment
parse_segment raw_segment = after_prefix (substitution raw_segment) parse_substitution (
    if any (λ c. c == b'$') raw_segment
    then err outside_grammar
    else ok (PathTemplateSegment.literal raw_segment))

unfoldable pub parse_segments : List Text → Result ConditionParseError (List PathTemplateSegment)
parse_segments [] = ok []
parse_segments (raw_segment ∷ rest) = do
  segment ← parse_segment raw_segment
  segments ← parse_segments rest
  ok (segment ∷ segments)

-- `["databases", "$(database)", "documents"]`, taken off the front.
unfoldable pub strip_expected_prefix : List Text → Option (List Text)
strip_expected_prefix (a ∷ b ∷ c ∷ rest) =
    if text_eq a (codes "databases")
    then (if text_eq b (codes "$(database)")
        then (if text_eq c (codes "documents") then some rest else none)
        else none)
    else none
strip_expected_prefix _ = none

-- The segments after the prefix, of which there is one at least.
unfoldable pub template_of : Option (List Text) → Result ConditionParseError PathTemplate
template_of none = err syntax_error
template_of (some []) = err syntax_error
template_of (some (s ∷ rest)) = do
  segments ← parse_segments (s ∷ rest)
  ok (record { segments = segments })

unfoldable pub parse_path_template : Text → Result ConditionParseError PathTemplate
parse_path_template raw_path = template_of (strip_expected_prefix (non_empty (split b'/' raw_path)))
