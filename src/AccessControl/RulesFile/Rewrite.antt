-- ===== src/AccessControl/RulesFile/Rewrite.antt =====
-- `rewrite_path_variable` of rules_file.rs. The position is the list of the characters from there on,
-- with the character before it; the loop runs on fuel, one unit for each turn.
pub mod Words
pub mod WholeWords
pub mod Total
use embyr_rs.Base.{
  ℕ, zero, suc, Bool, true, not, ◌&&◌, Option, none, some, List, [], ◌∷◌, ◌++◌, length,
  if◌then◌else◌,
}
use embyr_rs.Base.Text.{Text, codes, strip_prefix}
use embyr_rs.AccessControl.Scan.{is_name_char}

-- Not a word character, or the text's edge.
abbrev pub is_boundary : Option ℕ → Bool
is_boundary none = true
is_boundary (some c) = not (is_name_char c)

abbrev pub first : Text → Option ℕ
first [] = none
first (c ∷ cs) = some c

-- The last character, or the one before the text.
abbrev pub last_or : Option ℕ → Text → Option ℕ
last_or prev [] = prev
last_or prev (c ∷ s) = last_or (some c) s

abbrev pub whole_word : Option ℕ → Option Text → Option Text
whole_word prev none = none
whole_word prev (some after) =
    if is_boundary prev && is_boundary (first after) then some after else none

-- `matches_here`: what follows the variable.
unfoldable pub matches_here : Text → Option ℕ → Text → Option Text
matches_here var prev cs = whole_word prev (strip_prefix var cs)

-- The two branches: what is pushed, the character before the new position, and the text from there.
abbrev pub turn : Option Text → Text → Option ℕ → ℕ → Text → Text × Option ℕ × Text
turn (some after) var prev c cs = (codes "request.path." ++ var, last_or prev var, after)
turn none var prev c cs = (c ∷ [], some c, cs)

abbrev pub push_piece : Text → Option Text → Option Text
push_piece piece none = none
push_piece piece (some result) = some (piece ++ result)

unfoldable pub rewrite_from : ℕ → Text → Option ℕ → Text → Option Text
rewrite_from n var prev [] = some []
rewrite_from zero var prev (c ∷ cs) = none
rewrite_from (suc n) var prev (c ∷ cs) =
    let (piece, before, rest) = turn (matches_here var prev (c ∷ cs)) var prev c cs in
    push_piece piece (rewrite_from n var before rest)

unfoldable pub rewrite_path_variable : Text → Text → Option Text
rewrite_path_variable condition var = rewrite_from (length condition) var none condition
