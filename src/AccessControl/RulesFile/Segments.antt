-- ===== src/AccessControl/RulesFile/Segments.antt =====
-- `parse_path_segments`, `validate_segment_shape` and `render_ancestor_pattern` of rules_file.rs.
pub mod Shape
pub mod Splitting
pub mod Rendering
pub mod RoundTrip
use embyr_rs.Base.{
  ℕ, suc, ◌+◌, ◌==◌, ltb, Bool, true, false, not, ◌&&◌, ◌||◌, Option, none, some, List, [], ◌∷◌,
  ◌++◌, length, if◌then◌else◌, ok, err, and_then, ◌>>=◌, ◌>>◌,
}
use embyr_rs.Base.Text.{Text, codes, text_eq, strip_prefix, join}
use embyr_rs.AccessControl.PathTemplates.{split, strip_last}
use embyr_rs.AccessControl.PathRouting.{PathSegment, literal, wildcard, recursive_wildcard}
use embyr_rs.AccessControl.RulesFile.{
  single, Checked, syntax_construct, nested_path, wildcard_not_terminal, wildcard_odd_prefix,
}

-- `str::starts_with` and `str::contains`.
abbrev pub starts_with : Text → Text → Bool
starts_with s p = elim (strip_prefix p s) [ some _ ↦ true | none ↦ false ]

unfoldable pub text_contains : Text → Text → Bool
text_contains [] p = starts_with [] p
text_contains (c ∷ s) p = starts_with (c ∷ s) p || text_contains s p

-- `str::ends_with`
unfoldable pub ends_with : Text → Text → Bool
ends_with [] p = text_eq [] p
ends_with (c ∷ s) p = text_eq (c ∷ s) p || ends_with s p

-- The part between the braces of a segment.
abbrev pub without_close : Option Text → Option Text
without_close none = none
without_close (some s) = strip_last b'}' s

unfoldable pub braced : Text → Option Text
braced seg = without_close (strip_prefix (codes "{") seg)

abbrev pub variable_segment : Text → Text → Checked PathSegment
variable_segment pattern [] = err (single pattern syntax_construct)
variable_segment pattern (c ∷ name) = ok (wildcard (c ∷ name))

abbrev pub literal_segment : Text → Text → Checked PathSegment
literal_segment pattern [] = err (single pattern syntax_construct)
literal_segment pattern (c ∷ seg) = ok (literal (c ∷ seg))

-- What a segment stands for, by the part between its braces, if it has them.
abbrev pub segment_of : Option Text → Text → Text → Checked PathSegment
segment_of (some inner) seg pattern =
    if ends_with inner (codes "=**") then ok recursive_wildcard else variable_segment pattern inner
segment_of none seg pattern =
    if text_contains seg (codes "**") then ok recursive_wildcard else literal_segment pattern seg

unfoldable pub parse_one_segment : Text → Text → Checked PathSegment
parse_one_segment seg pattern = segment_of (braced seg) seg pattern

-- `map(…).collect()`: the first error ends it.
unfoldable pub parse_each_segment : List Text → Text → Checked (List PathSegment)
parse_each_segment [] pattern = ok []
parse_each_segment (seg ∷ segs) pattern = do
  segment ← parse_one_segment seg pattern
  rest ← parse_each_segment segs pattern
  ok (segment ∷ rest)

-- `strip_prefix('/').unwrap_or(pattern)`
abbrev pub strip_slash : Text → Text
strip_slash [] = []
strip_slash (c ∷ s) = if c == b'/' then s else c ∷ s

abbrev pub split_non_empty : Text → Text → Checked (List PathSegment)
split_non_empty [] pattern = err (single pattern syntax_construct)
split_non_empty (c ∷ s) pattern = parse_each_segment (split b'/' (c ∷ s)) pattern

unfoldable pub parse_path_segments : Text → Checked (List PathSegment)
parse_path_segments pattern = split_non_empty (strip_slash pattern) pattern

abbrev pub is_last : List PathSegment → Bool
is_last [] = true
is_last (_ ∷ _) = false

-- One turn of the loop: the segment at an even index or not, and those behind it.
unfoldable pub check_position : PathSegment → Bool → List PathSegment → Text → Checked Unit
check_position recursive_wildcard even rest path_pattern =
    if not (is_last rest)
    then err (single path_pattern wildcard_not_terminal)
    else if not even
    then err (single path_pattern wildcard_odd_prefix)
    else ok tt
check_position (wildcard v) even rest path_pattern =
    if even then err (single path_pattern nested_path) else ok tt
check_position (literal s) even rest path_pattern = ok tt

-- The loop from an index on, whose parity is kept.
unfoldable pub validate_from : Bool → List PathSegment → Text → Checked Unit
validate_from even [] path_pattern = ok tt
validate_from even (seg ∷ segs) path_pattern = do
  check_position seg even segs path_pattern
  validate_from (not even) segs path_pattern

unfoldable pub validate_segment_shape : List PathSegment → Text → Checked Unit
validate_segment_shape segments path_pattern = validate_from true segments path_pattern

-- The source panics at a recursive wildcard: `none` here.
unfoldable pub render_segment : PathSegment → Option Text
render_segment (literal s) = some s
render_segment (wildcard name) = some (b'{' ∷ name ++ b'}' ∷ [])
render_segment recursive_wildcard = none

unfoldable pub render_segments : List PathSegment → Option (List Text)
render_segments [] = some []
render_segments (seg ∷ segs) =
    and_then (render_segment seg)
      λ text. and_then (render_segments segs) λ texts. some (text ∷ texts)

unfoldable pub render_ancestor_pattern : List PathSegment → Option Text
render_ancestor_pattern ancestor =
    and_then (render_segments ancestor) λ texts. some (join (codes "/") texts)
