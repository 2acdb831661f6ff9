-- ===== src/Tests/RulesFile.antt =====
-- A rules file, from its text to its targets.
use embyr_rs.AccessControl.Operands.{
  duration_unit, expect_amount, expect_comma, expect_l_paren, expect_r_paren, expect_unit, named,
  parse_arithmetic, parse_arithmetic_rhs, parse_base_operand, parse_duration_value, parse_operand,
  parse_right, prefixed_operand, single_arithmetic, word_to_operand,
}
use embyr_rs.AccessControl.Parser.{
  and_loop, compare_op, compare_right, comparison_rest, in_list, list_items, next_item, or_loop,
  parse_and, parse_comparison, parse_exists, parse_list_literal, parse_or, parse_primary,
  parse_tokens, parse_unary, parse_word,
}
use embyr_rs.AccessControl.PathRouting.{
  PathSegment, even_literals, literal, literal_skeleton, odd_literals, recursive_wildcard, wildcard,
}
use embyr_rs.AccessControl.PathTemplates.{
  non_empty, parse_path_template, parse_segment, parse_segments, parse_substitution, split,
  strip_expected_prefix, strip_last, substitution, template_of,
}
use embyr_rs.AccessControl.RulesFile.{
  DecomposedTarget, MatchBlock, OffendingBlock, Verb, construct_for, multi_segment_pattern,
  nested_path, recursive_wildcard_pattern, single,
}
use embyr_rs.AccessControl.RulesFile.Blocks.{
  blocks_from, delineate, is_nested, parse_allow_clauses, parse_block_body, parse_clause,
  parse_clauses, parse_content, parse_match_blocks, parse_nested_match_blocks, parse_rules_file,
  parse_verb, parse_verbs, shell_body, verb_named,
}
use embyr_rs.AccessControl.RulesFile.Blocks.WellFormed.{Imported, parse_rules_file-Imported}
use embyr_rs.AccessControl.RulesFile.Decompose.{
  bucket_clauses, bucket_verb, bucket_verbs, decompose, decompose_block, decompose_each,
  decompose_fixed, decompose_recursive, decompose_shape, fill_bucket, fixed_target, rewrite_all,
  split_leaf, wildcard_names,
}
use embyr_rs.AccessControl.RulesFile.Decompose.Outcomes.{
  Decomposed, Names, Offends, decompose_err_iff, decompose_iff,
}
use embyr_rs.AccessControl.RulesFile.Ends.{IsReal}
use embyr_rs.AccessControl.RulesFile.Functions.{
  expand_from, expand_function_calls, expand_ident, expand_turn, function_block, functions_from,
  is_builtin, is_function_name, is_reserved, parse_function_blocks, return_expression, splice,
}
use embyr_rs.AccessControl.RulesFile.Import.{decompose-parse_rules_file-IsReal}
use embyr_rs.AccessControl.RulesFile.Rewrite.{matches_here, rewrite_from, rewrite_path_variable}
use embyr_rs.AccessControl.RulesFile.Rewrite.WholeWords.{rewrite_path_variable-words}
use embyr_rs.AccessControl.RulesFile.Rewrite.Words.{rewrite_words, words}
use embyr_rs.AccessControl.RulesFile.Segments.{
  braced, check_position, ends_with, parse_each_segment, parse_one_segment, parse_path_segments,
  render_ancestor_pattern, render_segment, render_segments, strip_slash, text_contains,
  validate_from, validate_segment_shape,
}
use embyr_rs.AccessControl.RulesFile.Segments.RoundTrip.{
  render_ancestor_pattern-parse_path_segments,
}
use embyr_rs.AccessControl.RulesFile.Segments.Shape.{IsShaped, validate_segment_shape_iff}
use embyr_rs.AccessControl.RulesFile.Shell.{
  bracketed, closing, find_char, find_char_paren_close, find_matching_close, find_path_pattern_end,
  keyword, pattern_from, pattern_segment, trim, trim_end, trim_start,
}
use embyr_rs.AccessControl.Scan.{
  double_token, exists_token, find_matching_paren, get_suffix, get_token, integer_token,
  is_whitespace, number, number_rest, parse_i64, quoted, span, string_token, unit_token, word_token,
}
use embyr_rs.AccessControl.Tokenizer.{
  contains_double_star, detect_unsupported_construct, masked, parse_condition, scan_calls,
  scan_operator, scan_token, scan_word, tokenize, tokens_from,
}
use embyr_rs.Base.{All, Any, List, [], err, none, ok, refl, some, true, ◌>>=◌, ◌↔◌, ◌∷◌, ◌≡◌}
use embyr_rs.Base.Dict.{get, insert}
use embyr_rs.Base.Int.{ℤ}
use embyr_rs.Base.Text.{Text, codes}
use embyr_rs.Tests.Floats.{whole_float}

-- `/notes/{n}/parts` in two nested blocks, with one clause.
abbrev rules : Text
rules =
    codes
      "service cloud.firestore { match /databases/{database}/documents { match /notes/{n} { match /parts { allow read: if n == request.auth.uid; } } } }"

abbrev path : List PathSegment
path = literal (codes "notes") ∷ wildcard (codes "n") ∷ literal (codes "parts") ∷ []

abbrev block : MatchBlock
block = record {
  path_pattern = codes "/notes/{n}/parts";
  segments = path;
  allow_clauses = (Verb.read ∷ [], codes "n == request.auth.uid") ∷ [];
}

abbrev read_condition : Text
read_condition = codes "request.path.n == request.auth.uid"

abbrev target : DecomposedTarget
target = multi_segment_pattern (record {
  collection_path_pattern = codes "notes/{n}/parts";
  ancestor_segment_count = 3;
  literal_skeleton = codes "notes/parts";
  leaf_variable = none;
  read_condition = some read_condition;
  write_condition = none;
})

-- A block whose path begins with a variable.
abbrev bad_block : MatchBlock
bad_block = record {
  path_pattern = codes "/{n}";
  segments = wildcard (codes "n") ∷ [];
  allow_clauses = (Verb.read ∷ [], codes "n == request.auth.uid") ∷ [];
}

parsed_run : parse_rules_file ℤ rules ≡ ok (block ∷ [])
unfolding double_token exists_token find_matching_paren get_suffix get_token integer_token
    is_whitespace number number_rest parse_i64 quoted span string_token unit_token word_token
    non_empty parse_path_template parse_segment parse_segments parse_substitution split
    strip_expected_prefix strip_last substitution template_of braced check_position text_contains
    ends_with parse_each_segment parse_one_segment parse_path_segments render_ancestor_pattern
    render_segment render_segments validate_from validate_segment_shape bracketed closing find_char
    find_char_paren_close find_matching_close find_path_pattern_end keyword pattern_from
    pattern_segment trim trim_end trim_start expand_from expand_function_calls expand_ident
    expand_turn function_block functions_from is_builtin is_function_name is_reserved
    parse_function_blocks return_expression splice blocks_from delineate is_nested
    parse_allow_clauses parse_block_body parse_clause parse_clauses parse_content parse_match_blocks
    parse_nested_match_blocks parse_rules_file parse_verb parse_verbs shell_body verb_named get
    insert
parsed_run = refl

target_run : decompose_block ℤ block ≡ ok target
unfolding double_token exists_token find_matching_paren get_suffix get_token integer_token
    is_whitespace number number_rest parse_i64 quoted span string_token unit_token word_token
    non_empty parse_path_template parse_segment parse_segments parse_substitution split
    strip_expected_prefix strip_last substitution template_of contains_double_star
    detect_unsupported_construct masked parse_condition scan_calls scan_operator scan_token
    scan_word tokenize tokens_from and_loop compare_op compare_right comparison_rest in_list
    list_items next_item or_loop parse_and parse_comparison parse_exists parse_list_literal parse_or
    parse_primary parse_tokens parse_unary parse_word duration_unit expect_amount expect_comma
    expect_l_paren expect_r_paren expect_unit named parse_arithmetic parse_arithmetic_rhs
    parse_base_operand parse_duration_value parse_operand parse_right prefixed_operand
    single_arithmetic word_to_operand even_literals literal_skeleton odd_literals braced
    check_position text_contains ends_with parse_each_segment parse_one_segment parse_path_segments
    render_ancestor_pattern render_segment render_segments validate_from validate_segment_shape
    bucket_clauses bucket_verb bucket_verbs decompose decompose_block decompose_each decompose_fixed
    decompose_recursive decompose_shape fixed_target rewrite_all split_leaf fill_bucket
    wildcard_names matches_here rewrite_from rewrite_path_variable construct_for
target_run = refl

segments_run : parse_path_segments (codes "/notes/{n}/parts") ≡ ok path
unfolding braced check_position text_contains ends_with parse_each_segment parse_one_segment
    parse_path_segments render_ancestor_pattern render_segment render_segments validate_from
    validate_segment_shape non_empty parse_path_template parse_segment parse_segments
    parse_substitution split strip_expected_prefix strip_last substitution template_of
segments_run = refl

-- A recursive wildcard behind no fixed prefix.
abbrev open_block : MatchBlock
open_block = record {
  path_pattern = codes "/{document=**}";
  segments = recursive_wildcard ∷ [];
  allow_clauses = (Verb.read ∷ [], codes "true") ∷ [];
}

abbrev open_target : DecomposedTarget
open_target = recursive_wildcard_pattern (record {
  fixed_prefix_pattern = [];
  fixed_prefix_segment_count = 0;
  literal_skeleton_prefix = [];
  read_condition = some (codes "true");
  write_condition = none;
})

open_run : decompose_block ℤ open_block ≡ ok open_target
unfolding double_token exists_token find_matching_paren get_suffix get_token integer_token
    is_whitespace number number_rest parse_i64 quoted span string_token unit_token word_token
    non_empty parse_path_template parse_segment parse_segments parse_substitution split
    strip_expected_prefix strip_last substitution template_of contains_double_star
    detect_unsupported_construct masked parse_condition scan_calls scan_operator scan_token
    scan_word tokenize tokens_from and_loop compare_op compare_right comparison_rest in_list
    list_items next_item or_loop parse_and parse_comparison parse_exists parse_list_literal parse_or
    parse_primary parse_tokens parse_unary parse_word duration_unit expect_amount expect_comma
    expect_l_paren expect_r_paren expect_unit named parse_arithmetic parse_arithmetic_rhs
    parse_base_operand parse_duration_value parse_operand parse_right prefixed_operand
    single_arithmetic word_to_operand even_literals literal_skeleton odd_literals braced
    check_position text_contains ends_with parse_each_segment parse_one_segment parse_path_segments
    render_ancestor_pattern render_segment render_segments validate_from validate_segment_shape
    bucket_clauses bucket_verb bucket_verbs decompose decompose_block decompose_each decompose_fixed
    decompose_recursive decompose_shape fixed_target rewrite_all split_leaf fill_bucket
    wildcard_names matches_here rewrite_from rewrite_path_variable construct_for
open_run = refl

bad_run : decompose_block ℤ bad_block ≡ err (single (codes "/{n}") nested_path)
unfolding decompose_block validate_segment_shape validate_from check_position
bad_run = refl

abbrev bad_rules : Text
bad_rules =
    codes
      "service cloud.firestore { match /databases/{database}/documents { match /{n} { allow read: if n == request.auth.uid; } } }"

bad_parsed_run : parse_rules_file ℤ bad_rules ≡ ok (bad_block ∷ [])
unfolding double_token exists_token find_matching_paren get_suffix get_token integer_token
    is_whitespace number number_rest parse_i64 quoted span string_token unit_token word_token
    non_empty parse_path_template parse_segment parse_segments parse_substitution split
    strip_expected_prefix strip_last substitution template_of braced check_position text_contains
    ends_with parse_each_segment parse_one_segment parse_path_segments render_ancestor_pattern
    render_segment render_segments validate_from validate_segment_shape bracketed closing find_char
    find_char_paren_close find_matching_close find_path_pattern_end keyword pattern_from
    pattern_segment trim trim_end trim_start expand_from expand_function_calls expand_ident
    expand_turn function_block functions_from is_builtin is_function_name is_reserved
    parse_function_blocks return_expression splice blocks_from delineate is_nested
    parse_allow_clauses parse_block_body parse_clause parse_clauses parse_content parse_match_blocks
    parse_nested_match_blocks parse_rules_file parse_verb parse_verbs shell_body verb_named get
    insert
bad_parsed_run = refl

bad_import_run :
    (parse_rules_file ℤ bad_rules >>= decompose ℤ) ≡ err (single (codes "/{n}") nested_path)
unfolding decompose decompose_each
bad_import_run = rw bad_parsed_run (rw bad_run refl)

decompose-parse_rules_file-IsReal_example :
    All IsReal ((single (codes "/{n}") nested_path).offending_blocks)
decompose-parse_rules_file-IsReal_example =
    decompose-parse_rules_file-IsReal ℤ bad_rules (single (codes "/{n}") nested_path) bad_import_run

both_run : decompose ℤ (bad_block ∷ block ∷ []) ≡ err (single (codes "/{n}") nested_path)
unfolding decompose decompose_each
both_run = rw bad_run (rw target_run refl)

parse_rules_file-Imported_example : Imported (block ∷ [])
parse_rules_file-Imported_example = parse_rules_file-Imported ℤ rules (block ∷ []) parsed_run

decompose_iff_example :
    (decompose ℤ (block ∷ []) ≡ ok (target ∷ [])) ↔ Decomposed ℤ (block ∷ []) (target ∷ [])
decompose_iff_example = decompose_iff ℤ (block ∷ []) (target ∷ [])

abbrev bad_offending : OffendingBlock
bad_offending = record { path_pattern = codes "/{n}"; construct = nested_path }

decompose_err_iff_example :
    Names bad_offending (bad_offending ∷ [])
    ↔ Any (λ b. Offends bad_offending (decompose_block ℤ b)) (bad_block ∷ block ∷ [])
decompose_err_iff_example =
    decompose_err_iff ℤ (bad_block ∷ block ∷ []) (single (codes "/{n}") nested_path) bad_offending
      both_run

validate_segment_shape_iff_example :
    (validate_segment_shape path (codes "/notes/{n}/parts") ≡ ok tt) ↔ IsShaped true path
validate_segment_shape_iff_example = validate_segment_shape_iff path (codes "/notes/{n}/parts")

render_ancestor_pattern-parse_path_segments_example :
    (render_ancestor_pattern path ≡ some (strip_slash (codes "/notes/{n}/parts")))
    × (parse_path_segments (strip_slash (codes "/notes/{n}/parts")) ≡ ok path)
render_ancestor_pattern-parse_path_segments_example =
    render_ancestor_pattern-parse_path_segments (codes "/notes/{n}/parts") path segments_run
      (tt, (tt, (tt, tt)))

-- The rendering of a recursive wildcard is the panic of the source.
rendered_recursive_run : render_ancestor_pattern (recursive_wildcard ∷ []) ≡ none
unfolding render_ancestor_pattern render_segments render_segment
rendered_recursive_run = refl

rewrite_path_variable-words_example :
    rewrite_path_variable (codes "n == nn") (codes "n")
    ≡ some (rewrite_words (codes "n") (words (codes "n == nn")))
rewrite_path_variable-words_example =
    rewrite_path_variable-words (codes "n == nn") (codes "n") refl refl

rewrite_path_variable_run :
    rewrite_path_variable (codes "n == nn") (codes "n") ≡ some (codes "request.path.n == nn")
unfolding rewrite_path_variable rewrite_from matches_here
rewrite_path_variable_run = refl

-- A field of the variable's name is rewritten as well.
rewrite_field_run :
    rewrite_path_variable (codes "a.n == n") (codes "n")
    ≡ some (codes "a.request.path.n == request.path.n")
unfolding rewrite_path_variable rewrite_from matches_here
rewrite_field_run = refl
