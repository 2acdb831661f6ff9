-- ===== src/AccessControl/RulesFile/Blocks.antt =====
-- `parse_rules_file` of rules_file.rs: the shells, the match blocks with those inside them, and their
-- `allow` clauses. The scan of the blocks runs on fuel, one unit for each block and each level.
pub mod Holds
pub mod Paths
pub mod WellFormed
pub mod Clauses
pub mod Total
use embyr_rs.Base.{
  ℕ, zero, suc, ◌==◌, Bool, true, false, not, ◌&&◌, ◌||◌, Option, none, some, List, [], ◌∷◌, ◌++◌,
  length, if◌then◌else◌, ok, err, ok_or, and_then, ◌>>=◌, ◌>>◌,
}
use embyr_rs.Base.Text.{Text, codes, text_eq, strip_prefix}
use embyr_rs.Base.Dict.{Dict}
use embyr_rs.Domain.FieldValue.{Float}
use embyr_rs.AccessControl.PathTemplates.{split}
use embyr_rs.AccessControl.PathRouting.{PathSegment}
use embyr_rs.AccessControl.RulesFile.{
  Verb, MatchBlock, OffendingBlock, RulesFileError, single, shell_syntax_error, syntax_construct,
  unreachable_construct, Checked,
}
use embyr_rs.AccessControl.RulesFile.Segments.{parse_path_segments}
use embyr_rs.AccessControl.RulesFile.Shell.{
  trim, trim_start, is_empty, starts_with_space, keyword, find_char, find_matching_close,
  find_path_pattern_end,
}
use embyr_rs.AccessControl.RulesFile.Functions.{guard, parse_function_blocks, expand_function_calls}
use embyr_rs.AccessControl.RulesFile.Decompose.{Clause}

unfoldable pub verb_named : Text → Option Verb
verb_named v =
    if text_eq v (codes "read")
    then some Verb.read
    else if text_eq v (codes "get")
    then some Verb.get
    else if text_eq v (codes "list")
    then some Verb.list
    else if text_eq v (codes "write")
    then some Verb.write
    else if text_eq v (codes "create")
    then some Verb.create
    else if text_eq v (codes "update")
    then some Verb.update
    else if text_eq v (codes "delete")
    then some Verb.delete
    else none

unfoldable pub parse_verb : Text → Text → Checked Verb
parse_verb v path_pattern = ok_or (single path_pattern syntax_construct) (verb_named v)

unfoldable pub parse_verbs : List Text → Text → Checked (List Verb)
parse_verbs [] path_pattern = ok []
parse_verbs (v ∷ vs) path_pattern = do
  verb ← parse_verb (trim v) path_pattern
  verbs ← parse_verbs vs path_pattern
  ok (verb ∷ verbs)

abbrev pub has_verbs : List Verb → Bool
has_verbs [] = false
has_verbs (_ ∷ _) = true

abbrev pub space_or_end : Text → Bool
space_or_end s = is_empty s || starts_with_space s

-- A clause that is not empty.
unfoldable pub parse_clause : Text → Text → Dict Text → Checked Clause
parse_clause clause path_pattern functions = do
  after_allow ←
      ok_or (single path_pattern syntax_construct)
        (keyword (codes "allow") starts_with_space clause)
  (verb_text, rest) ←
      ok_or (single path_pattern syntax_construct) (find_char b':' (trim_start after_allow))
  verbs ← parse_verbs (split b',' verb_text) path_pattern
  guard (has_verbs verbs) (single path_pattern syntax_construct)
  after_if ←
      ok_or (single path_pattern syntax_construct) (keyword (codes "if") space_or_end (trim rest))
  guard (not (is_empty (trim after_if))) (single path_pattern syntax_construct)
  expanded ← expand_function_calls (trim after_if) functions path_pattern
  ok (verbs, expanded)

-- The clauses between the semicolons, the empty ones skipped.
unfoldable pub parse_clauses : List Text → Text → Dict Text → Checked (List Clause)
parse_clauses [] path_pattern functions = ok []
parse_clauses (raw_clause ∷ raw_clauses) path_pattern functions =
    let later = parse_clauses raw_clauses path_pattern functions in
    if is_empty (trim raw_clause) then later else do
      clause ← parse_clause (trim raw_clause) path_pattern functions
      clauses ← later
      ok (clause ∷ clauses)

abbrev pub some_clause : Text → List Clause → Checked (List Clause)
some_clause path_pattern [] = err (single path_pattern syntax_construct)
some_clause path_pattern (clause ∷ clauses) = ok (clause ∷ clauses)

unfoldable pub parse_allow_clauses : Text → Text → Dict Text → Checked (List Clause)
parse_allow_clauses block_body path_pattern functions = do
  clauses ← parse_clauses (split b';' block_body) path_pattern functions
  some_clause path_pattern clauses

-- The match block that the text begins with: its own pattern, its body, and the text behind it.
unfoldable pub delineate : Text → Checked (Text × Text × Text)
delineate body = do
  rest ← ok_or shell_syntax_error (keyword (codes "match") starts_with_space body)
  (pattern, after_pattern) ← find_path_pattern_end (trim_start rest)
  (block_body, after_block) ←
      ok_or shell_syntax_error (find_matching_close (trim_start after_pattern))
  ok (trim pattern, block_body, after_block)

-- The blocks and the offending blocks of the scan.
abbrev pub Found : Type 0
Found = List MatchBlock × List OffendingBlock

abbrev pub collect_blocks : Checked (List MatchBlock) → Found → Found
collect_blocks (ok nested) (blocks, offending) = (nested ++ blocks, offending)
collect_blocks (err e) (blocks, offending) = (blocks, e.offending_blocks ++ offending)

abbrev pub without_offending : Found → Checked (List MatchBlock)
without_offending (blocks, []) = ok blocks
without_offending (blocks, o ∷ os) =
    err (record { offending_blocks = o ∷ os; partial_blocks = blocks })

-- The loop ends at the end of the text.
abbrev pub until_empty : Text → Checked Found → Checked Found
until_empty [] found = ok ([], [])
until_empty (c ∷ s) found = found

unfoldable pub is_nested : Text → Bool
is_nested block_body = elim (keyword (codes "match") starts_with_space (trim_start block_body)) [
  | some _ ↦ true
  | none ↦ false
]

abbrev pub leaf_block : Text → Text → List PathSegment → Dict Text → Checked (List MatchBlock)
leaf_block block_body full_path_pattern full_segments functions = do
  allow_clauses ← parse_allow_clauses block_body full_path_pattern functions
  ok (
      (record {
        path_pattern = full_path_pattern;
        segments = full_segments;
        allow_clauses = allow_clauses;
      })
      ∷ [])

-- The scan of a body under a pattern's text and segments, which `parse_block_body` calls in turn.
abbrev pub BlockScan : Type 0
BlockScan = Text → Text → List PathSegment → Checked Found

unfoldable pub parse_block_body :
    BlockScan → Text → Text → List PathSegment → Dict Text → Checked (List MatchBlock)
parse_block_body scan block_body full_path_pattern full_segments functions =
    let nested = scan block_body full_path_pattern full_segments in
    if is_nested block_body
    then nested >>= without_offending
    else leaf_block block_body full_path_pattern full_segments functions

-- The part of a turn that does not end the loop.
unfoldable pub parse_content :
    BlockScan → Text → Text → Text → List PathSegment → Dict Text → Checked (List MatchBlock)
parse_content scan pattern block_body parent_path_text parent_segments functions = do
  local_segments ← parse_path_segments pattern
  parse_block_body scan block_body (parent_path_text ++ pattern) (parent_segments ++ local_segments)
      functions

unfoldable pub blocks_from : ℕ → Dict Text → Text → Text → List PathSegment → Checked Found
blocks_from zero functions body parent_path_text parent_segments =
    err (single [] unreachable_construct)
blocks_from (suc n) functions body parent_path_text parent_segments =
    until_empty (trim_start body) (do
      (pattern, block_body, rest) ← delineate (trim_start body)
      found ← blocks_from n functions rest parent_path_text parent_segments
      ok (
          collect_blocks
            (parse_content (blocks_from n functions) pattern block_body parent_path_text
              parent_segments functions)
            found))

unfoldable pub parse_nested_match_blocks :
    Text → Text → List PathSegment → Dict Text → Checked (List MatchBlock)
parse_nested_match_blocks body parent_path_text parent_segments functions = do
  found ← blocks_from (suc (length body)) functions body parent_path_text parent_segments
  without_offending found

abbrev pub some_block : List MatchBlock → Checked (List MatchBlock)
some_block [] = err shell_syntax_error
some_block (block ∷ blocks) = ok (block ∷ blocks)

unfoldable pub parse_match_blocks : Text → Dict Text → Checked (List MatchBlock)
parse_match_blocks body functions = do
  blocks ← parse_nested_match_blocks body [] [] functions
  some_block blocks

-- A shell: the words before its brace, and nothing behind the closing one.
unfoldable pub shell_body : Text → Text → Checked Text
shell_body words s = do
  after_words ← ok_or shell_syntax_error (strip_prefix words s)
  (body, rest) ← ok_or shell_syntax_error (find_matching_close (trim_start after_words))
  guard (is_empty (trim rest)) shell_syntax_error
  ok (trim body)

module _ (F : Type 0) ⦃float : Float F⦄ where
  unfoldable pub parse_rules_file : Text → Checked (List MatchBlock)
  parse_rules_file source = do
    service_body ← shell_body (codes "service cloud.firestore") (trim source)
    (functions, rest) ← parse_function_blocks F service_body
    documents_body ← shell_body (codes "match /databases/{database}/documents") rest
    parse_match_blocks documents_body functions
