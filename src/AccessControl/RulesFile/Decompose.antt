-- ===== src/AccessControl/RulesFile/Decompose.antt =====
-- `decompose_block` and `decompose` of rules_file.rs.
pub mod Buckets
pub mod Targets
pub mod Outcomes
pub mod Shaped
pub mod Routing
pub mod NoPanic
use embyr_rs.Base.{
  ℕ, ◌%◌, ◌^◌, ◌==◌, Bool, true, false, Option, none, some, List, [], ◌∷◌, ◌++◌, length,
  if◌then◌else◌, Result, ok, err, ok_or, and_then, last, init, ◌>>=◌, ◌>>◌,
}
use embyr_rs.Base.Text.{Text, text_eq}
use embyr_rs.Domain.FieldValue.{Float}
use embyr_rs.AccessControl.Syntax.{Condition}
use embyr_rs.AccessControl.Token.{ConditionParseError}
use embyr_rs.AccessControl.Tokenizer.{parse_condition}
use embyr_rs.AccessControl.PathRouting.{
  PathSegment, literal, wildcard, recursive_wildcard, literal_skeleton,
}
use embyr_rs.AccessControl.RulesFile.{
  Verb, MatchBlock, DecomposedTarget, single_collection, multi_segment_pattern,
  recursive_wildcard_pattern, OffendingBlock, RulesFileError, single, construct_for, Checked,
  conflicting_conditions, unreachable_construct,
}
use embyr_rs.AccessControl.RulesFile.Segments.{validate_segment_shape, render_ancestor_pattern}
use embyr_rs.AccessControl.RulesFile.Rewrite.{rewrite_path_variable}

abbrev pub Clause : Type 0
Clause = List Verb × Text

-- The read condition and the write condition.
abbrev pub Buckets : Type 0
Buckets = Option Text × Option Text

unfoldable pub wildcard_names : List PathSegment → List Text
wildcard_names [] = []
wildcard_names (wildcard name ∷ segs) = name ∷ wildcard_names segs
wildcard_names (_ ∷ segs) = wildcard_names segs

abbrev pub is_read_verb : Verb → Bool
is_read_verb Verb.read = true
is_read_verb Verb.get = true
is_read_verb Verb.list = true
is_read_verb Verb.write = false
is_read_verb Verb.create = false
is_read_verb Verb.update = false
is_read_verb Verb.delete = false

-- `for var in &wildcard_names { … }`
unfoldable pub rewrite_all : List Text → Text → Option Text
rewrite_all [] condition = some condition
rewrite_all (var ∷ vars) condition =
    and_then (rewrite_path_variable condition var) (rewrite_all vars)

-- The match on a bucket.
unfoldable pub fill_bucket : Text → Text → Option Text → Checked (Option Text)
fill_bucket path_pattern rewritten none = ok (some rewritten)
fill_bucket path_pattern rewritten (some existing) =
    if text_eq existing rewritten
    then ok (some rewritten)
    else err (single path_pattern conflicting_conditions)

unfoldable pub bucket_verb : Text → Text → Bool → Buckets → Checked Buckets
bucket_verb path_pattern rewritten true (read_condition, write_condition) = do
  bucket ← fill_bucket path_pattern rewritten read_condition
  ok (bucket, write_condition)
bucket_verb path_pattern rewritten false (read_condition, write_condition) = do
  bucket ← fill_bucket path_pattern rewritten write_condition
  ok (read_condition, bucket)

unfoldable pub bucket_verbs : Text → Text → List Verb → Buckets → Checked Buckets
bucket_verbs path_pattern rewritten [] buckets = ok buckets
bucket_verbs path_pattern rewritten (verb ∷ verbs) buckets = do
  next ← bucket_verb path_pattern rewritten (is_read_verb verb) buckets
  bucket_verbs path_pattern rewritten verbs next

-- `if let Err(e) = parse_condition(…)`
abbrev pub require_parsed : {A : Type 0} → Text → Result ConditionParseError A → Checked Unit
require_parsed path_pattern (ok condition) = ok tt
require_parsed path_pattern (err e) = err (single path_pattern (construct_for e))

-- The leaf's name, if it is a variable.
abbrev pub variable_name : Option PathSegment → Option Text
variable_name (some (wildcard name)) = some name
variable_name _ = none

abbrev pub name_list : Option Text → List Text
name_list none = []
name_list (some name) = name ∷ []

-- The ancestor, and the leaf of a pattern of even length.
unfoldable pub split_leaf : List PathSegment → List PathSegment × Option PathSegment
split_leaf segments =
    if length segments % 2 == 0 then (init segments, last segments) else (segments, none)

-- `let PathSegment::Literal(collection) = … else { unreachable!(…) }`
abbrev pub single_target : Text → PathSegment → Buckets → Checked DecomposedTarget
single_target path_pattern (literal collection) (read_condition, write_condition) = ok (
    single_collection (record {
      collection_path = collection;
      read_condition = read_condition;
      write_condition = write_condition;
    }))
single_target path_pattern _ buckets = err (single path_pattern unreachable_construct)

-- The rendering is no panic.
abbrev pub rendered : Text → List PathSegment → Checked Text
rendered path_pattern segments =
    ok_or (single path_pattern unreachable_construct) (render_ancestor_pattern segments)

abbrev pub multi_target : Text → List PathSegment → Option Text → Buckets → DecomposedTarget
multi_target pattern ancestor leaf_variable (read_condition, write_condition) =
    multi_segment_pattern (record {
      collection_path_pattern = pattern;
      ancestor_segment_count = length ancestor % 2 ^ 16;
      literal_skeleton = literal_skeleton ancestor;
      leaf_variable = leaf_variable;
      read_condition = read_condition;
      write_condition = write_condition;
    })

-- `if ancestor.len() == 1`
unfoldable pub fixed_target :
    Text → List PathSegment → Option Text → Buckets → Checked DecomposedTarget
fixed_target path_pattern (segment ∷ []) leaf_variable buckets =
    single_target path_pattern segment buckets
fixed_target path_pattern ancestor leaf_variable buckets = do
  pattern ← rendered path_pattern ancestor
  ok (multi_target pattern ancestor leaf_variable buckets)

abbrev pub recursive_target : Text → List PathSegment → Buckets → DecomposedTarget
recursive_target pattern fixed_prefix (read_condition, write_condition) =
    recursive_wildcard_pattern (record {
      fixed_prefix_pattern = pattern;
      fixed_prefix_segment_count = length fixed_prefix % 2 ^ 16;
      literal_skeleton_prefix = literal_skeleton fixed_prefix;
      read_condition = read_condition;
      write_condition = write_condition;
    })

-- One turn of the loop: the targets, or the offending blocks, in front of those behind.
abbrev pub collect_target :
    Checked DecomposedTarget
    → List DecomposedTarget × List OffendingBlock
    → List DecomposedTarget × List OffendingBlock
collect_target (ok target) (targets, offending) = (target ∷ targets, offending)
collect_target (err e) (targets, offending) = (targets, e.offending_blocks ++ offending)

abbrev pub unless_offending :
    List DecomposedTarget × List OffendingBlock → Checked (List DecomposedTarget)
unless_offending (targets, []) = ok targets
unless_offending (targets, offending ∷ more) =
    err (record { offending_blocks = offending ∷ more; partial_blocks = [] })

module _ (F : Type 0) ⦃float : Float F⦄ where
  -- The loop over the clauses, which the source has in both of its branches.
  unfoldable pub bucket_clauses : Text → List Text → List Clause → Buckets → Checked Buckets
  bucket_clauses path_pattern names [] buckets = ok buckets
  bucket_clauses path_pattern names ((verbs, raw_condition) ∷ clauses) buckets = do
    rewritten ← ok_or (single path_pattern unreachable_construct) (rewrite_all names raw_condition)
    require_parsed path_pattern (parse_condition {F = F} rewritten)
    next ← bucket_verbs path_pattern rewritten verbs buckets
    bucket_clauses path_pattern names clauses next

  -- The branch of a pattern that ends in a recursive wildcard, behind the fixed prefix.
  unfoldable pub decompose_recursive : MatchBlock → List PathSegment → Checked DecomposedTarget
  decompose_recursive block fixed_prefix = do
    buckets ←
        bucket_clauses (block.path_pattern) (wildcard_names fixed_prefix) (block.allow_clauses)
          (none, none)
    pattern ← rendered (block.path_pattern) fixed_prefix
    ok (recursive_target pattern fixed_prefix buckets)

  -- The branch of a pattern without a recursive wildcard.
  unfoldable pub decompose_fixed :
      MatchBlock → List PathSegment × Option PathSegment → Checked DecomposedTarget
  decompose_fixed block (ancestor, leaf) = do
    buckets ←
        bucket_clauses (block.path_pattern)
          (wildcard_names ancestor ++ name_list (variable_name leaf)) (block.allow_clauses)
          (none, none)
    fixed_target (block.path_pattern) ancestor (variable_name leaf) buckets

  -- By the last segment. Without one the source panics.
  unfoldable pub decompose_shape : MatchBlock → Option PathSegment → Checked DecomposedTarget
  decompose_shape block none = err (single (block.path_pattern) unreachable_construct)
  decompose_shape block (some recursive_wildcard) =
      decompose_recursive block (init (block.segments))
  decompose_shape block (some (literal s)) = decompose_fixed block (split_leaf (block.segments))
  decompose_shape block (some (wildcard v)) = decompose_fixed block (split_leaf (block.segments))

  unfoldable pub decompose_block : MatchBlock → Checked DecomposedTarget
  decompose_block block = do
    validate_segment_shape (block.segments) (block.path_pattern)
    decompose_shape block (last (block.segments))

  unfoldable pub decompose_each : List MatchBlock → List DecomposedTarget × List OffendingBlock
  decompose_each [] = ([], [])
  decompose_each (block ∷ blocks) = collect_target (decompose_block block) (decompose_each blocks)

  unfoldable pub decompose : List MatchBlock → Checked (List DecomposedTarget)
  decompose blocks = unless_offending (decompose_each blocks)
