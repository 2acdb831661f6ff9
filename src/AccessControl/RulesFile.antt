-- ===== src/AccessControl/RulesFile.antt =====
-- access_control/rules_file.rs: the types of a rules file and its errors. An error's text is left out;
-- `unreachable_construct` is the model's own: a loop that runs out of fuel, or a panic of the source.
pub mod Segments
pub mod Shell
pub mod Functions
pub mod Blocks
pub mod Rewrite
pub mod Decompose
pub mod Reports
pub mod Import
pub mod Ends
use embyr_rs.Base.{ℕ, Option, List, [], ◌∷◌, Result, ok, err}
use embyr_rs.Base.Text.{Text}
use embyr_rs.AccessControl.Token.{
  ConditionParseError, syntax_error, unsupported_construct, custom_function, wildcard_path,
  unsupported_expression_grammar, out_of_fuel,
}
use embyr_rs.AccessControl.PathRouting.{PathSegment}

pub data Verb : Type 0 where
  read get list write create update delete : Verb

-- The names that the source gives to what is out of scope.
pub data Construct : Type 0 where
  syntax_construct custom_function_construct nested_path expression_grammar : Construct
  function_parameters duplicate_function undefined_function conflicting_conditions : Construct
  wildcard_not_terminal wildcard_odd_prefix : Construct
  unreachable_construct : Construct

pub record MatchBlock : Type 0 where
  pub path_pattern : Text
  pub segments : List PathSegment
  pub allow_clauses : List (List Verb × Text)

pub record DecomposedRule : Type 0 where
  pub collection_path : Text
  pub read_condition : Option Text
  pub write_condition : Option Text

pub record DecomposedPatternRule : Type 0 where
  pub collection_path_pattern : Text
  pub ancestor_segment_count : ℕ
  pub literal_skeleton : Text
  pub leaf_variable : Option Text
  pub read_condition : Option Text
  pub write_condition : Option Text

pub record DecomposedRecursivePattern : Type 0 where
  pub fixed_prefix_pattern : Text
  pub fixed_prefix_segment_count : ℕ
  pub literal_skeleton_prefix : Text
  pub read_condition : Option Text
  pub write_condition : Option Text

pub data DecomposedTarget : Type 0 where
  single_collection : DecomposedRule → DecomposedTarget
  multi_segment_pattern : DecomposedPatternRule → DecomposedTarget
  recursive_wildcard_pattern : DecomposedRecursivePattern → DecomposedTarget

pub record OffendingBlock : Type 0 where
  pub path_pattern : Text
  pub construct : Construct

pub record RulesFileError : Type 0 where
  pub offending_blocks : List OffendingBlock
  pub partial_blocks : List MatchBlock

-- `RulesFileError::single`
abbrev pub single : Text → Construct → RulesFileError
single path_pattern construct = record {
  offending_blocks = (record { path_pattern = path_pattern; construct = construct }) ∷ [];
  partial_blocks = [];
}

abbrev pub shell_syntax_error : RulesFileError
shell_syntax_error = single [] syntax_construct

unfoldable pub construct_for : ConditionParseError → Construct
construct_for syntax_error = syntax_construct
construct_for (unsupported_construct custom_function) = custom_function_construct
construct_for (unsupported_construct wildcard_path) = nested_path
construct_for (unsupported_construct unsupported_expression_grammar) = expression_grammar
construct_for out_of_fuel = unreachable_construct

-- What the functions of the module return.
abbrev pub Checked : Type 0 → Type 0
Checked A = Result RulesFileError A
