-- ===== src/AccessControl/PathRouting.antt =====
-- access_control/path_routing.rs: matching of path patterns, at request time and at import time.
pub mod Binding
pub mod Overlap
pub mod Relation
pub mod Skeleton
pub mod Reach
use embyr_rs.Base.{
  ℕ, ◌-◌, ◌==◌, ltb, Bool, true, false, ◌&&◌, Option, none, some, List, [], ◌∷◌, ◌++◌, length,
  if◌then◌else◌,
}
use embyr_rs.Base.Text.{Text, codes, text_eq, join}
use embyr_rs.Base.Dict.{Dict, insert}

-- `PathSegment` of rules_file.rs.
pub data PathSegment : Type 0 where
  literal : Text → PathSegment
  wildcard : Text → PathSegment
  recursive_wildcard : PathSegment

-- The collection names: the literals at even positions.
unfoldable mutual
  pub even_literals : List PathSegment → List Text
  even_literals [] = []
  even_literals (literal s ∷ segs) = s ∷ odd_literals segs
  even_literals (_ ∷ segs) = odd_literals segs

  pub odd_literals : List PathSegment → List Text
  odd_literals [] = []
  odd_literals (_ ∷ segs) = even_literals segs

unfoldable pub literal_skeleton : List PathSegment → Text
unfolding even_literals
literal_skeleton ancestor_segments = join (codes "/") (even_literals ancestor_segments)

unfoldable pub positions_compatible : PathSegment → PathSegment → Bool
positions_compatible recursive_wildcard _ = false
positions_compatible (literal x) recursive_wildcard = false
positions_compatible (wildcard v) recursive_wildcard = false
positions_compatible (literal x) (literal y) = text_eq x y
positions_compatible (wildcard v) (literal y) = true
positions_compatible (literal x) (wildcard w) = true
positions_compatible (wildcard v) (wildcard w) = true

-- `zip(…).all(…)`: the longer list's rest is not looked at.
abbrev pub zip_all : (PathSegment → PathSegment → Bool) → List PathSegment → List PathSegment → Bool
zip_all p [] ys = true
zip_all p (x ∷ xs) [] = true
zip_all p (x ∷ xs) (y ∷ ys) = p x y && zip_all p xs ys

unfoldable pub structurally_overlap : List PathSegment → List PathSegment → Bool
structurally_overlap a b = length a == length b && zip_all positions_compatible a b

-- What a position adds to the bindings.
abbrev pub bind_position : PathSegment → PathSegment → Dict Text → Dict Text
bind_position (wildcard name) (literal value) bindings = insert name value bindings
bind_position _ _ bindings = bindings

-- The loop that `bind_ancestor` and `bind_recursive_prefix` both contain.
unfoldable pub bind_positions : List PathSegment → List PathSegment → Dict Text → Option (Dict Text)
unfolding positions_compatible
bind_positions [] concrete bindings = some bindings
bind_positions (p ∷ ps) [] bindings = some bindings
bind_positions (p ∷ ps) (c ∷ cs) bindings =
    let rest = bind_positions ps cs (bind_position p c bindings) in
    if positions_compatible p c then rest else none

unfoldable pub bind_ancestor : List PathSegment → List PathSegment → Option (Dict Text)
bind_ancestor pattern_ancestor concrete_ancestor =
    if length pattern_ancestor == length concrete_ancestor
    then bind_positions pattern_ancestor concrete_ancestor []
    else none

abbrev pub with_remainder : ℕ → Option (Dict Text) → Option (Dict Text × ℕ)
with_remainder n none = none
with_remainder n (some bindings) = some (bindings, n)

unfoldable pub bind_recursive_prefix : List PathSegment → List PathSegment → Option (Dict Text × ℕ)
bind_recursive_prefix prefix concrete_full_path =
    if ltb (length concrete_full_path) (length prefix)
    then none
    else with_remainder (length concrete_full_path - length prefix)
        (bind_positions prefix concrete_full_path [])

unfoldable pub generalizes : PathSegment → PathSegment → Bool
generalizes (literal x) (literal y) = text_eq x y
generalizes (wildcard v) _ = true
generalizes (literal x) (wildcard w) = false
generalizes recursive_wildcard _ = false
generalizes (literal x) recursive_wildcard = false

unfoldable pub fixed_depth_full_reach : List PathSegment → List PathSegment
fixed_depth_full_reach ancestor = ancestor ++ wildcard [] ∷ []

pub data PrefixRelation : Type 0 where
  disjoint : PrefixRelation
  contains : Bool → PrefixRelation
  ambiguous_overlap : PrefixRelation

-- The two tests on prefixes of different lengths.
unfoldable pub classify_unequal : List PathSegment → List PathSegment → Bool → PrefixRelation
classify_unequal shorter longer deeper_is_b =
    if zip_all generalizes shorter longer
    then contains deeper_is_b
    else if zip_all positions_compatible shorter longer
    then ambiguous_overlap
    else disjoint

unfoldable pub classify_prefix_relation : List PathSegment → List PathSegment → PrefixRelation
classify_prefix_relation a b =
    if length a == length b
    then (if structurally_overlap a b then ambiguous_overlap else disjoint)
    else if ltb (length a) (length b)
    then classify_unequal a b true
    else classify_unequal b a false
