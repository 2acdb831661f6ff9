-- ===== src/AccessControl/Operands/Proper.antt =====
-- The parsers of words and paths fail with errors of the source's alone.
use embyr_rs.Base.{Option, none, some, List, [], ◌∷◌, ◌≢◌, arith, Result, ok, err, ◌>>=◌}
use embyr_rs.Base.Text.{Text, codes, strip_prefix}
use embyr_rs.AccessControl.Syntax.{Operand}
use embyr_rs.AccessControl.Token.{ConditionParseError, outside_grammar, out_of_fuel}
use embyr_rs.AccessControl.PathTemplates.{
  split, non_empty, substitution, path_variable_segment, parse_substitution, parse_segment,
  parse_segments, template_of, strip_expected_prefix, after_prefix, parse_path_template,
}
use embyr_rs.AccessControl.Operands.{duration_unit, named, prefixed_operand, word_to_operand}

-- The result is no lack of fuel.
abbrev pub IsProper : {A : Type 0} → Result ConditionParseError A → Type 0
IsProper (err e) = e ≢ out_of_fuel
IsProper (ok a) = Unit

pub IsProper->>= :
    {A B : Type 0} (r : Result ConditionParseError A) (f : A → Result ConditionParseError B)
    → IsProper r
    → ((a : A) → IsProper (f a))
    → IsProper (r >>= f)
IsProper->>= (err e) f p q = p
IsProper->>= (ok a) f p q = q a

pub duration_unit-IsProper : (u : Text) → IsProper (duration_unit u)
unfolding duration_unit
duration_unit-IsProper u = ground arith

path_variable_segment-IsProper : (s : Text) → IsProper (path_variable_segment s)
path_variable_segment-IsProper [] = λ e. cc
path_variable_segment-IsProper (a ∷ s) = tt

after_prefix-IsProper :
    {A : Type 0} (o : Option Text) (arm : Text → Result ConditionParseError A)
    (below : Result ConditionParseError A)
    → ((s : Text) → IsProper (arm s))
    → IsProper below
    → IsProper (after_prefix o arm below)
after_prefix-IsProper none arm below p q = q
after_prefix-IsProper (some s) arm below p q = p s

parse_substitution-IsProper : (s : Text) → IsProper (parse_substitution s)
unfolding parse_substitution
parse_substitution-IsProper s = ground (
  arith,
  after_prefix-IsProper (strip_prefix (codes "request.path.") s) path_variable_segment
      (err outside_grammar) path_variable_segment-IsProper (λ e. cc),
)

parse_segment-IsProper : (s : Text) → IsProper (parse_segment s)
unfolding parse_segment
parse_segment-IsProper s =
    after_prefix-IsProper (substitution s) parse_substitution _ parse_substitution-IsProper
      (ground arith)

parse_segments-IsProper : (ss : List Text) → IsProper (parse_segments ss)
unfolding parse_segments
parse_segments-IsProper [] = tt
parse_segments-IsProper (s ∷ ss) =
    IsProper->>= (parse_segment s) _ (parse_segment-IsProper s)
      λ a. IsProper->>= (parse_segments ss) _ (parse_segments-IsProper ss) λ rest. tt

template_of-IsProper : (o : Option (List Text)) → IsProper (template_of o)
unfolding template_of
template_of-IsProper none = λ e. cc
template_of-IsProper (some []) = λ e. cc
template_of-IsProper (some (s ∷ rest)) =
    IsProper->>= (parse_segments (s ∷ rest)) _ (parse_segments-IsProper (s ∷ rest)) λ a. tt

pub parse_path_template-IsProper : (s : Text) → IsProper (parse_path_template s)
unfolding parse_path_template
parse_path_template-IsProper s =
    template_of-IsProper (strip_expected_prefix (non_empty (split b'/' s)))

module _ (F : Type 0) where
  named-IsProper : (f : Text → Operand F) (s : Text) → IsProper (named f s)
  unfolding named
  named-IsProper f [] = λ e. cc
  named-IsProper f (a ∷ s) = tt

  prefixed_operand-IsProper : (w : Text) → IsProper (prefixed_operand {F = F} w)
  unfolding prefixed_operand
  prefixed_operand-IsProper w =
      after_prefix-IsProper (strip_prefix (codes "request.auth.token.") w) _ _ (named-IsProper _) (
        after_prefix-IsProper (strip_prefix (codes "request.path.") w) _ _ (named-IsProper _) (
          after_prefix-IsProper (strip_prefix (codes "request.resource.data.") w) _ _
            (named-IsProper _)
            (after_prefix-IsProper (strip_prefix (codes "resource.data.") w) _ _ (named-IsProper _)
              (λ e. cc))))

  pub word_to_operand-IsProper : (w : Text) → IsProper (word_to_operand {F = F} w)
  unfolding word_to_operand
  word_to_operand-IsProper w = ground (arith, prefixed_operand-IsProper w)
