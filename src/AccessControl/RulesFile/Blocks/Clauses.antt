-- ===== src/AccessControl/RulesFile/Blocks/Clauses.antt =====
-- The path patterns and the clauses of a block end, and fail with errors of the source's alone.
use embyr_rs.Base.{Bool, not, Option, none, some, List, [], ◌∷◌, ok_or, ◌>>=◌, ◌>>◌}
use embyr_rs.Base.Text.{Text, codes}
use embyr_rs.Base.Dict.{Dict}
use embyr_rs.AccessControl.PathTemplates.{split}
use embyr_rs.AccessControl.PathRouting.{PathSegment}
use embyr_rs.AccessControl.RulesFile.{single, syntax_construct, Checked}
use embyr_rs.AccessControl.RulesFile.Ends.{Ends, Ends->>=, Ends->>, Ends-if, Ends-ok_or, guard-Ends}
use embyr_rs.AccessControl.RulesFile.Segments.{
  text_contains, ends_with, braced, variable_segment, literal_segment, segment_of,
  parse_one_segment, parse_each_segment, split_non_empty,
}
use embyr_rs.AccessControl.RulesFile.Shell.{
  trim, trim_start, is_empty, starts_with_space, keyword, find_char,
}
use embyr_rs.AccessControl.RulesFile.Functions.{guard, expand_function_calls}
use embyr_rs.AccessControl.RulesFile.Functions.Total.{expand_function_calls-Ends}
use embyr_rs.AccessControl.RulesFile.Decompose.{Clause}
use embyr_rs.AccessControl.RulesFile.Blocks.{
  verb_named, parse_verb, parse_verbs, has_verbs, space_or_end, parse_clause, parse_clauses,
  some_clause, parse_allow_clauses, leaf_block,
}

-- A result without a condition on its value.
abbrev pub Halts : {A : Type 0} → Checked A → Type 0
Halts r = Ends (λ a. Unit) r

pub then-Halts :
    {A B : Type 0} (r : Checked A) (f : A → Checked B)
    → Halts r
    → ((a : A) → Halts (f a))
    → Halts (r >>= f)
then-Halts r f p q = Ends->>= (λ a. Unit) (λ b. Unit) r f p λ a u. q a

pub or-Halts : {A : Type 0} (p : Text) (o : Option A) → Halts (ok_or (single p syntax_construct) o)
or-Halts p o = Ends-ok_or (λ a. Unit) p syntax_construct o (λ e. cc) λ a e. tt

pub guarded :
    {A : Type 0} (b : Bool) (p : Text) (r : Checked A)
    → Halts r
    → Halts (guard b (single p syntax_construct) >> r)
guarded b p r h =
    Ends->> (λ a. Unit) (guard b (single p syntax_construct)) r
      (guard-Ends b p syntax_construct (λ e. cc)) h

variable_segment-Halts : (p s : Text) → Halts (variable_segment p s)
variable_segment-Halts p [] = (λ e. cc, tt)
variable_segment-Halts p (c ∷ s) = tt

literal_segment-Halts : (p s : Text) → Halts (literal_segment p s)
literal_segment-Halts p [] = (λ e. cc, tt)
literal_segment-Halts p (c ∷ s) = tt

segment_of-Halts : (o : Option Text) (s p : Text) → Halts (segment_of o s p)
segment_of-Halts none s p =
    Ends-if (λ a. Unit) (text_contains s (codes "**")) _ _ tt (literal_segment-Halts p s)
segment_of-Halts (some i) s p =
    Ends-if (λ a. Unit) (ends_with i (codes "=**")) _ _ tt (variable_segment-Halts p i)

pub parse_each_segment-Halts : (ss : List Text) (p : Text) → Halts (parse_each_segment ss p)
unfolding parse_each_segment parse_one_segment
parse_each_segment-Halts [] p = tt
parse_each_segment-Halts (s ∷ ss) p =
    then-Halts (parse_one_segment s p) _ (segment_of-Halts (braced s) s p)
      λ a. then-Halts (parse_each_segment ss p) _ (parse_each_segment-Halts ss p) λ b. tt

pub split_non_empty-Halts : (s p : Text) → Halts (split_non_empty s p)
split_non_empty-Halts [] p = (λ e. cc, tt)
split_non_empty-Halts (c ∷ s) p = parse_each_segment-Halts (split b'/' (c ∷ s)) p

parse_verbs-Halts : (vs : List Text) (p : Text) → Halts (parse_verbs vs p)
unfolding parse_verbs parse_verb
parse_verbs-Halts [] p = tt
parse_verbs-Halts (v ∷ vs) p =
    then-Halts (parse_verb (trim v) p) _ (or-Halts p (verb_named (trim v)))
      λ a. then-Halts (parse_verbs vs p) _ (parse_verbs-Halts vs p) λ b. tt

parse_clause-Halts :
    (clause p : Text) (functions : Dict Text) → Halts (parse_clause clause p functions)
unfolding parse_clause
parse_clause-Halts clause p functions =
    then-Halts _ _ (or-Halts p (keyword (codes "allow") starts_with_space clause)) λ a.
      then-Halts _ _ (or-Halts p (find_char b':' (trim_start a))) λ v.
        then-Halts _ _ (parse_verbs-Halts (split b',' (v.0)) p) λ verbs.
          guarded (has_verbs verbs) p _ (
            then-Halts _ _ (or-Halts p (keyword (codes "if") space_or_end (trim (v.1)))) λ c.
              guarded (not (is_empty (trim c))) p _ (
                then-Halts (expand_function_calls (trim c) functions p) _
                  (expand_function_calls-Ends (trim c) functions p) λ e. tt))

parse_clauses-Halts :
    (cs : List Text) (p : Text) (functions : Dict Text) → Halts (parse_clauses cs p functions)
unfolding parse_clauses
parse_clauses-Halts [] p functions = tt
parse_clauses-Halts (c ∷ cs) p functions =
    Ends-if (λ a. Unit) (is_empty (trim c)) _ _ (parse_clauses-Halts cs p functions)
      (then-Halts _ _ (parse_clause-Halts (trim c) p functions)
        λ a. then-Halts _ _ (parse_clauses-Halts cs p functions) λ b. tt)

some_clause-Halts : (p : Text) (cs : List Clause) → Halts (some_clause p cs)
some_clause-Halts p [] = (λ e. cc, tt)
some_clause-Halts p (c ∷ cs) = tt

pub leaf_block-Halts :
    (body path : Text) (segs : List PathSegment) (functions : Dict Text)
    → Halts (leaf_block body path segs functions)
unfolding parse_allow_clauses
leaf_block-Halts body path segs functions =
    then-Halts (parse_allow_clauses body path functions) _
      (then-Halts _ _ (parse_clauses-Halts (split b';' body) path functions)
        (some_clause-Halts path))
      λ cs. tt
