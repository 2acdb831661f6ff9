-- ===== src/AccessControl/RulesFile/Reports.antt =====
-- The offending blocks that a failure of rules_file.rs names.
use embyr_rs.Base.{
  Bool, true, false, not, Option, none, some, List, [], ◌∷◌, ◌≡◌, ◌≢◌, Result, ok, err, ok_or,
  if◌then◌else◌, last, ◌>>=◌, ◌>>◌, subst,
}
use embyr_rs.Base.Text.{Text, text_eq}
use embyr_rs.Domain.FieldValue.{Float}
use embyr_rs.AccessControl.Token.{ConditionParseError}
use embyr_rs.AccessControl.Tokenizer.{parse_condition}
use embyr_rs.AccessControl.PathRouting.{PathSegment, literal, wildcard, recursive_wildcard}
use embyr_rs.AccessControl.RulesFile.{
  DecomposedTarget, Verb, MatchBlock, RulesFileError, Construct, single, unreachable_construct,
  Checked,
}
use embyr_rs.AccessControl.RulesFile.Segments.{
  render_ancestor_pattern, is_last, check_position, validate_from, validate_segment_shape,
}
use embyr_rs.AccessControl.RulesFile.Decompose.{
  Clause, Buckets, is_read_verb, rewrite_all, fill_bucket, bucket_verb, bucket_verbs,
  require_parsed, rendered, multi_target, recursive_target, fixed_target, bucket_clauses,
  decompose_recursive, decompose_fixed, decompose_shape, decompose_block,
}

-- The result is no error without an offending block.
abbrev pub Reports : {A : Type 0} → Checked A → Type 0
Reports (ok a) = Unit
Reports (err e) = e.offending_blocks ≢ []

pub Reports->>= :
    {A B : Type 0} (r : Checked A) (f : A → Checked B)
    → Reports r
    → ((a : A) → Reports (f a))
    → Reports (r >>= f)
Reports->>= (err e) f p q = p
Reports->>= (ok a) f p q = q a

pub Reports->> :
    {A B : Type 0} (r : Checked A) (s : Checked B) → Reports r → Reports s → Reports (r >> s)
Reports->> (err e) s p q = p
Reports->> (ok a) s p q = q

pub Reports-if :
    {A : Type 0} (b : Bool) (r s : Checked A) → Reports r → Reports s → Reports (if b then r else s)
Reports-if true r s p q = p
Reports-if false r s p q = q

pub Reports-ok_or :
    {A : Type 0} (p : Text) (c : Construct) (o : Option A) → Reports (ok_or (single p c) o)
Reports-ok_or p c none = λ e. cc
Reports-ok_or p c (some a) = tt

check_position-Reports :
    (seg : PathSegment) (even : Bool) (rest : List PathSegment) (p : Text)
    → Reports (check_position seg even rest p)
unfolding check_position
check_position-Reports (literal s) even rest p = tt
check_position-Reports (wildcard v) even rest p = Reports-if even _ _ (λ e. cc) tt
check_position-Reports recursive_wildcard even rest p =
    Reports-if (not (is_last rest)) _ _ (λ e. cc) (Reports-if (not even) _ _ (λ e. cc) tt)

validate_from-Reports :
    (even : Bool) (segs : List PathSegment) (p : Text) → Reports (validate_from even segs p)
unfolding validate_from
validate_from-Reports even [] p = tt
validate_from-Reports even (s ∷ segs) p =
    Reports->> (check_position s even segs p) _ (check_position-Reports s even segs p)
      (validate_from-Reports (not even) segs p)

fill_bucket-Reports : (p r : Text) (o : Option Text) → Reports (fill_bucket p r o)
unfolding fill_bucket
fill_bucket-Reports p r none = tt
fill_bucket-Reports p r (some s) = Reports-if (text_eq s r) _ _ tt (λ e. cc)

bucket_verb-Reports : (p r : Text) (k : Bool) (b : Buckets) → Reports (bucket_verb p r k b)
unfolding bucket_verb
bucket_verb-Reports p r true (x, y) =
    Reports->>= (fill_bucket p r x) _ (fill_bucket-Reports p r x) λ o. tt
bucket_verb-Reports p r false (x, y) =
    Reports->>= (fill_bucket p r y) _ (fill_bucket-Reports p r y) λ o. tt

bucket_verbs-Reports : (p r : Text) (vs : List Verb) (b : Buckets) → Reports (bucket_verbs p r vs b)
unfolding bucket_verbs
bucket_verbs-Reports p r [] b = tt
bucket_verbs-Reports p r (v ∷ vs) b =
    Reports->>= (bucket_verb p r (is_read_verb v) b) _ (bucket_verb-Reports p r (is_read_verb v) b)
      (bucket_verbs-Reports p r vs)

require_parsed-Reports :
    {A : Type 0} (p : Text) (r : Result ConditionParseError A) → Reports (require_parsed p r)
require_parsed-Reports p (ok a) = tt
require_parsed-Reports p (err e) = λ e. cc

stored-Reports :
    (p : Text) (segs : List PathSegment) (f : Text → DecomposedTarget)
    → Reports (rendered p segs >>= λ r. ok (f r))
stored-Reports p segs f =
    Reports->>= (rendered p segs) _
      (Reports-ok_or p unreachable_construct (render_ancestor_pattern segs)) λ r. tt

fixed_target-Reports :
    (p : Text) (ancestor : List PathSegment) (leaf : Option Text) (b : Buckets)
    → Reports (fixed_target p ancestor leaf b)
unfolding fixed_target
fixed_target-Reports p [] leaf b = stored-Reports p [] (λ r. multi_target r [] leaf b)
fixed_target-Reports p (literal s ∷ []) leaf b = tt
fixed_target-Reports p (wildcard s ∷ []) leaf b = λ e. cc
fixed_target-Reports p (recursive_wildcard ∷ []) leaf b = λ e. cc
fixed_target-Reports p (s ∷ t ∷ segs) leaf b =
    stored-Reports p (s ∷ t ∷ segs) (λ r. multi_target r (s ∷ t ∷ segs) leaf b)

reported :
    {A : Type 0} {r : Checked A} {e : RulesFileError}
    → Reports r
    → r ≡ err e
    → e.offending_blocks ≢ []
reported p h = subst Reports h p

module _ (F : Type 0) ⦃float : Float F⦄ where
  bucket_clauses-Reports :
      (p : Text) (names : List Text) (clauses : List Clause) (b : Buckets)
      → Reports (bucket_clauses F p names clauses b)
  unfolding bucket_clauses
  bucket_clauses-Reports p names [] b = tt
  bucket_clauses-Reports p names ((vs, raw) ∷ clauses) b =
      Reports->>= (ok_or (single p unreachable_construct) (rewrite_all names raw)) _
        (Reports-ok_or p unreachable_construct (rewrite_all names raw))
        λ r.
          Reports->> (require_parsed p (parse_condition {F = F} r)) _
            (require_parsed-Reports p (parse_condition {F = F} r))
            (Reports->>= (bucket_verbs p r vs b) _ (bucket_verbs-Reports p r vs b)
              (bucket_clauses-Reports p names clauses))

  decompose_fixed-Reports :
      (b : MatchBlock) (a : List PathSegment) (l : Option PathSegment)
      → Reports (decompose_fixed F b (a, l))
  unfolding decompose_fixed
  decompose_fixed-Reports b a l =
      Reports->>= (bucket_clauses F (b.path_pattern) _ (b.allow_clauses) (none, none)) _
        (bucket_clauses-Reports (b.path_pattern) _ (b.allow_clauses) (none, none))
        (fixed_target-Reports (b.path_pattern) a _)

  decompose_shape-Reports :
      (b : MatchBlock) (o : Option PathSegment) → Reports (decompose_shape F b o)
  unfolding decompose_shape decompose_recursive
  decompose_shape-Reports b none = λ e. cc
  decompose_shape-Reports b (some recursive_wildcard) =
      Reports->>= (bucket_clauses F (b.path_pattern) _ (b.allow_clauses) (none, none)) _
        (bucket_clauses-Reports (b.path_pattern) _ (b.allow_clauses) (none, none))
        λ x. stored-Reports (b.path_pattern) _ (λ r. recursive_target r _ x)
  decompose_shape-Reports b (some (literal s)) = decompose_fixed-Reports b _ _
  decompose_shape-Reports b (some (wildcard v)) = decompose_fixed-Reports b _ _

  pub decompose_block-Reports :
      (b : MatchBlock) (e : RulesFileError) → decompose_block F b ≡ err e → e.offending_blocks ≢ []
  unfolding decompose_block validate_segment_shape
  decompose_block-Reports b e h =
      reported
        (Reports->> (validate_segment_shape (b.segments) (b.path_pattern)) _
          (validate_from-Reports true (b.segments) (b.path_pattern))
          (decompose_shape-Reports b (last (b.segments))))
        h
