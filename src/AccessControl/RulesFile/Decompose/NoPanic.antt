-- ===== src/AccessControl/RulesFile/Decompose/NoPanic.antt =====
-- How the decomposition of blocks from a parsed file ends: what could run out of fuel, or panic.
use embyr_rs.Base.{
  Bool, true, false, not, Option, none, some, List, [], ◌∷◌, All, ◌≡◌, ◌≢◌, refl, subst, sym, ok,
  err, ok_or, ◌>>=◌, last, init, Result-cases, inl, inr,
}
use embyr_rs.Base.Text.{Text, text_eq}
use embyr_rs.Domain.FieldValue.{Float}
use embyr_rs.AccessControl.Tokenizer.{parse_condition}
use embyr_rs.AccessControl.Tokenizer.Total.{parse_condition-ends}
use embyr_rs.AccessControl.PathTemplates.{strip_last}
use embyr_rs.AccessControl.PathRouting.{PathSegment, literal, wildcard, recursive_wildcard}
use embyr_rs.AccessControl.PathRouting.Skeleton.{IsRouted}
use embyr_rs.AccessControl.RulesFile.{
  Verb, MatchBlock, DecomposedTarget, RulesFileError, single, syntax_construct,
  unreachable_construct,
}
use embyr_rs.AccessControl.RulesFile.Ends.{
  IsReal, Ends, Ends->>=, Ends->>, Ends-if, require_parsed-Ends,
}
use embyr_rs.AccessControl.RulesFile.Segments.{
  is_last, check_position, validate_from, validate_segment_shape, parse_one_segment, braced,
  ends_with,
}
use embyr_rs.AccessControl.RulesFile.Segments.Rendering.{
  IsNamed, written, render_ancestor_pattern-written,
}
use embyr_rs.AccessControl.RulesFile.Segments.RoundTrip.{IsWritten}
use embyr_rs.AccessControl.RulesFile.Rewrite.Total.{rewrite_path_variable-some}
use embyr_rs.AccessControl.RulesFile.Decompose.{
  Clause, Buckets, wildcard_names, is_read_verb, rewrite_all, fill_bucket, bucket_verb,
  bucket_verbs, require_parsed, rendered, multi_target, recursive_target, split_leaf, fixed_target,
  bucket_clauses, decompose_recursive, decompose_fixed, decompose_shape, decompose_block,
}
use embyr_rs.AccessControl.RulesFile.Decompose.Targets.{split_leaf-names}
use embyr_rs.AccessControl.RulesFile.Decompose.Shaped.{
  validate_from-IsNamed, validate_from-init, validate_from-IsRouted, split_leaf-of, init-All,
  init-IsRouted,
}

check_position-Ends :
    (seg : PathSegment) (even : Bool) (rest : List PathSegment) (p : Text)
    → Ends (λ u. Unit) (check_position seg even rest p)
unfolding check_position
check_position-Ends (literal s) even rest p = tt
check_position-Ends (wildcard v) even rest p = Ends-if (λ u. Unit) even _ _ (λ e. cc, tt) tt
check_position-Ends recursive_wildcard even rest p =
    Ends-if (λ u. Unit) (not (is_last rest)) _ _ (λ e. cc, tt)
      (Ends-if (λ u. Unit) (not even) _ _ (λ e. cc, tt) tt)

validate_from-Ends :
    (even : Bool) (segs : List PathSegment) (p : Text)
    → Ends (λ u. Unit) (validate_from even segs p)
unfolding validate_from
validate_from-Ends even [] p = tt
validate_from-Ends even (s ∷ segs) p =
    Ends->> (λ u. Unit) (check_position s even segs p) _ (check_position-Ends s even segs p)
      (validate_from-Ends (not even) segs p)

fill_bucket-Ends : (p r : Text) (o : Option Text) → Ends (λ o. Unit) (fill_bucket p r o)
unfolding fill_bucket
fill_bucket-Ends p r none = tt
fill_bucket-Ends p r (some s) = Ends-if (λ o. Unit) (text_eq s r) _ _ tt (λ e. cc, tt)

bucket_verb-Ends : (p r : Text) (k : Bool) (b : Buckets) → Ends (λ b. Unit) (bucket_verb p r k b)
unfolding bucket_verb
bucket_verb-Ends p r true (x, y) =
    Ends->>= (λ o. Unit) (λ b. Unit) (fill_bucket p r x) _ (fill_bucket-Ends p r x) λ o u. tt
bucket_verb-Ends p r false (x, y) =
    Ends->>= (λ o. Unit) (λ b. Unit) (fill_bucket p r y) _ (fill_bucket-Ends p r y) λ o u. tt

bucket_verbs-Ends :
    (p r : Text) (vs : List Verb) (b : Buckets) → Ends (λ b. Unit) (bucket_verbs p r vs b)
unfolding bucket_verbs
bucket_verbs-Ends p r [] b = tt
bucket_verbs-Ends p r (v ∷ vs) b =
    Ends->>= (λ b. Unit) (λ b. Unit) (bucket_verb p r (is_read_verb v) b) _
      (bucket_verb-Ends p r (is_read_verb v) b) λ n u. bucket_verbs-Ends p r vs n

-- The variables of a pattern have names, where its segments are from parsed patterns.
unnamed : parse_one_segment (written (wildcard [])) [] ≡ err (single [] syntax_construct)
unfolding parse_one_segment braced strip_last ends_with
unnamed = refl

wildcard-IsNonEmpty : (v : Text) → IsWritten (wildcard v) → v ≢ []
wildcard-IsNonEmpty [] w = λ e. let back = (w tt).0 [] in let failed = unnamed in cc
wildcard-IsNonEmpty (c ∷ v) w = λ e. cc

wildcard_names-IsNonEmpty :
    (segs : List PathSegment) → All IsWritten segs → All (λ v. v ≢ []) (wildcard_names segs)
unfolding wildcard_names
wildcard_names-IsNonEmpty [] w = tt
wildcard_names-IsNonEmpty (literal s ∷ segs) (w, ws) = wildcard_names-IsNonEmpty segs ws
wildcard_names-IsNonEmpty (wildcard v ∷ segs) (w, ws) =
    (wildcard-IsNonEmpty v w, wildcard_names-IsNonEmpty segs ws)
wildcard_names-IsNonEmpty (recursive_wildcard ∷ segs) (w, ws) = wildcard_names-IsNonEmpty segs ws

rewrite_all-some :
    (names : List Text) (condition : Text)
    → All (λ v. v ≢ []) names
    → (r : Text) × (rewrite_all names condition ≡ some r)
unfolding rewrite_all
rewrite_all-some [] condition n = (condition, refl)
rewrite_all-some (v ∷ vs) condition (n, ns) =
    let (r, e) = rewrite_path_variable-some condition v n in
    let (s, f) = rewrite_all-some vs r ns in (s, rw e f)

rewritten-Ends :
    (p : Text) (names : List Text) (condition : Text)
    → All (λ v. v ≢ []) names
    → Ends (λ r. Unit) (ok_or (single p unreachable_construct) (rewrite_all names condition))
rewritten-Ends p names condition n = let (r, e) = rewrite_all-some names condition n in rw e tt

-- Segments without a recursive wildcard are rendered.
rendered-Ends :
    (p : Text) (segs : List PathSegment) → All IsNamed segs → Ends (λ t. Unit) (rendered p segs)
rendered-Ends p segs n = rw (render_ancestor_pattern-written segs n) tt

stored-Ends :
    (p : Text) (segs : List PathSegment) (f : Text → DecomposedTarget)
    → All IsNamed segs
    → Ends (λ t. Unit) (rendered p segs >>= λ r. ok (f r))
stored-Ends p segs f n =
    Ends->>= (λ t. Unit) (λ t. Unit) (rendered p segs) _ (rendered-Ends p segs n) λ r u. tt

-- The ancestor of a routed path is no single variable.
fixed_target-Ends :
    (p : Text) (ancestor : List PathSegment) (leaf : Option Text) (b : Buckets)
    → IsRouted ancestor
    → All IsNamed ancestor
    → Ends (λ t. Unit) (fixed_target p ancestor leaf b)
unfolding fixed_target
fixed_target-Ends p [] leaf b r n = stored-Ends p [] (λ t. multi_target t [] leaf b) n
fixed_target-Ends p (literal s ∷ []) leaf b r n = tt
fixed_target-Ends p (wildcard s ∷ []) leaf b r n = absurd r
fixed_target-Ends p (recursive_wildcard ∷ []) leaf b r n = absurd r
fixed_target-Ends p (s ∷ t ∷ segs) leaf b r n =
    stored-Ends p (s ∷ t ∷ segs) (λ u. multi_target u (s ∷ t ∷ segs) leaf b) n

last-some : (segs : List PathSegment) → segs ≢ [] → last segs ≡ none → ⊥
last-some [] n l = n refl
last-some (s ∷ []) n l = cc
last-some (s ∷ t ∷ segs) n l = last-some (t ∷ segs) (λ e. cc) l

failed_shape :
    (b : MatchBlock) (e : RulesFileError)
    → validate_segment_shape (b.segments) (b.path_pattern) ≡ err e
    → All IsReal (e.offending_blocks)
unfolding validate_segment_shape
failed_shape b e h =
    subst (Ends (λ u. Unit)) h (validate_from-Ends true (b.segments) (b.path_pattern))

module _ (F : Type 0) ⦃float : Float F⦄ where
  bucket_clauses-Ends :
      (p : Text) (names : List Text) (clauses : List Clause) (b : Buckets)
      → All (λ v. v ≢ []) names
      → Ends (λ b. Unit) (bucket_clauses F p names clauses b)
  unfolding bucket_clauses
  bucket_clauses-Ends p names [] b n = tt
  bucket_clauses-Ends p names ((vs, raw) ∷ clauses) b n =
      Ends->>= (λ r. Unit) (λ b. Unit)
        (ok_or (single p unreachable_construct) (rewrite_all names raw)) _
        (rewritten-Ends p names raw n)
        λ r u.
          Ends->> (λ b. Unit) (require_parsed p (parse_condition {F = F} r)) _
            (require_parsed-Ends p (parse_condition {F = F} r) (parse_condition-ends r))
            (Ends->>= (λ b. Unit) (λ b. Unit) (bucket_verbs p r vs b) _ (bucket_verbs-Ends p r vs b)
              λ next u. bucket_clauses-Ends p names clauses next n)

  decompose_fixed-Ends :
      (b : MatchBlock)
      → validate_segment_shape (b.segments) (b.path_pattern) ≡ ok tt
      → All IsWritten (b.segments)
      → last (b.segments) ≢ some recursive_wildcard
      → Ends (λ t. Unit) (decompose_fixed F b (split_leaf (b.segments)))
  unfolding decompose_fixed validate_segment_shape
  decompose_fixed-Ends b v w n =
      let segs = b.segments in
      let named = validate_from-IsNamed true segs (b.path_pattern) v n in
      let routed = validate_from-IsRouted segs (b.path_pattern) v named in
      let names =
        subst (All (λ v. v ≢ [])) (sym (split_leaf-names segs))
          (wildcard_names-IsNonEmpty segs w) in
      Ends->>= (λ b. Unit) (λ t. Unit)
        (bucket_clauses F (b.path_pattern) _ (b.allow_clauses) (none, none)) _
        (bucket_clauses-Ends (b.path_pattern) _ (b.allow_clauses) (none, none) names)
        λ x u.
          fixed_target-Ends (b.path_pattern) _ _ x
            (split_leaf-of IsRouted segs routed (init-IsRouted segs routed))
            (split_leaf-of (All IsNamed) segs named (init-All IsNamed segs named))

  decompose_shape-Ends :
      (b : MatchBlock) (o : Option PathSegment)
      → last (b.segments) ≡ o
      → b.segments ≢ []
      → All IsWritten (b.segments)
      → validate_segment_shape (b.segments) (b.path_pattern) ≡ ok tt
      → Ends (λ t. Unit) (decompose_shape F b o)
  unfolding decompose_shape decompose_recursive validate_segment_shape
  decompose_shape-Ends b none l n w v = absurd (last-some (b.segments) n l)
  decompose_shape-Ends b (some recursive_wildcard) l n w v =
      Ends->>= (λ b. Unit) (λ t. Unit)
        (bucket_clauses F (b.path_pattern) _ (b.allow_clauses) (none, none)) _
        (bucket_clauses-Ends (b.path_pattern) _ (b.allow_clauses) (none, none)
          (wildcard_names-IsNonEmpty (init (b.segments)) (init-All IsWritten (b.segments) w)))
        λ x u.
          stored-Ends (b.path_pattern) (init (b.segments))
            (λ t. recursive_target t (init (b.segments)) x)
            (validate_from-init true (b.segments) (b.path_pattern) v)
  decompose_shape-Ends b (some (literal s)) l n w v = decompose_fixed-Ends b v w (λ e. cc)
  decompose_shape-Ends b (some (wildcard s)) l n w v = decompose_fixed-Ends b v w (λ e. cc)

  -- A block from a parsed file is decomposed, or is offending for a reason of the source: no loop runs
  -- out, and none of the code that panics is reached.
  pub decompose_block-Ends :
      (b : MatchBlock)
      → b.segments ≢ []
      → All IsWritten (b.segments)
      → Ends (λ t. Unit) (decompose_block F b)
  unfolding decompose_block
  decompose_block-Ends b n w =
      elim (Result-cases (validate_segment_shape (b.segments) (b.path_pattern))) [
        | inl (u, e) ↦ rw e (decompose_shape-Ends b (last (b.segments)) refl n w e)
        | inr (x, e) ↦ rw e (failed_shape b x e)
      ]
