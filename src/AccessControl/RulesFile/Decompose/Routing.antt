-- ===== src/AccessControl/RulesFile/Decompose/Routing.antt =====
-- What an import stores for a block, and what a request looks up.
use embyr_rs.Base.{
  ℕ, ◌^◌, ok_inj, sym, true, Option, none, some, List, [], ◌∷◌, length, ◌%◌, All, ◌≡◌, ◌≢◌, refl,
  subst, ok, >>=-ok, >>-ok, last, init,
}
use embyr_rs.Base.Text.{Text}
use embyr_rs.Base.Dict.{Dict}
use embyr_rs.Domain.FieldValue.{Float}
use embyr_rs.AccessControl.PathRouting.{
  PathSegment, literal, wildcard, recursive_wildcard, literal_skeleton, bind_ancestor,
}
use embyr_rs.AccessControl.PathRouting.Binding.{as_literals}
use embyr_rs.AccessControl.PathRouting.Skeleton.{IsRouted, literal_skeleton-bind_ancestor}
use embyr_rs.AccessControl.RulesFile.{
  MatchBlock, DecomposedTarget, single_collection, multi_segment_pattern,
  recursive_wildcard_pattern,
}
use embyr_rs.AccessControl.RulesFile.Segments.{
  validate_segment_shape, parse_path_segments, render_segments, render_ancestor_pattern,
}
use embyr_rs.AccessControl.RulesFile.Segments.Rendering.{IsNamed}
use embyr_rs.AccessControl.RulesFile.Segments.RoundTrip.{
  IsWritten, parse_path_segments-render_ancestor_pattern,
}
use embyr_rs.AccessControl.RulesFile.Decompose.{
  Buckets, variable_name, rendered, split_leaf, fixed_target, bucket_clauses, decompose_recursive,
  decompose_fixed, decompose_shape, decompose_block,
}
use embyr_rs.AccessControl.RulesFile.Decompose.Shaped.{
  validate_from-IsNamed, validate_from-init, validate_from-IsRouted, validate_from-init-IsRouted,
  init-IsRouted, init-All, split_leaf-of,
}

-- The text is parsed back to the segments, where there are any.
abbrev pub ReadsBack : Text → List PathSegment → Type 0
ReadsBack t [] = t ≡ []
ReadsBack t (s ∷ segs) = parse_path_segments t ≡ ok (s ∷ segs)

-- What a request does with what is stored for segments: the text is parsed back to them, their number
-- is as a `u16`, and the skeleton is that of every concrete path which they bind.
abbrev pub Routes : List PathSegment → Text → ℕ → Text → Type 0
Routes segs text count skeleton =
    ReadsBack text segs
    × (count ≡ length segs % 2 ^ 16)
    × ((ts : List Text) (b : Dict Text)
        → bind_ancestor segs (as_literals ts) ≡ some b
        → skeleton ≡ literal_skeleton (as_literals ts))

rendered-Routes :
    (p : Text) (segs : List PathSegment) (t : Text)
    → All IsNamed segs
    → All IsWritten segs
    → IsRouted segs
    → rendered p segs ≡ ok t
    → Routes segs t (length segs % 2 ^ 16) (literal_skeleton segs)
unfolding render_ancestor_pattern render_segments
rendered-Routes p [] t n w r h =
    (sym (ok_inj h), refl, λ ts b q. literal_skeleton-bind_ancestor [] ts b r q)
rendered-Routes p (s ∷ segs) t n w r h =
    let (u, e, back) = parse_path_segments-render_ancestor_pattern s segs n w in
    (
      subst (λ t. parse_path_segments t ≡ ok (s ∷ segs)) (ok_inj (rw e at h)) back,
      refl,
      λ ts b q. literal_skeleton-bind_ancestor (s ∷ segs) ts b r q,
    )

-- What is stored for a block, by the kind of its target: a single collection is the literal before the
-- leaf, a pattern routes to the segments before it and has the leaf's name, if that is a variable, and
-- a recursive one routes to those before the wildcard.
abbrev pub RoutesTarget : List PathSegment → DecomposedTarget → Type 0
RoutesTarget segments (single_collection rule) =
    (split_leaf segments).0 ≡ literal (rule.collection_path) ∷ []
RoutesTarget segments (multi_segment_pattern rule) =
    Routes ((split_leaf segments).0) (rule.collection_path_pattern) (rule.ancestor_segment_count)
      (rule.literal_skeleton)
    × (rule.leaf_variable ≡ variable_name ((split_leaf segments).1))
RoutesTarget segments (recursive_wildcard_pattern rule) =
    (last segments ≡ some recursive_wildcard)
    × Routes (init segments) (rule.fixed_prefix_pattern) (rule.fixed_prefix_segment_count)
        (rule.literal_skeleton_prefix)

-- What `fixed_target` makes of an ancestor.
abbrev RoutesAncestor : List PathSegment → Option Text → DecomposedTarget → Type 0
RoutesAncestor ancestor leaf (single_collection rule) =
    ancestor ≡ literal (rule.collection_path) ∷ []
RoutesAncestor ancestor leaf (multi_segment_pattern rule) =
    Routes ancestor (rule.collection_path_pattern) (rule.ancestor_segment_count)
      (rule.literal_skeleton)
    × (rule.leaf_variable ≡ leaf)
RoutesAncestor ancestor leaf (recursive_wildcard_pattern rule) = ⊥

fixed_target-RoutesAncestor :
    (p : Text) (ancestor : List PathSegment) (leaf : Option Text) (b : Buckets)
    (t : DecomposedTarget)
    → All IsNamed ancestor
    → All IsWritten ancestor
    → IsRouted ancestor
    → fixed_target p ancestor leaf b ≡ ok t
    → RoutesAncestor ancestor leaf t
unfolding fixed_target
fixed_target-RoutesAncestor p [] leaf b t n w r h =
    let (text, e, g) = >>=-ok (rendered p []) _ h in
    subst (RoutesAncestor [] leaf) (ok_inj g) (rendered-Routes p [] text n w r e, refl)
fixed_target-RoutesAncestor p (literal s ∷ []) leaf b t n w r h =
    subst (RoutesAncestor (literal s ∷ []) leaf) (ok_inj h) refl
fixed_target-RoutesAncestor p (wildcard s ∷ []) leaf b t n w r h = cc
fixed_target-RoutesAncestor p (recursive_wildcard ∷ []) leaf b t n w r h = cc
fixed_target-RoutesAncestor p (s ∷ u ∷ segs) leaf b t n w r h =
    let (text, e, g) = >>=-ok (rendered p (s ∷ u ∷ segs)) _ h in
    subst (RoutesAncestor (s ∷ u ∷ segs) leaf) (ok_inj g)
      (rendered-Routes p (s ∷ u ∷ segs) text n w r e, refl)

RoutesAncestor-RoutesTarget :
    (segs : List PathSegment) (t : DecomposedTarget)
    → RoutesAncestor ((split_leaf segs).0) (variable_name ((split_leaf segs).1)) t
    → RoutesTarget segs t
RoutesAncestor-RoutesTarget segs (single_collection rule) h = h
RoutesAncestor-RoutesTarget segs (multi_segment_pattern rule) h = h
RoutesAncestor-RoutesTarget segs (recursive_wildcard_pattern rule) h = absurd h

module _ (F : Type 0) ⦃float : Float F⦄ where
  decompose_fixed-RoutesTarget :
      (b : MatchBlock) (t : DecomposedTarget)
      → validate_segment_shape (b.segments) (b.path_pattern) ≡ ok tt
      → last (b.segments) ≢ some recursive_wildcard
      → All IsWritten (b.segments)
      → decompose_fixed F b (split_leaf (b.segments)) ≡ ok t
      → RoutesTarget (b.segments) t
  unfolding decompose_fixed validate_segment_shape
  decompose_fixed-RoutesTarget b t v n w h =
      let segs = b.segments in
      let named = validate_from-IsNamed true segs (b.path_pattern) v n in
      let routed = validate_from-IsRouted segs (b.path_pattern) v named in
      let (buckets, f, g) =
        >>=-ok (bucket_clauses F (b.path_pattern) _ (b.allow_clauses) (none, none)) _ h in
      RoutesAncestor-RoutesTarget segs t (
        fixed_target-RoutesAncestor (b.path_pattern) _ _ buckets t
          (split_leaf-of (All IsNamed) segs named (init-All IsNamed segs named))
          (split_leaf-of (All IsWritten) segs w (init-All IsWritten segs w))
          (split_leaf-of IsRouted segs routed (init-IsRouted segs routed)) g)

  decompose_recursive-RoutesTarget :
      (b : MatchBlock) (t : DecomposedTarget)
      → last (b.segments) ≡ some recursive_wildcard
      → validate_segment_shape (b.segments) (b.path_pattern) ≡ ok tt
      → All IsWritten (b.segments)
      → decompose_recursive F b (init (b.segments)) ≡ ok t
      → RoutesTarget (b.segments) t
  unfolding decompose_recursive validate_segment_shape
  decompose_recursive-RoutesTarget b t l v w h =
      let segs = b.segments in
      let (buckets, f, g) =
        >>=-ok (bucket_clauses F (b.path_pattern) _ (b.allow_clauses) (none, none)) _ h in
      let (text, e, same) = >>=-ok (rendered (b.path_pattern) (init segs)) _ g in
      subst (RoutesTarget segs) (ok_inj same) (
        l,
        rendered-Routes (b.path_pattern) (init segs) text
            (validate_from-init true segs (b.path_pattern) v) (init-All IsWritten segs w)
            (validate_from-init-IsRouted segs (b.path_pattern) v) e,
      )

  decompose_shape-RoutesTarget :
      (b : MatchBlock) (o : Option PathSegment) (t : DecomposedTarget)
      → last (b.segments) ≡ o
      → validate_segment_shape (b.segments) (b.path_pattern) ≡ ok tt
      → All IsWritten (b.segments)
      → decompose_shape F b o ≡ ok t
      → RoutesTarget (b.segments) t
  unfolding decompose_shape
  decompose_shape-RoutesTarget b none t l v w h = cc
  decompose_shape-RoutesTarget b (some recursive_wildcard) t l v w h =
      decompose_recursive-RoutesTarget b t l v w h
  decompose_shape-RoutesTarget b (some (literal x)) t l v w h =
      decompose_fixed-RoutesTarget b t v (λ q. cc) w h
  decompose_shape-RoutesTarget b (some (wildcard x)) t l v w h =
      decompose_fixed-RoutesTarget b t v (λ q. cc) w h

  -- A block whose segments are from parsed patterns has its target stored for the path it is about.
  pub decompose_block-RoutesTarget :
      (b : MatchBlock) (t : DecomposedTarget)
      → All IsWritten (b.segments)
      → decompose_block F b ≡ ok t
      → RoutesTarget (b.segments) t
  unfolding decompose_block
  decompose_block-RoutesTarget b t w h =
      let (valid, shaped) = >>-ok (validate_segment_shape (b.segments) (b.path_pattern)) _ h in
      decompose_shape-RoutesTarget b (last (b.segments)) t refl (valid.1) w shaped
