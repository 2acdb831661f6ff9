-- ===== src/AccessControl/RulesFile/Decompose/Targets.antt =====
-- The target of a block: its conditions, and the pattern that it is stored under.
use embyr_rs.Base.{
  Bool, true, false, Option, none, some, List, [], ◌∷◌, ◌++◌, All, Any, ok_inj, some_inj, here,
  there, Bool-cases, length, ◌%◌, ◌==◌, ◌≡◌, ◌↔◌, inl, inr, refl, sym, ap, ◌∙◌, subst, ok, ◌>>=◌,
  >>=-ok, >>-ok, last, init,
}
use embyr_rs.Base.Text.{Text}
use embyr_rs.Domain.FieldValue.{Float}
use embyr_rs.AccessControl.Syntax.{Condition}
use embyr_rs.AccessControl.Tokenizer.{parse_condition}
use embyr_rs.AccessControl.PathRouting.{PathSegment, literal, wildcard, recursive_wildcard}
use embyr_rs.AccessControl.RulesFile.{
  MatchBlock, DecomposedTarget, single_collection, multi_segment_pattern,
  recursive_wildcard_pattern,
}
use embyr_rs.AccessControl.RulesFile.Segments.{validate_segment_shape}
use embyr_rs.AccessControl.RulesFile.Decompose.{
  Clause, Buckets, wildcard_names, variable_name, name_list, split_leaf, rendered, multi_target,
  recursive_target, fixed_target, bucket_clauses, decompose_recursive, decompose_fixed,
  decompose_shape, decompose_block,
}
use embyr_rs.AccessControl.RulesFile.Decompose.Buckets.{
  side, Contributes, Parses, bucket_clauses_lem, bucket_clauses-Parses,
}

-- The two conditions of a target.
abbrev pub conditions : DecomposedTarget → Buckets
conditions (single_collection rule) = (rule.read_condition, rule.write_condition)
conditions (multi_segment_pattern rule) = (rule.read_condition, rule.write_condition)
conditions (recursive_wildcard_pattern rule) = (rule.read_condition, rule.write_condition)

-- The rendering does not touch the conditions.
stored-conditions :
    (p : Text) (segs : List PathSegment) (f : Text → DecomposedTarget) (b : Buckets)
    {t : DecomposedTarget}
    → ((r : Text) → conditions (f r) ≡ b)
    → (rendered p segs >>= λ r. ok (f r)) ≡ ok t
    → conditions t ≡ b
stored-conditions p segs f b same h =
    let (r, e, g) = >>=-ok (rendered p segs) _ h in
    subst (λ t. conditions t ≡ b) (ok_inj g) (same r)

fixed_target-conditions :
    (p : Text) (ancestor : List PathSegment) (leaf : Option Text) (b : Buckets)
    (t : DecomposedTarget)
    → fixed_target p ancestor leaf b ≡ ok t
    → conditions t ≡ b
unfolding fixed_target
fixed_target-conditions p [] leaf b t h =
    stored-conditions p [] (λ r. multi_target r [] leaf b) b (λ r. refl) h
fixed_target-conditions p (literal s ∷ []) leaf b t h =
    subst (λ t. conditions t ≡ b) (ok_inj h) refl
fixed_target-conditions p (wildcard s ∷ []) leaf b t h = cc
fixed_target-conditions p (recursive_wildcard ∷ []) leaf b t h = cc
fixed_target-conditions p (s ∷ s' ∷ ss) leaf b t h =
    stored-conditions p (s ∷ s' ∷ ss) (λ r. multi_target r (s ∷ s' ∷ ss) leaf b) b (λ r. refl) h

wildcard_names-split :
    (segs : List PathSegment)
    → wildcard_names (init segs) ++ name_list (variable_name (last segs)) ≡ wildcard_names segs
unfolding wildcard_names
wildcard_names-split [] = refl
wildcard_names-split (literal s ∷ []) = refl
wildcard_names-split (wildcard v ∷ []) = refl
wildcard_names-split (recursive_wildcard ∷ []) = refl
wildcard_names-split (literal s ∷ t ∷ segs) = wildcard_names-split (t ∷ segs)
wildcard_names-split (wildcard v ∷ t ∷ segs) = ap (λ r. v ∷ r) (wildcard_names-split (t ∷ segs))
wildcard_names-split (recursive_wildcard ∷ t ∷ segs) = wildcard_names-split (t ∷ segs)

append_nil : (xs : List Text) → xs ++ [] ≡ xs
append_nil [] = refl
append_nil (x ∷ xs) = ap (λ r. x ∷ r) (append_nil xs)

recursive_names :
    (segs : List PathSegment)
    → last segs ≡ some recursive_wildcard
    → wildcard_names (init segs) ≡ wildcard_names segs
recursive_names segs e =
    let split = wildcard_names-split segs in
    let same = append_nil (wildcard_names (init segs)) in sym same ∙ rw e at split

pub split_leaf-names :
    (segs : List PathSegment)
    → wildcard_names ((split_leaf segs).0) ++ name_list (variable_name ((split_leaf segs).1))
      ≡ wildcard_names segs
unfolding split_leaf
split_leaf-names segs = elim (Bool-cases (length segs % 2 == 0)) [
  | inl e ↦ rw e (wildcard_names-split segs)
  | inr e ↦ rw e (append_nil (wildcard_names segs))
]

side_empty : (k : Bool) {c : Text} → side k (none, none) ≡ some c → ⊥
side_empty true e = cc
side_empty false e = cc

module _ (F : Type 0) ⦃float : Float F⦄ where
  -- The buckets of the block's clauses, for the variables of its pattern, are the target's conditions.
  abbrev Bucketed : MatchBlock → DecomposedTarget → Type 0
  Bucketed b t =
      bucket_clauses F (b.path_pattern) (wildcard_names (b.segments)) (b.allow_clauses) (none, none)
      ≡ ok (conditions t)

  decompose_fixed-Bucketed :
      (b : MatchBlock) (a : List PathSegment) (l : Option PathSegment) (t : DecomposedTarget)
      → wildcard_names a ++ name_list (variable_name l) ≡ wildcard_names (b.segments)
      → decompose_fixed F b (a, l) ≡ ok t
      → Bucketed b t
  unfolding decompose_fixed
  decompose_fixed-Bucketed b a l t e h =
      let (buckets, f, g) =
        >>=-ok
          (bucket_clauses F (b.path_pattern) (wildcard_names a ++ name_list (variable_name l))
            (b.allow_clauses) (none, none))
          _ h in
      cc (fixed_target-conditions (b.path_pattern) a (variable_name l) buckets t g)

  decompose_recursive-Bucketed :
      (b : MatchBlock) (a : List PathSegment) (t : DecomposedTarget)
      → wildcard_names a ≡ wildcard_names (b.segments)
      → decompose_recursive F b a ≡ ok t
      → Bucketed b t
  unfolding decompose_recursive
  decompose_recursive-Bucketed b a t e h =
      let (buckets, f, g) =
        >>=-ok (bucket_clauses F (b.path_pattern) (wildcard_names a) (b.allow_clauses) (none, none))
          _ h in
      let same =
        stored-conditions (b.path_pattern) a (λ r. recursive_target r a buckets) buckets (λ r. refl)
          g in
      rw (sym e) (f ∙ ap ok (sym same))

  decompose_shape-Bucketed :
      (b : MatchBlock) (o : Option PathSegment) (t : DecomposedTarget)
      → last (b.segments) ≡ o
      → decompose_shape F b o ≡ ok t
      → Bucketed b t
  unfolding decompose_shape
  decompose_shape-Bucketed b none t e h = cc
  decompose_shape-Bucketed b (some recursive_wildcard) t e h =
      decompose_recursive-Bucketed b (init (b.segments)) t (recursive_names (b.segments) e) h
  decompose_shape-Bucketed b (some (literal s)) t e h =
      decompose_fixed-Bucketed b _ _ t (split_leaf-names (b.segments)) h
  decompose_shape-Bucketed b (some (wildcard v)) t e h =
      decompose_fixed-Bucketed b _ _ t (split_leaf-names (b.segments)) h

  decompose_block-Bucketed :
      (b : MatchBlock) (t : DecomposedTarget) → decompose_block F b ≡ ok t → Bucketed b t
  unfolding decompose_block
  decompose_block-Bucketed b t h =
      decompose_shape-Bucketed b (last (b.segments)) t refl
        ((>>-ok (validate_segment_shape (b.segments) (b.path_pattern)) _ h).1)

  pub decompose_block-conditions :
      (b : MatchBlock) (t : DecomposedTarget) (k : Bool) (c : Text)
      → decompose_block F b ≡ ok t
      → (side k (conditions t) ≡ some c)
        ↔ Any (Contributes (wildcard_names (b.segments)) k c) (b.allow_clauses)
  decompose_block-conditions b t k c h =
      let (to, back) =
        bucket_clauses_lem F (b.path_pattern) (wildcard_names (b.segments)) (b.allow_clauses)
          (none, none) (conditions t) k c (decompose_block-Bucketed b t h) in
      (λ e. elim (to e) [ inl f ↦ absurd (side_empty k f) | inr f ↦ f ], λ f. back (inr f))

  contributed-Parses :
      (names : List Text) (clauses : List Clause) (k : Bool) (c : Text)
      → Any (Contributes names k c) clauses
      → All (Parses F names) clauses
      → (condition : Condition F) × (parse_condition c ≡ ok condition)
  contributed-Parses names [] k c a p = elim a [ ]
  contributed-Parses names (cl ∷ cls) k c (here (has, e)) ((d, f, (condition, g)), rest) =
      (condition, subst (λ c. parse_condition c ≡ ok condition) (some_inj (sym f ∙ e)) g)
  contributed-Parses names (cl ∷ cls) k c (there a) (p, rest) =
      contributed-Parses names cls k c a rest

  -- Every condition that a decomposed block stores is one that the condition parser accepts.
  pub decompose_block-parses :
      (b : MatchBlock) (t : DecomposedTarget) (k : Bool) (c : Text)
      → decompose_block F b ≡ ok t
      → side k (conditions t) ≡ some c
      → (condition : Condition F) × (parse_condition c ≡ ok condition)
  decompose_block-parses b t k c h e =
      contributed-Parses (wildcard_names (b.segments)) (b.allow_clauses) k c
        ((decompose_block-conditions b t k c h).0 e)
        (bucket_clauses-Parses F (b.path_pattern) (wildcard_names (b.segments)) (b.allow_clauses)
          (none, none) (conditions t) (decompose_block-Bucketed b t h))
