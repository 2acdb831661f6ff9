-- ===== src/AccessControl/RulesFile/Import.antt =====
-- An import from the file's text to the targets: `parse_rules_file`, then `decompose`.
use embyr_rs.Base.{
  All-append, ◌>>=◌, err, err_inj, subst, Result-cases, inl, inr, Bool, List, [], ◌∷◌, All, ◌≡◌,
  ◌≢◌, some, ok,
}
use embyr_rs.Base.Text.{Text}
use embyr_rs.Domain.FieldValue.{Float}
use embyr_rs.AccessControl.Syntax.{Condition}
use embyr_rs.AccessControl.Tokenizer.{parse_condition}
use embyr_rs.AccessControl.RulesFile.{
  OffendingBlock, RulesFileError, Checked, MatchBlock, DecomposedTarget,
}
use embyr_rs.AccessControl.RulesFile.Decompose.{
  collect_target, decompose_each, unless_offending, decompose_block, decompose,
}
use embyr_rs.AccessControl.RulesFile.Decompose.Buckets.{side}
use embyr_rs.AccessControl.RulesFile.Decompose.Targets.{conditions}
use embyr_rs.AccessControl.RulesFile.Decompose.Routing.{RoutesTarget}
use embyr_rs.AccessControl.RulesFile.Segments.RoundTrip.{
  IsWritten, parse_path_segments-IsWritten, parse_path_segments-IsNonEmpty,
}
use embyr_rs.AccessControl.RulesFile.Ends.{IsReal, Ends}
use embyr_rs.AccessControl.RulesFile.Decompose.NoPanic.{decompose_block-Ends}
use embyr_rs.AccessControl.RulesFile.Blocks.Clauses.{Halts}
use embyr_rs.AccessControl.RulesFile.Blocks.Total.{parse_rules_file-Halts}
use embyr_rs.AccessControl.RulesFile.Blocks.{parse_rules_file}
use embyr_rs.AccessControl.RulesFile.Blocks.WellFormed.{WellFormed, parse_rules_file-Imported}

collect_target-IsReal :
    (r : Checked DecomposedTarget) (p : List DecomposedTarget × List OffendingBlock)
    → Halts r
    → All IsReal (p.1)
    → All IsReal ((collect_target r p).1)
collect_target-IsReal (ok t) (ts, os) h r = r
collect_target-IsReal (err e) (ts, os) h r = All-append IsReal (e.offending_blocks) os h r

unless_offending-Halts :
    (p : List DecomposedTarget × List OffendingBlock)
    → All IsReal (p.1)
    → Halts (unless_offending p)
unless_offending-Halts (ts, []) r = tt
unless_offending-Halts (ts, o ∷ os) r = r

failed :
    {A : Type 0} {r : Checked A} {e : RulesFileError}
    → Halts r
    → r ≡ err e
    → All IsReal (e.offending_blocks)
failed {A} h q = subst (Ends {A = A} (λ a. Unit)) q h

WellFormed-IsWritten : (b : MatchBlock) → WellFormed b → All IsWritten (b.segments)
WellFormed-IsWritten b w = parse_path_segments-IsWritten (b.path_pattern) (b.segments) (w.0)

WellFormed-IsNonEmpty : (b : MatchBlock) → WellFormed b → b.segments ≢ []
WellFormed-IsNonEmpty b w = parse_path_segments-IsNonEmpty (b.path_pattern) (b.segments) (w.0)

module _ (F : Type 0) ⦃float : Float F⦄ where
  -- The target's conditions parse, and it is stored for the block's path.
  abbrev pub Stored : MatchBlock → DecomposedTarget → Type 0
  Stored b t =
      ((k : Bool) (c : Text)
        → side k (conditions t) ≡ some c
        → (condition : Condition F) × (parse_condition c ≡ ok condition))
      × RoutesTarget (b.segments) t

  -- The blocks and their targets, one by one and in order.
  abbrev pub StoredAll : List MatchBlock → List DecomposedTarget → Type 0
  StoredAll [] [] = Unit
  StoredAll (b ∷ bs) (t ∷ ts) = Stored b t × StoredAll bs ts
  StoredAll _ _ = ⊥

  decompose_each-IsReal :
      (bs : List MatchBlock) → All WellFormed bs → All IsReal ((decompose_each F bs).1)
  unfolding decompose_each
  decompose_each-IsReal [] w = tt
  decompose_each-IsReal (b ∷ bs) (w, ws) =
      collect_target-IsReal (decompose_block F b) (decompose_each F bs)
        (decompose_block-Ends F b (WellFormed-IsNonEmpty b w) (WellFormed-IsWritten b w))
        (decompose_each-IsReal bs ws)

  decompose-Halts : (bs : List MatchBlock) → All WellFormed bs → Halts (decompose F bs)
  unfolding decompose
  decompose-Halts bs w = unless_offending-Halts (decompose_each F bs) (decompose_each-IsReal bs w)

  -- Where parsing a text and decomposing its blocks fails, every offending block has a construct of
  -- the source's own: no loop of the two stages has used up its fuel, or goes on for ever over a
  -- variable without a name, and neither the rendering of a recursive wildcard, nor a single collection
  -- that is a variable, nor a path without segments is reached, for which the source panics.
  pub decompose-parse_rules_file-IsReal :
      (source : Text) (e : RulesFileError)
      → (parse_rules_file F source >>= decompose F) ≡ err e
      → All IsReal (e.offending_blocks)
  decompose-parse_rules_file-IsReal source e h = elim (Result-cases (parse_rules_file F source)) [
    | inl (bs, p) ↦
        failed (decompose-Halts bs ((parse_rules_file-Imported F source bs p).1)) (rw p at h)
    | inr (x, p) ↦
        subst (λ e. All IsReal (e.offending_blocks)) (err_inj (rw p at h))
          (failed (parse_rules_file-Halts F source) p)
  ]
