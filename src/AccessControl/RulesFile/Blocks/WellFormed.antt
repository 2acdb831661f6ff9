-- ===== src/AccessControl/RulesFile/Blocks/WellFormed.antt =====
-- The blocks that `parse_rules_file` returns, nested ones included.
use embyr_rs.Base.{ℕ, zero, suc, List, [], ◌∷◌, ◌++◌, All, All-append, ◌≡◌, ◌≢◌, refl, ok, err}
use embyr_rs.Base.Text.{Text, codes}
use embyr_rs.Base.Dict.{Dict}
use embyr_rs.Domain.FieldValue.{Float}
use embyr_rs.AccessControl.PathTemplates.{split}
use embyr_rs.AccessControl.PathRouting.{PathSegment}
use embyr_rs.AccessControl.RulesFile.{MatchBlock, Checked}
use embyr_rs.AccessControl.RulesFile.Segments.{parse_path_segments}
use embyr_rs.AccessControl.RulesFile.Shell.{trim, trim_start}
use embyr_rs.AccessControl.RulesFile.Functions.{parse_function_blocks}
use embyr_rs.AccessControl.RulesFile.Decompose.{Clause}
use embyr_rs.AccessControl.RulesFile.Blocks.{
  some_clause, parse_clauses, parse_allow_clauses, delineate, Found, collect_blocks,
  without_offending, until_empty, is_nested, leaf_block, BlockScan, parse_block_body, parse_content,
  blocks_from, parse_nested_match_blocks, some_block, parse_match_blocks, shell_body,
  parse_rules_file,
}
use embyr_rs.AccessControl.RulesFile.Blocks.Holds.{
  Holds, Holds->>=, Holds-any, Holds-of, Holds-if, held,
}
use embyr_rs.AccessControl.RulesFile.Blocks.Paths.{
  Located, IsSlashed, parsed-Located, parse_path_segments-append, delineate-IsSlashed,
}

-- The segments are what the path is parsed to, and there is a clause.
abbrev pub WellFormed : MatchBlock → Type 0
WellFormed b = (parse_path_segments (b.path_pattern) ≡ ok (b.segments)) × (b.allow_clauses ≢ [])

-- What a scan of nested blocks does under a path with its segments.
abbrev ScansWell : BlockScan → Type 0
ScansWell scan =
    (body path : Text) (segs : List PathSegment)
    → Located path segs
    → Holds (λ f. All WellFormed (f.0)) (scan body path segs)

some_clause-IsNonEmpty : (p : Text) (cs : List Clause) → Holds (λ cs. cs ≢ []) (some_clause p cs)
some_clause-IsNonEmpty p [] = tt
some_clause-IsNonEmpty p (c ∷ cs) = λ e. cc

without_offending-WellFormed :
    (f : Found) → All WellFormed (f.0) → Holds (All WellFormed) (without_offending f)
without_offending-WellFormed (bs, []) w = w
without_offending-WellFormed (bs, o ∷ os) w = tt

collect_blocks-WellFormed :
    (r : Checked (List MatchBlock)) (f : Found)
    → Holds (All WellFormed) r
    → All WellFormed (f.0)
    → All WellFormed ((collect_blocks r f).0)
collect_blocks-WellFormed (ok nested) (bs, os) w v = All-append WellFormed nested bs w v
collect_blocks-WellFormed (err e) (bs, os) w v = v

until_empty-WellFormed :
    (s : Text) (r : Checked Found)
    → Holds (λ f. All WellFormed (f.0)) r
    → Holds (λ f. All WellFormed (f.0)) (until_empty s r)
until_empty-WellFormed [] r w = tt
until_empty-WellFormed (c ∷ s) r w = w

leaf_block-WellFormed :
    (body path : Text) (segs : List PathSegment) (functions : Dict Text)
    → parse_path_segments path ≡ ok segs
    → Holds (All WellFormed) (leaf_block body path segs functions)
unfolding parse_allow_clauses
leaf_block-WellFormed body path segs functions w =
    Holds->>= (λ cs. cs ≢ []) (All WellFormed) (parse_allow_clauses body path functions) _
      (Holds->>= (λ cs. Unit) (λ cs. cs ≢ []) (parse_clauses (split b';' body) path functions) _
        (Holds-any _) λ cs u. some_clause-IsNonEmpty path cs)
      λ cs some_cs. ((w, some_cs), tt)

parse_block_body-WellFormed :
    (scan : BlockScan) (body path : Text) (segs : List PathSegment) (functions : Dict Text)
    → ScansWell scan
    → parse_path_segments path ≡ ok segs
    → Holds (All WellFormed) (parse_block_body scan body path segs functions)
unfolding parse_block_body
parse_block_body-WellFormed scan body path segs functions s w =
    Holds-if (All WellFormed) (is_nested body) _ _
      (Holds->>= (λ f. All WellFormed (f.0)) (All WellFormed) (scan body path segs)
        without_offending (s body path segs (parsed-Located path segs w))
        without_offending-WellFormed)
      (leaf_block-WellFormed body path segs functions w)

parse_content-WellFormed :
    (scan : BlockScan) (pattern body path : Text) (segs : List PathSegment) (functions : Dict Text)
    → ScansWell scan
    → IsSlashed pattern
    → Located path segs
    → Holds (All WellFormed) (parse_content scan pattern body path segs functions)
unfolding parse_content
parse_content-WellFormed scan pattern body path segs functions s h w =
    Holds->>= (λ l. parse_path_segments pattern ≡ ok l) (All WellFormed)
      (parse_path_segments pattern) _ (Holds-of _ (parse_path_segments pattern) λ l e. e)
      λ l e.
        parse_block_body-WellFormed scan body (path ++ pattern) (segs ++ l) functions s
          (parse_path_segments-append path pattern segs l w h e)

blocks_from-WellFormed : (n : ℕ) (functions : Dict Text) → ScansWell (blocks_from n functions)
unfolding blocks_from
blocks_from-WellFormed zero functions body path segs w = tt
blocks_from-WellFormed (suc n) functions body path segs w =
    until_empty-WellFormed (trim_start body) _ (
      Holds->>= (λ d. IsSlashed (d.0)) (λ f. All WellFormed (f.0)) (delineate (trim_start body)) _
        (delineate-IsSlashed (trim_start body))
        λ d slashed.
          Holds->>= (λ f. All WellFormed (f.0)) (λ f. All WellFormed (f.0))
            (blocks_from n functions (d.2) path segs) _
            (blocks_from-WellFormed n functions (d.2) path segs w)
            λ found v.
              collect_blocks-WellFormed
                (parse_content (blocks_from n functions) (d.0) (d.1) path segs functions) found
                (parse_content-WellFormed (blocks_from n functions) (d.0) (d.1) path segs functions
                  (blocks_from-WellFormed n functions) slashed w)
                v)

-- There is a block, and every block is well formed.
abbrev pub Imported : List MatchBlock → Type 0
Imported bs = (bs ≢ []) × All WellFormed bs

some_block-Imported : (bs : List MatchBlock) → All WellFormed bs → Holds Imported (some_block bs)
some_block-Imported [] w = tt
some_block-Imported (b ∷ bs) w = (λ e. cc, w)

parse_match_blocks-Imported :
    (body : Text) (functions : Dict Text) → Holds Imported (parse_match_blocks body functions)
unfolding parse_match_blocks parse_nested_match_blocks
parse_match_blocks-Imported body functions =
    Holds->>= (All WellFormed) Imported (parse_nested_match_blocks body [] [] functions) _
      (Holds->>= (λ f. All WellFormed (f.0)) (All WellFormed) (blocks_from _ functions body [] []) _
        (blocks_from-WellFormed _ functions body [] [] refl) without_offending-WellFormed)
      some_block-Imported

-- A parsed rules file has a block at least, and each of its blocks, nested ones included, has a clause,
-- and its segments are what its path pattern as a whole is parsed to.
pub parse_rules_file-Imported :
    (F : Type 0) ⦃float : Float F⦄ (source : Text) (bs : List MatchBlock)
    → parse_rules_file F source ≡ ok bs
    → Imported bs
unfolding parse_rules_file
parse_rules_file-Imported F source bs h =
    held Imported
      (Holds->>= (λ s. Unit) Imported (shell_body (codes "service cloud.firestore") (trim source)) _
        (Holds-any _)
        λ s u.
          Holds->>= (λ p. Unit) Imported (parse_function_blocks F s) _ (Holds-any _)
            λ p u.
              Holds->>= (λ s. Unit) Imported
                (shell_body (codes "match /databases/{database}/documents") (p.1)) _ (Holds-any _)
                λ d u. parse_match_blocks-Imported d (p.0))
      h
