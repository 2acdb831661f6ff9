-- ===== src/AccessControl/RulesFile/Blocks/Total.antt =====
-- The fuel of the scan of the match blocks is enough, and every failure of `parse_rules_file` is one of
-- the source's.
use embyr_rs.Base.{
  ℕ, zero, suc, ◌≤◌, ◌<◌, List, [], ◌∷◌, ◌++◌, length, All, All-append, arith, ok, err, ok_or,
}
use embyr_rs.Base.Text.{Text, codes, strip_prefix}
use embyr_rs.Base.Dict.{Dict}
use embyr_rs.Domain.FieldValue.{Float}
use embyr_rs.AccessControl.PathRouting.{PathSegment}
use embyr_rs.AccessControl.RulesFile.{MatchBlock, shell_syntax_error, syntax_construct, Checked}
use embyr_rs.AccessControl.RulesFile.Ends.{IsReal, Ends, Ends->>=, Ends-if, Ends-ok_or, Ends-mono}
use embyr_rs.AccessControl.RulesFile.Segments.{strip_slash, parse_path_segments}
use embyr_rs.AccessControl.RulesFile.Shell.{
  trim, trim_start, is_empty, starts_with_space, keyword, find_matching_close,
  find_path_pattern_end,
}
use embyr_rs.AccessControl.RulesFile.Shell.Lengths.{
  length-trim_start, find_matching_close-length, keyword-length, find_path_pattern_end-Ends,
}
use embyr_rs.AccessControl.RulesFile.Functions.Total.{parse_function_blocks-Ends}
use embyr_rs.AccessControl.RulesFile.Blocks.{
  delineate, Found, collect_blocks, without_offending, until_empty, is_nested, BlockScan,
  parse_block_body, parse_content, blocks_from, parse_nested_match_blocks, some_block,
  parse_match_blocks, shell_body, parse_rules_file,
}
use embyr_rs.AccessControl.RulesFile.Blocks.Clauses.{
  Halts, then-Halts, or-Halts, guarded, split_non_empty-Halts, leaf_block-Halts,
}

-- The block's body and what is behind it are shorter than the text.
abbrev Inside : Text → Text × Text × Text → Type 0
Inside s d = (length (d.1) < length s) × (length (d.2) < length s)

pattern_behind :
    (s r : Text)
    → length r < length s
    → Ends (λ p. length (p.1) < length s) (find_path_pattern_end (trim_start r))
pattern_behind s r l =
    Ends-mono (λ p. length (p.1) ≤ length (trim_start r)) (λ p. length (p.1) < length s) _
      (λ p k. let t = length-trim_start r in omega (arith, k, t, l))
      (find_path_pattern_end-Ends (trim_start r))

delineate-Ends : (s : Text) → Ends (Inside s) (delineate s)
unfolding delineate
delineate-Ends s =
    Ends->>= (λ r. length r < length s) (Inside s)
      (ok_or shell_syntax_error (keyword (codes "match") starts_with_space s)) _
      (Ends-ok_or _ [] syntax_construct (keyword (codes "match") starts_with_space s) (λ e. cc)
        λ r e. keyword-length b'm' (codes "atch") starts_with_space s r e)
      λ r l.
        Ends->>= (λ p. length (p.1) < length s) (Inside s) (find_path_pattern_end (trim_start r)) _
          (pattern_behind s r l)
          λ p k.
            Ends->>= (λ q. (length (q.0) < length s) × (length (q.1) < length s)) (Inside s)
              (ok_or shell_syntax_error (find_matching_close (trim_start (p.1)))) _
              (Ends-ok_or _ [] syntax_construct (find_matching_close (trim_start (p.1))) (λ e. cc)
                λ q e.
                  let j = find_matching_close-length (trim_start (p.1)) e in
                  let i = length-trim_start (p.1) in
                  (omega (arith, j, i, k), omega (arith, j, i, k)))
              λ q j. j

-- A scan of bodies up to a length finds real blocks alone.
abbrev ScanHalts : ℕ → BlockScan → Type 0
ScanHalts n scan =
    (body path : Text) (segs : List PathSegment)
    → length body < n
    → Ends (λ f. All IsReal (f.1)) (scan body path segs)

without_offending-Halts : (f : Found) → All IsReal (f.1) → Halts (without_offending f)
without_offending-Halts (bs, []) r = tt
without_offending-Halts (bs, o ∷ os) r = r

collect_blocks-IsReal :
    (r : Checked (List MatchBlock)) (f : Found)
    → Halts r
    → All IsReal (f.1)
    → All IsReal ((collect_blocks r f).1)
collect_blocks-IsReal (ok nested) (bs, os) h r = r
collect_blocks-IsReal (err e) (bs, os) h r = All-append IsReal (e.offending_blocks) os h r

parse_block_body-Halts :
    (n : ℕ) (scan : BlockScan) (body path : Text) (segs : List PathSegment) (functions : Dict Text)
    → ScanHalts n scan
    → length body < n
    → Halts (parse_block_body scan body path segs functions)
unfolding parse_block_body
parse_block_body-Halts n scan body path segs functions s l =
    Ends-if (λ a. Unit) (is_nested body) _ _
      (Ends->>= (λ f. All IsReal (f.1)) (λ a. Unit) (scan body path segs) without_offending
        (s body path segs l) without_offending-Halts)
      (leaf_block-Halts body path segs functions)

parse_content-Halts :
    (n : ℕ) (scan : BlockScan) (pattern body path : Text) (segs : List PathSegment)
    (functions : Dict Text)
    → ScanHalts n scan
    → length body < n
    → Halts (parse_content scan pattern body path segs functions)
unfolding parse_content parse_path_segments
parse_content-Halts n scan pattern body path segs functions s l =
    then-Halts (parse_path_segments pattern) _ (split_non_empty-Halts (strip_slash pattern) pattern)
      λ a. parse_block_body-Halts n scan body (path ++ pattern) (segs ++ a) functions s l

until_empty-Ends :
    (P : Found → Type 0) (s : Text) (r : Checked Found)
    → P ([], [])
    → Ends P r
    → Ends P (until_empty s r)
until_empty-Ends P [] r p q = p
until_empty-Ends P (c ∷ s) r p q = q

blocks_from-ScanHalts : (n : ℕ) (functions : Dict Text) → ScanHalts n (blocks_from n functions)
unfolding blocks_from
blocks_from-ScanHalts zero functions body path segs l = absurd (omega arith)
blocks_from-ScanHalts (suc n) functions body path segs l =
    until_empty-Ends (λ f. All IsReal (f.1)) (trim_start body) _ tt
      (Ends->>= (Inside (trim_start body)) (λ f. All IsReal (f.1)) (delineate (trim_start body)) _
        (delineate-Ends (trim_start body))
        λ d (inner, after).
          let t = length-trim_start body in
          Ends->>= (λ f. All IsReal (f.1)) (λ f. All IsReal (f.1))
            (blocks_from n functions (d.2) path segs) _
            (blocks_from-ScanHalts n functions (d.2) path segs (omega (arith, t, after, l)))
            λ found r.
              collect_blocks-IsReal
                (parse_content (blocks_from n functions) (d.0) (d.1) path segs functions) found
                (parse_content-Halts n (blocks_from n functions) (d.0) (d.1) path segs functions
                  (blocks_from-ScanHalts n functions) (omega (arith, t, inner, l)))
                r)

some_block-Halts : (bs : List MatchBlock) → Halts (some_block bs)
some_block-Halts [] = (λ e. cc, tt)
some_block-Halts (b ∷ bs) = tt

parse_match_blocks-Halts :
    (body : Text) (functions : Dict Text) → Halts (parse_match_blocks body functions)
unfolding parse_match_blocks parse_nested_match_blocks
parse_match_blocks-Halts body functions =
    then-Halts (parse_nested_match_blocks body [] [] functions) _
      (Ends->>= (λ f. All IsReal (f.1)) (λ a. Unit)
        (blocks_from (suc (length body)) functions body [] []) _
        (blocks_from-ScanHalts (suc (length body)) functions body [] [] (omega arith))
        without_offending-Halts)
      some_block-Halts

shell_body-Halts : (words s : Text) → Halts (shell_body words s)
unfolding shell_body
shell_body-Halts words s = then-Halts _ _ (or-Halts [] (strip_prefix words s)) λ a.
    then-Halts _ _ (or-Halts [] (find_matching_close (trim_start a)))
      λ b. guarded (is_empty (trim (b.1))) [] _ tt

-- Neither the shells nor the function blocks nor the match blocks use up their fuel.
pub parse_rules_file-Halts :
    (F : Type 0) ⦃float : Float F⦄ (source : Text) → Halts (parse_rules_file F source)
unfolding parse_rules_file
parse_rules_file-Halts F source =
    then-Halts _ _ (shell_body-Halts (codes "service cloud.firestore") (trim source)) λ s.
      then-Halts _ _ (parse_function_blocks-Ends F s) λ p.
        then-Halts _ _ (shell_body-Halts (codes "match /databases/{database}/documents") (p.1))
          λ d. parse_match_blocks-Halts d (p.0)
