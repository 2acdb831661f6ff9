-- ===== src/AccessControl/PathRouting/Reach.antt =====
-- `fixed_depth_full_reach` against the documents that a rule of fixed depth is for.
use embyr_rs.Base.{suc, List, [], ◌∷◌, ◌++◌, length, length-append, ◌≡◌, ◌↔◌, arith}
use embyr_rs.Base.Text.{Text}
use embyr_rs.AccessControl.PathRouting.{
  PathSegment, literal, wildcard, recursive_wildcard, fixed_depth_full_reach,
}
use embyr_rs.AccessControl.PathRouting.Binding.{MatchesPrefix, Matches}

prefix_of_reach :
    (ps : List PathSegment) (ts : List Text)
    → MatchesPrefix (ps ++ wildcard [] ∷ []) ts
    → MatchesPrefix ps ts
prefix_of_reach [] ts m = tt
prefix_of_reach (literal x ∷ ps) (t ∷ ts) (e, m) = (e, prefix_of_reach ps ts m)
prefix_of_reach (wildcard v ∷ ps) (t ∷ ts) m = prefix_of_reach ps ts m
prefix_of_reach (recursive_wildcard ∷ ps) (t ∷ ts) m = m
prefix_of_reach (literal x ∷ ps) [] m = m
prefix_of_reach (wildcard v ∷ ps) [] m = m
prefix_of_reach (recursive_wildcard ∷ ps) [] m = m

reach_of_prefix :
    (ps : List PathSegment) (ts : List Text)
    → length ts ≡ suc (length ps)
    → MatchesPrefix ps ts
    → MatchesPrefix (ps ++ wildcard [] ∷ []) ts
reach_of_prefix [] [] l m = absurd (omega arith)
reach_of_prefix [] (t ∷ ts) l m = tt
reach_of_prefix (literal x ∷ ps) (t ∷ ts) l (e, m) = (e, reach_of_prefix ps ts (omega arith) m)
reach_of_prefix (wildcard v ∷ ps) (t ∷ ts) l m = reach_of_prefix ps ts (omega arith) m
reach_of_prefix (recursive_wildcard ∷ ps) (t ∷ ts) l m = m
reach_of_prefix (literal x ∷ ps) [] l m = m
reach_of_prefix (wildcard v ∷ ps) [] l m = m
reach_of_prefix (recursive_wildcard ∷ ps) [] l m = m

-- The full reach of a rule of fixed depth is the documents that lie exactly one segment below its
-- ancestor.
pub fixed_depth_full_reach_iff :
    (ps : List PathSegment) (ts : List Text)
    → Matches (fixed_depth_full_reach ps) ts ↔ (MatchesPrefix ps ts × (length ts ≡ suc (length ps)))
unfolding fixed_depth_full_reach
fixed_depth_full_reach_iff ps ts = (
  λ (l, m). (prefix_of_reach ps ts m, omega (arith, length-append ps (wildcard [] ∷ []))),
  λ (m, l). (omega (arith, length-append ps (wildcard [] ∷ [])), reach_of_prefix ps ts l m),
)
