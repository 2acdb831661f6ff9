-- ===== src/AccessControl/RulesFile/Segments/RoundTrip.antt =====
-- Rendering a parsed pattern gives its text back, which is parsed to the same segments.
use embyr_rs.Base.{
  ok_inj, List, some, [], ◌∷◌, All, ◌≡◌, ◌≢◌, refl, sym, subst, ◌∙◌, ap, ok, err, >>=-ok,
}
use embyr_rs.Base.Text.{Text, codes, join}
use embyr_rs.AccessControl.PathTemplates.{split}
use embyr_rs.AccessControl.PathRouting.{PathSegment}
use embyr_rs.AccessControl.RulesFile.{syntax_construct, single}
use embyr_rs.AccessControl.RulesFile.Segments.{
  braced, text_contains, parse_one_segment, parse_each_segment, strip_slash, split_non_empty,
  parse_path_segments, render_ancestor_pattern,
}
use embyr_rs.AccessControl.RulesFile.Segments.Splitting.{
  Lacks, split-cons, split-Lacks-All, split-join, join-split,
}
use embyr_rs.AccessControl.RulesFile.Segments.Rendering.{
  IsNamed, written, all_written, render_ancestor_pattern-written, written-parse_one_segment,
  parse_one_segment-other,
}

-- A segment, unless it is a recursive wildcard, is what its own rendering is parsed to, for any
-- pattern in the error, and no slash stands in the rendering.
abbrev pub IsWritten : PathSegment → Type 0
IsWritten s =
    IsNamed s → ((p : Text) → parse_one_segment (written s) p ≡ ok s) × Lacks b'/' (written s)

parse_each_segment-IsNonEmpty :
    (t : Text) (ts : List Text) (p : Text) (segs : List PathSegment)
    → parse_each_segment (t ∷ ts) p ≡ ok segs
    → segs ≢ []
unfolding parse_each_segment
parse_each_segment-IsNonEmpty t ts p segs h =
    let (first, e, more) = >>=-ok (parse_one_segment t p) _ h in
    let (rest, f, last) = >>=-ok (parse_each_segment ts p) _ more in
    subst (λ s. s ≢ []) (ok_inj last) (λ q. cc)

split_non_empty-IsNonEmpty :
    (s p : Text) (segs : List PathSegment) → split_non_empty s p ≡ ok segs → segs ≢ []
split_non_empty-IsNonEmpty [] p segs h = cc
split_non_empty-IsNonEmpty (c ∷ s) p segs h =
    let (t, ts, e) = split-cons b'/' (c ∷ s) in
    parse_each_segment-IsNonEmpty t ts p segs (rw e at h)

pub parse_path_segments-IsNonEmpty :
    (p : Text) (segs : List PathSegment) → parse_path_segments p ≡ ok segs → segs ≢ []
unfolding parse_path_segments
parse_path_segments-IsNonEmpty p segs h = split_non_empty-IsNonEmpty (strip_slash p) p segs h

parse_one_segment-IsWritten :
    (seg p : Text) (s : PathSegment) → parse_one_segment seg p ≡ ok s → Lacks b'/' seg → IsWritten s
parse_one_segment-IsWritten seg p s h l n =
    let same = written-parse_one_segment seg p s h n in
    (λ q. rw same (parse_one_segment-other seg p q s h), rw same l)

parse_each_segment-IsWritten :
    (ts : List Text) (p : Text) (segs : List PathSegment)
    → parse_each_segment ts p ≡ ok segs
    → All (Lacks b'/') ts
    → All IsWritten segs
unfolding parse_each_segment
parse_each_segment-IsWritten [] p [] h l = tt
parse_each_segment-IsWritten [] p (s ∷ segs) h l = cc
parse_each_segment-IsWritten (t ∷ ts) p segs h l =
    let (first, e, more) = >>=-ok (parse_one_segment t p) _ h in
    let (rest, f, last) = >>=-ok (parse_each_segment ts p) _ more in
    subst (All IsWritten) (ok_inj last) (
      parse_one_segment-IsWritten t p first e (l.0),
      parse_each_segment-IsWritten ts p rest f (l.1),
    )

split_non_empty-IsWritten :
    (s p : Text) (segs : List PathSegment) → split_non_empty s p ≡ ok segs → All IsWritten segs
split_non_empty-IsWritten [] p segs h = cc
split_non_empty-IsWritten (c ∷ s) p segs h =
    parse_each_segment-IsWritten (split b'/' (c ∷ s)) p segs h (split-Lacks-All b'/' (c ∷ s))

-- Every segment of a parsed pattern is what its own rendering is parsed to.
pub parse_path_segments-IsWritten :
    (p : Text) (segs : List PathSegment) → parse_path_segments p ≡ ok segs → All IsWritten segs
unfolding parse_path_segments
parse_path_segments-IsWritten p segs h = split_non_empty-IsWritten (strip_slash p) p segs h

parse_each_segment-all_written :
    (segs : List PathSegment) (p : Text)
    → All IsNamed segs
    → All IsWritten segs
    → parse_each_segment (all_written segs) p ≡ ok segs
unfolding parse_each_segment
parse_each_segment-all_written [] p n w = refl
parse_each_segment-all_written (s ∷ segs) p n w =
    rw ((w.0 (n.0)).0 p) (rw (parse_each_segment-all_written segs p (n.1) (w.1)) refl)

all_written-Lacks :
    (segs : List PathSegment)
    → All IsNamed segs
    → All IsWritten segs
    → All (Lacks b'/') (all_written segs)
all_written-Lacks [] n w = tt
all_written-Lacks (s ∷ segs) n w = ((w.0 (n.0)).1, all_written-Lacks segs (n.1) (w.1))

-- The text of the patterns that the database stores: what was rendered is parsed back.
split_non_empty-join :
    (t : Text) (ts : List Text) (p : Text) (segs : List PathSegment)
    → t ≢ []
    → All (Lacks b'/') (t ∷ ts)
    → parse_each_segment (t ∷ ts) p ≡ ok segs
    → split_non_empty (strip_slash (join (codes "/") (t ∷ ts))) p ≡ ok segs
split_non_empty-join [] ts p segs e l h = absurd (e refl)
split_non_empty-join (a ∷ t) [] p segs e l h = rw (l.0.0) (rw (split-join b'/' (a ∷ t) [] l) h)
split_non_empty-join (a ∷ t) (u ∷ ts) p segs e l h =
    rw (l.0.0) (rw (split-join b'/' (a ∷ t) (u ∷ ts) l) h)

parse_one_segment-empty : (p : Text) → parse_one_segment [] p ≡ err (single p syntax_construct)
unfolding parse_one_segment braced text_contains
parse_one_segment-empty p = refl

written-IsNonEmpty : (s : PathSegment) → IsNamed s → IsWritten s → written s ≢ []
written-IsNonEmpty s n w e =
    let back = rw e at (w n).0 [] in let failed = parse_one_segment-empty [] in cc

parse_path_segments-written :
    (s : PathSegment) (segs : List PathSegment)
    → All IsNamed (s ∷ segs)
    → All IsWritten (s ∷ segs)
    → parse_path_segments (join (codes "/") (all_written (s ∷ segs))) ≡ ok (s ∷ segs)
unfolding parse_path_segments
parse_path_segments-written s segs n w =
    split_non_empty-join (written s) (all_written segs) _ (s ∷ segs)
      (written-IsNonEmpty s (n.0) (w.0)) (all_written-Lacks (s ∷ segs) n w)
      (parse_each_segment-all_written (s ∷ segs) _ n w)

-- A list of segments from parsed patterns, not empty and without a recursive wildcard, is rendered,
-- and is what the text is parsed to.
pub parse_path_segments-render_ancestor_pattern :
    (s : PathSegment) (segs : List PathSegment)
    → All IsNamed (s ∷ segs)
    → All IsWritten (s ∷ segs)
    → (t : Text) × (render_ancestor_pattern (s ∷ segs) ≡ some t)
      × (parse_path_segments t ≡ ok (s ∷ segs))
parse_path_segments-render_ancestor_pattern s segs n w =
    (_, render_ancestor_pattern-written (s ∷ segs) n, parse_path_segments-written s segs n w)

all_written-parse_each_segment :
    (ts : List Text) (p : Text) (segs : List PathSegment)
    → parse_each_segment ts p ≡ ok segs
    → All IsNamed segs
    → all_written segs ≡ ts
unfolding parse_each_segment
all_written-parse_each_segment [] p [] h n = refl
all_written-parse_each_segment [] p (s ∷ segs) h n = cc
all_written-parse_each_segment (t ∷ ts) p segs h n =
    let (first, e, more) = >>=-ok (parse_one_segment t p) _ h in
    let (rest, f, last) = >>=-ok (parse_each_segment ts p) _ more in
    let named = subst (All IsNamed) (sym (ok_inj last)) n in
    subst (λ r. all_written r ≡ t ∷ ts) (ok_inj last)
      (cc (
        written-parse_one_segment t p first e (named.0),
        all_written-parse_each_segment ts p rest f (named.1),
      ))

written-split_non_empty :
    (s p : Text) (segs : List PathSegment)
    → split_non_empty s p ≡ ok segs
    → All IsNamed segs
    → join (codes "/") (all_written segs) ≡ s
written-split_non_empty [] p segs h n = cc
written-split_non_empty (c ∷ s) p segs h n =
    ap (join (codes "/")) (all_written-parse_each_segment (split b'/' (c ∷ s)) p segs h n)
    ∙ join-split b'/' (c ∷ s)

-- A pattern that is parsed to segments without a recursive wildcard is what they are rendered to, less
-- a slash at its front, and the rendering is parsed to the same segments.
pub render_ancestor_pattern-parse_path_segments :
    (p : Text) (segs : List PathSegment)
    → parse_path_segments p ≡ ok segs
    → All IsNamed segs
    → (render_ancestor_pattern segs ≡ some (strip_slash p))
      × (parse_path_segments (strip_slash p) ≡ ok segs)
unfolding parse_path_segments
render_ancestor_pattern-parse_path_segments p [] h n =
    absurd (split_non_empty-IsNonEmpty _ p [] h refl)
render_ancestor_pattern-parse_path_segments p (s ∷ segs) h n =
    let same = written-split_non_empty (strip_slash p) p (s ∷ segs) h n in
    (
      render_ancestor_pattern-written (s ∷ segs) n ∙ ap some same,
      subst (λ t. parse_path_segments t ≡ ok (s ∷ segs)) same
          (parse_path_segments-written s segs n (parse_path_segments-IsWritten p (s ∷ segs) h)),
    )
