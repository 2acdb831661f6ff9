-- ===== src/AccessControl/RulesFile/Segments/Rendering.antt =====
-- What a segment that was parsed is rendered to.
use embyr_rs.Base.{
  Bool-cases, Option, none, some, List, [], ◌∷◌, All, ◌++◌, ◌≡◌, inl, inr, refl, sym, ◌∙◌, ap, ok,
}
use embyr_rs.Base.Text.{Text, codes, join}
use embyr_rs.AccessControl.PathRouting.{PathSegment, literal, wildcard, recursive_wildcard}
use embyr_rs.AccessControl.RulesFile.{Checked}
use embyr_rs.AccessControl.RulesFile.Segments.{
  braced, segment_of, text_contains, ends_with, variable_segment, literal_segment,
  parse_one_segment, render_segment, render_segments, render_ancestor_pattern,
}
use embyr_rs.AccessControl.RulesFile.Segments.Splitting.{braced_sound}

-- A segment that is no recursive wildcard.
abbrev pub IsNamed : PathSegment → Type 0
IsNamed (literal s) = Unit
IsNamed (wildcard v) = Unit
IsNamed recursive_wildcard = ⊥

-- What a segment that is no recursive wildcard is rendered to.
abbrev pub written : PathSegment → Text
written (literal s) = s
written (wildcard name) = b'{' ∷ name ++ b'}' ∷ []
written recursive_wildcard = []

abbrev pub all_written : List PathSegment → List Text
all_written [] = []
all_written (s ∷ segs) = written s ∷ all_written segs

render_segment-written : (s : PathSegment) → IsNamed s → render_segment s ≡ some (written s)
unfolding render_segment
render_segment-written (literal s) n = refl
render_segment-written (wildcard s) n = refl
render_segment-written recursive_wildcard n = absurd n

render_segments-written :
    (segs : List PathSegment) → All IsNamed segs → render_segments segs ≡ some (all_written segs)
unfolding render_segments
render_segments-written [] n = refl
render_segments-written (s ∷ segs) (n, ns) =
    rw (render_segment-written s n) (rw (render_segments-written segs ns) refl)

-- Without a recursive wildcard the rendering is no panic.
pub render_ancestor_pattern-written :
    (segs : List PathSegment)
    → All IsNamed segs
    → render_ancestor_pattern segs ≡ some (join (codes "/") (all_written segs))
unfolding render_ancestor_pattern
render_ancestor_pattern-written segs n = rw (render_segments-written segs n) refl

literal_segment_sound :
    (p seg : Text) (s : PathSegment) → literal_segment p seg ≡ ok s → IsNamed s → written s ≡ seg
literal_segment_sound p [] s h = cc
literal_segment_sound p (c ∷ seg) (literal t) h = λ n. cc
literal_segment_sound p (c ∷ seg) (wildcard t) h = cc
literal_segment_sound p (c ∷ seg) recursive_wildcard h = cc

text_of : {s t : Text} → Path (Checked PathSegment) (ok (wildcard s)) (ok (wildcard t)) → t ≡ s
text_of h = cc

variable_segment_sound :
    (p seg : Text) (s : PathSegment)
    → variable_segment p seg ≡ ok s
    → IsNamed s
    → written s ≡ b'{' ∷ seg ++ b'}' ∷ []
variable_segment_sound p [] s h = cc
variable_segment_sound p (c ∷ seg) (literal t) h = cc
variable_segment_sound p (c ∷ seg) (wildcard t) h = λ n. ap (λ r. b'{' ∷ r ++ b'}' ∷ []) (text_of h)
variable_segment_sound p (c ∷ seg) recursive_wildcard h = cc

not_recursive :
    (s : PathSegment) → Path (Checked PathSegment) (ok recursive_wildcard) (ok s) → IsNamed s → ⊥
not_recursive (literal t) h n = cc
not_recursive (wildcard t) h n = cc
not_recursive recursive_wildcard h n = n

written-segment_of :
    (o : Option Text) (seg p : Text) (s : PathSegment)
    → braced seg ≡ o
    → segment_of o seg p ≡ ok s
    → IsNamed s
    → written s ≡ seg
written-segment_of none seg p s b h n = elim (Bool-cases (text_contains seg (codes "**"))) [
  | inl f ↦ absurd (not_recursive s (rw f at h) n)
  | inr f ↦ literal_segment_sound p seg s (rw f at h) n
]
written-segment_of (some inner) seg p s b h n = elim (Bool-cases (ends_with inner (codes "=**"))) [
  | inl f ↦ absurd (not_recursive s (rw f at h) n)
  | inr f ↦ variable_segment_sound p inner s (rw f at h) n ∙ sym (braced_sound seg inner b)
]

pub written-parse_one_segment :
    (seg p : Text) (s : PathSegment) → parse_one_segment seg p ≡ ok s → IsNamed s → written s ≡ seg
unfolding parse_one_segment
written-parse_one_segment seg p s h n = written-segment_of (braced seg) seg p s refl h n

literal_segment-other :
    (seg p q : Text) (s : PathSegment) → literal_segment p seg ≡ ok s → literal_segment q seg ≡ ok s
literal_segment-other [] p q s h = cc
literal_segment-other (c ∷ seg) p q s h = h

variable_segment-other :
    (seg p q : Text) (s : PathSegment)
    → variable_segment p seg ≡ ok s
    → variable_segment q seg ≡ ok s
variable_segment-other [] p q s h = cc
variable_segment-other (c ∷ seg) p q s h = h

segment_of-other :
    (o : Option Text) (seg p q : Text) (s : PathSegment)
    → segment_of o seg p ≡ ok s
    → segment_of o seg q ≡ ok s
segment_of-other none seg p q s h = elim (Bool-cases (text_contains seg (codes "**"))) [
  | inl f ↦ rw f (rw f at h)
  | inr f ↦ rw f (literal_segment-other seg p q s (rw f at h))
]
segment_of-other (some inner) seg p q s h = elim (Bool-cases (ends_with inner (codes "=**"))) [
  | inl f ↦ rw f (rw f at h)
  | inr f ↦ rw f (variable_segment-other inner p q s (rw f at h))
]

-- The pattern only stands in the error.
pub parse_one_segment-other :
    (seg p q : Text) (s : PathSegment)
    → parse_one_segment seg p ≡ ok s
    → parse_one_segment seg q ≡ ok s
unfolding parse_one_segment
parse_one_segment-other seg p q s h = segment_of-other (braced seg) seg p q s h
