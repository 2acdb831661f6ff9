-- ===== src/AccessControl/RulesFile/Blocks/Paths.antt =====
-- The path of a nested block: behind the path of the block around it, from a slash on.
use embyr_rs.Base.{
  ℕ, zero, suc, ◌==◌, ==_iff, true, Bool-cases, List, [], ◌∷◌, ◌++◌, ◌≡◌, ◌≢◌, inl, inr, refl, ap,
  ◌∙◌, ok, ok_or, ok_inj, >>=-ok,
}
use embyr_rs.Base.Text.{Text, codes}
use embyr_rs.AccessControl.PathTemplates.{split, cons_first}
use embyr_rs.AccessControl.PathRouting.{PathSegment}
use embyr_rs.AccessControl.Scan.{is_whitespace, span}
use embyr_rs.AccessControl.RulesFile.{shell_syntax_error}
use embyr_rs.AccessControl.RulesFile.Segments.{
  parse_one_segment, parse_each_segment, split_non_empty, strip_slash, parse_path_segments,
}
use embyr_rs.AccessControl.RulesFile.Segments.Splitting.{split-cons}
use embyr_rs.AccessControl.RulesFile.Segments.Rendering.{parse_one_segment-other}
use embyr_rs.AccessControl.RulesFile.Shell.{
  trim, trim_start, trim_end, drop_space, starts_with_space, keyword, slash_first,
  find_matching_close, pattern_segment, pattern_from, find_path_pattern_end,
}
use embyr_rs.AccessControl.RulesFile.Blocks.{delineate}
use embyr_rs.AccessControl.RulesFile.Blocks.Holds.{Holds, Holds->>=, Holds-any}

-- The text begins with a slash.
abbrev pub IsSlashed : Text → Type 0
IsSlashed s = (t : Text) × (s ≡ b'/' ∷ t)

-- A path that blocks stand under: none, or one that is parsed to the segments.
abbrev pub Located : Text → List PathSegment → Type 0
Located [] segs = segs ≡ []
Located (c ∷ s) segs = parse_path_segments (c ∷ s) ≡ ok segs

pub parsed-Located :
    (path : Text) (segs : List PathSegment) → parse_path_segments path ≡ ok segs → Located path segs
unfolding parse_path_segments
parsed-Located [] segs h = cc
parsed-Located (c ∷ s) segs h = h

-- `split` at a separator between two texts.
cons_first-append :
    (a : ℕ) (ts us : List Text) → ts ≢ [] → cons_first a (ts ++ us) ≡ cons_first a ts ++ us
cons_first-append a [] us n = absurd (n refl)
cons_first-append a (t ∷ ts) us n = refl

split-IsNonEmpty : (c : ℕ) (s : Text) → split c s ≢ []
split-IsNonEmpty c s e = let (t, ts, q) = split-cons c s in cc

split-append : (c : ℕ) (s t : Text) → split c (s ++ c ∷ t) ≡ split c s ++ split c t
unfolding split
split-append c [] t = rw ((==_iff c c).1 refl) refl
split-append c (a ∷ s) t = elim (Bool-cases (a == c)) [
  | inl e ↦ rw e (ap (λ r. [] ∷ r) (split-append c s t))
  | inr e ↦ rw e (
      ap (cons_first a) (split-append c s t)
      ∙ cons_first-append a (split c s) (split c t) (split-IsNonEmpty c s))
]

parse_each_segment-append :
    (ts us : List Text) (p q r : Text) (a b : List PathSegment)
    → parse_each_segment ts p ≡ ok a
    → parse_each_segment us q ≡ ok b
    → parse_each_segment (ts ++ us) r ≡ ok (a ++ b)
unfolding parse_each_segment
parse_each_segment-append [] [] p q r a b h k = cc
parse_each_segment-append [] (u ∷ us) p q r a b h k =
    let (first, e, more) = >>=-ok (parse_one_segment u q) _ k in
    let (rest, f, last) = >>=-ok (parse_each_segment us q) _ more in
    let rest' = parse_each_segment-append [] us p q r [] rest refl f in
    rw (parse_one_segment-other u q r first e) (rw rest' (cc (ok_inj h)))
parse_each_segment-append (t ∷ ts) us p q r a b h k =
    let (first, e, more) = >>=-ok (parse_one_segment t p) _ h in
    let (rest, f, last) = >>=-ok (parse_each_segment ts p) _ more in
    let rest' = parse_each_segment-append ts us p q r rest b f k in
    rw (parse_one_segment-other t p r first e) (rw rest' (ap (λ s. ok (s ++ b)) (ok_inj last)))

split_non_empty-split :
    (s p : Text) (segs : List PathSegment)
    → split_non_empty s p ≡ ok segs
    → parse_each_segment (split b'/' s) p ≡ ok segs
split_non_empty-split [] p segs h = cc
split_non_empty-split (c ∷ s) p segs h = h

joined :
    (c : ℕ) (s t p : Text) (l : List PathSegment)
    → parse_each_segment (split b'/' ((c ∷ s) ++ t)) p ≡ ok l
    → split_non_empty ((c ∷ s) ++ t) p ≡ ok l
joined c s t p l h = h

strip_slash-append : (c : ℕ) (s t : Text) → strip_slash ((c ∷ s) ++ t) ≡ strip_slash (c ∷ s) ++ t
strip_slash-append c s t = elim (Bool-cases (c == b'/')) [ inl e ↦ rw e refl | inr e ↦ rw e refl ]

split_non_empty-append :
    (s t p q r : Text) (a b : List PathSegment)
    → split_non_empty s p ≡ ok a
    → split_non_empty t q ≡ ok b
    → split_non_empty (s ++ b'/' ∷ t) r ≡ ok (a ++ b)
split_non_empty-append [] t p q r a b h k = cc
split_non_empty-append (c ∷ s) t p q r a b h k = joined c s (b'/' ∷ t) r (a ++ b) (
    rw (split-append b'/' (c ∷ s) t) (
      parse_each_segment-append (split b'/' (c ∷ s)) (split b'/' t) p q r a b h
        (split_non_empty-split t q b k)))

-- A path behind another, from its slash on, is parsed to the segments of the one and of the other.
pub parse_path_segments-append :
    (path pattern : Text) (segs l : List PathSegment)
    → Located path segs
    → IsSlashed pattern
    → parse_path_segments pattern ≡ ok l
    → parse_path_segments (path ++ pattern) ≡ ok (segs ++ l)
unfolding parse_path_segments
parse_path_segments-append [] pattern segs l w s h = rw w h
parse_path_segments-append (c ∷ path) pattern segs l w (t, e) h =
    let h' = rw e at h in
    rw e (
      rw (strip_slash-append c path (b'/' ∷ t))
        (split_non_empty-append (strip_slash (c ∷ path)) t _ _ _ segs l w h'))

-- A pattern that is cut out begins with the slash it was found by.
drop_space-IsSlashed : (s : Text) → IsSlashed (drop_space b'/' s)
unfolding is_whitespace
drop_space-IsSlashed [] = ([], refl)
drop_space-IsSlashed (c ∷ s) = (c ∷ s, refl)

trim-IsSlashed : (s : Text) → IsSlashed s → IsSlashed (trim s)
unfolding trim trim_start trim_end span is_whitespace
trim-IsSlashed s (t, e) = rw e (drop_space-IsSlashed (trim_end t))

pattern_from-IsSlashed :
    (n : ℕ) (s : Text) → slash_first s ≡ true → Holds (λ p. IsSlashed (p.0)) (pattern_from n s)
unfolding pattern_from
pattern_from-IsSlashed zero s h = tt
pattern_from-IsSlashed (suc n) [] h = cc
pattern_from-IsSlashed (suc n) (c ∷ cs) h = rw h (
    Holds->>= (λ p. Unit) (λ p. IsSlashed (p.0)) (pattern_segment cs) _ (Holds-any _)
      λ p u.
        Holds->>= (λ p. Unit) (λ p. IsSlashed (p.0)) (pattern_from n (p.1)) _ (Holds-any _)
          λ q v. (_, refl))

find_path_pattern_end-IsSlashed :
    (s : Text) → Holds (λ p. IsSlashed (p.0)) (find_path_pattern_end s)
unfolding find_path_pattern_end
find_path_pattern_end-IsSlashed s = elim (Bool-cases (slash_first s)) [
  | inl e ↦ rw e (pattern_from-IsSlashed _ s e)
  | inr e ↦ rw e tt
]

pub delineate-IsSlashed : (s : Text) → Holds (λ d. IsSlashed (d.0)) (delineate s)
unfolding delineate
delineate-IsSlashed s =
    Holds->>= (λ r. Unit) (λ d. IsSlashed (d.0))
      (ok_or shell_syntax_error (keyword (codes "match") starts_with_space s)) _ (Holds-any _)
      λ r u.
        Holds->>= (λ p. IsSlashed (p.0)) (λ d. IsSlashed (d.0))
          (find_path_pattern_end (trim_start r)) _ (find_path_pattern_end-IsSlashed (trim_start r))
          λ p slashed.
            Holds->>= (λ q. Unit) (λ d. IsSlashed (d.0))
              (ok_or shell_syntax_error (find_matching_close (trim_start (p.1)))) _ (Holds-any _)
              λ q v. trim-IsSlashed (p.0) slashed
