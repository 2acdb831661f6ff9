-- ===== src/AccessControl/PathRouting/Overlap.antt =====
-- `structurally_overlap` and `classify_prefix_relation` against the paths that patterns stand for.
use embyr_rs.Base.{
  suc, ◌≤◌, ◌==◌, ==_iff, true, List, [], ◌∷◌, length, ◌≡◌, ◌≢◌, refl, sym, ap, ◌∙◌, ◌↔◌, arith,
  All, and_true, and_intro,
}
use embyr_rs.Base.Text.{Text, text_eq, text_eq_iff, text_eq_sound}
use embyr_rs.AccessControl.PathRouting.{
  PathSegment, literal, wildcard, recursive_wildcard, positions_compatible, zip_all,
  structurally_overlap, generalizes,
}
use embyr_rs.AccessControl.PathRouting.Binding.{MatchesPrefix, Matches}

-- No segment is a recursive wildcard, as in every ancestor and fixed prefix that is stored.
abbrev pub IsFixed : List PathSegment → Type 0
IsFixed ps = All (λ p. p ≢ recursive_wildcard) ps

-- A path that both patterns stand for, where every position is compatible.
abbrev pub meet : List PathSegment → List PathSegment → List Text
meet (literal x ∷ ps) (q ∷ qs) = x ∷ meet ps qs
meet (p ∷ ps) (literal y ∷ qs) = y ∷ meet ps qs
meet (p ∷ ps) (q ∷ qs) = [] ∷ meet ps qs
meet [] (literal y ∷ qs) = y ∷ meet [] qs
meet [] (q ∷ qs) = [] ∷ meet [] qs
meet ps [] = []

pub meet_left :
    (ps qs : List PathSegment)
    → length ps ≤ length qs
    → zip_all positions_compatible ps qs ≡ true
    → MatchesPrefix ps (meet ps qs)
unfolding positions_compatible
meet_left [] qs l h = tt
meet_left (p ∷ ps) [] l h = absurd (omega arith)
meet_left (literal x ∷ ps) (literal y ∷ qs) l h =
    (refl, meet_left ps qs (omega arith) (and_true h).1)
meet_left (literal x ∷ ps) (wildcard w ∷ qs) l h = (refl, meet_left ps qs (omega arith) h)
meet_left (wildcard v ∷ ps) (literal y ∷ qs) l h = meet_left ps qs (omega arith) h
meet_left (wildcard v ∷ ps) (wildcard w ∷ qs) l h = meet_left ps qs (omega arith) h
meet_left (literal x ∷ ps) (recursive_wildcard ∷ qs) l h = cc
meet_left (wildcard v ∷ ps) (recursive_wildcard ∷ qs) l h = cc
meet_left (recursive_wildcard ∷ ps) (q ∷ qs) l h = cc

pub meet_right :
    (ps qs : List PathSegment)
    → IsFixed qs
    → length ps ≤ length qs
    → zip_all positions_compatible ps qs ≡ true
    → MatchesPrefix qs (meet ps qs)
unfolding positions_compatible
meet_right [] [] f l h = tt
meet_right [] (literal y ∷ qs) (_, f) l h = (refl, meet_right [] qs f (omega arith) refl)
meet_right [] (wildcard w ∷ qs) (_, f) l h = meet_right [] qs f (omega arith) refl
meet_right [] (recursive_wildcard ∷ qs) (n, f) l h = absurd (n refl)
meet_right (p ∷ ps) [] f l h = absurd (omega arith)
meet_right (literal x ∷ ps) (literal y ∷ qs) (_, f) l h =
    let (e, rest) = and_true {a = text_eq x y} {b = zip_all positions_compatible ps qs} h in
    (sym (text_eq_sound x y e), meet_right ps qs f (omega arith) rest)
meet_right (literal x ∷ ps) (wildcard w ∷ qs) (_, f) l h = meet_right ps qs f (omega arith) h
meet_right (wildcard v ∷ ps) (literal y ∷ qs) (_, f) l h =
    (refl, meet_right ps qs f (omega arith) h)
meet_right (wildcard v ∷ ps) (wildcard w ∷ qs) (_, f) l h = meet_right ps qs f (omega arith) h
meet_right (literal x ∷ ps) (recursive_wildcard ∷ qs) f l h = cc
meet_right (wildcard v ∷ ps) (recursive_wildcard ∷ qs) f l h = cc
meet_right (recursive_wildcard ∷ ps) (q ∷ qs) f l h = cc

length-meet : (ps qs : List PathSegment) → length ps ≤ length qs → length (meet ps qs) ≡ length qs
length-meet [] [] l = refl
length-meet [] (literal y ∷ qs) l = ap suc (length-meet [] qs (omega arith))
length-meet [] (wildcard w ∷ qs) l = ap suc (length-meet [] qs (omega arith))
length-meet [] (recursive_wildcard ∷ qs) l = ap suc (length-meet [] qs (omega arith))
length-meet (p ∷ ps) [] l = absurd (omega arith)
length-meet (literal x ∷ ps) (q ∷ qs) l = ap suc (length-meet ps qs (omega arith))
length-meet (wildcard v ∷ ps) (literal y ∷ qs) l = ap suc (length-meet ps qs (omega arith))
length-meet (wildcard v ∷ ps) (wildcard w ∷ qs) l = ap suc (length-meet ps qs (omega arith))
length-meet (wildcard v ∷ ps) (recursive_wildcard ∷ qs) l = ap suc (length-meet ps qs (omega arith))
length-meet (recursive_wildcard ∷ ps) (literal y ∷ qs) l = ap suc (length-meet ps qs (omega arith))
length-meet (recursive_wildcard ∷ ps) (wildcard w ∷ qs) l = ap suc (length-meet ps qs (omega arith))
length-meet (recursive_wildcard ∷ ps) (recursive_wildcard ∷ qs) l =
    ap suc (length-meet ps qs (omega arith))

-- A common path shows that every position is compatible.
pub compatible_of_common :
    (ps qs : List PathSegment) (ts : List Text)
    → MatchesPrefix ps ts
    → MatchesPrefix qs ts
    → zip_all positions_compatible ps qs ≡ true
unfolding positions_compatible
compatible_of_common [] qs ts m n = refl
compatible_of_common (p ∷ ps) [] ts m n = refl
compatible_of_common (literal x ∷ ps) (literal y ∷ qs) (t ∷ ts) (e, m) (e', n) =
    and_intro ((text_eq_iff x y).1 (e ∙ sym e')) (compatible_of_common ps qs ts m n)
compatible_of_common (literal x ∷ ps) (wildcard w ∷ qs) (t ∷ ts) (e, m) n =
    compatible_of_common ps qs ts m n
compatible_of_common (wildcard v ∷ ps) (literal y ∷ qs) (t ∷ ts) m (e, n) =
    compatible_of_common ps qs ts m n
compatible_of_common (wildcard v ∷ ps) (wildcard w ∷ qs) (t ∷ ts) m n =
    compatible_of_common ps qs ts m n
compatible_of_common (recursive_wildcard ∷ ps) (q ∷ qs) (t ∷ ts) m n = absurd m
compatible_of_common (literal x ∷ ps) (recursive_wildcard ∷ qs) (t ∷ ts) m n = absurd n
compatible_of_common (wildcard v ∷ ps) (recursive_wildcard ∷ qs) (t ∷ ts) m n = absurd n
compatible_of_common (literal x ∷ ps) (q ∷ qs) [] m n = absurd m
compatible_of_common (wildcard v ∷ ps) (q ∷ qs) [] m n = absurd m
compatible_of_common (recursive_wildcard ∷ ps) (q ∷ qs) [] m n = absurd m

IsFixed-of_compatible :
    (ps qs : List PathSegment)
    → length ps ≡ length qs
    → zip_all positions_compatible ps qs ≡ true
    → IsFixed qs
unfolding positions_compatible
IsFixed-of_compatible [] [] l h = tt
IsFixed-of_compatible [] (q ∷ qs) l h = absurd (omega arith)
IsFixed-of_compatible (p ∷ ps) [] l h = absurd (omega arith)
IsFixed-of_compatible (literal x ∷ ps) (literal y ∷ qs) l h =
    (cc, IsFixed-of_compatible ps qs (omega arith) (and_true h).1)
IsFixed-of_compatible (literal x ∷ ps) (wildcard w ∷ qs) l h =
    (cc, IsFixed-of_compatible ps qs (omega arith) h)
IsFixed-of_compatible (wildcard v ∷ ps) (literal y ∷ qs) l h =
    (cc, IsFixed-of_compatible ps qs (omega arith) h)
IsFixed-of_compatible (wildcard v ∷ ps) (wildcard w ∷ qs) l h =
    (cc, IsFixed-of_compatible ps qs (omega arith) h)
IsFixed-of_compatible (literal x ∷ ps) (recursive_wildcard ∷ qs) l h = cc
IsFixed-of_compatible (wildcard v ∷ ps) (recursive_wildcard ∷ qs) l h = cc
IsFixed-of_compatible (recursive_wildcard ∷ ps) (q ∷ qs) l h = cc

-- Two patterns overlap exactly when some concrete path is a path of both.
pub structurally_overlap_iff :
    (ps qs : List PathSegment)
    → (structurally_overlap ps qs ≡ true) ↔ ((ts : List Text) × Matches ps ts × Matches qs ts)
unfolding structurally_overlap
structurally_overlap_iff ps qs = (
  λ h.
      let (l, z) =
        and_true {a = length ps == length qs} {b = zip_all positions_compatible ps qs} h in
      let e = (==_iff (length ps) (length qs)).0 l in
      let f = IsFixed-of_compatible ps qs e z in
      let n = length-meet ps qs (omega arith) in
      (
        meet ps qs,
        (omega arith, meet_left ps qs (omega arith) z),
        (omega arith, meet_right ps qs f (omega arith) z),
      ),
  λ (ts, (l, m), (k, n)).
      and_intro ((==_iff (length ps) (length qs)).1 (omega arith))
        (compatible_of_common ps qs ts m n),
)

-- Where the first pattern generalizes the second at every position, it stands for all its paths.
pub generalizes_sound :
    (ps qs : List PathSegment) (ts : List Text)
    → length ps ≤ length qs
    → zip_all generalizes ps qs ≡ true
    → MatchesPrefix qs ts
    → MatchesPrefix ps ts
unfolding generalizes
generalizes_sound [] qs ts l h m = tt
generalizes_sound (p ∷ ps) [] ts l h m = absurd (omega arith)
generalizes_sound (literal x ∷ ps) (literal y ∷ qs) (t ∷ ts) l h (e, m) =
    let (same, rest) = and_true {a = text_eq x y} {b = zip_all generalizes ps qs} h in
    (text_eq_sound x y same ∙ e, generalizes_sound ps qs ts (omega arith) rest m)
generalizes_sound (wildcard v ∷ ps) (literal y ∷ qs) (t ∷ ts) l h (e, m) =
    generalizes_sound ps qs ts (omega arith) h m
generalizes_sound (wildcard v ∷ ps) (wildcard w ∷ qs) (t ∷ ts) l h m =
    generalizes_sound ps qs ts (omega arith) h m
generalizes_sound (wildcard v ∷ ps) (recursive_wildcard ∷ qs) (t ∷ ts) l h m = absurd m
generalizes_sound (literal x ∷ ps) (wildcard w ∷ qs) (t ∷ ts) l h m = cc
generalizes_sound (literal x ∷ ps) (recursive_wildcard ∷ qs) (t ∷ ts) l h m = cc
generalizes_sound (recursive_wildcard ∷ ps) (q ∷ qs) (t ∷ ts) l h m = cc
generalizes_sound (p ∷ ps) (literal y ∷ qs) [] l h m = absurd m
generalizes_sound (p ∷ ps) (wildcard w ∷ qs) [] l h m = absurd m
generalizes_sound (p ∷ ps) (recursive_wildcard ∷ qs) [] l h m = absurd m
