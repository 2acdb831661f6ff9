-- ===== src/AccessControl/RulesFile/Segments/Shape.antt =====
-- The shape of a path pattern, by the index of each segment.
use embyr_rs.Base.{
  ℕ, zero, suc, Bool, true, false, not, some, List, [], ◌∷◌, length, get_elem?, ◌≡◌, ◌↔◌, refl,
  subst, arith, ok, >>-ok, >>-intro,
}
use embyr_rs.Base.Text.{Text}
use embyr_rs.AccessControl.PathRouting.{PathSegment, literal, wildcard, recursive_wildcard}
use embyr_rs.AccessControl.RulesFile.Segments.{
  check_position, validate_from, validate_segment_shape,
}

-- Whether an index is even, with the parity of the first one given.
abbrev pub even_from : Bool → ℕ → Bool
even_from even zero = even
even_from even (suc i) = even_from (not even) i

-- What may stand at an index of a pattern of `n` segments: a literal anywhere, a variable at an odd
-- index, and a recursive wildcard at the last index, if that is even.
abbrev pub MayStand : Bool → ℕ → ℕ → PathSegment → Type 0
MayStand even n i (literal s) = Unit
MayStand even n i (wildcard v) = even_from even i ≡ false
MayStand even n i recursive_wildcard = (even_from even i ≡ true) × (suc i ≡ n)

abbrev pub IsShaped : Bool → List PathSegment → Type 0
IsShaped even segs =
    (i : ℕ) (seg : PathSegment) → get_elem? segs i ≡ some seg → MayStand even (length segs) i seg

check_position_iff :
    (seg : PathSegment) (even : Bool) (segs : List PathSegment) (p : Text)
    → (check_position seg even segs p ≡ ok tt) ↔ MayStand even (suc (length segs)) 0 seg
unfolding check_position
check_position_iff (literal s) even segs p = (λ e. tt, λ e. refl)
check_position_iff (wildcard v) true segs p = (λ e. cc, λ e. cc)
check_position_iff (wildcard v) false segs p = (λ e. refl, λ e. refl)
check_position_iff recursive_wildcard true [] p = (λ e. (refl, refl), λ e. refl)
check_position_iff recursive_wildcard false [] p = (λ e. cc, λ e. cc)
check_position_iff recursive_wildcard even (s ∷ segs) p =
    (λ e. cc, λ e. absurd (omega (arith, e.1)))

MayStand-suc :
    (even : Bool) (n i : ℕ) (seg : PathSegment)
    → MayStand even (suc n) (suc i) seg ↔ MayStand (not even) n i seg
MayStand-suc even n i (literal s) = (λ x. x, λ x. x)
MayStand-suc even n i (wildcard v) = (λ x. x, λ x. x)
MayStand-suc even n i recursive_wildcard =
    (λ h. (h.0, omega (arith, h.1)), λ h. (h.0, omega (arith, h.1)))

IsShaped-cons :
    (even : Bool) (seg : PathSegment) (segs : List PathSegment)
    → MayStand even (suc (length segs)) 0 seg
    → IsShaped (not even) segs
    → IsShaped even (seg ∷ segs)
IsShaped-cons even seg segs first rest zero t h =
    subst (MayStand even (suc (length segs)) 0) (cc h) first
IsShaped-cons even seg segs first rest (suc i) t h =
    (MayStand-suc even (length segs) i t).1 (rest i t h)

validate_from_iff :
    (even : Bool) (segs : List PathSegment) (p : Text)
    → (validate_from even segs p ≡ ok tt) ↔ IsShaped even segs
unfolding validate_from
validate_from_iff even [] p = (λ e i seg h. cc, λ s. refl)
validate_from_iff even (seg ∷ segs) p = (
  λ e.
      let (first, rest) =
        >>-ok (check_position seg even segs p) (validate_from (not even) segs p) e in
      IsShaped-cons even seg segs ((check_position_iff seg even segs p).0 (first.1))
        ((validate_from_iff (not even) segs p).0 rest),
  λ s.
      >>-intro (check_position seg even segs p) (validate_from (not even) segs p)
        ((check_position_iff seg even segs p).1 (s 0 seg refl))
        ((validate_from_iff (not even) segs p).1
          λ i t h. (MayStand-suc even (length segs) i t).0 (s (suc i) t h)),
)

-- The shape check accepts a pattern exactly when every segment may stand at its index: literals
-- anywhere, variables at odd indices, a recursive wildcard at the last index where that is even.
pub validate_segment_shape_iff :
    (segs : List PathSegment) (p : Text)
    → (validate_segment_shape segs p ≡ ok tt) ↔ IsShaped true segs
unfolding validate_segment_shape
validate_segment_shape_iff segs p = validate_from_iff true segs p
