-- ===== src/AccessControl/RulesFile/Decompose/Shaped.antt =====
-- The segments that the shape check lets through, and those before the leaf of them.
use embyr_rs.Base.{
  Bool, true, false, not, Bool-cases, some, List, [], ◌∷◌, length, ◌%◌, ◌==◌, All, ◌≡◌, ◌≢◌, inl,
  inr, refl, ok, >>-ok, last, init,
}
use embyr_rs.Base.Text.{Text}
use embyr_rs.AccessControl.PathRouting.{PathSegment, literal, wildcard, recursive_wildcard}
use embyr_rs.AccessControl.PathRouting.Skeleton.{IsRouted, IsDocument}
use embyr_rs.AccessControl.RulesFile.Segments.{check_position, validate_from}
use embyr_rs.AccessControl.RulesFile.Segments.Rendering.{IsNamed}
use embyr_rs.AccessControl.RulesFile.Decompose.{split_leaf}

-- A recursive wildcard of a checked pattern is its last segment.
pub validate_from-IsNamed :
    (even : Bool) (segs : List PathSegment) (p : Text)
    → validate_from even segs p ≡ ok tt
    → last segs ≢ some recursive_wildcard
    → All IsNamed segs
unfolding validate_from check_position
validate_from-IsNamed even [] p v n = tt
validate_from-IsNamed even (recursive_wildcard ∷ []) p v n = absurd (n refl)
validate_from-IsNamed even (recursive_wildcard ∷ s ∷ segs) p v n = cc
validate_from-IsNamed even (literal s ∷ []) p v n = (tt, tt)
validate_from-IsNamed even (wildcard s ∷ []) p v n = (tt, tt)
validate_from-IsNamed even (literal s ∷ t ∷ segs) p v n =
    (tt, validate_from-IsNamed (not even) (t ∷ segs) p v n)
validate_from-IsNamed even (wildcard s ∷ t ∷ segs) p v n = (
  tt,
  validate_from-IsNamed (not even) (t ∷ segs) p
      ((>>-ok (check_position (wildcard s) even (t ∷ segs) p) _ v).1) n,
)

-- Without it the collection names are literals.
mutual
  unfolding validate_from check_position

  pub validate_from-IsRouted :
      (segs : List PathSegment) (p : Text)
      → validate_from true segs p ≡ ok tt
      → All IsNamed segs
      → IsRouted segs
  validate_from-IsRouted [] p v n = tt
  validate_from-IsRouted (literal s ∷ segs) p v (n, ns) = validate_from-IsDocument segs p v ns
  validate_from-IsRouted (wildcard s ∷ segs) p v n = cc
  validate_from-IsRouted (recursive_wildcard ∷ segs) p v n = absurd (n.0)

  validate_from-IsDocument :
      (segs : List PathSegment) (p : Text)
      → validate_from false segs p ≡ ok tt
      → All IsNamed segs
      → IsDocument segs
  validate_from-IsDocument [] p v n = tt
  validate_from-IsDocument (literal s ∷ segs) p v (n, ns) = validate_from-IsRouted segs p v ns
  validate_from-IsDocument (wildcard s ∷ segs) p v (n, ns) = validate_from-IsRouted segs p v ns
  validate_from-IsDocument (recursive_wildcard ∷ segs) p v n = absurd (n.0)

mutual
  pub init-IsRouted : (segs : List PathSegment) → IsRouted segs → IsRouted (init segs)
  init-IsRouted [] r = tt
  init-IsRouted (s ∷ []) r = tt
  init-IsRouted (literal s ∷ t ∷ segs) r = init-IsDocument (t ∷ segs) r
  init-IsRouted (wildcard s ∷ t ∷ segs) r = absurd r
  init-IsRouted (recursive_wildcard ∷ t ∷ segs) r = absurd r

  init-IsDocument : (segs : List PathSegment) → IsDocument segs → IsDocument (init segs)
  init-IsDocument [] r = tt
  init-IsDocument (s ∷ []) r = tt
  init-IsDocument (s ∷ t ∷ segs) r = init-IsRouted (t ∷ segs) r

pub init-All : (P : PathSegment → Type 0) (segs : List PathSegment) → All P segs → All P (init segs)
init-All P [] h = tt
init-All P (s ∷ []) h = tt
init-All P (s ∷ t ∷ segs) h = (h.0, init-All P (t ∷ segs) (h.1))

-- Nor does one stand before the last segment of any checked pattern.
pub validate_from-init :
    (even : Bool) (segs : List PathSegment) (p : Text)
    → validate_from even segs p ≡ ok tt
    → All IsNamed (init segs)
unfolding validate_from check_position
validate_from-init even [] p v = tt
validate_from-init even (s ∷ []) p v = tt
validate_from-init even (recursive_wildcard ∷ s ∷ segs) p v = cc
validate_from-init even (literal s ∷ t ∷ segs) p v =
    (tt, validate_from-init (not even) (t ∷ segs) p v)
validate_from-init even (wildcard s ∷ t ∷ segs) p v = (
  tt,
  validate_from-init (not even) (t ∷ segs) p
      ((>>-ok (check_position (wildcard s) even (t ∷ segs) p) _ v).1),
)

-- The parity of an index is turned at each step, to the last segment, a recursive wildcard.
mutual
  unfolding validate_from check_position

  pub validate_from-init-IsRouted :
      (segs : List PathSegment) (p : Text)
      → validate_from true segs p ≡ ok tt
      → IsRouted (init segs)
  validate_from-init-IsRouted [] p v = tt
  validate_from-init-IsRouted (s ∷ []) p v = tt
  validate_from-init-IsRouted (literal s ∷ t ∷ segs) p v =
      validate_from-init-IsDocument (t ∷ segs) p v
  validate_from-init-IsRouted (wildcard s ∷ t ∷ segs) p v = cc
  validate_from-init-IsRouted (recursive_wildcard ∷ t ∷ segs) p v = cc

  validate_from-init-IsDocument :
      (segs : List PathSegment) (p : Text)
      → validate_from false segs p ≡ ok tt
      → IsDocument (init segs)
  validate_from-init-IsDocument [] p v = tt
  validate_from-init-IsDocument (s ∷ []) p v = tt
  validate_from-init-IsDocument (literal s ∷ t ∷ segs) p v =
      validate_from-init-IsRouted (t ∷ segs) p v
  validate_from-init-IsDocument (wildcard s ∷ t ∷ segs) p v =
      validate_from-init-IsRouted (t ∷ segs) p v
  validate_from-init-IsDocument (recursive_wildcard ∷ t ∷ segs) p v = cc

-- What holds of the segments and of those before the leaf holds of the ancestor.
pub split_leaf-of :
    (P : List PathSegment → Type 0) (segs : List PathSegment)
    → P segs
    → P (init segs)
    → P ((split_leaf segs).0)
unfolding split_leaf
split_leaf-of P segs p q = elim (Bool-cases (length segs % 2 == 0)) [
  | inl e ↦ rw e q
  | inr e ↦ rw e p
]
