-- ===== src/Domain/FieldTransform/Numeric.antt =====
-- The arithmetic of `increment`, `maximum` and `minimum`.
use embyr_rs.Base.{
  true, Option, none, some, ◌≡◌, ◌↔◌, refl, arith, ok, Bool-cases, inl, inr, ◌⊎◌, subst,
}
use embyr_rs.Base.Int.{ℤ, pos, ◌+ℤ◌, IsI64, fits_i64}
use embyr_rs.Domain.FieldValue.{Float, FieldValue, integer, double}
use embyr_rs.Domain.FieldTransform.{
  Extremum, checked_add, or_overflow, is_numeric, as_f64, zero_like, add_numeric, increment_base,
  compute_increment, current_wins, pick_extremum, compute_extremum,
}

fits_i64_iff : (z : ℤ) → (fits_i64 z ≡ true) ↔ IsI64 z
fits_i64_iff z = ground arith

checked_add_iff : (a b c : ℤ) → (checked_add a b ≡ some c) ↔ ((c ≡ a +ℤ b) × IsI64 (a +ℤ b))
unfolding checked_add
checked_add_iff a b c = elim (Bool-cases (fits_i64 (a +ℤ b))) [
  | inl e ↦ (λ h. (cc, (fits_i64_iff (a +ℤ b)).0 e), λ (p, q). cc)
  | inr e ↦ (λ h. absurd (cc), λ (p, q). absurd (cc ((fits_i64_iff (a +ℤ b)).1 q)))
]

-- Any two numbers that equal themselves are ordered: IEEE comparison without NaN.
abbrev pub IsTotal : {F : Type 0} → Float F → Type 0
IsTotal {F} float =
    (x y : F)
    → float.le x x ≡ true
    → float.le y y ≡ true
    → (float.le x y ≡ true) ⊎ (float.le y x ≡ true)

module _ {F : Type 0} ⦃float : Float F⦄ where
  -- The integer that a field counts from: a missing field counts as zero.
  abbrev pub base_integer : Option (FieldValue F) → Option ℤ
  base_integer none = some (pos 0)
  base_integer (some (integer a)) = some a
  base_integer (some _) = none

  or_overflow_iff : (o : Option ℤ) (c : ℤ) → (or_overflow {F = F} o ≡ ok (integer c)) ↔ (o ≡ some c)
  or_overflow_iff none c = (λ h. absurd (cc), λ h. absurd (cc))
  or_overflow_iff (some x) c = (λ h. cc, λ h. cc)

  -- Incrementing by an integer gives the integer c exactly when the field is missing or holds an
  -- integer, c is the exact sum and the sum lies in the range of `i64`: it never wraps around.
  pub compute_increment_iff :
      (current : Option (FieldValue F)) (delta c : ℤ)
      → (compute_increment current (integer delta) ≡ ok (integer c))
        ↔ ((a : ℤ) × (base_integer current ≡ some a) × (c ≡ a +ℤ delta) × IsI64 (a +ℤ delta))
  unfolding compute_increment increment_base zero_like add_numeric
  compute_increment_iff none delta c =
      let (to, from) = or_overflow_iff (checked_add (pos 0) delta) c in
      let (to', from') = checked_add_iff (pos 0) delta c in
      (
        λ h. let (e, r) = to' (to h) in (pos 0, refl, e, r),
        λ (a, p, e, r).
            let same : a ≡ pos 0 = cc in
            from (from' (subst (λ y. (c ≡ y +ℤ delta) × IsI64 (y +ℤ delta)) same (e, r))),
      )
  compute_increment_iff (some (integer a)) delta c =
      let (to, from) = or_overflow_iff (checked_add a delta) c in
      let (to', from') = checked_add_iff a delta c in
      (
        λ h. let (e, r) = to' (to h) in (a, refl, e, r),
        λ (x, p, e, r).
            let same : x ≡ a = cc in
            from (from' (subst (λ y. (c ≡ y +ℤ delta) × IsI64 (y +ℤ delta)) same (e, r))),
      )
  compute_increment_iff (some (double d)) delta c = (λ h. absurd (cc), λ (a, p, e, r). absurd (cc))
  compute_increment_iff (some _) delta c = (λ h. absurd (cc), λ (a, p, e, r). absurd (cc))

  -- Whether a numeric value stands on the winning side of another.
  abbrev pub Beats : Extremum → FieldValue F → FieldValue F → Type 0
  Beats Extremum.maximum w v = float.le (as_f64 v) (as_f64 w) ≡ true
  Beats Extremum.minimum w v = float.le (as_f64 w) (as_f64 v) ≡ true

  extremum_pick :
      (v given : FieldValue F) (which : Extremum)
      → (pick_extremum v given which ≡ v) ⊎ (pick_extremum v given which ≡ given)
  unfolding pick_extremum
  extremum_pick v given which = elim (Bool-cases (current_wins v given which)) [
    | inl e ↦ inl (rw e)
    | inr e ↦ inr (rw e)
  ]

  pick_extremum-Beats :
      IsTotal float
      → (v given : FieldValue F) (which : Extremum) → float.le (as_f64 v) (as_f64 v) ≡ true
      → float.le (as_f64 given) (as_f64 given) ≡ true
      → Beats which (pick_extremum v given which) v
        × Beats which (pick_extremum v given which) given
  unfolding pick_extremum current_wins
  pick_extremum-Beats total v given Extremum.maximum p q =
      ground (arith, total (as_f64 v) (as_f64 given))
  pick_extremum-Beats total v given Extremum.minimum p q =
      ground (arith, total (as_f64 v) (as_f64 given))

  -- `maximum` and `minimum` of a numeric field and a numeric comparand keep one of the two, its type
  -- included and without a promotion of an integer to a double, and the one kept is, as converted to
  -- f64, not below (for `minimum` not above) either of them as converted, where neither is NaN.
  pub compute_extremum_lem :
      IsTotal float
      → (v given : FieldValue F) (which : Extremum) → is_numeric v ≡ true
      → is_numeric given ≡ true
      → float.le (as_f64 v) (as_f64 v) ≡ true
      → float.le (as_f64 given) (as_f64 given) ≡ true
      → (r : FieldValue F) × (compute_extremum (some v) given which ≡ ok r)
        × ((r ≡ v) ⊎ (r ≡ given))
        × Beats which r v
        × Beats which r given
  unfolding compute_extremum
  compute_extremum_lem total v given which n m p q =
      let (b, b') = pick_extremum-Beats total v given which p q in
      (pick_extremum v given which, rw (m, n) refl, extremum_pick v given which, b, b')
