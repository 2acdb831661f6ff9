-- ===== src/Tests/Transforms.antt =====
-- Field transforms with integers in the place of `f64`.
use embyr_rs.Base.{Bool, true, some, List, [], ◌∷◌, ◌++◌, ◌≡◌, ◌≢◌, ◌↔◌, ◌⊎◌, refl, arith, ok, All}
use embyr_rs.Base.Int.{ℤ, pos, ◌+ℤ◌, IsI64}
use embyr_rs.Base.Text.{Text, codes}
use embyr_rs.Base.Dict.{Dict, get, insert}
use embyr_rs.Domain.FieldValue.{FieldValue, Values, integer, double, no_values, value, value_eq}
use embyr_rs.Domain.FieldTransform.{
  increment, Extremum, apply_field_transform, compute_increment, compute_extremum, increment_base,
  add_numeric, checked_add, append_missing, retain, contains, as_f64,
}
use embyr_rs.Domain.FieldTransform.Fields.{apply_field_transform-get}
use embyr_rs.Domain.FieldTransform.Numeric.{
  IsTotal, Beats, base_integer, compute_increment_iff, compute_extremum_lem,
}
use embyr_rs.Domain.FieldTransform.Arrays.{elements, append_missing_lem, retain_lem}
use embyr_rs.Tests.Floats.{whole_float}

abbrev visits : Dict (FieldValue ℤ)
visits = (codes "visits", integer (pos 41)) ∷ []

abbrev counted : Dict (FieldValue ℤ)
counted = (codes "visits", integer (pos 42)) ∷ []

increment_run :
    apply_field_transform visits (increment (codes "visits") (integer (pos 1))) (pos 0, pos 0)
    ≡ ok (counted, some (integer (pos 42)))
unfolding apply_field_transform compute_increment get insert increment_base add_numeric checked_add
    ◌+ℤ◌
increment_run = refl

apply_field_transform-get_example :
    ((j : Text) → j ≢ codes "visits" → get j counted ≡ get j visits)
    × ((v : FieldValue ℤ)
        → some (integer (pos 42)) ≡ some v
        → get (codes "visits") counted ≡ some v)
apply_field_transform-get_example =
    apply_field_transform-get visits counted (increment (codes "visits") (integer (pos 1)))
      (pos 0, pos 0) (some (integer (pos 42))) increment_run

compute_increment_iff_example :
    (compute_increment {F = ℤ} (some (integer (pos 41))) (integer (pos 1)) ≡ ok (integer (pos 42)))
    ↔ ((a : ℤ) × (base_integer {F = ℤ} (some (integer (pos 41))) ≡ some a)
        × (pos 42 ≡ a +ℤ pos 1)
        × IsI64 (a +ℤ pos 1))
compute_increment_iff_example = compute_increment_iff (some (integer (pos 41))) (pos 1) (pos 42)

leb_ℤ-IsTotal : IsTotal whole_float
leb_ℤ-IsTotal x y p q = ground arith

compute_extremum_lem_example :
    (r : FieldValue ℤ) × (compute_extremum
        (some (integer (pos 3)))
        (double (pos 5))
        Extremum.maximum
      ≡ ok r)
    × ((r ≡ integer (pos 3)) ⊎ (r ≡ double (pos 5)))
    × Beats Extremum.maximum r (integer (pos 3))
    × Beats Extremum.maximum r (double (pos 5))
unfolding as_f64
compute_extremum_lem_example =
    compute_extremum_lem leb_ℤ-IsTotal (integer (pos 3)) (double (pos 5)) Extremum.maximum refl refl
      refl refl

abbrev tags : Values ℤ
tags = value (integer (pos 1)) (value (integer (pos 2)) no_values)

abbrev more : Values ℤ
more = value (integer (pos 2)) (value (integer (pos 3)) no_values)

append_missing_lem_example :
    ((suffix : List (FieldValue ℤ)) × (elements (append_missing tags more)
        ≡ elements tags ++ suffix))
    × All (λ v. contains (append_missing tags more) v ≡ true) (elements more)
    × (append_missing (append_missing tags more) more ≡ append_missing tags more)
unfolding value_eq
append_missing_lem_example = append_missing_lem tags more (refl, (refl, tt))

retain_lem_example :
    All (λ v. contains more v ≡ Bool.false) (elements (retain tags more))
    × (All (λ v. contains more v ≡ Bool.false) (elements tags) → retain tags more ≡ tags)
    × (retain (retain tags more) more ≡ retain tags more)
retain_lem_example = retain_lem tags more
