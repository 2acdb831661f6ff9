-- ===== src/Tests/Floats.antt =====
-- Integers in the place of `f64`, to run the model.
use embyr_rs.Base.{none}
use embyr_rs.Base.Int.{ℤ, pos, ◌+ℤ◌, ◌-ℤ◌, eqb_ℤ, ltb_ℤ, leb_ℤ}
use embyr_rs.Domain.FieldValue.{Float}

instance abbrev pub whole_float : Float ℤ
whole_float = record {
  zero = pos 0;
  of_i64 = λ z. z;
  eq = eqb_ℤ;
  lt = ltb_ℤ;
  le = leb_ℤ;
  add = ◌+ℤ◌;
  sub = ◌-ℤ◌;
  of_decimal = λ s. none;
}
